-- ===== src/Scanner.antt =====
-- internal/scanner: discovery of devices.
pub mod Oui
pub mod Arp
pub mod Network
pub mod Probe
pub mod Round
pub mod Loop
pub mod Pool
