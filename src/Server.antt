-- ===== src/Server.antt =====
-- internal/dnsserver/server.go: the DNS server. What an upstream resolver does in an exchange is a
-- parameter, as are the clock and the lookups (`Resolver`); logging and deadlines are left out: a
-- deadline that passes is a read that fails.
pub mod Wire
pub mod Answer
pub mod Handle
pub mod Sources
pub mod Local
pub mod Answered
pub mod Connection
pub mod Managed
pub mod Ptr
pub mod Told
pub mod Life
pub mod Registry
