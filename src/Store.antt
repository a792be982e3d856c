-- ===== src/Store.antt =====
-- internal/store/store.go: the registry of devices and the DNS mappings. A method takes the store
-- and returns it anew beside its result; the mutex makes each method one step. A time is a number of
-- nanoseconds, 0 for the zero time. `disk` says whether the file system lets a save succeed.
pub mod State
pub mod Files
pub mod Devices
pub mod Mappings
pub mod Resolve
pub mod Entries
pub mod Invariant
pub mod Run
pub mod Views
pub mod Durable
pub mod Registry
