-- ===== src/Dnsmsg.antt =====
-- internal/dnsmsg/dnsmsg.go: the DNS wire format. A message is a list of bytes; an `error` is one of
-- the two of the package. Reads of a message stand behind the length tests of the code, so the
-- default of `byte_at` is not reached.
pub mod Word
pub mod Header
pub mod Name
pub mod Question
pub mod Query
pub mod Reverse
pub mod Reply
pub mod Message
