-- ===== src/Tests.antt =====
-- The theorems at concrete messages, names and stores.
mod Wire
mod Names
mod Stores
mod Serving
mod Ptr
mod Settings
mod Scanning
mod Requests
mod Living
mod Running
mod Registries
use local_dns.Base.{ℕ, ◌<◌, ◌≡◌, [], ◌∷◌, Bool, true, ◌&&◌, Bytes, All, ltb, arith}

-- Each number is that of a byte.
abbrev are_bytes : Bytes → Bool
are_bytes [] = true
are_bytes (b ∷ s) = ltb b 256 && are_bytes s

pub are_bytes→All : (s : Bytes) → are_bytes s ≡ true → All (λ b. b < 256) s
are_bytes→All [] h = tt
are_bytes→All (b ∷ s) h = (ground arith, are_bytes→All s (ground arith))
