-- ===== src/Net/HostPort.antt =====
-- `net.SplitHostPort`.
pub mod RoundTrip
use local_dns.Base.{
  ℕ, zero, suc, ◌+◌, [], ◌∷◌, Bool, true, false, ◌||◌, Bytes, Option, none, some, length, get_or,
  drop, take, slice, ◌==◌, if◌then◌else◌,
}
use local_dns.Base.Text.{contains}
use local_dns.Base.Text.Search.{index_byte, last_index_byte}

-- The checks and the cut once the host is known to end at `k` and the last colon stands at `i`.
unfoldable host_and_port : Bytes → Bytes → ℕ → ℕ → ℕ → Option (Bytes × Bytes)
unfolding contains
host_and_port s host j k i =
    if contains b'[' (drop j s) || contains b']' (drop k s)
    then none
    else some (host, drop (suc i) s)

-- `none` stands for the error.
unfoldable pub split_host_port : Bytes → Option (Bytes × Bytes)
unfolding host_and_port index_byte last_index_byte contains slice
split_host_port s = elim (last_index_byte b':' s) [
  | none ↦ none
  | some i ↦
      if get_or s 0 0 == b'['
      then elim (index_byte b']' s) [
        | none ↦ none
        | some end ↦ if suc end == i then host_and_port s (slice s 1 end) 1 (suc end) i else none
      ]
      else if contains b':' (take i s)
      then none
      else host_and_port s (take i s) 0 0 i
]
