-- ===== src/Config/Upstream.antt =====
-- What `normalizeHostPort` adds to the address of an upstream.
use local_dns.Base.{
  ℕ, suc, ◌≤◌, ◌≡◌, ◌≢◌, refl, ap, [], ◌∷◌, ◌++◌, true, false, Bytes, none, some, take, get_or,
  arith, leb, le→leb, ◌==◌, Bool-cases, inl, inr, ◌⊎◌, append_assoc,
}
use local_dns.Base.Text.{contains, Lacks}
use local_dns.Base.Text.Found.{contains-Lacks}
use local_dns.Base.Text.Search.{count, last_index_byte}
use local_dns.Net.HostPort.{split_host_port}
use local_dns.Net.HostPort.RoundTrip.{IsPlain, split_host_port-plain, split_host_port-bracketed}
use local_dns.Config.Validate.{bracketed, normalize_host_port, splits}

module _ (b : ℕ) where
  count-Lacks : (s : Bytes) → count b s ≡ 0 → last_index_byte b s ≡ none
  unfolding count last_index_byte
  count-Lacks [] h = refl
  count-Lacks (c ∷ s) h = ground (arith, count-Lacks s)

  count-last : (s : Bytes) → 1 ≤ count b s → (i : ℕ) × (last_index_byte b s ≡ some i)
  unfolding count last_index_byte
  count-last [] h = absurd (omega arith)
  count-last (c ∷ s) h = elim (Bool-cases (leb 1 (count b s))) [
    | inl more ↦ let (i, e) = count-last s (ground arith) in (suc i, rw e)
    | inr last ↦ (0, ground (arith, count-Lacks s (ground arith)))
  ]

  Lacks-count : (s : Bytes) → Lacks b s → count b s ≡ 0
  unfolding count
  Lacks-count [] h = refl
  Lacks-count (c ∷ s) (hc, h) = ground (arith, Lacks-count s h)

  count-twice :
      (s : Bytes)
      → 2 ≤ count b s
      → (i : ℕ) × (last_index_byte b s ≡ some i) × (contains b (take i s) ≡ true)
  unfolding count last_index_byte contains
  count-twice [] h = absurd (omega arith)
  count-twice (c ∷ s) h = elim (Bool-cases (c == b)) [
    | inl here ↦ let (i, e) = count-last s (ground arith) in (suc i, rw e, rw here)
    | inr other ↦ let (i, e, inside) = count-twice s (ground arith) in (suc i, rw e, ground arith)
  ]

  first-other : (s : Bytes) → Lacks b s → b ≢ 0 → (get_or s 0 0 == b) ≡ false
  first-other [] h z = ground arith
  first-other (c ∷ s) (hc, h) z = ground arith

-- A bare IPv6 address is not a host and a port.
bare-splits : (host : Bytes) → Lacks b'[' host → 2 ≤ count b':' host → splits host ≡ false
unfolding splits split_host_port
bare-splits host left two =
    let (i, e, inside) = count-twice b':' host two in
    rw (e, split_host_port, first-other b'[' host left (omega arith), inside)

plain-splits : (host : Bytes) → IsPlain host → splits host ≡ false
unfolding splits split_host_port
plain-splits host h = rw (count-Lacks b':' host (Lacks-count b':' host h.colon), split_host_port)

module _ (s port : Bytes) where
  normalize_host_port-added :
      splits s ≡ false
      → splits (bracketed s ++ b':' ∷ port) ≡ true
      → normalize_host_port s port ≡ some (bracketed s ++ b':' ∷ port)
  unfolding normalize_host_port
  normalize_host_port-added h k = ground arith

  -- An address that is a host and a port stays.
  pub normalize_host_port-kept : splits s ≡ true → normalize_host_port s port ≡ some s
  unfolding normalize_host_port
  normalize_host_port-kept h = ground arith

module _ (host port : Bytes) (p : IsPlain port) (left : Lacks b'[' host)
    (right : Lacks b']' host) where
  bracketed-plain : Lacks b':' host → bracketed host ≡ host
  unfolding bracketed
  bracketed-plain colon = rw (Lacks-count b':' host colon)

  joined-bare :
      2 ≤ count b':' host → bracketed host ++ b':' ∷ port ≡ b'[' ∷ (host ++ (b']' ∷ b':' ∷ port))
  unfolding bracketed
  joined-bare two =
      rw (le→leb 2 (count b':' host) two, contains-Lacks b'[' host left)
        (ap (◌∷◌ b'[') (append_assoc host (b']' ∷ []) (b':' ∷ port)))

  -- The text is no host and port, and with the port it is split into the two.
  added-splits :
      Lacks b':' host ⊎ (2 ≤ count b':' host)
      → (splits host ≡ false)
        × (split_host_port (bracketed host ++ b':' ∷ port) ≡ some (host, port))
  added-splits (inl colon) =
      let h : IsPlain host = record { colon = colon; left = left; right = right } in
      (plain-splits host h, rw (bracketed-plain colon) (split_host_port-plain host port p h))
  added-splits (inr two) = (
    bare-splits host left two,
    rw (joined-bare two) (split_host_port-bracketed host port p left right),
  )

-- `normalizeHostPort` adds the default port to a text without brackets and without colons, or with two
-- colons or more, an IPv6 address, which it puts in brackets; `net.SplitHostPort` then gives the text
-- and that port. The port has no colon and no bracket.
pub normalize_host_port_lem :
    (host port : Bytes)
    → IsPlain port
    → Lacks b'[' host
    → Lacks b']' host
    → Lacks b':' host ⊎ (2 ≤ count b':' host)
    → (normalize_host_port host port ≡ some (bracketed host ++ b':' ∷ port))
      × (split_host_port (bracketed host ++ b':' ∷ port) ≡ some (host, port))
normalize_host_port_lem host port p left right bare =
    let (alone, together) = added-splits host port p left right bare in
    (normalize_host_port-added host port alone (unfold splits in rw together), together)
