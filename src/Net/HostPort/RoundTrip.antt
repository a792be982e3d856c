-- ===== src/Net/HostPort/RoundTrip.antt =====
-- What `net.SplitHostPort` makes of a host and a port that a colon joins.
use local_dns.Base.{
  ℕ, suc, ◌+◌, ◌≡◌, ◌≢◌, true, ◌-◌, refl, ◌∙◌, ap, [], ◌∷◌, ◌++◌, false, Bytes, some, length,
  get_or, drop, take, slice, arith, length-append, take_of_length-append, drop_of_length-append,
  append_assoc, ◌==◌,
}
use local_dns.Base.Text.{contains, Lacks}
use local_dns.Base.Text.Found.{
  contains-Lacks, contains-append, index_byte-append, last_index_byte-append,
}
use local_dns.Base.Text.Search.{index_byte, last_index_byte}
use local_dns.Net.HostPort.{split_host_port, host_and_port}

-- No colon and no bracket.
pub record IsPlain (s : Bytes) : Type 0 where
  pub colon : Lacks b':' s
  pub left : Lacks b'[' s
  pub right : Lacks b']' s

first-Lacks :
    (b : ℕ) (s t : Bytes) (c : ℕ) → Lacks b s → c ≢ b → (get_or (s ++ c ∷ t) 0 0 == b) ≡ false
first-Lacks b [] t c h hc = ground arith
first-Lacks b (d ∷ s) t c (hd, h) hc = ground arith

-- A byte that is in neither part, nor the one between them.
Lacks-between :
    (b : ℕ) (s t : Bytes) (c : ℕ) → Lacks b s → Lacks b t → c ≢ b → contains b (s ++ c ∷ t) ≡ false
unfolding contains
Lacks-between b s t c hs ht hc =
    contains-append b s (c ∷ t) ∙ ground (arith, contains-Lacks b s hs, contains-Lacks b t ht)

module _ (host port : Bytes) (p : IsPlain port) where
  cut-port : drop (suc (length host)) (host ++ b':' ∷ port) ≡ port
  cut-port = drop_of_length-append host (b':' ∷ port) (suc (length host)) 1 (omega arith)

  cut-host : take (length host) (host ++ b':' ∷ port) ≡ host
  cut-host = take_of_length-append host (b':' ∷ port) (length host) refl

  -- A host without colons and brackets, a colon and a port are split into the two.
  pub split_host_port-plain :
      IsPlain host → split_host_port (host ++ b':' ∷ port) ≡ some (host, port)
  unfolding split_host_port host_and_port
  split_host_port-plain h =
      rw
        (
          last_index_byte-append b':' host port p.colon,
          split_host_port,
          first-Lacks b'[' host port b':' h.left (omega arith),
          cut-host,
          contains-Lacks b':' host h.colon,
        )
        (rw (
          Lacks-between b'[' host port b':' h.left p.left (omega arith),
          Lacks-between b']' host port b':' h.right p.right (omega arith),
          cut-port,
        ))

module _ (host port : Bytes) (p : IsPlain port) (left : Lacks b'[' host)
    (right : Lacks b']' host) where
  last_colon : last_index_byte b':' (b'[' ∷ (host ++ (b']' ∷ b':' ∷ port))) ≡ some (length host + 2)
  last_colon =
      let e : b'[' ∷ (host ++ b']' ∷ []) ++ b':' ∷ port ≡ b'[' ∷ (host ++ (b']' ∷ b':' ∷ port)) =
        ap (◌∷◌ b'[') (append_assoc host (b']' ∷ []) (b':' ∷ port)) in
      let n : length (b'[' ∷ (host ++ b']' ∷ [])) ≡ length host + 2 =
        omega (arith, length-append host (b']' ∷ [])) in
      rw (e, n) at (last_index_byte-append b':' (b'[' ∷ (host ++ b']' ∷ [])) port p.colon)

  -- A host in brackets without brackets in it, a colon and a port are split into the two.
  pub split_host_port-bracketed :
      split_host_port (b'[' ∷ (host ++ (b']' ∷ b':' ∷ port))) ≡ some (host, port)
  unfolding split_host_port host_and_port slice
  split_host_port-bracketed =
      let end : index_byte b']' (b'[' ∷ (host ++ (b']' ∷ b':' ∷ port))) ≡ some (suc (length host)) =
        unfold index_byte in ground (arith, index_byte-append b']' host (b':' ∷ port) right) in
      let same : (suc (suc (length host)) == length host + 2) ≡ true = ground arith in
      let size : suc (length host) - 1 ≡ length host = omega arith in
      let rest : drop (suc (length host)) (host ++ (b']' ∷ b':' ∷ port)) ≡ b':' ∷ port =
        drop_of_length-append host (b']' ∷ b':' ∷ port) (suc (length host)) 1 (omega arith) in
      let tail : drop (length host + 2) (host ++ (b']' ∷ b':' ∷ port)) ≡ port =
        drop_of_length-append host (b']' ∷ b':' ∷ port) (length host + 2) 2 (omega arith) in
      rw (
        last_colon,
        split_host_port,
        end,
        same,
        size,
        take_of_length-append host (b']' ∷ b':' ∷ port) (length host) refl,
        rest,
        Lacks-between b'[' host (b':' ∷ port) b']' left ((omega arith), p.left) (omega arith),
        contains-Lacks b']' (b':' ∷ port) ((omega arith), p.right),
        tail,
      )
