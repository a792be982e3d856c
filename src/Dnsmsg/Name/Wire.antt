-- ===== src/Dnsmsg/Name/Wire.antt =====
-- What `EncodeName` writes: each label behind its length, and a zero.
use local_dns.Base.{
  suc, ◌%◌, ◌≤◌, ◌≡◌, ◌∙◌, List, [], ◌∷◌, ◌++◌, append_assoc, append-nil, Bytes, ok, All, length,
  arith,
}
use local_dns.Dnsmsg.Name.{write_labels}

abbrev pub IsLabel : Bytes → Type 0
IsLabel l = (1 ≤ length l) × (length l ≤ 63)

-- The labels on the wire, without the final zero.
unfoldable pub wire : List Bytes → Bytes
wire [] = []
wire (l ∷ ls) = length l ∷ (l ++ wire ls)

pub write_labels-wire :
    (ls : List Bytes) (out : Bytes) → All IsLabel ls → write_labels ls out ≡ ok (out ++ wire ls)
unfolding write_labels wire
write_labels-wire [] out h = rw append-nil
write_labels-wire ([] ∷ ls) out (h, hs) = absurd (omega arith)
write_labels-wire ((c ∷ l) ∷ ls) out (h, hs) = ground (
  arith,
  write_labels-wire ls (out ++ (length (c ∷ l) % 256) ∷ (c ∷ l)) hs,
  append_assoc out ((length (c ∷ l)) ∷ (c ∷ l)) (wire ls),
)

pub write_labels-ok :
    (ls : List Bytes) (out : Bytes) {r : Bytes}
    → write_labels ls out ≡ ok r
    → All IsLabel ls × (r ≡ out ++ wire ls)
unfolding write_labels wire
write_labels-ok [] out h = (tt, ground (arith, append-nil out))
write_labels-ok ([] ∷ ls) out h = cc
write_labels-ok ((c ∷ l) ∷ ls) out {r} h =
    let fits : suc (length l) ≤ 63 = ground arith in
    let small : suc (length l) % 256 ≡ suc (length l) = omega arith in
    let (hs, e) = write_labels-ok ls (out ++ suc (length l) ∷ (c ∷ l)) {r = r} (ground arith) in
    ((((omega arith), fits), hs), e ∙ append_assoc out (suc (length l) ∷ (c ∷ l)) (wire ls))
