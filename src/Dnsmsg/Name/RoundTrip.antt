-- ===== src/Dnsmsg/Name/RoundTrip.antt =====
-- `decodeNameUncompressed` against `EncodeName`.
use local_dns.Base.{
  ℕ, zero, suc, ◌+◌, ◌-◌, length-map, ◌*◌, ◌≤◌, ◌≡◌, ◌≢◌, refl, ◌∙◌, ap, List, [], ◌∷◌, ◌++◌,
  append_assoc, map-append, Bytes, Outcome, ok, err, All, length, length-append, arith, tests, ltb,
  if◌then◌else◌, ◌>>=◌, >>=-eq-ok, true, slice, slice-append, get_or-append, Bool-cases, bytes_eq,
  bytes_eq→eq, ◌||◌, inl, inr,
}
use local_dns.Base.Text.{
  to_lower, lower, split, join, join-split, split-ne-nil, trim_suffix, is_empty,
}
use local_dns.Dnsmsg.Word.{Error, byte_at, bad_name}
use local_dns.Dnsmsg.Name.{
  decode_loop, decode_name_uncompressed, write_labels, encode_name, dotted, max_rounds,
}
use local_dns.Dnsmsg.Name.Wire.{wire, IsLabel, write_labels-ok}
use local_dns.Dnsmsg.Name.Steps.{decode_loop_end, decode_loop_label}

-- What the builder holds after the labels are read.
pub labels_text : Bytes → List Bytes → Bytes
labels_text sb [] = sb
labels_text sb (l ∷ ls) = labels_text (dotted sb ++ to_lower l) ls

module _ (pre l : Bytes) (ls : List Bytes) (rest : Bytes) where
  abbrev message : Bytes
  message = pre ++ (wire (l ∷ ls) ++ rest)

  message_regrouped : message ≡ (pre ++ length l ∷ l) ++ (wire ls ++ rest)
  unfolding wire
  message_regrouped = simp append_assoc

  length_byte : byte_at message (length pre) ≡ length l
  unfolding wire
  length_byte = get_or-append pre (length l ∷ (l ++ wire ls) ++ rest) (length pre) 0 0 (omega arith)

  label_slice : slice message (length pre + 1) (length pre + 1 + length l) ≡ l
  unfolding wire
  label_slice =
      let e : message ≡ (pre ++ length l ∷ []) ++ (l ++ (wire ls ++ rest)) = simp append_assoc in
      rw e (
        slice-append (pre ++ length l ∷ []) l (wire ls ++ rest) (length pre + 1)
          (length pre + 1 + length l) (omega (arith, length-append pre (length l ∷ [])))
          (omega (arith, length-append pre (length l ∷ []))))

  length-message : length message ≡ length pre + 1 + length l + length (wire ls ++ rest)
  unfolding wire
  length-message = omega (
    arith,
    ap (length {A = ℕ}) message_regrouped,
    length-append (pre ++ length l ∷ l) (wire ls ++ rest),
    length-append pre (length l ∷ l),
  )

decode_loop-wire :
    (ls : List Bytes) (rounds : ℕ) (pre rest : Bytes) (total : ℕ) (sb : Bytes)
    → All IsLabel ls
    → total + length (wire ls) ≤ 255
    → 256 ≤ total + 2 * rounds
    → decode_loop rounds (pre ++ (wire ls ++ 0 ∷ rest)) (length pre) total sb
      ≡ ok (labels_text sb ls, length pre + length (wire ls) + 1)
unfolding labels_text wire
decode_loop-wire ls zero pre rest total sb h fits enough = absurd (omega arith)
decode_loop-wire [] (suc rounds) pre rest total sb h fits enough = ground (
  arith,
  decode_loop_end rounds (pre ++ 0 ∷ rest) (length pre) total sb
      (omega (arith, length-append pre (0 ∷ rest)))
      (get_or-append pre (0 ∷ rest) (length pre) 0 0 (omega arith)),
)
decode_loop-wire (l ∷ ls) (suc rounds) pre rest total sb (h, hs) fits enough =
    let len : length (wire (l ∷ ls)) ≡ 1 + length l + length (wire ls) =
      omega (arith, length-append l (wire ls)) in
    let step =
      decode_loop_label rounds (message pre l ls (0 ∷ rest)) (length pre) total sb (length l)
        (length_byte pre l ls (0 ∷ rest)) h.0 h.1
        (omega (arith, length-message pre l ls (0 ∷ rest))) (omega arith) in
    let ih =
      decode_loop-wire ls rounds (pre ++ length l ∷ l) rest (total + (length l + 1))
        (dotted sb ++ to_lower l) hs (omega arith) (omega arith) in
    let off : length pre + (1 + length l) ≡ length (pre ++ length l ∷ l) =
      omega (arith, length-append pre (length l ∷ l)) in
    let end : length (pre ++ length l ∷ l) + length (wire ls) + 1
        ≡ length pre + length (wire (l ∷ ls)) + 1 =
      omega arith in
    cc (step, ih, label_slice pre l ls (0 ∷ rest), message_regrouped pre l ls (0 ∷ rest), off, end)

dotted-append : (s : Bytes) (n : ℕ) → suc n ≡ length s → dotted s ≡ s ++ b'.' ∷ []
dotted-append [] n h = absurd (omega arith)
dotted-append (c ∷ s) n h = refl

-- The text that the labels make is their join, in lower case.
labels_text-join :
    (sb l : Bytes) (ls : List Bytes)
    → All IsLabel (l ∷ ls)
    → labels_text sb (l ∷ ls) ≡ dotted sb ++ to_lower (join b'.' (l ∷ ls))
unfolding labels_text join
labels_text-join sb l [] h = refl
labels_text-join sb l (m ∷ ls) (h, hs) =
    let grown = dotted sb ++ to_lower l in
    let len : length grown ≡ length (dotted sb) + length (to_lower l) =
      length-append (dotted sb) (to_lower l) in
    let low : length (to_lower l) ≡ length l = unfold to_lower in length-map l lower in
    let dot : dotted grown ≡ grown ++ b'.' ∷ [] =
      dotted-append grown (length grown - 1) (omega arith) in
    labels_text-join grown m ls hs
    ∙ rw dot (unfold to_lower lower in simp (map-append, append_assoc))

labels_text_of_ne :
    (ls : List Bytes) → ls ≢ [] → All IsLabel ls → labels_text [] ls ≡ to_lower (join b'.' ls)
labels_text_of_ne [] h _ = absurd (h refl)
labels_text_of_ne (l ∷ ls) _ h = labels_text-join [] l ls h

labels_text-split :
    (s : Bytes) → All IsLabel (split b'.' s) → labels_text [] (split b'.' s) ≡ to_lower s
labels_text-split s h =
    labels_text_of_ne (split b'.' s) (split-ne-nil b'.' s) h ∙ ap to_lower (join-split b'.' s)

abbrev pub dot : Bytes
dot = b'.' ∷ []

-- The bound on the whole name, behind the labels.
unfoldable pub finish : Bytes → Outcome Error Bytes
finish out = if ltb 255 (length out + 1) then err bad_name else ok (out ++ 0 ∷ [])

pub encode_name_equation :
    (name : Bytes)
    → encode_name name ≡ (
        if is_empty name || bytes_eq name dot
        then ok (0 ∷ [])
        else write_labels (split b'.' (trim_suffix name dot)) [] >>= finish)
unfolding encode_name finish
encode_name_equation name = refl

trim_suffix-root :
    (name : Bytes) → (is_empty name || bytes_eq name dot) ≡ true → trim_suffix name dot ≡ []
unfolding trim_suffix
trim_suffix-root [] h = refl
trim_suffix-root (c ∷ s) h = ap (λ (n : Bytes). trim_suffix n dot) (bytes_eq→eq (c ∷ s) dot h)

-- The labels behind an encoded name: what is written, in 255 bytes at most, and what it reads as.
pub record Labels (name out : Bytes) : Type 0 where
  pub labels : List Bytes
  pub valid : All IsLabel labels
  pub written : out ≡ wire labels ++ 0 ∷ []
  pub fits : length out ≤ 255
  pub text : labels_text [] labels ≡ to_lower (trim_suffix name dot)

finish-ok : (body out : Bytes) → finish body ≡ ok out → (out ≡ body ++ 0 ∷ []) × (length out ≤ 255)
unfolding finish
finish-ok body out h = elim (Bool-cases (ltb 255 (length body + 1))) [
  | inl long ↦ ground arith
  | inr short ↦
      let e : out ≡ body ++ 0 ∷ [] = ground arith in
      (e, omega (tests, ap (length {A = ℕ}) e, length-append body (0 ∷ [])))
]

encode_name-Labels : (name out : Bytes) → encode_name name ≡ ok out → Labels name out
encode_name-Labels name out h = elim (Bool-cases (is_empty name || bytes_eq name dot)) [
  | inl root ↦
      let e : out ≡ 0 ∷ [] = ground (arith, encode_name_equation name) in
      record {
        labels = [];
        valid = tt;
        written = unfold wire in e;
        fits = rw e (omega arith);
        text = unfold labels_text to_lower in rw (trim_suffix-root name root);
      }
  | inr other ↦
      let labels = split b'.' (trim_suffix name dot) in
      let run : (write_labels labels [] >>= finish) ≡ ok out =
        ground (arith, encode_name_equation name) in
      let (body, wrote, finished) = >>=-eq-ok (write_labels labels []) finish run in
      let (valid, e) = write_labels-ok labels [] wrote in
      let (end, fits) = finish-ok body out finished in
      record {
        labels = labels;
        valid = valid;
        written = end ∙ ap (λ (b : Bytes). b ++ 0 ∷ []) e;
        fits = fits;
        text = labels_text-split (trim_suffix name dot) valid;
      }
]

-- A name that `EncodeName` accepts is read back from the message that it stands in, in lower case
-- and without its final dot, and the offset behind it is returned.
pub decode-encode_name :
    (name out pre rest : Bytes)
    → encode_name name ≡ ok out
    → decode_name_uncompressed (pre ++ (out ++ rest)) (length pre)
      ≡ ok (to_lower (trim_suffix name dot), length pre + length out)
unfolding decode_name_uncompressed
decode-encode_name name out pre rest h =
    let n = encode_name-Labels name out h in
    let len : length out ≡ length (wire n.labels) + 1 =
      omega (arith, ap (length {A = ℕ}) n.written, length-append (wire n.labels) (0 ∷ [])) in
    let small : 0 + length (wire n.labels) ≤ 255 = omega (arith, n.fits) in
    let read = decode_loop-wire n.labels max_rounds pre rest 0 [] n.valid small (omega arith) in
    let whole : out ++ rest ≡ wire n.labels ++ 0 ∷ rest = rw n.written (simp append_assoc) in
    let end : length pre + length (wire n.labels) + 1 ≡ length pre + length out = omega arith in
    rw (whole, ← end, ← n.text) read
