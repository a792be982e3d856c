-- ===== src/Names/Valid/Encodable.antt =====
-- Host names on the wire: `EncodeName` of package dnsmsg takes every host name.
use local_dns.Base.{
  ℕ, ◌+◌, ◌≡◌, refl, sym, ap, ◌∙◌, List, [], ◌∷◌, ◌++◌, true, false, ◌||◌, Bytes, ok, err, All,
  All-append, length, length-append, ltb, bytes_eq, bytes_eq→eq, if◌then◌else◌, arith, le→ltb,
  Bool-cases, inl, inr,
}
use local_dns.Base.Text.{
  is_dot, is_empty, split, split-append_sep, total_length, length-join_split, trim_right,
  trim_suffix, has_suffix, has_suffix→append, has_suffix-append, trim_suffix_absent,
}
use local_dns.Base.Text.Trim.{trim_right-drops, length-trim_right-le}
use local_dns.Dnsmsg.Word.{bad_name}
use local_dns.Dnsmsg.Name.{encode_name}
use local_dns.Dnsmsg.Name.Wire.{wire, IsLabel, write_labels-wire}
use local_dns.Dnsmsg.Name.RoundTrip.{dot, finish, encode_name_equation}
use local_dns.Names.Valid.{IsHostLabel, IsHostName}
use local_dns.Names.Valid.Canonical.{trims_of_dotted}

-- The labels of a dotted name are labels on the wire.
labels-IsLabel : (ls : List Bytes) → All IsHostLabel ls → All IsLabel ls
labels-IsLabel [] h = tt
labels-IsLabel (l ∷ ls) (h, hs) = ((h.some_bytes, h.fits), labels-IsLabel ls hs)

length-wire : (ls : List Bytes) → length (wire ls) ≡ total_length ls
unfolding wire total_length
length-wire [] = refl
length-wire (l ∷ ls) = omega (arith, length-append l (wire ls), length-wire ls)

not_empty : (name : Bytes) → All IsHostLabel (split b'.' name) → is_empty name ≡ false
not_empty [] v = unfold split in absurd (omega (arith, v.0.some_bytes))
not_empty (c ∷ s) v = refl

module _ (name : Bytes) (v : All IsHostLabel (split b'.' name)) where
  -- A dotted name does not end in a dot.
  no_final_dot : has_suffix name dot ≡ false
  no_final_dot = elim (Bool-cases (has_suffix name dot)) [
    | inl final ↦
        let e = has_suffix→append name dot final in
        let front = trim_suffix name dot in
        let (kept, _) = trims_of_dotted name v in
        let cut : trim_right is_dot name ≡ trim_right is_dot front =
          ap (trim_right is_dot) e ∙ trim_right-drops is_dot front b'.' refl in
        absurd (
          omega (
            arith,
            ap (length {A = ℕ}) e,
            ap (length {A = ℕ}) (sym kept ∙ cut),
            length-append front dot,
            length-trim_right-le is_dot front,
          ))
    | inr absent ↦ absent
  ]

  not_root : (is_empty name || bytes_eq name dot) ≡ false
  not_root = elim (Bool-cases (bytes_eq name dot)) [
    | inl root ↦
        let e : has_suffix name dot ≡ true =
          ap (λ (n : Bytes). has_suffix n dot) (bytes_eq→eq name dot root)
          ∙ has_suffix-append [] dot in
        cc (no_final_dot, e)
    | inr other ↦ rw (not_empty name v, other)
  ]

  -- `EncodeName` of a dotted name: refused only for its length.
  pub encode_name-dotted :
      encode_name name
      ≡ (if ltb 255 (length name + 2) then err bad_name else ok (wire (split b'.' name) ++ 0 ∷ []))
  unfolding finish
  encode_name-dotted =
      let labels = split b'.' name in
      let len : length (wire labels) + 1 ≡ length name + 2 =
        omega (arith, length-wire labels, length-join_split b'.' name) in
      rw
        (
          encode_name_equation,
          not_root,
          trim_suffix_absent name dot no_final_dot,
          write_labels-wire labels [] (labels-IsLabel labels v),
        )
        (rw len)

-- Every host name is encoded, in two bytes more than it has.
pub encode_name-IsHostName :
    (name : Bytes)
    → IsHostName name
    → (out : Bytes) × (encode_name name ≡ ok out) × (length out ≡ length name + 2)
encode_name-IsHostName name v =
    let labels = split b'.' name in
    (
      wire labels ++ 0 ∷ [],
      encode_name-dotted name v.labels ∙ rw (le→ltb 255 (length name + 2) (omega (arith, v.fits))),
      omega (
        arith,
        length-append (wire labels) (0 ∷ []),
        length-wire labels,
        length-join_split b'.' name,
      ),
    )

-- A host name under a domain is encoded exactly when both and the dot between them, with the two
-- bytes of the encoding, fit 255 bytes.
pub encode_name-fqdn :
    (host domain : Bytes)
    → IsHostName host
    → IsHostName domain
    → encode_name (host ++ b'.' ∷ domain) ≡ (
        if ltb 255 (length host + length domain + 3)
        then err bad_name
        else ok (wire (split b'.' host ++ split b'.' domain) ++ 0 ∷ []))
encode_name-fqdn host domain vh vd =
    let parts = split-append_sep b'.' host domain in
    let v : All IsHostLabel (split b'.' (host ++ b'.' ∷ domain)) =
      rw parts (All-append IsHostLabel (split b'.' host) (split b'.' domain) vh.labels vd.labels) in
    let len : length (host ++ b'.' ∷ domain) + 2 ≡ length host + length domain + 3 =
      omega (arith, length-append host (b'.' ∷ domain)) in
    encode_name-dotted (host ++ b'.' ∷ domain) v ∙ rw (len, parts)
