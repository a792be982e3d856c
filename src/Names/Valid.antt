-- ===== src/Names/Valid.antt =====
-- What a valid host name is, and what follows for the other packages.
pub mod Canonical
pub mod Encodable
use local_dns.Base.{
  ℕ, zero, suc, ◌+◌, ◌-◌, ◌≤◌, ◌<◌, ◌≡◌, ◌≢◌, ◌↔◌, refl, sym, ap, ◌∙◌, List, [], ◌∷◌, ◌++◌,
  append_assoc, Bool, true, false, not, ◌&&◌, ◌||◌, Bytes, Option, none, some, Outcome, ok, err,
  ◌>>=◌, All, length, length-append, get_or, ltb, leb, ◌==◌, bytes_eq, if◌then◌else◌, arith, tests,
  Bool-cases, Option-cases, inl, inr,
}
use local_dns.Base.Text.{
  is_empty, is_dot, is_space, lower, split, split-join, join-split, to_lower, trim, trim_left,
  trim_right, trim_space, total_length, length-join_split,
}
use local_dns.Names.{
  missing_label, long_label, bad_character, edge_hyphen, all_host_chars, is_host_char, check_label,
  check_labels, validate_labels, normalize,
}

-- A label by the rules for host names.
pub record IsHostLabel (label : Bytes) : Type 0 where
  pub some_bytes : 1 ≤ length label
  pub fits : length label ≤ 63
  pub chars : All (λ c. is_host_char c ≡ true) label
  pub first : get_or label 0 0 ≢ b'-'
  pub last : get_or label (length label - 1) 0 ≢ b'-'

-- A host name: at most 200 bytes, in labels by the rules.
pub record IsHostName (name : Bytes) : Type 0 where
  pub some_bytes : 1 ≤ length name
  pub fits : length name ≤ 200
  pub labels : All IsHostLabel (split b'.' name)

abbrev pub IsSpelled : Bytes → Type 0
IsSpelled = All (λ c. is_host_char c ≡ true)

all_host_chars→HostChars : (s : Bytes) → all_host_chars s ≡ true → IsSpelled s
unfolding all_host_chars
all_host_chars→HostChars [] h = tt
all_host_chars→HostChars (c ∷ s) h = (ground arith, all_host_chars→HostChars s (ground arith))

IsSpelled→all_host_chars : (s : Bytes) → IsSpelled s → all_host_chars s ≡ true
unfolding all_host_chars
IsSpelled→all_host_chars [] h = refl
IsSpelled→all_host_chars (c ∷ s) (hc, h) = rw (hc, IsSpelled→all_host_chars s h)

-- The body of `check_label`, with the loop over the bytes shut.
check_label_equation :
    (l : Bytes)
    → check_label l ≡ (
        if is_empty l
        then some missing_label
        else if ltb 63 (length l)
        then some long_label
        else if not (all_host_chars l)
        then some bad_character
        else if get_or l 0 0 == b'-' || get_or l (length l - 1) 0 == b'-'
        then some edge_hyphen
        else none)
unfolding check_label
check_label_equation l = refl

check_label→IsHostLabel : (l : Bytes) → check_label l ≡ none → IsHostLabel l
check_label→IsHostLabel [] h = unfold check_label in cc
check_label→IsHostLabel (c ∷ s) h =
    let l = c ∷ s in
    let e = check_label_equation l in
    record {
      some_bytes = omega arith;
      fits = ground arith;
      chars = all_host_chars→HostChars l (ground arith);
      first = ground arith;
      last = ground arith;
    }

IsHostLabel→check_label : (l : Bytes) → IsHostLabel l → check_label l ≡ none
IsHostLabel→check_label [] v = absurd (omega (arith, v.some_bytes))
IsHostLabel→check_label (c ∷ s) v =
    ground (arith, check_label_equation (c ∷ s), IsSpelled→all_host_chars (c ∷ s) v.chars)

check_labels→All : (ls : List Bytes) → check_labels ls ≡ none → All IsHostLabel ls
unfolding check_labels
check_labels→All [] h = tt
check_labels→All (l ∷ ls) h =
    (check_label→IsHostLabel l (ground arith), check_labels→All ls (ground arith))

All→check_labels : (ls : List Bytes) → All IsHostLabel ls → check_labels ls ≡ none
unfolding check_labels
All→check_labels [] h = refl
All→check_labels (l ∷ ls) (h, hs) =
    ground (arith, IsHostLabel→check_label l h, All→check_labels ls hs)

validate_labels→IsHostName : (name : Bytes) → validate_labels name ≡ none → IsHostName name
unfolding validate_labels
validate_labels→IsHostName [] h = cc
validate_labels→IsHostName (c ∷ s) h = record {
  some_bytes = omega arith;
  fits = ground arith;
  labels = check_labels→All (split b'.' (c ∷ s)) (ground arith);
}

IsHostName→validate_labels : (name : Bytes) → IsHostName name → validate_labels name ≡ none
unfolding validate_labels
IsHostName→validate_labels [] v = absurd (omega (arith, v.some_bytes))
IsHostName→validate_labels (c ∷ s) v =
    ground (arith, All→check_labels (split b'.' (c ∷ s)) v.labels, v.fits)

-- `ValidateLabels` accepts exactly the host names: at most 200 bytes, in labels of 1 to 63 letters,
-- digits and hyphens, with no hyphen at either end.
pub validate_labels_iff : (name : Bytes) → (validate_labels name ≡ none) ↔ IsHostName name
validate_labels_iff name = (validate_labels→IsHostName name, IsHostName→validate_labels name)
