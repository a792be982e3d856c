-- ===== src/Names/Valid/Canonical.antt =====
-- A host name is in the form that `Normalize` yields.
use local_dns.Base.{
  ℕ, ◌≡◌, ◌≢◌, refl, ap, List, [], ◌∷◌, true, false, Bytes, All, All-append, length, arith,
}
use local_dns.Base.Text.{
  is_dot, is_space, lower, split, join, join-split, split-ne-nil, to_lower, trim, trim_left,
  trim_right, trim_space,
}
use local_dns.Base.Text.Trim.{trim_lacking, trim_right_lacking, trim_right-append, trim_right-cons}
use local_dns.Names.{is_host_char, normalize}
use local_dns.Names.Valid.{IsHostLabel, IsHostName, IsSpelled}

module _ (c : ℕ) (h : is_host_char c ≡ true) where
  host_char-dot : is_dot c ≡ false
  unfolding is_host_char
  host_char-dot = ground arith

  host_char-space : is_space c ≡ false
  unfolding is_host_char
  host_char-space = ground arith

  host_char-lower : lower c ≡ c
  unfolding is_host_char lower
  host_char-lower = ground arith

-- What holds of host characters and of the dot holds of every byte of a dotted name.
module _ (P : ℕ → Type 0) (host : (c : ℕ) → is_host_char c ≡ true → P c) where
  All-host : (s : Bytes) → IsSpelled s → All P s
  All-host [] h = tt
  All-host (c ∷ s) (hc, h) = (host c hc, All-host s h)

  All-join : P b'.' → (ls : List Bytes) → All IsHostLabel ls → All P (join b'.' ls)
  unfolding join
  All-join d [] h = tt
  All-join d (l ∷ []) (h, hs) = All-host l h.chars
  All-join d (l ∷ m ∷ ls) (h, hs) =
      All-append P l (b'.' ∷ join b'.' (m ∷ ls)) (All-host l h.chars) (d, All-join d (m ∷ ls) hs)

  All-name : P b'.' → (s : Bytes) → All IsHostLabel (split b'.' s) → All P s
  All-name d s h = rw (join-split b'.' s) at (All-join d (split b'.' s) h)

to_lower_same : (s : Bytes) → All (λ c. lower c ≡ c) s → to_lower s ≡ s
unfolding to_lower
to_lower_same [] h = refl
to_lower_same (c ∷ s) (hc, h) = rw (hc, to_lower_same s h)

label-ne-nil : (l : Bytes) → IsHostLabel l → l ≢ []
label-ne-nil l h e = absurd (omega (arith, h.some_bytes, ap (length {A = ℕ}) e))

join-ne-nil : (l : Bytes) (ls : List Bytes) → IsHostLabel l → join b'.' (l ∷ ls) ≢ []
unfolding join
join-ne-nil l [] h = label-ne-nil l h
join-ne-nil [] (m ∷ ls) h = absurd (omega (arith, h.some_bytes))
join-ne-nil (c ∷ l) (m ∷ ls) h = λ e. cc

-- Neither end of a dotted name is a dot.
trim_right-join :
    (l : Bytes) (ls : List Bytes)
    → All IsHostLabel (l ∷ ls)
    → trim_right is_dot (join b'.' (l ∷ ls)) ≡ join b'.' (l ∷ ls)
unfolding join
trim_right-join l [] (h, hs) =
    trim_right_lacking is_dot l (All-host (λ c. is_dot c ≡ false) host_char-dot l h.chars)
trim_right-join l (m ∷ ls) (h, (hm, hs)) =
    trim_right-append is_dot l (b'.' ∷ join b'.' (m ∷ ls)) (λ e. cc)
      (trim_right-cons is_dot b'.' (join b'.' (m ∷ ls)) (join-ne-nil m ls hm)
        (trim_right-join m ls (hm, hs)))

trim_left-join :
    (l : Bytes) (ls : List Bytes)
    → IsHostLabel l
    → trim_left is_dot (join b'.' (l ∷ ls)) ≡ join b'.' (l ∷ ls)
unfolding join trim_left
trim_left-join [] ls h = absurd (omega (arith, h.some_bytes))
trim_left-join (c ∷ l) [] h = rw (host_char-dot c h.chars.0)
trim_left-join (c ∷ l) (m ∷ ls) h = rw (host_char-dot c h.chars.0)

trims_of_labels :
    (ls : List Bytes)
    → ls ≢ []
    → All IsHostLabel ls
    → (trim_right is_dot (join b'.' ls) ≡ join b'.' ls)
      × (trim_left is_dot (join b'.' ls) ≡ join b'.' ls)
trims_of_labels [] h _ = absurd (h refl)
trims_of_labels (l ∷ ls) _ h = (trim_right-join l ls h, trim_left-join l ls h.0)

pub trims_of_dotted :
    (s : Bytes)
    → All IsHostLabel (split b'.' s)
    → (trim_right is_dot s ≡ s) × (trim_left is_dot s ≡ s)
trims_of_dotted s h =
    rw (join-split b'.' s) at (trims_of_labels (split b'.' s) (split-ne-nil b'.' s) h)

-- A host name is what `Normalize` makes of it.
pub normalize-IsHostName : (name : Bytes) → IsHostName name → normalize name ≡ name
unfolding normalize trim_space
normalize-IsHostName name v =
    let (right, left) = trims_of_dotted name v.labels in
    let no_space = All-name (λ c. is_space c ≡ false) host_char-space refl name v.labels in
    let low = All-name (λ c. lower c ≡ c) host_char-lower (unfold lower in refl) name v.labels in
    rw (trim_lacking is_space name no_space, to_lower_same name low)
      (unfold trim in rw (left, right))
