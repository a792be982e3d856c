-- ===== src/Dnsmsg/Reverse/RoundTrip.antt =====
-- `ParseReverseName` against `ReverseName`.
use local_dns.Base.{
  ℕ, zero, suc, ◌+◌, ◌-◌, ◌<◌, ◌≡◌, refl, ap, sym, inl, inr, Option-cases, ◌∙◌, List, [], ◌∷◌, ◌++◌,
  append_assoc, Bytes, Option, none, some, All, length, arith,
}
use local_dns.Base.Bits.{agree, agree→eq}
use local_dns.Base.Text.{
  trim_suffix, split, join, split-join, Lacks, has_suffix-append, trim_suffix-append,
}
use local_dns.Dnsmsg.Word.{IsByte}
use local_dns.Dnsmsg.Reverse.{
  decimal, suffix, reverse_name, read_octet, read_octets, parse_reverse_name, set,
}

-- A number for each result, so that results can be compared by evaluation.
abbrev as_number : Option ℕ → ℕ
as_number none = 256
as_number (some n) = n

as_number-some : (o : Option ℕ) (n : ℕ) → n < 256 → as_number o ≡ n → o ≡ some n
as_number-some none n h e = absurd (omega arith)
as_number-some (some m) n h e = ap some e

read_octet-decimal : (n : ℕ) → IsByte n → read_octet (decimal n) ≡ some n
unfolding read_octet decimal agree
read_octet-decimal n h =
    as_number-some (read_octet (decimal n)) n h
      (agree→eq (λ k. as_number (read_octet (decimal k))) (λ k. k) 256 refl n h)

decimal-Lacks : (n : ℕ) → IsByte n → Lacks b'.' (decimal n)
unfolding decimal
decimal-Lacks n h = ground arith

read_octets_step :
    (p : Bytes) (n : ℕ) (ps : List Bytes) (i : ℕ) (ip : Bytes)
    → read_octet p ≡ some n
    → read_octets (p ∷ ps) i ip ≡ read_octets ps (i + 1) (set ip (3 - i) n)
unfolding read_octets
read_octets_step p n ps i ip e = rw (e, read_octets) refl

read_octets-none :
    (p : Bytes) (ps : List Bytes) (i : ℕ) (ip : Bytes)
    → read_octet p ≡ none
    → read_octets (p ∷ ps) i ip ≡ none
unfolding read_octets
read_octets-none p ps i ip e = rw (e, read_octets) refl

module _ (a b c d : ℕ) where
  abbrev parts : List Bytes
  parts = decimal d ∷ decimal c ∷ decimal b ∷ decimal a ∷ []

  reverse_name-join : reverse_name (a ∷ b ∷ c ∷ d ∷ []) ≡ join b'.' parts ++ suffix
  unfolding reverse_name join
  reverse_name-join = simp append_assoc

  read_octets-parts :
      All IsByte (a ∷ b ∷ c ∷ d ∷ [])
      → read_octets parts 0 (0 ∷ 0 ∷ 0 ∷ 0 ∷ []) ≡ some (a ∷ b ∷ c ∷ d ∷ [])
  read_octets-parts (ha, (hb, (hc, (hd, _)))) =
      read_octets_step (decimal d) d _ 0 _ (read_octet-decimal d hd)
      ∙ read_octets_step (decimal c) c _ 1 _ (read_octet-decimal c hc)
      ∙ read_octets_step (decimal b) b _ 2 _ (read_octet-decimal b hb)
      ∙ read_octets_step (decimal a) a _ 3 _ (read_octet-decimal a ha)
      ∙ unfold read_octets in refl

  -- The reverse name of a four-byte address is parsed back to the address.
  pub parse_reverse_name-reverse_name :
      All IsByte (a ∷ b ∷ c ∷ d ∷ [])
      → parse_reverse_name (reverse_name (a ∷ b ∷ c ∷ d ∷ [])) ≡ some (a ∷ b ∷ c ∷ d ∷ [])
  unfolding parse_reverse_name
  parse_reverse_name-reverse_name h =
      let (ha, (hb, (hc, (hd, _)))) = h in
      rw
        (
          reverse_name-join,
          has_suffix-append (join b'.' parts) suffix,
          trim_suffix-append (join b'.' parts) suffix,
          split-join b'.' (decimal d) (decimal c ∷ decimal b ∷ decimal a ∷ []) (
            decimal-Lacks d hd,
            (decimal-Lacks c hc, (decimal-Lacks b hb, (decimal-Lacks a ha, tt))),
          ),
        )
        (read_octets-parts h)

length-set : (xs : Bytes) (i v : ℕ) → length (set xs i v) ≡ length xs
length-set [] i v = refl
length-set (x ∷ xs) zero v = refl
length-set (x ∷ xs) (suc i) v = ap suc (length-set xs i v)

set-IsByte : (xs : Bytes) (i v : ℕ) → All IsByte xs → IsByte v → All IsByte (set xs i v)
set-IsByte [] i v h k = tt
set-IsByte (x ∷ xs) zero v (hx, h) k = (k, h)
set-IsByte (x ∷ xs) (suc i) v (hx, h) k = (hx, set-IsByte xs i v h k)

read_octet-IsByte : (p : Bytes) (n : ℕ) → read_octet p ≡ some n → IsByte n
unfolding read_octet
read_octet-IsByte p n h = ground arith

read_octets-ip :
    (ps : List Bytes) (i : ℕ) (ip r : Bytes)
    → read_octets ps i ip ≡ some r
    → All IsByte ip
    → (length r ≡ length ip) × All IsByte r
read_octets-ip [] i ip r h bytes =
    let e : ip ≡ r = unfold read_octets in cc in rw (← e) (refl, bytes)
read_octets-ip (p ∷ ps) i ip r h bytes = elim (Option-cases (read_octet p)) [
  | inl e ↦ cc (read_octets-none p ps i ip e)
  | inr (n, e) ↦
      let (len, all) =
        read_octets-ip ps (i + 1) (set ip (3 - i) n) r (sym (read_octets_step p n ps i ip e) ∙ h)
          (set-IsByte ip (3 - i) n bytes (read_octet-IsByte p n e)) in
      (len ∙ length-set ip (3 - i) n, all)
]

-- What `ParseReverseName` returns is an address: four bytes.
pub parse_reverse_name-address :
    (name ip : Bytes) → parse_reverse_name name ≡ some ip → (length ip ≡ 4) × All IsByte ip
unfolding parse_reverse_name
parse_reverse_name-address name ip h =
    let parts = split b'.' (trim_suffix name suffix) in
    let run : read_octets parts 0 (0 ∷ 0 ∷ 0 ∷ 0 ∷ []) ≡ some ip = ground arith in
    read_octets-ip parts 0 (0 ∷ 0 ∷ 0 ∷ 0 ∷ []) ip run (omega arith)
