-- ===== src/Scanner/Probe/Bounds.antt =====
-- What a NetBIOS reply can make the program read and take.
use local_dns.Base.{
  ℕ, zero, suc, ◌+◌, ◌-◌, ◌≤◌, ◌<◌, ◌^◌, ◌≡◌, refl, [], false, not, ◌||◌, Bytes, some, length, drop,
  slice, length-take, arith, Bool-cases, Option-cases, inl, inr, ltb, leb, ◌==◌,
}
use local_dns.Base.Text.{contains, is_empty, trim_right}
use local_dns.Base.Text.Trim.{length-trim_right-le}
use local_dns.Dnsmsg.Word.{byte_at, uint16_at}
use local_dns.Scanner.Probe.{
  first_name, is_blank, nb_answer, nb_name, parse_nbns_reply, skip_labels, skip_nb_name,
  skip_questions,
}

skip_labels-bounds :
    (fuel : ℕ) (msg : Bytes) (off o : ℕ)
    → skip_labels fuel msg off ≡ some o
    → (off < o) × (o ≤ length msg)
unfolding skip_labels
skip_labels-bounds zero msg off o h = cc
skip_labels-bounds (suc fuel) msg off o h =
    let ih = skip_labels-bounds fuel msg (off + 1 + byte_at msg off) o in ground (arith, ih)

-- The loop ends by itself: with as many rounds as there are bytes left, more change nothing.
skip_labels-fuel :
    (f g : ℕ) (msg : Bytes) (off : ℕ)
    → length msg < off + f
    → length msg < off + g
    → skip_labels f msg off ≡ skip_labels g msg off
unfolding skip_labels
skip_labels-fuel zero zero msg off hf hg = refl
skip_labels-fuel zero (suc g) msg off hf hg = ground arith
skip_labels-fuel (suc f) zero msg off hf hg = ground arith
skip_labels-fuel (suc f) (suc g) msg off hf hg =
    let ih = skip_labels-fuel f g msg (off + 1 + byte_at msg off) (omega arith) (omega arith) in
    rw ih refl

-- `skipNBName` moves on, and stays within the message.
pub skip_nb_name_bounds :
    (msg : Bytes) (off o : ℕ) → skip_nb_name msg off ≡ some o → (off < o) × (o ≤ length msg)
unfolding skip_nb_name
skip_nb_name_bounds msg off o h = ground (arith, skip_labels-bounds (suc (length msg)) msg off o)

-- A text that is taken as a name.
pub record IsNbName (name : Bytes) : Type 0 where
  pub fits : length name ≤ 15
  pub no_nul : contains 0 name ≡ false
  pub no_one : contains 1 name ≡ false
  pub no_two : contains 2 name ≡ false

no_name : IsNbName []
unfolding contains
no_name = record { fits = omega arith; no_nul = refl; no_one = refl; no_two = refl }

nb_name-IsNbName : (raw : Bytes) → length raw ≤ 15 → IsNbName (nb_name raw)
unfolding nb_name
nb_name-IsNbName raw h =
    let name = trim_right is_blank raw in
    elim (Bool-cases (is_empty name || contains 0 name || contains 1 name || contains 2 name)) [
      | inl unusable ↦ rw unusable no_name
      | inr usable ↦ rw usable (record {
        fits = omega (arith, length-trim_right-le is_blank raw);
        no_nul = ground arith;
        no_one = ground arith;
        no_two = ground arith;
      })
    ]

length-field : (msg : Bytes) (off : ℕ) → length (slice msg off (off + 15)) ≤ 15
unfolding slice
length-field msg off = omega (arith, length-take (off + 15 - off) (drop off msg))

first_name-IsNbName : (count : ℕ) (msg : Bytes) (off : ℕ) → IsNbName (first_name count msg off)
unfolding first_name
first_name-IsNbName zero msg off = no_name
first_name-IsNbName (suc count) msg off =
    let rest = first_name-IsNbName count msg (off + 18) in
    let name = nb_name-IsNbName (slice msg off (off + 15)) (length-field msg off) in
    elim (Bool-cases (ltb (length msg) (off + 18))) [
      | inl cut ↦ rw cut no_name
      | inr whole ↦
          elim (Bool-cases
            (not (byte_at msg (off + 15) == 0) || leb (2 ^ 15) (uint16_at msg (off + 16)))) [
              | inl other ↦ rw (whole, other) rest
              | inr host ↦ elim (Bool-cases (is_empty (nb_name (slice msg off (off + 15))))) [
                | inl unnamed ↦ rw (whole, host, unnamed) rest
                | inr named ↦ rw (whole, host, named) name
              ]
            ]
    ]

nb_answer-IsNbName : (msg : Bytes) (off : ℕ) → IsNbName (nb_answer msg off)
unfolding nb_answer
nb_answer-IsNbName msg off = elim (Bool-cases (ltb (length msg) (off + 10))) [
  | inl cut ↦ rw cut no_name
  | inr fields ↦ elim (Bool-cases (not (uint16_at msg off == 0x21))) [
    | inl other ↦ rw (fields, other) no_name
    | inr status ↦ elim (Bool-cases (leb (length msg) (off + 10))) [
      | inl bare ↦ rw (fields, status, bare) no_name
      | inr names ↦
          rw (fields, status, names) (first_name-IsNbName (byte_at msg (off + 10)) msg (off + 11))
    ]
  ]
]

-- Whatever a host sends as a NetBIOS reply, `parseNBNSReply` returns a text of at most 15 bytes,
-- with none of the bytes 0, 1 and 2.
pub parse_nbns_reply-IsNbName : (msg : Bytes) → IsNbName (parse_nbns_reply msg)
unfolding parse_nbns_reply
parse_nbns_reply-IsNbName msg = elim (Bool-cases (ltb (length msg) 12)) [
  | inl cut ↦ rw cut no_name
  | inr long ↦ elim (Bool-cases (uint16_at msg 6 == 0)) [
    | inl empty ↦ rw (long, empty) no_name
    | inr answers ↦ elim (Option-cases (skip_questions (uint16_at msg 4) msg 12)) [
      | inl bad ↦ rw (long, answers, parse_nbns_reply, bad) no_name
      | inr (off, there) ↦ elim (Option-cases (skip_nb_name msg off)) [
        | inl bad ↦ rw (long, answers, parse_nbns_reply, there, bad) no_name
        | inr (o, behind) ↦
            rw (long, answers, parse_nbns_reply, there, behind) (nb_answer-IsNbName msg o)
      ]
    ]
  ]
]
