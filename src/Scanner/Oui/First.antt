-- ===== src/Scanner/Oui/First.antt =====
-- The vendor of an address goes by its first three bytes, and the first entry for them counts.
use local_dns.Base.{
  append-nil, append_assoc, length-append, ℕ, ◌+◌, ◌-◌, ◌/◌, ◌%◌, ◌<◌, ◌≡◌, ◌≢◌, refl, ap, sym, ◌∙◌,
  [], ◌∷◌, ◌++◌, Bytes, Option, none, some, length, arith, ltb, if◌then◌else◌,
}
use local_dns.Base.Bits.{agree, agree→eq}
use local_dns.Dict.{Dict}
use local_dns.Names.{hex_digit, mac_string}
use local_dns.Scanner.Oui.{key_char, key_loop, oui_key}

-- The upper-case digit.
abbrev pub upper_digit : ℕ → ℕ
upper_digit n = if ltb n 10 then b'0' + n else b'A' + n - 10

-- The only byte of a text of one byte.
abbrev only : Option Bytes → ℕ
only none = 0
only (some []) = 0
only (some (c ∷ [])) = c
only (some (c ∷ d ∷ s)) = 0

some_of_only : (o : Option Bytes) (n : ℕ) → only o ≡ n → n ≢ 0 → o ≡ some (n ∷ [])
some_of_only none n e h = absurd (h (sym e))
some_of_only (some []) n e h = absurd (h (sym e))
some_of_only (some (c ∷ [])) n e h = rw e
some_of_only (some (c ∷ d ∷ s)) n e h = absurd (h (sym e))

key_char-hex_digit : (n : ℕ) → n < 16 → key_char (hex_digit n) ≡ some (upper_digit n ∷ [])
unfolding key_char hex_digit agree
key_char-hex_digit n h =
    some_of_only (key_char (hex_digit n)) (upper_digit n)
      (agree→eq (λ k. only (key_char (hex_digit k))) upper_digit 16 refl n h) (ground arith)

-- The six digits of three bytes.
abbrev pub digits_of : ℕ → ℕ → ℕ → Bytes
digits_of a b c =
    upper_digit (a / 16)
    ∷ upper_digit (a % 16)
    ∷ upper_digit (b / 16)
    ∷ upper_digit (b % 16)
    ∷ upper_digit (c / 16)
    ∷ upper_digit (c % 16)
    ∷ []

-- One digit, and a separator.
module _ (written mac : Bytes) where
  key_loop-digit :
      (n : ℕ)
      → n < 16
      → length written < 5
      → key_loop written (hex_digit n ∷ mac) ≡ key_loop (written ++ upper_digit n ∷ []) mac
  unfolding key_loop
  key_loop-digit n h few =
      let size : length (written ++ upper_digit n ∷ []) ≡ length written + 1 =
        length-append written (upper_digit n ∷ []) in
      rw (key_char-hex_digit n h, key_loop) (ground arith)

  key_loop-last :
      (n : ℕ)
      → n < 16
      → length written ≡ 5
      → key_loop written (hex_digit n ∷ mac) ≡ written ++ upper_digit n ∷ []
  unfolding key_loop
  key_loop-last n h five =
      let size : length (written ++ upper_digit n ∷ []) ≡ length written + 1 =
        length-append written (upper_digit n ∷ []) in
      rw (key_char-hex_digit n h, key_loop) (ground arith)

  key_loop-colon : length written < 6 → key_loop written (b':' ∷ mac) ≡ key_loop written mac
  unfolding key_loop
  key_loop-colon few = unfold key_char in rw (append-nil written) (ground arith)

-- The key of a byte's two digits.
key_loop-byte :
    (written mac : Bytes) (b : ℕ)
    → b < 256
    → length written < 4
    → key_loop written (hex_digit (b / 16) ∷ hex_digit (b % 16) ∷ mac)
      ≡ key_loop (written ++ upper_digit (b / 16) ∷ upper_digit (b % 16) ∷ []) mac
key_loop-byte written mac b h few =
    let next = written ++ upper_digit (b / 16) ∷ [] in
    key_loop-digit written (hex_digit (b % 16) ∷ mac) (b / 16) (omega arith) (omega arith)
    ∙ (key_loop-digit next mac (b % 16) (omega arith)
          (omega (arith, length-append written (upper_digit (b / 16) ∷ [])))
        ∙ ap (λ w. key_loop w mac)
            (append_assoc written (upper_digit (b / 16) ∷ []) (upper_digit (b % 16) ∷ [])))

-- The key of an address in canonical form is the six digits of its first three bytes in upper case.
pub oui_key-mac_string :
    (a b c d : ℕ) (hw : Bytes)
    → a < 256
    → b < 256
    → c < 256
    → oui_key (mac_string (a ∷ b ∷ c ∷ d ∷ hw)) ≡ digits_of a b c
unfolding oui_key mac_string
oui_key-mac_string a b c d hw ha hb hc =
    let rest = mac_string (d ∷ hw) in
    let third = hex_digit (c / 16) ∷ hex_digit (c % 16) ∷ b':' ∷ rest in
    let second = hex_digit (b / 16) ∷ hex_digit (b % 16) ∷ b':' ∷ third in
    let one = upper_digit (a / 16) ∷ upper_digit (a % 16) ∷ [] in
    let two = one ++ upper_digit (b / 16) ∷ upper_digit (b % 16) ∷ [] in
    key_loop-byte [] (b':' ∷ second) a ha (omega arith)
    ∙ (key_loop-colon one second (omega arith)
        ∙ (key_loop-byte one (b':' ∷ third) b hb (omega arith)
            ∙ (key_loop-colon two third (omega arith)
                ∙ (key_loop-digit two (hex_digit (c % 16) ∷ b':' ∷ rest) (c / 16) (omega arith)
                      (omega arith)
                    ∙ key_loop-last (two ++ upper_digit (c / 16) ∷ []) (b':' ∷ rest) (c % 16)
                        (omega arith) refl))))
