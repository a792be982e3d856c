-- ===== src/Dnsmsg/Header/RoundTrip.antt =====
-- `ParseHeader` against `Header.append`.
use local_dns.Base.{
  ◌≡◌, [], ◌∷◌, All, zero, suc, ◌++◌, arith, Bytes, ok, length, ◌<◌, ◌+◌, ℕ, length-append,
}
use local_dns.Dnsmsg.Word.{IsByte, byte_at, IsUint16, uint16_at}
use local_dns.Dnsmsg.Header.{Header, IsHeader, parse_header, append_header}

-- A header whose fields fit 16 bits is read back from its print, whatever follows in the message.
pub parse_header-append_header :
    (h : Header) (rest : Bytes) → IsHeader h → parse_header (append_header h [] ++ rest) ≡ ok h
unfolding parse_header append_header
parse_header-append_header h rest v = ground arith

pub length-append_header : (h : Header) (b : Bytes) → length (append_header h b) ≡ length b + 12
unfolding append_header
length-append_header h b = omega (arith, length-append {0} b)

byte_at-lt : (msg : Bytes) (i : ℕ) → All IsByte msg → byte_at msg i < 256
byte_at-lt [] i h = omega arith
byte_at-lt (b ∷ msg) zero (hb, h) = hb
byte_at-lt (b ∷ msg) (suc i) (hb, h) = byte_at-lt msg i h

-- Two bytes make a number of 16 bits.
uint16_at-IsUint16 : (msg : Bytes) (i : ℕ) → All IsByte msg → IsUint16 (uint16_at msg i)
uint16_at-IsUint16 msg i h = omega (arith, byte_at-lt msg i h, byte_at-lt msg (i + 1) h)

pub parse_header-IsHeader :
    (msg : Bytes) {h : Header} → All IsByte msg → parse_header msg ≡ ok h → IsHeader h
unfolding parse_header
parse_header-IsHeader msg {h} bytes e = ground (
  arith,
  uint16_at-IsUint16 msg 0 bytes,
  uint16_at-IsUint16 msg 2 bytes,
  uint16_at-IsUint16 msg 4 bytes,
  uint16_at-IsUint16 msg 6 bytes,
  uint16_at-IsUint16 msg 8 bytes,
  uint16_at-IsUint16 msg 10 bytes,
)
