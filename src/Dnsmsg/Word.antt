-- ===== src/Dnsmsg/Word.antt =====
-- dnsmsg.go: constants, errors, and the big-endian numbers of `encoding/binary`.
use local_dns.Base.{ℕ, ◌+◌, ◌*◌, ◌/◌, ◌%◌, ◌^◌, ◌<◌, [], ◌∷◌, Bytes, get_or}

abbrev pub type_a : ℕ
type_a = 1

abbrev type_ns : ℕ
type_ns = 2

abbrev pub type_soa : ℕ
type_soa = 6

abbrev pub type_ptr : ℕ
type_ptr = 12

abbrev type_txt : ℕ
type_txt = 16

abbrev pub type_aaaa : ℕ
type_aaaa = 28

abbrev pub type_any : ℕ
type_any = 255

abbrev pub class_in : ℕ
class_in = 1

abbrev pub flag_qr : ℕ
flag_qr = 2 ^ 15

abbrev pub flag_aa : ℕ
flag_aa = 2 ^ 10

abbrev flag_tc : ℕ
flag_tc = 2 ^ 9

abbrev pub flag_rd : ℕ
flag_rd = 2 ^ 8

abbrev pub flag_ra : ℕ
flag_ra = 2 ^ 7

abbrev pub rcode_no_error : ℕ
rcode_no_error = 0

abbrev pub rcode_form_err : ℕ
rcode_form_err = 1

abbrev pub rcode_serv_fail : ℕ
rcode_serv_fail = 2

abbrev pub rcode_nx_domain : ℕ
rcode_nx_domain = 3

abbrev rcode_not_imp : ℕ
rcode_not_imp = 4

abbrev rcode_refused : ℕ
rcode_refused = 5

abbrev pub header_len : ℕ
header_len = 12

-- `errShort` and `errBadName`; `no_fuel` marks a loop of the model that was cut off.
pub data Error : Type 0 where
  short bad_name no_fuel : Error

-- `msg[i]`
abbrev pub byte_at : Bytes → ℕ → ℕ
byte_at msg i = get_or msg i 0

-- `binary.BigEndian.Uint16(msg[i : i+2])` and `Uint32(msg[i : i+4])`
abbrev pub uint16_at : Bytes → ℕ → ℕ
uint16_at msg i = byte_at msg i * 256 + byte_at msg (i + 1)

abbrev pub uint32_at : Bytes → ℕ → ℕ
uint32_at msg i = uint16_at msg i * 65536 + uint16_at msg (i + 2)

-- The bytes that `binary.BigEndian.PutUint16` and `PutUint32` write.
abbrev pub put_uint16 : ℕ → Bytes
put_uint16 v = (v / 256 % 256) ∷ (v % 256) ∷ []

abbrev pub put_uint32 : ℕ → Bytes
put_uint32 v = (v / 2 ^ 24 % 256) ∷ (v / 2 ^ 16 % 256) ∷ (v / 256 % 256) ∷ (v % 256) ∷ []

abbrev pub IsUint16 : ℕ → Type 0
IsUint16 v = v < 2 ^ 16

abbrev pub IsByte : ℕ → Type 0
IsByte b = b < 256
