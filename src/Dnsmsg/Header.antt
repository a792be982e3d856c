-- ===== src/Dnsmsg/Header.antt =====
-- dnsmsg.go: the fixed header. The proofs are in the modules below.
pub mod RoundTrip
pub mod Flags
use local_dns.Base.{
  ℕ, ◌+◌, ◌*◌, ◌/◌, ◌%◌, ◌^◌, Bool, not, List, [], ◌∷◌, ◌++◌, Bytes, Outcome, ok, err, length, ltb,
  ◌==◌, if◌then◌else◌, bit_and, bit_or,
}
use local_dns.Dnsmsg.Word.{
  Error, short, header_len, uint16_at, put_uint16, flag_qr, flag_rd, flag_ra, IsUint16,
}

pub record Header : Type 0 where
  pub id : ℕ
  pub flags : ℕ
  pub qd_count : ℕ
  pub an_count : ℕ
  pub ns_count : ℕ
  pub ar_count : ℕ

-- The fields fit their machine types.
pub record IsHeader (h : Header) : Type 0 where
  pub id : IsUint16 h.id
  pub flags : IsUint16 h.flags
  pub qd_count : IsUint16 h.qd_count
  pub an_count : IsUint16 h.an_count
  pub ns_count : IsUint16 h.ns_count
  pub ar_count : IsUint16 h.ar_count

unfoldable pub parse_header : Bytes → Outcome Error Header
parse_header msg =
    if ltb (length msg) header_len
    then err short
    else ok (record {
      id = uint16_at msg 0;
      flags = uint16_at msg 2;
      qd_count = uint16_at msg 4;
      an_count = uint16_at msg 6;
      ns_count = uint16_at msg 8;
      ar_count = uint16_at msg 10;
    })

-- `h.Flags&FlagQR != 0`
unfoldable pub response : Header → Bool
response h = not (bit_and h.flags flag_qr == 0)

-- `h.Flags >> 11 & 0xF`: the shift binds as tightly as `&`, and both group to the left.
unfoldable pub opcode : Header → ℕ
opcode h = bit_and (h.flags / 2 ^ 11) 0xF

unfoldable pub rcode_of : Header → ℕ
rcode_of h = bit_and h.flags 0xF

unfoldable pub append_header : Header → Bytes → Bytes
append_header h b =
    b
    ++ (put_uint16 h.id
        ++ (put_uint16 h.flags
            ++ (put_uint16 h.qd_count
                ++ (put_uint16 h.an_count ++ (put_uint16 h.ns_count ++ put_uint16 h.ar_count)))))

-- `FlagQR | flags&(0xF<<11) | flags&FlagRD | extra | uint16(rcode&0xF)`
unfoldable pub reply_flags : ℕ → ℕ → ℕ → ℕ
reply_flags flags extra rcode =
    bit_or
      (bit_or (bit_or (bit_or flag_qr (bit_and flags (0xF * 2 ^ 11))) (bit_and flags flag_rd))
        extra)
      (bit_and rcode 0xF)
