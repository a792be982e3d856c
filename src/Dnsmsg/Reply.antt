-- ===== src/Dnsmsg/Reply.antt =====
-- dnsmsg.go: resource records and replies.
pub mod Echo
pub mod Owner
pub mod Records
pub mod RoundTrip
use local_dns.Base.{
  ℕ, ◌+◌, ◌*◌, ◌/◌, ◌%◌, ◌^◌, List, [], ◌∷◌, ◌++◌, Bytes, Outcome, ok, err, ◌>>=◌, length, slice,
  ltb, if◌then◌else◌, ◌||◌, bit_or, bit_and,
}
use local_dns.Dnsmsg.Word.{Error, short, header_len, put_uint16, put_uint32, flag_ra}
use local_dns.Dnsmsg.Header.{Header, parse_header, append_header, reply_flags}
use local_dns.Dnsmsg.Question.{Question}

pub record ResourceRecord : Type 0 where
  pub owner : Bytes
  pub rtype : ℕ
  pub rclass : ℕ
  pub ttl : ℕ
  pub rdata : Bytes

-- The bytes of a record; `uint16(len(rr.Data))` wraps around.
unfoldable pub record_bytes : ResourceRecord → Bytes
record_bytes rr =
    rr.owner
    ++ (put_uint16 rr.rtype
        ++ (put_uint16 rr.rclass
            ++ (put_uint32 rr.ttl ++ (put_uint16 (length rr.rdata % 2 ^ 16) ++ rr.rdata))))

-- `rr.append(b)`
unfoldable pub append_record : ResourceRecord → Bytes → Bytes
unfolding record_bytes
append_record rr b = b ++ record_bytes rr

-- `for _, rr := range rrs { out = rr.append(out) }`
unfoldable pub append_records : List ResourceRecord → Bytes → Bytes
unfolding append_record
append_records [] out = out
append_records (rr ∷ rrs) out = append_records rrs (append_record rr out)

-- The header that `BuildReply` writes.
abbrev pub reply_header : Header → ℕ → ℕ → List ResourceRecord → List ResourceRecord → Header
reply_header req flags rcode answers authority = record {
  id = req.id;
  flags = reply_flags req.flags flags rcode;
  qd_count = 1;
  an_count = length answers % 2 ^ 16;
  ns_count = length authority % 2 ^ 16;
  ar_count = 0;
}

unfoldable pub build_reply :
    Bytes → Question → ℕ → ℕ → List ResourceRecord → List ResourceRecord → Outcome Error Bytes
build_reply req q flags rcode answers authority = do
  req_hdr ← parse_header req
  if ltb (length req) q.end || ltb q.end header_len
      then err short
      else ok (
          append_records authority (
            append_records answers (
              append_header (reply_header req_hdr flags rcode answers authority) []
              ++ slice req header_len q.end)))

unfoldable pub build_header_only : ℕ → ℕ → ℕ → Bytes
build_header_only req_id req_flags rcode =
    append_header
      (record {
        id = req_id;
        flags = reply_flags req_flags flag_ra rcode;
        qd_count = 0;
        an_count = 0;
        ns_count = 0;
        ar_count = 0;
      })
      []
