-- ===== src/Dnsmsg/Query.antt =====
-- dnsmsg.go: `BuildQuery` and `SOAData`.
pub mod RoundTrip
use local_dns.Base.{ℕ, [], ◌++◌, Bool, Bytes, Outcome, ok, ◌>>=◌, if◌then◌else◌}
use local_dns.Dnsmsg.Word.{Error, put_uint16, put_uint32, flag_rd}
use local_dns.Dnsmsg.Header.{Header, append_header}
use local_dns.Dnsmsg.Name.{encode_name}

-- The header of a query.
abbrev pub query_header : ℕ → Bool → Header
query_header id rd = record {
  id = id;
  flags = if rd then flag_rd else 0;
  qd_count = 1;
  an_count = 0;
  ns_count = 0;
  ar_count = 0;
}

unfoldable pub build_query : ℕ → Bytes → ℕ → ℕ → Bool → Outcome Error Bytes
build_query id name qtype qclass rd = do
  wire ← encode_name name
  ok (append_header (query_header id rd) [] ++ (wire ++ (put_uint16 qtype ++ put_uint16 qclass)))

unfoldable pub soa_data : Bytes → Bytes → ℕ → ℕ → ℕ → ℕ → ℕ → Outcome Error Bytes
soa_data mname rname serial refresh retry expire min_ttl = do
  mname_wire ← encode_name mname
  rname_wire ← encode_name rname
  ok (
      mname_wire
      ++ (rname_wire
          ++ (put_uint32 serial
              ++ (put_uint32 refresh
                  ++ (put_uint32 retry ++ (put_uint32 expire ++ put_uint32 min_ttl))))))
