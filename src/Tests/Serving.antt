-- ===== src/Tests/Serving.antt =====
-- Queries.
use local_dns.Base.{◌≡◌, ◌↔◌, refl, [], ◌∷◌, true, Bytes, none, some, arith, slice}
use local_dns.Base.Text.{codes, to_lower, lower, has_suffix, trim_suffix}
use local_dns.Tests.{are_bytes→All}
use local_dns.Tests.Wire.{
  query_bytes, query_head, query_question, query_bytes-IsByte, parse_header-query,
  parse_question-query,
}
use local_dns.Dnsmsg.Header.{parse_header, response, opcode, append_header, reply_flags}
use local_dns.Dnsmsg.Name.{name_ptr, decode_loop, decode_name_uncompressed}
use local_dns.Dnsmsg.Reply.{build_reply, append_records, append_record, record_bytes}
use local_dns.Net.{to4}
use local_dns.Dnsmsg.Question.{Question, parse_question, question_fields}
use local_dns.Server.Wire.{Upstream, exchange_udp, await}
use local_dns.Server.Answer.{Server, Resolver, local, answer_name, address_records, reply}
use local_dns.Server.Handle.{
  Network, udp, tcp, handle, handle_query, forward, relay, serve_tcp_conn,
}
use local_dns.Server.Answered.{HasId, is_no_query, handle-eq-none_iff, handle-udp_id}
use local_dns.Server.Local.{IsAsked, handle-local_eq}
use local_dns.Server.Connection.{stream_of, answers_to, IsServed, serve_tcp_conn-stream_of}

-- A resolver that knows one name.
abbrev fixed : Resolver
fixed = record { name_lookup = λ h. some (some (10 ∷ 0 ∷ 0 ∷ 7 ∷ [])); ptr_lookup = λ ip. none }

abbrev pub server : Server
server = record {
  domain = codes "lan";
  ttl = 60;
  upstreams = codes "9.9.9.9:53" ∷ [];
  single_label = true;
  resolver = fixed;
}

-- An upstream resolver that answers with another number first.
abbrev quad : Upstream
quad = record {
  dialed = true;
  written = true;
  datagrams = some (9 ∷ 9 ∷ []) ∷ some (1 ∷ 2 ∷ 3 ∷ []) ∷ [];
  stream = [];
}

abbrev pub net : Network
net up = quad

pub asked : IsAsked query_bytes query_head query_question
unfolding response opcode
asked = record {
  bytes = query_bytes-IsByte;
  headed = parse_header-query;
  query = refl;
  standard = refl;
  single = refl;
  asked = parse_question-query;
  internet = refl;
}

handle-eq-none_iff_example :
    (handle server 7 net query_bytes udp ≡ none) ↔ (is_no_query query_bytes ≡ true)
handle-eq-none_iff_example = handle-eq-none_iff server 7 net query_bytes udp

-- A message with no question, and the answer that is relayed.
abbrev bare_query : Bytes
bare_query = 1 ∷ 2 ∷ 0 ∷ 0 ∷ 0 ∷ 0 ∷ 0 ∷ 0 ∷ 0 ∷ 0 ∷ 0 ∷ 0 ∷ []

handle-udp_id_example : HasId bare_query (1 ∷ 2 ∷ 3 ∷ [])
unfolding handle handle_query forward relay exchange_udp await parse_header response opcode
handle-udp_id_example =
    handle-udp_id server 7 net bare_query (1 ∷ 2 ∷ 3 ∷ []) (are_bytes→All bare_query refl) refl

abbrev answer : Bytes
answer =
    1 ∷ 2 ∷ 133 ∷ 128 ∷ 0 ∷ 1 ∷ 0 ∷ 1 ∷ 0 ∷ 0 ∷ 0 ∷ 0 ∷ 3 ∷ b'n' ∷ b'a' ∷ b's' ∷ 3 ∷ b'l' ∷ b'a'
    ∷ b'n' ∷ 0 ∷ 0 ∷ 1 ∷ 0 ∷ 1 ∷ 192 ∷ 12 ∷ 0 ∷ 1 ∷ 0 ∷ 1 ∷ 0 ∷ 0 ∷ 0 ∷ 60 ∷ 0 ∷ 4 ∷ 10 ∷ 0 ∷ 0 ∷ 7
    ∷ []

local-answer : local server 7 query_bytes query_question ≡ some answer
unfolding local answer_name address_records to4 reply build_reply append_records append_record
    record_bytes append_header reply_flags name_ptr parse_header has_suffix trim_suffix slice
local-answer = refl

query-IsServed : IsServed (λ n req. handle server 7 net req tcp) query_bytes
query-IsServed n = (
  answer,
  handle-local_eq server 7 query_bytes answer query_head query_question asked local-answer net tcp,
  (omega arith, omega arith),
)

serve_tcp_conn-stream_of_example :
    serve_tcp_conn server
      (λ n. 7)
      (λ n. net)
      (λ n. true)
      (stream_of (query_bytes ∷ query_bytes ∷ []))
    ≡ answers_to (λ n req. handle server 7 net req tcp) 64 (query_bytes ∷ query_bytes ∷ [])
serve_tcp_conn-stream_of_example =
    serve_tcp_conn-stream_of server (λ n. 7) (λ n. net) (λ n. true) (query_bytes ∷ query_bytes ∷ [])
      (λ n. refl) ((omega arith, omega arith), ((omega arith, omega arith), tt))
      (query-IsServed, (query-IsServed, tt))

-- A query for "box.lan".
abbrev pub box_bytes : Bytes
box_bytes =
    1 ∷ 2 ∷ 1 ∷ 0 ∷ 0 ∷ 1 ∷ 0 ∷ 0 ∷ 0 ∷ 0 ∷ 0 ∷ 0 ∷ 3 ∷ b'b' ∷ b'o' ∷ b'x' ∷ 3 ∷ b'l' ∷ b'a' ∷ b'n'
    ∷ 0 ∷ 0 ∷ 1 ∷ 0 ∷ 1 ∷ []

abbrev pub box_question : Question
box_question = record { name = codes "box.lan"; qtype = 1; qclass = 1; end = 25 }

pub box-IsAsked : IsAsked box_bytes query_head box_question
unfolding response opcode parse_header parse_question question_fields decode_name_uncompressed
    decode_loop slice to_lower lower
box-IsAsked = record {
  bytes = are_bytes→All box_bytes refl;
  headed = refl;
  query = refl;
  standard = refl;
  single = refl;
  asked = refl;
  internet = refl;
}
