-- ===== src/Server/Handle.antt =====
-- server.go: one query, from its bytes to those of the response, and the queries of a connection.
use local_dns.Base.{
  ℕ, zero, suc, List, [], ◌∷◌, Bool, true, false, not, ◌||◌, Bytes, Option, none, some, ok, err,
  ◌==◌, if◌then◌else◌,
}
use local_dns.Dnsmsg.Word.{class_in, flag_ra, rcode_form_err, rcode_serv_fail}
use local_dns.Dnsmsg.Header.{Header, parse_header, response, opcode}
use local_dns.Dnsmsg.Question.{Question, parse_question}
use local_dns.Dnsmsg.Reply.{build_reply, build_header_only}
use local_dns.Server.Wire.{Upstream, exchange_udp, exchange_tcp, read_tcp_msg, write_tcp_msg}
use local_dns.Server.Answer.{Server, reply_or_nil, local}

pub data Transport : Type 0 where
  udp tcp : Transport

-- What each upstream address does in an exchange.
abbrev pub Network : Type 0
Network = Bytes → Upstream

abbrev exchange : Transport → Upstream → Bytes → Option Bytes
exchange udp up req = exchange_udp up req
exchange tcp up req = exchange_tcp up req

-- The loop over the upstreams.
unfoldable pub relay : Network → Transport → Bytes → List Bytes → Option Bytes
relay net transport req [] = none
relay net transport req (up ∷ upstreams) = elim (exchange transport (net up) req) [
  | some resp ↦ some resp
  | none ↦ relay net transport req upstreams
]

unfoldable pub reply_serv_fail : Bytes → Question → Option Bytes
reply_serv_fail req q = reply_or_nil (build_reply req q flag_ra rcode_serv_fail [] [])

-- The last part of `forward`.
unfoldable pub header_only_fail : Bytes → Option Bytes
header_only_fail req = elim (parse_header req) [
  | err e ↦ none
  | ok h ↦ some (build_header_only h.id h.flags rcode_serv_fail)
]

-- `forward`: the question is there if `haveQ`.
unfoldable pub forward : Server → Network → Bytes → Transport → Option Question → Option Bytes
unfolding relay reply_serv_fail header_only_fail
forward s net req transport asked = elim (relay net transport req s.upstreams) [
  | some resp ↦ some resp
  | none ↦ elim asked [
    | none ↦ header_only_fail req
    | some q ↦ elim (reply_serv_fail req q) [ some resp ↦ some resp | none ↦ header_only_fail req ]
  ]
]

-- The part of `handle` behind the question.
unfoldable pub handle_question : Server → ℕ → Network → Bytes → Transport → Question → Option Bytes
unfolding forward local
handle_question s now net req transport q =
    if not (q.qclass == class_in)
    then forward s net req transport (some q)
    else elim (local s now req q) [
      | some resp ↦ some resp
      | none ↦ forward s net req transport (some q)
    ]

-- The part of `handle` behind the header.
unfoldable pub handle_query : Server → ℕ → Network → Bytes → Transport → Header → Option Bytes
unfolding handle_question
handle_query s now net req transport h =
    if not (opcode h == 0) || not (h.qd_count == 1)
    then forward s net req transport none
    else elim (parse_question req) [
      | err e ↦ some (build_header_only h.id h.flags rcode_form_err)
      | ok q ↦ handle_question s now net req transport q
    ]

-- `none` for a message that is dropped.
unfoldable pub handle : Server → ℕ → Network → Bytes → Transport → Option Bytes
unfolding handle_query
handle s now net req transport = elim (parse_header req) [
  | err e ↦ none
  | ok h ↦ if response h then none else handle_query s now net req transport h
]

abbrev max_tcp_queries : ℕ
max_tcp_queries = 64

-- The loop of `serveTCPConn`: the frames that are written for what the client sends. With `n` rounds
-- left behind it, `served n` is the answer to a message and `written n` says whether the write
-- succeeds.
unfoldable pub serve_rounds : (ℕ → Bytes → Option Bytes) → (ℕ → Bool) → ℕ → Bytes → List Bytes
unfolding read_tcp_msg write_tcp_msg
serve_rounds served written zero stream = []
serve_rounds served written (suc n) stream = elim (read_tcp_msg stream) [
  | none ↦ []
  | some r ↦ elim (served n r.0) [
    | none ↦ []
    | some resp ↦ elim (write_tcp_msg resp) [
      | none ↦ []
      | some out ↦ elim (written n) [ false ↦ [] | true ↦ out ∷ serve_rounds served written n r.1 ]
    ]
  ]
]

-- The clock and the network may be other ones in each round.
unfoldable pub serve_tcp_conn : Server → (ℕ → ℕ) → (ℕ → Network) → (ℕ → Bool) → Bytes → List Bytes
unfolding serve_rounds handle
serve_tcp_conn s clock nets written =
    serve_rounds (λ n req. handle s (clock n) (nets n) req tcp) written max_tcp_queries
