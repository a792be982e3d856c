-- ===== src/Tests/Wire.antt =====
-- Messages.
use local_dns.Base.{List, arith, ◌++◌, ◌≡◌, refl, [], ◌∷◌, slice, Bytes, ok, err, All, ◌<◌}
use local_dns.Base.Text.{codes, to_lower, lower, split, trim_suffix, has_suffix}
use local_dns.Tests.{are_bytes→All}
use local_dns.Dnsmsg.Word.{flag_ra, no_fuel}
use local_dns.Dnsmsg.Message.{
  ParsedRr, Message, parse_message, read_questions, read_records, record_fields,
}
use local_dns.Dnsmsg.Reply.{ResourceRecord, build_reply, reply_header}
use local_dns.Dnsmsg.Header.{Header, parse_header}
use local_dns.Dnsmsg.Header.Flags.{relayed}
use local_dns.Dnsmsg.Name.{
  name_ptr, encode_name, write_labels, decode_name, decode_name_uncompressed, decode_loop,
  name_loop, follow,
}
use local_dns.Dnsmsg.Name.RoundTrip.{decode-encode_name}
use local_dns.Dnsmsg.Name.Pointers.{decode_name-ends}
use local_dns.Dnsmsg.Question.{Question, question_fields, parse_question}
use local_dns.Dnsmsg.Reply.Owner.{pointed}
use local_dns.Dnsmsg.Reply.Records.{AreRead, IsSent}
use local_dns.Dnsmsg.Reply.RoundTrip.{parse_message-build_reply}

decode-encode_name_example :
    decode_name_uncompressed
      (7 ∷ 7 ∷ 3 ∷ b'W' ∷ b'W' ∷ b'W' ∷ 3 ∷ b'l' ∷ b'a' ∷ b'n' ∷ 0 ∷ 9 ∷ [])
      2
    ≡ ok (codes "www.lan", 11)
unfolding encode_name write_labels split trim_suffix has_suffix to_lower lower
decode-encode_name_example =
    decode-encode_name (codes "WWW.lan.") (3 ∷ b'W' ∷ b'W' ∷ b'W' ∷ 3 ∷ b'l' ∷ b'a' ∷ b'n' ∷ 0 ∷ [])
      (7 ∷ 7 ∷ []) (9 ∷ []) refl

-- A name that ends in a pointer to itself.
decode_name-ends_example : ¬ (decode_name 17 (192 ∷ 0 ∷ []) 0 ≡ err no_fuel)
decode_name-ends_example = decode_name-ends 17 (192 ∷ 0 ∷ []) 0

-- A query for the address of "nas.lan".
abbrev pub query_bytes : Bytes
query_bytes =
    1 ∷ 2 ∷ 1 ∷ 0 ∷ 0 ∷ 1 ∷ 0 ∷ 0 ∷ 0 ∷ 0 ∷ 0 ∷ 0 ∷ 3 ∷ b'n' ∷ b'a' ∷ b's' ∷ 3 ∷ b'l' ∷ b'a' ∷ b'n'
    ∷ 0 ∷ 0 ∷ 1 ∷ 0 ∷ 1 ∷ []

abbrev pub query_head : Header
query_head = record {
  id = 258;
  flags = 256;
  qd_count = 1;
  an_count = 0;
  ns_count = 0;
  ar_count = 0;
}

abbrev pub query_question : Question
query_question = record { name = codes "nas.lan"; qtype = 1; qclass = 1; end = 25 }

pub query_bytes-IsByte : All (λ b. b < 256) query_bytes
query_bytes-IsByte = are_bytes→All query_bytes refl

pub parse_header-query : parse_header query_bytes ≡ ok query_head
unfolding parse_header
parse_header-query = refl

pub parse_question-query : parse_question query_bytes ≡ ok query_question
unfolding parse_question question_fields decode_name_uncompressed decode_loop slice to_lower lower
parse_question-query = refl

-- The address of the question's name, with a pointer as its owner.
abbrev nas_record : ResourceRecord
nas_record = record {
  owner = 192 ∷ 12 ∷ [];
  rtype = 1;
  rclass = 1;
  ttl = 60;
  rdata = 10 ∷ 0 ∷ 0 ∷ 9 ∷ [];
}

nas_record-IsSent : IsSent (codes "nas.lan") nas_record
unfolding name_ptr
nas_record-IsSent = record {
  name = codes "nas.lan";
  owned = pointed;
  rtype = omega arith;
  rclass = omega arith;
  ttl = omega arith;
  short_data = omega arith;
}

parse_message-build_reply_example :
    (out : Bytes) × (an : List ParsedRr) × (ns : List ParsedRr) × (build_reply query_bytes
        query_question flag_ra 0
        (nas_record ∷ [])
        []
      ≡ ok out)
    × (parse_message out
        ≡ ok (record {
          header = reply_header query_head flag_ra 0 (nas_record ∷ []) [];
          questions = query_question ∷ [];
          rrs = an ++ ns;
        }))
    × AreRead (codes "nas.lan") out 0 (nas_record ∷ []) (nas_record-IsSent, tt) an
    × AreRead (codes "nas.lan") out 1 [] tt ns
parse_message-build_reply_example =
    parse_message-build_reply query_bytes query_head query_question flag_ra 0 (nas_record ∷ []) []
      query_bytes-IsByte relayed parse_header-query parse_question-query (nas_record-IsSent, tt) tt
      (omega arith) (omega arith)

-- A response with one question and one record.
abbrev answer_bytes : Bytes
answer_bytes =
    1 ∷ 2 ∷ 132 ∷ 128 ∷ 0 ∷ 1 ∷ 0 ∷ 1 ∷ 0 ∷ 0 ∷ 0 ∷ 0 ∷ 1 ∷ b'a' ∷ 0 ∷ 0 ∷ 1 ∷ 0 ∷ 1 ∷ 192 ∷ 12 ∷ 0
    ∷ 1 ∷ 0 ∷ 1 ∷ 0 ∷ 0 ∷ 0 ∷ 60 ∷ 0 ∷ 4 ∷ 10 ∷ 0 ∷ 0 ∷ 7 ∷ []

abbrev answer_message : Message
answer_message = record {
  header = record {
    id = 258;
    flags = 33920;
    qd_count = 1;
    an_count = 1;
    ns_count = 0;
    ar_count = 0;
  };
  questions = (record { name = codes "a"; qtype = 1; qclass = 1; end = 19 }) ∷ [];
  rrs =
      (record {
        name = codes "a";
        rtype = 1;
        rclass = 1;
        ttl = 60;
        data_start = 31;
        data_len = 4;
        section = 0;
      })
      ∷ [];
}

answer-parsed : parse_message answer_bytes ≡ ok answer_message
unfolding parse_message parse_header read_questions question_fields read_records record_fields
    decode_name name_loop follow slice to_lower lower
answer-parsed = refl
