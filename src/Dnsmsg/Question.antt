-- ===== src/Dnsmsg/Question.antt =====
-- dnsmsg.go: the question section.
pub mod Bounds
use local_dns.Base.{ℕ, ◌+◌, ◌*◌, [], Bytes, Outcome, ok, err, ◌>>=◌, length, ltb, if◌then◌else◌}
use local_dns.Dnsmsg.Word.{Error, short, header_len, uint16_at}
use local_dns.Dnsmsg.Name.{decode_name_uncompressed}

pub record Question : Type 0 where
  pub name : Bytes
  pub qtype : ℕ
  pub qclass : ℕ
  pub end : ℕ

-- The part of `ParseQuestion` behind the name.
unfoldable pub question_fields : Bytes → Bytes × ℕ → Outcome Error Question
question_fields msg (name, off) =
    if ltb (length msg) (off + 4)
    then err short
    else ok (record {
      name = name;
      qtype = uint16_at msg off;
      qclass = uint16_at msg (off + 2);
      end = off + 4;
    })

unfoldable pub parse_question : Bytes → Outcome Error Question
parse_question msg = do r ← decode_name_uncompressed msg header_len; question_fields msg r
