-- ===== src/Scanner/Probe.antt =====
-- internal/scanner/probe.go: host names by mDNS and by NetBIOS. What arrives at a socket is given.
pub mod Bounds
use local_dns.Base.{
  ℕ, zero, suc, ◌+◌, ◌-◌, ◌*◌, ◌/◌, ◌%◌, ◌^◌, List, [], ◌∷◌, ◌++◌, Bool, true, false, not, ◌&&◌,
  ◌||◌, Bytes, Option, none, some, Outcome, ok, err, length, get_or, drop, take, slice, replicate,
  ltb, leb, ◌==◌, bytes_eq, if◌then◌else◌,
}
use local_dns.Base.Text.{codes, contains, is_empty, trim_right, trim_suffix}
use local_dns.Net.{to4}
use local_dns.Dnsmsg.Word.{Error, byte_at, uint16_at, put_uint16, type_ptr, class_in}
use local_dns.Dnsmsg.Header.{response}
use local_dns.Dnsmsg.Name.{decode_name_at}
use local_dns.Dnsmsg.Query.{build_query}
use local_dns.Dnsmsg.Message.{ParsedRr, parse_message}
use local_dns.Dnsmsg.Reverse.{reverse_name}

-- The query of `mdnsReverseLookup`, with the bit that asks for a unicast reply.
unfoldable mdns_query : Bytes → Outcome Error Bytes
unfolding build_query reverse_name
mdns_query v4 = build_query 0 (reverse_name v4) type_ptr (class_in + 2 ^ 15) false

-- The host of a target: none if its name cannot be decoded, or is empty.
unfoldable target_host : Bytes → ℕ → Bytes
unfolding decode_name_at trim_suffix
target_host msg start = elim (decode_name_at msg start) [
  | err _ ↦ []
  | ok target ↦ trim_suffix (trim_suffix target (codes ".local")) (codes ".")
]

-- The loop over the records; the class is read without the cache-flush bit.
unfoldable first_target : Bytes → Bytes → List ParsedRr → Bytes
unfolding target_host
first_target msg qname [] = []
first_target msg qname (rr ∷ rrs) =
    let rest = first_target msg qname rrs in
    if not (rr.rtype == type_ptr) || not (rr.rclass % 2 ^ 15 == class_in)
    then rest
    else if not (bytes_eq rr.name qname)
    then rest
    else if is_empty (target_host msg rr.data_start)
    then rest
    else target_host msg rr.data_start

unfoldable pub extract_mdns_ptr : Bytes → Bytes → Bytes
unfolding first_target parse_message response
extract_mdns_ptr msg qname = elim (parse_message msg) [
  | err _ ↦ []
  | ok m ↦ if not (response m.header) then [] else first_target msg qname m.rrs
]

-- The loop over the replies that arrive in time, each cut to the buffer.
unfoldable first_reply : Bytes → List Bytes → Bytes
unfolding extract_mdns_ptr
first_reply qname [] = []
first_reply qname (reply ∷ replies) =
    let rest = first_reply qname replies in
    let name = extract_mdns_ptr (take 1500 reply) qname in if is_empty name then rest else name

-- What the network answers to a probe of an address: the replies to the mDNS query, in their order,
-- and the first reply of the host itself; both are empty where a socket fails.
pub record Heard : Type 0 where
  pub mdns : List Bytes
  pub nbns : Option Bytes

unfoldable mdns_reverse_lookup : Bytes → Heard → Bytes
unfolding mdns_query first_reply to4 reverse_name
mdns_reverse_lookup ip heard = elim (to4 ip) [
  | none ↦ []
  | some v4 ↦ elim (mdns_query v4) [ err _ ↦ [] | ok _ ↦ first_reply (reverse_name v4) heard.mdns ]
]

unfoldable nbns_query : Bytes
nbns_query =
    put_uint16 0x1D7E
    ++ (put_uint16 0
        ++ (put_uint16 1
            ++ (replicate 6 0
                ++ (0x20 ∷ b'C' ∷ b'K' ∷ (replicate 30 b'A' ++ 0 ∷ 0 ∷ 0x21 ∷ 0 ∷ 1 ∷ [])))))

-- The loop of `skipNBName` over the labels, with so many rounds at most.
unfoldable skip_labels : ℕ → Bytes → ℕ → Option ℕ
skip_labels zero msg off = none
skip_labels (suc fuel) msg off =
    let rest = skip_labels fuel msg (off + 1 + byte_at msg off) in
    if leb (length msg) off then none else if byte_at msg off == 0 then some (off + 1) else rest

-- `skipNBName`, with none for -1; `msg[off]&0xC0 == 0xC0` says that the byte is 192 or more.
unfoldable pub skip_nb_name : Bytes → ℕ → Option ℕ
unfolding skip_labels
skip_nb_name msg off =
    if leb (length msg) off
    then none
    else if leb 0xC0 (byte_at msg off)
    then (if ltb (length msg) (off + 2) then none else some (off + 2))
    else skip_labels (suc (length msg)) msg off

-- The loop over the echoed questions.
unfoldable skip_questions : ℕ → Bytes → ℕ → Option ℕ
unfolding skip_nb_name
skip_questions zero msg off = some off
skip_questions (suc count) msg off = elim (skip_nb_name msg off) [
  | none ↦ none
  | some o ↦ if ltb (length msg) (o + 4) then none else skip_questions count msg (o + 4)
]

abbrev is_blank : ℕ → Bool
is_blank c = c == b' ' || c == 0

-- The text of a name field, if it is usable.
unfoldable nb_name : Bytes → Bytes
unfolding trim_right contains
nb_name raw =
    let name = trim_right is_blank raw in
    if is_empty name || contains 0 name || contains 1 name || contains 2 name then [] else name

-- The loop over the names: the first one of a workstation that is no group.
unfoldable pub first_name : ℕ → Bytes → ℕ → Bytes
unfolding nb_name slice
first_name zero msg off = []
first_name (suc count) msg off =
    let rest = first_name count msg (off + 18) in
    let name = nb_name (slice msg off (off + 15)) in
    if ltb (length msg) (off + 18)
    then []
    else if not (byte_at msg (off + 15) == 0) || leb (2 ^ 15) (uint16_at msg (off + 16))
    then rest
    else if is_empty name
    then rest
    else name

-- The answer at an offset: its fixed fields, the number of names, and the names.
unfoldable nb_answer : Bytes → ℕ → Bytes
unfolding first_name
nb_answer msg off =
    if ltb (length msg) (off + 10)
    then []
    else if not (uint16_at msg off == 0x21)
    then []
    else if leb (length msg) (off + 10)
    then []
    else first_name (byte_at msg (off + 10)) msg (off + 11)

unfoldable pub parse_nbns_reply : Bytes → Bytes
unfolding skip_questions skip_nb_name nb_answer
parse_nbns_reply msg =
    if ltb (length msg) 12
    then []
    else if uint16_at msg 6 == 0
    then []
    else elim (skip_questions (uint16_at msg 4) msg 12) [
      | none ↦ []
      | some off ↦ elim (skip_nb_name msg off) [ none ↦ [] | some o ↦ nb_answer msg o ]
    ]

unfoldable nbns_node_status : Heard → Bytes
unfolding parse_nbns_reply
nbns_node_status heard = elim heard.nbns [
  | none ↦ []
  | some reply ↦ parse_nbns_reply (take 1024 reply)
]

unfoldable pub probe_hostname : Bytes → Heard → Bytes
unfolding mdns_reverse_lookup nbns_node_status
probe_hostname ip heard =
    let h = mdns_reverse_lookup ip heard in if is_empty h then nbns_node_status heard else h
