-- ===== src/Tests/Ptr.antt =====
-- A well-formed store: a reverse lookup, and what is shown.
use local_dns.Base.{◌≡◌, ◌++◌, refl, inl, inr, [], ◌∷◌, false, Bytes, some, ok, arith, All, slice}
use local_dns.Base.Text.{
  codes, to_lower, lower, split, has_suffix, trim_space, trim_left, trim_right,
}
use local_dns.Dict.{get}
use local_dns.Dnsmsg.Word.{rcode_no_error, type_ptr}
use local_dns.Dnsmsg.Header.{Header, parse_header, response, opcode}
use local_dns.Dnsmsg.Name.{encode_name, decode_loop, decode_name_uncompressed}
use local_dns.Dnsmsg.Question.{Question, parse_question, question_fields}
use local_dns.Dnsmsg.Reverse.{reverse_name, decimal}
use local_dns.Names.{
  validate_labels, check_labels, check_label, all_host_chars, is_host_char, normalize_mac,
  parse_mac, parse_pairs, xtoi2, hex_value, mac_string, hex_digit,
}
use local_dns.Names.Valid.{IsHostName, validate_labels_iff}
use local_dns.Names.Mac.{IsMac, normalize_mac-IsMac}
use local_dns.Net.{parse_ip, parse_by_first, to4, ip_equal}
use local_dns.Net.V4.{parse_fields}
use local_dns.Store.Invariant.{IsStore}
use local_dns.Store.Resolve.{resolve_name, resolve_locked}
use local_dns.Store.Resolve.Reverse.{Leads}
use local_dns.Server.Answer.{Server, resolver_of, own_record, reply}
use local_dns.Server.Handle.{Network, Transport, handle}
use local_dns.Server.Local.{IsAsked, Says}
use local_dns.Server.Managed.{serving}
use local_dns.Server.Ptr.{handle-ptr}
use local_dns.Store.Views.{mapping_views}
use local_dns.Store.Views.Shown.{IsShown, mapping_views-IsShown}
use local_dns.Tests.{are_bytes→All}
use local_dns.Tests.Stores.{home, mac}

abbrev router : Server
router = record {
  domain = codes "lan";
  ttl = 60;
  upstreams = [];
  single_label = false;
  resolver = resolver_of home;
}

pub mac-IsMac : IsMac mac
unfolding normalize_mac parse_mac parse_pairs xtoi2 hex_value mac_string hex_digit trim_space
    trim_left trim_right
mac-IsMac = normalize_mac-IsMac mac mac refl

pub nas-IsHostName : IsHostName (codes "nas")
unfolding validate_labels check_labels check_label all_host_chars is_host_char split
nas-IsHostName = (validate_labels_iff (codes "nas")).0 refl

lan-IsHostName : IsHostName (codes "lan")
unfolding validate_labels check_labels check_label all_host_chars is_host_char split
lan-IsHostName = (validate_labels_iff (codes "lan")).0 refl

pub home-IsStore : IsStore home
home-IsStore = record {
  devices = (((refl, mac-IsMac), tt), (tt, tt));
  mappings = (((refl, nas-IsHostName, inr mac-IsMac), tt), (tt, tt));
  durable = inl refl;
}

-- The question for the name at 10.0.0.7.
abbrev ptr_bytes : Bytes
ptr_bytes =
    1
    ∷ 2
    ∷ 1
    ∷ 0
    ∷ 0
    ∷ 1
    ∷ 0
    ∷ 0
    ∷ 0
    ∷ 0
    ∷ 0
    ∷ 0
    ∷ 1
    ∷ b'7'
    ∷ 1
    ∷ b'0'
    ∷ 1
    ∷ b'0'
    ∷ 2
    ∷ b'1'
    ∷ b'0'
    ∷ 7
    ∷ (codes "in-addr" ++ 4 ∷ (codes "arpa" ++ 0 ∷ 0 ∷ 12 ∷ 0 ∷ 1 ∷ []))

abbrev ptr_head : Header
ptr_head = record { id = 258; flags = 256; qd_count = 1; an_count = 0; ns_count = 0; ar_count = 0 }

abbrev ptr_question : Question
ptr_question = record { name = codes "7.0.0.10.in-addr.arpa"; qtype = 12; qclass = 1; end = 39 }

ptr-IsAsked : IsAsked ptr_bytes ptr_head ptr_question
unfolding response opcode parse_header parse_question question_fields decode_name_uncompressed
    decode_loop slice to_lower lower
ptr-IsAsked = record {
  bytes = are_bytes→All ptr_bytes refl;
  headed = refl;
  query = refl;
  standard = refl;
  single = refl;
  asked = refl;
  internet = refl;
}

nas-Leads : Leads home (10 ∷ 0 ∷ 0 ∷ 7 ∷ []) (codes "nas")
unfolding Leads resolve_name resolve_locked get parse_ip parse_by_first ip_equal to4 parse_fields
nas-Leads = (0 ∷ 0 ∷ 0 ∷ 0 ∷ 0 ∷ 0 ∷ 0 ∷ 0 ∷ 0 ∷ 0 ∷ 255 ∷ 255 ∷ 10 ∷ 0 ∷ 0 ∷ 7 ∷ [], refl, refl)

handle-ptr_example :
    (least fqdn resp : Bytes) × Leads home (10 ∷ 0 ∷ 0 ∷ 7 ∷ []) least
    × (encode_name (least ++ (b'.' ∷ codes "lan")) ≡ ok fqdn)
    × (reply ptr_bytes ptr_question rcode_no_error (own_record router type_ptr fqdn ∷ []) []
        ≡ some resp)
    × ((net : Network) (transport : Transport)
        → handle (serving router home) 7 net ptr_bytes transport ≡ some resp)
    × Says ptr_head ptr_question resp rcode_no_error 1 0
unfolding reverse_name decimal has_suffix
handle-ptr_example =
    handle-ptr router home 7 ptr_bytes ptr_head ptr_question 10 0 0 7 (codes "nas") home-IsStore
      ptr-IsAsked (are_bytes→All (10 ∷ 0 ∷ 0 ∷ 7 ∷ []) refl) refl refl refl refl lan-IsHostName
      (omega arith) nas-Leads

mapping_views-IsShown_example : All (IsShown home) (mapping_views 3 home)
mapping_views-IsShown_example = mapping_views-IsShown 3 home home-IsStore
