-- ===== src/Tests/Names.antt =====
-- Names and addresses.
use local_dns.Base.{◌+◌, ◌≡◌, refl, [], ◌∷◌, ◌++◌, Bytes, ok, err, ltb, length, if◌then◌else◌}
use local_dns.Base.Text.{codes, split}
use local_dns.Dnsmsg.Word.{bad_name}
use local_dns.Dnsmsg.Name.{encode_name}
use local_dns.Dnsmsg.Name.Wire.{wire}
use local_dns.Names.{validate_labels, check_labels, check_label, all_host_chars, is_host_char}
use local_dns.Names.Valid.{IsHostName, validate_labels_iff}
use local_dns.Names.Valid.Encodable.{encode_name-fqdn}

abbrev nas : Bytes
nas = codes "nas.attic"

pub nas-IsHostName : IsHostName (codes "nas.attic")
unfolding validate_labels check_labels check_label all_host_chars is_host_char split
nas-IsHostName = (validate_labels_iff (codes "nas.attic")).0 refl

pub lan-IsHostName : IsHostName (codes "lan")
unfolding validate_labels check_labels check_label all_host_chars is_host_char split
lan-IsHostName = (validate_labels_iff (codes "lan")).0 refl

encode_name-fqdn_example : encode_name (nas ++ b'.' ∷ codes "lan") ≡ (
    if ltb 255 (length nas + length (codes "lan") + 3)
    then err bad_name
    else ok (wire (split b'.' nas ++ split b'.' (codes "lan")) ++ 0 ∷ []))
encode_name-fqdn_example = encode_name-fqdn nas (codes "lan") nas-IsHostName lan-IsHostName
