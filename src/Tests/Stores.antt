-- ===== src/Tests/Stores.antt =====
-- Stores.
use local_dns.Base.{◌≡◌, refl, [], ◌∷◌, true, false, Bytes, List, none, ok, inr}
use local_dns.Base.Text.{codes, split, trim, trim_space, trim_left, trim_right, to_lower, lower}
use local_dns.Dict.{get, has}
use local_dns.Names.{
  validate_labels, check_labels, check_label, all_host_chars, is_host_char, normalize,
  normalize_mac, parse_mac, parse_pairs, xtoi2, hex_value, mac_string, hex_digit,
}
use local_dns.Store.State.{Device, Mapping, SeenDevice, File, holds, missing, Store}
use local_dns.Store.Mappings.{Input, normalize_mapping_input, input_mac, input_ip, update_mapping}
use local_dns.Store.Resolve.{resolve_name, resolve_ptr}
use local_dns.Store.Resolve.Mapped.{resolve_name-update_mapping}
use local_dns.Store.Resolve.Reverse.{IsAnswer, resolve_ptr-IsAnswer}
use local_dns.Store.Run.{Op, scanned, labelled, mapped, reopen}

abbrev pub mac : Bytes
mac = codes "aa:bb:cc:dd:ee:0f"

abbrev pub nas_device : Device
nas_device = record {
  mac = mac;
  ip = codes "10.0.0.7";
  hostname = [];
  vendor = [];
  label = [];
  self = false;
  first_seen = 1;
  last_seen = 1;
}

abbrev pub nas_mapping : Mapping
nas_mapping = record {
  hostname = codes "nas";
  mac = mac;
  ip = [];
  note = [];
  created_at = 1;
  updated_at = 1;
}

abbrev pub home : Store
home = record {
  file = missing;
  online_window = 5;
  devices = (mac, nas_device) ∷ [];
  mappings = (codes "nas", nas_mapping) ∷ [];
  dirty = true;
}

abbrev seen_again : SeenDevice
seen_again = record { mac = codes "AA-BB-CC-DD-EE-0F"; ip = codes "10.0.0.7"; self = false }

abbrev pub nas_input : Input
nas_input = record { hostname = codes "box"; mac = mac; ip = []; note = [] }

-- A file with an entry that is not valid, and calls with a save that fails and a new start.
abbrev pub old_file : File
old_file = holds (record {
  devices = nas_device ∷ record nas_device { mac = codes "?" } ∷ [];
  mappings = nas_mapping ∷ [];
})

abbrev pub old_store : Store
old_store = record {
  file = old_file;
  online_window = 5;
  devices = (mac, nas_device) ∷ [];
  mappings = (codes "nas", nas_mapping) ∷ [];
  dirty = false;
}

abbrev calls : List Op
calls =
    scanned (seen_again ∷ []) 9
    ∷ labelled false mac (codes "disk")
    ∷ mapped true (codes "box") mac [] [] 10
    ∷ reopen 7
    ∷ []

pub nas_input_passes :
    normalize_mapping_input (codes " Box. ") (codes "AA-BB-CC-DD-EE-0F") [] [] ≡ ok nas_input
unfolding normalize_mapping_input input_mac input_ip normalize trim to_lower lower validate_labels
    check_labels check_label all_host_chars is_host_char split normalize_mac parse_mac parse_pairs
    xtoi2 hex_value mac_string hex_digit trim_space trim_left trim_right
nas_input_passes = refl

resolve_name-update_mapping_example :
    resolve_name
      (codes "nas")
      (update_mapping true
        (codes "NAS")
        (codes " Box. ")
        (codes "AA-BB-CC-DD-EE-0F")
        []
        []
        9
        home).1
    ≡ none
unfolding get has normalize trim to_lower lower trim_space trim_left trim_right
resolve_name-update_mapping_example =
    resolve_name-update_mapping true (codes "NAS") (codes " Box. ") (codes "AA-BB-CC-DD-EE-0F") []
      [] 9 home nas_input nas_mapping (codes "nas") nas_input_passes refl (inr refl)

resolve_ptr-IsAnswer_example :
    IsAnswer home (10 ∷ 0 ∷ 0 ∷ 7 ∷ []) (resolve_ptr (10 ∷ 0 ∷ 0 ∷ 7 ∷ []) home)
resolve_ptr-IsAnswer_example = resolve_ptr-IsAnswer (10 ∷ 0 ∷ 0 ∷ 7 ∷ []) home
