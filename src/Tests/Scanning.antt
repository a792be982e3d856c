-- ===== src/Tests/Scanning.antt =====
-- The theorems on scans at a concrete network.
use local_dns.Base.{
  inl, ◌+◌, ◌-◌, ◌^◌, ◌≤◌, ◌≡◌, refl, map, List, [], ◌∷◌, ◌++◌, true, false, Bytes, none, some, ok,
  All, arith, length,
}
use local_dns.Base.Scan.{Reading}
use local_dns.Base.Text.{
  codes, has_prefix, join, split, trim_left, trim_right, trim_space, trim_prefix,
}
use local_dns.Dict.{get, has, put}
use local_dns.Names.{hex_digit, hex_value, mac_string, normalize_mac, parse_mac, parse_pairs, xtoi2}
use local_dns.Net.V4.{parse_fields}
use local_dns.Net.{parse_ip, to4, v4_prefix}
use local_dns.Net.Cidr.{masked}
use local_dns.Dnsmsg.Word.{type_a}
use local_dns.Server.Handle.{Network, Transport, handle}
use local_dns.Server.Managed.{serving}
use local_dns.Store.State.{SeenDevice}
use local_dns.Scanner.Arp.{Neighbor, read_arp_table}
use local_dns.Scanner.Network.{Kernel, bytes_word, hosts_in_subnet, resolve_network, word_bytes}
use local_dns.Scanner.Network.Hosts.{hosts_in_subnet_lem, numbers}
use local_dns.Scanner.Oui.{load_oui, lookup_vendor}
use local_dns.Scanner.Probe.{parse_nbns_reply}
use local_dns.Scanner.Probe.Bounds.{IsNbName, parse_nbns_reply-IsNbName}
use local_dns.Scanner.Round.{Memory, Settings, World, collect, observed, scan}
use local_dns.Scanner.Round.Jobs.{IsRecorded, collect_bounds}
use local_dns.Server.Told.{Tells}
use local_dns.Program.Told.{parse_message-scan}
use local_dns.Tests.Serving.{asked, server}
use local_dns.Tests.Stores.{home, mac, nas_mapping}
use local_dns.Tests.Wire.{query_bytes, query_head, query_question}

-- A machine without a network of its own, and a table with a header, a whole entry and an
-- incomplete one.
abbrev kernel : Kernel
kernel = record { ifaces = none; route = none }

abbrev neighbor_table : Reading
neighbor_table = record {
  text = join 10 (
      codes "IP address HW type Flags HW address Mask Device"
      ∷ codes "10.0.0.9 0x1 0x2 AA:BB:CC:DD:EE:0F * eth0"
      ∷ codes "10.0.0.8 0x1 0x0 00:00:00:00:00:00 * eth0"
      ∷ []);
  broken = false;
}

abbrev pub world : World
world = record {
  kernel = kernel;
  arp = some neighbor_table;
  swept_then_done = false;
  scanned_then_done = false;
  now = 100;
  hostname = none;
  heard = λ ip. record { mdns = []; nbns = none };
  finish = λ jobs. jobs;
  disk = true;
  end = 101;
}

abbrev pub settings : Settings
settings = record { oui = none; cidr = []; iface = []; disable_sweep = false }

abbrev memory : Memory
memory = record { last_scan = 0; probed_at = []; probed_ip = [] }

abbrev neighbors : List Neighbor
neighbors = record { ip = codes "10.0.0.9"; mac = mac; dev = codes "eth0" } ∷ []

abbrev nas_seen : SeenDevice
nas_seen = record { mac = mac; ip = codes "10.0.0.9"; self = false }

-- The address in sixteen bytes, as `ParseIP` returns it.
abbrev nas_ip : Bytes
nas_ip = v4_prefix ++ 10 ∷ 0 ∷ 0 ∷ 9 ∷ []

neighbor_table-neighbors : read_arp_table (some neighbor_table) ≡ some neighbors
unfolding read_arp_table join
neighbor_table-neighbors = refl

mac_canonical : normalize_mac mac ≡ ok mac
unfolding normalize_mac parse_mac parse_pairs xtoi2 hex_value mac_string hex_digit trim_space
    trim_left trim_right
mac_canonical = refl

parse_message-scan_example :
    (resp : Bytes) × ((n : Network) (transport : Transport)
      → handle (serving server (scan settings world memory home).1) 7 n query_bytes transport
        ≡ some resp)
    × Tells query_question type_a 60 (10 ∷ 0 ∷ 0 ∷ 9 ∷ []) resp
unfolding get observed resolve_network parse_ip to4 parse_fields
parse_message-scan_example =
    parse_message-scan settings world memory home nas_mapping neighbors [] [] nas_seen server
      (codes "nas") 7 query_bytes query_head query_question nas_ip (10 ∷ 0 ∷ 0 ∷ 9 ∷ []) refl
      neighbor_table-neighbors refl refl refl mac_canonical refl refl tt asked refl (inl refl)
      (omega arith)

hosts_in_subnet_lem_example :
    (hosts_in_subnet (record { ip = 192 ∷ 168 ∷ 1 ∷ 77 ∷ []; ones = 29; bits = 32 }) 4096
      ≡ map word_bytes
          (numbers (bytes_word (masked 29 (192 ∷ 168 ∷ 1 ∷ 77 ∷ [])) + 1) (2 ^ (32 - 29) - 2)))
    × (bytes_word (masked 29 (192 ∷ 168 ∷ 1 ∷ 77 ∷ [])) + 2 ^ (32 - 29) ≤ 2 ^ 32)
hosts_in_subnet_lem_example =
    hosts_in_subnet_lem 192 168 1 77 29 4096 (omega arith) (omega arith) (omega arith) (omega arith)
      (omega arith) (omega arith)

-- A subnet of two addresses has no network address of its own.
two_hosts :
    hosts_in_subnet (record { ip = 192 ∷ 168 ∷ 1 ∷ 77 ∷ []; ones = 31; bits = 32 }) 4096
    ≡ (192 ∷ 168 ∷ 1 ∷ 76 ∷ []) ∷ (192 ∷ 168 ∷ 1 ∷ 77 ∷ []) ∷ []
unfolding hosts_in_subnet
two_hosts = refl

-- Databases of the three formats.
abbrev ieee : Reading
ieee = record { text = codes "AA-BB-CC   (hex)" ++ 9 ∷ 9 ∷ codes "Acme Works"; broken = false }

abbrev manuf : Reading
manuf = record {
  text = join 10 (
      codes "# vendors"
      ∷ (codes "AA:BB:CC" ++ 9 ∷ codes "Other")
      ∷ (codes "28:6F:B9" ++ 9 ∷ (codes "Nokia" ++ 9 ∷ codes "Nokia Shanghai Bell"))
      ∷ []);
  broken = false;
}

last_column :
    lookup_vendor (load_oui (some manuf ∷ [])) (codes "28:6f:b9:00:00:01")
    ≡ codes "Nokia Shanghai Bell"
unfolding lookup_vendor load_oui get join split trim_space trim_left trim_right has_prefix
    trim_prefix has put
last_column = refl

-- A reply with a group name and the name of the machine.
abbrev nbns_reply : Bytes
nbns_reply =
    0x1D
    ∷ 0x7E
    ∷ 0x84
    ∷ 0
    ∷ 0
    ∷ 0
    ∷ 0
    ∷ 1
    ∷ 0
    ∷ 0
    ∷ 0
    ∷ 0
    ∷ 1
    ∷ b'A'
    ∷ 0
    ∷ 0
    ∷ 0x21
    ∷ 0
    ∷ 1
    ∷ 0
    ∷ 0
    ∷ 0
    ∷ 0
    ∷ 0
    ∷ 37
    ∷ 2
    ∷ (codes "WORKGROUP      " ++ 0 ∷ 0x84 ∷ 0 ∷ (codes "DESKTOP-7      " ++ 0 ∷ 0x04 ∷ 0 ∷ []))

parse_nbns_reply-IsNbName_example : IsNbName (parse_nbns_reply nbns_reply)
parse_nbns_reply-IsNbName_example = parse_nbns_reply-IsNbName nbns_reply

machine_name : parse_nbns_reply nbns_reply ≡ codes "DESKTOP-7"
unfolding parse_nbns_reply trim_right
machine_name = refl

collect_bounds_example :
    (length (collect 100 home (nas_seen ∷ []) memory []).1 ≤ 16)
    × All
        (IsRecorded 100 (collect 100 home (nas_seen ∷ []) memory []).0)
        (collect 100 home (nas_seen ∷ []) memory []).1
collect_bounds_example = collect_bounds 100 home (nas_seen ∷ []) memory
