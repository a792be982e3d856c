-- ===== src/Scanner/Round.antt =====
-- internal/scanner/scanner.go: one scan. A scan takes the state of the scanner and the store, and
-- returns both anew.
pub mod Calls
pub mod Jobs
pub mod Follows
use local_dns.Base.{
  ℕ, zero, suc, ◌+◌, ◌-◌, ◌*◌, List, [], ◌∷◌, ◌++◌, Bool, true, false, not, ◌&&◌, ◌||◌, Bytes,
  Option, none, some, length, ltb, leb, ◌==◌, bytes_eq, if◌then◌else◌,
}
use local_dns.Base.Scan.{Reading}
use local_dns.Base.Text.{is_empty}
use local_dns.Base.Text.Search.{cut}
use local_dns.Dict.{Dict, get, put}
use local_dns.Net.{ip_equal, ip_string, parse_ip, to4}
use local_dns.Net.Cidr.{contains_ip}
use local_dns.Store.State.{Device, SeenDevice, Store}
use local_dns.Store.Files.{save, save_locked}
use local_dns.Store.Devices.{apply_scan, device, set_discovered_hostname, set_vendor}
use local_dns.Scanner.Arp.{Neighbor, read_arp_table}
use local_dns.Scanner.Network.{Kernel, NetContext, hosts_in_subnet, resolve_network}
use local_dns.Scanner.Oui.{OuiTable, lookup_vendor}
use local_dns.Scanner.Probe.{Heard, probe_hostname}

-- What `New` sets.
pub record Settings : Type 0 where
  pub oui : OuiTable
  pub cidr : Bytes
  pub iface : Bytes
  pub disable_sweep : Bool

-- The fields of `Scanner` that a scan writes.
pub record Memory : Type 0 where
  pub last_scan : ℕ
  pub probed_at : Dict ℕ
  pub probed_ip : Dict Bytes

pub record Job : Type 0 where
  pub mac : Bytes
  pub ip : Bytes

-- What a scan meets: the kernel's tables, whether it is cancelled after the sweep or before the
-- probes, the time when the table was read, the name of the machine, the network's answers to the
-- probe of an address, the order in which the probes end, whether a save succeeds, and the time of
-- the end. The reads of the clock in the loop of `probeHostnames` give the time when the table was
-- read.
pub record World : Type 0 where
  pub kernel : Kernel
  pub arp : Option Reading
  pub swept_then_done : Bool
  pub scanned_then_done : Bool
  pub now : ℕ
  pub hostname : Option Bytes
  pub heard : Bytes → Heard
  pub finish : List Job → List Job
  pub disk : Bool
  pub end : ℕ

abbrev pub max_sweep_hosts : ℕ
max_sweep_hosts = 4096

abbrev pub max_probes_per_scan : ℕ
max_probes_per_scan = 16

-- Ten minutes in nanoseconds.
abbrev pub reprobe_after : ℕ
reprobe_after = 600000000000

unfoldable parse_v4 : Bytes → Option Bytes
unfolding parse_ip to4
parse_v4 s = elim (parse_ip s) [ none ↦ none | some ip ↦ to4 ip ]

-- The loop of `sweep`: the addresses that get a datagram.
unfoldable sweep : List Bytes → Option Bytes → List Bytes
unfolding ip_equal
sweep [] self = []
sweep (ip ∷ ips) self = elim self [
  | none ↦ ip ∷ sweep ips none
  | some own ↦ if ip_equal ip own then sweep ips (some own) else ip ∷ sweep ips (some own)
]

-- The addresses that a scan sends a datagram to.
unfoldable pub swept : Settings → Option NetContext → List Bytes
unfolding sweep hosts_in_subnet
swept c none = []
swept c (some nc) =
    if c.disable_sweep then [] else sweep (hosts_in_subnet nc.ipnet max_sweep_hosts) nc.self_ip

-- Whether a neighbour is on the target's interface and in its subnet.
unfoldable in_target : Option NetContext → Neighbor → Bool
unfolding parse_v4 contains_ip
in_target none n = true
in_target (some nc) n =
    (is_empty nc.iface_name || bytes_eq n.dev nc.iface_name)
    && elim (parse_v4 n.ip) [ none ↦ false | some ip ↦ contains_ip nc.ipnet ip ]

-- The loop over the neighbours.
unfoldable pub seen_of : Option NetContext → List Neighbor → List SeenDevice
unfolding in_target
seen_of nc [] = []
seen_of nc (n ∷ neighbors) =
    if in_target nc n
    then record { mac = n.mac; ip = n.ip; self = false } ∷ seen_of nc neighbors
    else seen_of nc neighbors

-- The machine itself, if its address is known.
unfoldable self_seen : Option NetContext → List SeenDevice
unfolding ip_string
self_seen none = []
self_seen (some nc) = elim nc.self_ip [
  | none ↦ []
  | some ip ↦
      if is_empty nc.self_mac
      then []
      else record { mac = nc.self_mac; ip = ip_string ip; self = true } ∷ []
]

unfoldable pub observed : Option NetContext → List Neighbor → List SeenDevice
unfolding seen_of self_seen
observed nc neighbors = seen_of nc neighbors ++ self_seen nc

-- `short, _, _ := strings.Cut(hn, ".")`
unfoldable short_name : Bytes → Bytes
unfolding cut
short_name hn = elim (cut b'.' hn) [ none ↦ hn | some (short, rest) ↦ short ]

-- The host name of the machine itself: its address and the name, if there are both.
unfoldable own_name : Option NetContext → Option Bytes → Option (Bytes × Bytes)
unfolding short_name
own_name none hostname = none
own_name (some nc) none = none
own_name (some nc) (some hn) =
    if is_empty nc.self_mac || is_empty (short_name hn)
    then none
    else some (nc.self_mac, short_name hn)

unfoldable name_self : Option (Bytes × Bytes) → Store → Bool × Store
unfolding set_discovered_hostname
name_self none s = (false, s)
name_self (some (mac, name)) s = set_discovered_hostname mac name s

-- Whether a device is probed: it is new or nameless for a while, or was probed at another address.
unfoldable pub wants_probe : ℕ → Memory → Device → SeenDevice → Bool
unfolding get
wants_probe now memory d sd =
    let probed_ip = (elim (get d.mac memory.probed_ip) as (λ _. Bytes) [
      | none ↦ []
      | some ip ↦ ip
    ]) in
    let ip_changed = not (bytes_eq probed_ip sd.ip) in
    let needs_name = is_empty d.hostname in
    elim (get d.mac memory.probed_at) [
      | none ↦ needs_name
      | some last ↦ (needs_name && ltb reprobe_after (now - last)) || ip_changed
    ]

-- The loop that collects the jobs, which stops at so many.
unfoldable pub collect : ℕ → Store → List SeenDevice → Memory → List Job → Memory × List Job
unfolding wants_probe device put
collect now s [] memory jobs = (memory, jobs)
collect now s (sd ∷ seen) memory jobs =
    let skip = collect now s seen memory jobs in
    if sd.self || is_empty sd.ip then skip else elim (device sd.mac s) [
      | none ↦ skip
      | some d ↦
          let wanted = wants_probe now memory d sd in
          let memory' =
            if wanted
            then record memory {
              probed_at = put d.mac now memory.probed_at;
              probed_ip = put d.mac sd.ip memory.probed_ip;
            }
            else memory in
          let jobs' = if wanted then jobs ++ record { mac = d.mac; ip = sd.ip } ∷ [] else jobs in
          let next = collect now s seen memory' jobs' in
          if leb max_probes_per_scan (length jobs') then (memory', jobs') else next
    ]

-- What a probe found: the address of the device and its host name.
unfoldable found_by : (Bytes → Heard) → Job → Option (Bytes × Bytes)
unfolding parse_v4 probe_hostname
found_by heard j = elim (parse_v4 j.ip) [
  | none ↦ none
  | some ip ↦
      let host = probe_hostname ip (heard j.ip) in
      if is_empty host then none else some (j.mac, host)
]

-- The probes, in the order in which they end.
unfoldable run_jobs : (Bytes → Heard) → List Job → Bool → Store → Bool × Store
unfolding found_by name_self
run_jobs heard [] changed s = (changed, s)
run_jobs heard (j ∷ jobs) changed s =
    let (named, s') = name_self (found_by heard j) s in run_jobs heard jobs (changed || named) s'

unfoldable pub probe_hostnames : World → List SeenDevice → Memory → Store → Memory × Bool × Store
unfolding collect run_jobs
probe_hostnames w seen memory s =
    let (memory', jobs) = collect w.now s seen memory [] in
    let (changed, s') = run_jobs w.heard (w.finish jobs) false s in
    if w.scanned_then_done || length jobs == 0 then (memory', false, s) else (memory', changed, s')

-- The vendor to write for an observation, if the device has none yet.
unfoldable vendor_for : OuiTable → Store → SeenDevice → Option (Bytes × Bytes)
unfolding device lookup_vendor
vendor_for oui s sd = elim (device sd.mac s) [
  | none ↦ none
  | some d ↦
      let v = lookup_vendor oui d.mac in
      if not (is_empty d.vendor) || is_empty v then none else some (d.mac, v)
]

unfoldable write_vendor : Option (Bytes × Bytes) → Store → Bool × Store
unfolding set_vendor
write_vendor none s = (false, s)
write_vendor (some (mac, v)) s = set_vendor mac v s

-- The loop of `fillVendors`; without a table every look-up misses.
unfoldable pub fill_vendors : OuiTable → List SeenDevice → Bool → Store → Bool × Store
unfolding vendor_for write_vendor
fill_vendors oui [] changed s = (changed, s)
fill_vendors oui (sd ∷ seen) changed s =
    let (written, s') = write_vendor (vendor_for oui s sd) s in
    fill_vendors oui seen (changed || written) s'

-- The part of a scan behind the table of neighbours.
unfoldable pub feed :
    Settings → World → Option NetContext → List Neighbor → Memory → Store → Memory × Store
unfolding observed apply_scan own_name name_self probe_hostnames fill_vendors save_locked
feed c w nc neighbors memory s0 =
    let seen = observed nc neighbors in
    let (material, s1) = apply_scan seen w.now s0 in
    let (renamed, s2) = name_self (own_name nc w.hostname) s1 in
    let (memory', probed, s3) = probe_hostnames w seen memory s2 in
    let (filled, s4) = fill_vendors c.oui seen false s3 in
    (
      record memory' { last_scan = w.end },
      if material || renamed || probed || filled then (save w.disk s4).1 else s4,
    )

-- `scan`: a scan that is cancelled, or cannot read the table, leaves all as it is.
unfoldable pub scan : Settings → World → Memory → Store → Memory × Store
unfolding feed resolve_network read_arp_table
scan c w memory s = if w.swept_then_done then (memory, s) else elim (read_arp_table w.arp) [
  | none ↦ (memory, s)
  | some neighbors ↦ feed c w (resolve_network c.cidr c.iface w.kernel) neighbors memory s
]
