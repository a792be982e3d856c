-- ===== src/Tests/Requests.antt =====
-- The theorems on requests and on the process at concrete inputs.
use local_dns.Base.{◌≡◌, refl, inr, [], true, false, Bytes, some, ok, arith}
use local_dns.Base.Text.{codes, trim_left, trim_right, trim_space}
use local_dns.Names.{hex_digit, hex_value, mac_string, normalize_mac, parse_mac, parse_pairs, xtoi2}
use local_dns.Store.State.{File, Store, corrupt}
use local_dns.Store.Devices.{delete_device}
use local_dns.Store.Invariant.{IsStore}
use local_dns.Store.Run.{run, save_time}
use local_dns.Config.State.{Config, default}
use local_dns.Config.State as Settings
use local_dns.Config.Valid.{IsConfig}
use local_dns.Web.{
  Action, MappingBody, Shared, Site, delete_device_at, respond, serve, unauthorized,
}
use local_dns.Web.Access.{serve_denied}
use local_dns.Web.Calls.{respond_refused}
use local_dns.Program.{open_or_backup, start}
use local_dns.Program.Steps.{call, flushing, here, start-IsStore}
use local_dns.Tests.Settings.{home_config, home_file, load-home}
use local_dns.Tests.Stores.{home, mac}

-- A site with a user; the digest stands for one without collisions.
abbrev pub site : Site
site = record {
  version = codes "dev";
  domain = codes "lan";
  dns_listen = codes ":53";
  ttl = 60;
  scan_interval = 30000000000;
  upstreams = [];
  username = codes "admin";
  password = codes "secret";
  digest = λ s. s;
}

abbrev pub shared : Shared
shared = record { store = home; pending = false; last_scan = 0 }

abbrev box_body : MappingBody
box_body = record {
  hostname = codes " Box. ";
  mac = codes " AA-BB-CC-DD-EE-0F";
  ip = [];
  note = [];
}

serve_denied_example :
    serve site true 9 (some (codes "admin", codes "guess")) (delete_device_at mac) shared
    ≡ (record { code = 401; payload = unauthorized }, shared)
serve_denied_example =
    serve_denied site (codes "admin") (codes "guess") (λ e. cc) true 9 (delete_device_at mac) shared
      (λ e. e) (λ e. e) (inr (λ e. cc))

-- A device that is not there.
abbrev absent : Action
absent = delete_device_at (codes "02:00:00:00:00:01")

respond_refused_example : (respond site true 9 absent shared).1 ≡ shared
unfolding respond delete_device normalize_mac parse_mac parse_pairs xtoi2 hex_value mac_string
    hex_digit trim_space trim_left trim_right
respond_refused_example = respond_refused site true 9 absent shared (omega arith) (λ e. cc)

-- A file of the store that cannot be parsed and is moved aside.
abbrev pub state_files : Bytes → File
state_files path = corrupt

abbrev pub empty_store : Store
empty_store = record {
  file = File.missing;
  online_window = 270000000000;
  devices = [];
  mappings = [];
  dirty = false;
}

pub start-home : start (Settings.holds home_file) state_files true ≡ ok (home_config, empty_store)
unfolding start open_or_backup
start-home = rw (load-home, start)

start-IsStore_example : IsConfig home_config × IsStore (run (save_time true) empty_store)
start-IsStore_example =
    start-IsStore (Settings.holds home_file) state_files true home_config empty_store
      (run (save_time true) empty_store) start-home
      (call (save_time true) here (flushing true) refl)
