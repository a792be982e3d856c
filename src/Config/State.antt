-- ===== src/Config/State.antt =====
-- config.go: the settings, their defaults, and the errors.
use local_dns.Base.{ℕ, ◌*◌, List, [], ◌∷◌, Bool, true, false, Bytes}
use local_dns.Base.Int.{ℤ, pos}
use local_dns.Base.Scan.{Reading}
use local_dns.Base.Text.{codes}
use local_dns.Names.{Problem}

-- `Config`; a duration is a number of nanoseconds.
pub record Config : Type 0 where
  pub domain : Bytes
  pub dns_listen : Bytes
  pub web_listen : Bytes
  pub upstreams : List Bytes
  pub ttl : ℕ
  pub scan_interval : ℤ
  pub scan_cidr : Bytes
  pub scan_interface : Bytes
  pub disable_sweep : Bool
  pub state_path : Bytes
  pub oui_paths : List Bytes
  pub web_username : Bytes
  pub web_password : Bytes
  pub answer_single_label : Bool
  pub log_level : Bytes

-- A second in nanoseconds.
abbrev pub second : ℕ
second = 1000000000

-- `Default`
abbrev pub default : Config
default = record {
  domain = codes "home.arpa";
  dns_listen = codes ":53";
  web_listen = codes ":80";
  upstreams = codes "1.1.1.1:53" ∷ codes "8.8.8.8:53" ∷ [];
  ttl = 30;
  scan_interval = pos (30 * second);
  scan_cidr = [];
  scan_interface = [];
  disable_sweep = false;
  state_path = codes "/var/lib/local-dns/state.json";
  oui_paths = [];
  web_username = [];
  web_password = [];
  answer_single_label = true;
  log_level = codes "info";
}

-- What a line can be refused for.
pub data Refusal : Type 0 where
  no_colon unknown_key ttl_not_number interval_not_duration : Refusal
  sweep_not_boolean single_label_not_boolean : Refusal

pub data Error : Type 0 where
  unreadable : Error
  at_line : ℕ → Refusal → Error
  reading_failed : Error
  bad_domain : Problem → Error
  bad_dns_listen bad_web_listen no_upstream bad_upstream bad_ttl bad_interval : Error
  bad_cidr bad_log_level half_credentials : Error

-- What stands at the path of the configuration.
pub data File : Type 0 where
  missing locked : File
  holds : Reading → File
