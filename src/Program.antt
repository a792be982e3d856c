-- ===== src/Program.antt =====
-- cmd/local-dns/main.go: what the process does with its settings and its state. Logs are left
-- out. Program/Live has the process while it runs, Program/Process all of it, from the flags to the exit code.
pub mod Steps
pub mod Answers
pub mod Told
pub mod Live
pub mod Process
use local_dns.Base.{
  ℕ, ◌+◌, ◌*◌, ◌/◌, List, [], ◌∷◌, ◌++◌, map, Bool, true, false, Bytes, Option, none, some, Outcome,
  ok, err, ◌>>=◌, ltb, bytes_eq, if◌then◌else◌,
}
use local_dns.Base.Int.{ℤ, pos, negsuc}
use local_dns.Base.Scan.{Reading}
use local_dns.Base.Text.{codes}
use local_dns.Config.State.{Config, second}
use local_dns.Config.Validate.{load}
use local_dns.Config.State as Settings
use local_dns.Store.State.{Store, File, missing, corrupted}
use local_dns.Store.State as Registry
use local_dns.Store.Files.{open_store}
use local_dns.Server.Answer.{Server, resolver_of}
use local_dns.Scanner.Oui.{load_oui}
use local_dns.Scanner.Round as Round
use local_dns.Web.{Site}

pub data Level : Type 0 where
  debug info warn error : Level

-- The `switch` over `cfg.LogLevel`, and the flag.
unfoldable level_of : Bytes → Bool → Level
level_of name debug_flag =
    if debug_flag
    then debug
    else if bytes_eq name (codes "debug")
    then debug
    else if bytes_eq name (codes "warn")
    then warn
    else if bytes_eq name (codes "error")
    then error
    else info

-- `onlineWindow`; a product that is not positive is below the 90 s too.
unfoldable pub window_of : ℤ → ℕ
window_of (pos n) = if ltb (3 * n) (90 * second) then 90 * second else 3 * n
window_of (negsuc n) = 90 * second

-- The store of a file that cannot be parsed is opened anew once the file was moved aside, if it can be.
unfoldable pub reopened : Bool → ℕ → Outcome Registry.Error Store → Outcome Registry.Error Store
unfolding open_store
reopened moved window (err corrupted) = if moved then open_store missing window else err corrupted
reopened moved window r = r

unfoldable pub open_or_backup : Bool → File → ℕ → Outcome Registry.Error Store
unfolding reopened open_store
open_or_backup moved file window = reopened moved window (open_store file window)

-- `scanner.DefaultOUIPaths`
abbrev default_oui_paths : List Bytes
default_oui_paths =
    codes "/usr/share/ieee-data/oui.txt"
    ∷ codes "/var/lib/ieee-data/oui.txt"
    ∷ codes "/usr/share/misc/oui.txt"
    ∷ codes "/usr/share/nmap/nmap-mac-prefixes"
    ∷ codes "/usr/share/wireshark/manuf"
    ∷ []

-- What `scanner.New` gets; `files` opens a path.
unfoldable pub scanner_of : (Bytes → Option Reading) → Config → Round.Settings
unfolding load_oui
scanner_of files cfg = record {
  oui = load_oui (map files (cfg.oui_paths ++ default_oui_paths));
  cidr = cfg.scan_cidr;
  iface = cfg.scan_interface;
  disable_sweep = cfg.disable_sweep;
}

-- The DNS server, with the store as its resolver.
unfoldable pub server_of : Config → Store → Server
server_of cfg st = record {
  domain = cfg.domain;
  ttl = cfg.ttl;
  upstreams = cfg.upstreams;
  single_label = cfg.answer_single_label;
  resolver = resolver_of st;
}

abbrev nanoseconds : ℤ → ℕ
nanoseconds (pos n) = n
nanoseconds (negsuc n) = 0

-- The web server.
unfoldable pub site_of : Bytes → (Bytes → Bytes) → Config → Site
site_of version digest cfg = record {
  version = version;
  domain = cfg.domain;
  dns_listen = cfg.dns_listen;
  ttl = cfg.ttl;
  scan_interval = nanoseconds cfg.scan_interval;
  upstreams = cfg.upstreams;
  username = cfg.web_username;
  password = cfg.web_password;
  digest = digest;
}

-- What ends the process at its start.
pub data Failure : Type 0 where
  bad_config : Settings.Error → Failure
  bad_state : Registry.Error → Failure

abbrev failing {ℓ} : {A : Type ℓ} → Outcome Registry.Error A → Outcome Failure A
failing (err e) = err (bad_state e)
failing (ok a) = ok a

-- The start: the settings of the file, and the store of the file at their path.
unfoldable pub start : Settings.File → (Bytes → File) → Bool → Outcome Failure (Config × Store)
unfolding load open_or_backup window_of
start config state moved = elim (load config) [
  | err e ↦ err (bad_config e)
  | ok (cfg, found) ↦
      failing (open_or_backup moved (state cfg.state_path) (window_of cfg.scan_interval)) >>= λ st.
      ok (cfg, st)
]
