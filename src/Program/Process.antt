-- ===== src/Program/Process.antt =====
-- cmd/local-dns/main.go: `main` and `run` as a whole, from the flags to the exit code.
pub mod Exits
use local_dns.Base.{
  ℕ, ◌≡◌, refl, ap, ◌∙◌, sym, ◌⊎◌, ◌↔◌, inl, inr, List, [], ◌∷◌, Bool, true, false, Bytes, Option,
  none, some, Outcome, ok, err, if◌then◌else◌,
}
use local_dns.Base.Scan.{Reading}
use local_dns.Config.State.{Config}
use local_dns.Config.State as Settings
use local_dns.Config.Validate.{load}
use local_dns.Store.State.{Store, File}
use local_dns.Store.State as Registry
use local_dns.Store.Durable.{Agrees}
use local_dns.Scanner.Loop.{new_loop}
use local_dns.Server.Life.{Binds, StartError, new_life, start_server}
use local_dns.Program.{open_or_backup, scanner_of, site_of, start, window_of}
use local_dns.Program.Live.{Event, Live, Parts, live, shut_down}
use local_dns.Program.Live.Reached.{start-live}

-- The flag that ends the process at once; of the others one sets a path, one only the level of the log.
pub record Flags : Type 0 where
  pub show_version : Bool

-- Why the process ends once it runs: a signal, or a web server that cannot listen or fails.
pub data Ending : Type 0 where
  signalled web_failed : Ending

-- What the process meets: the file of its settings, the file at a path that may be a store's, whether that
-- can be moved aside, the vendor databases, the sockets of the DNS server, what happens until the last
-- save, the reason of its end, and whether that save succeeds.
pub record System : Type 0 where
  pub config : Settings.File
  pub state : Bytes → File
  pub moved : Bool
  pub files : Bytes → Option Reading
  pub binds : Binds
  pub events : List Event
  pub ending : Ending
  pub last_save : Bool
  pub version : Bytes
  pub digest : Bytes → Bytes

pub data RunError : Type 0 where
  bad_store : Registry.Error → RunError
  no_dns : StartError → RunError
  no_web : RunError

abbrev error_of : Ending → Option RunError
error_of signalled = none
error_of web_failed = some no_web

unfoldable pub parts_of : System → Config → Parts
unfolding scanner_of site_of
parts_of sys cfg = record {
  scanner = scanner_of sys.files cfg;
  site = site_of sys.version sys.digest cfg;
}

-- What a process that runs leaves: the store after its last save.
unfoldable pub last_store : System → Config → Store → Store
last_store sys cfg st =
    shut_down sys.last_save
      (live (parts_of sys cfg) sys.events (record { loop = new_loop; store = st }))

-- `run` behind the store that was opened: the error, and the store that is left.
unfoldable pub run_opened : System → Config → Store → Option RunError × Store
run_opened sys cfg st = elim (start_server sys.binds new_life).0 [
  | some e ↦ (some (no_dns e), st)
  | none ↦ (error_of sys.ending, last_store sys cfg st)
]

-- `run`: no store is left where none was opened.
unfoldable pub run_config : System → Config → Option RunError × Option Store
run_config sys cfg =
    elim (open_or_backup sys.moved (sys.state cfg.state_path) (window_of cfg.scan_interval)) [
      | err e ↦ (some (bad_store e), none)
      | ok st ↦ (let (e, left) = run_opened sys cfg st in (e, some left))
    ]

-- The exit code of `main` for what `run` returns.
abbrev code_of : Option RunError → ℕ
code_of none = 0
code_of (some e) = 1

-- `main`: the exit code, and the store that is left.
unfoldable pub main_program : Flags → System → ℕ × Option Store
main_program flags sys = if flags.show_version then (0, none) else elim (load sys.config) [
  | err e ↦ (1, none)
  | ok (cfg, found) ↦ (let (e, left) = run_config sys cfg in (code_of e, left))
]

-- A process that loads its settings, opens its store and binds the sockets of its DNS server.
pub record Runs (sys : System) (cfg : Config) (st : Store) : Type 0 where
  pub found : Bool
  pub loaded : load sys.config ≡ ok (cfg, found)
  pub opened :
      open_or_backup sys.moved (sys.state cfg.state_path) (window_of cfg.scan_interval) ≡ ok st
  pub bound : (start_server sys.binds new_life).0 ≡ none
