-- ===== src/Program/Steps.antt =====
-- The life of the process: the calls of the store that scans, requests and the periodic save make. The
-- mutex makes each of them one step; the threads' steps come in any order.
use local_dns.Base.{
  ℕ, ◌≡◌, ◌≢◌, refl, ◌⊎◌, inl, inr, List, [], ◌∷◌, ◌++◌, Bool, true, false, Bytes, Option, none,
  some, Outcome, ok, err, All, ◌>>=◌, Bool-cases,
}
use mathlib.Core.Path.{subst}
use local_dns.Config.State.{Config}
use local_dns.Config.State as Settings
use local_dns.Config.Validate.{load}
use local_dns.Config.Valid.{IsConfig, load-IsConfig}
use local_dns.Store.State.{
  Store, SeenDevice, File, missing, unreadable, corrupt, holds, corrupted, read_failed,
}
use local_dns.Store.State as Registry
use local_dns.Store.Files.{open_store}
use local_dns.Store.Invariant.{IsStore}
use local_dns.Store.Invariant.Runs.{open_store-IsStore, run-IsStore}
use local_dns.Store.Run.{Op, scanned, written, save_time, run, run_all}
use local_dns.Scanner.Round.{Memory, Settings, World, scan}
use local_dns.Scanner.Round.Calls.{IsDetail, idle, saved, scan-IsScan, unsaved}
use local_dns.Web.{
  Action, Shared, Site, serve, allowed, get_status, get_devices, get_mappings, post_scan, served,
  patch_device, delete_device_at, delete_mapping_at, post_mapping, put_mapping,
}
use local_dns.Web.Calls.{calls_of, store-respond}
use local_dns.Program.{Failure, bad_config, failing, open_or_backup, reopened, start, window_of}

-- A call that a thread of the process makes.
pub data Call : Op → Type 0 where
  observing : (seen : List SeenDevice) (now : ℕ) → Call (scanned seen now)
  detail : {op : Op} → IsDetail op → Call op
  saving : (disk : Bool) → Call (written disk)
  flushing : (disk : Bool) → Call (save_time disk)
  request :
      {op : Op} (disk : Bool) (now : ℕ) (action : Action)
      → calls_of disk now action ≡ op ∷ []
      → Call op

-- The stores that such calls reach.
pub data Reaches (s : Store) : Store → Type 0 where
  here : Reaches s s
  call : {t u : Store} (op : Op) → Reaches s t → Call op → u ≡ run op t → Reaches s u

pub Reaches-IsStore : {s t : Store} → IsStore s → Reaches s t → IsStore t
Reaches-IsStore v here = v
Reaches-IsStore v (call {t} op before _ e) = rw e (run-IsStore op t (Reaches-IsStore v before))

pub Reaches-trans : {s t u : Store} → Reaches s t → Reaches t u → Reaches s u
Reaches-trans r here = r
Reaches-trans r (call op before c e) = call op (Reaches-trans r before) c e

-- Calls one after the other.
Reaches-run_all : (ops : List Op) (s : Store) → All Call ops → Reaches s (run_all ops s)
unfolding run_all
Reaches-run_all [] s h = here
Reaches-run_all (op ∷ ops) s (c, h) =
    Reaches-trans (call op here c refl) (Reaches-run_all ops (run op s) h)

All-Call : (ops : List Op) → All IsDetail ops → All Call ops
All-Call [] h = tt
All-Call (op ∷ ops) (p, h) = (detail p, All-Call ops h)

All-Call-append : (xs ys : List Op) → All Call xs → All Call ys → All Call (xs ++ ys)
All-Call-append [] ys h k = k
All-Call-append (x ∷ xs) ys (p, h) k = (p, All-Call-append xs ys h k)

-- A whole scan, and a whole request, are made of such calls.
pub scan-Reaches :
    (c : Settings) (w : World) (memory : Memory) (s : Store) → Reaches s (scan c w memory s).1
scan-Reaches c w memory s = elim (scan-IsScan c w memory s) [
  | idle e ↦ rw e here
  | unsaved neighbors ops table details e ↦
      rw e (Reaches-run_all _ s (observing _ w.now, All-Call ops details))
  | saved neighbors ops table details e ↦ rw e (
      Reaches-run_all _ s (
        observing _ w.now,
        All-Call-append ops (written w.disk ∷ []) (All-Call ops details) (saving w.disk, tt),
      ))
]

one_at_most : (disk : Bool) (now : ℕ) (action : Action) → All Call (calls_of disk now action)
one_at_most disk now get_status = tt
one_at_most disk now get_devices = tt
one_at_most disk now get_mappings = tt
one_at_most disk now post_scan = tt
one_at_most disk now served = tt
one_at_most disk now (patch_device mac none) = tt
one_at_most disk now (patch_device mac (some none)) = tt
one_at_most disk now (patch_device mac (some (some label))) =
    (request disk now (patch_device mac (some (some label))) refl, tt)
one_at_most disk now (delete_device_at mac) = (request disk now (delete_device_at mac) refl, tt)
one_at_most disk now (delete_mapping_at hostname) =
    (request disk now (delete_mapping_at hostname) refl, tt)
one_at_most disk now (post_mapping none) = tt
one_at_most disk now (post_mapping (some b)) = (request disk now (post_mapping (some b)) refl, tt)
one_at_most disk now (put_mapping old none) = tt
one_at_most disk now (put_mapping old (some b)) =
    (request disk now (put_mapping old (some b)) refl, tt)

pub serve-Reaches :
    (site : Site) (disk : Bool) (now : ℕ) (given : Option (Bytes × Bytes)) (action : Action)
    (s : Shared)
    → Reaches s.store (serve site disk now given action s).1.store
unfolding serve
serve-Reaches site disk now given action s = elim (Bool-cases (allowed site given)) [
  | inl may ↦
      rw (may, store-respond site disk now action s)
        (Reaches-run_all (calls_of disk now action) s.store (one_at_most disk now action))
  | inr may_not ↦ rw may_not here
]

-- The store at the start is that of a file, or of none.
open_or_backup-IsStore :
    (moved : Bool) (file : File) (window : ℕ) (s : Store)
    → open_or_backup moved file window ≡ ok s
    → IsStore s
unfolding open_or_backup
open_or_backup-IsStore moved missing window s h =
    open_store-IsStore missing window s (unfold reopened open_store in h)
open_or_backup-IsStore moved unreadable window s h =
    open_store-IsStore unreadable window s (unfold reopened open_store in h)
open_or_backup-IsStore true corrupt window s h =
    open_store-IsStore missing window s (unfold reopened open_store in h)
open_or_backup-IsStore false corrupt window s h = absurd (unfold reopened open_store in cc)
open_or_backup-IsStore moved (holds p) window s h =
    open_store-IsStore (holds p) window s (unfold reopened open_store in h)

pub Loaded-cases :
    (o : Outcome Settings.Error (Config × Bool))
    → ((e : Settings.Error) × (o ≡ err e)) ⊎ ((c : Config) × (found : Bool) × (o ≡ ok (c, found)))
Loaded-cases (err e) = inl (e, refl)
Loaded-cases (ok (c, found)) = inr (c, found, refl)

failing-ok :
    (o : Outcome Registry.Error Store) (c cfg : Config) (s : Store)
    → ◌>>=◌ {B = Config × Store} (failing o) (λ st. ok (c, st)) ≡ ok (cfg, s)
    → (o ≡ ok s) × (c ≡ cfg)
failing-ok (err e) c cfg s h = cc
failing-ok (ok st) c cfg s h = (cc, cc)

-- A process that starts has loaded its settings, and opened the store at their path.
pub start-parts :
    (config : Settings.File) (state : Bytes → File) (moved : Bool) (cfg : Config) (s : Store)
    → start config state moved ≡ ok (cfg, s)
    → (found : Bool) × (load config ≡ ok (cfg, found))
      × (open_or_backup moved (state cfg.state_path) (window_of cfg.scan_interval) ≡ ok s)
unfolding start
start-parts config state moved cfg s h = elim (Loaded-cases (load config)) [
  | inl (e, bad) ↦ absurd (failure (rw (bad, start) at h))
  | inr (c, found, good) ↦
      let (opened, same) = failing-ok _ c cfg s (rw (good, start) at h) in
      (
        found,
        rw same at good,
        subst (λ x. open_or_backup moved (state x.state_path) (window_of x.scan_interval) ≡ ok s)
            same opened,
      )
]
  where
    failure :
        {e : Settings.Error}
        → ◌≡◌ {A = Outcome Failure (Config × Store)} (err (bad_config e)) (ok (cfg, s))
        → ⊥
    failure h = cc

pub start-valid :
    (config : Settings.File) (state : Bytes → File) (moved : Bool) (cfg : Config) (s : Store)
    → start config state moved ≡ ok (cfg, s)
    → IsConfig cfg × IsStore s
start-valid config state moved cfg s h =
    let (found, loaded, opened) = start-parts config state moved cfg s h in
    (load-IsConfig config cfg found loaded, open_or_backup-IsStore moved _ _ s opened)

-- A process that starts runs with settings that are fit to run with, and every store that its scans, its
-- requests and its saves reach, their calls of the store in any order, is well formed.
pub start-IsStore :
    (config : Settings.File) (state : Bytes → File) (moved : Bool) (cfg : Config) (s t : Store)
    → start config state moved ≡ ok (cfg, s)
    → Reaches s t
    → IsConfig cfg × IsStore t
start-IsStore config state moved cfg s t h r =
    let (fit, formed) = start-valid config state moved cfg s h in (fit, Reaches-IsStore formed r)

false-true : false ≡ true → ⊥
false-true h = cc

opens :
    (moved : Bool) (window : ℕ) (file : File)
    → file ≢ unreadable
    → (file ≢ corrupt) ⊎ (moved ≡ true)
    → (s : Store) × (open_or_backup moved file window ≡ ok s)
unfolding open_or_backup reopened open_store
opens moved window missing r m = (_, refl)
opens moved window unreadable r m = absurd (r refl)
opens moved window corrupt r (inl sound) = absurd (sound refl)
opens true window corrupt r (inr can) = (_, refl)
opens false window corrupt r (inr can) = absurd (false-true can)
opens moved window (holds p) r m = (_, refl)

-- A process with settings that can be loaded starts, whatever stands in the file of the store,
-- unless that file cannot be read, or cannot be parsed and not be moved aside either.
pub start-ok :
    (config : Settings.File) (state : Bytes → File) (moved : Bool) (cfg : Config) (found : Bool)
    → load config ≡ ok (cfg, found)
    → state cfg.state_path ≢ unreadable
    → (state cfg.state_path ≢ corrupt) ⊎ (moved ≡ true)
    → (s : Store) × (start config state moved ≡ ok (cfg, s))
unfolding start
start-ok config state moved cfg found good readable may =
    let (s, opened) =
      opens moved (window_of cfg.scan_interval) (state cfg.state_path) readable may in
    (s, rw (good, start, opened))
