-- ===== src/Program/Live/Reached.antt =====
-- What a process has in its store is what its file has, for the process that comes after it.
use local_dns.Base.{
  ◌≡◌, refl, ◌∙◌, ℕ, inl, inr, List, [], ◌∷◌, Bool, true, false, Bytes, ok, Bool-cases, none,
  if◌then◌else◌,
}
use local_dns.Config.State.{Config}
use local_dns.Config.State as Settings
use local_dns.Store.State.{Store, File}
use local_dns.Store.Files.{open_store, save_if_dirty, save_locked}
use local_dns.Store.Durable.{Agrees, IsSaved, save_locked-IsSaved}
use local_dns.Store.Invariant.{IsStore}
use local_dns.Store.Run.{save_time, run}
use local_dns.Scanner.Round.{Settings, World}
use local_dns.Scanner.Loop.{Loop, new_loop, turn, wake, world_in}
use local_dns.Program.{open_or_backup, reopened, start, window_of}
use local_dns.Program.Steps.{
  Reaches, here, call, flushing, Reaches-trans, Reaches-IsStore, scan-Reaches, serve-Reaches,
  start-valid, start-parts,
}
use local_dns.Program.Live.{
  Event, Live, Parts, ticked, woken, requested, flushed, cancelled, happen, live, shared_of,
  shut_down,
}

turn-Reaches : (c : Settings) (w : World) (l : Loop) (s : Store) → Reaches s (turn c w l s).1
unfolding turn
turn-Reaches c w l s = scan-Reaches c (world_in l.done w) l.memory s

wake-Reaches : (c : Settings) (w : World) (l : Loop) (s : Store) → Reaches s (wake c w l s).1
unfolding wake
wake-Reaches c w l s = elim (Bool-cases l.pending) [
  | inl asked ↦ rw asked (turn-Reaches c w (record l { pending = false }) s)
  | inr not_asked ↦ rw not_asked here
]

flushing_run : (disk : Bool) (s : Store) → Reaches s (save_if_dirty disk s).1
unfolding run
flushing_run disk s = call (save_time disk) here (flushing disk) refl

happen-Reaches : (p : Parts) (e : Event) (s : Live) → Reaches s.store (happen p e s).store
unfolding happen shared_of
happen-Reaches p (ticked w) s = turn-Reaches p.scanner w s.loop s.store
happen-Reaches p (woken w) s = wake-Reaches p.scanner w s.loop s.store
happen-Reaches p (requested disk now given action) s =
    serve-Reaches p.site disk now given action (shared_of s)
happen-Reaches p (flushed disk) s = flushing_run disk s.store
happen-Reaches p cancelled s = here

-- What happens to a process makes calls of its store.
live-Reaches :
    (p : Parts) (events : List Event) (s : Live) → Reaches s.store (live p events s).store
unfolding live
live-Reaches p [] s = here
live-Reaches p (e ∷ events) s =
    Reaches-trans (happen-Reaches p e s) (live-Reaches p events (happen p e s))

Agrees-self : (s : Store) → Agrees s s
Agrees-self s = record { devices = λ k. refl; mappings = λ k. refl }

written_out : (s : Store) → Agrees (save_locked true s).1 s
unfolding save_locked
written_out s = record { devices = λ k. refl; mappings = λ k. refl }

Agrees-trans : {s t u : Store} → Agrees s t → Agrees t u → Agrees s u
Agrees-trans a b = record {
  devices = λ k. a.devices k ∙ b.devices k;
  mappings = λ k. a.mappings k ∙ b.mappings k;
}

save_if-IsSaved :
    (test : Bool) (s : Store)
    → IsStore s
    → s.dirty ≡ test
    → let last = (if test then save_locked true s else (none, s)).1 in IsSaved last × Agrees last s
save_if-IsSaved true s v e = (save_locked-IsSaved s v.devices v.mappings, written_out s)
save_if-IsSaved false s v e = elim v.durable [
  | inl changed ↦ absurd cc
  | inr saved ↦ (saved, Agrees-self s)
]

-- The last save, if it succeeds, leaves the store in its file.
shut_down-IsSaved :
    (s : Live) → IsStore s.store → IsSaved (shut_down true s) × Agrees (shut_down true s) s.store
unfolding shut_down save_if_dirty
shut_down-IsSaved s v = save_if-IsSaved s.store.dirty s.store v refl

-- A file that opens needs no backup.
open_or_backup-ok :
    (moved : Bool) (file : File) (window : ℕ) (t : Store)
    → open_store file window ≡ ok t
    → open_or_backup moved file window ≡ ok t
unfolding open_or_backup reopened
open_or_backup-ok moved file window t h = rw h refl

-- A process that starts, whatever then happens to it, and whose last save succeeds leaves a file from
-- which a process with the same settings starts, with the same devices and mappings under every key.
pub start-live :
    (config : Settings.File) (state : Bytes → File) (moved : Bool) (cfg : Config) (s : Store)
    (p : Parts) (events : List Event)
    → start config state moved ≡ ok (cfg, s)
    → let last = live p events (record { loop = new_loop; store = s }) in
      (t : Store) × (start config (λ path. (shut_down true last).file) moved ≡ ok (cfg, t))
      × Agrees t last.store
unfolding IsSaved start
start-live config state moved cfg s p events h =
    let last = live p events (record { loop = new_loop; store = s }) in
    let (fit, formed) = start-valid config state moved cfg s h in
    let (saved, same) = shut_down-IsSaved last (Reaches-IsStore formed (live-Reaches p events _)) in
    let (found, loaded, first) = start-parts config state moved cfg s h in
    let (t, opened, equal) = saved (window_of cfg.scan_interval) in
    (t, rw (loaded, start, open_or_backup-ok moved _ _ t opened), Agrees-trans equal same)
