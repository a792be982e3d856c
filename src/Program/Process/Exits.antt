-- ===== src/Program/Process/Exits.antt =====
-- How the process ends, and what it leaves.
use local_dns.Base.{
  ◌≡◌, refl, ap, ◌∙◌, ◌⊎◌, ◌↔◌, inl, inr, false, some, Outcome, ok, err, Option-cases, arith,
}
use local_dns.Config.State.{Config}
use local_dns.Config.Validate.{load}
use local_dns.Store.State.{Store}
use local_dns.Store.State as Registry
use local_dns.Server.Life.{new_life, start_server}
use local_dns.Program.{open_or_backup, window_of}
use local_dns.Program.Steps.{Loaded-cases}
use local_dns.Program.Process.{
  Ending, Flags, Runs, System, code_of, error_of, signalled, web_failed, last_store, main_program,
  run_config, run_opened,
}

main-Runs :
    (flags : Flags) (sys : System) (cfg : Config) (st : Store)
    → flags.show_version ≡ false
    → Runs sys cfg st
    → main_program flags sys ≡ (code_of (error_of sys.ending), some (last_store sys cfg st))
unfolding main_program run_config run_opened
main-Runs flags sys cfg st h r =
    rw (h, main_program, r.loaded, run_config, r.opened, run_opened, r.bound) refl

Opened-cases :
    (o : Outcome Registry.Error Store)
    → ((e : Registry.Error) × (o ≡ err e)) ⊎ ((st : Store) × (o ≡ ok st))
Opened-cases (err e) = inl (e, refl)
Opened-cases (ok st) = inr (st, refl)

ending-zero : (ending : Ending) → code_of (error_of ending) ≡ 0 → ending ≡ signalled
ending-zero signalled h = refl
ending-zero web_failed h = absurd (omega arith)

Runs-main :
    (flags : Flags) (sys : System)
    → flags.show_version ≡ false
    → (main_program flags sys).0 ≡ 0
    → (cfg : Config) × (st : Store) × Runs sys cfg st × (sys.ending ≡ signalled)
unfolding main_program run_config run_opened
Runs-main flags sys h z = elim (Loaded-cases (load sys.config)) [
  | inl (e, bad) ↦ absurd (omega (arith, rw (h, main_program, bad) at z))
  | inr (cfg, found, loaded) ↦
      elim (Opened-cases
        (open_or_backup sys.moved (sys.state cfg.state_path) (window_of cfg.scan_interval))) [
          | inl (e, bad) ↦
              absurd (omega (arith, rw (h, main_program, loaded, run_config, bad) at z))
          | inr (st, opened) ↦ elim (Option-cases (start_server sys.binds new_life).0) [
            | inr (e, bad) ↦ absurd (
                omega
                  (arith, rw (h, main_program, loaded, run_config, opened, run_opened, bad) at z))
            | inl bound ↦
                let runs : Runs sys cfg st = record {
                  found = found;
                  loaded = loaded;
                  opened = opened;
                  bound = bound;
                } in
                (
                  cfg,
                  st,
                  runs,
                  ending-zero sys.ending (rw (main-Runs flags sys cfg st h runs) at z),
                )
          ]
        ]
]

-- Without the flag for the version, the process ends with the code 0 exactly if its settings are loaded,
-- its store is opened, the sockets of the DNS server are bound, and a signal ends it.
pub main_program-zero_iff :
    (flags : Flags) (sys : System)
    → flags.show_version ≡ false
    → ((main_program flags sys).0 ≡ 0)
      ↔ ((cfg : Config) × (st : Store) × Runs sys cfg st × (sys.ending ≡ signalled))
main_program-zero_iff flags sys h = (
  Runs-main flags sys h,
  λ (cfg, st, runs, by_signal).
      ap (λ r. r.0) (main-Runs flags sys cfg st h runs) ∙ rw by_signal refl,
)
