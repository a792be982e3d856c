-- ===== src/Scanner/Round/Jobs.antt =====
-- How many probes a scan sends, and what it remembers of them.
use local_dns.Base.{
  ℕ, ◌+◌, ◌≤◌, ◌≡◌, refl, List, [], ◌∷◌, ◌++◌, ◌||◌, Bytes, some, All, All-append, length,
  length-append, arith, leb, leb→lt, lt→leb, bytes_eq, bytes_eq_refl, Bool-cases, Option-cases, inl,
  inr,
}
use local_dns.Base.Text.{is_empty}
use local_dns.Dict.{get, put, get-put}
use local_dns.Store.State.{SeenDevice, Store}
use local_dns.Store.Devices.{device}
use local_dns.Scanner.Round.{Job, Memory, collect, max_probes_per_scan, wants_probe}

-- A probe that the scanner remembers as sent at this time.
abbrev pub IsRecorded : ℕ → Memory → Job → Type 0
IsRecorded now memory j = get j.mac memory.probed_at ≡ some now

-- The jobs so far: at most so many, each remembered.
record IsBatch (now : ℕ) (memory : Memory) (jobs : List Job) : Type 0 where
  few : length jobs ≤ max_probes_per_scan
  recorded : All (IsRecorded now memory) jobs

module _ (now : ℕ) (mac ip : Bytes) (memory : Memory) where
  -- Another probe at the same time forgets none.
  recorded-again :
      (j : Job) → IsRecorded now memory j → get j.mac (put mac now memory.probed_at) ≡ some now
  recorded-again j h =
      rw get-put
        (elim (Bool-cases (bytes_eq mac j.mac)) [ inl same ↦ rw same | inr other ↦ rw other h ])

  All-recorded-again :
      (jobs : List Job)
      → All (IsRecorded now memory) jobs
      → All (λ (j : Job). get j.mac (put mac now memory.probed_at) ≡ some now) jobs
  All-recorded-again [] h = tt
  All-recorded-again (j ∷ jobs) (p, h) = (recorded-again j p, All-recorded-again jobs h)

  added :
      (jobs : List Job)
      → length jobs + 1 ≤ max_probes_per_scan
      → All (IsRecorded now memory) jobs
      → IsBatch now
          (record memory {
            probed_at = put mac now memory.probed_at;
            probed_ip = put mac ip memory.probed_ip;
          })
          (jobs ++ record { mac = mac; ip = ip } ∷ [])
  added jobs h recorded = record {
    few = omega (arith, length-append jobs (record { mac = mac; ip = ip } ∷ []));
    recorded =
        All-append (λ (j : Job). get j.mac (put mac now memory.probed_at) ≡ some now) jobs
          (record { mac = mac; ip = ip } ∷ []) (All-recorded-again jobs recorded)
          (rw (get-put, bytes_eq_refl mac) refl, tt);
  }

-- The loop with less than a full batch ends with one that is not too large.
collect-IsBatch :
    (now : ℕ) (s : Store) (seen : List SeenDevice) (memory : Memory) (jobs : List Job)
    → length jobs + 1 ≤ max_probes_per_scan
    → All (IsRecorded now memory) jobs
    → IsBatch now (collect now s seen memory jobs).0 (collect now s seen memory jobs).1
unfolding collect
collect-IsBatch now s [] memory jobs h r = record { few = omega arith; recorded = r }
collect-IsBatch now s (sd ∷ seen) memory jobs h r =
    let skip = collect-IsBatch now s seen memory jobs h r in
    elim (Bool-cases (sd.self || is_empty sd.ip)) [
      | inl passed ↦ rw passed skip
      | inr other ↦ elim (Option-cases (device sd.mac s)) [
        | inl unknown ↦ rw (other, collect, unknown) skip
        | inr (d, known) ↦ elim (Bool-cases (wants_probe now memory d sd)) [
          | inr no_probe ↦
              rw
                (
                  other,
                  collect,
                  known,
                  no_probe,
                  lt→leb max_probes_per_scan (length jobs) (omega arith),
                )
                skip
          | inl probe ↦
              let batch = added now d.mac sd.ip memory jobs h r in
              let job : Job = record { mac = d.mac; ip = sd.ip } in
              let jobs' = jobs ++ job ∷ [] in
              elim (Bool-cases (leb max_probes_per_scan (length jobs'))) [
                | inl full ↦ rw (other, collect, known, probe, full) batch
                | inr room ↦
                    rw (other, collect, known, probe, room)
                      (collect-IsBatch now s seen _ jobs'
                        (let less = leb→lt max_probes_per_scan (length jobs') room in omega arith)
                        batch.recorded)
              ]
        ]
      ]
    ]

-- A scan sends at most sixteen probes, and remembers for each of them that its device was probed at
-- this time.
pub collect_bounds :
    (now : ℕ) (s : Store) (seen : List SeenDevice) (memory : Memory)
    → (length (collect now s seen memory []).1 ≤ 16)
      × All (IsRecorded now (collect now s seen memory []).0) (collect now s seen memory []).1
collect_bounds now s seen memory =
    let batch = collect-IsBatch now s seen memory [] (omega arith) tt in (batch.few, batch.recorded)
