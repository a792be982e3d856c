-- ===== src/Scanner/Round/Calls.antt =====
-- A scan acts on the store by its operations.

use local_dns.Base.{
  ℕ, ◌≡◌, refl, ap, sym, ◌∙◌, List, [], ◌∷◌, ◌++◌, Bool, false, ◌||◌, Bytes, Option, none, some,
  All, Bool-cases, Option-cases, inl, inr, ◌⊎◌, length, ◌==◌,
}
use local_dns.Store.State.{SeenDevice, Store}
use local_dns.Store.Files.{save_locked}
use local_dns.Store.Devices.{apply_scan}
use local_dns.Store.Invariant.{IsStore}
use local_dns.Store.Invariant.Runs.{run_all-preserves}
use local_dns.Store.Run.{Op, scanned, named, vendor_found, written, run, run_all}
use local_dns.Scanner.Arp.{Neighbor, read_arp_table}
use local_dns.Scanner.Network.{NetContext, resolve_network}
use local_dns.Scanner.Oui.{OuiTable}
use local_dns.Scanner.Probe.{Heard}
use local_dns.Scanner.Round.{
  Job, Memory, Settings, World, collect, feed, fill_vendors, found_by, name_self, observed,
  own_name, probe_hostnames, run_jobs, scan, vendor_for, write_vendor,
}

-- The calls that name devices and fill in vendors.
pub data IsDetail : Op → Type 0 where
  naming : (mac name : Bytes) → IsDetail (named mac name)
  filling : (mac vendor : Bytes) → IsDetail (vendor_found mac vendor)

-- One store comes from another by such calls.
abbrev Details : Store → Store → Type 0
Details s t = (ops : List Op) × All IsDetail ops × (run_all ops s ≡ t)

pub run_all-append :
    (xs ys : List Op) (s : Store) → run_all (xs ++ ys) s ≡ run_all ys (run_all xs s)
unfolding run_all
run_all-append [] ys s = refl
run_all-append (x ∷ xs) ys s = run_all-append xs ys (run x s)

All-append_details : (xs ys : List Op) → All IsDetail xs → All IsDetail ys → All IsDetail (xs ++ ys)
All-append_details [] ys h k = k
All-append_details (x ∷ xs) ys (p, h) k = (p, All-append_details xs ys h k)

unchanged : (s : Store) → Details s s
unfolding run_all
unchanged s = ([], tt, refl)

one_call : (op : Op) (s : Store) → IsDetail op → Details s (run op s)
unfolding run_all
one_call op s p = (op ∷ [], (p, tt), refl)

Details-trans : (s t u : Store) → Details s t → Details t u → Details s u
Details-trans s t u (xs, h, e) (ys, k, f) =
    (xs ++ ys, All-append_details xs ys h k, run_all-append xs ys s ∙ (ap (run_all ys) e ∙ f))

name_self-Details : (o : Option (Bytes × Bytes)) (s : Store) → Details s (name_self o s).1
unfolding name_self
name_self-Details none s = unchanged s
name_self-Details (some (mac, name)) s = unfold run in one_call (named mac name) s (naming mac name)

write_vendor-Details : (o : Option (Bytes × Bytes)) (s : Store) → Details s (write_vendor o s).1
unfolding write_vendor
write_vendor-Details none s = unchanged s
write_vendor-Details (some (mac, v)) s =
    unfold run in one_call (vendor_found mac v) s (filling mac v)

run_jobs-Details :
    (heard : Bytes → Heard) (jobs : List Job) (changed : Bool) (s : Store)
    → Details s (run_jobs heard jobs changed s).1
unfolding run_jobs
run_jobs-Details heard [] changed s = unchanged s
run_jobs-Details heard (j ∷ jobs) changed s =
    let next = name_self (found_by heard j) s in
    Details-trans s next.1 _ (name_self-Details (found_by heard j) s)
      (run_jobs-Details heard jobs (changed || next.0) next.1)

probe_hostnames-Details :
    (w : World) (seen : List SeenDevice) (memory : Memory) (s : Store)
    → Details s (probe_hostnames w seen memory s).2
unfolding probe_hostnames
probe_hostnames-Details w seen memory s =
    let jobs = (collect w.now s seen memory []).1 in
    elim (Bool-cases (w.scanned_then_done || length jobs == 0)) [
      | inl stop ↦ rw stop (unchanged s)
      | inr go ↦ rw go (run_jobs-Details w.heard (w.finish jobs) false s)
    ]

fill_vendors-Details :
    (oui : OuiTable) (seen : List SeenDevice) (changed : Bool) (s : Store)
    → Details s (fill_vendors oui seen changed s).1
unfolding fill_vendors
fill_vendors-Details oui [] changed s = unchanged s
fill_vendors-Details oui (sd ∷ seen) changed s =
    let next = write_vendor (vendor_for oui s sd) s in
    Details-trans s next.1 _ (write_vendor-Details (vendor_for oui s sd) s)
      (fill_vendors-Details oui seen (changed || next.0) next.1)

-- What a scan may do to a store: nothing; or `ApplyScan` with what was observed, then names and vendors;
-- or this, and a save.
pub data IsScan (c : Settings) (w : World) (s t : Store) : Type 0 where
  idle : t ≡ s → IsScan c w s t
  unsaved :
      (neighbors : List Neighbor) (ops : List Op)
      → read_arp_table w.arp ≡ some neighbors
      → All IsDetail ops
      → t
        ≡ run_all
            (scanned (observed (resolve_network c.cidr c.iface w.kernel) neighbors) w.now ∷ ops)
            s
      → IsScan c w s t
  saved :
      (neighbors : List Neighbor) (ops : List Op)
      → read_arp_table w.arp ≡ some neighbors
      → All IsDetail ops
      → t
        ≡ run_all
            (scanned (observed (resolve_network c.cidr c.iface w.kernel) neighbors) w.now
              ∷ (ops ++ written w.disk ∷ []))
            s
      → IsScan c w s t

unsaved_run :
    (seen : List SeenDevice) (now : ℕ) (s : Store) (ops : List Op) (t : Store)
    → run_all ops (apply_scan seen now s).1 ≡ t
    → t ≡ run_all (scanned seen now ∷ ops) s
unfolding run_all run
unsaved_run seen now s ops t e = sym e

saved_run :
    (seen : List SeenDevice) (now : ℕ) (disk : Bool) (s : Store) (ops : List Op) (t : Store)
    → run_all ops (apply_scan seen now s).1 ≡ t
    → (save_locked disk t).1 ≡ run_all (scanned seen now ∷ (ops ++ written disk ∷ [])) s
unfolding run_all run
saved_run seen now disk s ops t e =
    ap (λ u. (save_locked disk u).1) (sym e)
    ∙ sym (run_all-append ops (written disk ∷ []) (apply_scan seen now s).1)

-- The store before the save, and whether there is one.
module _ (c : Settings) (w : World) (nc : Option NetContext) (neighbors : List Neighbor)
    (memory : Memory) (s : Store) where
  pub feed-cases :
      (ops : List Op) × All IsDetail ops
      × (((feed c w nc neighbors memory s).1
            ≡ run_all (scanned (observed nc neighbors) w.now ∷ ops) s)
          ⊎ ((feed c w nc neighbors memory s).1
              ≡ run_all (scanned (observed nc neighbors) w.now ∷ (ops ++ written w.disk ∷ [])) s))
  unfolding feed
  feed-cases =
      let seen = observed nc neighbors in
      let (material, s1) = apply_scan seen w.now s in
      let (renamed, s2) = name_self (own_name nc w.hostname) s1 in
      let (memory', probed, s3) = probe_hostnames w seen memory s2 in
      let (filled, s4) = fill_vendors c.oui seen false s3 in
      let (ops, details, e) =
        Details-trans s1 s3 s4
          (Details-trans s1 s2 s3 (name_self-Details (own_name nc w.hostname) s1)
            (probe_hostnames-Details w seen memory s2))
          (fill_vendors-Details c.oui seen false s3) in
      elim (Bool-cases (material || renamed || probed || filled)) [
        | inr quiet ↦ (ops, details, inl (rw quiet (unsaved_run seen w.now s ops s4 e)))
        | inl news ↦ (ops, details, inr (rw news (saved_run seen w.now w.disk s ops s4 e)))
      ]

pub scan-IsScan :
    (c : Settings) (w : World) (memory : Memory) (s : Store) → IsScan c w s (scan c w memory s).1
unfolding scan
scan-IsScan c w memory s = elim (Bool-cases w.swept_then_done) [
  | inl done ↦ rw done (idle refl)
  | inr going ↦ elim (Option-cases (read_arp_table w.arp)) [
    | inl no_table ↦ rw (going, scan, no_table) (idle refl)
    | inr (neighbors, table) ↦
        let (ops, details, end) =
          feed-cases c w (resolve_network c.cidr c.iface w.kernel) neighbors memory s in
        rw (going, scan, table)
          (elim end [
            | inl e ↦ unsaved neighbors ops table details e
            | inr e ↦ saved neighbors ops table details e
          ])
  ]
]

-- A scan keeps a store well formed.
pub scan-IsStore :
    (c : Settings) (w : World) (memory : Memory) (s : Store)
    → IsStore s
    → IsStore (scan c w memory s).1
scan-IsStore c w memory s v = elim (scan-IsScan c w memory s) [
  | idle e ↦ rw e v
  | unsaved neighbors ops table details e ↦ rw e (run_all-preserves _ s v)
  | saved neighbors ops table details e ↦ rw e (run_all-preserves _ s v)
]
