-- ===== src/Program/Live/Asked.antt =====
-- The scans that are asked for: none is lost, and no more are made than were asked for.
use local_dns.Base.{
  ℕ, ◌+◌, ◌≤◌, ◌≡◌, refl, ap, ◌∙◌, inl, inr, List, [], ◌∷◌, Bool, true, false, ◌||◌, Bytes, Option,
  none, some, All, Bool-cases, arith, if◌then◌else◌,
}
use local_dns.Store.State.{Store}
use local_dns.Scanner.Round.{Settings, World}
use local_dns.Scanner.Loop.{trigger, Loop, turn, wake}
use local_dns.Web.{
  Action, Shared, Site, serve, allowed, respond, get_status, get_devices, get_mappings, post_scan,
  served, patch_device, delete_device_at, delete_mapping_at, post_mapping, put_mapping, do_patch,
  do_delete_device, do_delete_mapping, do_post_mapping, do_put_mapping,
}
use local_dns.Program.Live.{
  Event, Live, Parts, ticked, woken, requested, flushed, cancelled, happen, live, shared_of,
}

abbrev is_scan : Action → Bool
is_scan post_scan = true
is_scan get_status = false
is_scan get_devices = false
is_scan get_mappings = false
is_scan served = false
is_scan (patch_device mac body) = false
is_scan (delete_device_at mac) = false
is_scan (delete_mapping_at hostname) = false
is_scan (post_mapping body) = false
is_scan (put_mapping old body) = false

-- Only the handler of a scan writes to the channel.
pending-respond :
    (site : Site) (disk : Bool) (now : ℕ) (action : Action) (s : Shared)
    → (respond site disk now action s).1.pending ≡ (is_scan action || s.pending)
unfolding respond do_patch do_delete_device do_delete_mapping do_post_mapping do_put_mapping
pending-respond site disk now get_status s = refl
pending-respond site disk now get_devices s = refl
pending-respond site disk now get_mappings s = refl
pending-respond site disk now post_scan s = refl
pending-respond site disk now served s = refl
pending-respond site disk now (patch_device mac none) s = refl
pending-respond site disk now (patch_device mac (some none)) s = refl
pending-respond site disk now (patch_device mac (some (some label))) s = refl
pending-respond site disk now (delete_device_at mac) s = refl
pending-respond site disk now (delete_mapping_at hostname) s = refl
pending-respond site disk now (post_mapping none) s = refl
pending-respond site disk now (post_mapping (some b)) s = refl
pending-respond site disk now (put_mapping old none) s = refl
pending-respond site disk now (put_mapping old (some b)) s = refl

pending-turn :
    (c : Settings) (w : World) (l : Loop) (s : Store) → (turn c w l s).0.pending ≡ l.pending
unfolding turn
pending-turn c w l s = refl

-- Whether a request asks for a scan.
unfoldable asks : Site → Option (Bytes × Bytes) → Action → Bool
unfolding allowed
asks site given action = if allowed site given then is_scan action else false

-- The requests that ask for a scan.
unfoldable pub asked : Parts → List Event → ℕ
unfolding asks
asked p [] = 0
asked p (requested disk now given action ∷ events) =
    (if asks p.site given action then 1 else 0) + asked p events
asked p (ticked w ∷ events) = asked p events
asked p (woken w ∷ events) = asked p events
asked p (flushed disk ∷ events) = asked p events
asked p (cancelled ∷ events) = asked p events

-- The scans that the loop makes because a request waits.
unfoldable pub woken_scans : Parts → List Event → Live → ℕ
unfolding happen
woken_scans p [] s = 0
woken_scans p (woken w ∷ events) s =
    (if s.loop.pending then 1 else 0) + woken_scans p events (happen p (woken w) s)
woken_scans p (ticked w ∷ events) s = woken_scans p events (happen p (ticked w) s)
woken_scans p (flushed disk ∷ events) s = woken_scans p events (happen p (flushed disk) s)
woken_scans p (cancelled ∷ events) s = woken_scans p events (happen p cancelled s)
woken_scans p (requested disk now given action ∷ events) s =
    woken_scans p events (happen p (requested disk now given action) s)

pending-serve :
    (site : Site) (disk : Bool) (now : ℕ) (given : Option (Bytes × Bytes)) (action : Action)
    (s : Shared)
    → (serve site disk now given action s).1.pending ≡ (asks site given action || s.pending)
unfolding serve asks
pending-serve site disk now given action s = elim (Bool-cases (allowed site given)) [
  | inl may ↦ rw may (pending-respond site disk now action s)
  | inr may_not ↦ rw may_not refl
]

abbrev waiting : Live → ℕ
waiting s = if s.loop.pending then 1 else 0

pending-woken : (p : Parts) (w : World) (s : Live) → (happen p (woken w) s).loop.pending ≡ false
unfolding happen wake
pending-woken p w s = elim (Bool-cases s.loop.pending) [
  | inl there ↦ rw there refl
  | inr none_there ↦ rw none_there refl
]

flag_sum : (a b : Bool) → (if a || b then 1 else 0) ≤ (if a then 1 else 0) + (if b then 1 else 0)
flag_sum true true = omega arith
flag_sum true false = omega arith
flag_sum false true = omega arith
flag_sum false false = omega arith

zero_least : (n : ℕ) → 0 ≤ n
zero_least n = omega arith

one_less : (here later asks : ℕ) → later ≤ asks + 0 → here + later ≤ asks + here
one_less here later asks h = omega arith

one_more :
    (later asks new both old : ℕ)
    → later ≤ asks + both
    → both ≤ new + old
    → later ≤ (new + asks) + old
one_more later asks new both old h k = omega arith

flag_step :
    (n a b : Bool)
    → n ≡ (a || b)
    → (if n then 1 else 0) ≤ (if a then 1 else 0) + (if b then 1 else 0)
flag_step n a b e = rw e (flag_sum a b)

-- The loop makes no more scans out of turn than were asked for, one that waited at the start among them.
pub woken_scans_bound :
    (p : Parts) (events : List Event) (s : Live)
    → woken_scans p events s ≤ asked p events + (if s.loop.pending then 1 else 0)
unfolding woken_scans asked happen shared_of
woken_scans_bound p [] s = zero_least _
woken_scans_bound p (ticked w ∷ events) s = woken_scans_bound p events (happen p (ticked w) s)
woken_scans_bound p (flushed disk ∷ events) s =
    woken_scans_bound p events (happen p (flushed disk) s)
woken_scans_bound p (cancelled ∷ events) s = woken_scans_bound p events (happen p cancelled s)
woken_scans_bound p (woken w ∷ events) s =
    let later = woken_scans_bound p events (happen p (woken w) s) in
    let none_left = pending-woken p w s in one_less _ _ _ (rw none_left at later)
woken_scans_bound p (requested disk now given action ∷ events) s =
    let later = woken_scans_bound p events (happen p (requested disk now given action) s) in
    let kept = pending-serve p.site disk now given action (shared_of s) in
    one_more _ _ _ _ _ later (flag_step _ (asks p.site given action) s.loop.pending kept)

-- Any event but a scan out of turn.
abbrev IsOther : Event → Type 0
IsOther (woken w) = ⊥
IsOther (ticked w) = Unit
IsOther (requested disk now given action) = Unit
IsOther (flushed disk) = Unit
IsOther cancelled = Unit

or_waiting : (n a b : Bool) → n ≡ (a || b) → b ≡ true → n ≡ true
or_waiting n true b e h = e
or_waiting n false b e h = e ∙ h

pending-happen :
    (p : Parts) (e : Event) (s : Live)
    → IsOther e
    → s.loop.pending ≡ true
    → (happen p e s).loop.pending ≡ true
unfolding happen shared_of
pending-happen p (woken w) s o h = absurd o
pending-happen p (ticked w) s o h = pending-turn p.scanner w s.loop s.store ∙ h
pending-happen p (requested disk now given action) s o h =
    or_waiting _ (asks p.site given action) s.loop.pending
      (pending-serve p.site disk now given action (shared_of s)) h
pending-happen p (flushed disk) s o h = h
pending-happen p cancelled s o h = h

pending-live :
    (p : Parts) (events : List Event) (s : Live)
    → All IsOther events
    → s.loop.pending ≡ true
    → (live p events s).loop.pending ≡ true
unfolding live
pending-live p [] s o h = h
pending-live p (e ∷ events) s (o, os) h =
    pending-live p events (happen p e s) os (pending-happen p e s o h)

-- What the handler of a scan does is `Trigger`.
happen-post_scan :
    (p : Parts) (disk : Bool) (now : ℕ) (given : Option (Bytes × Bytes)) (s : Live)
    → allowed p.site given ≡ true
    → happen p (requested disk now given post_scan) s
      ≡ record { loop = trigger s.loop; store = s.store }
unfolding happen shared_of serve respond trigger
happen-post_scan p disk now given s may = rw may refl

asked_for :
    (p : Parts) (disk : Bool) (now : ℕ) (given : Option (Bytes × Bytes)) (s : Live)
    → allowed p.site given ≡ true
    → (happen p (requested disk now given post_scan) s).loop.pending ≡ true
unfolding trigger
asked_for p disk now given s may =
    ap (λ l. l.loop.pending) (happen-post_scan p disk now given s may)

happen-woken :
    (p : Parts) (w : World) (s : Live)
    → s.loop.pending ≡ true
    → happen p (woken w) s
      ≡ happen p (ticked w) (record s { loop = record s.loop { pending = false } })
unfolding happen wake
happen-woken p w s h = rw h refl

-- A scan that a request with the right credentials asks for is not lost: whatever else happens, the
-- request waits until the loop takes it, and then the loop makes a scan as on a tick, and no
-- request waits.
pub woken-live :
    (p : Parts) (disk : Bool) (now : ℕ) (given : Option (Bytes × Bytes)) (events : List Event)
    (w : World) (s : Live)
    → allowed p.site given ≡ true
    → All IsOther events
    → let later = live p (requested disk now given post_scan ∷ events) s in
      (happen p (woken w) later
        ≡ happen p (ticked w) (record later { loop = record later.loop { pending = false } }))
      × ((happen p (woken w) later).loop.pending ≡ false)
unfolding live
woken-live p disk now given events w s may others =
    let later = live p events (happen p (requested disk now given post_scan) s) in
    (
      happen-woken p w later (
          pending-live p events (happen p (requested disk now given post_scan) s) others
            (asked_for p disk now given s may)),
      pending-woken p w later,
    )
