-- ===== src/Scanner/Loop.antt =====
-- internal/scanner/scanner.go: the scans of `Run`, one after the other, and the trigger that asks
-- for one. `select` takes any case that is ready, so a tick can still be taken after the end of the
-- context; the scan that it starts finds the context ended.
use local_dns.Base.{ℕ, [], Bool, true, false, ◌||◌, if◌then◌else◌}
use local_dns.Store.State.{Store}
use local_dns.Scanner.Round.{Memory, Settings, World, scan}

-- What a scanner keeps: what its scans write, whether a request for a scan waits in the channel, which
-- holds one, and whether the context of `Run` has ended.
pub record Loop : Type 0 where
  pub memory : Memory
  pub pending : Bool
  pub done : Bool

-- What `New` makes.
abbrev pub new_loop : Loop
new_loop = record {
  memory = record { last_scan = 0; probed_at = []; probed_ip = [] };
  pending = false;
  done = false;
}

unfoldable pub trigger : Loop → Loop
trigger l = record l { pending = true }

unfoldable pub last_scan : Loop → ℕ
last_scan l = l.memory.last_scan

-- What a scan meets if it starts after the end of the context, or not.
unfoldable pub world_in : Bool → World → World
world_in done w = record w {
  swept_then_done = done || w.swept_then_done;
  scanned_then_done = done || w.scanned_then_done;
}

-- A scan that the loop starts. A context that ends during the scan has ended after it.
unfoldable pub turn : Settings → World → Loop → Store → Loop × Store
unfolding world_in scan
turn c w l s =
    let v = world_in l.done w in
    let (memory, s') = scan c v l.memory s in
    (record l { memory = memory; done = v.swept_then_done || v.scanned_then_done }, s')

-- The case of the trigger, which is ready if a request waits: it is taken out of the channel first.
unfoldable pub wake : Settings → World → Loop → Store → Loop × Store
unfolding turn
wake c w l s =
    let next = turn c w (record l { pending = false }) s in if l.pending then next else (l, s)
