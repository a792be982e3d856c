-- ===== src/Tests/Living.antt =====
-- The theorems on the running process at a concrete course of events.
use local_dns.Base.{◌≡◌, refl, List, [], ◌∷◌, true, false, Bytes, Option, some}
use local_dns.Base.Text.{codes}
use local_dns.Scanner.Loop.{new_loop}
use local_dns.Web.{allowed, get_devices, is_user, post_scan}
use local_dns.Program.Live.{
  Event, Live, Parts, ticked, woken, requested, flushed, cancelled, happen, live,
}
use local_dns.Program.Live.Asked.{woken-live}
use local_dns.Tests.Requests.{empty_store, site}
use local_dns.Tests.Scanning.{settings, world}

abbrev parts : Parts
parts = record { scanner = settings; site = site }

abbrev admin : Option (Bytes × Bytes)
admin = some (codes "admin", codes "secret")

-- The first scan, a request for another, a save that fails, that scan, and the end of the context.
abbrev day : List Event
day =
    ticked world ∷ requested true 150 admin post_scan ∷ flushed false ∷ woken world ∷ cancelled ∷ []

abbrev started : Live
started = record { loop = new_loop; store = empty_store }

-- What happens while a request for a scan waits.
abbrev meanwhile : List Event
meanwhile = requested true 160 admin get_devices ∷ flushed true ∷ []

woken-live_example :
    let later = live parts (requested true 150 admin post_scan ∷ meanwhile) started in
    (happen parts (woken world) later
      ≡ happen parts (ticked world) (record later { loop = record later.loop { pending = false } }))
    × ((happen parts (woken world) later).loop.pending ≡ false)
unfolding allowed is_user
woken-live_example = woken-live parts true 150 admin meanwhile world started refl (tt, (tt, tt))
