-- ===== src/Program/Live.antt =====
-- cmd/local-dns/main.go: the process between its start and its end. The scanner's loop, the requests of
-- the web interface, the queries and the periodic save share the store; what they do comes in any order.
pub mod Reached
pub mod Asked
pub mod Ended
use local_dns.Base.{ℕ, List, [], ◌∷◌, Bool, true, false, Bytes, Option}
use local_dns.Store.State.{Store}
use local_dns.Store.Files.{save_if_dirty}
use local_dns.Scanner.Round.{Settings, World}
use local_dns.Scanner.Loop.{Loop, last_scan, turn, wake}
use local_dns.Web.{Action, Answer, Shared, Site, serve}

-- The parts that do not change: the settings of the scanner and of the web server.
pub record Parts : Type 0 where
  pub scanner : Settings
  pub site : Site

pub record Live : Type 0 where
  pub loop : Loop
  pub store : Store

-- What happens: a scan at the start or on a tick, a scan that was asked for, a request with its
-- credentials, the periodic save, the end of the context.
pub data Event : Type 0 where
  ticked woken : World → Event
  requested : Bool → ℕ → Option (Bytes × Bytes) → Action → Event
  flushed : Bool → Event
  cancelled : Event

abbrev of_pair : Loop × Store → Live
of_pair (loop, store) = record { loop = loop; store = store }

-- What the handlers get of the process.
unfoldable pub shared_of : Live → Shared
unfolding last_scan
shared_of s = record { store = s.store; pending = s.loop.pending; last_scan = last_scan s.loop }

abbrev pub with_shared : Live → Shared → Live
with_shared s sh = record { loop = record s.loop { pending = sh.pending }; store = sh.store }

unfoldable pub happen : Parts → Event → Live → Live
unfolding turn wake serve shared_of save_if_dirty
happen p (ticked w) s = of_pair (turn p.scanner w s.loop s.store)
happen p (woken w) s = of_pair (wake p.scanner w s.loop s.store)
happen p (requested disk now given action) s =
    with_shared s (serve p.site disk now given action (shared_of s)).1
happen p (flushed disk) s = record s { store = (save_if_dirty disk s.store).1 }
happen p cancelled s = record s { loop = record s.loop { done = true } }

unfoldable pub live : Parts → List Event → Live → Live
unfolding happen
live p [] s = s
live p (e ∷ events) s = live p events (happen p e s)

-- The end of the process: the last save. It returns the store, whose file stays.
unfoldable pub shut_down : Bool → Live → Store
unfolding save_if_dirty
shut_down disk s = (save_if_dirty disk s.store).1
