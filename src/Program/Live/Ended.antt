-- ===== src/Program/Live/Ended.antt =====
-- The scanner after the end of its context.
use local_dns.Base.{◌≡◌, List, [], ◌∷◌, true}
use local_dns.Store.State.{Store}
use local_dns.Scanner.Loop.{Loop}
use local_dns.Program.Live.{Event, Live, ticked, woken, requested, flushed, cancelled}

-- The events that are no scans.
unfoldable pub unscanned : List Event → List Event
unscanned [] = []
unscanned (ticked w ∷ events) = unscanned events
unscanned (woken w ∷ events) = unscanned events
unscanned (requested disk now given action ∷ events) =
    requested disk now given action ∷ unscanned events
unscanned (flushed disk ∷ events) = flushed disk ∷ unscanned events
unscanned (cancelled ∷ events) = cancelled ∷ unscanned events

-- A scanner that is at rest: the store is what it was, its context has ended, and its memory is the
-- same.
record AtRest (l l' : Loop) (s s' : Store) : Type 0 where
  same_store : s' ≡ s
  ended : l'.done ≡ true
  same_memory : l'.memory ≡ l.memory
