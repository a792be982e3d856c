-- ===== src/Server/Life/Quiet.antt =====
-- The start of the server, and its end.
use local_dns.Base.{
  ◌+◌, ◌≤◌, ◌≡◌, refl, ap, ◌∙◌, List, ◌∷◌, Bool, true, false, Bytes, Option, none, some, arith,
  length, length-append,
}
use local_dns.Server.Answer.{Server}
use local_dns.Server.Life.{
  Binds, Life, Ports, Reach, Step, StartError, write_to, here, next, new_life, start_server,
  close_ports, loops, received, answered, dropped, accepted, hung_up, shut, udp_ended, tcp_ended,
}

abbrev pub AreBound : Bool → Life → Type 0
AreBound b l = (l.ports.udp_bound ≡ b) × (l.ports.tcp_bound ≡ b)

-- All that `Start` asks for is given.
abbrev IsGranted : Binds → Type 0
IsGranted b = (b.resolves ≡ true) × (b.udp_binds ≡ true) × (b.tcp_binds ≡ true)

-- How `Start` ends: with both sockets open and both loops running, or with neither.
abbrev pub Ends : Binds → Option StartError × Life → Type 0
Ends b (none, l) = IsGranted b × AreBound true l × (loops l ≡ 2)
Ends b (some e, l) = (¬ IsGranted b) × AreBound false l × (loops l ≡ 0)

start_cases :
    (resolves udp_binds tcp_binds : Bool)
    → let b : Binds = record {
      resolves = resolves;
      udp_binds = udp_binds;
      tcp_binds = tcp_binds;
    } in
      Ends b (start_server b new_life)
unfolding start_server loops
start_cases false u t = (λ g. cc, (refl, refl), refl)
start_cases true false t = (λ g. cc, (refl, refl), refl)
start_cases true true false = (λ g. cc, (refl, refl), refl)
start_cases true true true = ((refl, refl, refl), (refl, refl), refl)

-- `Start` returns no error exactly if the address resolves and both sockets can be bound; then both are
-- open and both loops run. With an error no socket stays open and no loop runs: the one for UDP is
-- closed when the one for TCP cannot be bound.
pub start_server_lem : (b : Binds) → Ends b (start_server b new_life)
start_server_lem b = start_cases b.resolves b.udp_binds b.tcp_binds

-- What stays as it was since the sockets were closed.
record IsQuiet (l l' : Life) : Type 0 where
  bound : AreBound false l'
  same_inbox : l'.inbox ≡ l.inbox
  same_sent : l'.sent ≡ l.sent
  fewer_loops : loops l' ≤ loops l
  same_conns : length l'.conns + length l'.written ≡ length l.conns + length l.written

IsQuiet-self : (l : Life) → AreBound false l → IsQuiet l l
IsQuiet-self l b = record {
  bound = b;
  same_inbox = refl;
  same_sent = refl;
  fewer_loops = omega arith;
  same_conns = refl;
}

-- A loop that ends is one less to wait for.
loops-udp : (l : Life) → l.udp_loop ≡ true → loops l ≡ 1 + loops (record l { udp_loop = false })
unfolding loops
loops-udp l h = rw h (omega arith)

loops-tcp : (l : Life) → l.tcp_loop ≡ true → loops l ≡ 1 + loops (record l { tcp_loop = false })
unfolding loops
loops-tcp l h = rw h (omega arith)

unsent :
    (p : Ports) (e : Bytes × Bytes) (sent : List (Bytes × Bytes))
    → p.udp_bound ≡ false
    → write_to p e sent ≡ sent
unsent p e sent h = rw h refl

Step-IsQuiet : (s : Server) (k l l' : Life) → Step s l l' → IsQuiet k l → IsQuiet k l'
Step-IsQuiet s k l l' (received peer datagram loop bound e) q = absurd (ground (arith, q.bound))
Step-IsQuiet s k l l' (accepted stream loop bound e) q = absurd (ground (arith, q.bound))
Step-IsQuiet s k l l' (answered peer pkt resp before after now net there h e) q = rw e (record {
  bound = q.bound;
  same_inbox = q.same_inbox;
  same_sent = unsent l.ports (peer, resp) l.sent q.bound.0 ∙ q.same_sent;
  fewer_loops = unfold loops in q.fewer_loops;
  same_conns = q.same_conns;
})
Step-IsQuiet s k l l' (dropped peer pkt before after now net there h e) q = rw e (record {
  bound = q.bound;
  same_inbox = q.same_inbox;
  same_sent = q.same_sent;
  fewer_loops = unfold loops in q.fewer_loops;
  same_conns = q.same_conns;
})
Step-IsQuiet s k l l' (hung_up stream before after clock nets writes there e) q = rw e (record {
  bound = q.bound;
  same_inbox = q.same_inbox;
  same_sent = q.same_sent;
  fewer_loops = unfold loops in q.fewer_loops;
  same_conns = omega (
    arith,
    ap length there,
    length-append before (stream ∷ after),
    length-append before after,
    q.same_conns,
  );
})
Step-IsQuiet s k l l' (shut e) q = rw e (
    unfold close_ports in
    record {
      bound = (refl, refl);
      same_inbox = q.same_inbox;
      same_sent = q.same_sent;
      fewer_loops = unfold loops in q.fewer_loops;
      same_conns = q.same_conns;
    })
Step-IsQuiet s k l l' (udp_ended loop closed e) q = rw e (record {
  bound = q.bound;
  same_inbox = q.same_inbox;
  same_sent = q.same_sent;
  fewer_loops = omega (arith, q.fewer_loops, loops-udp l loop);
  same_conns = q.same_conns;
})
Step-IsQuiet s k l l' (tcp_ended loop closed e) q = rw e (record {
  bound = q.bound;
  same_inbox = q.same_inbox;
  same_sent = q.same_sent;
  fewer_loops = omega (arith, q.fewer_loops, loops-tcp l loop);
  same_conns = q.same_conns;
})

Reach-IsQuiet : (s : Server) {k l : Life} → AreBound false k → Reach s k l → IsQuiet k l
Reach-IsQuiet s {k} b here = IsQuiet-self k b
Reach-IsQuiet s {k} b (next {m} {n} r st) = Step-IsQuiet s k m n st (Reach-IsQuiet s b r)

-- With the sockets closed, each loop can end.
loops_end :
    (s : Server) (l : Life) (u t : Bool)
    → AreBound false l
    → Reach s
        (record l { udp_loop = u; tcp_loop = t })
        (record l { udp_loop = false; tcp_loop = false })
loops_end s l true true b = next (next here (udp_ended refl b.0 refl)) (tcp_ended refl b.1 refl)
loops_end s l true false b = next here (udp_ended refl b.0 refl)
loops_end s l false true b = next here (tcp_ended refl b.1 refl)
loops_end s l false false b = here

-- Once `Shutdown` has closed the sockets, whatever then happens, no datagram is read and none is sent, not
-- even a response to one that is being handled, no connection is accepted, no loop starts, and both
-- loops can end, which is all that `Shutdown` waits for.
pub close_ports-Reach :
    (s : Server) (l m : Life)
    → Reach s (close_ports l) m
    → AreBound false m
      × (m.inbox ≡ l.inbox)
      × (m.sent ≡ l.sent)
      × (length m.conns + length m.written ≡ length l.conns + length l.written)
      × (loops m ≤ loops l)
      × ((n : Life) × Reach s m n × (loops n ≡ 0))
unfolding close_ports loops
close_ports-Reach s l m r =
    let q = Reach-IsQuiet s (refl, refl) r in
    (
      q.bound,
      q.same_inbox,
      q.same_sent,
      q.same_conns,
      q.fewer_loops,
      (
        record m { udp_loop = false; tcp_loop = false },
        loops_end s m m.udp_loop m.tcp_loop q.bound,
        refl,
      ),
    )
