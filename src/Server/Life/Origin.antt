-- ===== src/Server/Life/Origin.antt =====
-- Where the datagrams come from that the server sends.
use local_dns.Base.{
  ℕ, ◌+◌, ◌≤◌, ◌≡◌, refl, ap, List, [], ◌∷◌, ◌++◌, Bool, true, false, Bytes, some, arith, All, take,
  length, length-take, bytes_eq, if◌then◌else◌,
}
use local_dns.Server.Answer.{Server}
use local_dns.Server.Handle.{Network, udp, handle}
use local_dns.Server.Life.{
  Binds, Life, Reach, Step, here, next, new_life, start_server, close_ports, received, answered,
  max_udp_query, dropped, accepted, hung_up, shut, udp_ended, tcp_ended,
}

abbrev Mail : Type 0
Mail = Bytes × Bytes

abbrev IsIn : Mail → List Mail → Type 0
IsIn e l = (before : List Mail) × (after : List Mail) × (l ≡ before ++ e ∷ after)

-- The response to something that the peer sent.
abbrev pub IsResponse : Server → List (Bytes × Bytes) → Bytes × Bytes → Type 0
IsResponse s inbox (peer, resp) =
    (pkt : Bytes) × (now : ℕ) × (net : Network) × IsIn (peer, pkt) inbox
    × (handle s now net pkt udp ≡ some resp)

-- The number of the datagrams of a peer.
abbrev pub of_peer : Bytes → List (Bytes × Bytes) → ℕ
of_peer peer [] = 0
of_peer peer (e ∷ l) = (if bytes_eq e.0 peer then 1 else 0) + of_peer peer l

-- What holds of the datagrams that were read, are handled and were sent.
record IsMailed (s : Server) (inbox handling sent : List Mail) : Type 0 where
  responses : All (IsResponse s inbox) sent
  waiting : All (λ e. IsIn e inbox) handling
  counted : (peer : Bytes) → of_peer peer sent + of_peer peer handling ≤ of_peer peer inbox
  short : All (λ e. length e.1 ≤ 4096) inbox

abbrev IsServing : Server → Life → Type 0
IsServing s l = IsMailed s l.inbox l.handling l.sent

IsIn-cons : (e f : Mail) (l : List Mail) → IsIn e l → IsIn e (f ∷ l)
IsIn-cons e f l (before, after, h) = (f ∷ before, after, ap (◌∷◌ f) h)

module _ {A : Type 0} {P Q : A → Type 0} (f : (a : A) → P a → Q a) where
  All-imp : (l : List A) → All P l → All Q l
  All-imp [] h = tt
  All-imp (a ∷ l) (p, h) = (f a p, All-imp l h)

module _ {A : Type 0} (P : A → Type 0) where
  All-split :
      (before after : List A) (a : A) → All P (before ++ a ∷ after) → P a × All P (before ++ after)
  All-split [] after a h = h
  All-split (b ∷ before) after a (p, h) = let (q, k) = All-split before after a h in (q, (p, k))

of_peer-split :
    (peer : Bytes) (before after : List Mail) (e : Mail)
    → of_peer peer (before ++ e ∷ after)
      ≡ (if bytes_eq e.0 peer then 1 else 0) + of_peer peer (before ++ after)
of_peer-split peer [] after e = refl
of_peer-split peer (b ∷ before) after e = omega (arith, of_peer-split peer before after e)

IsResponse-cons :
    (s : Server) (f : Mail) (inbox : List Mail) (e : Mail)
    → IsResponse s inbox e
    → IsResponse s (f ∷ inbox) e
IsResponse-cons s f inbox (peer, resp) (pkt, now, net, there, h) =
    (pkt, now, net, IsIn-cons (peer, pkt) f inbox there, h)

-- A datagram that is taken out of those that are handled, and maybe a response to it.
module _ (s : Server) (l : Life) (v : IsServing s l) (peer pkt : Bytes) (before after : List Mail)
    (there : l.handling ≡ before ++ (peer, pkt) ∷ after) where
  abbrev one : Bytes → ℕ
  one k = if bytes_eq peer k then 1 else 0

  taken : IsIn (peer, pkt) l.inbox × All (λ e. IsIn e l.inbox) (before ++ after)
  taken = All-split (λ e. IsIn e l.inbox) before after (peer, pkt) (rw there at (v.waiting))

  fewer : (k : Bytes) → of_peer k l.sent + (one k + of_peer k (before ++ after)) ≤ of_peer k l.inbox
  fewer k =
      omega (arith, v.counted k, ap (of_peer k) there, of_peer-split k before after (peer, pkt))

  dropped-IsServing : IsServing s (record l { handling = before ++ after })
  dropped-IsServing = record {
    responses = v.responses;
    waiting = taken.1;
    counted = λ k. omega (arith, fewer k);
    short = v.short;
  }

  answered-IsServing :
      (resp : Bytes) (now : ℕ) (net : Network) (b : Bool)
      → handle s now net pkt udp ≡ some resp
      → IsServing s (record l {
        handling = before ++ after;
        sent = if b then (peer, resp) ∷ l.sent else l.sent;
      })
  answered-IsServing resp now net true h = record {
    responses = ((pkt, now, net, taken.0, h), v.responses);
    waiting = taken.1;
    counted = λ k. omega (arith, fewer k);
    short = v.short;
  }
  answered-IsServing resp now net false h = dropped-IsServing

received-IsServing :
    (s : Server) (l : Life)
    → IsServing s l
    → (f : Mail) → length f.1 ≤ 4096
    → IsMailed s (f ∷ l.inbox) (f ∷ l.handling) l.sent
received-IsServing s l v f fits = record {
  responses = All-imp (IsResponse-cons s f l.inbox) l.sent v.responses;
  waiting = (([], l.inbox, refl), All-imp (λ e. IsIn-cons e f l.inbox) l.handling v.waiting);
  counted = λ k. omega (arith, v.counted k);
  short = (fits, v.short);
}

Step-IsServing : (s : Server) (l l' : Life) → Step s l l' → IsServing s l → IsServing s l'
unfolding close_ports
Step-IsServing s l l' (received peer datagram loop bound e) v = rw e (
    received-IsServing s l v (peer, take max_udp_query datagram)
      (omega (arith, length-take max_udp_query datagram)))
Step-IsServing s l l' (answered peer pkt resp before after now net there h e) v =
    rw e (answered-IsServing s l v peer pkt before after there resp now net l.ports.udp_bound h)
Step-IsServing s l l' (dropped peer pkt before after now net there h e) v =
    rw e (dropped-IsServing s l v peer pkt before after there)
Step-IsServing s l l' (accepted stream loop bound e) v = rw e v
Step-IsServing s l l' (hung_up stream before after clock nets writes there e) v = rw e v
Step-IsServing s l l' (shut e) v = rw e v
Step-IsServing s l l' (udp_ended loop bound e) v = rw e v
Step-IsServing s l l' (tcp_ended loop bound e) v = rw e v

Reach-IsServing : (s : Server) {l m : Life} → IsServing s l → Reach s l m → IsServing s m
Reach-IsServing s v here = v
Reach-IsServing s v (next {m} {n} r st) = Step-IsServing s m n st (Reach-IsServing s v r)

no_mail : (s : Server) → IsMailed s [] [] []
no_mail s = record { responses = tt; waiting = tt; counted = λ k. omega arith; short = tt }

started-IsServing :
    (s : Server) (resolves udp_binds tcp_binds : Bool)
    → IsServing s
        (start_server
          (record { resolves = resolves; udp_binds = udp_binds; tcp_binds = tcp_binds })
          new_life).1
unfolding start_server
started-IsServing s false u t = no_mail s
started-IsServing s true false t = no_mail s
started-IsServing s true true false = no_mail s
started-IsServing s true true true = no_mail s

-- Whatever happens to a server from its start on, each datagram that it sends to a peer is the response
-- of `handle` to a datagram of that peer, of which it reads at most 4096 bytes, and it has sent no
-- more datagrams to a peer than it has read from it.
pub Reach-IsResponse :
    (s : Server) (b : Binds) (l : Life)
    → Reach s (start_server b new_life).1 l
    → All (IsResponse s l.inbox) l.sent
      × All (λ e. length e.1 ≤ 4096) l.inbox
      × ((peer : Bytes) → of_peer peer l.sent ≤ of_peer peer l.inbox)
Reach-IsResponse s b l r =
    let v = Reach-IsServing s (started-IsServing s b.resolves b.udp_binds b.tcp_binds) r in
    (v.responses, v.short, λ peer. omega (arith, v.counted peer))
