-- ===== src/Server/Life.antt =====
-- server.go: `Start`, the loops of `serveUDP` and `serveTCP`, and `Shutdown`. A goroutine that handles a
-- datagram or a connection is one step, taken at any time. Peers are texts.
pub mod Origin
pub mod Quiet
use local_dns.Base.{
  ℕ, ◌+◌, ◌≡◌, List, [], ◌∷◌, ◌++◌, Bool, true, false, not, Bytes, Option, none, some, take,
  if◌then◌else◌,
}
use local_dns.Server.Answer.{Server}
use local_dns.Server.Handle.{Network, udp, handle, serve_tcp_conn}

-- The two sockets that the process may have open.
pub record Ports : Type 0 where
  pub udp_bound : Bool
  pub tcp_bound : Bool

-- A server that runs: its sockets, its two loops (which `wg` counts), the datagrams that were read and those
-- that a goroutine handles, the responses that were sent, the connections that a goroutine serves, and
-- what was written to those that ended.
pub record Life : Type 0 where
  pub ports : Ports
  pub udp_loop : Bool
  pub tcp_loop : Bool
  pub inbox : List (Bytes × Bytes)
  pub handling : List (Bytes × Bytes)
  pub sent : List (Bytes × Bytes)
  pub conns : List Bytes
  pub written : List (List Bytes)

-- A server before `Start`.
abbrev pub new_life : Life
new_life = record {
  ports = record { udp_bound = false; tcp_bound = false };
  udp_loop = false;
  tcp_loop = false;
  inbox = [];
  handling = [];
  sent = [];
  conns = [];
  written = [];
}

-- What the system says to the three calls of `Start`.
pub record Binds : Type 0 where
  pub resolves : Bool
  pub udp_binds : Bool
  pub tcp_binds : Bool

pub data StartError : Type 0 where
  bad_address udp_refused tcp_refused : StartError

abbrev with_udp : Bool → Ports → Ports
with_udp b p = record p { udp_bound = b }

abbrev with_tcp : Bool → Ports → Ports
with_tcp b p = record p { tcp_bound = b }

-- `Start`: the error, and what runs after it.
unfoldable pub start_server : Binds → Life → Option StartError × Life
start_server b l =
    if not b.resolves
    then (some bad_address, l)
    else if not b.udp_binds
    then (some udp_refused, l)
    else (let p = with_udp true l.ports in
        if not b.tcp_binds
        then (some tcp_refused, record l { ports = with_udp false p })
        else (none, record l { ports = with_tcp true p; udp_loop = true; tcp_loop = true }))

abbrev max_udp_query : ℕ
max_udp_query = 4096

-- The first part of `Shutdown`.
unfoldable pub close_ports : Life → Life
close_ports l = record l { ports = with_tcp false (with_udp false l.ports) }

-- The loops that `wg.Wait` waits for.
unfoldable pub loops : Life → ℕ
loops l = (if l.udp_loop then 1 else 0) + (if l.tcp_loop then 1 else 0)

-- `WriteToUDP`, which fails on a closed socket.
abbrev pub write_to : Ports → Bytes × Bytes → List (Bytes × Bytes) → List (Bytes × Bytes)
write_to p e sent = if p.udp_bound then e ∷ sent else sent

-- One step of the server: a datagram is read into the buffer, a goroutine ends with a response or without
-- one, a connection is accepted, one ends, the sockets are closed, or a loop meets its closed socket. A
-- read that fails otherwise changes nothing.
pub data Step (s : Server) (l l' : Life) : Type 0 where
  received :
      (peer datagram : Bytes)
      → l.udp_loop ≡ true
      → l.ports.udp_bound ≡ true
      → l' ≡ record l {
        inbox = (peer, take max_udp_query datagram) ∷ l.inbox;
        handling = (peer, take max_udp_query datagram) ∷ l.handling;
      }
      → Step s l l'
  answered :
      (peer pkt resp : Bytes) (before after : List (Bytes × Bytes)) (now : ℕ) (net : Network)
      → l.handling ≡ before ++ (peer, pkt) ∷ after
      → handle s now net pkt udp ≡ some resp
      → l' ≡ record l { handling = before ++ after; sent = write_to l.ports (peer, resp) l.sent }
      → Step s l l'
  dropped :
      (peer pkt : Bytes) (before after : List (Bytes × Bytes)) (now : ℕ) (net : Network)
      → l.handling ≡ before ++ (peer, pkt) ∷ after
      → handle s now net pkt udp ≡ none
      → l' ≡ record l { handling = before ++ after }
      → Step s l l'
  accepted :
      (stream : Bytes)
      → l.tcp_loop ≡ true
      → l.ports.tcp_bound ≡ true
      → l' ≡ record l { conns = stream ∷ l.conns }
      → Step s l l'
  hung_up :
      (stream : Bytes) (before after : List Bytes) (clock : ℕ → ℕ) (nets : ℕ → Network)
      (writes : ℕ → Bool)
      → l.conns ≡ before ++ stream ∷ after
      → l' ≡ record l {
        conns = before ++ after;
        written = serve_tcp_conn s clock nets writes stream ∷ l.written;
      }
      → Step s l l'
  shut : l' ≡ close_ports l → Step s l l'
  udp_ended :
      l.udp_loop ≡ true
      → l.ports.udp_bound ≡ false
      → l' ≡ record l { udp_loop = false }
      → Step s l l'
  tcp_ended :
      l.tcp_loop ≡ true
      → l.ports.tcp_bound ≡ false
      → l' ≡ record l { tcp_loop = false }
      → Step s l l'

pub data Reach (s : Server) (l : Life) : Life → Type 0 where
  here : Reach s l l
  next : {m n : Life} → Reach s l m → Step s m n → Reach s l n
