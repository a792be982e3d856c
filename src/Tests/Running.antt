-- ===== src/Tests/Running.antt =====
-- The theorems on the server's sockets, the routes, the process and the sweep at concrete courses of events.
use mathlib.Core.List.{Perm}
use local_dns.Base.{
  ◌*◌, ◌+◌, ◌≤◌, ◌≡◌, ◌↔◌, refl, inr, List, [], ◌∷◌, ◌++◌, true, false, Bytes, none, some, arith,
  All, length, take, drop,
}
use local_dns.Base.Text.{codes}
use local_dns.Config.State as Settings
use local_dns.Store.State.{Store}
use local_dns.Scanner.Network.{NetContext}
use local_dns.Scanner.Round.{swept}
use local_dns.Scanner.Pool.{IsOver, Pool, Reach, begin, here, next, sweep_pool, sweep_width}
use local_dns.Scanner.Pool.Runs.{tasks_of, steps}
use local_dns.Scanner.Pool.Sweep.{Reach-sweep_pool, sweep_pool-IsOver}
use local_dns.Server.Handle.{handle, udp}
use local_dns.Server.Life as Life
use local_dns.Server.Life.{Binds, close_ports, loops, new_life, start_server}
use local_dns.Server.Life.Origin.{IsResponse, Reach-IsResponse, of_peer}
use local_dns.Server.Life.Quiet.{AreBound, Ends, close_ports-Reach, start_server_lem}
use local_dns.Server.Local.{handle-hostname}
use local_dns.Tests.Stores.{mac}
use local_dns.Tests.Scanning.{settings}
use local_dns.Web.Routes.{
  api, route, wild, patch_one, head_text, match_path, method_fits, Handler, Json, Pattern, Request,
  find_route, match_pattern, serve_http, table,
}
use local_dns.Web.Routes.Safe.{serve_http-get}
use local_dns.Web.Routes.Unique.{find_route-table}
use local_dns.Program.Live.{cancelled}
use local_dns.Program.Process.{Flags, Runs, System, main_program, signalled, web_failed}
use local_dns.Program.Process.Exits.{main_program-zero_iff}
use local_dns.Tests.Requests.{shared, site, state_files}
use local_dns.Tests.Serving.{asked, net, server}
use local_dns.Tests.Settings.{home_file}
use local_dns.Tests.Wire.{query_bytes, query_head, query_question}

abbrev granted : Binds
granted = record { resolves = true; udp_binds = true; tcp_binds = true }

abbrev half : Binds
half = record { resolves = true; udp_binds = true; tcp_binds = false }

start_server_lem_example : Ends half (start_server half new_life)
start_server_lem_example = start_server_lem half

abbrev peer : Bytes
peer = codes "10.0.0.7:5353"

answer-query : (resp : Bytes) × (handle server 7 net query_bytes udp ≡ some resp)
answer-query =
    let (resp, same, says) =
      handle-hostname server 7 query_bytes query_head query_question (codes "nas") asked refl in
    (resp, same net udp)

abbrev running : Life.Life
running = (start_server granted new_life).1

abbrev got : Life.Life
got = record running { inbox = (peer, query_bytes) ∷ []; handling = (peer, query_bytes) ∷ [] }

abbrev replied : Life.Life
replied = record got { handling = []; sent = (peer, answer-query.0) ∷ [] }

replied-Reach : Life.Reach server running replied
unfolding start_server
replied-Reach =
    Life.next (Life.next Life.here (Life.received peer query_bytes refl refl refl))
      (Life.answered peer query_bytes answer-query.0 [] [] 7 net refl answer-query.1 refl)

Reach-IsResponse_example :
    All (IsResponse server replied.inbox) replied.sent
    × All (λ e. length e.1 ≤ 4096) replied.inbox
    × ((who : Bytes) → of_peer who replied.sent ≤ of_peer who replied.inbox)
Reach-IsResponse_example = Reach-IsResponse server granted replied replied-Reach

abbrev stopped : Life.Life
stopped = record (close_ports got) { udp_loop = false }

stopped-Reach : Life.Reach server (close_ports got) stopped
unfolding close_ports start_server
stopped-Reach = Life.next Life.here (Life.udp_ended refl refl refl)

close_ports-Reach_example :
    AreBound false stopped
    × (stopped.inbox ≡ got.inbox)
    × (stopped.sent ≡ got.sent)
    × (length stopped.conns + length stopped.written ≡ length got.conns + length got.written)
    × (loops stopped ≤ loops got)
    × ((n : Life.Life) × Life.Reach server stopped n × (loops n ≡ 0))
close_ports-Reach_example = close_ports-Reach server got stopped stopped-Reach

-- The third pattern of the table.
abbrev patch_route : Pattern × Handler
patch_route = route (codes "PATCH") (api (codes "devices") (wild ∷ [])) false patch_one

abbrev one_device : List Bytes
one_device = codes "api" ∷ codes "devices" ∷ mac ∷ []

find_route-table_example : find_route (codes "PATCH") one_device table ≡ some (patch_one, mac ∷ [])
unfolding table match_pattern match_path method_fits
find_route-table_example =
    find_route-table patch_route (take 2 table) (drop 3 table) (codes "PATCH") one_device (mac ∷ [])
      refl refl

abbrev no_json : Json
no_json = record { to_label = λ b. none; to_mapping = λ b. none }

-- A HEAD of the devices, which the pattern for GET fits.
abbrev head_request : Request
head_request = record {
  method = head_text;
  path = codes "api" ∷ codes "devices" ∷ [];
  credentials = some (codes "admin", codes "secret");
  body = [];
}

serve_http-get_example : (serve_http site no_json true 9 head_request shared).1 ≡ shared
serve_http-get_example = serve_http-get site no_json true 9 head_request shared (inr refl)

abbrev flags : Flags
flags = record { show_version = false }

-- A state file that cannot be parsed, and a web server that fails.
abbrev system : System
system = record {
  config = Settings.holds home_file;
  state = state_files;
  moved = true;
  files = λ path. none;
  binds = granted;
  events = cancelled ∷ [];
  ending = web_failed;
  last_save = true;
  version = codes "dev";
  digest = λ s. s;
}

main_program-zero_iff_example :
    ((main_program flags system).0 ≡ 0)
    ↔ ((cfg : Settings.Config) × (st : Store) × Runs system cfg st × (web_failed ≡ signalled))
main_program-zero_iff_example = main_program-zero_iff flags system refl

-- Eight addresses, six of them hosts, one the machine's own.
abbrev small : NetContext
small = record {
  iface_name = codes "eth0";
  ipnet = record { ip = 10 ∷ 0 ∷ 0 ∷ 0 ∷ []; ones = 29; bits = 32 };
  self_ip = some (10 ∷ 0 ∷ 0 ∷ 1 ∷ []);
  self_mac = mac;
}

abbrev sweeping : Pool Bytes
sweeping = record {
  waiting = drop 1 (swept settings (some small));
  running = (10 ∷ 0 ∷ 0 ∷ 2 ∷ []) ∷ [];
  ended = [];
  left = [];
}

first_sent : Reach sweep_width (sweep_pool settings (some small)) sweeping
unfolding swept
first_sent =
    next here
      (begin (10 ∷ 0 ∷ 0 ∷ 2 ∷ []) (drop 1 (swept settings (some small))) refl (omega arith) refl)

Reach-sweep_pool_example :
    (length sweeping.running ≤ 128)
    × Perm (tasks_of sweeping) (swept settings (some small))
    × (steps first_sent ≤ 2 * length (swept settings (some small)))
Reach-sweep_pool_example = Reach-sweep_pool settings (some small) first_sent

sweep_pool-IsOver_example :
    (q : Pool Bytes) × Reach sweep_width sweeping q
    × IsOver q
    × Perm (q.ended ++ []) (swept settings (some small))
sweep_pool-IsOver_example = sweep_pool-IsOver settings (some small) sweeping first_sent
