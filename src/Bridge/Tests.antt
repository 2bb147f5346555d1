-- ===== src/Bridge/Tests.antt =====
-- Concrete clients, patterns and slots, for the theorems about app/engine/bridge.py.
use ser2net.Common.{
  ℕ, zero, suc, ◌+◌, ◌≤◌, ◌<◌, ◌≡◌, refl, Bool, true, false, none, some, List, [], ◌∷◌, ◌++◌, arith,
  ◌==◌, if◌then◌else◌, length, All,
}
use mathlib.Core.List.{flatten}
use ser2net.Bridge.Closeon.{contains, watch}
use ser2net.Bridge.Closeon.Stream.{has_hit, watch-contains}
use ser2net.Bridge.Client.{Client, Counters, contents, request_graceful_close}
use ser2net.Bridge.Client.Delivery.{fed, pumped, closeon, stream, run, accepted_all, stream-run}
use ser2net.Bridge.Client.Graceful.{pumps, request_graceful_close_delivers}
use ser2net.Bridge.Admission.{Peer, Runner, admitted, decide, pick_victim, on_client, live}
use ser2net.Bridge.Admission.Victim.{IsVictim, pick_victim-IsVictim}
use ser2net.Bridge.Admission.Room.{
  Event, arrived, departed, serve_all, serve, LeavePromptly, serve_all-live,
}
use ser2net.Bridge.Admission.Slots.{Arrival, join_all, waiting_exceeds, second_kick_exceeds}
use ser2net.Bridge.Trace.{Chunk, Tracer, Files}
use ser2net.Bridge.Trace.Account.{
  IsCounted, offered, fetched, emitted, run-accounts, run_trace, told,
}
use ser2net.Bridge.Trace.Sizes.{IsLimited}
use ser2net.Bridge.Udp.{
  Endpoint, Udp, datagram, serial, exchange_all, IsPrivate, exchange_all-IsPrivate,
}
use ser2net.Bridge.Access.{v4, net4, client_allowed}

watch-contains_example :
    has_hit (watch (1 ∷ 2 ∷ []) [] ((0 ∷ 1 ∷ []) ∷ (2 ∷ []) ∷ []))
    ≡ contains (1 ∷ 2 ∷ []) (flatten ((0 ∷ 1 ∷ []) ∷ (2 ∷ []) ∷ []))
watch-contains_example = watch-contains (1 ∷ 2 ∷ []) ((0 ∷ 1 ∷ []) ∷ (2 ∷ []) ∷ []) (omega arith)

-- What a read that matched holds behind the match is not searched together with the next read.
behind_match_lost : watch (1 ∷ 2 ∷ []) [] ((1 ∷ 2 ∷ 1 ∷ []) ∷ (2 ∷ []) ∷ []) ≡ true ∷ false ∷ []
unfolding watch
behind_match_lost = refl

abbrev idle : Client
idle = record {
  queue = some (5 ∷ []) ∷ [];
  queue_max = 4;
  closing = false;
  has_session = true;
  close_reason = none;
  aborted = false;
  written = 9 ∷ [];
  ended = false;
}

abbrev no_counts : Counters
no_counts = record { queue_overflows = 0; dropped_clients = 0; bytes_in = 0 }

stream-run_example :
    stream (run (idle, no_counts) (fed (some (7 ∷ [])) ∷ pumped ∷ closeon ∷ []))
    ≡ stream (idle, no_counts)
      ++ accepted_all (idle, no_counts) (fed (some (7 ∷ [])) ∷ pumped ∷ closeon ∷ [])
stream-run_example = stream-run (idle, no_counts) (fed (some (7 ∷ [])) ∷ pumped ∷ closeon ∷ [])

request_graceful_close_delivers_example :
    let c' = request_graceful_close idle in
    let after = (pumps (length c'.queue) c' no_counts).0 in
    (c'.closing ≡ true)
    × (after.ended ≡ true)
    × (after.written ≡ idle.written ++ contents idle.queue)
request_graceful_close_delivers_example =
    request_graceful_close_delivers idle no_counts refl refl (omega arith)

abbrev peer : ℕ → Bool → ℕ → Bool → Peer
peer id priority connected_at closing = record {
  id = id;
  priority = priority;
  connected_at = connected_at;
  closing = closing;
}

abbrev three_peers : List Peer
three_peers = peer 1 true 10 false ∷ peer 2 false 30 false ∷ peer 3 false 20 false ∷ []

third_picked : pick_victim three_peers ≡ some (peer 3 false 20 false)
unfolding pick_victim
third_picked = refl

pick_victim-IsVictim_example : IsVictim (peer 3 false 20 false) three_peers
pick_victim-IsVictim_example = pick_victim-IsVictim three_peers third_picked

abbrev kicking : List Peer → ℕ → Runner
kicking clients limit = record {
  clients = clients;
  max_connections = limit;
  kick_old_user = true;
  allowed = [];
  priority_nets = [];
}

abbrev arrival : ℕ → Arrival
arrival id = record { id = id; ip = v4 id; now = id }

-- A client comes to a full runner, the one that it kicks leaves, and the next one comes.
abbrev comings : List Event
comings = arrived (arrival 4) ∷ departed 3 ∷ arrived (arrival 5) ∷ []

comings_prompt : LeavePromptly (kicking three_peers 3) comings
unfolding LeavePromptly serve
comings_prompt = ((refl, (refl, (refl, tt))), ((refl, (refl, (refl, tt))), tt))

three_live : live (kicking three_peers 3).clients ≤ 3
unfolding live
three_live = omega arith

serve_all-live_example : live (serve_all (kicking three_peers 3) comings).clients ≤ 3
serve_all-live_example =
    serve_all-live (kicking three_peers 3) comings (omega arith) three_live comings_prompt

waiting_exceeds_example :
    All (λ (a : Arrival). decide (kicking [] 1) a.ip ≡ admitted none) (arrival 1 ∷ arrival 2 ∷ [])
    × (1 < live (join_all (kicking [] 1) (arrival 1 ∷ arrival 2 ∷ [])).clients)
waiting_exceeds_example =
    waiting_exceeds (kicking [] 1) (arrival 1 ∷ arrival 2 ∷ []) refl (omega arith) open_to_all
      (omega arith)
  where
    open_to_all : All (λ (a : Arrival). client_allowed [] a.ip ≡ true) (arrival 1 ∷ arrival 2 ∷ [])
    open_to_all = unfold client_allowed in (refl, (refl, tt))

-- One slot: the old client was told to close, and a new one has come since.
abbrev kicked_once : Runner
kicked_once = kicking (peer 1 false 10 true ∷ peer 2 false 20 false ∷ []) 1

second_kick_exceeds_example : 1 < live (on_client kicked_once 3 (v4 3) 30).clients
second_kick_exceeds_example =
    second_kick_exceeds kicked_once (peer 1 false 10 true) 3 (v4 3) 30 refl
      (unfold client_allowed in refl) (unfold live in omega arith) (unfold pick_victim in refl)
      (λ _. refl, (λ e. absurd (omega arith), tt))

abbrev chunk : Chunk
chunk = record { stamp = []; direction = 62 ∷ []; content = 1 ∷ 2 ∷ [] }

abbrev idle_tracer : Tracer
idle_tracer = record {
  is_open = true;
  hex = false;
  queue = [];
  batch = [];
  queued = 0;
  dropped = 3;
}

idle-IsCounted : IsCounted idle_tracer
idle-IsCounted = record { open_file = refl; counted = refl; limited = omega arith }

run-accounts_example :
    let r = run_trace idle_tracer (offered chunk ∷ fetched ∷ emitted ∷ []) in
    IsCounted r.0 × (told r.1 + r.0.dropped + r.0.queued ≡ 3 + 0 + 2)
run-accounts_example =
    run-accounts idle_tracer (offered chunk ∷ fetched ∷ emitted ∷ []) idle-IsCounted

abbrev one_file : Files
one_file i = if i == 0 then some (65 ∷ 66 ∷ []) else none

one_file-IsLimited : IsLimited 4 3 one_file
one_file-IsLimited = record { current = omega arith; all = λ i c found. small i c found }
  where
    small : (i : ℕ) (c : List ℕ) → one_file i ≡ some c → length c < 7
    small zero c found = let e : 65 ∷ 66 ∷ [] ≡ c = cc in rw (← e) (omega arith)
    small (suc i) c found = absurd (ground arith)

abbrev endpoint : ℕ → Endpoint
endpoint a = record { ip = v4 a; port = 9 }

abbrev fresh_udp : Udp
fresh_udp = record {
  allowed = net4 167772160 8 ∷ [];
  read_only = false;
  serial_open = true;
  peer = none;
  sent = [];
  to_serial = [];
  bytes_in = 0;
  bytes_out = 0;
}

fresh-IsPrivate : IsPrivate (net4 167772160 8 ∷ []) fresh_udp
fresh-IsPrivate = record { same_nets = refl; peer_allowed = λ to e. absurd (cc); sent_allowed = tt }

exchange_all-IsPrivate_example : IsPrivate (net4 167772160 8 ∷ []) (
    exchange_all fresh_udp (
      datagram (1 ∷ []) (endpoint 167772165)
      ∷ datagram (2 ∷ []) (endpoint 5)
      ∷ serial (3 ∷ [])
      ∷ []))
exchange_all-IsPrivate_example =
    exchange_all-IsPrivate (net4 167772160 8 ∷ []) fresh_udp
      (datagram (1 ∷ []) (endpoint 167772165)
        ∷ datagram (2 ∷ []) (endpoint 5)
        ∷ serial (3 ∷ [])
        ∷ [])
      fresh-IsPrivate
