-- ===== src/WebSocket/Lifecycle.antt =====
-- The thread that runs m_server, over any sequence of calls.
use ngp_encode_server.Base.{
  ℕ, suc, ◌+◌, ◌≡◌, refl, ap, List, [], ◌∷◌, Bool, true, false, if◌then◌else◌, ◌∙◌, ◌&&◌, not,
  Bool-cases, and_true, inl, inr, arith,
}
use ngp_encode_server.Base.Exceptions.{Result, ok, throws, runtime_error, websocket_error}
use ngp_encode_server.OrderedMap.{Entries}
use ngp_encode_server.WebSocket.{
  WebSocketServer, Event, runs, accepts, listens, stops_listening, joins, closes, sends, construct,
  on_open, on_close, start, StopAnswers, stop, close_all, on_close_all, on_asked, send_each,
  send_to_all,
}

pub data Call : Type 0 where
  starts : Bool → Call
  stops : StopAnswers → Call
  opens : ℕ → Call
  shuts : ℕ → Call
  broadcasts : (ℕ → Bool) → List ℕ → Call

pub step : Call → WebSocketServer → WebSocketServer
step (starts port_free) s = (start port_free s).0
step (stops a) s = (stop a s).0
step (opens h) s = on_open h s
step (shuts h) s = on_close h s
step (broadcasts takes payload) s = (send_to_all takes payload s).0

pub run_calls : List Call → WebSocketServer → WebSocketServer
run_calls [] s = s
run_calls (c ∷ cs) s = run_calls cs (step c s)

-- How often a thread was started on m_server, and how often it was joined.
abbrev pub started : List Event → ℕ
started [] = 0
started (runs ∷ es) = suc (started es)
started (_ ∷ es) = started es

abbrev pub joined : List Event → ℕ
joined [] = 0
joined (joins ∷ es) = suc (joined es)
joined (_ ∷ es) = joined es

abbrev pub bit : Bool → ℕ
bit true = 1
bit false = 0

abbrev pub IsPaired : WebSocketServer → Type 0
IsPaired s = started s.events ≡ joined s.events + bit s.running

record SameThreads (es fs : List Event) : Type 0 where
  starts_same : started es ≡ started fs
  joins_same : joined es ≡ joined fs

close_all-SameThreads :
    (takes : ℕ → Bool) (m : Entries (Unit {0})) (es : List Event)
    → SameThreads (close_all takes m es).0 es
unfolding close_all
close_all-SameThreads takes [] es = record { starts_same = refl; joins_same = refl }
close_all-SameThreads takes ((h, _) ∷ m) es =
    let v = close_all-SameThreads takes m (closes h ∷ es) in
    elim (Bool-cases (takes h)) [
      | inl taken ↦ rw taken (record { starts_same = v.starts_same; joins_same = v.joins_same })
      | inr refused ↦ rw refused (record { starts_same = refl; joins_same = refl })
    ]

send_each-SameThreads :
    (takes : ℕ → Bool) (payload : List ℕ) (m : Entries (Unit {0})) (es : List Event)
    → SameThreads (send_each takes payload m es).0 es
unfolding send_each
send_each-SameThreads takes payload [] es = record { starts_same = refl; joins_same = refl }
send_each-SameThreads takes payload ((h, _) ∷ m) es =
    let v = send_each-SameThreads takes payload m (sends h payload ∷ es) in
    elim (Bool-cases (takes h)) [
      | inl taken ↦ rw taken (record { starts_same = v.starts_same; joins_same = v.joins_same })
      | inr refused ↦ rw refused (record { starts_same = refl; joins_same = refl })
    ]

events-on_close_all : (hs : List ℕ) (s : WebSocketServer) → (on_close_all hs s).events ≡ s.events
unfolding on_close_all on_close
events-on_close_all [] s = refl
events-on_close_all (h ∷ hs) s = events-on_close_all hs (on_close h s)

-- A running server is paired behind the loop of stop, joined or not.
on_asked-IsPaired :
    (closed : List ℕ) (r : Result (Unit {0})) (s : WebSocketServer)
    → s.running ≡ true
    → IsPaired s
    → IsPaired (on_asked closed r s).0
unfolding on_asked
on_asked-IsPaired closed (ok _) s on v =
    let same = events-on_close_all closed s in
    let paired = rw on at v in omega (arith, ap started same, ap joined same, paired)
on_asked-IsPaired closed (throws x) s on v = v

-- Both tests of stop keep the pairing.
tests-IsPaired :
    (on stopped : Bool) (r r' r'' : WebSocketServer × Result (Unit {0}))
    → (on ≡ true → IsPaired r.0)
    → IsPaired r'.0
    → IsPaired r''.0
    → IsPaired (if on then if stopped then r else r' else r'').0
tests-IsPaired true true r r' r'' v v' v'' = v refl
tests-IsPaired true false r r' r'' v v' v'' = v'
tests-IsPaired false stopped r r' r'' v v' v'' = v''

pub stop-IsPaired : (a : StopAnswers) (s : WebSocketServer) → IsPaired s → IsPaired (stop a s).0
unfolding stop
stop-IsPaired a s v =
    let r = close_all a.takes s.connections (stops_listening ∷ s.events) in
    let kept = close_all-SameThreads a.takes s.connections (stops_listening ∷ s.events) in
    let asked : WebSocketServer = record s { events = r.0 } in
    let paired : IsPaired asked = omega (arith, v, kept.starts_same, kept.joins_same) in
    tests-IsPaired s.running a.stops (on_asked a.closed r.1 asked) (s, throws websocket_error)
      (s, throws runtime_error) (λ on. on_asked-IsPaired a.closed r.1 asked on paired) v v

pub step-IsPaired : (c : Call) (s : WebSocketServer) → IsPaired s → IsPaired (step c s)
unfolding step start on_open on_close send_to_all
step-IsPaired (starts port_free) s v = ground arith
step-IsPaired (stops a) s v = stop-IsPaired a s v
step-IsPaired (opens h) s v = v
step-IsPaired (shuts h) s v = v
step-IsPaired (broadcasts takes payload) s v =
    ground (arith, send_each-SameThreads takes payload s.connections s.events)

pub run_calls-IsPaired :
    (cs : List Call) (s : WebSocketServer) → IsPaired s → IsPaired (run_calls cs s)
unfolding run_calls
run_calls-IsPaired [] s v = v
run_calls-IsPaired (c ∷ cs) s v = run_calls-IsPaired cs (step c s) (step-IsPaired c s v)

-- Whatever is called on a server, in any order, m_server has a thread exactly while m_running is set,
-- and never two: the threads that were started are those that were joined, and one more while running.
pub threads_paired :
    (cs : List Call)
    → started (run_calls cs construct).events
      ≡ joined (run_calls cs construct).events + bit (run_calls cs construct).running
threads_paired cs = run_calls-IsPaired cs construct refl

-- A server whose thread runs.
abbrev pub listening : WebSocketServer
listening = record { connections = []; running = true; events = runs ∷ accepts ∷ listens ∷ [] }

pub start-construct :
    (port_free : Bool)
    → start port_free construct
      ≡ (if port_free then (listening, ok tt) else (construct, throws websocket_error))
unfolding start
start-construct port_free = refl

-- The calls that the threads of the program make while it runs.
abbrev pub is_traffic : Call → Bool
is_traffic (starts _) = false
is_traffic (stops _) = false
is_traffic _ = true

abbrev pub are_traffic : List Call → Bool
are_traffic [] = true
are_traffic (c ∷ cs) = is_traffic c && are_traffic cs

step_running :
    (c : Call) (s : WebSocketServer) → is_traffic c ≡ true → (step c s).running ≡ s.running
unfolding step on_open on_close send_to_all
step_running (opens h) s v = refl
step_running (shuts h) s v = refl
step_running (broadcasts takes payload) s v = ground arith
step_running (starts _) s v = ground arith
step_running (stops _) s v = ground arith

pub run_calls_running :
    (cs : List Call) (s : WebSocketServer)
    → are_traffic cs ≡ true
    → (run_calls cs s).running ≡ s.running
unfolding run_calls
run_calls_running [] s v = refl
run_calls_running (c ∷ cs) s v =
    let (first, rest) = and_true (is_traffic c) (are_traffic cs) v in
    run_calls_running cs (step c s) rest ∙ step_running c s first

-- Each call of the library that stop makes on a server returns.
abbrev all_take : (ℕ → Bool) → Entries (Unit {0}) → Bool
all_take takes [] = true
all_take takes ((h, _) ∷ m) = takes h && all_take takes m

abbrev pub stop_returns : StopAnswers → WebSocketServer → Bool
stop_returns a s = a.stops && all_take a.takes s.connections

close_all-all_take :
    (takes : ℕ → Bool) (m : Entries (Unit {0})) (es : List Event)
    → (close_all takes m es).1 ≡ (if all_take takes m then ok tt else throws websocket_error)
unfolding close_all
close_all-all_take takes [] es = refl
close_all-all_take takes ((h, _) ∷ m) es = elim (Bool-cases (takes h)) [
  | inl taken ↦ rw taken (close_all-all_take takes m (closes h ∷ es))
  | inr refused ↦ rw refused refl
]

-- A running server is stopped without an exception, and runs no more, if each call of the library
-- returns; otherwise the exception of the library leaves it running.
pub stop_lem :
    (a : StopAnswers) (s : WebSocketServer)
    → s.running ≡ true
    → ((stop a s).1 ≡ (if stop_returns a s then ok tt else throws websocket_error))
      × ((stop a s).0.running ≡ not (stop_returns a s))
unfolding stop on_asked
stop_lem a s on = elim (Bool-cases a.stops) [
  | inl stopped ↦ elim (Bool-cases (all_take a.takes s.connections)) [
    | inl all ↦
        let r = close_all-all_take a.takes s.connections (stops_listening ∷ s.events) in
        simp (on, stopped, all, r) (refl, refl)
    | inr some ↦
        let r = close_all-all_take a.takes s.connections (stops_listening ∷ s.events) in
        simp (on, stopped, some, r) (refl, refl)
  ]
  | inr still ↦ simp (on, still) (refl, refl)
]
