-- ===== src/WebSocket.antt =====
-- WebSocketServer (src/base/server/websocket_server.cc, include/base/server/websocket_server.h). The
-- library websocketpp enters by what the server asks of it, recorded in `events`, the last first, and
-- by whether it takes a request; a connection is known by its handle, a number.
pub mod Connections
pub mod Lifecycle
pub mod Broadcast
pub mod Racing
mod Tests
use ngp_encode_server.Base.{ℕ, List, [], ◌∷◌, Bool, true, false, if◌then◌else◌}
use ngp_encode_server.Base.Exceptions.{Result, ok, throws, runtime_error, websocket_error}
use ngp_encode_server.OrderedMap.{Entries, insert, erase}

-- What the server does with m_server.
pub data Event : Type 0 where
  listens accepts runs stops_listening joins : Event
  closes : ℕ → Event
  sends : ℕ → List ℕ → Event

-- `connections` is m_connections, a std::set of handles.
pub record WebSocketServer : Type 0 where
  pub connections : Entries (Unit {0})
  pub running : Bool
  pub events : List Event

-- The constructor registers the handlers below; no connection is open yet.
abbrev pub construct : WebSocketServer
construct = record { connections = []; running = false; events = [] }

-- The open handler.
pub on_open : ℕ → WebSocketServer → WebSocketServer
on_open hdl s = record s { connections = insert hdl tt s.connections }

-- The close handler.
pub on_close : ℕ → WebSocketServer → WebSocketServer
on_close hdl s = record s { connections = erase hdl s.connections }

-- start; `port_free` tells whether m_server.listen succeeds.
pub start : Bool → WebSocketServer → WebSocketServer × Result (Unit {0})
start port_free s =
    if s.running
    then (s, throws runtime_error)
    else if port_free
    then (record s { events = runs ∷ accepts ∷ listens ∷ s.events; running = true }, ok tt)
    else (s, throws websocket_error)

-- What the library answers to stop: whether m_server.stop_listening returns, for which connections
-- m_server.close does, and the connections whose close handler runs before m_thread->join() returns.
-- Both calls throw where they do not return, as for a connection that is not open any more.
pub record StopAnswers : Type 0 where
  pub stops : Bool
  pub takes : ℕ → Bool
  pub closed : List ℕ

-- The loop of stop.
pub close_all : (ℕ → Bool) → Entries (Unit {0}) → List Event → List Event × Result (Unit {0})
close_all takes [] events = (events, ok tt)
close_all takes ((hdl, _) ∷ rest) events =
    let asked = close_all takes rest (closes hdl ∷ events) in
    if takes hdl then asked else (events, throws websocket_error)

-- The close handlers that run on the server's thread before it is joined.
pub on_close_all : List ℕ → WebSocketServer → WebSocketServer
on_close_all [] s = s
on_close_all (hdl ∷ rest) s = on_close_all rest (on_close hdl s)

-- stop behind its loop, which an exception leaves.
pub on_asked : List ℕ → Result (Unit {0}) → WebSocketServer → WebSocketServer × Result (Unit {0})
unfolding on_close_all
on_asked closed (ok _) s =
    let s' = on_close_all closed s in
    (record s' { events = joins ∷ s'.events; running = false }, ok tt)
on_asked closed (throws x) s = (s, throws x)

pub stop : StopAnswers → WebSocketServer → WebSocketServer × Result (Unit {0})
unfolding on_asked close_all
stop a s =
    let (events, r) = close_all a.takes s.connections (stops_listening ∷ s.events) in
    let asked = on_asked a.closed r (record s { events = events }) in
    if s.running
    then if a.stops then asked else (s, throws websocket_error)
    else (s, throws runtime_error)

-- The loop of send_to_all. m_server.send throws for a connection that is not open any more: `takes`
-- tells for which connections it does not.
pub send_each :
    (ℕ → Bool) → List ℕ → Entries (Unit {0}) → List Event → List Event × Result (Unit {0})
send_each takes payload [] events = (events, ok tt)
send_each takes payload ((hdl, _) ∷ rest) events =
    let sent = send_each takes payload rest (sends hdl payload ∷ events) in
    if takes hdl then sent else (events, throws websocket_error)

-- send_to_all
pub send_to_all : (ℕ → Bool) → List ℕ → WebSocketServer → WebSocketServer × Result (Unit {0})
send_to_all takes payload s =
    let (events, r) = send_each takes payload s.connections s.events in
    if s.running then (record s { events = events }, r) else (s, throws runtime_error)
