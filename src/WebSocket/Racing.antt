-- ===== src/WebSocket/Racing.antt =====
-- WebSocketServer::send_to_all on one thread while the open and close handlers run on the thread of
-- the websocket library (src/base/server/websocket_server.cc). Nothing locks m_connections: an
-- iterator into the set stays valid while other elements come and go, and not once its own element is
-- erased. The reads and writes of a node themselves are taken to be atomic, so an order of the steps
-- below is what is left of the race.
pub mod Places
pub mod Meets
pub mod Loses
mod Tests
use ngp_encode_server.Base.{
  ℕ, List, [], ◌∷◌, Option, none, some, Bool, true, false, ltb, ◌==◌, if◌then◌else◌,
}
use ngp_encode_server.OrderedMap.{Entries}
use ngp_encode_server.WebSocket.{WebSocketServer, Event, sends}
use ngp_encode_server.WebSocket.Connections.{Handler, opens, closes, handle}

-- Where the thread in send_to_all is: before it; with a handle copied out of the set, before
-- m_server.send; behind that call, before the iterator moves; past the loop; left by an exception;
-- moving an iterator whose element is gone. The flag tells whether the element still is in the set.
pub data Loop : Type 0 where
  waits : Loop
  copied : ℕ → Bool → Loop
  sent : ℕ → Bool → Loop
  ended : Loop
  threw : Loop
  lost : Loop

pub record Scene : Type 0 where
  pub server : WebSocketServer
  pub loop : Loop

-- The first element of the set behind a handle.
pub next_key : ℕ → Entries (Unit {0}) → Option ℕ
next_key h [] = none
next_key h ((k, _) ∷ m) = let rest = next_key h m in if ltb h k then some k else rest

pub first_key : Entries (Unit {0}) → Option ℕ
first_key [] = none
first_key ((k, _) ∷ m) = some k

-- `it != end()`, and the copy of the element if there is one.
pub arrive : Option ℕ → Loop
arrive none = ended
arrive (some k) = copied k true

-- The call of send_to_all, until the loop has its first element.
pub enter : Scene → Scene
unfolding arrive first_key
enter c =
    if c.server.running
    then record c { loop = arrive (first_key c.server.connections) }
    else record c { loop = threw }

-- m_server.send; `takes` tells whether it returns.
pub send : Bool → List ℕ → ℕ → Bool → Scene → Scene
send takes payload h valid c =
    if takes
    then record c {
      server = record c.server { events = sends h payload ∷ c.server.events };
      loop = sent h valid;
    }
    else record c { loop = threw }

-- `++it`
pub advance : ℕ → Bool → Scene → Scene
unfolding arrive next_key
advance h valid c =
    if valid
    then record c { loop = arrive (next_key h c.server.connections) }
    else record c { loop = lost }

-- What a handler does to the iterator of the other thread.
pub invalidate : Handler → Loop → Loop
invalidate (closes k) (copied h valid) = if k == h then copied h false else copied h valid
invalidate (closes k) (sent h valid) = if k == h then sent h false else sent h valid
invalidate x l = l

-- The thread goes on, where `takes` answers m_server.send if that is next, or a handler runs.
pub data Move : Type 0 where
  goes_on : Bool → Move
  handles : Handler → Move

pub go_on : Bool → List ℕ → Loop → Scene → Scene
unfolding enter send advance
go_on takes payload waits c = enter c
go_on takes payload (copied h valid) c = send takes payload h valid c
go_on takes payload (sent h valid) c = advance h valid c
go_on takes payload ended c = c
go_on takes payload threw c = c
go_on takes payload lost c = c

pub move : List ℕ → Move → Scene → Scene
unfolding go_on invalidate
move payload (goes_on takes) c = go_on takes payload c.loop c
move payload (handles x) c = record c { server = handle x c.server; loop = invalidate x c.loop }

-- The moves in order.
pub race : List ℕ → List Move → Scene → Scene
unfolding move
race payload [] c = c
race payload (m ∷ ms) c = race payload ms (move payload m c)
