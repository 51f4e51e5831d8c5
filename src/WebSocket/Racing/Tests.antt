-- ===== src/WebSocket/Racing/Tests.antt =====
-- A packet for two open connections, while the first one closes and a third one comes.
use ngp_encode_server.Base.{◌≡◌, ◌≢◌, refl, ◌⊎◌, arith, List, [], ◌∷◌, true, false, ◌&&◌}
use ngp_encode_server.OrderedMap.{lookup, insert, erase, erase_if}
use ngp_encode_server.WebSocket.{WebSocketServer, sends, on_open, on_close}
use ngp_encode_server.WebSocket.Connections.{opens, closes, handle, has}
use ngp_encode_server.WebSocket.Broadcast.{received}
use ngp_encode_server.WebSocket.Racing.{
  waits, ended, lost, Scene, Move, goes_on, handles, race, move, go_on, enter, send, advance,
  arrive, invalidate, first_key, next_key,
}
use ngp_encode_server.WebSocket.Racing.Meets.{stays_open, race_meets_open}
use ngp_encode_server.WebSocket.Racing.Loses.{only_closes, closing_loses}

abbrev two_open : WebSocketServer
two_open = record { connections = (2, tt) ∷ (5, tt) ∷ []; running = true; events = [] }

abbrev called : Scene
called = record { server = two_open; loop = waits }

-- Connection 2 gets the packet and closes after the loop has gone on; connection 7 comes in time.
abbrev moves : List Move
moves =
    goes_on true
    ∷ goes_on true
    ∷ goes_on true
    ∷ handles (closes 2)
    ∷ handles (opens 7)
    ∷ goes_on true
    ∷ goes_on true
    ∷ goes_on true
    ∷ goes_on true
    ∷ []

all_three :
    ((race (9 ∷ []) moves called).server.events
      ≡ sends 7 (9 ∷ []) ∷ sends 5 (9 ∷ []) ∷ sends 2 (9 ∷ []) ∷ [])
    × ((race (9 ∷ []) moves called).loop ≡ ended)
unfolding race move go_on enter send advance arrive invalidate first_key next_key handle on_open
    on_close insert erase erase_if
all_three = (refl, refl)

race_meets_open_example :
    let after = race (9 ∷ []) moves called in
    let got = received 5 after.server.events in
    (got ≡ (9 ∷ []) ∷ [])
    ⊎ ((got ≡ []) × (((has 5 two_open && stays_open 5 moves) ≡ false) ⊎ (after.loop ≢ ended)))
race_meets_open_example = race_meets_open (9 ∷ []) moves two_open 5 refl (ground arith, tt)

closing_loses_example :
    (ms : List Move) × (only_closes 5 ms ≡ true) × ((race (9 ∷ []) ms called).loop ≡ lost)
unfolding lookup
closing_loses_example = closing_loses (9 ∷ []) two_open 5 refl (ground arith, tt) refl
