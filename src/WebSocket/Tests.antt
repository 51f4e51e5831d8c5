-- ===== src/WebSocket/Tests.antt =====
-- Runs of the websocket server.
use ngp_encode_server.Base.{ℕ, ◌+◌, ◌<◌, ◌≡◌, refl, List, [], ◌∷◌, Bool, true, ◌==◌, not, arith}
use ngp_encode_server.OrderedMap.{lookup}
use ngp_encode_server.WebSocket.{WebSocketServer, StopAnswers, construct}
use ngp_encode_server.WebSocket.Connections.{Handler, opens, closes, has}
use ngp_encode_server.WebSocket.Lifecycle
use ngp_encode_server.WebSocket.Lifecycle.{
  Call, starts, stops, run_calls, started, joined, bit, threads_paired,
}

abbrev handlers : List Handler
handlers = opens 3 ∷ closes 3 ∷ opens 5 ∷ opens 3 ∷ []

-- The client 3 leaves while the server is stopped, once m_server.close was called for it; before, that
-- call throws.
abbrev answers : StopAnswers
answers = record { stops = true; takes = λ h. true; closed = 3 ∷ [] }

abbrev refuses : StopAnswers
refuses = record { stops = true; takes = λ h. not (h == 3); closed = [] }

abbrev calls : List Call
calls =
    starts true
    ∷ Lifecycle.opens 3
    ∷ starts true
    ∷ stops refuses
    ∷ stops answers
    ∷ stops answers
    ∷ starts true
    ∷ []

threads_paired_example :
    started (run_calls calls construct).events
    ≡ joined (run_calls calls construct).events + bit (run_calls calls construct).running
threads_paired_example = threads_paired calls

abbrev two_clients : WebSocketServer
two_clients = record { connections = (3, tt) ∷ (5, tt) ∷ []; running = true; events = [] }

-- The client 5 has gone.
abbrev not_five : ℕ → Bool
not_five h = not (h == 5)

takes_below : (h : ℕ) → h < 5 → not_five h ≡ true
takes_below h lt = ground arith

has_five : has 5 two_clients ≡ true
unfolding lookup
has_five = refl
