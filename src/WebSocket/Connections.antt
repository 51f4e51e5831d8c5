-- ===== src/WebSocket/Connections.antt =====
-- m_connections against the history of handlers.
use ngp_encode_server.Base.{
  ℕ, ◌≡◌, refl, ◌∙◌, List, [], ◌∷◌, none, some, Bool, true, false, ◌==◌, if◌then◌else◌, arith,
}
use ngp_encode_server.OrderedMap.{IsSorted, lookup}
use ngp_encode_server.OrderedMap.Order.{insert-IsSorted, erase-IsSorted}
use ngp_encode_server.OrderedMap.Lookup.{lookup-insert, lookup-erase}
use ngp_encode_server.WebSocket.{WebSocketServer, construct, on_open, on_close}

-- A call of a handler.
pub data Handler : Type 0 where
  opens closes : ℕ → Handler

unfoldable pub handle : Handler → WebSocketServer → WebSocketServer
handle (opens h) = on_open h
handle (closes h) = on_close h

-- The handlers that were called, the last first.
pub after : List Handler → WebSocketServer
after [] = construct
after (x ∷ xs) = handle x (after xs)

-- The last call for the handle opened it.
abbrev pub is_open : ℕ → List Handler → Bool
is_open h [] = false
is_open h (opens k ∷ xs) = if k == h then true else is_open h xs
is_open h (closes k ∷ xs) = if h == k then false else is_open h xs

abbrev pub has : ℕ → WebSocketServer → Bool
has h s = elim (lookup h s.connections) [ none ↦ false | some _ ↦ true ]

pub on_open-IsSorted :
    (k : ℕ) (s : WebSocketServer) → IsSorted s.connections → IsSorted (on_open k s).connections
unfolding on_open
on_open-IsSorted k s = insert-IsSorted k tt s.connections

pub on_close-IsSorted :
    (k : ℕ) (s : WebSocketServer) → IsSorted s.connections → IsSorted (on_close k s).connections
unfolding on_close
on_close-IsSorted k s = erase-IsSorted k s.connections

pub on_open_keeps :
    (k : ℕ) (s : WebSocketServer)
    → ((on_open k s).running ≡ s.running) × ((on_open k s).events ≡ s.events)
unfolding on_open
on_open_keeps k s = (refl, refl)

pub on_close_keeps :
    (k : ℕ) (s : WebSocketServer)
    → ((on_close k s).running ≡ s.running) × ((on_close k s).events ≡ s.events)
unfolding on_close
on_close_keeps k s = (refl, refl)

pub has-on_open :
    (h k : ℕ) (s : WebSocketServer)
    → IsSorted s.connections
    → has h (on_open k s) ≡ (if k == h then true else has h s)
unfolding on_open lookup
has-on_open h k s set = ground (arith, lookup-insert h k tt s.connections set)

pub has-on_close :
    (h k : ℕ) (s : WebSocketServer) → has h (on_close k s) ≡ (if h == k then false else has h s)
unfolding on_close lookup
has-on_close h k s = ground (arith, lookup-erase k h s.connections)

-- The handler takes the connection out.
abbrev pub leaves : ℕ → Handler → Bool
leaves h (opens k) = false
leaves h (closes k) = k == h

pub handle-IsSorted :
    (x : Handler) (s : WebSocketServer) → IsSorted s.connections → IsSorted (handle x s).connections
unfolding handle
handle-IsSorted (opens k) s = on_open-IsSorted k s
handle-IsSorted (closes k) s = on_close-IsSorted k s

pub handle_keeps :
    (x : Handler) (s : WebSocketServer)
    → ((handle x s).running ≡ s.running) × ((handle x s).events ≡ s.events)
unfolding handle
handle_keeps (opens k) s = on_open_keeps k s
handle_keeps (closes k) s = on_close_keeps k s

pub has-handle :
    (x : Handler) (h : ℕ) (s : WebSocketServer)
    → IsSorted s.connections
    → leaves h x ≡ false
    → has h s ≡ true
    → has h (handle x s) ≡ true
unfolding handle
has-handle (opens k) h s set stay there = ground (arith, has-on_open h k s set)
has-handle (closes k) h s set stay there = ground (arith, has-on_close h k s)

after-IsSorted : (xs : List Handler) → IsSorted (after xs).connections
unfolding after
after-IsSorted [] = tt
after-IsSorted (x ∷ xs) = handle-IsSorted x (after xs) (after-IsSorted xs)

has-after : (h : ℕ) (xs : List Handler) → has h (after xs) ≡ is_open h xs
unfolding after handle lookup
has-after h [] = refl
has-after h (opens k ∷ xs) =
    has-on_open h k (after xs) (after-IsSorted xs) ∙ rw (has-after h xs) refl
has-after h (closes k ∷ xs) = has-on_close h k (after xs) ∙ rw (has-after h xs) refl

-- After any sequence of open and close handlers, m_connections is a set, each handle in it once, and
-- it holds exactly the handles whose last handler was the open handler.
pub connections_open :
    (xs : List Handler)
    → IsSorted (after xs).connections × ((h : ℕ) → has h (after xs) ≡ is_open h xs)
connections_open xs = (after-IsSorted xs, λ h. has-after h xs)
