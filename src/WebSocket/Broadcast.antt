-- ===== src/WebSocket/Broadcast.antt =====
-- Who gets a packet of send_to_all.
use ngp_encode_server.Base.{
  ℕ, ◌<◌, ◌≡◌, refl, ap, ◌∙◌, List, [], ◌∷◌, none, some, Bool, true, false, ◌&&◌, ltb, ◌==◌,
  if◌then◌else◌, Bool-cases, inl, inr, arith,
}
use ngp_encode_server.Base.Exceptions.{ok, throws, websocket_error}
use ngp_encode_server.OrderedMap.{Entries, IsSorted, lookup}
use ngp_encode_server.OrderedMap.Order.{lookup_below, IsAbove-IsSorted}
use ngp_encode_server.WebSocket.{WebSocketServer, Event, sends, send_each, send_to_all}
use ngp_encode_server.WebSocket.Connections.{has}

-- What was sent to a connection, the last first.
abbrev pub received : ℕ → List Event → List (List ℕ)
received h [] = []
received h (sends k payload ∷ es) =
    let rest = received h es in if k == h then payload ∷ rest else rest
received h (_ ∷ es) = received h es

abbrev pub in_set : ℕ → Entries (Unit {0}) → Bool
in_set h m = elim (lookup h m) [ none ↦ false | some _ ↦ true ]

module _ (takes : ℕ → Bool) (payload : List ℕ) where
  send_each_all :
      (m : Entries (Unit {0})) (es : List Event)
      → IsSorted m
      → ((h : ℕ) → takes h ≡ true)
      → ((send_each takes payload m es).1 ≡ ok tt)
        × ((h : ℕ)
            → received h (send_each takes payload m es).0
              ≡ (if in_set h m then payload ∷ received h es else received h es))
  unfolding send_each lookup
  send_each_all [] es s all = (refl, λ h. refl)
  send_each_all ((k, _) ∷ m) es s all =
      let (r, got) = send_each_all m (sends k payload ∷ es) (IsAbove-IsSorted k m s) all in
      (rw (all k) r, λ h. rw (all k) (ground (arith, got h, lookup_below h k m s)))

  send_each_refused :
      (m : Entries (Unit {0})) (es : List Event) (hdl : ℕ)
      → IsSorted m
      → in_set hdl m ≡ true
      → takes hdl ≡ false
      → ((h : ℕ) → h < hdl → takes h ≡ true)
      → ((send_each takes payload m es).1 ≡ throws websocket_error)
        × ((h : ℕ)
            → received h (send_each takes payload m es).0
              ≡ (if in_set h m && ltb h hdl then payload ∷ received h es else received h es))
  unfolding send_each lookup
  send_each_refused [] es hdl s there bad before = absurd (ground arith)
  send_each_refused ((k, _) ∷ m) es hdl s there bad before = elim (Bool-cases (k == hdl)) [
    | inl same ↦
        let refused : takes k ≡ false = ground arith in
        (rw refused, λ h. rw refused (ground (arith, lookup_below h k m s)))
    | inr other ↦
        let below : k < hdl = ground (arith, lookup_below hdl k m s) in
        let (r, got) =
          send_each_refused m (sends k payload ∷ es) hdl (IsAbove-IsSorted k m s) (ground arith) bad
            before in
        (
          rw (before k below) r,
          λ h. rw (before k below) (ground (arith, got h, lookup_below h k m s)),
        )
  ]

  send_to_all_running :
      (s : WebSocketServer)
      → s.running ≡ true
      → let r = send_each takes payload s.connections s.events in
        ((send_to_all takes payload s).1 ≡ r.1) × ((send_to_all takes payload s).0.events ≡ r.0)
  unfolding send_to_all
  send_to_all_running s run = ground arith

  -- send_to_all changes neither the connections nor the flag.
  pub send_to_all_keeps :
      (s : WebSocketServer)
      → ((send_to_all takes payload s).0.connections ≡ s.connections)
        × ((send_to_all takes payload s).0.running ≡ s.running)
  unfolding send_to_all
  send_to_all_keeps s = elim (Bool-cases s.running) [
    | inl e ↦ rw e (refl, refl)
    | inr e ↦ rw e (refl, refl)
  ]

  -- On a running server whose connections all take the packet, send_to_all sends it to each open
  -- connection exactly once and to nobody else.
  pub send_to_all_delivers :
      (s : WebSocketServer)
      → s.running ≡ true
      → IsSorted s.connections
      → ((h : ℕ) → takes h ≡ true)
      → ((send_to_all takes payload s).1 ≡ ok tt)
        × ((h : ℕ)
            → received h (send_to_all takes payload s).0.events
              ≡ (if has h s then payload ∷ received h s.events else received h s.events))
  unfolding send_to_all
  send_to_all_delivers s run set all =
      let (r, got) = send_each_all s.connections s.events set all in
      let (e, f) = send_to_all_running s run in (e ∙ r, λ h. ap (received h) f ∙ got h)

  -- If a connection does not take the packet, send_to_all throws there: of the open connections only
  -- those before the first that refuses get the packet, and the others go without.
  pub send_to_all_refused :
      (s : WebSocketServer) (hdl : ℕ)
      → s.running ≡ true
      → IsSorted s.connections
      → has hdl s ≡ true
      → takes hdl ≡ false
      → ((h : ℕ) → h < hdl → takes h ≡ true)
      → ((send_to_all takes payload s).1 ≡ throws websocket_error)
        × ((h : ℕ)
            → received h (send_to_all takes payload s).0.events ≡ (
                if has h s && ltb h hdl
                then payload ∷ received h s.events
                else received h s.events))
  unfolding send_to_all
  send_to_all_refused s hdl run set there bad before =
      let (r, got) = send_each_refused s.connections s.events hdl set there bad before in
      let (e, f) = send_to_all_running s run in (e ∙ r, λ h. ap (received h) f ∙ got h)
