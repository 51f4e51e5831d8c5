-- ===== src/Encode/Stream.antt =====
-- A packet stream as a whole: the rounds of receive_packet_thread (src/encode.cpp) that find a packet,
-- between the handlers of clients that come and go (src/base/server/websocket_server.cc).
use ngp_encode_server.Base.{
  ℕ, ◌≡◌, refl, sym, ap, subst, ◌∙◌, List, [], ◌∷◌, ◌++◌, Bool, true, false, ◌==◌, if◌then◌else◌,
}
use ngp_encode_server.OrderedMap.{IsSorted}
use ngp_encode_server.PacketStream.{
  consume_packet, consume_packet-gets, consume_packet_keeps, marked,
}
use ngp_encode_server.WebSocket.{WebSocketServer, on_open, on_close}
use ngp_encode_server.WebSocket.Connections.{
  on_open_keeps, on_close_keeps, has, has-on_open, has-on_close, on_open-IsSorted,
  on_close-IsSorted,
}
use ngp_encode_server.WebSocket.Broadcast.{received}
use ngp_encode_server.Encode.Packets.{Poll, success, AreIdle, receive_packet_round, round_forwards}

-- A client connects, one goes, or the thread takes a round: so many polls find nothing, and the next one
-- a packet, of a byte and the rest, and its flags.
pub data Happening : Type 0 where
  opens closes : ℕ → Happening
  forwards : List Poll → ℕ → List ℕ → ℕ → Happening

-- The polls of such a round.
abbrev pub polls : List Poll → ℕ → List ℕ → ℕ → List Poll
polls idle b bs flags =
    idle
    ++ record {
      shutdown_requested = false;
      ret = success;
      pkt = record { content = b ∷ bs; flags = flags };
    }
      ∷ []

pub happen : (ℕ → Bool) → Happening → WebSocketServer → WebSocketServer
happen takes (opens h) s = on_open h s
happen takes (closes h) s = on_close h s
happen takes (forwards idle b bs flags) s =
    (receive_packet_round takes (polls idle b bs flags) s).1.mctx

pub stream : (ℕ → Bool) → List Happening → WebSocketServer → WebSocketServer
unfolding happen
stream takes [] s = s
stream takes (x ∷ xs) s = stream takes xs (happen takes x s)

-- What a client is due: every packet of the time that it is connected, the last first, before `got`.
abbrev pub due : ℕ → Bool → List Happening → List (List ℕ) → List (List ℕ)
due h connected [] got = got
due h connected (opens k ∷ xs) got = due h (if k == h then true else connected) xs got
due h connected (closes k ∷ xs) got = due h (if h == k then false else connected) xs got
due h connected (forwards idle b bs flags ∷ xs) got =
    due h connected xs (if connected then marked flags bs ∷ got else got)

-- The polls that are to find nothing find nothing.
abbrev pub IsPolled : List Happening → Type 0
IsPolled [] = Unit
IsPolled (forwards idle b bs flags ∷ xs) = AreIdle idle × IsPolled xs
IsPolled (_ ∷ xs) = IsPolled xs

module _ (takes : ℕ → Bool) (all : (h : ℕ) → takes h ≡ true) where
  -- A running server, its connections a set.
  record IsServing (s : WebSocketServer) : Type 0 where
    runs : s.running ≡ true
    set : IsSorted s.connections

  -- What a packet makes of the server.
  abbrev Forwards : List ℕ → ℕ → WebSocketServer → WebSocketServer → Type 0
  Forwards bs flags s s' =
      IsServing s'
      × ((h : ℕ)
          → (has h s' ≡ has h s)
            × (received h s'.events
                ≡ (if has h s then marked flags bs ∷ received h s.events else received h s.events)))

  consume-Forwards :
      (b : ℕ) (bs : List ℕ) (flags : ℕ) (s : WebSocketServer)
      → IsServing s
      → Forwards bs flags s (consume_packet takes (record { content = b ∷ bs; flags = flags }) s).0
  consume-Forwards b bs flags s v =
      let (connections, running) =
        consume_packet_keeps takes (record { content = b ∷ bs; flags = flags }) s in
      (
        record { runs = running ∙ v.runs; set = subst IsSorted (sym connections) v.set },
        λ h. (
          ap (λ m. has h (record s { connections = m })) connections,
          consume_packet-gets takes b bs flags s v.runs v.set all h,
        ),
      )

  happen-Forwards :
      (idle : List Poll) (b : ℕ) (bs : List ℕ) (flags : ℕ) (s : WebSocketServer)
      → AreIdle idle
      → IsServing s
      → Forwards bs flags s (happen takes (forwards idle b bs flags) s)
  unfolding happen
  happen-Forwards idle b bs flags s quiet v =
      subst (λ r. Forwards bs flags s r.1.mctx)
        (sym (
          round_forwards takes s idle [] (record { content = b ∷ bs; flags = flags }) quiet v.runs
            v.set all))
        (consume-Forwards b bs flags s v)

  -- Every client of a packet stream gets what it is due: while the thread takes rounds, each with so
  -- many polls that find nothing before one that finds a packet, and clients come and go in between, a
  -- client gets every packet of the time that it is connected, each once, in their order, with the mark
  -- in the first byte, and none of another time. The server runs, and its connections take the packets.
  pub clients_get_their_due :
      (xs : List Happening) (s : WebSocketServer) (h : ℕ)
      → s.running ≡ true
      → IsSorted s.connections
      → IsPolled xs
      → received h (stream takes xs s).events ≡ due h (has h s) xs (received h s.events)
  unfolding stream happen
  clients_get_their_due [] s h runs set polled = refl
  clients_get_their_due (opens k ∷ xs) s h runs set polled =
      let (running, events) = on_open_keeps k s in
      clients_get_their_due xs (happen takes (opens k) s) h (running ∙ runs)
        (on_open-IsSorted k s set) polled
      ∙ ap (λ c. due h c xs (received h (on_open k s).events)) (has-on_open h k s set)
      ∙ ap (λ es. due h (if k == h then true else has h s) xs (received h es)) events
  clients_get_their_due (closes k ∷ xs) s h runs set polled =
      let (running, events) = on_close_keeps k s in
      clients_get_their_due xs (happen takes (closes k) s) h (running ∙ runs)
        (on_close-IsSorted k s set) polled
      ∙ ap (λ c. due h c xs (received h (on_close k s).events)) (has-on_close h k s)
      ∙ ap (λ es. due h (if h == k then false else has h s) xs (received h es)) events
  clients_get_their_due (forwards idle b bs flags ∷ xs) s h runs set (quiet, polled) =
      let s' = happen takes (forwards idle b bs flags) s in
      let (serving, each) =
        happen-Forwards idle b bs flags s quiet (record { runs = runs; set = set }) in
      let (there, got) = each h in
      clients_get_their_due xs s' h serving.runs serving.set polled
      ∙ ap (λ c. due h c xs (received h s'.events)) there
      ∙ ap (λ g. due h (has h s) xs g) got
