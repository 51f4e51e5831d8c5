-- ===== src/Encode/Packets.antt =====
-- receive_packet_handler and receive_packet_thread of src/encode.cpp: a packet is polled from an
-- encoder and handed to the server of its stream. What each poll meets is a list.
use ngp_encode_server.Base.{
  ℕ, ◌≡◌, ◌<◌, refl, List, [], ◌∷◌, ◌++◌, Option, none, some, Bool, true, false, ◌==◌,
  if◌then◌else◌, ◌⊎◌, inl, inr,
}
use ngp_encode_server.Base.Int.{ℤ, pos, negsuc, ltb_ℤ}
use ngp_encode_server.Base.Exceptions.{Exception, Result, ok, throws, lock_timeout, websocket_error}
use ngp_encode_server.OrderedMap.{IsSorted}
use ngp_encode_server.PacketStream.{
  AvPacket, flag_key, consume_packet, consume_packet-received, consume_packet-returns,
  consume_packet-refused,
}
use ngp_encode_server.WebSocket.{WebSocketServer}
use ngp_encode_server.WebSocket.Connections.{has}
use ngp_encode_server.WebSocket.Broadcast.{received}

-- What avcodec_receive_packet returns: 0, AVERROR(EAGAIN), AVERROR(EINVAL), AVERROR_EOF or another.
pub data CodecRet : Type 0 where
  success eagain einval eof other : CodecRet

-- What one turn of the loop meets: the flag at the test, what the encoder returns, and the packet.
pub record Poll : Type 0 where
  pub shutdown_requested : Bool
  pub ret : CodecRet
  pub pkt : AvPacket

-- `ret` is `none` while the handler still polls.
pub record Handled : Type 0 where
  pub ret : Option (Result ℤ)
  pub left : List Poll
  pub mctx : WebSocketServer

on_consume : List Poll → WebSocketServer × Result (Unit {0}) → Handled
on_consume left (s, ok _) = record { ret = some (ok (pos 0)); left = left; mctx = s }
on_consume left (s, throws x) = record { ret = some (throws x); left = left; mctx = s }

-- The `switch`; `again` is what the next turns do.
on_ret : (ℕ → Bool) → CodecRet → AvPacket → List Poll → WebSocketServer → Handled → Handled
unfolding on_consume
on_ret takes eagain pkt left s again = again
on_ret takes success pkt left s again = on_consume left (consume_packet takes pkt s)
on_ret takes einval pkt left s again = record { ret = some (ok (negsuc 0)); left = left; mctx = s }
on_ret takes other pkt left s again = record { ret = some (ok (negsuc 0)); left = left; mctx = s }
on_ret takes eof pkt left s again = record { ret = some (ok (negsuc 0)); left = left; mctx = s }

-- receive_packet_handler; `takes` tells for which connections m_server.send does not throw.
pub receive_packet_handler : (ℕ → Bool) → List Poll → WebSocketServer → Handled
unfolding on_ret
receive_packet_handler takes [] s = record { ret = none; left = []; mctx = s }
receive_packet_handler takes (p ∷ ps) s =
    let again = receive_packet_handler takes ps s in
    if p.shutdown_requested
    then record { ret = some (ok (negsuc 0)); left = ps; mctx = s }
    else on_ret takes p.ret p.pkt ps s again

-- How a round of receive_packet_thread ends: with the next one, with the shutdown of the program
-- requested, by `break`, still polling, or with an exception that nothing in the thread catches.
pub data End : Type 0 where
  next requests_shutdown breaks polling : End
  uncaught : Exception → End

end_of : Option (Result ℤ) → End
end_of none = polling
end_of (some (ok ret)) = if ltb_ℤ ret (pos 0) then requests_shutdown else next
end_of (some (throws lock_timeout)) = breaks
end_of (some (throws x)) = uncaught x

-- A round of receive_packet_thread.
pub receive_packet_round : (ℕ → Bool) → List Poll → WebSocketServer → End × Handled
unfolding end_of
receive_packet_round takes ps s = let h = receive_packet_handler takes ps s in (end_of h.ret, h)

-- Turns that find no packet.
abbrev pub AreIdle : List Poll → Type 0
AreIdle [] = Unit
AreIdle (p ∷ ps) = (p.shutdown_requested ≡ false) × (p.ret ≡ eagain) × AreIdle ps

module _ (takes : ℕ → Bool) (s : WebSocketServer) where
  skip_idle :
      (idle ps : List Poll)
      → AreIdle idle
      → receive_packet_handler takes (idle ++ ps) s ≡ receive_packet_handler takes ps s
  unfolding receive_packet_handler on_ret
  skip_idle [] ps h = refl
  skip_idle (p ∷ idle) ps h = rw (h.0, h.1, on_ret) (skip_idle idle ps h.2)

  -- A round that finds a packet hands it to the server.
  pub round_forwards :
      (idle ps : List Poll) (pkt : AvPacket)
      → AreIdle idle
      → s.running ≡ true
      → IsSorted s.connections
      → ((h : ℕ) → takes h ≡ true)
      → let p : Poll = record { shutdown_requested = false; ret = success; pkt = pkt } in
        receive_packet_round takes (idle ++ p ∷ ps) s ≡ (
          next,
          record { ret = some (ok (pos 0)); left = ps; mctx = (consume_packet takes pkt s).0 },
        )
  unfolding receive_packet_round receive_packet_handler on_ret on_consume end_of
  round_forwards idle ps pkt quiet run set all =
      let p : Poll = record { shutdown_requested = false; ret = success; pkt = pkt } in
      let returns = consume_packet-returns takes pkt s run set all in
      rw (skip_idle idle (p ∷ ps) quiet, returns, on_consume) refl

  -- However often the encoder has no packet yet, the packet that it gives then goes to each client
  -- once, with the mark in its first byte, and the thread goes on to the next packet. The server runs
  -- and its connections all take the packet, and no shutdown is requested.
  pub packet_forwarded :
      (idle ps : List Poll) (b : ℕ) (bs : List ℕ) (flags : ℕ)
      → AreIdle idle
      → s.running ≡ true
      → IsSorted s.connections
      → ((h : ℕ) → takes h ≡ true)
      → let pkt : AvPacket = record { content = b ∷ bs; flags = flags } in
        let p : Poll = record { shutdown_requested = false; ret = success; pkt = pkt } in
        let (end, r) = receive_packet_round takes (idle ++ p ∷ ps) s in
        (end ≡ next)
        × (r.left ≡ ps)
        × ((h : ℕ)
            → has h s ≡ true
            → received h r.mctx.events
              ≡ ((if flags == flag_key then 0 else 1) ∷ bs) ∷ received h s.events)
  unfolding receive_packet_round receive_packet_handler on_ret on_consume end_of
  packet_forwarded idle ps b bs flags quiet run set all =
      let pkt : AvPacket = record { content = b ∷ bs; flags = flags } in
      let p : Poll = record { shutdown_requested = false; ret = success; pkt = pkt } in
      let returns = consume_packet-returns takes pkt s run set all in
      rw (skip_idle idle (p ∷ ps) quiet, returns, on_consume)
        (refl, refl, λ h there. consume_packet-received takes b bs flags s run set all h there)

  -- An encoder that fails or is flushed ends the whole program: the thread requests the shutdown, and
  -- nothing is sent.
  pub encoder_failed :
      (idle ps : List Poll) (pkt : AvPacket) (ret : CodecRet)
      → AreIdle idle
      → (ret ≡ einval) ⊎ (ret ≡ eof) ⊎ (ret ≡ other)
      → let p : Poll = record { shutdown_requested = false; ret = ret; pkt = pkt } in
        let (end, r) = receive_packet_round takes (idle ++ p ∷ ps) s in
        (end ≡ requests_shutdown) × (r.mctx ≡ s)
  unfolding receive_packet_round receive_packet_handler on_ret end_of
  encoder_failed idle ps pkt ret quiet fails =
      let p : Poll = record { shutdown_requested = false; ret = ret; pkt = pkt } in
      rw (skip_idle idle (p ∷ ps) quiet) (elim fails [
        | inl e ↦ rw e (refl, refl)
        | inr (inl e) ↦ rw e (refl, refl)
        | inr (inr e) ↦ rw e (refl, refl)
      ])

  -- A connection that does not take a packet ends the thread by the websocket library's exception,
  -- which nothing in it catches, if those before it take it.
  pub packet_refused :
      (idle ps : List Poll) (pkt : AvPacket) (hdl : ℕ)
      → AreIdle idle
      → s.running ≡ true
      → IsSorted s.connections
      → has hdl s ≡ true
      → takes hdl ≡ false
      → ((h : ℕ) → h < hdl → takes h ≡ true)
      → let p : Poll = record { shutdown_requested = false; ret = success; pkt = pkt } in
        (receive_packet_round takes (idle ++ p ∷ ps) s).0 ≡ uncaught websocket_error
  unfolding receive_packet_round receive_packet_handler on_ret on_consume end_of
  packet_refused idle ps pkt hdl quiet run set there bad before =
      let p : Poll = record { shutdown_requested = false; ret = success; pkt = pkt } in
      let throws_it = consume_packet-refused takes pkt s hdl run set there bad before in
      rw (skip_idle idle (p ∷ ps) quiet, throws_it, on_consume)
