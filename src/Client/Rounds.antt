-- ===== src/Client/Rounds.antt =====
-- What a round of socket_client_thread does with the socket, the counters and the queues.
use ngp_encode_server.Base.{
  ℕ, ◌+◌, ◌^◌, ◌≤◌, ◌<◌, ◌≡◌, refl, List, ◌++◌, some, false, Bool-cases, inl, inr, if◌then◌else◌,
  arith, length, take,
}
use ngp_encode_server.Base.Int.{pos, ltb_ℤ}
use ngp_encode_server.Base.Exceptions.{bad_alloc}
use ngp_encode_server.Codec.{CodecInitInfo}
use ngp_encode_server.FrameQueue.{push}
use ngp_encode_server.RenderedFrame.{Response, construct}
use ngp_encode_server.Requests.{zeros, fetch_side, fetch_index}
use ngp_encode_server.Socket.{size_of_size, le_value, IsHealthy, turns, socket_send_blocking_lpf}
use ngp_encode_server.Socket.Framing.{
  frame, send_lpf-HasSent, receive_lpf_frame, receive_lpf_too_long, receive_lpf_cut,
}
use ngp_encode_server.Client.{
  Env, Connection, Shared, Local, next, uncaught, client_round, draw_request, on_sent,
  receive_frame, on_message, on_parsed, queue_frame, rgb24, gray8,
}

-- The first request, whichever eye it is for.
pub index-draw_request {ℓ} :
    {F : Type ℓ} (s : Shared F) → s.counters ≡ zeros → (draw_request s).0.index ≡ 0
unfolding draw_request fetch_side fetch_index
index-draw_request s e = rw e refl

module _ {ℓ} {F : Type ℓ} (env : Env F) (scene depth : CodecInitInfo) where
  -- A request that is sent whole leads to the receiving.
  pub round_sent :
      (conn : Connection) (s : Shared F) (l : Local)
      → ltb_ℤ l.ret (pos 0) ≡ false
      → IsHealthy conn.calls
      → let bytes = env.serialize (draw_request s).0 in
        size_of_size + length bytes ≤ turns conn.calls
        → let sent = socket_send_blocking_lpf conn.calls bytes (length bytes) conn.outbox in
          client_round env scene depth conn s l
          ≡ receive_frame env scene depth sent conn.inbox
              (draw_request s).1
              (record l { ret = pos 0 })
  unfolding client_round on_sent draw_request
  round_sent conn s l fine sound enough =
      let bytes = env.serialize (draw_request s).0 in
      let sent = send_lpf-HasSent conn.calls bytes conn.outbox sound enough in
      rw (fine, sent.returned)

  -- Drawing a request leaves the queues, and a frame goes to the queue of its own eye alone.
  queued :
      (s : Shared F) (response : Response F)
      → let f = construct response rgb24 gray8 scene depth in
        let s' = queue_frame f (draw_request s).1 in
        (s'.queue_left ≡ (if response.is_left then (push f s.queue_left).0 else s.queue_left))
        × (s'.queue_right ≡ (if response.is_left then s.queue_right else (push f s.queue_right).0))
  unfolding queue_frame draw_request construct
  queued s response = elim (Bool-cases response.is_left) [
    | inl left ↦ rw left (refl, refl)
    | inr right ↦ rw right (refl, refl)
  ]

  -- With a kernel that returns no error but EAGAIN and moves data often enough, and a renderer that
  -- answers the request with a message that parses, a round sends exactly the framed request, reads
  -- exactly the answer, and queues the frame, made from the answer and from the settings of the two
  -- encoders, for the eye that the answer names; the queue of the other eye stays. The last round
  -- had no error, and the answer fits a size_t and the memory.
  pub round_serves :
      (conn : Connection) (s : Shared F) (l : Local) (answer rest : List ℕ) (response : Response F)
      → ltb_ℤ l.ret (pos 0) ≡ false
      → conn.inbox ≡ frame answer ++ rest
      → env.parse answer ≡ some response
      → IsHealthy conn.calls
      → size_of_size + length (env.serialize (draw_request s).0) + size_of_size + length answer
        ≤ turns conn.calls
      → length answer < 2 ^ 64
      → length answer ≤ env.memory
      → let r = client_round env scene depth conn s l in
        let f = construct response rgb24 gray8 scene depth in
        (r.end ≡ next)
        × (r.conn.outbox ≡ conn.outbox ++ frame (env.serialize (draw_request s).0))
        × (r.conn.inbox ≡ rest)
        × (r.shared.queue_left
            ≡ (if response.is_left then (push f s.queue_left).0 else s.queue_left))
        × (r.shared.queue_right
            ≡ (if response.is_left then s.queue_right else (push f s.queue_right).0))
  unfolding receive_frame on_message on_parsed
  round_serves conn s l answer rest response fine arrives parses sound enough small room =
      let bytes = env.serialize (draw_request s).0 in
      let sent = send_lpf-HasSent conn.calls bytes conn.outbox sound (omega arith) in
      let calls = (socket_send_blocking_lpf conn.calls bytes (length bytes) conn.outbox).calls in
      let (result, left, _, _) =
        receive_lpf_frame env.memory calls answer rest sent.healthy (omega (arith, sent.turns_left))
          small room in
      rw
        (
          round_sent conn s l fine sound (omega arith),
          receive_frame,
          arrives,
          result,
          on_message,
          on_parsed,
          parses,
        )
        (refl, sent.on_wire, left, (queued s response).0, (queued s response).1)

  -- A renderer whose length prefix is beyond the memory that can be had ends the thread by
  -- std::bad_alloc, which nothing in it catches: the round catches std::runtime_error alone.
  pub round_too_long :
      (conn : Connection) (s : Shared F) (l : Local)
      → ltb_ℤ l.ret (pos 0) ≡ false
      → IsHealthy conn.calls
      → size_of_size + length (env.serialize (draw_request s).0) + size_of_size ≤ turns conn.calls
      → size_of_size ≤ length conn.inbox
      → env.memory < le_value (take size_of_size conn.inbox)
      → (client_round env scene depth conn s l).end ≡ uncaught bad_alloc
  unfolding receive_frame on_message
  round_too_long conn s l fine sound enough arrives big =
      let bytes = env.serialize (draw_request s).0 in
      let sent = send_lpf-HasSent conn.calls bytes conn.outbox sound (omega arith) in
      let calls = (socket_send_blocking_lpf conn.calls bytes (length bytes) conn.outbox).calls in
      let result =
        receive_lpf_too_long env.memory calls conn.inbox sent.healthy
          (omega (arith, sent.turns_left)) arrives big in
      rw (round_sent conn s l fine sound (omega arith), receive_frame, result)

  -- A renderer that closes the connection inside its answer, at any byte, costs the frame and the
  -- index, and no more: both queues stay, and the thread goes on to the next request.
  pub round_cut :
      (conn : Connection) (s : Shared F) (l : Local) (answer : List ℕ) (k : ℕ)
      → ltb_ℤ l.ret (pos 0) ≡ false
      → conn.inbox ≡ take k (frame answer)
      → k < size_of_size + length answer
      → IsHealthy conn.calls
      → size_of_size + length (env.serialize (draw_request s).0) + size_of_size + length answer
        ≤ turns conn.calls
      → length answer < 2 ^ 64
      → length answer ≤ env.memory
      → let r = client_round env scene depth conn s l in
        (r.end ≡ next) × (r.shared ≡ (draw_request s).1)
  unfolding receive_frame on_message
  round_cut conn s l answer k fine arrives cut sound enough small room =
      let bytes = env.serialize (draw_request s).0 in
      let sent = send_lpf-HasSent conn.calls bytes conn.outbox sound (omega arith) in
      let calls = (socket_send_blocking_lpf conn.calls bytes (length bytes) conn.outbox).calls in
      let result =
        receive_lpf_cut env.memory calls answer k sent.healthy (omega (arith, sent.turns_left))
          small room cut in
      rw (round_sent conn s l fine sound (omega arith), receive_frame, arrives, result) (refl, refl)
