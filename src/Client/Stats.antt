-- ===== src/Client/Stats.antt =====
-- The counters in a round of socket_client_thread.
use Prim.Native.Nat.{bit_xor}
use ngp_encode_server.Base.{
  ℕ, ◌+◌, ◌%◌, ◌^◌, ◌<◌, ◌≡◌, refl, List, Option, some, none, false, ◌==◌, if◌then◌else◌,
  Bool-cases, inl, inr, arith, length,
}
use ngp_encode_server.Base.Int.{ℤ, pos, ltb_ℤ}
use ngp_encode_server.Base.Exceptions.{
  Exception, Result, ok, throws, runtime_error, bad_alloc, lock_timeout, invalid_argument,
  out_of_range, websocket_error,
}
use ngp_encode_server.Codec.{CodecInitInfo}
use ngp_encode_server.RenderedFrame.{RenderedFrame, construct, Response}
use ngp_encode_server.Requests.{fetch_side, fetch_index}
use ngp_encode_server.Socket.{Sent, socket_send_blocking_lpf, socket_receive_blocking_lpf}
use ngp_encode_server.Client.{
  Env, Connection, Shared, Local, Round, End, next, waiting, uncaught, log_stats_interval,
  client_round, draw_request, on_sent, receive_frame, on_message, on_parsed, queue_frame, rgb24,
  gray8, count_frame,
}

count_frame_bounded :
    (time : ℕ) (l : Local)
    → l.count < log_stats_interval
    → (count_frame time l).count < log_stats_interval
unfolding count_frame
count_frame_bounded time l h = elim (Bool-cases ((l.count + 1) % 2 ^ 64 == log_stats_interval)) [
  | inl full ↦ rw full (omega arith)
  | inr more ↦ rw more (ground arith)
]

module _ {ℓ} {F : Type ℓ} (env : Env F) (scene depth : CodecInitInfo) where
  -- What is left of the counters and of the count after a round that drew from `s`.
  record IsCounted (s : Shared F) (l : Local) (r : Round F) : Type ℓ where
    counters : r.shared.counters ≡ s.counters
    bounded : l.count < log_stats_interval → r.local.count < log_stats_interval

  unchanged-IsCounted :
      (e : End) (conn : Connection) (s : Shared F) (l : Local)
      → IsCounted s l (record { end = e; conn = conn; shared = s; local = l })
  unchanged-IsCounted e conn s l = record { counters = refl; bounded = λ h. h }

  queue_frame-counters :
      (f : RenderedFrame F) (s : Shared F) → (queue_frame f s).counters ≡ s.counters
  unfolding queue_frame
  queue_frame-counters f s = elim (Bool-cases f.frame_response.is_left) [
    | inl left ↦ rw left
    | inr right ↦ rw right
  ]

  on_parsed-IsCounted :
      (parsed : Option (Response F)) (conn : Connection) (s : Shared F) (l : Local)
      → IsCounted s l (on_parsed env scene depth parsed conn s l)
  unfolding on_parsed
  on_parsed-IsCounted none conn s l = unchanged-IsCounted next conn s l
  on_parsed-IsCounted (some response) conn s l = record {
    counters = queue_frame-counters (construct response rgb24 gray8 scene depth) s;
    bounded = count_frame_bounded env.receive_time l;
  }

  thrown-IsCounted :
      (x : Exception) (conn : Connection) (s : Shared F) (l : Local)
      → IsCounted s l (on_message env scene depth (some (throws x)) conn s l)
  unfolding on_message
  thrown-IsCounted runtime_error conn s l = unchanged-IsCounted next conn s l
  thrown-IsCounted bad_alloc conn s l = unchanged-IsCounted (uncaught bad_alloc) conn s l
  thrown-IsCounted lock_timeout conn s l = unchanged-IsCounted (uncaught lock_timeout) conn s l
  thrown-IsCounted invalid_argument conn s l =
      unchanged-IsCounted (uncaught invalid_argument) conn s l
  thrown-IsCounted out_of_range conn s l = unchanged-IsCounted (uncaught out_of_range) conn s l
  thrown-IsCounted websocket_error conn s l =
      unchanged-IsCounted (uncaught websocket_error) conn s l

  on_message-IsCounted :
      (m : Option (Result (List ℕ))) (conn : Connection) (s : Shared F) (l : Local)
      → IsCounted s l (on_message env scene depth m conn s l)
  unfolding on_message
  on_message-IsCounted none conn s l = unchanged-IsCounted waiting conn s l
  on_message-IsCounted (some (ok payload)) conn s l =
      on_parsed-IsCounted (env.parse payload) conn s l
  on_message-IsCounted (some (throws x)) conn s l = thrown-IsCounted x conn s l

  on_sent-IsCounted :
      (ret : Option ℤ) (sent : Sent) (inbox : List ℕ) (s : Shared F) (l : Local)
      → IsCounted s l (on_sent env scene depth ret sent inbox s l)
  unfolding on_sent receive_frame
  on_sent-IsCounted none sent inbox s l = record { counters = refl; bounded = λ h. h }
  on_sent-IsCounted (some ret) sent inbox s l =
      let m = socket_receive_blocking_lpf env.memory sent.calls inbox in
      let conn : Connection = record { calls = m.calls; inbox = m.wire; outbox = sent.wire } in
      let received = on_message-IsCounted m.result conn s (record l { ret = ret }) in
      elim (Bool-cases (ltb_ℤ ret (pos 0))) [
        | inl failed ↦ rw failed (record { counters = refl; bounded = λ h. h })
        | inr sent ↦ rw sent (record { counters = received.counters; bounded = received.bounded })
      ]

  -- Every round that is not the last draws one side and one index, whatever the kernel and the
  -- renderer do: is_left flips, the counter of the side that it gave goes up by one, and the other
  -- one stays. An index that a failed round drew is not drawn again.
  pub round_draws :
      (conn : Connection) (s : Shared F) (l : Local)
      → ltb_ℤ l.ret (pos 0) ≡ false
      → let c = (client_round env scene depth conn s l).shared.counters in
        (c.is_left ≡ bit_xor s.counters.is_left 1)
        × (c.frame_index_left ≡ (
            if s.counters.is_left == 0
            then s.counters.frame_index_left
            else (s.counters.frame_index_left + 1) % 2 ^ 64))
        × (c.frame_index_right ≡ (
            if s.counters.is_left == 0
            then (s.counters.frame_index_right + 1) % 2 ^ 64
            else s.counters.frame_index_right))
  unfolding client_round draw_request fetch_side fetch_index
  round_draws conn s l fine =
      let bytes = env.serialize (draw_request s).0 in
      let sent = socket_send_blocking_lpf conn.calls bytes (length bytes) conn.outbox in
      let counted = on_sent-IsCounted sent.ret sent conn.inbox (draw_request s).1 l in
      rw (fine, counted.counters)
        (elim (Bool-cases (s.counters.is_left == 0)) [
          | inl right ↦ rw right (refl, refl, refl)
          | inr left ↦ rw left (refl, refl, refl)
        ])

  -- The count of frames since the last average stays below 100 in every round, so that the test for
  -- 100 is met once in 100 frames and the division by the count is never one by 0.
  pub round_count_bounded :
      (conn : Connection) (s : Shared F) (l : Local)
      → l.count < log_stats_interval
      → (client_round env scene depth conn s l).local.count < log_stats_interval
  unfolding client_round
  round_count_bounded conn s l h =
      let bytes = env.serialize (draw_request s).0 in
      let sent = socket_send_blocking_lpf conn.calls bytes (length bytes) conn.outbox in
      let counted = on_sent-IsCounted sent.ret sent conn.inbox (draw_request s).1 l in
      elim (Bool-cases (ltb_ℤ l.ret (pos 0))) [
        | inl failed ↦ rw failed h
        | inr fine ↦ rw fine (counted.bounded h)
      ]
