-- ===== src/Client/Session/Serves.antt =====
-- A renderer that answers every request.
use Prim.Native.Nat.mul
use ngp_encode_server.Base.{
  ℕ, zero, suc, ◌+◌, ◌*◌, ◌^◌, ◌≤◌, ◌<◌, ◌≡◌, refl, sym, ◌∙◌, List, ◌++◌, some, false, arith,
  length, append_assoc, append-nil,
}
use ngp_encode_server.Base.Int.{pos, ltb_ℤ}
use ngp_encode_server.Codec.{CodecInitInfo}
use ngp_encode_server.RenderedFrame.{Response, construct}
use ngp_encode_server.Socket.{
  size_of_size, IsHealthy, turns, SysCall, socket_send_blocking_lpf, socket_receive_blocking_lpf,
}
use ngp_encode_server.Socket.Framing.{frame, send_lpf-HasSent, receive_lpf_frame}
use ngp_encode_server.Client.{
  Env, Connection, Shared, Local, next, FrameRequest, client_round, draw_request, queue_frame,
  rgb24, gray8, count_frame, receive_frame, on_message, on_parsed,
}
use ngp_encode_server.Client.Rounds.{round_sent}
use ngp_encode_server.Client.Session.{client_rounds, serve_one, serve, requests, frames}

module _ {ℓ} {F : Type ℓ} (env : Env F) (scene depth : CodecInitInfo) where
  -- What the system calls are left with after a round.
  abbrev calls_left : Connection → Shared F → List ℕ → List ℕ → List SysCall
  calls_left conn s answer rest =
      let bytes = env.serialize (draw_request s).0 in
      let sent = socket_send_blocking_lpf conn.calls bytes (length bytes) conn.outbox in
      (socket_receive_blocking_lpf env.memory sent.calls (frame answer ++ rest)).calls

  round_whole :
      (conn : Connection) (s : Shared F) (l : Local) (answer rest : List ℕ) (response : Response F)
      → ltb_ℤ l.ret (pos 0) ≡ false
      → conn.inbox ≡ frame answer ++ rest
      → env.parse answer ≡ some response
      → IsHealthy conn.calls
      → size_of_size + length (env.serialize (draw_request s).0) + size_of_size + length answer
        ≤ turns conn.calls
      → length answer < 2 ^ 64
      → length answer ≤ env.memory
      → (client_round env scene depth conn s l ≡ record {
        end = next;
        conn = record {
          calls = calls_left conn s answer rest;
          inbox = rest;
          outbox = conn.outbox ++ frame (env.serialize (draw_request s).0);
        };
        shared = queue_frame (construct response rgb24 gray8 scene depth) (draw_request s).1;
        local = count_frame env.receive_time (record l { ret = pos 0 });
      })
        × IsHealthy (calls_left conn s answer rest)
        × (turns conn.calls
            ≤ turns (calls_left conn s answer rest)
              + (size_of_size
                  + length (env.serialize (draw_request s).0)
                  + size_of_size
                  + length answer))
  unfolding receive_frame on_message on_parsed
  round_whole conn s l answer rest response fine arrives parses sound enough small room =
      let bytes = env.serialize (draw_request s).0 in
      let sent = send_lpf-HasSent conn.calls bytes conn.outbox sound (omega arith) in
      let calls = (socket_send_blocking_lpf conn.calls bytes (length bytes) conn.outbox).calls in
      let (result, left, healthy, turns_left) =
        receive_lpf_frame env.memory calls answer rest sent.healthy (omega (arith, sent.turns_left))
          small room in
      (
        rw
            (
              round_sent env scene depth conn s l fine sound (omega arith),
              receive_frame,
              arrives,
              result,
              on_message,
              on_parsed,
              parses,
              left,
              sent.on_wire,
            )
            refl,
        healthy,
        omega (arith, sent.turns_left, turns_left),
      )

  count_frame_ret : (time : ℕ) (l : Local) → (count_frame time l).ret ≡ l.ret
  unfolding count_frame
  count_frame_ret time l = ground arith

  module _ (answer : FrameRequest F → List ℕ) (respond : FrameRequest F → Response F) (limit : ℕ)
      (parses : (r : FrameRequest F) → env.parse (answer r) ≡ some (respond r))
      (short : (r : FrameRequest F) → length (env.serialize r) ≤ limit)
      (short_answer : (r : FrameRequest F) → length (answer r) ≤ limit) (room : limit ≤ env.memory)
      (small : limit < 2 ^ 64) where
    -- A renderer that answers every request with a message that parses, over a connection that works:
    -- n rounds send the n requests that are drawn, each framed, read exactly their answers, and queue
    -- the frame of each for the eye that its answer names. No message is longer than `limit`, and the
    -- kernel moves data often enough for messages of this length.
    pub session_serves :
        (n : ℕ) (conn : Connection) (s : Shared F) (l : Local) (rest : List ℕ)
        → ltb_ℤ l.ret (pos 0) ≡ false
        → conn.inbox ≡ frames answer (requests respond scene depth n s) ++ rest
        → IsHealthy conn.calls
        → n * (16 + 2 * limit) ≤ turns conn.calls
        → let r = client_rounds env scene depth n conn s l in
          (r.end ≡ next)
          × (r.conn.outbox ≡ conn.outbox ++ frames env.serialize (requests respond scene depth n s))
          × (r.conn.inbox ≡ rest)
          × (r.shared ≡ serve respond scene depth n s)
    unfolding client_rounds requests serve
    session_serves zero conn s l rest fine arrives sound enough =
        (refl, sym (append-nil conn.outbox), arrives, refl)
    session_serves (suc n) conn s l rest fine arrives sound enough =
        let request = (draw_request s).0 in
        let s1 = serve_one respond scene depth s in
        let later = frames answer (requests respond scene depth n s1) ++ rest in
        let sends_little = short request in
        let gets_little = short_answer request in
        let split : conn.inbox ≡ frame (answer request) ++ later =
          arrives ∙ append_assoc (frame (answer request)) _ rest in
        let unit = 16 + 2 * limit in
        let product : suc n * unit ≡ unit + n * unit = mul.suc n unit in
        let turn : 16 + 2 * limit ≤ turns conn.calls = omega (arith, product) in
        let (first, healthy, left) =
          round_whole conn s l (answer request) later (respond request) fine split (parses request)
            sound (omega arith) (omega arith) (omega arith) in
        let conn1 : Connection = record {
          calls = calls_left conn s (answer request) later;
          inbox = later;
          outbox = conn.outbox ++ frame (env.serialize request);
        } in
        let l1 = count_frame env.receive_time (record l { ret = pos 0 }) in
        let quiet : ltb_ℤ l1.ret (pos 0) ≡ false =
          rw (count_frame_ret env.receive_time (record l { ret = pos 0 })) refl in
        let (ends, out, inbox, shared) =
          session_serves n conn1 s1 l1 rest quiet refl healthy (omega (arith, product, left)) in
        rw first (ends, out ∙ append_assoc conn.outbox _ _, inbox, shared)
