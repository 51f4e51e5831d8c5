-- ===== src/Client.antt =====
-- socket_client_thread (src/server.cpp): one thread for each renderer. It draws a request, sends it,
-- reads the answer and queues the frame. The protobuf codec, the memory and the times come in `Env`;
-- what the kernel and the renderer do is in `Connection`.
pub mod Rounds
pub mod Stats
pub mod Session
pub mod Concurrent
use ngp_encode_server.Base.{
  ℕ, ◌+◌, ◌/◌, ◌%◌, ◌^◌, List, Option, none, some, Bool, true, false, ◌==◌, if◌then◌else◌, length,
}
use ngp_encode_server.Base.Int.{ℤ, pos, ltb_ℤ}
use ngp_encode_server.Base.Exceptions.{Exception, Result, ok, throws, runtime_error}
use ngp_encode_server.Codec.{CodecInitInfo}
use ngp_encode_server.Camera.{Camera, CameraManager}
use ngp_encode_server.FrameQueue.{FrameQueue, push}
use ngp_encode_server.RenderedFrame.{Response, RenderedFrame, construct}
use ngp_encode_server.Requests.{Counters, fetch_side, fetch_index}
use ngp_encode_server.Socket.{
  SysCall, Sent, Message, socket_send_blocking_lpf, socket_receive_blocking_lpf,
}

-- kLogStatsIntervalFrame
abbrev pub log_stats_interval : ℕ
log_stats_interval = 100

-- AV_PIX_FMT_RGB24 and AV_PIX_FMT_GRAY8
abbrev pub rgb24 : ℕ
rgb24 = 2

abbrev pub gray8 : ℕ
gray8 = 8

-- nesproto::FrameRequest (proto/nes.proto)
pub record FrameRequest {ℓ} (F : Type ℓ) : Type ℓ where
  pub index : ℕ
  pub camera : Camera F
  pub is_left : Bool

pub record Env {ℓ} (F : Type ℓ) : Type ℓ where
  pub serialize : FrameRequest F → List ℕ
  pub parse : List ℕ → Option (Response F)
  pub memory : ℕ
  pub receive_time : ℕ

-- The socket: what its system calls will do, what the renderer sends, what was sent to it.
pub record Connection : Type 0 where
  pub calls : List SysCall
  pub inbox : List ℕ
  pub outbox : List ℕ

-- What the client threads share.
pub record Shared {ℓ} (F : Type ℓ) : Type ℓ where
  pub counters : Counters
  pub cameras : CameraManager F
  pub queue_left : FrameQueue (RenderedFrame F)
  pub queue_right : FrameQueue (RenderedFrame F)

-- The thread's own variables.
pub record Local : Type 0 where
  pub ret : ℤ
  pub count : ℕ
  pub elapsed : ℕ

-- How a round ends: with the next one, with `break`, waiting for a system call, or with an exception
-- that nothing in the thread catches.
pub data End : Type 0 where
  next stopped waiting : End
  uncaught : Exception → End

pub record Round {ℓ} (F : Type ℓ) : Type ℓ where
  pub end : End
  pub conn : Connection
  pub shared : Shared F
  pub local : Local

-- `count++; elapsed += …; if (count == kLogStatsIntervalFrame) …`
pub count_frame : ℕ → Local → Local
count_frame time l =
    let count = (l.count + 1) % 2 ^ 64 in
    let elapsed = (l.elapsed + time) % 2 ^ 64 in
    if count == log_stats_interval
    then record l { count = 0; elapsed = 0 }
    else record l { count = count; elapsed = elapsed }

module _ {ℓ} {F : Type ℓ} where
  -- The frame goes to the queue of the side that the renderer names; on LockTimeout it is dropped.
  unfoldable pub queue_frame : RenderedFrame F → Shared F → Shared F
  queue_frame f s =
      if f.frame_response.is_left
      then record s { queue_left = (push f s.queue_left).0 }
      else record s { queue_right = (push f s.queue_right).0 }

  -- The index and the side of a request, and the camera of that side.
  pub draw_request : Shared F → FrameRequest F × Shared F
  draw_request s =
      let (side, c) = fetch_side s.counters in
      let (index, c') = fetch_index side c in
      (
        record {
          index = index;
          camera = if side then s.cameras.left.camera else s.cameras.right.camera;
          is_left = side;
        },
        record s { counters = c' },
      )

module _ {ℓ} {F : Type ℓ} (env : Env F) (scene depth : CodecInitInfo) where
  -- What follows ParseFromString.
  on_parsed : Option (Response F) → Connection → Shared F → Local → Round F
  on_parsed none conn s l = record { end = next; conn = conn; shared = s; local = l }
  on_parsed (some response) conn s l = record {
    end = next;
    conn = conn;
    shared = queue_frame (construct response rgb24 gray8 scene depth) s;
    local = count_frame env.receive_time l;
  }

  -- The `try` round the receiving catches std::runtime_error alone.
  on_message : Option (Result (List ℕ)) → Connection → Shared F → Local → Round F
  unfolding on_parsed
  on_message none conn s l = record { end = waiting; conn = conn; shared = s; local = l }
  on_message (some (ok payload)) conn s l = on_parsed (env.parse payload) conn s l
  on_message (some (throws runtime_error)) conn s l = record {
    end = next;
    conn = conn;
    shared = s;
    local = l;
  }
  on_message (some (throws x)) conn s l = record {
    end = uncaught x;
    conn = conn;
    shared = s;
    local = l;
  }

  -- What follows the sending, by what it returned.
  pub receive_frame : Sent → List ℕ → Shared F → Local → Round F
  receive_frame sent inbox s l =
      let m = socket_receive_blocking_lpf env.memory sent.calls inbox in
      on_message m.result (record { calls = m.calls; inbox = m.wire; outbox = sent.wire }) s l

  on_sent : Option ℤ → Sent → List ℕ → Shared F → Local → Round F
  on_sent none sent inbox s l = record {
    end = waiting;
    conn = record { calls = sent.calls; inbox = inbox; outbox = sent.wire };
    shared = s;
    local = l;
  }
  on_sent (some ret) sent inbox s l =
      let l' : Local = record l { ret = ret } in
      if ltb_ℤ ret (pos 0)
      then record {
        end = next;
        conn = record { calls = sent.calls; inbox = inbox; outbox = sent.wire };
        shared = s;
        local = l';
      }
      else receive_frame sent inbox s l'

  -- One round of the loop. `scene` and `depth` are the settings of the two encoders that the thread
  -- was given.
  pub client_round : Connection → Shared F → Local → Round F
  client_round conn s l =
      let (request, s') = draw_request s in
      let bytes = env.serialize request in
      let sent = socket_send_blocking_lpf conn.calls bytes (length bytes) conn.outbox in
      let round = on_sent sent.ret sent conn.inbox s' l in
      if ltb_ℤ l.ret (pos 0)
      then record { end = stopped; conn = conn; shared = s; local = l }
      else round
