-- ===== src/Main/Running.antt =====
-- The threads that main starts and that move frames, all at once: any number of client threads, and
-- for each eye a processor and a sender (socket_client_thread in src/server.cpp,
-- process_frame_thread and send_frame_thread in src/encode.cpp). They share the two frame queues; a
-- call that waits goes on only when it can, so that no wait times out.
pub mod Flow
pub mod Rounds
pub mod Flowing
pub mod Invariant
pub mod Reached
pub mod Begun
pub mod Ordered
use ngp_encode_server.Base.{
  ℕ, zero, suc, ◌≡◌, ◌<◌, List, ◌∷◌, ◌++◌, Bool, true, false, some, length,
}
use ngp_encode_server.Codec.{CodecInitInfo}
use ngp_encode_server.Client.{FrameRequest}
use ngp_encode_server.Client.Concurrent.{Serving, take_side, take_index, take_answer}
use ngp_encode_server.Client.Concurrent.Covered.{queue_of}
use ngp_encode_server.Encode.{Eye, End, Processing, Sending, process_round, send_round}
use ngp_encode_server.Encode.Overlay.{Texts}
use ngp_encode_server.FrameMap.View.{view, has_room}
use ngp_encode_server.FrameQueue.{max_size}
use ngp_encode_server.RenderedFrame.{Response, RenderedFrame}

-- The frame queues are those of `clients`; what else the two threads of an eye have is in `left` and
-- `right`.
pub record Running {ℓ} (F : Type ℓ) : Type ℓ where
  pub clients : Serving F
  pub left : Eye F
  pub right : Eye F

module _ {ℓ} {F : Type ℓ} where
  -- The threads of an eye with their queue.
  abbrev pub eye : Bool → Running F → Eye F
  eye true s = record (s.left) { frame_queue = s.clients.shared.queue_left }
  eye false s = record (s.right) { frame_queue = s.clients.shared.queue_right }

  -- What a round of such a thread leaves.
  abbrev pub put_eye : Bool → Eye F → Running F → Running F
  put_eye true e s = record s {
    clients = record (s.clients) {
      shared = record (s.clients.shared) { queue_left = e.frame_queue };
    };
    left = e;
  }
  put_eye false e s = record s {
    clients = record (s.clients) {
      shared = record (s.clients.shared) { queue_right = e.frame_queue };
    };
    right = e;
  }

module _ {ℓ} {F : Type ℓ} (respond : FrameRequest F → Response F) (scene depth : CodecInitInfo)
    (stamp : Bool → ℕ → Texts F) where
  -- What the threads can come to from `s`, once they have drawn so many requests. `stamp` has the
  -- clock's answers: the texts that the frame of an eye and an index is given.
  pub data Reach (s : Running F) : ℕ → Running F → Type ℓ where
    stays : Reach s zero s
    takes_side :
        {n : ℕ} {t : Running F}
        → Reach s n t
        → Reach s n (record t { clients = take_side t.clients })
    takes_index :
        {n : ℕ} {t : Running F} (side : Bool) (before behind : List Bool)
        → Reach s n t
        → t.clients.holding ≡ before ++ side ∷ behind
        → Reach s (suc n) (record t { clients = take_index side (before ++ behind) t.clients })
    takes_answer :
        {n : ℕ} {t : Running F} (r : FrameRequest F) (before behind : List (FrameRequest F))
        → Reach s n t
        → t.clients.pending ≡ before ++ r ∷ behind
        → length (queue_of (respond r).is_left t.clients.shared) < max_size
        → Reach s n
            (record t { clients = take_answer respond scene depth r (before ++ behind) t.clients })
    processes :
        {n : ℕ} {t : Running F} (side : Bool) (p : Processing) (f : RenderedFrame F)
        (rest : List (RenderedFrame F))
        → Reach s n t
        → (eye side t).frame_queue.queue ≡ f ∷ rest
        → has_room (eye side t).encode_queue ≡ true
        → p.scene_ok ≡ true
        → p.depth_ok ≡ true
        → Reach s n
            (put_eye side (process_round (stamp side f.frame_response.index) p (eye side t)).1 t)
    sends :
        {n : ℕ} {t : Running F} (side : Bool) (a : Sending) (f : RenderedFrame F)
        → Reach s n t
        → view (eye side t).encode_queue (eye side t).frame_index ≡ some f
        → a.scene_wraps ≡ true
        → a.depth_wraps ≡ true
        → Reach s n (put_eye side (send_round a (eye side t)).1 t)
