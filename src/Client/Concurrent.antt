-- ===== src/Client/Concurrent.antt =====
-- Any number of client threads (socket_client_thread in src/server.cpp) whose renderers answer in any
-- order: each thread takes a side, takes an index of that side, sends the request, and at some time
-- gets the frame of it and queues it. The threads are told apart by what they hold.
pub mod Asked
pub mod Covered
pub mod Answers
pub mod Covers
use ngp_encode_server.Base.{ℕ, zero, suc, ◌≡◌, List, [], ◌∷◌, ◌++◌, Bool, if◌then◌else◌}
use ngp_encode_server.Codec.{CodecInitInfo}
use ngp_encode_server.RenderedFrame.{Response}
use ngp_encode_server.Requests.{fetch_side, fetch_index}
use ngp_encode_server.Client.{Shared, FrameRequest, queue_frame}
use ngp_encode_server.Client.Session.{frame_for}

-- `holding` are the sides of the threads that have no index yet, `pending` the requests that are not
-- answered yet.
pub record Serving {ℓ} (F : Type ℓ) : Type ℓ where
  pub shared : Shared F
  pub holding : List Bool
  pub pending : List (FrameRequest F)

module _ {ℓ} {F : Type ℓ} where
  -- `is_left.fetch_xor(true)`
  unfoldable pub take_side : Serving F → Serving F
  take_side s =
      let (side, c) = fetch_side s.shared.counters in
      record s { shared = record (s.shared) { counters = c }; holding = side ∷ s.holding }

  abbrev pub request_for : Bool → ℕ → Shared F → FrameRequest F
  request_for side index s = record {
    index = index;
    camera = if side then s.cameras.left.camera else s.cameras.right.camera;
    is_left = side;
  }

  -- `frame_index_left.fetch_add(1)` or the other, and the camera of the side, by a thread that holds
  -- the side; the sides in `others` are those of the other threads.
  unfoldable pub take_index : Bool → List Bool → Serving F → Serving F
  take_index side others s =
      let (index, c) = fetch_index side s.shared.counters in
      record s {
        shared = record (s.shared) { counters = c };
        holding = others;
        pending = request_for side index s.shared ∷ s.pending;
      }

module _ {ℓ} {F : Type ℓ} (respond : FrameRequest F → Response F)
    (scene depth : CodecInitInfo) where
  -- The frame of a request is queued; `others` stay pending.
  unfoldable pub take_answer : FrameRequest F → List (FrameRequest F) → Serving F → Serving F
  take_answer r others s = record s {
    shared = queue_frame (frame_for respond scene depth r) s.shared;
    pending = others;
  }

  -- What the threads can come to from `s`, once they have drawn so many requests.
  pub data Reach (s : Serving F) : ℕ → Serving F → Type ℓ where
    stays : Reach s zero s
    takes_side : {n : ℕ} {t : Serving F} → Reach s n t → Reach s n (take_side t)
    takes_index :
        {n : ℕ} {t : Serving F} (side : Bool) (before behind : List Bool)
        → Reach s n t
        → t.holding ≡ before ++ side ∷ behind
        → Reach s (suc n) (take_index side (before ++ behind) t)
    takes_answer :
        {n : ℕ} {t : Serving F} (r : FrameRequest F) (before behind : List (FrameRequest F))
        → Reach s n t
        → t.pending ≡ before ++ r ∷ behind
        → Reach s n (take_answer r (before ++ behind) t)
