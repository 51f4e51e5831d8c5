-- ===== src/FrameQueue.antt =====
-- src/base/video/frame_queue.cc and include/base/video/frame_queue.h: the bounded queue of frames
-- between the socket threads and the frame processor. The mutex makes a call one atomic step; the
-- state of a call is the one in which its `wait_for` returns. The element type is a parameter.
pub mod Fifo
pub mod Monitor
mod Tests
use ngp_encode_server.Base.{ℕ, ◌≤◌, List, [], ◌∷◌, ◌++◌, ltb, if◌then◌else◌, length}
use ngp_encode_server.Base.Exceptions.{Result, ok, throws, lock_timeout}

-- kFrameQueueMaxSize
abbrev pub max_size : ℕ
max_size = 100

-- `m_queue`, its front first.
pub record FrameQueue {ℓ} (A : Type ℓ) : Type ℓ where
  pub queue : List A

module _ {ℓ} {A : Type ℓ} where
  -- FrameQueue::push: the predicate that `m_pusher` waits for decides between the two branches.
  pub push : A → FrameQueue A → FrameQueue A × Result (Unit {0})
  push el q =
      if ltb (length q.queue) max_size
      then (record q { queue = q.queue ++ el ∷ [] }, ok tt)
      else (q, throws lock_timeout)

  take_front : List A → FrameQueue A × Result A
  take_front [] = (record { queue = [] }, throws lock_timeout)
  take_front (item ∷ rest) = (record { queue = rest }, ok item)

  -- FrameQueue::pop: `m_queue.size() > 0` holds of a list exactly if it has a front.
  pub pop : FrameQueue A → FrameQueue A × Result A
  unfolding take_front
  pop q = take_front q.queue

  -- The invariant of the class: the bound that `push` waits for.
  abbrev pub IsBounded : FrameQueue A → Type 0
  IsBounded q = length q.queue ≤ max_size
