-- ===== src/FrameQueue/Monitor/Wakeup.antt =====
-- The notifications that a sleeping thread needs.
use ngp_encode_server.Base.{ℕ, ◌+◌, ◌-◌, ◌≤◌, ◌<◌, ◌≡◌, [], ◌∷◌, arith, length, length-append}
use ngp_encode_server.Base.Exceptions.{ok, throws, lock_timeout}
use ngp_encode_server.FrameQueue.{FrameQueue, max_size, push, pop}
use ngp_encode_server.FrameQueue.Monitor.{
  notify_one, Monitor, end_push, end_pop, Step, pushes, push_waits, push_expires, pops, pop_waits,
  pop_expires, Reach, start, later,
}

module _ {ℓ} {A : Type ℓ} where
  abbrev size : FrameQueue A → ℕ
  size q = length q.queue

  size-push_ok :
      (el : A) (q : FrameQueue A)
      → (push el q).1 ≡ ok tt
      → (size (push el q).0 ≡ size q + 1) × (size q < max_size)
  unfolding push
  size-push_ok el q h = ground (arith, length-append q.queue (el ∷ []))

  push_full : (el : A) (q : FrameQueue A) → (push el q).1 ≡ throws lock_timeout → max_size ≤ size q
  unfolding push
  push_full el q h = ground arith

  size-pop_ok : (q : FrameQueue A) (item : A) → (pop q).1 ≡ ok item → size q ≡ size (pop q).0 + 1
  unfolding pop
  size-pop_ok q item h = ground arith

  pop_empty : (q : FrameQueue A) → (pop q).1 ≡ throws lock_timeout → size q ≡ 0
  unfolding pop
  pop_empty q h = ground arith

  pub record IsLive (m : Monitor A) : Type 0 where
    pub bounded : size m.frames ≤ max_size
    pub room_announced : 0 < m.pushers.asleep → max_size ≤ size m.frames + m.pushers.woken
    pub frames_announced : 0 < m.poppers.asleep → size m.frames ≤ m.poppers.woken

  Step-IsLive : {m n : Monitor A} → Step m n → IsLive m → IsLive n
  unfolding end_push end_pop notify_one
  Step-IsLive {m} (pushes o el at e) v = ground (arith, size-push_ok el m.frames e)
  Step-IsLive {m} (push_waits o el at e) v = ground (arith, push_full el m.frames e)
  Step-IsLive {m} (push_expires el at e) v = ground (arith, push_full el m.frames e)
  Step-IsLive {m} (pops o item at e) v = ground (arith, size-pop_ok m.frames item e)
  Step-IsLive {m} (pop_waits o at e) v = ground (arith, pop_empty m.frames e)
  Step-IsLive {m} (pop_expires at e) v = ground (arith, pop_empty m.frames e)

  Reach-IsLive : {m : Monitor A} → Reach m → IsLive m
  Reach-IsLive start = omega arith
  Reach-IsLive (later r st) = Step-IsLive st (Reach-IsLive r)

  -- In every reachable state of the monitor, if a pusher sleeps, then the free places of the queue
  -- are at most the pushers that are notified and about to take the lock.
  pub sleeping_pusher :
      {m : Monitor A} → Reach m → 0 < m.pushers.asleep → max_size - size m.frames ≤ m.pushers.woken
  sleeping_pusher r h = let v = Reach-IsLive r in omega arith

  -- In every reachable state of the monitor, if a popper sleeps, then the frames in the queue are at
  -- most the poppers that are notified and about to take the lock.
  pub sleeping_popper :
      {m : Monitor A} → Reach m → 0 < m.poppers.asleep → size m.frames ≤ m.poppers.woken
  sleeping_popper r h = let v = Reach-IsLive r in omega arith
