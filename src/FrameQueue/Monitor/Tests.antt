-- ===== src/FrameQueue/Monitor/Tests.antt =====
-- Reachable states of the queue's monitor.
use ngp_encode_server.Base.{
  ℕ, zero, suc, ◌-◌, ◌≤◌, ◌<◌, ◌≡◌, refl, [], ◌∷◌, arith, length, length-append,
}
use ngp_encode_server.Base.Exceptions.{ok, throws, lock_timeout}
use ngp_encode_server.FrameQueue.{FrameQueue, max_size, push, pop}
use ngp_encode_server.FrameQueue.Monitor
use ngp_encode_server.FrameQueue.Monitor.{
  Monitor, Reach, start, later, push_waits, pop_waits, fresh, end_push, init, no_waiters, sleep,
  notify_one,
}
use ngp_encode_server.FrameQueue.Monitor.Wakeup.{sleeping_pusher, sleeping_popper}

-- Two poppers come first and sleep, then a frame is pushed.
two_poppers : Monitor ℕ
two_poppers = record init { poppers = record { asleep = 2; woken = 0 } }

one_frame : Monitor ℕ
unfolding two_poppers
one_frame = end_push two_poppers fresh 7

Reach-one_frame : Reach one_frame
unfolding one_frame push pop
Reach-one_frame =
    later (later (later start (pop_waits fresh tt refl)) (pop_waits fresh tt refl))
      (Monitor.pushes fresh 7 tt refl)

sleeping_popper_example : length one_frame.frames.queue ≤ one_frame.poppers.woken
unfolding one_frame end_push notify_one
sleeping_popper_example = sleeping_popper Reach-one_frame (omega arith)

-- `n` pushes on a new queue.
filled : ℕ → Monitor ℕ
filled zero = init
filled (suc n) = end_push (filled n) fresh n

length-filled : (n : ℕ) → n ≤ max_size → length (filled n).frames.queue ≡ n
unfolding filled end_push push
length-filled zero h = refl
length-filled (suc n) h =
    ground (arith, length-filled n, length-append (filled n).frames.queue (n ∷ []))

push_room : (q : FrameQueue ℕ) (el : ℕ) → length q.queue < max_size → (push el q).1 ≡ ok tt
unfolding push
push_room q el h = ground arith

push_no_room :
    (q : FrameQueue ℕ) (el : ℕ) → length q.queue ≡ max_size → (push el q).1 ≡ throws lock_timeout
unfolding push
push_no_room q el h = ground arith

Reach-filled : (n : ℕ) → n ≤ max_size → Reach (filled n)
unfolding filled
Reach-filled zero h = start
Reach-filled (suc n) h = later (Reach-filled n (omega arith)) (
    Monitor.pushes fresh n tt
      (push_room (filled n).frames n (omega (arith, length-filled n (omega arith)))))

-- One pusher more than the queue has places.
crowded : Monitor ℕ
crowded = record (filled max_size) { pushers = sleep (filled max_size).pushers }

Reach-crowded : Reach crowded
unfolding crowded
Reach-crowded = later (Reach-filled max_size (omega arith)) (
    push_waits fresh 100 tt
      (push_no_room (filled max_size).frames 100 (length-filled max_size (omega arith))))

sleeping_pusher_example : max_size - length crowded.frames.queue ≤ crowded.pushers.woken
unfolding crowded
sleeping_pusher_example = sleeping_pusher Reach-crowded (omega arith)
