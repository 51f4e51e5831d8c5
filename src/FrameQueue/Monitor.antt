-- ===== src/FrameQueue/Monitor.antt =====
-- FrameQueue under its mutex with any number of threads: who sleeps on `m_pusher` and `m_popper`,
-- who has been notified, and the steps that `wait_for` and `notify_one` allow. A thread may wake
-- without a notification, and tests its predicate once more at its deadline.
pub mod Wakeup
mod Tests
use ngp_encode_server.Base.{ℕ, ◌+◌, ◌-◌, ◌<◌, ◌≡◌, [], ltb, if◌then◌else◌}
use ngp_encode_server.Base.Exceptions.{ok, throws, lock_timeout}
use ngp_encode_server.FrameQueue.{FrameQueue, push, pop}

-- The threads inside one condition variable's `wait_for`.
pub record Waiters : Type 0 where
  pub asleep : ℕ
  pub woken : ℕ

pub data Origin : Type 0 where
  fresh woken asleep : Origin

abbrev pub IsPresent : Origin → Waiters → Type 0
IsPresent fresh w = Unit
IsPresent woken w = 0 < w.woken
IsPresent asleep w = 0 < w.asleep

abbrev pub leave : Origin → Waiters → Waiters
leave fresh w = w
leave woken w = record w { woken = w.woken - 1 }
leave asleep w = record w { asleep = w.asleep - 1 }

abbrev pub sleep : Waiters → Waiters
sleep w = record w { asleep = w.asleep + 1 }

-- std::condition_variable::notify_one
pub notify_one : Waiters → Waiters
notify_one w = if ltb 0 w.asleep then record { asleep = w.asleep - 1; woken = w.woken + 1 } else w

pub record Monitor {ℓ} (A : Type ℓ) : Type ℓ where
  pub frames : FrameQueue A
  pub pushers : Waiters
  pub poppers : Waiters

abbrev pub no_waiters : Waiters
no_waiters = record { asleep = 0; woken = 0 }

abbrev pub init {ℓ} : {A : Type ℓ} → Monitor A
init = record { frames = record { queue = [] }; pushers = no_waiters; poppers = no_waiters }

module _ {ℓ} {A : Type ℓ} where
  -- After a push the critical section ends with a notification on `m_popper`.
  pub end_push : Monitor A → Origin → A → Monitor A
  end_push m o el = record {
    frames = (push el m.frames).0;
    pushers = leave o m.pushers;
    poppers = notify_one m.poppers;
  }

  -- After a pop it ends with one on `m_pusher`.
  pub end_pop : Monitor A → Origin → Monitor A
  end_pop m o = record {
    frames = (pop m.frames).0;
    pushers = notify_one m.pushers;
    poppers = leave o m.poppers;
  }

  -- One entry into the critical section. A caller whose predicate fails goes to sleep; at its
  -- deadline it leaves with LockTimeout.
  pub data Step (m : Monitor A) : Monitor A → Type ℓ where
    pushes :
        (o : Origin) (el : A)
        → IsPresent o m.pushers
        → (push el m.frames).1 ≡ ok tt
        → Step m (end_push m o el)
    push_waits :
        (o : Origin) (el : A)
        → IsPresent o m.pushers
        → (push el m.frames).1 ≡ throws lock_timeout
        → Step m (record m { pushers = sleep (leave o m.pushers) })
    push_expires :
        (el : A)
        → IsPresent asleep m.pushers
        → (push el m.frames).1 ≡ throws lock_timeout
        → Step m (record m { pushers = leave asleep m.pushers })
    pops :
        (o : Origin) (item : A)
        → IsPresent o m.poppers
        → (pop m.frames).1 ≡ ok item
        → Step m (end_pop m o)
    pop_waits :
        (o : Origin)
        → IsPresent o m.poppers
        → (pop m.frames).1 ≡ throws lock_timeout
        → Step m (record m { poppers = sleep (leave o m.poppers) })
    pop_expires :
        IsPresent asleep m.poppers
        → (pop m.frames).1 ≡ throws lock_timeout
        → Step m (record m { poppers = leave asleep m.poppers })

  pub data Reach : Monitor A → Type ℓ where
    start : Reach init
    later : {m n : Monitor A} → Reach m → Step m n → Reach n
