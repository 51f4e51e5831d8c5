-- ===== src/Timer.antt =====
-- ScopedTimer (src/include/base/scoped_timer.h). The steady clock counts nanoseconds, and its readings
-- are arguments.
mod Tests
use ngp_encode_server.Base.{ℕ, ◌+◌, ◌-◌, ◌/◌, ◌≤◌, List, [], ◌∷◌, length, arith}

pub record ScopedTimer : Type 0 where
  pub start : ℕ

-- The constructor.
abbrev pub start_timer : ℕ → ScopedTimer
start_timer now = record { start = now }

-- `duration_cast<milliseconds>(clock::now() - _start)`, which cuts off.
pub elapsed : ℕ → ScopedTimer → ℕ
elapsed now t = (now - t.start) / 1000000

-- The sum of what a timer in each of consecutive scopes reads, as the threads add it up; the scopes
-- end at the given times.
pub total : ℕ → List ℕ → ℕ
unfolding elapsed
total from [] = 0
total from (t ∷ ts) = elapsed t (start_timer from) + total t ts

abbrev pub Ascends : ℕ → List ℕ → Type 0
Ascends from [] = Unit
Ascends from (t ∷ ts) = (from ≤ t) × Ascends t ts

abbrev pub end_of : ℕ → List ℕ → ℕ
end_of from [] = from
end_of from (t ∷ ts) = end_of t ts

from-le : (from : ℕ) (ts : List ℕ) → Ascends from ts → from ≤ end_of from ts
from-le from [] h = omega arith
from-le from (t ∷ ts) h = omega (arith, from-le t ts h.1)

-- A clock that does not go back: the times of consecutive scopes add up to at most the time of all of
-- them, and to less than it by at most a millisecond for each scope.
pub total_off :
    (from : ℕ) (ts : List ℕ)
    → Ascends from ts
    → (total from ts ≤ elapsed (end_of from ts) (start_timer from))
      × (elapsed (end_of from ts) (start_timer from) ≤ total from ts + length ts)
unfolding total elapsed
total_off from [] h = (omega arith, omega arith)
total_off from (t ∷ ts) h =
    let (low, high) = total_off t ts h.1 in
    let le = from-le t ts h.1 in let first = h.0 in (omega arith, omega arith)
