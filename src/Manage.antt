-- ===== src/Manage.antt =====
-- socket_manage_thread (src/server.cpp): one thread for each renderer, which connects to it, lets a
-- client thread serve the connection and tries again when that has ended. What `socket` and `connect`
-- answer is the list of attempts. Address has the reading of the address, Threads both threads whole.
pub mod Address
pub mod Threads
mod Tests
use ngp_encode_server.Base.{
  ℕ, suc, ◌+◌, ◌≤◌, ◌≡◌, refl, ap, List, [], ◌∷◌, Bool, true, false, ltb, if◌then◌else◌, Bool-cases,
  inl, inr, length, arith,
}

-- An attempt, with the descriptor that `socket` returned: it fails in `socket`, fails in `connect`, or
-- connects, and then the client thread closes the descriptor before it is joined.
pub data Attempt : Type 0 where
  socket_fails : Attempt
  connect_fails connects : ℕ → Attempt

pub data Event : Type 0 where
  waits reports : Event
  starts joins : ℕ → Event

-- `descriptors` are the ones that are open.
pub record Manager : Type 0 where
  pub error_times : ℕ
  pub descriptors : List ℕ
  pub events : List Event

abbrev pub initial : Manager
initial = record { error_times = 0; descriptors = []; events = [] }

-- close(targetfd), at the end of socket_client_thread, of the descriptor that was opened last.
close_last : List ℕ → List ℕ
close_last [] = []
close_last (fd ∷ fds) = fds

-- `error_times++; if (error_times > 30) …`
count_error : Manager → Manager
count_error m =
    let times = m.error_times + 1 in
    if ltb 30 times
    then record m { error_times = 0; events = reports ∷ waits ∷ m.events }
    else record m { error_times = times; events = waits ∷ m.events }

-- A round of socket_manage_thread.
pub manage_round : Attempt → Manager → Manager
unfolding close_last count_error
manage_round socket_fails m = record m { events = waits ∷ reports ∷ m.events }
manage_round (connect_fails fd) m = count_error (record m { descriptors = fd ∷ m.descriptors })
manage_round (connects fd) m = record m {
  error_times = 0;
  descriptors = close_last (fd ∷ m.descriptors);
  events = joins fd ∷ starts fd ∷ m.events;
}

-- The rounds, the first attempt first.
pub run_attempts : List Attempt → Manager → Manager
run_attempts [] m = m
run_attempts (a ∷ rest) m = run_attempts rest (manage_round a m)

-- How many attempts failed in `connect`.
abbrev pub refused : List Attempt → ℕ
refused [] = 0
refused (socket_fails ∷ rest) = refused rest
refused (connect_fails fd ∷ rest) = suc (refused rest)
refused (connects fd ∷ rest) = refused rest

count_error-descriptors : (m : Manager) → (count_error m).descriptors ≡ m.descriptors
unfolding count_error
count_error-descriptors m = elim (Bool-cases (ltb 30 (m.error_times + 1))) [
  | inl often ↦ rw often
  | inr seldom ↦ rw seldom
]

count_error_bounded : (m : Manager) → (count_error m).error_times ≤ 30
unfolding count_error
count_error_bounded m = elim (Bool-cases (ltb 30 (m.error_times + 1))) [
  | inl often ↦ rw often (omega arith)
  | inr seldom ↦ rw seldom (ground arith)
]

run_attempts_leak :
    (attempts : List Attempt) (m : Manager)
    → m.error_times ≤ 30
    → (length (run_attempts attempts m).descriptors ≡ length m.descriptors + refused attempts)
      × ((run_attempts attempts m).error_times ≤ 30)
unfolding run_attempts manage_round close_last
run_attempts_leak [] m h = (omega arith, h)
run_attempts_leak (socket_fails ∷ rest) m h =
    run_attempts_leak rest (record m { events = waits ∷ reports ∷ m.events }) h
run_attempts_leak (connect_fails fd ∷ rest) m h =
    let m' = count_error (record m { descriptors = fd ∷ m.descriptors }) in
    let more : length m'.descriptors ≡ suc (length m.descriptors) =
      ap length (count_error-descriptors (record m { descriptors = fd ∷ m.descriptors })) in
    let (count, bounded) =
      run_attempts_leak rest m'
        (count_error_bounded (record m { descriptors = fd ∷ m.descriptors })) in
    (omega (arith, count, more), bounded)
run_attempts_leak (connects fd ∷ rest) m h =
    run_attempts_leak rest (record m { error_times = 0; events = joins fd ∷ starts fd ∷ m.events })
      (omega arith)

-- A manager leaks descriptors: from the start, after any sequence of attempts exactly as many are open
-- as there were attempts that failed in `connect`, for none of those is closed; and the count of
-- errors is never above 30.
pub refused_descriptors_leak :
    (attempts : List Attempt)
    → (length (run_attempts attempts initial).descriptors ≡ refused attempts)
      × ((run_attempts attempts initial).error_times ≤ 30)
refused_descriptors_leak attempts =
    let (count, bounded) = run_attempts_leak attempts initial (omega arith) in
    (omega (arith, count), bounded)
