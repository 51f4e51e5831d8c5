-- ===== src/Main/Joining.antt =====
-- The end of the threads: the signal handler, the flag that every loop looks at, and the loop of main
-- that joins the threads (src/main.cpp). The threads of a renderer count as one, since the outer one
-- joins the inner one (src/server.cpp, socket_manage_thread, socket_main_thread).
pub mod Ends
pub mod Blocked
use ngp_encode_server.Base.{
  ℕ, zero, suc, ◌+◌, ◌<◌, ◌≤◌, ◌≡◌, List, [], ◌∷◌, ◌++◌, Bool, true, false, if◌then◌else◌, length,
}

-- signal_status and shutdown_requested
pub record Signals : Type 0 where
  pub signal_status : ℕ
  pub shutdown_requested : Bool

pub signal_handler : ℕ → Signals → Signals
signal_handler signum s = record { signal_status = signum; shutdown_requested = true }

-- A thread is on its way to the head of its loop, or in a call that another machine must answer, or it
-- has left its loop.
pub data Doing : Type 0 where
  loops waits ended : Doing

-- `threads` in the order in which they are joined, and how many are.
pub record Program : Type 0 where
  pub signals : Signals
  pub threads : List Doing
  pub joined : ℕ

-- `while (!shutdown_requested)`
pub at_head : Signals → Doing
at_head s = if s.shutdown_requested then ended else loops

-- The k-th thread.
abbrev pub thread : ℕ → List Doing → Doing
thread k [] = ended
thread zero (d ∷ ds) = d
thread (suc k) (d ∷ ds) = thread k ds

-- The k-th thread does something else.
pub set_thread : ℕ → Doing → List Doing → List Doing
set_thread k d [] = []
set_thread zero d (x ∷ ds) = d ∷ ds
set_thread (suc k) d (x ∷ ds) = x ∷ set_thread k d ds

-- `answered` tells for each thread whether the call that it waits in ever returns.
pub data Reach (answered : ℕ → Bool) (s : Program) : Program → Type 0 where
  stays : Reach answered s s
  is_signalled :
      {t : Program} (signum : ℕ)
      → Reach answered s t
      → Reach answered s (record t { signals = signal_handler signum t.signals })
  comes_round :
      {t : Program} (k : ℕ)
      → Reach answered s t
      → thread k t.threads ≡ loops
      → Reach answered s (record t { threads = set_thread k (at_head t.signals) t.threads })
  calls :
      {t : Program} (k : ℕ)
      → Reach answered s t
      → thread k t.threads ≡ loops
      → Reach answered s (record t { threads = set_thread k waits t.threads })
  returns :
      {t : Program} (k : ℕ)
      → Reach answered s t
      → thread k t.threads ≡ waits
      → answered k ≡ true
      → Reach answered s (record t { threads = set_thread k loops t.threads })
  joins :
      {t : Program}
      → Reach answered s t
      → t.joined < length t.threads
      → thread t.joined t.threads ≡ ended
      → Reach answered s (record t { joined = suc t.joined })

-- `for (auto &th : threads) th.join()` is through.
abbrev pub IsThrough : Program → Type 0
IsThrough s = s.joined ≡ length s.threads
