-- ===== src/Main/Joining/Ends/Tests.antt =====
-- A thread that loops and one whose renderer is silent.
use ngp_encode_server.Base.{ℕ, ◌↔◌, refl, [], ◌∷◌, Bool, true, false, not, ◌==◌, arith}
use ngp_encode_server.Main.Joining.{
  Program, Reach, stays, is_signalled, comes_round, joins, loops, waits, ended, set_thread, at_head,
  signal_handler, IsThrough,
}
use ngp_encode_server.Main.Joining.Ends.{AreAnswered}
use ngp_encode_server.Main.Joining.Blocked.{ends_exactly}

abbrev not_one : ℕ → Bool
not_one k = not (k == 1)

abbrev two : Program
two = record {
  signals = record { signal_status = 0; shutdown_requested = false };
  threads = loops ∷ waits ∷ [];
  joined = 0;
}

abbrev stuck : Program
stuck = record {
  signals = record { signal_status = 2; shutdown_requested = true };
  threads = ended ∷ waits ∷ [];
  joined = 1;
}

stuck_reached : Reach not_one two stuck
unfolding signal_handler at_head set_thread
stuck_reached = joins (comes_round 0 (is_signalled 2 stays) refl) (omega arith) refl

ends_exactly_example :
    ((t : Program) × Reach not_one two t × IsThrough t) ↔ AreAnswered not_one 0 (loops ∷ waits ∷ [])
ends_exactly_example = ends_exactly not_one two (omega arith)
