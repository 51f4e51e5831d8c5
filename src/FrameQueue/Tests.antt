-- ===== src/FrameQueue/Tests.antt =====
-- Runs of the queue.
use ngp_encode_server.Base.{ℕ, ◌≡◌, refl, List, [], ◌∷◌, ◌++◌}
use ngp_encode_server.FrameQueue.{push, pop, IsBounded}
use ngp_encode_server.FrameQueue.Fifo.{Call, pushes, pops, empty, step, run, run-fifo}

abbrev calls : List (Call ℕ)
calls = pops ∷ pushes 4 ∷ pushes 5 ∷ pops ∷ pushes 6 ∷ []

run_calls : (run empty calls).popped ≡ 4 ∷ []
unfolding run step push pop
run_calls = refl

run-fifo_example :
    ((run empty calls).pushed ≡ (run empty calls).popped ++ (run empty calls).state.queue)
    × IsBounded (run empty calls).state
run-fifo_example = run-fifo calls
