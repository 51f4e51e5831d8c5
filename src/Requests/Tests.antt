-- ===== src/Requests/Tests.antt =====
-- A run of two threads: the first takes the right eye, the second the left one.
use ngp_encode_server.Base.{countdown, ◌+◌, ◌≤◌, ◌≡◌, refl, arith, true, false, [], ◌∷◌}
use ngp_encode_server.Requests.{
  System, Reach, start, later, takes_side, takes_index, init, take_side, take_index, fetch_side,
  fetch_index,
}
use ngp_encode_server.Requests.Indices.{left_indices, right_indices, indices_gapless}
use ngp_encode_server.Requests.Balance.{eyes_balanced}

two_requests : System
two_requests = take_index false (take_index true (take_side (take_side (init 2))))

Reach-two_requests : Reach 2 two_requests
unfolding two_requests take_side take_index fetch_side fetch_index
Reach-two_requests =
    later
      (later (later (later start (takes_side (omega arith))) (takes_side (omega arith)))
        (takes_index true (omega arith)))
      (takes_index false (omega arith))

two_requests_issued : two_requests.issued ≡ (false, 0) ∷ (true, 0) ∷ []
unfolding two_requests take_side take_index fetch_side fetch_index
two_requests_issued = refl

indices_gapless_example :
    (left_indices two_requests.issued ≡ countdown two_requests.counters.frame_index_left)
    × (right_indices two_requests.issued ≡ countdown two_requests.counters.frame_index_right)
unfolding two_requests take_side take_index fetch_side fetch_index
indices_gapless_example = indices_gapless Reach-two_requests (omega arith)

eyes_balanced_example :
    (two_requests.counters.frame_index_right ≤ two_requests.counters.frame_index_left + 2 + 1)
    × (two_requests.counters.frame_index_left ≤ two_requests.counters.frame_index_right + 2)
unfolding two_requests take_side take_index fetch_side fetch_index
eyes_balanced_example = eyes_balanced Reach-two_requests (omega arith)
