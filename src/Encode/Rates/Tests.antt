-- ===== src/Encode/Rates/Tests.antt =====
-- Ten rounds at four frames a second for each eye: the first rate covers nine seconds, so it is too low.
use ngp_encode_server.Base.{ℕ, ◌+◌, ◌*◌, ◌≤◌, ◌≡◌, refl, List, [], ◌∷◌, length, arith}
use ngp_encode_server.Encode.Overlay.{timestamp, fill_3, to_string, digit}
use ngp_encode_server.Encode.Rates.{initial, stats_round, run_stats, sum, IsRising, rates_add_up}

abbrev loads : List (ℕ × ℕ)
loads =
    (0, 0)
    ∷ (4, 4)
    ∷ (8, 8)
    ∷ (12, 12)
    ∷ (16, 16)
    ∷ (20, 20)
    ∷ (24, 24)
    ∷ (28, 28)
    ∷ (32, 32)
    ∷ (36, 36)
    ∷ []

loads-IsRising : IsRising 0 loads
loads-IsRising = (
  omega arith,
  omega arith,
  (
    omega arith,
    omega arith,
    (
      omega arith,
      omega arith,
      (
        omega arith,
        omega arith,
        (
          omega arith,
          omega arith,
          (
            omega arith,
            omega arith,
            (
              omega arith,
              omega arith,
              (
                omega arith,
                omega arith,
                (omega arith, omega arith, (omega arith, omega arith, tt)),
              ),
            ),
          ),
        ),
      ),
    ),
  ),
)

first_rate : (run_stats loads initial).logs ≡ 7 ∷ []
unfolding run_stats stats_round
first_rate = refl

rates_add_up_example :
    let logs = (run_stats loads initial).logs in
    (length logs ≡ 1) × (10 * sum logs ≤ 72) × (72 ≤ 10 * sum logs + 9 * length logs)
rates_add_up_example = rates_add_up loads loads-IsRising

timestamp_filled : timestamp "12:00:05" 1669000000042 ≡ "12:00:05.042"
unfolding timestamp fill_3 to_string digit
timestamp_filled = refl
