-- ===== src/Encode/Rates.antt =====
-- encode_stats_thread in src/encode.cpp: the frame rate of the last ten seconds. What the thread reads
-- from the two counters, once a second, is the list of loads.
mod Tests
use ngp_encode_server.Base.{
  ℕ, zero, suc, ◌+◌, ◌*◌, ◌-◌, ◌/◌, ◌%◌, ◌^◌, ◌≤◌, ◌<◌, ◌≡◌, refl, sym, ap, ◌∙◌, List, [], ◌∷◌,
  Bool, true, false, ◌==◌, if◌then◌else◌, Bool-cases, inl, inr, length, arith, ==_iff, subst,
}

-- kEncodeStatsLogIntervalSeconds
abbrev pub interval : ℕ
interval = 10

-- `logs` are the rates that were logged, the last first.
pub record EncodeStats : Type 0 where
  pub previous_index : ℕ
  pub seconds : ℕ
  pub logs : List ℕ

abbrev pub initial : EncodeStats
initial = record { previous_index = 0; seconds = 0; logs = [] }

-- a - b of two uint64_t.
abbrev pub sub_u64 : ℕ → ℕ → ℕ
sub_u64 a b = (a + 2 ^ 64 - b) % 2 ^ 64

-- A round of encode_stats_thread.
pub stats_round : ℕ → ℕ → EncodeStats → EncodeStats
stats_round left right s =
    let seconds = (s.seconds + 1) % 2 ^ 64 in
    let current_index = (left + right) % 2 ^ 64 in
    if seconds == interval
    then record {
      previous_index = current_index;
      seconds = 0;
      logs = (sub_u64 current_index s.previous_index / seconds) ∷ s.logs;
    }
    else record s { seconds = seconds }

pub run_stats : List (ℕ × ℕ) → EncodeStats → EncodeStats
run_stats [] s = s
run_stats ((left, right) ∷ rest) s = run_stats rest (stats_round left right s)

abbrev pub sum : List ℕ → ℕ
sum [] = 0
sum (n ∷ ns) = n + sum ns

-- The counters do not fall, from the sum `from` on, and their sum does not wrap.
abbrev pub IsRising : ℕ → List (ℕ × ℕ) → Type 0
IsRising from [] = Unit
IsRising from ((left, right) ∷ rest) =
    (from ≤ left + right) × (left + right < 2 ^ 64) × IsRising (left + right) rest

-- What both counters showed together at the load of a position, and at that of the n-th round; before
-- the first round, and behind the last, nothing.
abbrev pub sum_at : ℕ → List (ℕ × ℕ) → ℕ
sum_at n [] = 0
sum_at zero ((left, right) ∷ rest) = left + right
sum_at (suc n) ((left, right) ∷ rest) = sum_at n rest

abbrev pub shown : List (ℕ × ℕ) → ℕ → ℕ
shown loads zero = 0
shown loads (suc n) = sum_at n loads

-- The state after `rounds` rounds, the last sum of the counters being `current`, where `seen` is what
-- they showed at each round.
record IsAccurate (seen : ℕ → ℕ) (rounds current : ℕ) (s : EncodeStats) : Type 0 where
  from_counters : s.previous_index ≡ seen (rounds - s.seconds)
  seconds_small : s.seconds < interval
  all_counted : interval * length s.logs + s.seconds ≡ rounds
  not_ahead : s.previous_index ≤ current
  not_above : interval * sum s.logs ≤ s.previous_index
  not_below : s.previous_index ≤ interval * sum s.logs + 9 * length s.logs

stats_round-IsAccurate :
    (seen : ℕ → ℕ) (rounds current left right : ℕ) (s : EncodeStats)
    → current ≤ left + right
    → left + right < 2 ^ 64
    → seen (suc rounds) ≡ left + right
    → IsAccurate seen rounds current s
    → IsAccurate seen (suc rounds) (left + right) (stats_round left right s)
unfolding stats_round
stats_round-IsAccurate seen rounds current left right s up small now v =
    let bound = v.seconds_small in
    let wraps : (s.seconds + 1) % 2 ^ 64 ≡ s.seconds + 1 = omega arith in
    let whole : (left + right) % 2 ^ 64 ≡ left + right = omega arith in
    let behind = v.not_ahead in
    elim (Bool-cases (s.seconds + 1 == interval)) [
      | inl ends ↦
          let ten : s.seconds + 1 ≡ 10 = (==_iff (s.seconds + 1) interval).0 ends in
          let passed : sub_u64 (left + right) s.previous_index ≡ left + right - s.previous_index =
            omega arith in
          rw (wraps, whole, ends, passed, ten)
            (record {
              from_counters = sym now ∙ ap seen (omega arith);
              seconds_small = omega arith;
              all_counted = omega (arith, v.all_counted);
              not_ahead = omega arith;
              not_above = omega (arith, v.not_above);
              not_below = omega (arith, v.not_below);
            })
      | inr goes ↦
          rw (wraps, whole, goes)
            (record {
              from_counters = v.from_counters ∙ ap seen (omega arith);
              seconds_small = ground arith;
              all_counted = omega (arith, v.all_counted);
              not_ahead = omega arith;
              not_above = v.not_above;
              not_below = v.not_below;
            })
    ]

run_stats-IsAccurate :
    (seen : ℕ → ℕ) (loads : List (ℕ × ℕ)) (rounds current : ℕ) (s : EncodeStats)
    → ((i : ℕ) → seen (rounds + suc i) ≡ sum_at i loads)
    → IsRising current loads
    → IsAccurate seen rounds current s
    → (last : ℕ) × IsAccurate seen (rounds + length loads) last (run_stats loads s)
unfolding run_stats
run_stats-IsAccurate seen [] rounds current s reads rising v =
    (current, subst (λ n. IsAccurate seen n current s) (omega arith) v)
run_stats-IsAccurate seen ((left, right) ∷ rest) rounds current s reads (up, small, rising) v =
    let now : seen (suc rounds) ≡ left + right = ap seen (omega arith) ∙ reads 0 in
    let v' = stats_round-IsAccurate seen rounds current left right s up small now v in
    let (last, w) =
      run_stats-IsAccurate seen rest (suc rounds) (left + right) (stats_round left right s)
        (λ i. ap seen (omega arith) ∙ reads (suc i)) rising v' in
    (
      last,
      subst (λ n. IsAccurate seen n last (run_stats rest (stats_round left right s))) (omega arith)
          w,
    )

-- The logged rates account for the requests: while the two counters only rise and their sum does not
-- wrap, every tenth round logs a rate, and ten times the sum of all rates falls short of what both
-- counters showed at the last of those rounds by at most nine for each.
pub rates_add_up :
    (loads : List (ℕ × ℕ))
    → IsRising 0 loads
    → let logs = (run_stats loads initial).logs in
      let requests = shown loads (interval * (length loads / interval)) in
      (length logs ≡ length loads / interval)
      × (interval * sum logs ≤ requests)
      × (requests ≤ interval * sum logs + 9 * length logs)
rates_add_up loads rising =
    let (last, v) = run_stats-IsAccurate (shown loads) loads 0 0 initial reads rising initially in
    let s = run_stats loads initial in
    let bound = v.seconds_small in
    let count : length s.logs ≡ length loads / interval = omega (arith, v.all_counted) in
    let requests : s.previous_index ≡ shown loads (interval * (length loads / interval)) =
      v.from_counters ∙ ap (shown loads) (omega (arith, v.all_counted)) in
    (count, omega (arith, v.not_above, requests), omega (arith, v.not_below, requests))
  where
    reads : (i : ℕ) → shown loads (0 + suc i) ≡ sum_at i loads
    reads i = let next : 0 + suc i ≡ suc i = omega arith in ap (shown loads) next

    initially : IsAccurate (shown loads) 0 0 initial
    initially = record {
      from_counters = refl;
      seconds_small = omega arith;
      all_counted = refl;
      not_ahead = omega arith;
      not_above = omega arith;
      not_below = omega arith;
    }
