-- ===== src/Requests/Balance.antt =====
-- The requests of one eye against those of the other.
use ngp_encode_server.Base.{
  ℕ, ◌+◌, ◌-◌, ◌^◌, ◌≤◌, ◌<◌, ◌≡◌, ◌⊎◌, inl, inr, refl, sym, subst, not, ◌==◌, Bool, true, false,
  arith, length,
}
use Prim.Native.Nat.{bit_xor}
use ngp_encode_server.Requests.Indices.{issued-take_side, length-take_index}
use ngp_encode_server.Requests.{
  System, fetch_side, fetch_index, take_side, take_index, holding, held, takes_side, takes_index,
  finishes, Reach, start, later,
}

-- Sides taken so far: those with an index and those without.
record IsBalanced (n : ℕ) (s : System) : Type 0 where
  bit : (s.counters.is_left ≡ 0) ⊎ (s.counters.is_left ≡ 1)
  turns :
      s.counters.frame_index_right + s.holding_right
      ≡ s.counters.frame_index_left + s.holding_left + s.counters.is_left
  total : s.counters.frame_index_left + s.counters.frame_index_right ≡ length s.issued
  threads : s.at_head + s.holding_left + s.holding_right + s.busy ≡ n

-- `take_side`, with the value that is_left has given apart.
side_taken : ℕ → System → System
side_taken bit s = held (not (bit == 0)) (record s {
  counters = record (s.counters) { is_left = bit_xor bit 1 };
  at_head = s.at_head - 1;
})

side_taken-IsBalanced :
    (n : ℕ) (s : System)
    → 0 < s.at_head
    → IsBalanced n s
    → IsBalanced n (side_taken s.counters.is_left s)
unfolding side_taken
side_taken-IsBalanced n s h v = elim v.bit [
  | inl is_zero ↦
      subst (λ b. IsBalanced n (side_taken b s)) (sym is_zero)
        (record {
          bit = inr refl;
          turns = omega (arith, v.turns);
          total = v.total;
          threads = omega (arith, v.threads);
        })
  | inr is_one ↦
      subst (λ b. IsBalanced n (side_taken b s)) (sym is_one)
        (record {
          bit = inl refl;
          turns = omega (arith, v.turns);
          total = v.total;
          threads = omega (arith, v.threads);
        })
]

take_side-IsBalanced :
    (n : ℕ) (s : System) → 0 < s.at_head → IsBalanced n s → IsBalanced n (take_side s)
unfolding take_side fetch_side side_taken
take_side-IsBalanced n s h v = side_taken-IsBalanced n s h v

take_index-IsBalanced :
    (n : ℕ) (side : Bool) (s : System)
    → 0 < holding side s
    → length (take_index side s).issued < 2 ^ 64
    → IsBalanced n s
    → IsBalanced n (take_index side s)
unfolding take_index fetch_index
take_index-IsBalanced n true s h small v = record {
  bit = v.bit;
  turns = omega (arith, v.turns, v.total);
  total = omega (arith, v.total);
  threads = omega (arith, v.threads);
}
take_index-IsBalanced n false s h small v = record {
  bit = v.bit;
  turns = omega (arith, v.turns, v.total);
  total = omega (arith, v.total);
  threads = omega (arith, v.threads);
}

Reach-IsBalanced : {n : ℕ} {s : System} → Reach n s → length s.issued < 2 ^ 64 → IsBalanced n s
Reach-IsBalanced start small = record {
  bit = inl refl;
  turns = omega arith;
  total = omega arith;
  threads = omega arith;
}
Reach-IsBalanced {n} (later {s = s} r (takes_side h)) small =
    take_side-IsBalanced n s h (Reach-IsBalanced r (rw issued-take_side at small))
Reach-IsBalanced {n} (later {s = s} r (takes_index side h)) small =
    take_index-IsBalanced n side s h small
      (Reach-IsBalanced r (omega (arith, length-take_index side s)))
Reach-IsBalanced (later r (finishes h)) small =
    let v = Reach-IsBalanced r small in
    record { bit = v.bit; turns = v.turns; total = v.total; threads = omega (arith, v.threads) }

-- However `n` threads interleave, until 2 ^ 64 requests are drawn the right eye is never more than
-- n + 1 requests ahead of the left one, and the left one never more than n ahead of the right one.
pub eyes_balanced :
    {n : ℕ} {s : System}
    → Reach n s
    → length s.issued < 2 ^ 64
    → (s.counters.frame_index_right ≤ s.counters.frame_index_left + n + 1)
      × (s.counters.frame_index_left ≤ s.counters.frame_index_right + n)
eyes_balanced r small =
    let v = Reach-IsBalanced r small in
    (omega (arith, v.bit, v.turns, v.threads), omega (arith, v.bit, v.turns, v.threads))
