-- ===== src/Requests/Indices.antt =====
-- The indices of the requests of each side.
use ngp_encode_server.Base.{
  countdown, ℕ, suc, ◌+◌, ◌%◌, ◌^◌, ◌≤◌, ◌<◌, ◌≡◌, refl, ap, sym, ◌∙◌, List, [], ◌∷◌, Bool, true,
  false, arith, length,
}
use ngp_encode_server.Requests.{
  System, fetch_side, fetch_index, take_side, take_index, takes_side, takes_index, finishes, Reach,
  start, later,
}

-- The indices that were requested for the left eye, or for the right one, the last first.
abbrev pub left_indices : List (Bool × ℕ) → List ℕ
left_indices [] = []
left_indices ((true, i) ∷ rest) = i ∷ left_indices rest
left_indices ((false, i) ∷ rest) = left_indices rest

abbrev pub right_indices : List (Bool × ℕ) → List ℕ
right_indices [] = []
right_indices ((true, i) ∷ rest) = right_indices rest
right_indices ((false, i) ∷ rest) = i ∷ right_indices rest

record IsGapless (s : System) : Type 0 where
  left : left_indices s.issued ≡ countdown s.counters.frame_index_left
  right : right_indices s.issued ≡ countdown s.counters.frame_index_right
  total : s.counters.frame_index_left + s.counters.frame_index_right ≡ length s.issued

take_side-IsGapless : (s : System) → IsGapless s → IsGapless (take_side s)
unfolding take_side fetch_side
take_side-IsGapless s v = ground arith

take_index-IsGapless :
    (side : Bool) (s : System)
    → length (take_index side s).issued < 2 ^ 64
    → IsGapless s
    → IsGapless (take_index side s)
unfolding take_index fetch_index
take_index-IsGapless true s small v =
    let i = s.counters.frame_index_left in
    let next : (i + 1) % 2 ^ 64 ≡ suc i = omega (arith, v.total) in
    record {
      left = ap (◌∷◌ i) v.left ∙ sym (ap countdown next);
      right = v.right;
      total = omega (arith, v.total);
    }
take_index-IsGapless false s small v =
    let i = s.counters.frame_index_right in
    let next : (i + 1) % 2 ^ 64 ≡ suc i = omega (arith, v.total) in
    record {
      left = v.left;
      right = ap (◌∷◌ i) v.right ∙ sym (ap countdown next);
      total = omega (arith, v.total);
    }

pub issued-take_side : (s : System) → (take_side s).issued ≡ s.issued
unfolding take_side fetch_side
issued-take_side s = ground arith

pub length-take_index :
    (side : Bool) (s : System) → length s.issued ≤ length (take_index side s).issued
unfolding take_index
length-take_index true s = omega arith
length-take_index false s = omega arith

Reach-IsGapless : {n : ℕ} {s : System} → Reach n s → length s.issued < 2 ^ 64 → IsGapless s
Reach-IsGapless start small = record { left = refl; right = refl; total = omega arith }
Reach-IsGapless (later {s = s} r (takes_side h)) small =
    take_side-IsGapless s (Reach-IsGapless r (rw issued-take_side at small))
Reach-IsGapless (later {s = s} r (takes_index side h)) small =
    take_index-IsGapless side s small (Reach-IsGapless r (omega (arith, length-take_index side s)))
Reach-IsGapless (later r (finishes h)) small =
    let v = Reach-IsGapless r small in record { left = v.left; right = v.right; total = v.total }

-- However the threads interleave, until 2 ^ 64 requests are drawn the requests of each eye carry the
-- indices 0, 1, 2, … in the order in which they are drawn, each once and none left out, up to the
-- counter of that eye.
pub indices_gapless :
    {n : ℕ} {s : System}
    → Reach n s
    → length s.issued < 2 ^ 64
    → (left_indices s.issued ≡ countdown s.counters.frame_index_left)
      × (right_indices s.issued ≡ countdown s.counters.frame_index_right)
indices_gapless r small = let v = Reach-IsGapless r small in (v.left, v.right)
