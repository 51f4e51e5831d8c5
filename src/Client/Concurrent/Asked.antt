-- ===== src/Client/Concurrent/Asked.antt =====
-- The requests that are asked for at a time of such a run.
use ngp_encode_server.Base.{
  ℕ, suc, ◌+◌, ◌%◌, ◌^◌, ◌<◌, ◌≡◌, refl, sym, subst, ap, ◌∙◌, List, [], ◌∷◌, ◌++◌, Bool, ◌⊎◌, inl,
  inr, Bool-cases, ==_iff, ◌==◌, arith, length,
}
use ngp_encode_server.Client.{FrameRequest}
use ngp_encode_server.Encode.Pipeline.Reorder.{InList}
use ngp_encode_server.Encode.Pipeline.Reorder.{InList-append, InList-last}

module _ {ℓ} {F : Type ℓ} where
  -- The request of an eye with an index is among those of a list.
  abbrev pub IsAsked : Bool → ℕ → List (FrameRequest F) → Type 0
  IsAsked side i [] = ⊥
  IsAsked side i (r ∷ rs) = ((side ≡ r.is_left) × (i ≡ r.index)) ⊎ IsAsked side i rs

  IsAsked-without :
      (side : Bool) (i : ℕ) (before behind : List (FrameRequest F)) (r : FrameRequest F)
      → IsAsked side i (before ++ r ∷ behind)
      → ((side ≡ r.is_left) × (i ≡ r.index)) ⊎ IsAsked side i (before ++ behind)
  IsAsked-without side i [] behind r h = h
  IsAsked-without side i (x ∷ before) behind r (inl h) = inr (inl h)
  IsAsked-without side i (x ∷ before) behind r (inr h) =
      elim (IsAsked-without side i before behind r h) [
        | inl this ↦ inl this
        | inr other ↦ inr (inr other)
      ]

  pub length-without :
      (before behind : List (FrameRequest F)) (r : FrameRequest F)
      → length (before ++ r ∷ behind) ≡ suc (length (before ++ behind))
  length-without [] behind r = refl
  length-without (x ∷ before) behind r = ap suc (length-without before behind r)

  -- One more is asked for.
  pub grows :
      (side : Bool) (i : ℕ) (is : List ℕ) (rs : List (FrameRequest F)) (r : FrameRequest F)
      → InList i is ⊎ IsAsked side i rs
      → InList i is ⊎ IsAsked side i (r ∷ rs)
  grows side i is rs r (inl h) = inl h
  grows side i is rs r (inr h) = inr (inr h)

  -- The counter went up by one, and its old value is asked for.
  pub drawn_more :
      (side : Bool) (is : List ℕ) (rs : List (FrameRequest F)) (r : FrameRequest F) (n : ℕ)
      → r.is_left ≡ side
      → r.index ≡ n
      → ((i : ℕ) → i < n → InList i is ⊎ IsAsked side i rs)
      → (i : ℕ) → i < (n + 1) % 2 ^ 64
      → InList i is ⊎ IsAsked side i (r ∷ rs)
  drawn_more side is rs r n eye index old i h = elim (Bool-cases (i == n)) [
    | inl this ↦ inr (inl (sym eye, (==_iff i n).0 this ∙ sym index))
    | inr other ↦ grows side i is rs r (old i (ground arith))
  ]

  -- An answered request of the eye is in the queue, and no longer asked for.
  pub moved :
      (side : Bool) (i : ℕ) (is : List ℕ) (before behind : List (FrameRequest F))
      (r : FrameRequest F)
      → InList i is ⊎ IsAsked side i (before ++ r ∷ behind)
      → InList i (is ++ r.index ∷ []) ⊎ IsAsked side i (before ++ behind)
  moved side i is before behind r (inl h) = inl (InList-append i is (r.index ∷ []) h)
  moved side i is before behind r (inr h) = elim (IsAsked-without side i before behind r h) [
    | inl (_, this) ↦ inl (subst (λ j. InList i (is ++ j ∷ [])) this (InList-last i is))
    | inr other ↦ inr other
  ]

  -- One of the other eye makes no difference.
  pub unmoved :
      (side : Bool) (i : ℕ) (is : List ℕ) (before behind : List (FrameRequest F))
      (r : FrameRequest F)
      → ¬ (side ≡ r.is_left)
      → InList i is ⊎ IsAsked side i (before ++ r ∷ behind)
      → InList i is ⊎ IsAsked side i (before ++ behind)
  unmoved side i is before behind r other (inl h) = inl h
  unmoved side i is before behind r other (inr h) =
      elim (IsAsked-without side i before behind r h) [
        | inl (same, _) ↦ absurd (other same)
        | inr h ↦ inr h
      ]
