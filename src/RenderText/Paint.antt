-- ===== src/RenderText/Paint.antt =====
-- The surface after 255 is written at some places.
use ngp_encode_server.Base.{
  ℕ, zero, suc, ◌<◌, ◌≡◌, refl, ap, ◌∙◌, inl, inr, List, [], ◌∷◌, Bool-cases, false, ◌==◌,
  if◌then◌else◌, arith, length, ==_iff,
}
use ngp_encode_server.RenderText.{at, set, paint}
use ngp_encode_server.RenderText.Pixels.{is_in}

length-set : (bs : List ℕ) (a : ℕ) → length (set bs a) ≡ length bs
unfolding set
length-set [] a = refl
length-set (b ∷ bs) zero = refl
length-set (b ∷ bs) (suc a) = ap suc (length-set bs a)

at-set_same : (bs : List ℕ) (k : ℕ) → k < length bs → at (set bs k) k ≡ 255
unfolding set at
at-set_same [] k h = ground arith
at-set_same (b ∷ bs) zero h = refl
at-set_same (b ∷ bs) (suc k) h = at-set_same bs k (omega arith)

at-set_other : (bs : List ℕ) (a k : ℕ) → (a == k) ≡ false → at (set bs a) k ≡ at bs k
unfolding set at
at-set_other [] a k h = refl
at-set_other (b ∷ bs) zero zero h = ground arith
at-set_other (b ∷ bs) zero (suc k) h = refl
at-set_other (b ∷ bs) (suc a) zero h = refl
at-set_other (b ∷ bs) (suc a) (suc k) h = at-set_other bs a k (ground arith)

-- Writing 255 at some places.
pub at-paint :
    (places surface : List ℕ) (k : ℕ)
    → k < length surface
    → at (paint places surface) k ≡ (if is_in k places then 255 else at surface k)
unfolding paint
at-paint [] surface k h = refl
at-paint (a ∷ rest) surface k h =
    let ih = at-paint rest (set surface a) k (omega (arith, length-set surface a)) in
    elim (Bool-cases (a == k)) [
      | inl here ↦ elim (Bool-cases (is_in k rest)) [
        | inl again ↦ rw (here, ih, again) refl
        | inr once ↦
            rw (here, ih, once)
              (ap (λ p. at (set surface p) k) ((==_iff a k).0 here) ∙ at-set_same surface k h)
      ]
      | inr other ↦ rw (other, ih, at-set_other surface a k other) refl
    ]
