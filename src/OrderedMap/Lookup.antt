-- ===== src/OrderedMap/Lookup.antt =====
-- What each operation does to every key.
use ngp_encode_server.Base.{
  ℕ, ◌≡◌, refl, Bool, [], ◌∷◌, none, some, arith, ltb, ◌==◌, if◌then◌else◌, Bool-cases, inl, inr,
  true, false,
}
use mathlib.Core.Option.{get_or}
use ngp_encode_server.OrderedMap.{Entries, lookup, insert, erase_if, erase, IsSorted}
use ngp_encode_server.OrderedMap.Order.{lookup_below, IsAbove-IsSorted}

module _ {ℓ} {A : Type ℓ} where
  -- A new key gets the new value; a key that is there keeps its own.
  pub lookup-insert :
      (j k : ℕ) (v : A) (m : Entries A)
      → IsSorted m
      → lookup j (insert k v m) ≡ (if k == j then some (get_or (lookup k m) v) else lookup j m)
  unfolding lookup insert
  lookup-insert j k v [] s = refl
  lookup-insert j k v ((i, w) ∷ m) s = elim (Bool-cases (ltb k i)) [
    | inl before ↦
        let other : (i == k) ≡ false = ground arith in
        rw (before, other, lookup_below k i m s (ground arith))
    | inr after ↦ elim (Bool-cases (k == i)) [
      | inl same ↦
          let back : (i == k) ≡ true = ground arith in
          let tests : (i == j) ≡ (k == j) = ground arith in
          rw (after, same, back, tests) (elim (Bool-cases (k == j)) [ inl e ↦ rw e | inr e ↦ rw e ])
      | inr other ↦
          let back : (i == k) ≡ false = ground arith in
          rw (after, other, back, lookup-insert j k v m (IsAbove-IsSorted i m s))
            (elim (Bool-cases (i == j)) [
              | inl here ↦ let apart : (k == j) ≡ false = ground arith in rw (here, apart)
              | inr there ↦ rw there
            ])
    ]
  ]

  pub lookup-erase_if :
      (p : ℕ → Bool) (j : ℕ) (m : Entries A)
      → lookup j (erase_if p m) ≡ (if p j then none else lookup j m)
  unfolding lookup erase_if
  lookup-erase_if p j [] = ground arith
  lookup-erase_if p j ((i, w) ∷ m) = ground (arith, lookup-erase_if p j m)

  pub lookup-erase :
      (k j : ℕ) (m : Entries A) → lookup j (erase k m) ≡ (if j == k then none else lookup j m)
  unfolding erase
  lookup-erase k j m = lookup-erase_if (λ i. i == k) j m
