-- ===== src/OrderedMap/Each.antt =====
-- A property of each entry, key and value, through the operations of the map.
use ngp_encode_server.Base.{
  ℕ, ◌≡◌, [], ◌∷◌, Option, none, some, Bool-cases, inl, inr, Bool, subst, ltb, ◌==◌, arith,
}
use ngp_encode_server.OrderedMap.{Entries, lookup, insert, erase_if, erase}

module _ {ℓ} {A : Type ℓ} (P : ℕ → A → Type 0) where
  abbrev pub Each : Entries A → Type 0
  Each [] = Unit
  Each ((j, w) ∷ m) = P j w × Each m

  abbrev pub EachOf : ℕ → Option A → Type 0
  EachOf k none = Unit
  EachOf k (some x) = P k x

  pub insert-Each : (k : ℕ) (v : A) (m : Entries A) → P k v → Each m → Each (insert k v m)
  unfolding insert
  insert-Each k v [] h all = (h, tt)
  insert-Each k v ((j, w) ∷ m) h all = elim (Bool-cases (ltb k j)) [
    | inl e ↦ rw e (h, all)
    | inr e ↦ elim (Bool-cases (k == j)) [
      | inl same ↦ rw (e, same) all
      | inr other ↦ rw (e, other) (all.0, insert-Each k v m h all.1)
    ]
  ]

  pub erase_if-Each : (p : ℕ → Bool) (m : Entries A) → Each m → Each (erase_if p m)
  unfolding erase_if
  erase_if-Each p [] all = tt
  erase_if-Each p ((j, w) ∷ m) all = elim (Bool-cases (p j)) [
    | inl gone ↦ rw gone (erase_if-Each p m all.1)
    | inr kept ↦ rw kept (all.0, erase_if-Each p m all.1)
  ]

  pub erase-Each : (k : ℕ) (m : Entries A) → Each m → Each (erase k m)
  unfolding erase
  erase-Each k m all = erase_if-Each (λ j. j == k) m all

  pub lookup-Each : (k : ℕ) (m : Entries A) → Each m → EachOf k (lookup k m)
  unfolding lookup
  lookup-Each k [] all = tt
  lookup-Each k ((j, w) ∷ m) all = elim (Bool-cases (j == k)) [
    | inl same ↦ let eq : j ≡ k = ground arith in rw same (subst (λ i. P i w) eq all.0)
    | inr other ↦ rw other (lookup-Each k m all.1)
  ]
