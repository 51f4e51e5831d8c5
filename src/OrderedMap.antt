-- ===== src/OrderedMap.antt =====
-- std::map with integer keys, as include/base/video/frame_map.h uses it: entries in rising order of
-- their keys. `insert` keeps the entry that a key has already, as std::map::insert does.
pub mod Lookup
pub mod Each
pub mod Order
use ngp_encode_server.Base.{
  ℕ, ◌<◌, Bool, true, false, List, [], ◌∷◌, Option, none, some, ltb, ◌==◌, if◌then◌else◌,
}

abbrev pub Entries {ℓ} : Type ℓ → Type ℓ
Entries A = List (ℕ × A)

module _ {ℓ} {A : Type ℓ} where
  unfoldable pub lookup : ℕ → Entries A → Option A
  lookup k [] = none
  lookup k ((j, w) ∷ m) = if j == k then some w else lookup k m

  unfoldable pub insert : ℕ → A → Entries A → Entries A
  insert k v [] = (k, v) ∷ []
  insert k v ((j, w) ∷ m) =
      let rest = insert k v m in
      if ltb k j then (k, v) ∷ (j, w) ∷ m else if k == j then (j, w) ∷ m else (j, w) ∷ rest

  -- std::erase_if on the keys
  unfoldable pub erase_if : (ℕ → Bool) → Entries A → Entries A
  erase_if p [] = []
  erase_if p ((j, w) ∷ m) = let rest = erase_if p m in if p j then rest else (j, w) ∷ rest

  unfoldable pub erase : ℕ → Entries A → Entries A
  unfolding erase_if
  erase k = erase_if (λ j. j == k)

  -- Every key is above `k`, and the keys rise.
  abbrev pub IsAbove : ℕ → Entries A → Type 0
  IsAbove k [] = Unit
  IsAbove k ((j, w) ∷ m) = (k < j) × IsAbove j m

  abbrev pub IsSorted : Entries A → Type 0
  IsSorted [] = Unit
  IsSorted ((j, w) ∷ m) = IsAbove j m

  -- Every key is below `n`.
  abbrev pub IsBelow : ℕ → Entries A → Type 0
  IsBelow n [] = Unit
  IsBelow n ((j, w) ∷ m) = (j < n) × IsBelow n m
