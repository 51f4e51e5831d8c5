-- ===== src/OrderedMap/Order.antt =====
-- The order of the entries, and their number.
use ngp_encode_server.Base.{
  false, ℕ, ◌+◌, ◌≤◌, ◌<◌, ◌≡◌, refl, ◌==◌, Bool, [], ◌∷◌, none, arith, length,
}
use ngp_encode_server.OrderedMap.{
  Entries, lookup, insert, erase_if, erase, IsAbove, IsSorted, IsBelow, IsBelow,
}

module _ {ℓ} {A : Type ℓ} where
  pub IsAbove-mono : {k l : ℕ} (m : Entries A) → l ≤ k → IsAbove k m → IsAbove l m
  IsAbove-mono [] h s = tt
  IsAbove-mono ((j, w) ∷ m) h s = (omega arith, s.1)

  pub IsAbove-IsSorted : (k : ℕ) (m : Entries A) → IsAbove k m → IsSorted m
  IsAbove-IsSorted k [] s = tt
  IsAbove-IsSorted k ((j, w) ∷ m) s = s.1

  -- A key at or below every bound of the entries is not among them.
  pub lookup_below : (k l : ℕ) (m : Entries A) → IsAbove l m → k ≤ l → lookup k m ≡ none
  unfolding lookup
  lookup_below k l [] s h = refl
  lookup_below k l ((j, w) ∷ m) s h = ground (arith, lookup_below k j m s.1)

  pub insert-IsAbove :
      (l k : ℕ) (v : A) (m : Entries A) → l < k → IsAbove l m → IsAbove l (insert k v m)
  unfolding insert
  insert-IsAbove l k v [] h s = (h, tt)
  insert-IsAbove l k v ((j, w) ∷ m) h s = ground (arith, insert-IsAbove j k v m)

  pub insert-IsSorted : (k : ℕ) (v : A) (m : Entries A) → IsSorted m → IsSorted (insert k v m)
  unfolding insert
  insert-IsSorted k v [] s = tt
  insert-IsSorted k v ((j, w) ∷ m) s = ground (arith, insert-IsAbove j k v m)

  pub erase_if-IsAbove :
      (p : ℕ → Bool) (l : ℕ) (m : Entries A) → IsAbove l m → IsAbove l (erase_if p m)
  unfolding erase_if
  erase_if-IsAbove p l [] s = tt
  erase_if-IsAbove p l ((j, w) ∷ m) s =
      ground (arith, erase_if-IsAbove p j m s.1, IsAbove-mono {k = j} {l = l} (erase_if p m))

  pub erase_if-IsSorted : (p : ℕ → Bool) (m : Entries A) → IsSorted m → IsSorted (erase_if p m)
  unfolding erase_if
  erase_if-IsSorted p [] s = tt
  erase_if-IsSorted p ((j, w) ∷ m) s =
      ground (arith, erase_if-IsAbove p j m s, IsAbove-IsSorted j (erase_if p m))

  pub length-insert-le : (k : ℕ) (v : A) (m : Entries A) → length (insert k v m) ≤ length m + 1
  unfolding insert
  length-insert-le k v [] = omega arith
  length-insert-le k v ((j, w) ∷ m) = ground (arith, length-insert-le k v m)

  pub length-insert_new :
      (k : ℕ) (v : A) (m : Entries A) → lookup k m ≡ none → length (insert k v m) ≡ length m + 1
  unfolding insert lookup
  length-insert_new k v [] h = omega arith
  length-insert_new k v ((j, w) ∷ m) h = ground (arith, length-insert_new k v m)

  pub length-erase_if-le : (p : ℕ → Bool) (m : Entries A) → length (erase_if p m) ≤ length m
  unfolding erase_if
  length-erase_if-le p [] = omega arith
  length-erase_if-le p ((j, w) ∷ m) = ground (arith, length-erase_if-le p m)

  pub erase-IsSorted : (k : ℕ) (m : Entries A) → IsSorted m → IsSorted (erase k m)
  unfolding erase
  erase-IsSorted k = erase_if-IsSorted (λ j. j == k)

  pub length-erase-le : (k : ℕ) (m : Entries A) → length (erase k m) ≤ length m
  unfolding erase
  length-erase-le k = length-erase_if-le (λ j. j == k)

  pub IsBelow-mono : {n l : ℕ} (m : Entries A) → n ≤ l → IsBelow n m → IsBelow l m
  IsBelow-mono [] h b = tt
  IsBelow-mono ((j, w) ∷ m) h b = (omega arith, IsBelow-mono m h b.1)

  -- A key at or above every bound of the entries is not among them.
  pub lookup_above : (n k : ℕ) (m : Entries A) → IsBelow n m → n ≤ k → lookup k m ≡ none
  unfolding lookup
  lookup_above n k [] b h = refl
  lookup_above n k ((j, w) ∷ m) b h =
      let other : (j == k) ≡ false = ground arith in rw other (lookup_above n k m b.1 h)

  pub insert-IsBelow :
      (n k : ℕ) (v : A) (m : Entries A) → k < n → IsBelow n m → IsBelow n (insert k v m)
  unfolding insert
  insert-IsBelow n k v [] h b = (h, tt)
  insert-IsBelow n k v ((j, w) ∷ m) h b = ground (arith, insert-IsBelow n k v m h b.1)
