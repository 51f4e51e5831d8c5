-- ===== src/FrameMap/View.antt =====
-- The map as a partial function from frame indices to frames.
use mathlib.Core.Option.{get_or}
use ngp_encode_server.Base.{
  ℕ, ◌+◌, ◌≤◌, [], ◌%◌, ◌≡◌, inl, inr, refl, Bool, ◌&&◌, ◌||◌, true, false, Option, none, some,
  arith, ltb, ◌==◌, if◌then◌else◌, length, Bool-cases, Option-cases,
}
use ngp_encode_server.Base.Exceptions.{Result, ok, throws, lock_timeout}
use ngp_encode_server.OrderedMap.{Entries, IsSorted, lookup, erase}
use ngp_encode_server.OrderedMap.Order.{
  insert-IsSorted, erase-IsSorted, length-erase-le, erase_if-IsSorted, length-insert-le,
  length-erase_if-le,
}
use ngp_encode_server.OrderedMap.Lookup.{lookup-insert, lookup-erase, lookup-erase_if}
use ngp_encode_server.FrameMap.{
  FrameMap, max_size, drop_frames_interval, insert, drop_older, get_delete, IsValid,
}

-- Which keys a `get_delete` of `i` takes out: `i`, and at the interval all that are older.
abbrev pub takes_out : ℕ → ℕ → Bool
takes_out i j = (j == i) || ((i % drop_frames_interval == 0) && ltb j i)

if_or {ℓ} :
    {A : Type ℓ} (a b : Bool) (x : Option A)
    → (if b then none else if a then none else x) ≡ (if a || b then none else x)
if_or true true x = refl
if_or true false x = refl
if_or false true x = refl
if_or false false x = refl

module _ {ℓ} {A : Type ℓ} where
  unfoldable pub view : FrameMap A → ℕ → Option A
  view m j = lookup j m.entries

  insert-IsValid : (i : ℕ) (x : A) (m : FrameMap A) → IsValid m → IsValid (insert i x m).0
  unfolding insert
  insert-IsValid i x m v =
      ground (arith, insert-IsSorted i x m.entries v.sorted, length-insert-le i x m.entries)

  pub length-insert :
      (i : ℕ) (x : A) (m : FrameMap A) → length (insert i x m).0.entries ≤ length m.entries + 1
  unfolding insert
  length-insert i x m = ground (arith, length-insert-le i x m.entries)

  drop_older-IsSorted : (i : ℕ) (m : Entries A) → IsSorted m → IsSorted (drop_older i m)
  unfolding drop_older
  drop_older-IsSorted i m s = ground (arith, erase_if-IsSorted (λ k. ltb k i) m s)

  length-drop_older-le : (i : ℕ) (m : Entries A) → length (drop_older i m) ≤ length m
  unfolding drop_older
  length-drop_older-le i m = ground (arith, length-erase_if-le (λ k. ltb k i) m)

  lookup-drop_older :
      (i j : ℕ) (m : Entries A)
      → lookup j (drop_older i m)
        ≡ (if (i % drop_frames_interval == 0) && ltb j i then none else lookup j m)
  unfolding drop_older
  lookup-drop_older i j m = elim (Bool-cases (i % drop_frames_interval == 0)) [
    | inl e ↦ rw e (lookup-erase_if (λ k. ltb k i) j m)
    | inr e ↦ rw e
  ]

  get_delete-IsValid : (i : ℕ) (m : FrameMap A) → IsValid m → IsValid (get_delete i m).0
  unfolding get_delete
  get_delete-IsValid i m v = ground (
    arith,
    erase-IsSorted i m.entries v.sorted,
    drop_older-IsSorted i (erase i m.entries),
    length-erase-le i m.entries,
    length-drop_older-le i (erase i m.entries),
  )

  abbrev pub or_timeout : Option A → Result A
  or_timeout none = throws lock_timeout
  or_timeout (some x) = ok x

  abbrev pub is_some : Option A → Bool
  is_some none = false
  is_some (some x) = true

  abbrev pub has_room : FrameMap A → Bool
  has_room m = ltb (length m.entries) max_size

  -- On a valid map `insert` leaves a valid map. With room it succeeds and the key has a frame then,
  -- the new one unless it had one before; without room it throws LockTimeout. Every other key keeps
  -- what it had, and without room so does the key.
  pub insert-view :
      (i : ℕ) (x : A) (m : FrameMap A)
      → IsValid m
      → IsValid (insert i x m).0
        × ((insert i x m).1 ≡ (if has_room m then ok tt else throws lock_timeout))
        × ((j : ℕ)
            → view (insert i x m).0 j
              ≡ (if has_room m && (i == j) then some (get_or (view m i) x) else view m j))
  unfolding insert view
  insert-view i x m v = elim (Bool-cases (has_room m)) [
    | inl e ↦ (insert-IsValid i x m v, rw e, λ j. rw e (lookup-insert j i x m.entries v.sorted))
    | inr e ↦ (insert-IsValid i x m v, rw e, λ j. rw e)
  ]

  -- On a valid map `get_delete` leaves a valid map. It returns the frame of the key, or throws
  -- LockTimeout if there is none. Only if there is one are keys taken out: the key itself, and at a
  -- multiple of the interval each older one. Every other key keeps what it had.
  pub get_delete-view :
      (i : ℕ) (m : FrameMap A)
      → IsValid m
      → IsValid (get_delete i m).0
        × ((get_delete i m).1 ≡ or_timeout (view m i))
        × ((j : ℕ)
            → view (get_delete i m).0 j
              ≡ (if is_some (view m i) && takes_out i j then none else view m j))
  unfolding get_delete view
  get_delete-view i m v = elim (Option-cases (lookup i m.entries)) [
    | inl e ↦ (get_delete-IsValid i m v, rw (e, get_delete), λ j. rw (e, get_delete))
    | inr (x, e) ↦ (
      get_delete-IsValid i m v,
      rw (e, get_delete),
      λ j.
          rw (e, get_delete, lookup-drop_older i j (erase i m.entries), lookup-erase i j m.entries)
            (if_or (j == i) ((i % drop_frames_interval == 0) && ltb j i) (lookup j m.entries)),
    )
  ]

  -- A frame inserted under a new index into a map with room is the one that `get_delete` returns,
  -- and of the other frames only those are lost that its cleanup takes out.
  pub get_delete-insert :
      (i : ℕ) (x : A) (m : FrameMap A)
      → IsValid m
      → has_room m ≡ true
      → view m i ≡ none
      → let m' = (insert i x m).0 in
        ((get_delete i m').1 ≡ ok x)
        × ((j : ℕ) → view (get_delete i m').0 j ≡ (if takes_out i j then none else view m j))
  get_delete-insert i x m v room new =
      let m' = (insert i x m).0 in
      let self : (i == i) ≡ true = ground arith in
      let (valid, _, after) = insert-view i x m v in
      let there : view m' i ≡ some x = rw (after i, room, new, self) in
      let (_, result, left) = get_delete-view i m' valid in
      (
        rw (result, there),
        λ j.
            rw (left j, there, after j, room)
              (elim (Bool-cases (i == j)) [
                | inl same ↦ let gone : (j == i) ≡ true = ground arith in rw gone
                | inr other ↦ rw other
              ]),
      )

  pub empty-IsValid : (m : FrameMap A) → m.entries ≡ [] → IsValid m
  empty-IsValid m e = record { sorted = rw e tt; bounded = rw e (omega arith) }

  pub empty-view : (m : FrameMap A) (i : ℕ) → m.entries ≡ [] → view m i ≡ none
  unfolding view lookup
  empty-view m i e = rw e refl
