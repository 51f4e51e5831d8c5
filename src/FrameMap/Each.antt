-- ===== src/FrameMap/Each.antt =====
-- A property of each frame and its index, through the operations of the map.
use ngp_encode_server.Base.{ℕ, length, Option-cases, subst, Bool-cases, inl, inr, ltb, ◌==◌, ◌%◌}
use ngp_encode_server.Base.Exceptions.{Result, ok, throws}
use ngp_encode_server.OrderedMap.{Entries, erase, lookup}
use ngp_encode_server.OrderedMap.Each.{
  Each, EachOf, insert-Each, erase_if-Each, erase-Each, lookup-Each,
}
use ngp_encode_server.FrameMap.{
  FrameMap, max_size, drop_frames_interval, insert, get_delete, drop_older,
}

module _ {ℓ} {A : Type ℓ} (P : ℕ → A → Type 0) where
  pub frame_insert-Each :
      (i : ℕ) (x : A) (m : FrameMap A) → P i x → Each P m.entries → Each P (insert i x m).0.entries
  unfolding insert
  frame_insert-Each i x m h all = elim (Bool-cases (ltb (length m.entries) max_size)) [
    | inl room ↦ rw room (insert-Each P i x m.entries h all)
    | inr full ↦ rw full all
  ]

  drop_older-Each : (i : ℕ) (m : Entries A) → Each P m → Each P (drop_older i m)
  unfolding drop_older
  drop_older-Each i m all = elim (Bool-cases (i % drop_frames_interval == 0)) [
    | inl due ↦ rw due (erase_if-Each P (λ key. ltb key i) m all)
    | inr not_due ↦ rw not_due all
  ]

  abbrev pub Delivers : ℕ → Result A → Type 0
  Delivers i (ok x) = P i x
  Delivers i (throws e) = Unit

  -- What get_delete leaves, and what it returns.
  pub get_delete-Each :
      (i : ℕ) (m : FrameMap A)
      → Each P m.entries
      → Each P (get_delete i m).0.entries × Delivers i (get_delete i m).1
  unfolding get_delete
  get_delete-Each i m all = elim (Option-cases (lookup i m.entries)) [
    | inl missing ↦ rw (missing, get_delete, Each) (all, tt)
    | inr (x, found) ↦
        let left = drop_older-Each i (erase i m.entries) (erase-Each P i m.entries all) in
        let it = subst (EachOf P i) found (lookup-Each P i m.entries all) in
        rw (found, get_delete, Each) (left, it)
  ]
