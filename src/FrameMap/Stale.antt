-- ===== src/FrameMap/Stale.antt =====
-- A map full of frames that are older than the index in request. `send_frame_thread` (src/encode.cpp)
-- asks for rising indices and skips one that times out; the cleanup runs in a successful
-- `get_delete` only.
use ngp_encode_server.Base.{
  ℕ, zero, suc, ◌+◌, ◌≤◌, ◌<◌, ◌≡◌, refl, ap, List, [], ◌∷◌, Option, none, some, arith, ltb, map,
  ltb, true, length,
}
use ngp_encode_server.Base.Exceptions.{Result, ok, throws, lock_timeout}
use ngp_encode_server.OrderedMap.{lookup, IsBelow}
use ngp_encode_server.OrderedMap.Order.{
  IsBelow-mono, lookup_above, insert-IsBelow, length-insert_new,
}
use ngp_encode_server.OrderedMap
use ngp_encode_server.FrameMap.{FrameMap, max_size, insert, get_delete}

pub data Call {ℓ} (A : Type ℓ) : Type ℓ where
  inserts : ℕ → A → Call A
  gets : ℕ → Call A

module _ {ℓ} {A : Type ℓ} where
  abbrev returns_none : FrameMap A × Result (Unit {0}) → FrameMap A × Result (Option A)
  returns_none (m, ok _) = (m, ok none)
  returns_none (m, throws e) = (m, throws e)

  abbrev returns_some : FrameMap A × Result A → FrameMap A × Result (Option A)
  returns_some (m, ok x) = (m, ok (some x))
  returns_some (m, throws e) = (m, throws e)

  pub step : FrameMap A → Call A → FrameMap A × Result (Option A)
  step m (inserts i x) = returns_none (insert i x m)
  step m (gets i) = returns_some (get_delete i m)

  -- The map after the calls, and what each returned.
  pub run : FrameMap A → List (Call A) → FrameMap A × List (Result (Option A))
  run m [] = (m, [])
  run m (c ∷ cs) = let (m', r) = step m c in let (m'', rs) = run m' cs in (m'', r ∷ rs)

  -- The calls ask for no index below `n`.
  abbrev pub AsksFrom : ℕ → List (Call A) → Type 0
  AsksFrom n [] = Unit
  AsksFrom n (inserts i x ∷ cs) = AsksFrom n cs
  AsksFrom n (gets i ∷ cs) = (n ≤ i) × AsksFrom n cs

  step_stale_insert :
      (m : FrameMap A) (i : ℕ) (x : A)
      → length m.entries ≡ max_size
      → step m (inserts i x) ≡ (m, throws lock_timeout)
  unfolding step insert
  step_stale_insert m i x full = rw full

  step_stale_get :
      (n : ℕ) (m : FrameMap A) (i : ℕ)
      → IsBelow n m.entries
      → n ≤ i
      → step m (gets i) ≡ (m, throws lock_timeout)
  unfolding step get_delete
  step_stale_get n m i old le = rw (lookup_above n i m.entries old le, get_delete)

  -- Once the map is full of frames older than `n`, and no index below `n` is asked for any more, no
  -- call succeeds ever again, insertions included: each throws LockTimeout and changes nothing.
  pub run_stale :
      (n : ℕ) (m : FrameMap A) (cs : List (Call A))
      → length m.entries ≡ max_size
      → IsBelow n m.entries
      → AsksFrom n cs
      → run m cs ≡ (m, map (λ _. throws lock_timeout) cs)
  unfolding run
  run_stale n m [] full old from = refl
  run_stale n m (inserts i x ∷ cs) full old from =
      rw (step_stale_insert m i x full, run_stale n m cs full old from)
  run_stale n m (gets i ∷ cs) full old from =
      rw (step_stale_get n m i old from.0, run_stale n m cs full old from.1)

  -- Each of `n` indices from `k` on is asked for before its frame comes.
  pub late_frames : (ℕ → A) → ℕ → ℕ → List (Call A)
  late_frames frame zero k = []
  late_frames frame (suc n) k = gets k ∷ inserts k (frame k) ∷ late_frames frame n (suc k)

  record Holds (m : FrameMap A) (count bound : ℕ) : Type 0 where
    size : length m.entries ≡ count
    older : IsBelow bound m.entries

  step_late :
      (frame : ℕ → A) (k : ℕ) (m : FrameMap A)
      → IsBelow k m.entries
      → length m.entries < max_size
      → (step (step m (gets k)).0 (inserts k (frame k))).0
        ≡ record { entries = OrderedMap.insert k (frame k) m.entries }
  unfolding step insert get_delete
  step_late frame k m old room =
      let fits : ltb (length m.entries) max_size ≡ true = ground arith in
      rw (lookup_above k k m.entries old (omega arith), get_delete, fits)

  run_late :
      (frame : ℕ → A) (n k : ℕ) (m : FrameMap A)
      → IsBelow k m.entries
      → length m.entries + n ≤ max_size
      → Holds (run m (late_frames frame n k)).0 (length m.entries + n) (k + n)
  unfolding run late_frames
  run_late frame zero k m old room = record {
    size = omega arith;
    older = IsBelow-mono m.entries (omega arith) old;
  }
  run_late frame (suc n) k m old room =
      let m' : FrameMap A = record { entries = OrderedMap.insert k (frame k) m.entries } in
      let grown =
        length-insert_new k (frame k) m.entries (lookup_above k k m.entries old (omega arith)) in
      let older =
        insert-IsBelow (suc k) k (frame k) m.entries (omega arith)
          (IsBelow-mono m.entries (omega arith) old) in
      let rest = run_late frame n (suc k) m' older (omega arith) in
      let same : (run m (late_frames frame (suc n) k)).0
          ≡ (run m' (late_frames frame n (suc k))).0 =
        ap (λ s. (run s (late_frames frame n (suc k))).0) (step_late frame k m old (omega arith)) in
      rw same (record {
        size = omega (arith, rest.size);
        older = IsBelow-mono _ (omega arith) rest.older;
      })

  abbrev pub empty : FrameMap A
  empty = record { entries = [] }

  -- It is enough that the first `max_size` frames each come after the sender has given up on them:
  -- from then on, whatever frames are inserted and whatever later indices are asked for, every call
  -- throws LockTimeout and the map keeps those frames.
  pub late_frames_jam :
      (frame : ℕ → A) (cs : List (Call A))
      → AsksFrom max_size cs
      → let m = (run empty (late_frames frame max_size 0)).0 in
        run m cs ≡ (m, map (λ _. throws lock_timeout) cs)
  late_frames_jam frame cs from =
      let h = run_late frame max_size 0 empty tt (omega arith) in
      run_stale max_size _ cs h.size h.older from
