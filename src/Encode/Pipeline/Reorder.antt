-- ===== src/Encode/Pipeline/Reorder.antt =====
-- Frames that come in any order, back in the order of their indices.
use mathlib.Core.Option.{get_or}
use ngp_encode_server.Base.{
  ℕ, zero, suc, ◌+◌, ◌≤◌, ◌≡◌, refl, sym, subst, ◌∙◌, List, [], ◌∷◌, ◌++◌, map, none, some, true,
  false, ◌==◌, ◌⊎◌, inl, inr, Bool-cases, arith, length, ==_iff, lt→ltb,
}
use ngp_encode_server.Base.Exceptions.{ok}
use ngp_encode_server.FrameMap.{FrameMap, IsValid, insert, max_size}
use ngp_encode_server.FrameMap.View.{view, has_room, insert-view, length-insert}
use ngp_encode_server.RenderedFrame.{RenderedFrame}
use ngp_encode_server.Encode.{Eye, Sending, Processing}
use ngp_encode_server.Encode.Overlay.{Texts}
use ngp_encode_server.Encode.Process.{filed, after_process, process_round_lem}
use ngp_encode_server.Encode.Pipeline.{Step, processes, sends, step, run}

abbrev pub InList : ℕ → List ℕ → Type 0
InList i [] = ⊥
InList i (x ∷ xs) = (i ≡ x) ⊎ InList i xs

pub InList-append : (i : ℕ) (xs ys : List ℕ) → InList i xs → InList i (xs ++ ys)
InList-append i [] ys h = elim h [ ]
InList-append i (x ∷ xs) ys (inl h) = inl h
InList-append i (x ∷ xs) ys (inr h) = inr (InList-append i xs ys h)

pub InList-last : (i : ℕ) (xs : List ℕ) → InList i (xs ++ i ∷ [])
InList-last i [] = inl refl
InList-last i (x ∷ xs) = inr (InList-last i xs)

module _ {ℓ} {F : Type ℓ} (t : Texts F) (g : ℕ → RenderedFrame F) where
  -- `n` frames from index `k` on, the last first, before `sent`.
  abbrev pub played : ℕ → ℕ → List (RenderedFrame F) → List (RenderedFrame F)
  played k zero sent = sent
  played k (suc n) sent = played (suc k) n (filed t (g k) ∷ sent)

  -- The map holds frames of `g` alone, and has room for `room` more.
  pub record IsOwn (room : ℕ) (m : FrameMap (RenderedFrame F)) : Type ℓ where
    pub valid : IsValid m
    pub own : (j : ℕ) → (view m j ≡ none) ⊎ (view m j ≡ some (filed t (g j)))
    pub space : length m.entries + room ≤ max_size

  -- Filing the frame of an index.
  record IsFiledBy (room i : ℕ) (m m' : FrameMap (RenderedFrame F)) : Type ℓ where
    still : IsOwn room m'
    has : view m' i ≡ some (filed t (g i))
    kept : (j : ℕ) → view m j ≡ some (filed t (g j)) → view m' j ≡ some (filed t (g j))

  get_or_own :
      (i : ℕ) (m : FrameMap (RenderedFrame F))
      → (view m i ≡ none) ⊎ (view m i ≡ some (filed t (g i)))
      → get_or (view m i) (filed t (g i)) ≡ filed t (g i)
  get_or_own i m (inl e) = rw e refl
  get_or_own i m (inr e) = rw e refl

  insert-own :
      (room i : ℕ) (m : FrameMap (RenderedFrame F))
      → IsOwn (suc room) m
      → ((insert i (filed t (g i)) m).1 ≡ ok tt) × IsFiledBy room i m (insert i (filed t (g i)) m).0
  insert-own room i m v =
      let (valid, result, sees) = insert-view i (filed t (g i)) m v.valid in
      let space = v.space in
      let has_space : has_room m ≡ true = lt→ltb (length m.entries) max_size (omega arith) in
      let self : (i == i) ≡ true = ground arith in
      let here : view (insert i (filed t (g i)) m).0 i ≡ some (filed t (g i)) =
        sees i ∙ rw (has_space, self, get_or_own i m (v.own i)) refl in
      let same : (j : ℕ)
          → (i == j) ≡ true
          → view (insert i (filed t (g i)) m).0 j ≡ some (filed t (g j)) =
        λ j e.
          subst (λ k. view (insert i (filed t (g i)) m).0 k ≡ some (filed t (g k)))
            ((==_iff i j).0 e) here in
      let there : (j : ℕ) → (i == j) ≡ false → view (insert i (filed t (g i)) m).0 j ≡ view m j =
        λ j other. sees j ∙ rw (has_space, other) refl in
      (
        result ∙ rw has_space refl,
        record {
          still = record {
            valid = valid;
            own = λ j. elim (Bool-cases (i == j)) [
              | inl e ↦ inr (same j e)
              | inr other ↦ elim (v.own j) [
                | inl e ↦ inl (there j other ∙ e)
                | inr e ↦ inr (there j other ∙ e)
              ]
            ];
            space = omega (arith, length-insert i (filed t (g i)) m);
          };
          has = here;
          kept = λ j e. elim (Bool-cases (i == j)) [
            | inl this ↦ same j this
            | inr other ↦ there j other ∙ e
          ];
        },
      )

  -- What the processor's rounds leave, besides the queue.
  pub record IsFilled (is : List ℕ) (e e' : Eye F) : Type ℓ where
    pub valid : IsValid e'.encode_queue
    pub has : (i : ℕ) → InList i is → view e'.encode_queue i ≡ some (filed t (g i))
    pub kept :
        (j : ℕ)
        → view e.encode_queue j ≡ some (filed t (g j))
        → view e'.encode_queue j ≡ some (filed t (g j))
    pub scene_same : e'.to_scene ≡ e.to_scene
    pub depth_same : e'.to_depth ≡ e.to_depth
    pub waits_same : e'.frame_index ≡ e.frame_index

  -- A round of the processor for each frame, then `rest`.
  abbrev pub process_each : Processing → List ℕ → List (Step F) → List (Step F)
  process_each p [] rest = rest
  process_each p (i ∷ is) rest = processes t p ∷ process_each p is rest

  -- As many rounds of the sender.
  abbrev pub send_each : Sending → ℕ → List (Step F)
  send_each a zero = []
  send_each a (suc n) = sends a ∷ send_each a n

  module _ (p : Processing) (indexed : (i : ℕ) → (g i).frame_response.index ≡ i)
      (fresh : (i : ℕ) → (g i).converted ≡ false) (scene_ok : p.scene_ok ≡ true)
      (depth_ok : p.depth_ok ≡ true) where
    process_one :
        (i : ℕ) (rest : List (RenderedFrame F)) (room : ℕ) (e : Eye F) (ss : List (Step F))
        → e.frame_queue.queue ≡ g i ∷ rest
        → IsOwn (suc room) e.encode_queue
        → let e' = after_process t p (g i) rest e in
          (run (processes t p ∷ ss) e ≡ run ss e') × IsFiledBy room i e.encode_queue e'.encode_queue
    unfolding run step
    process_one i rest room e ss front v =
        let (inserts, filed_by) = insert-own room i e.encode_queue v in
        let k = indexed i in
        (
          rw
              (process_round_lem t p (g i) rest e front (fresh i) scene_ok depth_ok
                (subst (λ j. (insert j (filed t (g i)) e.encode_queue).1 ≡ ok tt) (sym k) inserts))
              refl,
          subst (λ j. IsFiledBy room i e.encode_queue (insert j (filed t (g i)) e.encode_queue).0)
              (sym k) filed_by,
        )

    pub process_all :
        (is : List ℕ) (e : Eye F) (ss : List (Step F))
        → e.frame_queue.queue ≡ map g is
        → IsOwn (length is) e.encode_queue
        → (e' : Eye F) × (run (process_each p is ss) e ≡ run ss e') × IsFilled is e e'
    process_all [] e ss front v = (
      e,
      refl,
      record {
        valid = v.valid;
        has = λ i h. elim h [ ];
        kept = λ j h. h;
        scene_same = refl;
        depth_same = refl;
        waits_same = refl;
      },
    )
    process_all (i ∷ is) e ss front v =
        let e1 = after_process t p (g i) (map g is) e in
        let (first, filed_by) =
          process_one i (map g is) (length is) e (process_each p is ss) front v in
        let (e', runs, w) = process_all is e1 ss refl filed_by.still in
        (
          e',
          first ∙ runs,
          record {
            valid = w.valid;
            has = λ j h. elim h [
              | inl here ↦
                  subst (λ k. view e'.encode_queue k ≡ some (filed t (g k))) (sym here)
                    (w.kept i filed_by.has)
              | inr there ↦ w.has j there
            ];
            kept = λ j h. w.kept j (filed_by.kept j h);
            scene_same = w.scene_same;
            depth_same = w.depth_same;
            waits_same = w.waits_same;
          },
        )
