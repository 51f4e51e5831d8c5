-- ===== src/Main/Running/Rounds.antt =====
-- The rounds of the two threads of an eye keep its frames on their way.
use mathlib.Core.Option.{none-ne-some}
use mathlib.Core.List.{nil≢cons, head-eq_of_cons-eq, tail-eq_of_cons-eq}
use ngp_encode_server.Base.{
  ℕ, suc, ◌+◌, ◌%◌, ◌^◌, ◌<◌, ◌≡◌, refl, sym, subst, ap, ◌∙◌, List, [], ◌∷◌, ◌++◌, map, none, some,
  Bool, true, false, ◌⊎◌, inl, inr, Bool-cases, ==_iff, ◌==◌, arith, append_assoc,
}
use ngp_encode_server.Base.Exceptions.{ok}
use ngp_encode_server.Client.{FrameRequest}
use ngp_encode_server.Client.Concurrent.Asked.{IsAsked}
use ngp_encode_server.Encode.{Eye, End, next, Processing, Sending, process_round, send_round}
use ngp_encode_server.Encode.Overlay.{Texts}
use ngp_encode_server.Encode.Process.{after_process, process_round_lem}
use ngp_encode_server.Encode.Send.{send_round_lem}
use ngp_encode_server.Encode.Pipeline.Reorder.{InList}
use ngp_encode_server.FrameMap.{FrameMap, IsValid, insert, get_delete}
use ngp_encode_server.FrameMap.View.{view, has_room, insert-view, get_delete-view, takes_out}
use ngp_encode_server.RenderedFrame.{RenderedFrame}
use ngp_encode_server.Main.Running.Flow.{Flows, handed, handed_below, InList-split}

module _ {ℓ} {F : Type ℓ} (side : Bool) (g : ℕ → RenderedFrame F) (stamp : ℕ → Texts F) where
  -- What the map is after the frame of index `k` was filed in it.
  record Files (k : ℕ) (m m' : FrameMap (RenderedFrame F)) : Type ℓ where
    filed_ok : (insert k (handed side g stamp k) m).1 ≡ ok tt
    still_valid : IsValid m'
    here : view m' k ≡ some (handed side g stamp k)
    there : (j : ℕ) → (k == j) ≡ false → view m' j ≡ view m j

  file-Files :
      (k : ℕ) (m : FrameMap (RenderedFrame F))
      → IsValid m
      → has_room m ≡ true
      → (view m k ≡ none) ⊎ (view m k ≡ some (handed side g stamp k))
      → Files k m (insert k (handed side g stamp k) m).0
  file-Files k m valid room old =
      let (valid', result, sees) = insert-view k (handed side g stamp k) m valid in
      let self : (k == k) ≡ true = ground arith in
      record {
        filed_ok = result ∙ rw room refl;
        still_valid = valid';
        here = elim old [
          | inl e ↦ sees k ∙ rw (room, self, e) refl
          | inr e ↦ sees k ∙ rw (room, self, e) refl
        ];
        there = λ j other. sees j ∙ rw (room, other) refl;
      }

  -- A frame that is filed is handed on later; the others stay.
  Files-kept :
      (k j : ℕ) (m m' : FrameMap (RenderedFrame F))
      → Files k m m'
      → view m j ≡ some (handed side g stamp j)
      → view m' j ≡ some (handed side g stamp j)
  Files-kept k j m m' w e = elim (Bool-cases (k == j)) [
    | inl same ↦ subst (λ i. view m' i ≡ some (handed side g stamp i)) ((==_iff k j).0 same) w.here
    | inr other ↦ w.there j other ∙ e
  ]

  process_front :
      (drawn k : ℕ) (ks : List ℕ) (pending : List (FrameRequest F)) (p : Processing)
      (queue rest : List (RenderedFrame F)) (e : Eye F)
      → ((i : ℕ) → (g i).frame_response.index ≡ i)
      → (v : Flows side g stamp drawn queue pending e) → v.waiting ≡ k ∷ ks
      → rest ≡ map g ks
      → Files k e.encode_queue (after_process (stamp k) p (g k) rest e).encode_queue
      → Flows side g stamp drawn rest pending (after_process (stamp k) p (g k) rest e)
  process_front drawn k ks pending p queue rest e indexed v front tail w =
      let m' = (after_process (stamp k) p (g k) rest e).encode_queue in
      let lies : (i : ℕ) → InList i (k ∷ ks) → i < drawn =
        λ i h. v.known i (inl (subst (InList i) (sym front) h)) in
      record {
        done = v.done ++ k ∷ [];
        waiting = ks;
        queued = tail;
        covers = λ i h.
            subst (λ is. InList i is ⊎ IsAsked side i pending)
              (ap (λ ws. v.done ++ ws) front ∙ sym (append_assoc v.done (k ∷ []) ks))
              (v.covers i h);
        known = λ i h. elim h [ inl a ↦ lies i (inr a) | inr b ↦ v.known i (inr b) ];
        kept = λ i h ge. elim (InList-split i v.done (k ∷ []) h) [
          | inl a ↦ Files-kept k i e.encode_queue m' w (v.kept i a ge)
          | inr (inl this) ↦ subst (λ j. view m' j ≡ some (handed side g stamp j)) (sym this) w.here
          | inr (inr nothing) ↦ elim nothing [ ]
        ];
        own = λ j. elim (Bool-cases (k == j)) [
          | inl same ↦ inr (
              subst (λ i. (view m' i ≡ some (handed side g stamp i)) × (i < drawn))
                ((==_iff k j).0 same) (w.here, lies k (inl refl)))
          | inr other ↦ elim (v.own j) [
            | inl e ↦ inl (w.there j other ∙ e)
            | inr (e, small) ↦ inr (w.there j other ∙ e, small)
          ]
        ];
        valid = w.still_valid;
        behind = v.behind;
        scene = v.scene;
        depth = v.depth;
      }

  -- The eye with the queue it shares with the client threads.
  abbrev pub with_queue : List (RenderedFrame F) → Eye F → Eye F
  with_queue queue e = record e { frame_queue = record { queue = queue } }

  -- What a round of the processor comes to.
  abbrev pub Moves : ℕ → List (RenderedFrame F) → List (FrameRequest F) → End × Eye F → Type ℓ
  Moves drawn rest pending (end, e) =
      (end ≡ next) × (e.frame_queue.queue ≡ rest) × Flows side g stamp drawn rest pending e

  module _ (indexed : (i : ℕ) → (g i).frame_response.index ≡ i)
      (fresh : (i : ℕ) → (g i).converted ≡ false) where
    process_waiting :
        (drawn : ℕ) (ws : List ℕ) (pending : List (FrameRequest F)) (p : Processing)
        (f : RenderedFrame F) (rest : List (RenderedFrame F)) (e : Eye F)
        → (v : Flows side g stamp drawn (f ∷ rest) pending e) → v.waiting ≡ ws
        → f ∷ rest ≡ map g ws
        → has_room e.encode_queue ≡ true
        → p.scene_ok ≡ true
        → p.depth_ok ≡ true
        → Moves drawn rest pending
            (process_round (stamp f.frame_response.index) p (with_queue (f ∷ rest) e))
    process_waiting drawn [] pending p f rest e v waits queued room scene_ok depth_ok =
        absurd (nil≢cons (sym queued))
    process_waiting drawn (k ∷ ks) pending p f rest e v waits queued room scene_ok depth_ok =
        let this : f ≡ g k = head-eq_of_cons-eq queued in
        let tail : rest ≡ map g ks = tail-eq_of_cons-eq queued in
        let e1 = with_queue (f ∷ rest) e in
        let files =
          file-Files k e.encode_queue v.valid room
            (elim (v.own k) [ inl e ↦ inl e | inr (e, _) ↦ inr e ]) in
        let files' =
          subst (λ i. Files k e.encode_queue (insert i (handed side g stamp k) e.encode_queue).0)
            (sym (indexed k)) files in
        let filed_ok =
          subst (λ i. (insert i (handed side g stamp k) e.encode_queue).1 ≡ ok tt) (sym (indexed k))
            files.filed_ok in
        let runs =
          process_round_lem (stamp k) p (g k) rest e1 (ap (λ h. h ∷ rest) this) (fresh k) scene_ok
            depth_ok filed_ok in
        let stamped : stamp f.frame_response.index ≡ stamp k =
          ap stamp (ap (λ h. h.frame_response.index) this ∙ indexed k) in
        subst (Moves drawn rest pending) (sym (ap (λ t. process_round t p e1) stamped ∙ runs)) (
          refl,
          refl,
          process_front drawn k ks pending p (f ∷ rest) rest e indexed v waits tail files',
        )

    -- A round of the processor.
    pub process-Flows :
        (drawn : ℕ) (pending : List (FrameRequest F)) (p : Processing) (f : RenderedFrame F)
        (queue rest : List (RenderedFrame F)) (e : Eye F)
        → Flows side g stamp drawn queue pending e
        → queue ≡ f ∷ rest
        → has_room e.encode_queue ≡ true
        → p.scene_ok ≡ true
        → p.depth_ok ≡ true
        → Moves drawn rest pending
            (process_round (stamp f.frame_response.index) p (with_queue queue e))
    process-Flows drawn pending p f queue rest e v front room scene_ok depth_ok =
        let u = subst (λ q. Flows side g stamp drawn q pending e) front v in
        subst
          (λ q.
            Moves drawn rest pending
              (process_round (stamp f.frame_response.index) p (with_queue q e)))
          (sym front)
          (process_waiting drawn u.waiting pending p f rest e u refl u.queued room scene_ok
            depth_ok)

  -- A round of the sender.
  pub send-Flows :
      (drawn : ℕ) (queue : List (RenderedFrame F)) (pending : List (FrameRequest F)) (a : Sending)
      (f : RenderedFrame F) (e : Eye F)
      → Flows side g stamp drawn queue pending e
      → drawn < 2 ^ 64
      → view e.encode_queue e.frame_index ≡ some f
      → a.scene_wraps ≡ true
      → a.depth_wraps ≡ true
      → Moves drawn queue pending (send_round a (with_queue queue e))
  send-Flows drawn queue pending a f e v small there scene_wraps depth_wraps =
      let k = e.frame_index in
      let (valid', _, left) = get_delete-view k e.encode_queue v.valid in
      let m' = (get_delete k e.encode_queue).0 in
      let mine : (view e.encode_queue k ≡ some (handed side g stamp k)) × (k < drawn) =
        elim (v.own k) [ inl e ↦ absurd (none-ne-some f (sym e ∙ there)) | inr own ↦ own ] in
      let (is_mine, below) = mine in
      let next_index : (k + 1) % 2 ^ 64 ≡ suc k = omega (arith, below, small) in
      let runs =
        send_round_lem a (handed side g stamp k) (with_queue queue e) v.valid is_mine scene_wraps
          depth_wraps in
      rw runs (
        refl,
        refl,
        record {
          done = v.done;
          waiting = v.waiting;
          queued = v.queued;
          covers = v.covers;
          known = v.known;
          kept = λ i h ge.
              let stays : takes_out k i ≡ false = ground (arith, next_index) in
              left i ∙ rw (is_mine, stays) (v.kept i h (omega (arith, ge, next_index)));
          own = λ j. elim (Bool-cases (takes_out k j)) [
            | inl out ↦ inl (left j ∙ rw (is_mine, out) refl)
            | inr stays ↦ elim (v.own j) [
              | inl e ↦ inl (left j ∙ rw (is_mine, stays) e)
              | inr (e, small) ↦ inr (left j ∙ rw (is_mine, stays) e, small)
            ]
          ];
          valid = valid';
          behind = omega (arith, next_index, below);
          scene =
              ap (λ fs. handed side g stamp k ∷ fs) v.scene
              ∙ ap (handed_below side g stamp) (sym next_index);
          depth =
              ap (λ fs. handed side g stamp k ∷ fs) v.depth
              ∙ ap (handed_below side g stamp) (sym next_index);
        },
      )
