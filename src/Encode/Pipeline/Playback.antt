-- ===== src/Encode/Pipeline/Playback.antt =====
-- The sender plays the map back in the order of the indices.
use ngp_encode_server.Base.{
  ℕ, zero, suc, ◌+◌, ◌^◌, ◌≤◌, ◌<◌, ◌≡◌, refl, sym, subst, ap, ◌∙◌, List, [], map, some, true,
  false, inl, arith, length,
}
use ngp_encode_server.FrameMap.{FrameMap, IsValid, get_delete, max_size}
use ngp_encode_server.FrameMap.View.{view, get_delete-view, takes_out, empty-view, empty-IsValid}
use ngp_encode_server.RenderedFrame.{RenderedFrame}
use ngp_encode_server.Encode.{Eye, next, Sending, Processing}
use ngp_encode_server.Encode.Overlay.{Texts}
use ngp_encode_server.Encode.Process.{filed}
use ngp_encode_server.Encode.Send.{after, send_round_lem}
use ngp_encode_server.Encode.Pipeline.{step, run}
use ngp_encode_server.Encode.Pipeline.Reorder.{
  InList, played, IsOwn, process_each, send_each, process_all,
}

module _ {ℓ} {F : Type ℓ} (t : Texts F) (g : ℕ → RenderedFrame F) (a : Sending) where
  -- The map holds the `n` frames from index `k` on.
  abbrev HoldsFrom : ℕ → ℕ → FrameMap (RenderedFrame F) → Type ℓ
  HoldsFrom k n m = (j : ℕ) → k ≤ j → j < k + n → view m j ≡ some (filed t (g j))

  -- Taking out the first leaves the others.
  HoldsFrom-next :
      (k n : ℕ) (m : FrameMap (RenderedFrame F))
      → IsValid m
      → HoldsFrom k (suc n) m
      → HoldsFrom (suc k) n (get_delete k m).0
  HoldsFrom-next k n m valid holds j ge lt =
      let (_, _, left) = get_delete-view k m valid in
      let stays : takes_out k j ≡ false = ground arith in
      left j ∙ rw (holds k (omega arith) (omega arith), stays) (holds j (omega arith) (omega arith))

  module _ (scene_wraps : a.scene_wraps ≡ true) (depth_wraps : a.depth_wraps ≡ true) where
    send_all_from :
        (n k : ℕ) (e : Eye F)
        → e.frame_index ≡ k
        → k + n < 2 ^ 64
        → IsValid e.encode_queue
        → HoldsFrom k n e.encode_queue
        → let (end, e') = run (send_each t g a n) e in
          (end ≡ next)
          × (e'.to_scene ≡ played t g k n e.to_scene)
          × (e'.to_depth ≡ played t g k n e.to_depth)
          × (e'.frame_index ≡ k + n)
    unfolding run step
    send_all_from zero k e waits small valid holds = (refl, refl, refl, waits ∙ omega arith)
    send_all_from (suc n) k e waits small valid holds =
        let f = filed t (g k) in
        let e1 =
          after a f (record e { encode_queue = (get_delete e.frame_index e.encode_queue).0 }) in
        let there : view e.encode_queue e.frame_index ≡ some f =
          subst (λ i. view e.encode_queue i ≡ some f) (sym waits)
            (holds k (omega arith) (omega arith)) in
        let (valid', _, _) = get_delete-view e.frame_index e.encode_queue valid in
        let (ends, scene, depth, index) =
          send_all_from n (suc k) e1 (omega arith) (omega arith) valid' (
            subst (λ i. HoldsFrom (suc k) n (get_delete i e.encode_queue).0) (sym waits)
              (HoldsFrom-next k n e.encode_queue valid holds)) in
        rw (send_round_lem a f e valid there scene_wraps depth_wraps)
          (ends, scene, depth, index ∙ omega arith)

-- Frames that arrive in any order leave in the order of their indices. Let the queue of an eye hold
-- frames of at most a hundred indices, in any order, each frame under its own index and not
-- converted yet, let the map be empty, and let every index of the n that the sender waits for next be
-- among them. After a round of the processor for each frame and n rounds of the sender, both encoders
-- have been handed exactly the n frames, in the order of their indices, and the sender waits for the
-- index behind them. libswscale converts the images and their AVFrames can be made.
pub frames_reordered {ℓ} :
    {F : Type ℓ} (t : Texts F) (g : ℕ → RenderedFrame F) (p : Processing) (a : Sending)
    (is : List ℕ) (n : ℕ) (e : Eye F)
    → ((i : ℕ) → (g i).frame_response.index ≡ i)
    → ((i : ℕ) → (g i).converted ≡ false)
    → p.scene_ok ≡ true
    → p.depth_ok ≡ true
    → a.scene_wraps ≡ true
    → a.depth_wraps ≡ true
    → e.frame_queue.queue ≡ map g is
    → e.encode_queue.entries ≡ []
    → length is ≤ max_size
    → e.frame_index + n < 2 ^ 64
    → ((i : ℕ) → e.frame_index ≤ i → i < e.frame_index + n → InList i is)
    → let (end, e') = run (process_each t g p is (send_each t g a n)) e in
      (end ≡ next)
      × (e'.to_scene ≡ played t g e.frame_index n e.to_scene)
      × (e'.to_depth ≡ played t g e.frame_index n e.to_depth)
      × (e'.frame_index ≡ e.frame_index + n)
frames_reordered t g p a is n e indexed fresh scene_ok depth_ok wraps wraps' queued empty fits small
      all =
    let own : IsOwn t g (length is) e.encode_queue = record {
      valid = empty-IsValid e.encode_queue empty;
      own = λ j. inl (empty-view e.encode_queue j empty);
      space = rw empty (omega arith);
    } in
    let (e', runs, v) =
      process_all t g p indexed fresh scene_ok depth_ok is e (send_each t g a n) queued own in
    let (ends, scene, depth, index) =
      send_all_from t g a wraps wraps' n e.frame_index e' v.waits_same small v.valid
        (λ j ge lt. v.has j (all j ge lt)) in
    rw runs (
      ends,
      scene ∙ ap (played t g e.frame_index n) v.scene_same,
      depth ∙ ap (played t g e.frame_index n) v.depth_same,
      index,
    )
