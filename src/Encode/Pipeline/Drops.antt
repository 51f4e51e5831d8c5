-- ===== src/Encode/Pipeline/Drops.antt =====
-- A frame that finds the map full.
mod Tests
use mathlib.Core.Bool.{false≢true}
use ngp_encode_server.Base.{
  ℕ, ◌+◌, ◌%◌, ◌^◌, ◌≡◌, refl, ap, ◌∙◌, List, ◌∷◌, none, some, true, false, ◌==◌, ◌&&◌,
  if◌then◌else◌,
}
use ngp_encode_server.Base.Exceptions.{throws, lock_timeout}
use ngp_encode_server.FrameMap.{IsValid, insert}
use ngp_encode_server.FrameMap.View.{view, has_room, insert-view}
use ngp_encode_server.FrameQueue.Fifo.{pop-front}
use ngp_encode_server.RenderedFrame.{RenderedFrame, convert_frame-converts}
use ngp_encode_server.Encode.{
  Eye, next, Processing, Sending, process_round, on_pop, on_convert, on_insert, catch_processor,
  send_round,
}
use ngp_encode_server.Encode.Overlay.{Texts, overlay, converted-overlay}
use ngp_encode_server.Encode.Process.{filed}
use ngp_encode_server.Encode.Send.{send_round_skips}

module _ {ℓ} {F : Type ℓ} where
  abbrev after_drop : Texts F → RenderedFrame F → List (RenderedFrame F) → Eye F → Eye F
  after_drop t f rest e = record e {
    frame_queue = record { queue = rest };
    encode_queue = (insert f.frame_response.index (filed t f) e.encode_queue).0;
  }

  process_round_drops :
      (t : Texts F) (p : Processing) (f : RenderedFrame F) (rest : List (RenderedFrame F))
      (e : Eye F)
      → e.frame_queue.queue ≡ f ∷ rest
      → f.converted ≡ false
      → p.scene_ok ≡ true
      → p.depth_ok ≡ true
      → (insert f.frame_response.index (filed t f) e.encode_queue).1 ≡ throws lock_timeout
      → process_round t p e ≡ (next, after_drop t f rest e)
  unfolding process_round on_pop on_convert on_insert catch_processor
  process_round_drops t p f rest e front fresh scene depth full =
      let i = f.frame_response.index in
      let m = (insert i (filed t f) e.encode_queue).0 in
      let popped : Eye F = record e { frame_queue = record { queue = rest } } in
      let converts =
        convert_frame-converts p.scene_ok p.depth_ok (overlay t f) (converted-overlay t f ∙ fresh)
          scene depth in
      ap (λ r. on_pop t p r e) (pop-front f rest e.frame_queue front)
      ∙ ap (λ r. on_convert p i r popped) converts
      ∙ ap (λ r. on_insert p (m, r) popped) full

  -- A frame that finds the map full is lost: when the map is full of other frames and the one that the
  -- sender waits for is at the front of the queue, a round of the processor takes it off the queue and
  -- files it nowhere, and a round of the sender then goes on to the next index and has handed nothing
  -- to the encoders. libswscale converts the images.
  pub full_map_drops :
      (t : Texts F) (p : Processing) (a : Sending) (f : RenderedFrame F)
      (rest : List (RenderedFrame F)) (e : Eye F)
      → e.frame_queue.queue ≡ f ∷ rest
      → f.frame_response.index ≡ e.frame_index
      → f.converted ≡ false
      → p.scene_ok ≡ true
      → p.depth_ok ≡ true
      → IsValid e.encode_queue
      → has_room e.encode_queue ≡ false
      → view e.encode_queue e.frame_index ≡ none
      → let (end1, e1) = process_round t p e in
        let (end2, e2) = send_round a e1 in
        (end1 ≡ next)
        × (e1.frame_queue.queue ≡ rest)
        × ((j : ℕ) → view e1.encode_queue j ≡ view e.encode_queue j)
        × (end2 ≡ next)
        × (e2.frame_index ≡ (e.frame_index + 1) % 2 ^ 64)
        × (e2.to_scene ≡ e.to_scene)
        × (e2.to_depth ≡ e.to_depth)
  full_map_drops t p a f rest e front waits fresh scene depth valid full missing =
      let i = f.frame_response.index in
      let (valid', refuses, sees) = insert-view i (filed t f) e.encode_queue valid in
      let same : (j : ℕ) → view (insert i (filed t f) e.encode_queue).0 j ≡ view e.encode_queue j =
        λ j. sees j ∙ rw full refl in
      let drops =
        process_round_drops t p f rest e front fresh scene depth (refuses ∙ rw full refl) in
      let (ends, to_scene, to_depth, index) =
        send_round_skips a (after_drop t f rest e) valid' (same e.frame_index ∙ missing) in
      rw drops (refl, refl, same, ends, index, to_scene, to_depth)
