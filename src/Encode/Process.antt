-- ===== src/Encode/Process.antt =====
-- What a round of process_frame_thread does with a frame.
use ngp_encode_server.Base.{
  ℕ, ◌≡◌, refl, ap, ◌∙◌, List, ◌∷◌, none, some, true, false, ◌==◌, if◌then◌else◌,
}
use ngp_encode_server.Base.Exceptions.{ok}
use ngp_encode_server.FrameMap.{IsValid, insert}
use ngp_encode_server.FrameMap.View.{view, has_room, insert-view}
use ngp_encode_server.FrameQueue.Fifo.{pop-front}
use ngp_encode_server.RenderedFrame.{RenderedFrame, convert_frame-converts}
use ngp_encode_server.Encode.{
  Eye, next, Processing, process_round, on_pop, on_convert, on_insert, count_frame,
}
use ngp_encode_server.Encode.Overlay.{Texts, overlay, converted-overlay}

module _ {ℓ} {F : Type ℓ} where
  -- The frame that is filed: with its texts, and converted.
  abbrev pub filed : Texts F → RenderedFrame F → RenderedFrame F
  filed t f = record (overlay t f) { converted = true }

  abbrev pub after_process :
      Texts F → Processing → RenderedFrame F → List (RenderedFrame F) → Eye F → Eye F
  after_process t p f rest e = record e {
    frame_queue = record { queue = rest };
    encode_queue = (insert f.frame_response.index (filed t f) e.encode_queue).0;
    processed = count_frame p.time e.processed;
  }

  pub process_round_lem :
      (t : Texts F) (p : Processing) (f : RenderedFrame F) (rest : List (RenderedFrame F))
      (e : Eye F)
      → e.frame_queue.queue ≡ f ∷ rest
      → f.converted ≡ false
      → p.scene_ok ≡ true
      → p.depth_ok ≡ true
      → (insert f.frame_response.index (filed t f) e.encode_queue).1 ≡ ok tt
      → process_round t p e ≡ (next, after_process t p f rest e)
  unfolding process_round on_pop on_convert on_insert
  process_round_lem t p f rest e front fresh scene depth inserts =
      let i = f.frame_response.index in
      let m = (insert i (filed t f) e.encode_queue).0 in
      let popped : Eye F = record e { frame_queue = record { queue = rest } } in
      let converts =
        convert_frame-converts p.scene_ok p.depth_ok (overlay t f) (converted-overlay t f ∙ fresh)
          scene depth in
      ap (λ r. on_pop t p r e) (pop-front f rest e.frame_queue front)
      ∙ ap (λ r. on_convert p i r popped) converts
      ∙ ap (λ r. on_insert p (m, r) popped) inserts

  -- The frame at the front of the queue, not converted yet, is taken off it and filed in the map
  -- under its index, with its texts drawn and marked as converted, if libswscale converts both
  -- images, the map has room and the index is new; what the map had for other indices stays.
  pub process_round_files :
      (t : Texts F) (p : Processing) (f : RenderedFrame F) (rest : List (RenderedFrame F))
      (e : Eye F)
      → e.frame_queue.queue ≡ f ∷ rest
      → f.converted ≡ false
      → p.scene_ok ≡ true
      → p.depth_ok ≡ true
      → IsValid e.encode_queue
      → has_room e.encode_queue ≡ true
      → view e.encode_queue f.frame_response.index ≡ none
      → let (end, e') = process_round t p e in
        (end ≡ next)
        × (e'.frame_queue.queue ≡ rest)
        × ((j : ℕ)
            → view e'.encode_queue j
              ≡ (if f.frame_response.index == j then some (filed t f) else view e.encode_queue j))
  process_round_files t p f rest e front fresh scene depth valid room new =
      let i = f.frame_response.index in
      let (_, inserted, after) = insert-view i (filed t f) e.encode_queue valid in
      let inserts : (insert i (filed t f) e.encode_queue).1 ≡ ok tt = rw (inserted, room) in
      rw (process_round_lem t p f rest e front fresh scene depth inserts)
        (refl, refl, λ j. rw (after j, room, new))
