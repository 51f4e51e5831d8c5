-- ===== src/Encode/Pipeline/Reaches.antt =====
-- A frame on its way from the queue to the encoders.
use ngp_encode_server.Base.{
  ◌+◌, ◌%◌, ◌^◌, ◌≡◌, refl, List, [], ◌∷◌, none, some, true, false, ◌==◌, arith,
}
use ngp_encode_server.FrameMap.{IsValid, insert}
use ngp_encode_server.FrameMap.View.{view, has_room, insert-view}
use ngp_encode_server.Base.Exceptions.{ok}
use ngp_encode_server.RenderedFrame.{RenderedFrame}
use ngp_encode_server.Encode.{Eye, next, Sending, Processing}
use ngp_encode_server.Encode.Overlay.{Texts}
use ngp_encode_server.Encode.Process.{filed, after_process, process_round_lem}
use ngp_encode_server.Encode.Send.{send_round_lem}
use ngp_encode_server.Encode.Pipeline.{processes, sends, step, run}

module _ {ℓ} {F : Type ℓ} where
  -- A frame at the front of the queue that is not converted yet and whose index is the one that the
  -- sender waits for reaches both encoders, with its texts and converted, by one round of the
  -- processor and one of the sender, and the sender then waits for the next index. The map has room
  -- and no frame of that index, libswscale converts both images, and their AVFrames can be made.
  pub frame_reaches_encoders :
      (t : Texts F) (p : Processing) (a : Sending) (f : RenderedFrame F)
      (rest : List (RenderedFrame F)) (e : Eye F)
      → e.frame_queue.queue ≡ f ∷ rest
      → f.converted ≡ false
      → f.frame_response.index ≡ e.frame_index
      → p.scene_ok ≡ true
      → p.depth_ok ≡ true
      → a.scene_wraps ≡ true
      → a.depth_wraps ≡ true
      → IsValid e.encode_queue
      → has_room e.encode_queue ≡ true
      → view e.encode_queue f.frame_response.index ≡ none
      → let (end, e') = run (processes t p ∷ sends a ∷ []) e in
        (end ≡ next)
        × (e'.to_scene ≡ filed t f ∷ e.to_scene)
        × (e'.to_depth ≡ filed t f ∷ e.to_depth)
        × (e'.frame_index ≡ (e.frame_index + 1) % 2 ^ 64)
  unfolding run step
  frame_reaches_encoders t p a f rest e front fresh own scene depth wraps wraps' valid room new =
      let i = f.frame_response.index in
      let (valid', inserted, seen) = insert-view i (filed t f) e.encode_queue valid in
      let inserts : (insert i (filed t f) e.encode_queue).1 ≡ ok tt = rw (inserted, room) in
      let self : (i == e.frame_index) ≡ true = ground arith in
      let e' = after_process t p f rest e in
      let waits : view e'.encode_queue e.frame_index ≡ some (filed t f) =
        rw (seen e.frame_index, room, new, self) in
      rw
        (
          process_round_lem t p f rest e front fresh scene depth inserts,
          send_round_lem a (filed t f) e' valid' waits wraps wraps',
        )
        (refl, refl, refl, refl)
