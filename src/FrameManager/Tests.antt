-- ===== src/FrameManager/Tests.antt =====
-- An image that is wrapped three times, with a failure in between.
use ngp_encode_server.Base.{ℕ, ◌≡◌, refl, List, [], ◌∷◌, ◌++◌, none, true, false, length}
use ngp_encode_server.FrameManager.{
  Heap, WrapAnswers, live_through, construct, destroy, send_frames, send, on_wrapped, to_avframe,
  unwrap, free, on_remove, remove, also_left, alloc,
}
use ngp_encode_server.Codec.{CodecInitInfo}
use ngp_encode_server.FrameManager.Scoped.{FrameAnswers, frame_life}
use ngp_encode_server.FrameManager.Scoped.Frames.{frame_life_leaks}

abbrev heap : Heap
heap = record { live = 1 ∷ 0 ∷ []; allocated = 2; bad = false }

abbrev answers : List WrapAnswers
answers =
    record { frame_ok = true; image_ok = true; fill_ok = true }
    ∷ record { frame_ok = true; image_ok = false; fill_ok = true }
    ∷ record { frame_ok = true; image_ok = true; fill_ok = true }
    ∷ []

own_buffer : (live_through true none answers heap).live ≡ 7 ∷ 5 ∷ 4 ∷ 1 ∷ 0 ∷ []
unfolding live_through construct destroy send_frames send on_wrapped to_avframe unwrap free
    on_remove remove also_left alloc
own_buffer = refl

-- The depth wrapper fails at its image.
abbrev frame_answers : FrameAnswers
frame_answers = record {
  scene_image = true;
  depth_image = true;
  scene_context = true;
  depth_context = true;
  scene_wrap = record { frame_ok = true; image_ok = true; fill_ok = true };
  depth_wrap = record { frame_ok = true; image_ok = false; fill_ok = true };
}

frame_life_leaks_example :
    let h = frame_life frame_answers 0 1 heap in
    (h.bad ≡ false) × ((above : List ℕ) × ((h.live ≡ above ++ heap.live) × (length above ≡ 2)))
frame_life_leaks_example = frame_life_leaks frame_answers 0 1 heap refl

abbrev settings : CodecInitInfo
settings = record {
  codec_id = 27;
  pix_fmt = 0;
  x264_encode_preset = "ultrafast";
  x264_encode_tune = "zerolatency";
  width = 1280;
  height = 720;
  bit_rate = 400000;
  fps = 30;
  keyframe_interval = 250;
}
