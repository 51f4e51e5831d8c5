-- ===== src/Codec/Tests.antt =====
-- Runs of the codec manager.
use ngp_encode_server.Base.{false, ℕ, ◌≡◌, refl, [], ◌∷◌, List, some, true}
use ngp_encode_server.Base.Int.{pos, negsuc}
use ngp_encode_server.Base.Exceptions.{ok}
use ngp_encode_server.Codec.{
  CodecInitInfo, Answers, CodecManager, opened_from, construct, codec_ctx_init, start_codec,
  open_codec, destroy,
}
use ngp_encode_server.Codec.Lifetime.{IsReleased, run_changes, destroy-IsReleased}
use ngp_encode_server.Codec.Locks.{State, init, no_writer, holds, Reach, steps, user_locks}
use ngp_encode_server.Codec.Locks.Exclusion.{IsExclusive, reach-IsExclusive, provider_torn}

abbrev hd : CodecInitInfo
hd = record {
  codec_id = 27;
  pix_fmt = 0;
  x264_encode_preset = "ultrafast";
  x264_encode_tune = "stillimage,zerolatency";
  width = 1280;
  height = 720;
  bit_rate = 400000;
  fps = 30;
  keyframe_interval = 250;
}

abbrev well : Answers
well = record { finds = true; allocates = true; open_ret = pos 0 }

abbrev refused : Answers
refused = record { finds = true; allocates = true; open_ret = negsuc 21 }

abbrev changes : List (ℕ × ℕ × Answers)
changes = (640, 480, well) ∷ (100, 100, refused) ∷ (320, 200, well) ∷ []

constructs : (construct well hd).1 ≡ ok tt
unfolding construct codec_ctx_init start_codec open_codec
constructs = refl

destroy-IsReleased_example : IsReleased (destroy (run_changes changes (construct well hd).0))
destroy-IsReleased_example = destroy-IsReleased well hd changes constructs

abbrev running : CodecManager
running = record {
  info = hd;
  opened = true;
  ctx = some 0;
  coder = some (opened_from hd);
  allocated = 1;
  freed = [];
}

provider_torn_example : Reach (init 1280 720) (record {
  width = 640;
  height = 360;
  coder = some (640, 360);
  writer = no_writer;
  reader = holds 1280 360;
  others = 0;
  user = false;
})
provider_torn_example = provider_torn 1280 720 640 360

-- The lock is held by the reader of the run above while the sender comes and goes.
abbrev sending : State
sending = record {
  width = 640;
  height = 360;
  coder = some (640, 360);
  writer = no_writer;
  reader = holds 1280 360;
  others = 0;
  user = true;
}

reach-IsExclusive_example : IsExclusive sending
reach-IsExclusive_example =
    reach-IsExclusive 1280 720 (steps (provider_torn 1280 720 640 360) (user_locks refl refl))
