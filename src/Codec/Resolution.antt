-- ===== src/Codec/Resolution.antt =====
-- What change_resolution leaves of the settings and of the encoder.
use ngp_encode_server.Base.{
  ℕ, ◌+◌, ◌≡◌, none, some, Bool, true, false, [], not, ◌&&◌, arith, if◌then◌else◌,
}
use ngp_encode_server.Base.Int.{pos, ltb_ℤ}
use ngp_encode_server.Base.Exceptions.{ok, throws, runtime_error}
use ngp_encode_server.Codec.{
  CodecInitInfo, Answers, CodecManager, opened_from, free_context, start_codec, codec_ctx_init,
  change_resolution, construct,
}

-- libavcodec finds the encoder, allocates a context and opens it.
abbrev pub all_well : Answers → Bool
all_well a = a.finds && (a.allocates && not (ltb_ℤ a.open_ret (pos 0)))

abbrev pub resized : ℕ → ℕ → CodecInitInfo → CodecInitInfo
resized w h info = record info { width = w; height = h }

-- change_resolution of an opened manager always leaves the new size in the settings. If libavcodec
-- does its part it returns and the encoder is open with exactly these settings; otherwise it throws
-- std::runtime_error and no encoder is open.
pub change_resolution-coder :
    (w h : ℕ) (a : Answers) (m : CodecManager)
    → m.opened ≡ true
    → let r = change_resolution w h a m in
      (r.0.info ≡ resized w h m.info)
      × (r.1 ≡ (if all_well a then ok tt else throws runtime_error))
      × (r.0.coder ≡ (if all_well a then some (opened_from (resized w h m.info)) else none))
unfolding change_resolution codec_ctx_init start_codec free_context
change_resolution-coder w h a m o = (ground arith, ground arith, ground arith)

pub change_resolution_opened :
    (w h : ℕ) (a : Answers) (m : CodecManager)
    → m.opened ≡ true
    → (change_resolution w h a m).0.opened ≡ true
unfolding change_resolution codec_ctx_init start_codec free_context
change_resolution_opened w h a m o = ground arith

pub change_resolution-allocated :
    (w h : ℕ) (a : Answers) (m : CodecManager)
    → m.opened ≡ true
    → all_well a ≡ true
    → (change_resolution w h a m).0.allocated ≡ m.allocated + 1
unfolding change_resolution codec_ctx_init start_codec free_context
change_resolution-allocated w h a m o well = ground arith

-- An encoder as the constructor leaves it.
abbrev pub constructed : CodecInitInfo → CodecManager
constructed info = record {
  info = info;
  opened = true;
  ctx = some 0;
  coder = some (opened_from info);
  allocated = 1;
  freed = [];
}

pub construct_well :
    (a : Answers) (info : CodecInitInfo)
    → all_well a ≡ true
    → construct a info ≡ (constructed info, ok tt)
unfolding construct codec_ctx_init start_codec
construct_well a info h = ground arith

pub construct_bad :
    (a : Answers) (info : CodecInitInfo)
    → all_well a ≡ false
    → (construct a info).1 ≡ throws runtime_error
unfolding construct codec_ctx_init start_codec
construct_bad a info h = ground arith
