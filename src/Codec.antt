-- ===== src/Codec.antt =====
-- types::AVCodecContextManager (src/base/video/type_managers.cc, include/base/video/type_managers.h):
-- the settings of an encoder and the AVCodecContext that is opened from them. libavcodec enters by
-- what its calls answer, an argument of each method; contexts are numbered as they are allocated,
-- and `freed` lists those that were handed to avcodec_free_context, the last first.
pub mod Lifetime
pub mod Resolution
pub mod Locks
mod Tests
use Prim.Native.String.{String}
use ngp_encode_server.Base.{
  ℕ, suc, ◌+◌, ◌≡◌, List, [], ◌∷◌, Option, none, some, Bool, true, false, if◌then◌else◌,
}
use ngp_encode_server.Base.Int.{ℤ, pos, ltb_ℤ}
use ngp_encode_server.Base.Exceptions.{Result, ok, throws, runtime_error}

-- CodecInitInfo. The numbers are unsigned int.
pub record CodecInitInfo : Type 0 where
  pub codec_id : ℕ
  pub pix_fmt : ℕ
  pub x264_encode_preset : String
  pub x264_encode_tune : String
  pub width : ℕ
  pub height : ℕ
  pub bit_rate : ℕ
  pub fps : ℕ
  pub keyframe_interval : ℕ

-- An AVCodecContext that was opened: the settings that codec_ctx_init copies into it.
pub record Opened : Type 0 where
  pub bit_rate : ℕ
  pub width : ℕ
  pub height : ℕ
  pub time_base_den : ℕ
  pub pix_fmt : ℕ
  pub preset : String
  pub tune : String

-- What avcodec_find_encoder, avcodec_alloc_context3 and avcodec_open2 answer.
pub record Answers : Type 0 where
  pub finds : Bool
  pub allocates : Bool
  pub open_ret : ℤ

-- `ctx` is m_ctx, `none` for the null pointer; `coder` is the encoder behind it once it is open.
pub record CodecManager : Type 0 where
  pub info : CodecInitInfo
  pub opened : Bool
  pub ctx : Option ℕ
  pub coder : Option Opened
  pub allocated : ℕ
  pub freed : List ℕ

-- avcodec_free_context frees what the pointer holds, if anything, and makes it null.
pub free_context : CodecManager → CodecManager
free_context m = elim m.ctx [
  | none ↦ record m { coder = none }
  | some id ↦ record m { ctx = none; coder = none; freed = id ∷ m.freed }
]

abbrev pub opened_from : CodecInitInfo → Opened
opened_from i = record {
  bit_rate = i.bit_rate;
  width = i.width;
  height = i.height;
  time_base_den = i.fps;
  pix_fmt = i.pix_fmt;
  preset = i.x264_encode_preset;
  tune = i.x264_encode_tune;
}

-- The part of codec_ctx_init behind avcodec_alloc_context3.
open_codec : Answers → CodecManager → CodecManager × Result (Unit {0})
open_codec a m =
    if ltb_ℤ a.open_ret (pos 0)
    then (m, throws runtime_error)
    else (record m { coder = some (opened_from m.info); opened = true }, ok tt)

-- The part behind `if (m_opened)`.
start_codec : Answers → CodecManager → CodecManager × Result (Unit {0})
unfolding open_codec
start_codec a m =
    if a.finds
    then if a.allocates
      then open_codec a (record m { ctx = some m.allocated; allocated = m.allocated + 1 })
      else (record m { ctx = none }, throws runtime_error)
    else (m, throws runtime_error)

-- codec_ctx_init
pub codec_ctx_init : Answers → CodecManager → CodecManager × Result (Unit {0})
codec_ctx_init a m = start_codec a (if m.opened then free_context m else m)

-- The members as the constructor initialises them; m_ctx has no value yet, and none is read.
abbrev pub unopened : CodecInitInfo → CodecManager
unopened info = record {
  info = info;
  opened = false;
  ctx = none;
  coder = none;
  allocated = 0;
  freed = [];
}

-- The constructor. An exception leaves no object: what it leaves of the state below is lost.
pub construct : Answers → CodecInitInfo → CodecManager × Result (Unit {0})
construct a info = codec_ctx_init a (unopened info)

-- change_resolution, under both of its locks.
pub change_resolution : ℕ → ℕ → Answers → CodecManager → CodecManager × Result (Unit {0})
change_resolution width height a m =
    codec_ctx_init a (record m { info = record (m.info) { width = width; height = height } })

-- The destructor.
pub destroy : CodecManager → CodecManager
destroy m = free_context m
