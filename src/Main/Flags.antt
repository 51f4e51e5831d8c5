-- ===== src/Main/Flags.antt =====
-- The command line of src/main.cpp. The args library reads it: what comes out is a `Parsed`.
use Prim.Native.String.{String}
use ngp_encode_server.Base.{ℕ, List, [], Bool, false}
use ngp_encode_server.Codec.{CodecInitInfo}

-- The flags, with uint16_t ports and unsigned int sizes.
pub record Flags : Type 0 where
  pub version : Bool
  pub renderers : List String
  pub address : String
  pub port : ℕ
  pub encode_preset : String
  pub encode_tune : String
  pub width : ℕ
  pub height : ℕ
  pub bitrate : ℕ
  pub fps : ℕ
  pub keyint : ℕ
  pub font : String
  pub camera_control_port : ℕ
  pub scene_left_port : ℕ
  pub depth_left_port : ℕ
  pub scene_right_port : ℕ
  pub depth_right_port : ℕ

-- What a flag is if the command line does not name it.
abbrev pub defaults : Flags
defaults = record {
  version = false;
  renderers = [];
  address = "0.0.0.0";
  port = 9991;
  encode_preset = "ultrafast";
  encode_tune = "stillimage,zerolatency";
  width = 1280;
  height = 720;
  bitrate = 400000;
  fps = 30;
  keyint = 250;
  font = "/usr/share/fonts/truetype/noto/NotoMono-Regular.ttf";
  camera_control_port = 9998;
  scene_left_port = 9999;
  depth_left_port = 10000;
  scene_right_port = 10001;
  depth_right_port = 10002;
}

-- parser.ParseCLI: the flags, or one of the exceptions that main catches at once.
pub data Parsed : Type 0 where
  accepted : Flags → Parsed
  help parse_error validation_error : Parsed

-- AV_CODEC_ID_H264 and AV_PIX_FMT_YUV420P
abbrev pub h264 : ℕ
h264 = 27

abbrev pub yuv420p : ℕ
yuv420p = 0

-- The settings of each of the four encoders.
unfoldable pub codec_info : Flags → CodecInitInfo
codec_info f = record {
  codec_id = h264;
  pix_fmt = yuv420p;
  x264_encode_preset = f.encode_preset;
  x264_encode_tune = f.encode_tune;
  width = f.width;
  height = f.height;
  bit_rate = f.bitrate;
  fps = f.fps;
  keyframe_interval = f.keyint;
}
