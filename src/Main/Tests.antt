-- ===== src/Main/Tests.antt =====
-- Runs of main with its default flags, and of the right eye at half the size of the left one.
use ngp_encode_server.Base.{
  ℕ, ◌≢◌, ◌≡◌, refl, List, [], ◌∷◌, Bool, some, true, false, not, ◌==◌, ◌&&◌, if◌then◌else◌, arith,
}
use ngp_encode_server.Base.Int.{pos}
use ngp_encode_server.Encode.Overlay.{Texts}
use ngp_encode_server.Codec.{CodecInitInfo, CodecManager, Answers, opened_from}
use ngp_encode_server.Camera.{Camera, CameraManager, Eye, set_camera_right, round_down}
use ngp_encode_server.Camera.Sync.{EncodesAt}
use ngp_encode_server.RenderedFrame.{Response}
use ngp_encode_server.Client.{FrameRequest}
use ngp_encode_server.Encode.{Processing, Sending}
use ngp_encode_server.Base.Exceptions.{ok, throws, websocket_error}
use ngp_encode_server.RenderText.{FontAnswers, Glyph}
use ngp_encode_server.WebSocket.{StopAnswers}
use ngp_encode_server.WebSocket.Lifecycle.{Call, opens, shuts, broadcasts}
use ngp_encode_server.Main.Flags.{accepted, defaults}
use ngp_encode_server.Main.Startup.{World, Program, threads, terminates, returns, main, servers}
use ngp_encode_server.Main.Startup.Ends.{ready, main_lem}
use ngp_encode_server.Main.Shutdown.{
  stop_all, served, all_return, all_joined, finish, main_finishes,
}
use ngp_encode_server.Main.{frame_of, encoder, sender_scene, right_frames_misfit}

abbrev well : Answers
well = record { finds = true; allocates = true; open_ret = pos 0 }

abbrev hd : CodecInitInfo
hd = record {
  codec_id = 27;
  pix_fmt = 0;
  x264_encode_preset = "ultrafast";
  x264_encode_tune = "zerolatency";
  width = 1280;
  height = 720;
  bit_rate = 400000;
  fps = 30;
  keyframe_interval = 250;
}

abbrev running : CodecManager
running = record {
  info = hd;
  opened = true;
  ctx = some 0;
  coder = some (opened_from hd);
  allocated = 1;
  freed = [];
}

abbrev sized : ℕ → ℕ → Camera ℕ
sized w h = record { is_left = false; width = w; height = h; matrix = [] }

abbrev eye : Eye ℕ
eye = record { camera = sized 1280 720; scene = running; depth = running }

abbrev both : CameraManager ℕ
both = record { left = eye; right = eye }

abbrev answer : Response ℕ
answer = record { index = 0; camera = sized 640 360; is_left = false; frame = []; depth = [] }

running-EncodesAt : EncodesAt 1280 720 running
running-EncodesAt = record {
  opened = refl;
  width_agrees = refl;
  height_agrees = refl;
  coder_agrees = refl;
}

differs : 1280 ≢ round_down 640
unfolding round_down
differs = omega arith

right_frames_misfit_example :
    let m = (set_camera_right (sized 640 360) well well both).0 in
    (frame_of answer m).converted_scene.width ≢ (encoder (sender_scene false) m).info.width
right_frames_misfit_example =
    right_frames_misfit (sized 640 360) well well both answer
      (record { scene_agrees = running-EncodesAt; depth_agrees = running-EncodesAt }) refl refl refl
      differs

abbrev font_found : FontAnswers
font_found = record { init_ret = pos 0; face_ret = pos 0; size_ret = pos 0 }

-- FT_Err_Cannot_Open_Resource
abbrev font_missing : FontAnswers
font_missing = record { init_ret = pos 0; face_ret = pos 1; size_ret = pos 0 }

-- `depth_free` tells whether the port of the second server is free.
abbrev pub world : Bool → World ℕ
world depth_free = record {
  scene_left = well;
  depth_left = well;
  scene_right = well;
  depth_right = well;
  font = font_found;
  scene_left_free = true;
  depth_left_free = depth_free;
  scene_right_free = true;
  depth_right_free = true;
  camera_control_free = true;
  matrix = [];
}

main_lem_example : main (accepted defaults) (world false) ≡ terminates
main_lem_example = main_lem (world false) defaults

pub starts : main (accepted defaults) (world true) ≡ threads (ready (world true) defaults)
starts = main_lem (world true) defaults

starts_without_font :
    main (accepted defaults) (record (world true) { font = font_missing })
    ≡ threads (ready (world true) defaults)
starts_without_font = main_lem (record (world true) { font = font_missing }) defaults

abbrev calls : ℕ → List Call
calls k = opens 3 ∷ opens 5 ∷ broadcasts (λ _. true) (1 ∷ []) ∷ shuts 3 ∷ []

-- Client 5 is going already when the second server is stopped.
abbrev answers : ℕ → StopAnswers
answers k = record { stops = true; takes = λ h. not (k == 1 && (h == 5)); closed = 5 ∷ [] }

main_finishes_example :
    let stopped = served calls answers 0 (servers (ready (world true) defaults)) in
    let well = all_return stopped in
    ((stop_all stopped).1 ≡ (if well then ok tt else throws websocket_error))
    × (all_joined (stop_all stopped).0 ≡ well)
    × (finish {F = ℕ} (stop_all stopped) ≡ (if well then returns (pos 0) else terminates))
main_finishes_example =
    main_finishes (accepted defaults) (world true) (ready (world true) defaults) calls answers
      starts (λ _. refl)

abbrev blank : Glyph
blank = record {
  bitmap_left = pos 0;
  bitmap_top = pos 0;
  rows = 0;
  width = 0;
  buffer = [];
  advance_x = pos 64;
}

abbrev pub marks : Texts ℕ
marks = record {
  load = λ ch g. g;
  slot = blank;
  format = λ n. "0";
  zero = 0;
  one = 1;
  timestamp = "12:00:00.000";
}

abbrev camera : Camera ℕ
camera = record { is_left = false; width = 64; height = 36; matrix = [] }

abbrev pub response : ℕ → Bool → Response ℕ
response i side = record { index = i; camera = camera; is_left = side; frame = []; depth = [] }

abbrev pub respond : FrameRequest ℕ → Response ℕ
respond r = response r.index r.is_left

abbrev pub program : Program ℕ
program = ready (world true) defaults

abbrev pub works : Processing
works = record { scene_ok = true; depth_ok = true; time = 3 }

abbrev pub wraps : Sending
wraps = record {
  scene_wraps = true;
  scene_ret = pos 0;
  depth_wraps = true;
  depth_ret = pos 0;
  time = 2;
}
