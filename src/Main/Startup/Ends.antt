-- ===== src/Main/Startup/Ends.antt =====
-- How main gets to its threads, and how it ends before.
use ngp_encode_server.Base.{
  ◌≡◌, refl, List, [], ◌∷◌, Bool, ◌&&◌, ◌||◌, not, arith, if◌then◌else◌, Bool-cases, inl, inr,
}
use ngp_encode_server.Base.Int.{pos, ltb_ℤ}
use ngp_encode_server.Base.Exceptions.{ok, throws, runtime_error, websocket_error}
use ngp_encode_server.Camera
use ngp_encode_server.Codec.{Answers, CodecInitInfo, CodecManager}
use ngp_encode_server.Codec.Resolution.{all_well, constructed, construct_well, construct_bad}
use ngp_encode_server.RenderText
use ngp_encode_server.Requests.{zeros}
use ngp_encode_server.WebSocket.{WebSocketServer}
use ngp_encode_server.WebSocket.Lifecycle.{listening, start-construct}
use ngp_encode_server.WebSocket
use ngp_encode_server.Main.Flags.{Flags, accepted, codec_info}
use ngp_encode_server.Main.Startup.{
  World, Program, returns, terminates, threads, make_codec, make_text, start_server, Boot, after,
  bootstrap, after_bootstrap, catch_exception, main,
}

-- No call of FreeType answers a number below 0, which is all that the constructor looks for; FreeType's
-- errors are numbers above 0.
abbrev pub font_passes : RenderText.FontAnswers → Bool
font_passes a =
    not (ltb_ℤ a.init_ret (pos 0) || (ltb_ℤ a.face_ret (pos 0) || ltb_ℤ a.size_ret (pos 0)))

make_codec_lem :
    (a : Answers) (info : CodecInitInfo) (s : List WebSocketServer)
    → make_codec a info s
      ≡ (if all_well a then (ok (constructed info), s) else (throws runtime_error, s))
unfolding make_codec
make_codec_lem a info s = elim (Bool-cases (all_well a)) [
  | inl h ↦ rw (construct_well a info h, h) refl
  | inr h ↦ rw (construct_bad a info h, h) refl
]

make_text_lem :
    (a : RenderText.FontAnswers) (s : List WebSocketServer)
    → make_text a s ≡ (if font_passes a then (ok tt, s) else (throws runtime_error, s))
unfolding make_text RenderText.construct
make_text_lem a s = ground arith

start_server_lem :
    (free : Bool) (s : List WebSocketServer)
    → start_server free s ≡ (
        if free
        then (ok listening, listening ∷ s)
        else (throws websocket_error, WebSocket.construct ∷ s))
unfolding start_server
start_server_lem free s = elim (Bool-cases free) [
  | inl e ↦ rw (e, start-construct) refl
  | inr e ↦ rw (e, start-construct) refl
]

module _ {ℓ} {B : Type ℓ} where
  codec_step :
      (a : Answers) (info : CodecInitInfo) (f : CodecManager → Boot B) (s : List WebSocketServer)
      → after (make_codec a info s) f
        ≡ (if all_well a then f (constructed info) s else (throws runtime_error, s))
  codec_step a info f s = elim (Bool-cases (all_well a)) [
    | inl h ↦ rw (make_codec_lem a info s, h) refl
    | inr h ↦ rw (make_codec_lem a info s, h) refl
  ]

  text_step :
      (a : RenderText.FontAnswers) (f : Unit {0} → Boot B) (s : List WebSocketServer)
      → after (make_text a s) f ≡ (if font_passes a then f tt s else (throws runtime_error, s))
  text_step a f s = elim (Bool-cases (font_passes a)) [
    | inl h ↦ rw (make_text_lem a s, h) refl
    | inr h ↦ rw (make_text_lem a s, h) refl
  ]

  server_step :
      (free : Bool) (f : WebSocketServer → Boot B) (s : List WebSocketServer)
      → after (start_server free s) f ≡ (
          if free
          then f listening (listening ∷ s)
          else (throws websocket_error, WebSocket.construct ∷ s))
  server_step free f s = elim (Bool-cases free) [
    | inl h ↦ rw (start_server_lem free s, h) refl
    | inr h ↦ rw (start_server_lem free s, h) refl
  ]

-- Every encoder opens, and FreeType answers no number below 0.
abbrev pub fine {ℓ} : {F : Type ℓ} → World F → Bool
fine w =
    all_well w.scene_left
    && (all_well w.depth_left
        && (all_well w.scene_right && (all_well w.depth_right && font_passes w.font)))

abbrev pub all_free {ℓ} : {F : Type ℓ} → World F → Bool
all_free w =
    w.scene_left_free
    && (w.depth_left_free && (w.scene_right_free && (w.depth_right_free && w.camera_control_free)))

-- What the threads find.
abbrev pub ready {ℓ} : {F : Type ℓ} → World F → Flags → Program F
ready w flags = record {
  cameras =
      Camera.construct w.matrix (constructed (codec_info flags)) (constructed (codec_info flags))
        (constructed (codec_info flags)) (constructed (codec_info flags)) flags.width flags.height;
  stream_scene_left = listening;
  stream_depth_left = listening;
  stream_scene_right = listening;
  stream_depth_right = listening;
  camera_control = listening;
  frame_queue_left = record { queue = [] };
  frame_queue_right = record { queue = [] };
  frame_map_left = record { entries = [] };
  frame_map_right = record { entries = [] };
  counters = zeros;
}

module _ {ℓ} {F : Type ℓ} (w : World F) (flags : Flags) where
  bootstrap_lem : after_bootstrap (bootstrap w flags []) ≡ (
      if fine w
      then if all_free w
        then threads (ready w flags)
        else if w.scene_left_free
        then terminates
        else returns (pos 0)
      else returns (pos 0))
  unfolding bootstrap after_bootstrap catch_exception
  bootstrap_lem =
      rw
        (
          codec_step w.scene_left,
          codec_step w.depth_left,
          codec_step w.scene_right,
          codec_step w.depth_right,
          text_step w.font,
          server_step w.scene_left_free,
          server_step w.depth_left_free,
          server_step w.scene_right_free,
          server_step w.depth_right_free,
          server_step w.camera_control_free,
        )
        (ground arith)

module _ {ℓ} {F : Type ℓ} where
  -- Where main gets to, by its flags and by what the other libraries answer. An encoder that fails makes
  -- it return 0, as do the version flag, a number below 0 from FreeType, and a port that is taken at the
  -- first server; a port that is taken at a later one ends the program by std::terminate, since the
  -- exception destroys the thread of a server that already runs. Otherwise the threads start, also if
  -- FreeType answers with one of its errors, which are numbers above 0, as it does for a missing font.
  pub main_lem :
      (w : World F) (flags : Flags)
      → main (accepted flags) w ≡ (
          if flags.version
          then returns (pos 0)
          else if fine w
          then if all_free w
            then threads (ready w flags)
            else if w.scene_left_free
            then terminates
            else returns (pos 0)
          else returns (pos 0))
  unfolding main
  main_lem w flags = rw (bootstrap_lem w flags) refl
