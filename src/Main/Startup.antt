-- ===== src/Main/Startup.antt =====
-- main from the command line to the running threads, and from there to its return (src/main.cpp). An
-- exception leaves the `try` block with the servers that were asked to start.
pub mod Ends
pub mod Ready
use ngp_encode_server.Base.{ℕ, List, [], ◌∷◌, Bool, true, false, ◌||◌, if◌then◌else◌}
use ngp_encode_server.Base.Int.{ℤ, pos, negsuc, ltb_ℤ}
use ngp_encode_server.Base.Exceptions.{Exception, Result, ok, throws, runtime_error}
use ngp_encode_server.Camera.{CameraManager}
use ngp_encode_server.Camera
use ngp_encode_server.Codec.{Answers, CodecInitInfo, CodecManager}
use ngp_encode_server.Codec
use ngp_encode_server.FrameMap.{FrameMap}
use ngp_encode_server.FrameQueue.{FrameQueue}
use ngp_encode_server.RenderedFrame.{RenderedFrame}
use ngp_encode_server.RenderText
use ngp_encode_server.Requests.{Counters, zeros}
use ngp_encode_server.WebSocket.{WebSocketServer, start, stop}
use ngp_encode_server.WebSocket
use ngp_encode_server.Main.Flags.{
  Flags, Parsed, accepted, help, parse_error, validation_error, codec_info,
}

-- What the other libraries answer while main starts: libavcodec for each encoder, FreeType, and whether
-- each server finds its port free. `matrix` is kInitialCameraMatrix.
pub record World {ℓ} (F : Type ℓ) : Type ℓ where
  pub scene_left : Answers
  pub depth_left : Answers
  pub scene_right : Answers
  pub depth_right : Answers
  pub font : RenderText.FontAnswers
  pub scene_left_free : Bool
  pub depth_left_free : Bool
  pub scene_right_free : Bool
  pub depth_right_free : Bool
  pub camera_control_free : Bool
  pub matrix : List F

-- What the threads are started with.
pub record Program {ℓ} (F : Type ℓ) : Type ℓ where
  pub cameras : CameraManager F
  pub stream_scene_left : WebSocketServer
  pub stream_depth_left : WebSocketServer
  pub stream_scene_right : WebSocketServer
  pub stream_depth_right : WebSocketServer
  pub camera_control : WebSocketServer
  pub frame_queue_left : FrameQueue (RenderedFrame F)
  pub frame_queue_right : FrameQueue (RenderedFrame F)
  pub frame_map_left : FrameMap (RenderedFrame F)
  pub frame_map_right : FrameMap (RenderedFrame F)
  pub counters : Counters

abbrev pub servers {ℓ} : {F : Type ℓ} → Program F → List WebSocketServer
servers p =
    p.stream_scene_left ∷ p.stream_depth_left ∷ p.stream_scene_right ∷ p.stream_depth_right
    ∷ p.camera_control ∷ []

-- A step of the start: it may throw, and adds to the servers that were asked to start.
abbrev pub Boot {ℓ} : Type ℓ → Type ℓ
Boot A = List WebSocketServer → Result A × List WebSocketServer

abbrev pub pure {ℓ} : {A : Type ℓ} → A → Boot A
pure a s = (ok a, s)

abbrev pub after {ℓ κ} :
    {A : Type ℓ} {B : Type κ}
    → Result A × List WebSocketServer
    → (A → Boot B)
    → Result B × List WebSocketServer
after (ok a, s) f = f a s
after (throws x, s) f = (throws x, s)

infixl 5 ◌>>=◌ ◌>>◌
abbrev pub ◌>>=◌ {ℓ κ} : {A : Type ℓ} {B : Type κ} → Boot A → (A → Boot B) → Boot B
◌>>=◌ m f s = after (m s) f

abbrev pub ◌>>◌ {ℓ κ} : {A : Type ℓ} {B : Type κ} → Boot A → Boot B → Boot B
m >> k = m >>= λ _. k

abbrev made : CodecManager × Result (Unit {0}) → Result CodecManager
made (m, ok _) = ok m
made (m, throws x) = throws x

-- std::make_shared<types::AVCodecContextManager>(…)
make_codec : Answers → CodecInitInfo → Boot CodecManager
make_codec a info servers = (made (Codec.construct a info), servers)

-- std::make_shared<RenderTextContext>(…)
make_text : RenderText.FontAnswers → Boot (Unit {0})
make_text answers servers = (RenderText.construct answers, servers)

abbrev started :
    WebSocketServer × Result (Unit {0})
    → List WebSocketServer
    → Result WebSocketServer × List WebSocketServer
started (s, ok _) servers = (ok s, s ∷ servers)
started (s, throws x) servers = (throws x, s ∷ servers)

-- A server is made and asked to start.
start_server : Bool → Boot WebSocketServer
start_server port_free servers = started (start port_free WebSocket.construct) servers

-- What becomes of the program: main returns, std::terminate ends it, or its threads run.
pub data Outcome {ℓ} (F : Type ℓ) : Type ℓ where
  returns : ℤ → Outcome F
  terminates : Outcome F
  threads : Program F → Outcome F

-- The destructor of a std::thread that was not joined calls std::terminate.
abbrev pub any_running : List WebSocketServer → Bool
any_running [] = false
any_running (s ∷ ss) = s.running || any_running ss

module _ {ℓ} {F : Type ℓ} where
  -- From the encoders to the counters that the threads share.
  pub bootstrap : World F → Flags → Boot (Program F)
  unfolding make_codec make_text start_server
  bootstrap w flags = do
    codec_scene_left ← make_codec w.scene_left (codec_info flags)
    codec_depth_left ← make_codec w.depth_left (codec_info flags)
    codec_scene_right ← make_codec w.scene_right (codec_info flags)
    codec_depth_right ← make_codec w.depth_right (codec_info flags)
    make_text w.font
    scene_left ← start_server w.scene_left_free
    depth_left ← start_server w.depth_left_free
    scene_right ← start_server w.scene_right_free
    depth_right ← start_server w.depth_right_free
    camera_control ← start_server w.camera_control_free
    pure (record {
      cameras =
          Camera.construct w.matrix codec_scene_left codec_depth_left codec_scene_right
            codec_depth_right flags.width flags.height;
      stream_scene_left = scene_left;
      stream_depth_left = depth_left;
      stream_scene_right = scene_right;
      stream_depth_right = depth_right;
      camera_control = camera_control;
      frame_queue_left = record { queue = [] };
      frame_queue_right = record { queue = [] };
      frame_map_left = record { entries = [] };
      frame_map_right = record { entries = [] };
      counters = zeros;
    })

  -- An exception reaches the last `catch` once the servers are destroyed.
  unfoldable pub catch_exception : List WebSocketServer → Outcome F
  catch_exception servers = if any_running servers then terminates else returns (pos 0)

  pub after_bootstrap : Result (Program F) × List WebSocketServer → Outcome F
  unfolding catch_exception
  after_bootstrap (ok p, servers) = threads p
  after_bootstrap (throws _, servers) = catch_exception servers

  -- main up to where its threads run.
  pub main : Parsed → World F → Outcome F
  unfolding after_bootstrap bootstrap
  main help w = returns (pos 0)
  main parse_error w = returns (negsuc 0)
  main validation_error w = returns (negsuc 1)
  main (accepted flags) w =
      if flags.version then returns (pos 0) else after_bootstrap (bootstrap w flags [])
