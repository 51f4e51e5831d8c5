-- ===== src/Main.antt =====
-- src/main.cpp: the flags, the start of the program and its end, and here which encoders main hands to
-- the threads of each eye.
pub mod Flags
pub mod Startup
pub mod Shutdown
pub mod Joining
pub mod Serving
pub mod Session
pub mod Interleaved
pub mod Running
mod Tests
use ngp_encode_server.Base.{ℕ, ◌≡◌, ◌≢◌, sym, ap, ◌∙◌, Bool, true, false, if◌then◌else◌}
use ngp_encode_server.Codec.{Answers, CodecManager}
use ngp_encode_server.Codec.Resolution.{all_well}
use ngp_encode_server.Camera.{Camera, CameraManager, has_size_of, round_down, set_camera_right}
use ngp_encode_server.Camera.Sync.{IsInSync, set_camera-IsInSync, rounded}
use ngp_encode_server.Client.{rgb24, gray8}
use ngp_encode_server.RenderedFrame.{Response, RenderedFrame, construct}

-- The four encoders that main makes.
pub data Encoder : Type 0 where
  codec_scene_left codec_depth_left codec_scene_right codec_depth_right : Encoder

-- The two that the client threads get, for the frames of both eyes.
pub client_scene : Encoder
client_scene = codec_scene_left

pub client_depth : Encoder
client_depth = codec_depth_left

-- The two that the sender of an eye gets; `true` is the left eye.
pub sender_scene : Bool → Encoder
sender_scene is_left = if is_left then codec_scene_left else codec_scene_right

pub sender_depth : Bool → Encoder
sender_depth is_left = if is_left then codec_depth_left else codec_depth_right

module _ {ℓ} {F : Type ℓ} where
  -- The camera manager keeps the same four.
  pub encoder : Encoder → CameraManager F → CodecManager
  encoder codec_scene_left m = m.left.scene
  encoder codec_depth_left m = m.left.depth
  encoder codec_scene_right m = m.right.scene
  encoder codec_depth_right m = m.right.depth

  -- The frame that a client thread makes of an answer.
  pub frame_of : Response F → CameraManager F → RenderedFrame F
  frame_of r m = construct r rgb24 gray8 (encoder client_scene m).info (encoder client_depth m).info

  -- The frames of the right eye are converted to the size of the left eye's encoders: once the camera
  -- of the right eye has been set to a new size that is not that of the left eye, whatever the
  -- renderer answers, the frame's scene has not the width at which the encoder of the right eye is
  -- open then. libavcodec does its part, and the right eye was in order before.
  pub right_frames_misfit :
      (cam : Camera F) (a b : Answers) (m : CameraManager F) (r : Response F)
      → IsInSync m.right
      → has_size_of m.right.camera cam ≡ false
      → all_well a ≡ true
      → all_well b ≡ true
      → m.left.scene.info.width ≢ round_down cam.width
      → let m' = (set_camera_right cam a b m).0 in
        (frame_of r m').converted_scene.width ≢ (encoder (sender_scene false) m').info.width
  unfolding frame_of encoder client_scene client_depth sender_scene construct set_camera_right
  right_frames_misfit cam a b m r v new well well' differs same =
      let (_, sync, stored) = set_camera-IsInSync cam a b m.right v well well' in
      let camera = rw new at stored in
      differs (same ∙ sync.scene_agrees.width_agrees ∙ ap (λ c. c.width) camera)
