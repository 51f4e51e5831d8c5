-- ===== src/Camera.antt =====
-- CameraManager and CameraControlServer (src/base/camera_manager.cc, include/base/camera_manager.h,
-- src/base/server/camera_control.cc): the camera of each eye, and the two encoders of each eye that
-- follow its resolution. The type of the matrix entries (float) and the decoder of protobuf messages
-- are parameters; what libavcodec answers to a change of resolution is an argument.
pub mod Sync
pub mod Odd
pub mod Control
mod Tests
use ngp_encode_server.Base.{
  ℕ, ◌+◌, ◌-◌, ◌%◌, ◌^◌, ◌≡◌, List, Option, none, some, Bool, true, false, not, ◌||◌, ◌==◌,
  if◌then◌else◌,
}
use ngp_encode_server.Base.Exceptions.{Result, ok, throws}
use ngp_encode_server.Codec.{CodecManager, Answers, change_resolution}

-- nesproto::Camera (proto/nes.proto). The dimensions are uint32.
pub record Camera {ℓ} (F : Type ℓ) : Type ℓ where
  pub is_left : Bool
  pub width : ℕ
  pub height : ℕ
  pub matrix : List F

-- What the manager keeps of one eye: its camera and its two encoders.
pub record Eye {ℓ} (F : Type ℓ) : Type ℓ where
  pub camera : Camera F
  pub scene : CodecManager
  pub depth : CodecManager

pub record CameraManager {ℓ} (F : Type ℓ) : Type ℓ where
  pub left : Eye F
  pub right : Eye F

-- `if (n % 2 != 0) n - 1`
unfoldable pub round_down : ℕ → ℕ
round_down n = if not (n % 2 == 0) then n - 1 else n

module _ {ℓ} {F : Type ℓ} where
  abbrev pub initial_camera : List F → ℕ → ℕ → Camera F
  initial_camera matrix width height = record {
    is_left = false;
    width = width;
    height = height;
    matrix = matrix;
  }

  -- CameraManager::CameraManager; `matrix` is kInitialCameraMatrix.
  pub construct :
      List F → CodecManager → CodecManager → CodecManager → CodecManager → ℕ → ℕ → CameraManager F
  construct matrix scene_left depth_left scene_right depth_right width height = record {
    left = record {
      camera = initial_camera matrix width height;
      scene = scene_left;
      depth = depth_left;
    };
    right = record {
      camera = initial_camera matrix width height;
      scene = scene_right;
      depth = depth_right;
    };
  }

  abbrev pub has_size_of : Camera F → Camera F → Bool
  has_size_of c d = not (not (c.width == d.width) || not (c.height == d.height))

  -- The second encoder, once the first has changed.
  change_depth : Camera F → Answers → Eye F → Eye F × Result (Unit {0})
  change_depth camera a e =
      let (depth, r) = change_resolution camera.width camera.height a e.depth in
      elim r [
        | ok _ ↦ (record e { camera = camera; depth = depth }, ok tt)
        | throws x ↦ (record e { depth = depth }, throws x)
      ]

  change_both : Camera F → Answers → Answers → Eye F → Eye F × Result (Unit {0})
  unfolding change_depth
  change_both camera a b e =
      let (scene, r) = change_resolution camera.width camera.height a e.scene in
      elim r [
        | ok _ ↦ change_depth camera b (record e { scene = scene })
        | throws x ↦ (record e { scene = scene }, throws x)
      ]

  -- The common text of set_camera_left and set_camera_right.
  pub set_camera : Camera F → Answers → Answers → Eye F → Eye F × Result (Unit {0})
  unfolding change_both
  set_camera camera a b e =
      if has_size_of e.camera camera
      then (record e { camera = camera }, ok tt)
      else change_both
          (record camera { width = round_down camera.width; height = round_down camera.height }) a b
          e

  pub set_camera_left :
      Camera F → Answers → Answers → CameraManager F → CameraManager F × Result (Unit {0})
  set_camera_left camera a b m =
      let (e, r) = set_camera camera a b m.left in (record m { left = e }, r)

  unfoldable pub set_camera_right :
      Camera F → Answers → Answers → CameraManager F → CameraManager F × Result (Unit {0})
  set_camera_right camera a b m =
      let (e, r) = set_camera camera a b m.right in (record m { right = e }, r)

  -- `if (cam.is_left())` in CameraControlServer::message_handler
  set_by_side :
      Bool → Camera F → Answers → Answers → CameraManager F → CameraManager F × Result (Unit {0})
  set_by_side true = set_camera_left
  set_by_side false = set_camera_right

-- CameraControlServer
pub record CameraControl {ℓ} (F : Type ℓ) : Type ℓ where
  pub cameras : CameraManager F
  pub message_count : ℕ

-- `parse` is Camera::ParseFromString.
module _ {ℓ} {F : Type ℓ} (parse : List ℕ → Option (Camera F)) where
  count_message : CameraControl F → CameraControl F
  count_message s = record s { message_count = (s.message_count + 1) % 2 ^ 64 }

  -- An exception of the camera manager leaves the handler before the message is counted.
  after_set :
      CameraControl F → CameraManager F × Result (Unit {0}) → CameraControl F × Result (Unit {0})
  unfolding count_message
  after_set s (m, ok _) = (count_message (record s { cameras = m }), ok tt)
  after_set s (m, throws x) = (record s { cameras = m }, throws x)

  -- CameraControlServer::message_handler
  pub message_handler :
      List ℕ → Answers → Answers → CameraControl F → CameraControl F × Result (Unit {0})
  unfolding count_message after_set set_by_side
  message_handler payload a b s = elim (parse payload) [
    | none ↦ (count_message s, ok tt)
    | some cam ↦ after_set s (set_by_side cam.is_left cam a b s.cameras)
  ]
