-- ===== src/Camera/Tests.antt =====
-- Runs of the camera manager. The matrix is over the integers here.
use ngp_encode_server.Base.{
  ℕ, ◌+◌, ◌%◌, ◌^◌, ◌≡◌, refl, inl, [], ◌∷◌, List, Option, none, some, true, arith,
}
use ngp_encode_server.Base.Int.{ℤ, pos, negsuc}
use ngp_encode_server.Base.Exceptions.{throws, runtime_error}
use ngp_encode_server.Codec.{CodecInitInfo, Answers, CodecManager, opened_from}
use ngp_encode_server.Camera.{Camera, Eye, CameraControl, set_camera, round_down}
use ngp_encode_server.Camera.Sync.{EncodesAt, IsInSync, set_camera_torn}
use ngp_encode_server.Camera.Odd.{send_again, odd_size_reopens}
use ngp_encode_server.Camera.Control.{Message, BothInSync, run_messages, run_messages-BothInSync}

abbrev well : Answers
well = record { finds = true; allocates = true; open_ret = pos 0 }

abbrev refused : Answers
refused = record { finds = true; allocates = true; open_ret = negsuc 21 }

abbrev hd : CodecInitInfo
hd = record {
  codec_id = 27;
  pix_fmt = 0;
  x264_encode_preset = "ultrafast";
  x264_encode_tune = "zerolatency";
  width = 1280;
  height = 720;
  bit_rate = 400000;
  fps = 30;
  keyframe_interval = 250;
}

abbrev running : CodecManager
running = record {
  info = hd;
  opened = true;
  ctx = some 0;
  coder = some (opened_from hd);
  allocated = 1;
  freed = [];
}

abbrev sized : ℕ → ℕ → Camera ℤ
sized w h = record { is_left = true; width = w; height = h; matrix = pos 1 ∷ negsuc 0 ∷ [] }

abbrev eye : Eye ℤ
eye = record { camera = sized 1280 720; scene = running; depth = running }

running-EncodesAt : EncodesAt 1280 720 running
running-EncodesAt = record {
  opened = refl;
  width_agrees = refl;
  height_agrees = refl;
  coder_agrees = refl;
}

eye-IsInSync : IsInSync eye
eye-IsInSync = record { scene_agrees = running-EncodesAt; depth_agrees = running-EncodesAt }

set_camera_torn_example :
    let r = set_camera (sized 641 480) well refused eye in
    (r.1 ≡ throws runtime_error)
    × (r.0.camera ≡ sized 1280 720)
    × EncodesAt (round_down 641) (round_down 480) r.0.scene
    × (r.0.depth.coder ≡ none)
set_camera_torn_example =
    set_camera_torn (sized 641 480) well refused eye eye-IsInSync refl refl refl

abbrev thrice : List (Answers × Answers)
thrice = (well, well) ∷ (well, well) ∷ (well, well) ∷ []

odd_size_reopens_example :
    ((send_again (sized 641 480) thrice eye).scene.allocated ≡ 1 + 3)
    × ((send_again (sized 641 480) thrice eye).depth.allocated ≡ 1 + 3)
odd_size_reopens_example =
    odd_size_reopens (sized 641 480) thrice eye (inl refl) eye-IsInSync (omega arith)
      (refl, refl, (refl, refl, (refl, refl, tt)))

-- A decoder that knows two messages.
parse : List ℕ → Option (Camera ℤ)
parse (w ∷ h ∷ []) = some (sized w h)
parse other = none

abbrev control : CameraControl ℤ
control = record { cameras = record { left = eye; right = eye }; message_count = 0 }

abbrev well_messages : List Message
well_messages =
    record { payload = 101 ∷ 40 ∷ []; scene_answers = well; depth_answers = well }
    ∷ record { payload = []; scene_answers = well; depth_answers = well }
    ∷ []

run_messages-BothInSync_example :
    (s' : CameraControl ℤ) × (run_messages parse well_messages control ≡ some s')
    × BothInSync s'.cameras
    × (s'.message_count ≡ (0 + 2) % 2 ^ 64)
run_messages-BothInSync_example =
    run_messages-BothInSync parse well_messages control (refl, refl, (refl, refl, tt))
      (record { left_agrees = eye-IsInSync; right_agrees = eye-IsInSync }) (omega arith)
