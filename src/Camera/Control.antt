-- ===== src/Camera/Control.antt =====
-- The messages of the camera control server against both eyes.
use ngp_encode_server.Base.{
  ℕ, ◌+◌, ◌%◌, ◌^◌, ◌≡◌, ◌<◌, refl, List, [], ◌∷◌, Option, none, some, Bool, true, false, arith,
  length, Option-cases, inl, inr,
}
use ngp_encode_server.Base.Exceptions.{Result, ok, throws}
use ngp_encode_server.Codec.{Answers, CodecManager}
use ngp_encode_server.Codec.Resolution.{all_well}
use ngp_encode_server.Camera.{
  Camera, CameraManager, CameraControl, set_by_side, set_camera_left, set_camera_right, after_set,
  message_handler, construct,
}
use ngp_encode_server.Camera.Sync.{EncodesAt, IsInSync, set_camera-IsInSync}

-- A message, with what libavcodec answers if it changes a resolution.
pub record Message : Type 0 where
  pub payload : List ℕ
  pub scene_answers : Answers
  pub depth_answers : Answers

abbrev pub AllWell : List Message → Type 0
AllWell [] = Unit
AllWell (m ∷ ms) =
    (all_well m.scene_answers ≡ true) × (all_well m.depth_answers ≡ true) × AllWell ms

module _ {ℓ} {F : Type ℓ} where
  -- Both eyes agree with their encoders.
  pub record BothInSync (m : CameraManager F) : Type 0 where
    pub left_agrees : IsInSync m.left
    pub right_agrees : IsInSync m.right

  -- Four encoders that are open at the size of the constructor agree with its cameras.
  pub construct-BothInSync :
      (matrix : List F) {w h : ℕ} {a b c d : CodecManager}
      → EncodesAt w h a
      → EncodesAt w h b
      → EncodesAt w h c
      → EncodesAt w h d
      → BothInSync (construct matrix a b c d w h)
  unfolding construct
  construct-BothInSync matrix va vb vc vd = record {
    left_agrees = record { scene_agrees = va; depth_agrees = vb };
    right_agrees = record { scene_agrees = vc; depth_agrees = vd };
  }

  set_by_side-BothInSync :
      (side : Bool) (c : Camera F) (a b : Answers) (m : CameraManager F)
      → all_well a ≡ true
      → all_well b ≡ true
      → BothInSync m
      → ((set_by_side side c a b m).1 ≡ ok tt) × BothInSync (set_by_side side c a b m).0
  unfolding set_by_side set_camera_left set_camera_right
  set_by_side-BothInSync true c a b m well well' v =
      let (r, w, _) = set_camera-IsInSync c a b m.left v.left_agrees well well' in
      (r, record { left_agrees = w; right_agrees = v.right_agrees })
  set_by_side-BothInSync false c a b m well well' v =
      let (r, w, _) = set_camera-IsInSync c a b m.right v.right_agrees well well' in
      (r, record { left_agrees = v.left_agrees; right_agrees = w })

module _ {ℓ} {F : Type ℓ} (parse : List ℕ → Option (Camera F)) where
  -- The server until a handler throws: `none` then.
  pub run_messages : List Message → CameraControl F → Option (CameraControl F)
  run_messages [] s = some s
  run_messages (m ∷ ms) s =
      let (s', r) = message_handler parse m.payload m.scene_answers m.depth_answers s in
      let rest = run_messages ms s' in elim r [ ok _ ↦ rest | throws _ ↦ none ]

  -- What a handled message keeps and counts.
  record IsHandled (s : CameraControl F) (r : CameraControl F × Result (Unit {0})) : Type 0 where
    returned : r.1 ≡ ok tt
    in_sync : BothInSync r.0.cameras
    counted : r.0.message_count ≡ (s.message_count + 1) % 2 ^ 64

  message_handler-IsHandled :
      (m : Message) (s : CameraControl F)
      → all_well m.scene_answers ≡ true
      → all_well m.depth_answers ≡ true
      → BothInSync s.cameras
      → IsHandled s (message_handler parse m.payload m.scene_answers m.depth_answers s)
  unfolding message_handler
  message_handler-IsHandled m s well well' v = elim (Option-cases (parse m.payload)) [
    | inl bad ↦ rw (bad, message_handler) (record { returned = refl; in_sync = v; counted = refl })
    | inr (cam, good) ↦
        let (r, w) =
          set_by_side-BothInSync cam.is_left cam m.scene_answers m.depth_answers s.cameras well
            well' v in
        rw (good, message_handler, r, after_set)
          (record { returned = refl; in_sync = w; counted = refl })
  ]

  -- While libavcodec does its part, the camera control server handles every sequence of messages,
  -- also ones that are no cameras, without an exception; both encoders of both eyes stay open at the
  -- resolution of the eye's camera, and the messages are counted modulo 2 ^ 64.
  pub run_messages-BothInSync :
      (ms : List Message) (s : CameraControl F)
      → AllWell ms
      → BothInSync s.cameras
      → s.message_count < 2 ^ 64
      → (s' : CameraControl F) × (run_messages ms s ≡ some s')
        × BothInSync s'.cameras
        × (s'.message_count ≡ (s.message_count + length ms) % 2 ^ 64)
  unfolding run_messages
  run_messages-BothInSync [] s well v small = (s, refl, v, omega arith)
  run_messages-BothInSync (m ∷ ms) s well v small =
      let t = (message_handler parse m.payload m.scene_answers m.depth_answers s).0 in
      let h = message_handler-IsHandled m s well.0 well.1 v in
      let (s', r, w, n) =
        run_messages-BothInSync ms t well.2 h.in_sync (omega (arith, h.counted)) in
      (s', rw (h.returned, run_messages) r, w, omega (arith, n, h.counted))
