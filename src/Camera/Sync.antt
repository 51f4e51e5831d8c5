-- ===== src/Camera/Sync.antt =====
-- The resolutions of the camera of an eye and of its encoders.
use ngp_encode_server.Base.{
  ℕ, ◌≡◌, refl, ap, ◌∙◌, none, some, true, false, if◌then◌else◌, arith, Bool-cases, inl, inr,
}
use ngp_encode_server.Base.Exceptions.{ok, throws, runtime_error}
use ngp_encode_server.Codec.{CodecManager, Answers, change_resolution, opened_from}
use ngp_encode_server.Codec.Resolution.{all_well, change_resolution-coder, change_resolution_opened}
use ngp_encode_server.Camera.{
  Camera, Eye, round_down, set_camera, change_both, change_depth, has_size_of,
}

-- The encoder is open, with its own settings, at this size.
pub record EncodesAt (width height : ℕ) (m : CodecManager) : Type 0 where
  pub opened : m.opened ≡ true
  pub width_agrees : m.info.width ≡ width
  pub height_agrees : m.info.height ≡ height
  pub coder_agrees : m.coder ≡ some (opened_from m.info)

resize : {w w' h h' : ℕ} {m : CodecManager} → w ≡ w' → h ≡ h' → EncodesAt w h m → EncodesAt w' h' m
resize p q v = record {
  opened = v.opened;
  width_agrees = v.width_agrees ∙ p;
  height_agrees = v.height_agrees ∙ q;
  coder_agrees = v.coder_agrees;
}

pub change_resolution-EncodesAt :
    (w h : ℕ) (a : Answers) (m : CodecManager)
    → m.opened ≡ true
    → all_well a ≡ true
    → ((change_resolution w h a m).1 ≡ ok tt) × EncodesAt w h (change_resolution w h a m).0
change_resolution-EncodesAt w h a m o well =
    let (info, result, coder) = change_resolution-coder w h a m o in
    let opened = change_resolution_opened w h a m o in
    (
      rw (result, well),
      record {
        opened = opened;
        width_agrees = ap (λ i. i.width) info;
        height_agrees = ap (λ i. i.height) info;
        coder_agrees = rw (coder, well, info);
      },
    )

module _ {ℓ} {F : Type ℓ} where
  pub record IsInSync (e : Eye F) : Type 0 where
    pub scene_agrees : EncodesAt e.camera.width e.camera.height e.scene
    pub depth_agrees : EncodesAt e.camera.width e.camera.height e.depth

  change_both-IsInSync :
      (c : Camera F) (a b : Answers) (e : Eye F)
      → e.scene.opened ≡ true
      → e.depth.opened ≡ true
      → all_well a ≡ true
      → all_well b ≡ true
      → ((change_both c a b e).1 ≡ ok tt)
        × IsInSync (change_both c a b e).0
        × ((change_both c a b e).0.camera ≡ c)
  unfolding change_both
  change_both-IsInSync c a b e o p well well' =
      let (r, s) = change_resolution-EncodesAt c.width c.height a e.scene o well in
      let (r', s') = change_resolution-EncodesAt c.width c.height b e.depth p well' in
      rw (r, change_both, r', change_depth)
        (refl, record { scene_agrees = s; depth_agrees = s' }, refl)

  -- The camera that a change of size stores.
  abbrev pub rounded : Camera F → Camera F
  rounded c = record c { width = round_down c.width; height = round_down c.height }

  has_size_of→eq :
      (c d : Camera F) → has_size_of c d ≡ true → (c.width ≡ d.width) × (c.height ≡ d.height)
  has_size_of→eq c d h = (ground arith, ground arith)

  -- While libavcodec does its part, setting the camera of an eye succeeds and leaves its two encoders
  -- open at the resolution of its camera, which is the camera given, with odd dimensions rounded down
  -- if its size is new.
  pub set_camera-IsInSync :
      (c : Camera F) (a b : Answers) (e : Eye F)
      → IsInSync e
      → all_well a ≡ true
      → all_well b ≡ true
      → ((set_camera c a b e).1 ≡ ok tt)
        × IsInSync (set_camera c a b e).0
        × ((set_camera c a b e).0.camera ≡ (if has_size_of e.camera c then c else rounded c))
  unfolding set_camera
  set_camera-IsInSync c a b e v well well' = elim (Bool-cases (has_size_of e.camera c)) [
    | inl same ↦
        let (w, h) = has_size_of→eq e.camera c same in
        rw same (
          refl,
          record {
            scene_agrees = resize w h v.scene_agrees;
            depth_agrees = resize w h v.depth_agrees;
          },
          refl,
        )
    | inr other ↦ rw other (
        change_both-IsInSync (rounded c) a b e v.scene_agrees.opened v.depth_agrees.opened well
          well')
  ]

  -- If the second encoder of the eye cannot be reopened at a new size, the exception leaves the eye
  -- torn: the camera keeps its old size, the scene encoder is open at the new one and no depth encoder
  -- is open.
  pub set_camera_torn :
      (c : Camera F) (a b : Answers) (e : Eye F)
      → IsInSync e
      → has_size_of e.camera c ≡ false
      → all_well a ≡ true
      → all_well b ≡ false
      → let r = set_camera c a b e in
        (r.1 ≡ throws runtime_error)
        × (r.0.camera ≡ e.camera)
        × EncodesAt (round_down c.width) (round_down c.height) r.0.scene
        × (r.0.depth.coder ≡ none)
  unfolding set_camera change_both
  set_camera_torn c a b e v other well bad =
      let w = round_down c.width in
      let h = round_down c.height in
      let (r, s) = change_resolution-EncodesAt w h a e.scene v.scene_agrees.opened well in
      let (_, r', coder) = change_resolution-coder w h b e.depth v.depth_agrees.opened in
      rw (other, r, change_both, r', bad, change_depth) (refl, refl, s, rw (coder, bad))
