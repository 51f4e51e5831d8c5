-- ===== src/Camera/Odd.antt =====
-- Odd dimensions. "Resolution must be divisible by 2" (src/base/camera_manager.cc): what
-- `set_camera` stores, and what happens when a client keeps sending an odd size.
use ngp_encode_server.Base.{ℕ, ◌+◌, ◌%◌, ◌≡◌, ◌⊎◌, List, [], ◌∷◌, length, true, false, arith}
use ngp_encode_server.Codec.{Answers}
use ngp_encode_server.Codec.Resolution.{all_well, change_resolution-allocated}
use ngp_encode_server.Camera.{
  Camera, Eye, round_down, set_camera, change_both, change_depth, has_size_of,
}
use ngp_encode_server.Camera.Sync.{
  IsInSync, change_resolution-EncodesAt, set_camera-IsInSync, rounded,
}

round_down_even : (n : ℕ) → round_down n % 2 ≡ 0
unfolding round_down
round_down_even n = ground arith

abbrev pub AllWell : List (Answers × Answers) → Type 0
AllWell [] = Unit
AllWell ((a, b) ∷ rest) = (all_well a ≡ true) × (all_well b ≡ true) × AllWell rest

module _ {ℓ} {F : Type ℓ} where
  abbrev pub IsEven : Camera F → Type 0
  IsEven c = (c.width % 2 ≡ 0) × (c.height % 2 ≡ 0)

  change_both-IsEven :
      (c : Camera F) (a b : Answers) (e : Eye F)
      → IsEven c
      → IsEven e.camera
      → IsEven (change_both c a b e).0.camera
  unfolding change_both change_depth
  change_both-IsEven c a b e h k = ground arith

  -- Even dimensions stay even, whatever libavcodec answers and whatever size is asked for.
  pub set_camera-IsEven :
      (c : Camera F) (a b : Answers) (e : Eye F)
      → IsEven e.camera
      → IsEven (set_camera c a b e).0.camera
  unfolding set_camera
  set_camera-IsEven c a b e k = ground (
    arith,
    round_down_even c.width,
    round_down_even c.height,
    change_both-IsEven (rounded c) a b e,
  )

  -- The same camera, sent once for each pair of answers.
  pub send_again : Camera F → List (Answers × Answers) → Eye F → Eye F
  send_again c [] e = e
  send_again c ((a, b) ∷ rest) e = send_again c rest (set_camera c a b e).0

  odd_is_new :
      (c : Camera F) (e : Eye F)
      → (c.width % 2 ≡ 1) ⊎ (c.height % 2 ≡ 1)
      → IsEven e.camera
      → has_size_of e.camera c ≡ false
  odd_is_new c e odd even = ground arith

  set_camera-allocated :
      (c : Camera F) (a b : Answers) (e : Eye F)
      → IsInSync e
      → has_size_of e.camera c ≡ false
      → all_well a ≡ true
      → all_well b ≡ true
      → ((set_camera c a b e).0.scene.allocated ≡ e.scene.allocated + 1)
        × ((set_camera c a b e).0.depth.allocated ≡ e.depth.allocated + 1)
  unfolding set_camera change_both change_depth
  set_camera-allocated c a b e v other well well' =
      let w = round_down c.width in
      let h = round_down c.height in
      let o = v.scene_agrees.opened in
      let p = v.depth_agrees.opened in
      let (r, _) = change_resolution-EncodesAt w h a e.scene o well in
      let (r', _) = change_resolution-EncodesAt w h b e.depth p well' in
      rw (other, r, change_both, r', change_depth)
        (
          change_resolution-allocated w h a e.scene o well,
          change_resolution-allocated w h b e.depth p well',
        )

  -- A client that keeps sending one odd size to an eye in step and of even size reopens both encoders
  -- with every message: each message allocates a new context for either.
  pub odd_size_reopens :
      (c : Camera F) (rest : List (Answers × Answers)) (e : Eye F)
      → (c.width % 2 ≡ 1) ⊎ (c.height % 2 ≡ 1)
      → IsInSync e
      → IsEven e.camera
      → AllWell rest
      → ((send_again c rest e).scene.allocated ≡ e.scene.allocated + length rest)
        × ((send_again c rest e).depth.allocated ≡ e.depth.allocated + length rest)
  unfolding send_again
  odd_size_reopens c [] e odd v even well = omega arith
  odd_size_reopens c ((a, b) ∷ rest) e odd v even well =
      let (_, v', _) = set_camera-IsInSync c a b e v well.0 well.1 in
      let ih =
        odd_size_reopens c rest (set_camera c a b e).0 odd v' (set_camera-IsEven c a b e even)
          well.2 in
      omega (arith, ih, set_camera-allocated c a b e v (odd_is_new c e odd even) well.0 well.1)
