-- ===== src/Encode/Send.antt =====
-- What a round of send_frame_thread does.
use ngp_encode_server.Base.{
  ◌+◌, ◌%◌, ◌^◌, ◌≡◌, refl, ap, ◌∷◌, some, none, true, if◌then◌else◌, ◌∙◌, Bool-cases, inl, inr,
}
use ngp_encode_server.Base.Int.{ℤ}
use ngp_encode_server.Base.Exceptions.{Result, ok, throws, runtime_error}
use ngp_encode_server.FrameMap.{FrameMap, IsValid, get_delete}
use ngp_encode_server.FrameMap.View.{view, get_delete-view}
use ngp_encode_server.RenderedFrame.{RenderedFrame}
use ngp_encode_server.Encode.{
  Eye, next, Sending, count_frame, send_round, on_get, on_sent, send_depth_next, send_scene,
  send_depth, switch_ret, catch_sender,
}

module _ {ℓ} {F : Type ℓ} where
  get_unaware :
      (a : Sending) (scene_ret depth_ret : ℤ) (m : FrameMap (RenderedFrame F))
      (r : Result (RenderedFrame F)) (e : Eye F)
      → on_get (record a { scene_ret = scene_ret; depth_ret = depth_ret }) (m, r) e
        ≡ on_get a (m, r) e
  unfolding on_get on_sent send_depth_next send_scene send_depth switch_ret
  get_unaware a scene_ret depth_ret m (throws x) e = refl
  get_unaware a scene_ret depth_ret m (ok f) e = elim (Bool-cases a.scene_wraps) [
    | inr unwrapped ↦ rw unwrapped
    | inl wrapped ↦ elim (Bool-cases a.depth_wraps) [
      | inr unwrapped ↦ rw (wrapped, unwrapped)
      | inl wrapped' ↦ rw (wrapped, wrapped')
    ]
  ]

  -- What the encoders return has no effect on the sender: a frame that both refuse counts as sent,
  -- and the sender goes on to the next index.
  pub send_round_unaware :
      (a : Sending) (scene_ret depth_ret : ℤ) (e : Eye F)
      → send_round (record a { scene_ret = scene_ret; depth_ret = depth_ret }) e ≡ send_round a e
  unfolding send_round
  send_round_unaware a scene_ret depth_ret e =
      let (m, r) = get_delete e.frame_index e.encode_queue in
      get_unaware a scene_ret depth_ret m r e

  abbrev pub after : Sending → RenderedFrame F → Eye F → Eye F
  after a f e = record e {
    to_scene = f ∷ e.to_scene;
    to_depth = f ∷ e.to_depth;
    sent = count_frame a.time e.sent;
    frame_index = (e.frame_index + 1) % 2 ^ 64;
  }

  get_serves :
      (a : Sending) (f : RenderedFrame F) (m : FrameMap (RenderedFrame F)) (e : Eye F)
      → a.scene_wraps ≡ true
      → a.depth_wraps ≡ true
      → on_get a (m, ok f) e ≡ (next, after a f (record e { encode_queue = m }))
  unfolding on_get on_sent send_depth_next send_scene send_depth switch_ret
  get_serves a f m e scene depth =
      ap
        (λ b. on_sent a (
          send_depth_next a f (
            if b
            then (record e { encode_queue = m; to_scene = f ∷ e.to_scene }, switch_ret a.scene_ret)
            else (record e { encode_queue = m }, throws runtime_error))))
        scene
      ∙ ap
          (λ b. on_sent a (
            if b
            then (
              record e { encode_queue = m; to_scene = f ∷ e.to_scene; to_depth = f ∷ e.to_depth },
              ok tt,
            )
            else (record e { encode_queue = m; to_scene = f ∷ e.to_scene }, throws runtime_error)))
          depth

  pub send_round_lem :
      (a : Sending) (f : RenderedFrame F) (e : Eye F)
      → IsValid e.encode_queue
      → view e.encode_queue e.frame_index ≡ some f
      → a.scene_wraps ≡ true
      → a.depth_wraps ≡ true
      → send_round a e ≡ (
        next,
        after a f (record e { encode_queue = (get_delete e.frame_index e.encode_queue).0 }),
      )
  unfolding send_round
  send_round_lem a f e valid waits scene depth =
      let (_, found, _) = get_delete-view e.frame_index e.encode_queue valid in
      let taken : (get_delete e.frame_index e.encode_queue).1 ≡ ok f = rw (found, waits) in
      let m = (get_delete e.frame_index e.encode_queue).0 in
      ap (λ r. on_get a (m, r) e) taken ∙ get_serves a f m e scene depth

  -- An index without a frame costs the sender one timeout: it hands over nothing, and goes on to the
  -- next index.
  pub send_round_skips :
      (a : Sending) (e : Eye F)
      → IsValid e.encode_queue
      → view e.encode_queue e.frame_index ≡ none
      → let (end, e') = send_round a e in
        (end ≡ next)
        × (e'.to_scene ≡ e.to_scene)
        × (e'.to_depth ≡ e.to_depth)
        × (e'.frame_index ≡ (e.frame_index + 1) % 2 ^ 64)
  unfolding send_round on_get catch_sender
  send_round_skips a e valid missing =
      let (_, timeout, _) = get_delete-view e.frame_index e.encode_queue valid in
      rw (timeout, missing, on_get) (refl, refl, refl, refl)
