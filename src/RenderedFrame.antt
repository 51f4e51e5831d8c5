-- ===== src/RenderedFrame.antt =====
-- RenderedFrame (src/base/video/rendered_frame.cc, include/base/video/rendered_frame.h): what a
-- renderer answered, and the contexts of its two images before and after their conversion. The pixels
-- are converted by libswscale, which enters by whether sws_getContext gives a context.
use ngp_encode_server.Base.{
  ℕ, ◌≡◌, ap, ◌∙◌, Bool-cases, inl, inr, List, Bool, true, false, if◌then◌else◌,
}
use ngp_encode_server.Base.Exceptions.{Result, ok, throws, runtime_error}
use ngp_encode_server.Codec.{CodecInitInfo}
use ngp_encode_server.Camera.{Camera}

-- nesproto::RenderedFrame (proto/nes.proto)
pub record Response {ℓ} (F : Type ℓ) : Type ℓ where
  pub index : ℕ
  pub camera : Camera F
  pub is_left : Bool
  pub frame : List ℕ
  pub depth : List ℕ

-- FrameManager::FrameContext
pub record FrameContext : Type 0 where
  pub width : ℕ
  pub height : ℕ
  pub pix_fmt : ℕ

-- FrameContext(CodecInfoProvider)
abbrev pub of_codec : CodecInitInfo → FrameContext
of_codec i = record { width = i.width; height = i.height; pix_fmt = i.pix_fmt }

pub record RenderedFrame {ℓ} (F : Type ℓ) : Type ℓ where
  pub frame_response : Response F
  pub source_scene : FrameContext
  pub converted_scene : FrameContext
  pub source_depth : FrameContext
  pub converted_depth : FrameContext
  pub converted : Bool

module _ {ℓ} {F : Type ℓ} where
  abbrev pub of_camera : Response F → ℕ → FrameContext
  of_camera r pix_fmt = record {
    width = r.camera.width;
    height = r.camera.height;
    pix_fmt = pix_fmt;
  }

  -- The constructor; the last two arguments are what get_codec_info of the two encoders returns.
  unfoldable pub construct : Response F → ℕ → ℕ → CodecInitInfo → CodecInitInfo → RenderedFrame F
  construct r pix_fmt_scene pix_fmt_depth scene depth = record {
    frame_response = r;
    source_scene = of_camera r pix_fmt_scene;
    converted_scene = of_codec scene;
    source_depth = of_camera r pix_fmt_depth;
    converted_depth = of_codec depth;
    converted = false;
  }

  abbrev converts_depth : Bool → RenderedFrame F → RenderedFrame F × Result (Unit {0})
  converts_depth depth_ok f =
      if depth_ok then (record f { converted = true }, ok tt) else (f, throws runtime_error)

  abbrev converts : Bool → Bool → RenderedFrame F → RenderedFrame F × Result (Unit {0})
  converts scene_ok depth_ok f =
      if scene_ok then converts_depth depth_ok f else (f, throws runtime_error)

  -- convert_frame; the arguments tell whether a context is had for the scene and for the depth.
  pub convert_frame : Bool → Bool → RenderedFrame F → RenderedFrame F × Result (Unit {0})
  convert_frame scene_ok depth_ok f =
      if f.converted
      then (f, throws runtime_error)
      else if scene_ok
      then if depth_ok then (record f { converted = true }, ok tt) else (f, throws runtime_error)
      else (f, throws runtime_error)

  -- The first conversion succeeds if libswscale gives both contexts.
  pub convert_frame-converts :
      (scene_ok depth_ok : Bool) (f : RenderedFrame F)
      → f.converted ≡ false
      → scene_ok ≡ true
      → depth_ok ≡ true
      → convert_frame scene_ok depth_ok f ≡ (record f { converted = true }, ok tt)
  unfolding convert_frame
  convert_frame-converts scene_ok depth_ok f fresh scene depth =
      ap (λ b. if b then (f, throws runtime_error) else converts scene_ok depth_ok f) fresh
      ∙ ap (λ b. if b then converts_depth depth_ok f else (f, throws runtime_error)) scene
      ∙ ap (λ b. if b then (record f { converted = true }, ok tt) else (f, throws runtime_error))
          depth

  -- The index of the answer stays, whatever the conversion ends with.
  pub convert_frame-index :
      (scene_ok depth_ok : Bool) (f : RenderedFrame F)
      → (convert_frame scene_ok depth_ok f).0.frame_response.index ≡ f.frame_response.index
  unfolding convert_frame
  convert_frame-index scene_ok depth_ok f = elim (Bool-cases f.converted) [
    | inl again ↦ rw again
    | inr first ↦ elim (Bool-cases scene_ok) [
      | inr bad ↦ rw (first, bad)
      | inl good ↦ elim (Bool-cases depth_ok) [
        | inr bad ↦ rw (first, good, bad)
        | inl fine ↦ rw (first, good, fine)
      ]
    ]
  ]
