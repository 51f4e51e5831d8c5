-- ===== src/Encode/Overlay.antt =====
-- The texts that process_frame_thread draws on the image of the scene, in the buffer of the answer.
use Prim.Native.String.{String, ◌++◌, char_at}
use Prim.Native.String.{[], ◌∷◌}
use ngp_encode_server.Base.{
  ℕ, zero, suc, ◌/◌, ◌%◌, ◌≡◌, refl, List, [], ◌∷◌, ltb, ◌==◌, if◌then◌else◌,
}
use Prim.Native.Char.{Char}
use ngp_encode_server.RenderText.{
  Glyph, RenderPosition, left_top, left_bottom, right_top, center, render_string_to_frame, paint,
  slot_after,
}
use ngp_encode_server.RenderedFrame.{RenderedFrame, FrameContext}

-- What the texts are made with. `load` and `slot` are the font's: what its slot holds after a
-- character is loaded, and at first. `format` prints a number of the matrix, `zero` and `one` are 0.f
-- and 1.f.
pub record Texts {ℓ} (F : Type ℓ) : Type ℓ where
  pub load : Char → Glyph → Glyph
  pub slot : Glyph
  pub format : F → String
  pub zero : F
  pub one : F
  pub timestamp : String

unfoldable pub digit : ℕ → String
digit n = char_at "0123456789" n ∷ []

-- std::to_string, of a number with at most `digits` digits.
unfoldable pub to_string : ℕ → ℕ → String
to_string zero n = ""
to_string (suc digits) n =
    let front = to_string digits (n / 10) in if ltb n 10 then digit n else front ++ digit (n % 10)

-- std::setw(3) with std::setfill('0'), of a number below 1000.
unfoldable pub fill_3 : ℕ → String
fill_3 n =
    if ltb n 10
    then "00" ++ to_string 3 n
    else if ltb n 100
    then "0" ++ to_string 3 n
    else to_string 3 n

-- timestamp; `localtime` is the local time as put_time prints it by "%T", and the clock shows
-- `milliseconds` since the epoch.
unfoldable pub timestamp : String → ℕ → String
timestamp localtime milliseconds = localtime ++ "." ++ fill_3 (milliseconds % 1000)

module _ {ℓ} {F : Type ℓ} (t : Texts F) where
  -- The numbers of the matrix, `idx` of them before, with a line break behind each fourth one.
  unfoldable pub matrix_text : ℕ → List F → String
  matrix_text idx [] =
      t.format t.zero
      ++ " "
      ++ t.format t.zero
      ++ " "
      ++ t.format t.zero
      ++ " "
      ++ t.format t.one
      ++ " "
  matrix_text idx (it ∷ rest) =
      let lines = matrix_text (suc idx) rest in
      t.format it ++ " " ++ (if suc idx % 4 == 0 then "\n" else "") ++ lines

  -- The four texts, in the order in which they are drawn; a uint64 has at most 20 digits.
  unfoldable pub texts : RenderedFrame F → List (RenderPosition × String)
  texts f =
      (center, matrix_text 0 f.frame_response.camera.matrix)
      ∷ (left_bottom, "index=" ++ to_string 20 f.frame_response.index)
      ∷ (left_top, t.timestamp)
      ∷ (right_top, if f.frame_response.is_left then "direction=left" else "direction=right")
      ∷ []

  -- The calls of render_string_to_frame, one after the other.
  draw_all : FrameContext → List (RenderPosition × String) → Glyph → List ℕ → List ℕ
  draw_all context [] slot pixels = pixels
  draw_all context ((opt, content) ∷ rest) slot pixels =
      draw_all context rest (slot_after t.load content slot)
        (paint (render_string_to_frame context.width context.height t.load slot opt content) pixels)

  -- The four calls of render_string_to_frame.
  pub overlay : RenderedFrame F → RenderedFrame F
  unfolding draw_all texts
  overlay f = record f {
    frame_response = record f.frame_response {
      frame = draw_all f.source_scene (texts f) t.slot f.frame_response.frame;
    };
  }

  pub index-overlay :
      (f : RenderedFrame F) → (overlay f).frame_response.index ≡ f.frame_response.index
  unfolding overlay
  index-overlay f = refl

  pub converted-overlay : (f : RenderedFrame F) → (overlay f).converted ≡ f.converted
  unfolding overlay
  converted-overlay f = refl
