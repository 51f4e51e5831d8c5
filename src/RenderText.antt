-- ===== src/RenderText.antt =====
-- RenderTextContext::render_string_to_frame (src/base/video/render_text.cc): where a text turns the
-- bytes of an RGB image to 255. FreeType enters by what its slot holds after a character is loaded;
-- the positions stay in the range of int, which the sizes of images and glyphs keep them in. Texts
-- are ASCII, one byte a character.
pub mod Within
pub mod Pixels
pub mod Paint
pub mod Exact
pub mod Layout
pub mod Text
mod Tests
use Prim.Native.Char.{Char, code}
use Prim.Native.String.{String, [], ◌∷◌}
use ngp_encode_server.Base.{
  ℕ, zero, suc, ◌+◌, ◌-◌, ◌*◌, ◌/◌, ◌%◌, ◌^◌, List, [], ◌∷◌, ◌++◌, Bool, true, false, not, ◌||◌,
  ltb, ◌==◌, if◌then◌else◌,
}
use ngp_encode_server.Base.Exceptions.{Result, ok, throws, runtime_error}
use ngp_encode_server.Base.Int.{ℤ, pos, negsuc, ◌+ℤ◌, ◌-ℤ◌, pos_part, ltb_ℤ}

-- RenderTextContext::RenderPosition
pub data RenderPosition : Type 0 where
  left_top left_bottom right_top right_bottom center : RenderPosition

-- FT_GlyphSlot: the bitmap, its place at the pen, and the advance of the pen in 1/64 pixels.
pub record Glyph : Type 0 where
  pub bitmap_left : ℤ
  pub bitmap_top : ℤ
  pub rows : ℕ
  pub width : ℕ
  pub buffer : List ℕ
  pub advance_x : ℤ

-- An element of the buffer; behind its end there is nothing to see.
unfoldable pub at : List ℕ → ℕ → ℕ
at [] k = 0
at (b ∷ bs) zero = b
at (b ∷ bs) (suc k) = at bs k

-- The conversion of a uint32_t to int.
int_of : ℕ → ℤ
int_of n = if ltb n (2 ^ 31) then pos n else negsuc (2 ^ 32 - 1 - n)

abbrev x_box : ℕ
x_box = 300

abbrev y_box : ℕ
y_box = 100

abbrev margin : ℕ
margin = 50

-- a - b of uint32_t, for a b below 2 ^ 32.
abbrev sub_u32 : ℕ → ℕ → ℕ
sub_u32 a b = (a + (2 ^ 32 - b)) % 2 ^ 32

-- The right and the lower edge less the box and with the margin, and the middle less the box.
abbrev far : ℕ → ℕ → ℤ
far size box = int_of ((sub_u32 size box + margin) % 2 ^ 32)

abbrev mid : ℕ → ℕ → ℤ
mid size box = int_of (sub_u32 (size / 2) box)

-- The `switch` on the position.
pub pen : RenderPosition → ℕ → ℕ → ℤ × ℤ
unfolding int_of
pen left_top width height = (pos margin, pos margin)
pen left_bottom width height = (pos margin, far height y_box)
pen right_top width height = (far width x_box, pos margin)
pen right_bottom width height = (far width x_box, far height y_box)
pen center width height = (mid width x_box, mid height y_box)

-- `i < 0 || j < 0 || i >= width || j >= height`
abbrev pub outside : ℤ → ℤ → ℕ → ℕ → Bool
outside i j width height =
    ltb_ℤ i (pos 0) || ltb_ℤ j (pos 0) || not (ltb_ℤ i (pos width)) || not (ltb_ℤ j (pos height))

-- `(j * width + i) * 3 + channel`, of uint32_t
abbrev pub offset : ℤ → ℤ → ℕ → ℕ → ℕ
offset i j width channel = ((pos_part j * width + pos_part i) * 3 + channel) % 2 ^ 32

module _ (width height : ℕ) where
  -- The loop over p: `left` columns of row q are still to be drawn. The result is where 255 is
  -- written, in order.
  draw_columns : Glyph → ℤ → ℤ → ℕ → ℕ → ℕ → List ℕ
  draw_columns g x j q zero p = []
  draw_columns g x j q (suc left) p =
      let i = x +ℤ pos p in
      let rest = draw_columns g x j q left (suc p) in
      if outside i j width height
      then rest
      else if at g.buffer (q * g.width + p) == 0
      then rest
      else offset i j width 0 ∷ offset i j width 1 ∷ offset i j width 2 ∷ rest

  -- The loop over q.
  draw_rows : Glyph → ℤ → ℤ → ℕ → ℕ → List ℕ
  unfolding draw_columns
  draw_rows g x y zero q = []
  draw_rows g x y (suc left) q =
      let row = draw_columns g x (y +ℤ pos q) q g.width 0 in row ++ draw_rows g x y left (suc q)

  pub draw_glyph : Glyph → ℤ → ℤ → List ℕ
  unfolding draw_rows
  draw_glyph g pen_x pen_y = draw_rows g (pen_x +ℤ g.bitmap_left) (pen_y -ℤ g.bitmap_top) g.rows 0

  -- `advance.x >> 6`
  pub pixels_of : ℤ → ℤ
  pixels_of (pos n) = pos (n / 64)
  pixels_of (negsuc n) = negsuc (n / 64)

  -- The loop over the characters; `load` gives the slot after FT_Load_Char, of the character and of
  -- what the slot held before, which stays if the character cannot be loaded.
  draw_chars : (Char → Glyph → Glyph) → ℤ → String → Glyph → ℤ → ℤ → List ℕ
  unfolding draw_glyph pixels_of
  draw_chars load orig_x [] slot pen_x pen_y = []
  draw_chars load orig_x (ch ∷ content) slot pen_x pen_y =
      let below = draw_chars load orig_x content slot orig_x (pen_y +ℤ pos 20) in
      let g = load ch slot in
      let drawn = draw_glyph g pen_x pen_y in
      let rest = draw_chars load orig_x content g (pen_x +ℤ pixels_of g.advance_x) pen_y in
      if code ch == 10 then below else drawn ++ rest

  -- render_string_to_frame: where it writes 255 in the surface.
  pub render_string_to_frame : (Char → Glyph → Glyph) → Glyph → RenderPosition → String → List ℕ
  unfolding draw_chars pen
  render_string_to_frame load slot opt content =
      let (x, y) = pen opt width height in draw_chars load x content slot x y

-- The surface after 255 is written at the given places; memory behind it is not modelled.
set : List ℕ → ℕ → List ℕ
set [] k = []
set (b ∷ bs) zero = 255 ∷ bs
set (b ∷ bs) (suc k) = let rest = set bs k in b ∷ rest

pub paint : List ℕ → List ℕ → List ℕ
unfolding set
paint [] surface = surface
paint (a ∷ rest) surface = paint rest (set surface a)

-- What the slot holds after a text.
pub slot_after : (Char → Glyph → Glyph) → String → Glyph → Glyph
slot_after load [] slot = slot
slot_after load (ch ∷ content) slot =
    let same = slot_after load content slot in
    let loaded = slot_after load content (load ch slot) in if code ch == 10 then same else loaded

-- What FT_Init_FreeType, FT_New_Face and FT_Set_Char_Size return.
pub record FontAnswers : Type 0 where
  pub init_ret : ℤ
  pub face_ret : ℤ
  pub size_ret : ℤ

-- The constructor of RenderTextContext.
unfoldable pub construct : FontAnswers → Result (Unit {0})
construct a =
    if ltb_ℤ a.init_ret (pos 0)
    then throws runtime_error
    else if ltb_ℤ a.face_ret (pos 0)
    then throws runtime_error
    else if ltb_ℤ a.size_ret (pos 0)
    then throws runtime_error
    else ok tt
