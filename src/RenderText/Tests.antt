-- ===== src/RenderText/Tests.antt =====
-- A glyph of two columns and one row, drawn at the left end of a small image.
use ngp_encode_server.Base.{ℕ, ◌*◌, ◌≡◌, refl, List, [], ◌∷◌, arith}
use ngp_encode_server.Base.Int.{pos, negsuc, ◌+ℤ◌, ◌-ℤ◌}
use ngp_encode_server.RenderText.{
  left_top, center, Glyph, pen, int_of, render_string_to_frame, draw_chars, draw_glyph, draw_rows,
  draw_columns, at, pixels_of, set, paint,
}
use ngp_encode_server.RenderText.Within.{AreBelow, render_string_within}

abbrev dash : Glyph
dash = record {
  bitmap_left = pos 1;
  bitmap_top = pos 2;
  rows = 1;
  width = 2;
  buffer = 255 ∷ 0 ∷ [];
  advance_x = pos 192;
}

-- Left of the middle of a small image the pen is at a negative place.
pen_center : pen center 400 720 ≡ (negsuc 99, pos 260)
unfolding pen int_of
pen_center = refl

two_dashes :
    render_string_to_frame 60 100 (λ ch g. dash) dash left_top "-\n-"
    ≡ 8793 ∷ 8794 ∷ 8795 ∷ 12393 ∷ 12394 ∷ 12395 ∷ []
unfolding render_string_to_frame draw_chars draw_glyph draw_rows draw_columns at pixels_of pen
    int_of ◌+ℤ◌ ◌-ℤ◌
two_dashes = refl

render_string_within_example :
    AreBelow (3 * (60 * 100)) (render_string_to_frame 60 100 (λ ch g. dash) dash left_top "-\n-")
render_string_within_example =
    render_string_within 60 100 (omega arith) (λ ch g. dash) dash left_top "-\n-"

-- Two rows of four pixels, where the dash is lit in the second pixel of the first row.
abbrev black : List ℕ
black =
    0 ∷ 0 ∷ 0 ∷ 0 ∷ 0 ∷ 0 ∷ 0 ∷ 0 ∷ 0 ∷ 0 ∷ 0 ∷ 0 ∷ 0 ∷ 0 ∷ 0 ∷ 0 ∷ 0 ∷ 0 ∷ 0 ∷ 0 ∷ 0 ∷ 0 ∷ 0 ∷ 0
    ∷ []

second_pixel :
    paint (draw_glyph 4 2 dash (pos 0) (pos 2)) black
    ≡ 0 ∷ 0 ∷ 0 ∷ 255 ∷ 255 ∷ 255 ∷ 0 ∷ 0 ∷ 0 ∷ 0 ∷ 0 ∷ 0 ∷ 0 ∷ 0 ∷ 0 ∷ 0 ∷ 0 ∷ 0 ∷ 0 ∷ 0 ∷ 0 ∷ 0
      ∷ 0 ∷ 0 ∷ []
unfolding draw_glyph draw_rows draw_columns at paint set ◌+ℤ◌ ◌-ℤ◌
second_pixel = refl
