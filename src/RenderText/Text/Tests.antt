-- ===== src/RenderText/Text/Tests.antt =====
-- A dash in the lower right corner of a small image.
use ngp_encode_server.Base.{ℕ, zero, suc, ◌*◌, ◌<◌, ◌≡◌, ◌⊎◌, refl, List, [], ◌∷◌, arith, length}
use ngp_encode_server.Base.Int.{pos}
use ngp_encode_server.RenderText.{right_bottom, Glyph, at, render_string_to_frame, paint}
use ngp_encode_server.RenderText.Text.{IsLit, text_by_bytes}
use ngp_encode_server.RenderText.Layout.{Placement, corner, IsLayout}

abbrev dash : Glyph
dash = record {
  bitmap_left = pos 1;
  bitmap_top = pos 2;
  rows = 1;
  width = 2;
  buffer = 255 ∷ 0 ∷ [];
  advance_x = pos 192;
}

abbrev zeros : ℕ → List ℕ
zeros zero = []
zeros (suc n) = 0 ∷ zeros n

length-zeros : (n : ℕ) → length (zeros n) ≡ n
length-zeros zero = refl
length-zeros (suc n) = let ih = length-zeros n in omega (arith, ih)

fourth_byte : 4 < length (zeros (250 * 52 * 3))
fourth_byte = omega (arith, length-zeros (250 * 52 * 3))

text_by_bytes_example :
    let start = corner right_bottom 250 52 in
    let places = render_string_to_frame 250 52 (λ ch g. dash) dash right_bottom "-\n-" in
    let after = at (paint places (zeros (250 * 52 * 3))) 4 in
    (ps : List Placement) × IsLayout (λ ch g. dash) start.0 "-\n-" dash start.0 start.1 ps
    × ((IsLit 250 52 4 ps × (after ≡ 255))
        ⊎ (¬ IsLit 250 52 4 ps × (after ≡ at (zeros (250 * 52 * 3)) 4)))
text_by_bytes_example =
    text_by_bytes 250 52 (λ ch g. dash) dash right_bottom "-\n-" (zeros (250 * 52 * 3)) 4
      fourth_byte (omega arith) (omega arith) (omega arith)
