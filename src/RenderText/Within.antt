-- ===== src/RenderText/Within.antt =====
-- Texts and the bounds of the image.
use native.Mathlib.Nat.{mul-le-mul_left, mul_comm}
use Prim.Native.Char.{Char, code}
use Prim.Native.String.{String, [], ◌∷◌}
use ngp_encode_server.Base.{
  ℕ, zero, suc, ◌+◌, ◌*◌, ◌^◌, ◌≤◌, ◌<◌, ◌≡◌, List, [], ◌∷◌, ◌++◌, false, ◌==◌, Bool-cases, inl,
  inr, arith,
}
use ngp_encode_server.Base.Int.{ℤ, pos, ◌+ℤ◌, ◌-ℤ◌, pos_part}
use ngp_encode_server.RenderText.{
  RenderPosition, Glyph, at, offset, outside, draw_columns, draw_rows, draw_glyph, draw_chars,
  pixels_of, pen, render_string_to_frame,
}

abbrev pub AreBelow : ℕ → List ℕ → Type 0
AreBelow n [] = Unit
AreBelow n (k ∷ ks) = (k < n) × AreBelow n ks

append-AreBelow : (n : ℕ) (xs ys : List ℕ) → AreBelow n xs → AreBelow n ys → AreBelow n (xs ++ ys)
append-AreBelow n [] ys h k = k
append-AreBelow n (x ∷ xs) ys h k = (h.0, append-AreBelow n xs ys h.1 k)

-- A channel of a pixel of the image.
pub offset_below :
    (i j : ℤ) (width height channel : ℕ)
    → outside i j width height ≡ false
    → channel < 3
    → 3 * (width * height) ≤ 2 ^ 32
    → offset i j width channel < 3 * (width * height)
offset_below i j width height channel within c small =
    let x : pos_part i < width = ground arith in
    let y : suc (pos_part j) ≤ height = ground arith in
    let below = mul-le-mul_left width y in
    let row : pos_part j * width + width ≤ width * height =
      omega (arith, below, mul_comm width (suc (pos_part j))) in
    omega (arith, row, x, c)

module _ (width height : ℕ) (small : 3 * (width * height) ≤ 2 ^ 32) where
  columns-AreBelow :
      (g : Glyph) (x j : ℤ) (q left p : ℕ)
      → AreBelow (3 * (width * height)) (draw_columns width height g x j q left p)
  unfolding draw_columns
  columns-AreBelow g x j q zero p = tt
  columns-AreBelow g x j q (suc left) p =
      let i = x +ℤ pos p in
      let rest = columns-AreBelow g x j q left (suc p) in
      elim (Bool-cases (outside i j width height)) [
        | inl out ↦ rw out rest
        | inr within ↦ elim (Bool-cases (at g.buffer (q * g.width + p) == 0)) [
          | inl dark ↦ rw (within, dark) rest
          | inr lit ↦
              rw (within, lit)
                (
                  offset_below i j width height 0 within (omega arith) small,
                  (
                    offset_below i j width height 1 within (omega arith) small,
                    (offset_below i j width height 2 within (omega arith) small, rest),
                  ),
                )
        ]
      ]

  rows-AreBelow :
      (g : Glyph) (x y : ℤ) (left q : ℕ)
      → AreBelow (3 * (width * height)) (draw_rows width height g x y left q)
  unfolding draw_rows
  rows-AreBelow g x y zero q = tt
  rows-AreBelow g x y (suc left) q =
      append-AreBelow (3 * (width * height))
        (draw_columns width height g x (y +ℤ pos q) q g.width 0)
        (draw_rows width height g x y left (suc q)) (columns-AreBelow g x (y +ℤ pos q) q g.width 0)
        (rows-AreBelow g x y left (suc q))

  chars-AreBelow :
      (load : Char → Glyph → Glyph) (orig_x : ℤ) (content : String) (slot : Glyph) (pen_x pen_y : ℤ)
      → AreBelow
          (3 * (width * height))
          (draw_chars width height load orig_x content slot pen_x pen_y)
  unfolding draw_chars draw_glyph
  chars-AreBelow load orig_x [] slot pen_x pen_y = tt
  chars-AreBelow load orig_x (ch ∷ content) slot pen_x pen_y =
      let g = load ch slot in
      let next_x = pen_x +ℤ pixels_of width height g.advance_x in
      elim (Bool-cases (code ch == 10)) [
        | inl newline ↦
            rw newline (chars-AreBelow load orig_x content slot orig_x (pen_y +ℤ pos 20))
        | inr glyph ↦ rw glyph (
            append-AreBelow (3 * (width * height)) (draw_glyph width height g pen_x pen_y)
              (draw_chars width height load orig_x content g next_x pen_y)
              (rows-AreBelow g (pen_x +ℤ g.bitmap_left) (pen_y -ℤ g.bitmap_top) g.rows 0)
              (chars-AreBelow load orig_x content g next_x pen_y))
      ]

  -- Whatever the text, the position and the glyphs, and also where the pen leaves the image,
  -- render_string_to_frame writes only at the 3 * width * height bytes of an RGB image without padding.
  -- The image has at most 2 ^ 32 bytes.
  pub render_string_within :
      (load : Char → Glyph → Glyph) (slot : Glyph) (opt : RenderPosition) (content : String)
      → AreBelow (3 * (width * height)) (render_string_to_frame width height load slot opt content)
  unfolding render_string_to_frame
  render_string_within load slot opt content =
      let (x, y) = pen opt width height in chars-AreBelow load x content slot x y
