-- ===== src/RenderText/Layout.antt =====
-- How a text is to stand in an image, in integers and without the program's own arithmetic: where it
-- starts, how far a character moves the pen, and which byte a pixel has.
use Prim.Native.Char.{Char, code}
use Prim.Native.String.{String, [], ◌∷◌}
use native.Mathlib.Nat.{mul_comm, mul-le-mul_left}
use ngp_encode_server.Base.{
  ℕ, suc, ◌+◌, ◌-◌, ◌*◌, ◌/◌, ◌%◌, ◌^◌, ◌≤◌, ◌<◌, ◌≡◌, ◌≢◌, refl, sym, ap, ◌∙◌, ◌⊎◌, inl, inr, List,
  [], ◌∷◌, false, Bool-cases, arith, ==_iff,
}
use ngp_encode_server.Base.Int.{ℤ, pos, negsuc, pos_part, ◌+ℤ◌, ◌-ℤ◌, ◌*ℤ◌}
use ngp_encode_server.RenderText.{
  RenderPosition, left_top, left_bottom, right_top, right_bottom, center, Glyph, at, offset,
  outside, int_of, far, mid, x_box, y_box, pen, pixels_of,
}
use ngp_encode_server.RenderText.Pixels.{is_dark}
use ngp_encode_server.RenderText.Exact.{LitBetween}

-- A glyph and where the pen is for it.
pub record Placement : Type 0 where
  pub glyph : Glyph
  pub pen_x : ℤ
  pub pen_y : ℤ

-- Where a text starts: 50 pixels from the left or the upper edge, 250 from the right and 50 from the
-- lower one, or 300 left of and 100 above the middle.
abbrev pub corner : RenderPosition → ℕ → ℕ → ℤ × ℤ
corner left_top width height = (pos 50, pos 50)
corner left_bottom width height = (pos 50, pos height -ℤ pos 50)
corner right_top width height = (pos width -ℤ pos 250, pos 50)
corner right_bottom width height = (pos width -ℤ pos 250, pos height -ℤ pos 50)
corner center width height = (pos (width / 2) -ℤ pos 300, pos (height / 2) -ℤ pos 100)

-- `x'` is `x` moved by the whole pixels of an advance in 64ths.
pub record IsMoved (x advance x' : ℤ) : Type 0 where
  pub pixels : ℤ
  pub rest : ℕ
  pub rest_small : rest < 64
  pub whole : advance ≡ pos 64 *ℤ pixels +ℤ pos rest
  pub moved : x' ≡ x +ℤ pixels

-- The characters of a text from one on, at the pen: a line break goes on at the first column, twenty
-- rows below, any other character stands at the pen and moves it by its advance.
abbrev pub IsLayout : (Char → Glyph → Glyph) → ℤ → String → Glyph → ℤ → ℤ → List Placement → Type 0
IsLayout load first [] slot x y ps = ps ≡ []
IsLayout load first (ch ∷ content) slot x y ps =
    ((code ch ≡ 10) × IsLayout load first content slot first (y +ℤ pos 20) ps)
    ⊎ ((code ch ≢ 10)
        × (x' : ℤ) × (rest : List Placement) × IsMoved x (load ch slot).advance_x x'
        × (ps ≡ record { glyph = load ch slot; pen_x = x; pen_y = y } ∷ rest)
        × IsLayout load first content (load ch slot) x' y rest)

-- Byte `k` of an image of three bytes a pixel belongs to a pixel of the image that is lit by a glyph.
pub record IsLitBy (width height : ℕ) (p : Placement) (k : ℕ) : Type 0 where
  pub i : ℕ
  pub j : ℕ
  pub channel : ℕ
  pub column : ℕ
  pub row : ℕ
  pub i_small : i < width
  pub j_small : j < height
  pub channel_small : channel < 3
  pub column_small : column < p.glyph.width
  pub row_small : row < p.glyph.rows
  pub across : p.pen_x +ℤ p.glyph.bitmap_left +ℤ pos column ≡ pos i
  pub down : p.pen_y -ℤ p.glyph.bitmap_top +ℤ pos row ≡ pos j
  pub bright : at p.glyph.buffer (row * p.glyph.width + column) ≢ 0
  pub place : k ≡ (j * width + i) * 3 + channel

far_right : (a : ℕ) → a < 2 ^ 31 → far a x_box ≡ pos a -ℤ pos 250
unfolding int_of ◌-ℤ◌
far_right a h = ground arith

far_below : (a : ℕ) → a < 2 ^ 31 → far a y_box ≡ pos a -ℤ pos 50
unfolding int_of ◌-ℤ◌
far_below a h = ground arith

mid_across : (a : ℕ) → a < 2 ^ 31 → mid a x_box ≡ pos (a / 2) -ℤ pos 300
unfolding int_of ◌-ℤ◌
mid_across a h = ground arith

mid_down : (a : ℕ) → a < 2 ^ 31 → mid a y_box ≡ pos (a / 2) -ℤ pos 100
unfolding int_of ◌-ℤ◌
mid_down a h = ground arith

sixty_four_pos : (n r : ℕ) → pos 64 *ℤ pos n +ℤ pos r ≡ pos (64 * n + r)
unfolding ◌*ℤ◌ ◌+ℤ◌
sixty_four_pos n r = ground arith

sixty_four_negsuc : (n r : ℕ) → r < 64 → pos 64 *ℤ negsuc n +ℤ pos r ≡ negsuc (64 * n + (63 - r))
unfolding ◌*ℤ◌ ◌+ℤ◌
sixty_four_negsuc n r h = ground arith

module _ (width height : ℕ) where
  pub pen-corner :
      (opt : RenderPosition)
      → width < 2 ^ 31
      → height < 2 ^ 31
      → pen opt width height ≡ corner opt width height
  unfolding pen
  pen-corner left_top w h = refl
  pen-corner left_bottom w h = ap (λ y. (pos 50, y)) (far_below height h)
  pen-corner right_top w h = ap (λ x. (x, pos 50)) (far_right width w)
  pen-corner right_bottom w h =
      ap (λ x. (x, far height y_box)) (far_right width w)
      ∙ ap (λ y. (pos width -ℤ pos 250, y)) (far_below height h)
  pen-corner center w h =
      ap (λ x. (x, mid height y_box)) (mid_across width w)
      ∙ ap (λ y. (pos (width / 2) -ℤ pos 300, y)) (mid_down height h)

  pub pixels_of-IsMoved : (x advance : ℤ) → IsMoved x advance (x +ℤ pixels_of width height advance)
  unfolding pixels_of
  pixels_of-IsMoved x (pos n) = record {
    pixels = pos (n / 64);
    rest = n % 64;
    rest_small = omega arith;
    whole = ap pos (omega arith) ∙ sym (sixty_four_pos (n / 64) (n % 64));
    moved = refl;
  }
  pixels_of-IsMoved x (negsuc n) = record {
    pixels = negsuc (n / 64);
    rest = 63 - n % 64;
    rest_small = omega arith;
    whole = ap negsuc (omega arith) ∙ sym (sixty_four_negsuc (n / 64) (63 - n % 64) (omega arith));
    moved = refl;
  }

  inside_parts :
      (x y : ℤ)
      → outside x y width height ≡ false
      → (pos (pos_part x) ≡ x)
        × (pos_part x < width)
        × (pos (pos_part y) ≡ y)
        × (pos_part y < height)
  inside_parts (pos i) (pos j) h = (refl, ground arith, refl, ground arith)
  inside_parts (pos i) (negsuc j) h = absurd (ground arith)
  inside_parts (negsuc i) y h = absurd (ground arith)

  offset_whole :
      (i j channel : ℕ)
      → i < width
      → j < height
      → channel < 3
      → 3 * (width * height) ≤ 2 ^ 32
      → offset (pos i) (pos j) width channel ≡ (j * width + i) * 3 + channel
  offset_whole i j channel x y z small =
      let y' : suc j ≤ height = omega arith in
      let row : j * width + width ≤ width * height =
        omega (arith, mul-le-mul_left width y', mul_comm width (suc j)) in
      omega (arith, row)

  -- The pixels that the loops light are those of the layout.
  pub lit-IsLitBy :
      (p : Placement) (k : ℕ)
      → 3 * (width * height) ≤ 2 ^ 32
      → LitBetween width height p.glyph
          (p.pen_x +ℤ p.glyph.bitmap_left)
          (p.pen_y -ℤ p.glyph.bitmap_top)
          0
          p.glyph.rows
          k
      → IsLitBy width height p k
  lit-IsLitBy p k small v =
      let x = p.pen_x +ℤ p.glyph.bitmap_left +ℤ pos v.column in
      let y = p.pen_y -ℤ p.glyph.bitmap_top +ℤ pos v.row in
      let (across, i_small, down, j_small) = inside_parts x y v.within in
      record {
        i = pos_part x;
        j = pos_part y;
        channel = v.channel;
        column = v.column;
        row = v.row;
        i_small = i_small;
        j_small = j_small;
        channel_small = v.channel_small;
        column_small = v.column_small;
        row_small = omega (arith, v.row_small);
        across = sym across;
        down = sym down;
        bright = λ e.
            let dark = (==_iff (at p.glyph.buffer (v.row * p.glyph.width + v.column)) 0).1 e in
            let lit = v.lit in ground arith;
        place =
            v.place
            ∙ offset_whole (pos_part x) (pos_part y) v.channel i_small j_small v.channel_small
                small;
      }

  pub IsLitBy-lit :
      (p : Placement) (k : ℕ)
      → 3 * (width * height) ≤ 2 ^ 32
      → IsLitBy width height p k
      → LitBetween width height p.glyph
          (p.pen_x +ℤ p.glyph.bitmap_left)
          (p.pen_y -ℤ p.glyph.bitmap_top)
          0
          p.glyph.rows
          k
  IsLitBy-lit p k small v =
      let within : outside (pos v.i) (pos v.j) width height ≡ false =
        let a = v.i_small in let b = v.j_small in ground arith in
      let byte = offset_whole v.i v.j v.channel v.i_small v.j_small v.channel_small small in
      record {
        column = v.column;
        row = v.row;
        channel = v.channel;
        column_small = v.column_small;
        row_from = omega arith;
        row_small = omega (arith, v.row_small);
        channel_small = v.channel_small;
        lit = elim (Bool-cases (is_dark width height p.glyph v.column v.row)) [
          | inl dark ↦ absurd (v.bright ((==_iff _ 0).0 dark))
          | inr bright ↦ bright
        ];
        within = rw (v.across, v.down) within;
        place = rw (v.across, v.down) (v.place ∙ sym byte);
      }
