-- ===== src/RenderText/Exact.antt =====
-- Which bytes of the surface a glyph changes.
use ngp_encode_server.Base.{
  ℕ, zero, suc, ◌+◌, ◌≤◌, ◌<◌, ◌≡◌, refl, sym, ◌∙◌, subst, ◌⊎◌, ◌↔◌, inl, inr, List, [], ◌∷◌, ◌++◌,
  true, false, ◌==◌, Bool-cases, arith, length, ==_iff,
}
use ngp_encode_server.Base.Int.{ℤ, pos, ◌+ℤ◌, ◌-ℤ◌}
use ngp_encode_server.RenderText.{
  Glyph, at, offset, outside, draw_columns, draw_rows, draw_glyph, paint,
}
use ngp_encode_server.RenderText.Pixels.{is_in, is_dark, draw_glyph_white}
use ngp_encode_server.RenderText.Paint.{at-paint}

pub is_in-split :
    (a : ℕ) (xs ys : List ℕ) → is_in a (xs ++ ys) ≡ true → (is_in a xs ≡ true) ⊎ (is_in a ys ≡ true)
is_in-split a [] ys h = inr h
is_in-split a (x ∷ xs) ys h = elim (Bool-cases (x == a)) [
  | inl e ↦ inl (rw e refl)
  | inr e ↦ elim (is_in-split a xs ys (rw e at h)) [ inl v ↦ inl (rw e v) | inr v ↦ inr v ]
]

-- In front, or further on.
is_in-cases : (a x : ℕ) (xs : List ℕ) → is_in a (x ∷ xs) ≡ true → (a ≡ x) ⊎ (is_in a xs ≡ true)
is_in-cases a x xs h = elim (Bool-cases (x == a)) [
  | inl e ↦ inl (sym ((==_iff x a).0 e))
  | inr e ↦ inr (rw e at h)
]

module _ (width height : ℕ) (g : Glyph) where
  -- Byte `a` belongs to a lit pixel of the bitmap, in the given rows, that falls inside the image.
  pub record LitBetween (x y : ℤ) (first left a : ℕ) : Type 0 where
    pub column : ℕ
    pub row : ℕ
    pub channel : ℕ
    pub column_small : column < g.width
    pub row_from : first ≤ row
    pub row_small : row < first + left
    pub channel_small : channel < 3
    pub lit : is_dark width height g column row ≡ false
    pub within : outside (x +ℤ pos column) (y +ℤ pos row) width height ≡ false
    pub place : a ≡ offset (x +ℤ pos column) (y +ℤ pos row) width channel

  record LitInRow (x j : ℤ) (q first left a : ℕ) : Type 0 where
    column : ℕ
    channel : ℕ
    column_from : first ≤ column
    column_small : column < first + left
    channel_small : channel < 3
    lit : is_dark width height g column q ≡ false
    within : outside (x +ℤ pos column) j width height ≡ false
    place : a ≡ offset (x +ℤ pos column) j width channel

  further :
      {x j : ℤ} {q first left a : ℕ}
      → LitInRow x j q (suc first) left a
      → LitInRow x j q first (suc left) a
  further v = record {
    column = v.column;
    channel = v.channel;
    column_from = omega (arith, v.column_from);
    column_small = omega (arith, v.column_small);
    channel_small = v.channel_small;
    lit = v.lit;
    within = v.within;
    place = v.place;
  }

  at_first :
      (x j : ℤ) (q left first a : ℕ)
      → is_dark width height g first q ≡ false
      → outside (x +ℤ pos first) j width height ≡ false
      → (channel : ℕ) → channel < 3
      → a ≡ offset (x +ℤ pos first) j width channel
      → LitInRow x j q first (suc left) a
  at_first x j q left first a lit within channel small e = record {
    column = first;
    channel = channel;
    column_from = omega arith;
    column_small = omega arith;
    channel_small = small;
    lit = lit;
    within = within;
    place = e;
  }

  in_first :
      (x y : ℤ) (left first a : ℕ)
      → LitInRow x (y +ℤ pos first) first 0 g.width a
      → LitBetween x y first (suc left) a
  in_first x y left first a v = record {
    column = v.column;
    row = first;
    channel = v.channel;
    column_small = omega (arith, v.column_small);
    row_from = omega arith;
    row_small = omega arith;
    channel_small = v.channel_small;
    lit = v.lit;
    within = v.within;
    place = v.place;
  }

  later :
      {x y : ℤ} {first left a : ℕ}
      → LitBetween x y (suc first) left a
      → LitBetween x y first (suc left) a
  later v = record {
    column = v.column;
    row = v.row;
    channel = v.channel;
    column_small = v.column_small;
    row_from = omega (arith, v.row_from);
    row_small = omega (arith, v.row_small);
    channel_small = v.channel_small;
    lit = v.lit;
    within = v.within;
    place = v.place;
  }

  columns_sound :
      (x j : ℤ) (q left first a : ℕ)
      → is_in a (draw_columns width height g x j q left first) ≡ true
      → LitInRow x j q first left a
  unfolding draw_columns
  columns_sound x j q zero first a h = ground arith
  columns_sound x j q (suc left) first a h =
      let i = x +ℤ pos first in
      let rest = draw_columns width height g x j q left (suc first) in
      elim (Bool-cases (outside i j width height)) [
        | inl out ↦ further (columns_sound x j q left (suc first) a (rw out at h))
        | inr within ↦ elim (Bool-cases (is_dark width height g first q)) [
          | inl dark ↦ further (columns_sound x j q left (suc first) a (rw (within, dark) at h))
          | inr lit ↦
              let here = at_first x j q left first a lit within in
              elim (is_in-cases a (offset i j width 0)
                (offset i j width 1 ∷ offset i j width 2 ∷ rest) (rw (within, lit) at h)) [
                  | inl e ↦ here 0 (omega arith) e
                  | inr h1 ↦
                      elim (is_in-cases a (offset i j width 1) (offset i j width 2 ∷ rest) h1) [
                        | inl e ↦ here 1 (omega arith) e
                        | inr h2 ↦ elim (is_in-cases a (offset i j width 2) rest h2) [
                          | inl e ↦ here 2 (omega arith) e
                          | inr h3 ↦ further (columns_sound x j q left (suc first) a h3)
                        ]
                      ]
                ]
        ]
      ]

  rows_sound :
      (x y : ℤ) (left first a : ℕ)
      → is_in a (draw_rows width height g x y left first) ≡ true
      → LitBetween x y first left a
  unfolding draw_rows
  rows_sound x y zero first a h = ground arith
  rows_sound x y (suc left) first a h =
      elim (is_in-split a (draw_columns width height g x (y +ℤ pos first) first g.width 0) _ h) [
        | inl this ↦
            in_first x y left first a (columns_sound x (y +ℤ pos first) first g.width 0 a this)
        | inr rest ↦ later (rows_sound x y left (suc first) a rest)
      ]

  -- Exactly the bytes of the lit pixels inside the image are written.
  pub written_exactly :
      (pen_x pen_y : ℤ) (a : ℕ)
      → (is_in a (draw_glyph width height g pen_x pen_y) ≡ true)
        ↔ LitBetween (pen_x +ℤ g.bitmap_left) (pen_y -ℤ g.bitmap_top) 0 g.rows a
  unfolding draw_glyph
  written_exactly pen_x pen_y a = (
    rows_sound (pen_x +ℤ g.bitmap_left) (pen_y -ℤ g.bitmap_top) g.rows 0 a,
    λ v.
        subst (λ k. is_in k (draw_glyph width height g pen_x pen_y) ≡ true) (sym v.place)
          (draw_glyph_white width height g pen_x pen_y v.column v.row v.channel v.column_small
            (omega (arith, v.row_small)) v.channel_small v.lit v.within),
  )

-- Drawing a glyph compared with looking at each byte of the image by itself: a byte of a lit pixel of
-- the bitmap, placed at the pen, that falls inside the image becomes 255, and every other byte of the
-- surface stays what it was.
pub glyph_by_bytes :
    (width height : ℕ) (g : Glyph) (pen_x pen_y : ℤ) (surface : List ℕ) (k : ℕ)
    → k < length surface
    → let lit =
        LitBetween width height g (pen_x +ℤ g.bitmap_left) (pen_y -ℤ g.bitmap_top) 0 g.rows k in
      let after = at (paint (draw_glyph width height g pen_x pen_y) surface) k in
      (lit × (after ≡ 255)) ⊎ (¬ lit × (after ≡ at surface k))
glyph_by_bytes width height g pen_x pen_y surface k h =
    let exact = written_exactly width height g pen_x pen_y k in
    let after = at-paint (draw_glyph width height g pen_x pen_y) surface k h in
    elim (Bool-cases (is_in k (draw_glyph width height g pen_x pen_y))) [
      | inl written ↦ inl (exact.0 written, after ∙ rw written refl)
      | inr unwritten ↦
          inr ((λ v. let written = exact.1 v in ground arith), after ∙ rw unwritten refl)
    ]
