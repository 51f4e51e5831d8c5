-- ===== src/RenderText/Pixels.antt =====
-- The pixels of a glyph that turn white.
use ngp_encode_server.Base.{
  ℕ, zero, suc, ◌+◌, ◌*◌, ◌≤◌, ◌<◌, ◌≡◌, subst, List, [], ◌∷◌, ◌++◌, Bool, true, false, ◌==◌,
  Bool-cases, inl, inr, if◌then◌else◌, arith,
}
use ngp_encode_server.Base.Int.{ℤ, pos, ◌+ℤ◌, ◌-ℤ◌}
use ngp_encode_server.RenderText.{Glyph, at, offset, outside, draw_columns, draw_rows, draw_glyph}

abbrev pub is_in : ℕ → List ℕ → Bool
is_in a [] = false
is_in a (x ∷ xs) = if x == a then true else is_in a xs

is_in-cons : (a x : ℕ) (xs : List ℕ) → is_in a xs ≡ true → is_in a (x ∷ xs) ≡ true
is_in-cons a x xs h = elim (Bool-cases (x == a)) [ inl e ↦ rw e | inr e ↦ rw e h ]

pub is_in-front : (a : ℕ) (xs ys : List ℕ) → is_in a xs ≡ true → is_in a (xs ++ ys) ≡ true
is_in-front a [] ys h = ground arith
is_in-front a (x ∷ xs) ys h = elim (Bool-cases (x == a)) [
  | inl e ↦ rw e
  | inr e ↦ rw e (is_in-front a xs ys (rw e at h))
]

pub is_in-back : (a : ℕ) (xs ys : List ℕ) → is_in a ys ≡ true → is_in a (xs ++ ys) ≡ true
is_in-back a [] ys h = h
is_in-back a (x ∷ xs) ys h = is_in-cons a x (xs ++ ys) (is_in-back a xs ys h)

is_in-head : (a : ℕ) (xs : List ℕ) → is_in a (a ∷ xs) ≡ true
is_in-head a xs = let self : (a == a) ≡ true = ground arith in rw self

-- The three bytes that a lit pixel writes.
channels_in :
    (f : ℕ → ℕ) (rest : List ℕ) (channel : ℕ)
    → channel < 3
    → is_in (f channel) (f 0 ∷ f 1 ∷ f 2 ∷ rest) ≡ true
channels_in f rest zero lt = is_in-head (f 0) (f 1 ∷ f 2 ∷ rest)
channels_in f rest (suc zero) lt =
    is_in-cons (f 1) (f 0) (f 1 ∷ f 2 ∷ rest) (is_in-head (f 1) (f 2 ∷ rest))
channels_in f rest (suc (suc zero)) lt =
    is_in-cons (f 2) (f 0) (f 1 ∷ f 2 ∷ rest)
      (is_in-cons (f 2) (f 1) (f 2 ∷ rest) (is_in-head (f 2) rest))
channels_in f rest (suc (suc (suc n))) lt = ground arith

module _ (width height : ℕ) (g : Glyph) where
  -- Whether the bitmap is lit at a column and a row.
  abbrev pub is_dark : ℕ → ℕ → Bool
  is_dark p q = at g.buffer (q * g.width + p) == 0

  column_rest :
      (x j : ℤ) (q left p a : ℕ)
      → is_in a (draw_columns width height g x j q left (suc p)) ≡ true
      → is_in a (draw_columns width height g x j q (suc left) p) ≡ true
  unfolding draw_columns
  column_rest x j q left p a h =
      let i = x +ℤ pos p in
      let rest = draw_columns width height g x j q left (suc p) in
      elim (Bool-cases (outside i j width height)) [
        | inl out ↦ rw out h
        | inr within ↦ elim (Bool-cases (is_dark p q)) [
          | inl dark ↦ rw (within, dark) h
          | inr lit ↦
              rw (within, lit)
                (is_in-cons a (offset i j width 0) (offset i j width 1 ∷ offset i j width 2 ∷ rest)
                  (is_in-cons a (offset i j width 1) (offset i j width 2 ∷ rest)
                    (is_in-cons a (offset i j width 2) rest h)))
        ]
      ]

  column_lit :
      (x j : ℤ) (q left p channel : ℕ)
      → outside (x +ℤ pos p) j width height ≡ false
      → is_dark p q ≡ false
      → channel < 3
      → is_in (offset (x +ℤ pos p) j width channel) (draw_columns width height g x j q (suc left) p)
        ≡ true
  unfolding draw_columns
  column_lit x j q left p channel within lit lt =
      let rest = draw_columns width height g x j q left (suc p) in
      rw (within, lit) (channels_in (λ c. offset (x +ℤ pos p) j width c) rest channel lt)

  columns_lit :
      (x j : ℤ) (q left first p channel : ℕ)
      → first ≤ p
      → p < first + left
      → outside (x +ℤ pos p) j width height ≡ false
      → is_dark p q ≡ false
      → channel < 3
      → is_in (offset (x +ℤ pos p) j width channel) (draw_columns width height g x j q left first)
        ≡ true
  columns_lit x j q zero first p channel ge le within lit lt = ground arith
  columns_lit x j q (suc left) first p channel ge le within lit lt =
      elim (Bool-cases (p == first)) [
        | inl here ↦
            let eq : p ≡ first = ground arith in
            subst
              (λ k.
                is_in (offset (x +ℤ pos p) j width channel)
                  (draw_columns width height g x j q (suc left) k)
                ≡ true)
              eq (column_lit x j q left p channel within lit lt)
        | inr later ↦
            let after : suc first ≤ p = ground arith in
            column_rest x j q left first (offset (x +ℤ pos p) j width channel)
              (columns_lit x j q left (suc first) p channel after (omega arith) within lit lt)
      ]

  rows_lit :
      (x y : ℤ) (left first p q channel : ℕ)
      → first ≤ q
      → q < first + left
      → p < g.width
      → outside (x +ℤ pos p) (y +ℤ pos q) width height ≡ false
      → is_dark p q ≡ false
      → channel < 3
      → is_in
          (offset (x +ℤ pos p) (y +ℤ pos q) width channel)
          (draw_rows width height g x y left first)
        ≡ true
  unfolding draw_rows
  rows_lit x y zero first p q channel ge le col within lit lt = ground arith
  rows_lit x y (suc left) first p q channel ge le col within lit lt =
      let a = offset (x +ℤ pos p) (y +ℤ pos q) width channel in
      let row = λ (k : ℕ). draw_columns width height g x (y +ℤ pos k) k g.width 0 in
      let rest = draw_rows width height g x y left (suc first) in
      elim (Bool-cases (q == first)) [
        | inl here ↦
            let eq : q ≡ first = ground arith in
            subst (λ k. is_in a (row k ++ rest) ≡ true) eq
              (is_in-front a (row q) rest (
                columns_lit x (y +ℤ pos q) q g.width 0 p channel (omega arith) (omega arith) within
                  lit lt))
        | inr later ↦
            let after : suc first ≤ q = ground arith in
            is_in-back a (row first) rest
              (rows_lit x y left (suc first) p q channel after (omega arith) col within lit lt)
      ]

  -- Each lit pixel of a glyph that falls inside the image turns white: column p and row q of the
  -- bitmap write all three bytes of the pixel that lies p to the right of the pen and of bitmap_left,
  -- and q below the pen less bitmap_top.
  pub draw_glyph_white :
      (pen_x pen_y : ℤ) (p q channel : ℕ)
      → p < g.width
      → q < g.rows
      → channel < 3
      → is_dark p q ≡ false
      → outside (pen_x +ℤ g.bitmap_left +ℤ pos p) (pen_y -ℤ g.bitmap_top +ℤ pos q) width height
        ≡ false
      → let i = pen_x +ℤ g.bitmap_left +ℤ pos p in
        let j = pen_y -ℤ g.bitmap_top +ℤ pos q in
        is_in (offset i j width channel) (draw_glyph width height g pen_x pen_y) ≡ true
  unfolding draw_glyph
  draw_glyph_white pen_x pen_y p q channel col row lt lit within =
      rows_lit (pen_x +ℤ g.bitmap_left) (pen_y -ℤ g.bitmap_top) g.rows 0 p q channel (omega arith)
        (omega arith) col within lit lt
