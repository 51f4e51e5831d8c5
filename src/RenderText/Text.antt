-- ===== src/RenderText/Text.antt =====
-- Which bytes of the surface a text changes.
mod Tests
use Prim.Native.Char.{Char, code}
use Prim.Native.String.{String, [], ◌∷◌}
use ngp_encode_server.Base.{
  ℕ, zero, suc, ◌+◌, ◌≤◌, ◌<◌, ◌≡◌, ◌≢◌, ◌*◌, ◌^◌, refl, sym, ◌∙◌, ap, subst, ◌⊎◌, ◌↔◌, inl, inr,
  List, [], ◌∷◌, ◌++◌, true, false, ◌==◌, Bool-cases, arith, length, ==_iff, if◌then◌else◌,
}
use ngp_encode_server.Base.Int.{ℤ, pos, ◌+ℤ◌, ◌-ℤ◌}
use ngp_encode_server.RenderText.{
  RenderPosition, Glyph, at, draw_glyph, draw_chars, pixels_of, pen, render_string_to_frame, paint,
}
use ngp_encode_server.RenderText.Pixels.{is_in, is_in-front, is_in-back}
use ngp_encode_server.RenderText.Paint.{at-paint}
use ngp_encode_server.RenderText.Exact.{written_exactly, is_in-split}
use ngp_encode_server.RenderText.Layout.{
  Placement, corner, IsLayout, IsLitBy, pen-corner, pixels_of-IsMoved, lit-IsLitBy, IsLitBy-lit,
}

module _ (width height : ℕ) where
  -- The glyphs of a text, as the loops place them.
  abbrev placements : (Char → Glyph → Glyph) → ℤ → String → Glyph → ℤ → ℤ → List Placement
  placements load first [] slot x y = []
  placements load first (ch ∷ content) slot x y =
      let below = placements load first content slot first (y +ℤ pos 20) in
      let g = load ch slot in
      let rest = placements load first content g (x +ℤ pixels_of width height g.advance_x) y in
      if code ch == 10 then below else record { glyph = g; pen_x = x; pen_y = y } ∷ rest

  abbrev drawn : List Placement → List ℕ
  drawn [] = []
  drawn (p ∷ ps) = draw_glyph width height p.glyph p.pen_x p.pen_y ++ drawn ps

  draw_chars-placements :
      (load : Char → Glyph → Glyph) (first : ℤ) (content : String) (slot : Glyph) (x y : ℤ)
      → draw_chars width height load first content slot x y
        ≡ drawn (placements load first content slot x y)
  unfolding draw_chars
  draw_chars-placements load first [] slot x y = refl
  draw_chars-placements load first (ch ∷ content) slot x y =
      let g = load ch slot in
      let below = draw_chars-placements load first content slot first (y +ℤ pos 20) in
      let rest =
        draw_chars-placements load first content g (x +ℤ pixels_of width height g.advance_x) y in
      elim (Bool-cases (code ch == 10)) [
        | inl line ↦ rw line below
        | inr other ↦ rw other (ap (λ r. draw_glyph width height g x y ++ r) rest)
      ]

  placements-IsLayout :
      (load : Char → Glyph → Glyph) (first : ℤ) (content : String) (slot : Glyph) (x y : ℤ)
      → IsLayout load first content slot x y (placements load first content slot x y)
  placements-IsLayout load first [] slot x y = refl
  placements-IsLayout load first (ch ∷ content) slot x y =
      let g = load ch slot in
      let x' = x +ℤ pixels_of width height g.advance_x in
      let below = placements-IsLayout load first content slot first (y +ℤ pos 20) in
      let rest = placements-IsLayout load first content g x' y in
      elim (Bool-cases (code ch == 10)) [
        | inl line ↦ inl ((==_iff (code ch) 10).0 line, rw line below)
        | inr other ↦ inr (
          (λ e. let line = (==_iff (code ch) 10).1 e in ground arith),
          x',
          placements load first content g x' y,
          pixels_of-IsMoved width height x g.advance_x,
          rw other refl,
          rest,
        )
      ]

  -- Byte `k` belongs to a pixel that one of the glyphs lights.
  abbrev pub IsLit : ℕ → List Placement → Type 0
  IsLit k [] = ⊥
  IsLit k (p ∷ ps) = IsLitBy width height p k ⊎ IsLit k ps

  is_in-drawn :
      (k : ℕ) (ps : List Placement)
      → 3 * (width * height) ≤ 2 ^ 32
      → (is_in k (drawn ps) ≡ true) ↔ IsLit k ps
  is_in-drawn k [] small = ((λ h. ground arith), (λ v. ground arith))
  is_in-drawn k (p ∷ ps) small =
      let this = draw_glyph width height p.glyph p.pen_x p.pen_y in
      let exact = written_exactly width height p.glyph p.pen_x p.pen_y k in
      let ih = is_in-drawn k ps small in
      (
        (λ h. elim (is_in-split k this (drawn ps) h) [
          | inl here ↦ inl (lit-IsLitBy width height p k small (exact.0 here))
          | inr later ↦ inr (ih.0 later)
        ]),
        (λ v. elim v [
          | inl here ↦
              is_in-front k this (drawn ps) (exact.1 (IsLitBy-lit width height p k small here))
          | inr later ↦ is_in-back k this (drawn ps) (ih.1 later)
        ]),
      )

-- Drawing a text compared with looking at each byte of the image by itself, in an image of at most
-- 2 ^ 32 bytes and of less than 2 ^ 31 pixels in width and in height. The characters are laid out one
-- after the other from the place of the text: each moves the pen by the whole pixels of its advance in
-- 64ths, and a line break moves it to the first column, twenty rows below. A byte of a pixel of the
-- image that one of the glyphs so placed lights becomes 255, and every other byte stays what it was.
pub text_by_bytes :
    (width height : ℕ) (load : Char → Glyph → Glyph) (slot : Glyph) (opt : RenderPosition)
    (content : String) (surface : List ℕ) (k : ℕ)
    → k < length surface
    → width < 2 ^ 31
    → height < 2 ^ 31
    → 3 * (width * height) ≤ 2 ^ 32
    → let start = corner opt width height in
      let places = render_string_to_frame width height load slot opt content in
      let after = at (paint places surface) k in
      (ps : List Placement) × IsLayout load start.0 content slot start.0 start.1 ps
      × ((IsLit width height k ps × (after ≡ 255))
          ⊎ (¬ IsLit width height k ps × (after ≡ at surface k)))
unfolding render_string_to_frame
text_by_bytes width height load slot opt content surface k h w v small =
    let start = corner opt width height in
    let places = render_string_to_frame width height load slot opt content in
    let ps = placements width height load start.0 content slot start.0 start.1 in
    let same : places ≡ drawn width height ps =
      ap (λ (s : ℤ × ℤ). draw_chars width height load s.0 content slot s.0 s.1)
        (pen-corner width height opt w v)
      ∙ draw_chars-placements width height load start.0 content slot start.0 start.1 in
    let exact = is_in-drawn width height k ps small in
    let after = at-paint places surface k h in
    (
      ps,
      placements-IsLayout width height load start.0 content slot start.0 start.1,
      elim (Bool-cases (is_in k places)) [
        | inl written ↦
            inl (exact.0 (subst (λ l. is_in k l ≡ true) same written), after ∙ rw written refl)
        | inr unwritten ↦
            let none : is_in k (drawn width height ps) ≡ false =
              subst (λ l. is_in k l ≡ false) same unwritten in
            inr ((λ v. let written = exact.1 v in ground arith), after ∙ rw unwritten refl)
      ],
    )
