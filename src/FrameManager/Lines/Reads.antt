-- ===== src/FrameManager/Lines/Reads.antt =====
-- What the lines of an image are, and that its texts stand where libswscale reads them.
mod Tests
use native.Mathlib.Nat.{mul_assoc, mul_comm, mul-le-mul_left}
use ngp_encode_server.Base.{
  ℕ, zero, suc, ◌+◌, ◌*◌, ◌%◌, ◌^◌, ◌<◌, ◌≤◌, ◌≡◌, refl, sym, ap, ◌∙◌, List, [], ◌∷◌, Bool, true,
  false, ltb, ◌==◌, if◌then◌else◌, Bool-cases, inl, inr, arith, length, lt→ltb,
}
use ngp_encode_server.Base.Int.{pos}
use ngp_encode_server.RenderText.{at, offset, outside}
use ngp_encode_server.RenderText.Within.{offset_below}
use ngp_encode_server.RenderedFrame.{FrameContext}
use ngp_encode_server.FrameManager.Lines.{
  Sizes, num_data_pointers, zeros, no_lines, set_line, set_lines, given_lines, read_place,
}

length-set_line : (ls : List ℕ) (plane n : ℕ) → length (set_line ls plane n) ≡ length ls
unfolding set_line
length-set_line [] plane n = refl
length-set_line (l ∷ ls) zero n = refl
length-set_line (l ∷ ls) (suc plane) n = ap suc (length-set_line ls plane n)

at-set_line :
    (ls : List ℕ) (plane n k : ℕ)
    → plane < length ls
    → at (set_line ls plane n) k ≡ (if k == plane then n else at ls k)
unfolding set_line at
at-set_line [] plane n k h = ground arith
at-set_line (l ∷ ls) zero n zero h = refl
at-set_line (l ∷ ls) zero n (suc k) h = ground arith
at-set_line (l ∷ ls) (suc plane) n zero h = ground arith
at-set_line (l ∷ ls) (suc plane) n (suc k) h = at-set_line ls plane n k (omega arith) ∙ ground arith

-- The loop sets the lines from `plane` on, as many as are left.
at-set_lines :
    (size : ℕ → ℕ) (left plane : ℕ) (ls : List ℕ) (k : ℕ)
    → plane + left ≤ length ls
    → at (set_lines size left plane ls) k
      ≡ (if ltb k plane then at ls k else if ltb k (plane + left) then size k else at ls k)
unfolding set_lines
at-set_lines size zero plane ls k h = ground arith
at-set_lines size (suc left) plane ls k h =
    let ih =
      at-set_lines size left (suc plane) (set_line ls plane (size plane)) k
        (omega (arith, length-set_line ls plane (size plane))) in
    let one = at-set_line ls plane (size plane) k (omega arith) in ih ∙ ground (arith, one)

at-zeros : (n k : ℕ) → at (zeros n) k ≡ 0
unfolding at zeros
at-zeros zero k = refl
at-zeros (suc n) zero = refl
at-zeros (suc n) (suc k) = at-zeros n k

-- The line sizes of an image that is given: those of libavutil for each component of the format,
-- which has no more components than the array has places, and 0 for the rest.
pub at-given_lines :
    (s : Sizes) (c : FrameContext) (k : ℕ)
    → s.nb_components c.pix_fmt ≤ num_data_pointers
    → at (given_lines s c) k
      ≡ (if ltb k (s.nb_components c.pix_fmt) then s.linesize c.pix_fmt c.width k else 0)
unfolding given_lines zeros
at-given_lines s c k fits =
    let n = s.nb_components c.pix_fmt in
    at-set_lines (s.linesize c.pix_fmt c.width) n 0 no_lines k (omega arith)
    ∙ ground (arith, at-zeros num_data_pointers k)

-- A text that is drawn on the image of an answer stands where libswscale reads it: for each channel of
-- each pixel of the image, the place that render_string_to_frame computes in uint32_t is the one that
-- the line sizes of the constructor lead to, and the image has a byte there. The format is a packed one
-- of three bytes a pixel, with components of which there are not more than the array has places; the
-- image is as long as its width and height say, and not longer than 2 ^ 32.
pub reads_where_drawn :
    (s : Sizes) (c : FrameContext) (surface : List ℕ) (i j channel : ℕ)
    → s.linesize c.pix_fmt c.width 0 ≡ c.width * 3
    → 0 < s.nb_components c.pix_fmt
    → s.nb_components c.pix_fmt ≤ num_data_pointers
    → 3 * (c.width * c.height) ≤ length surface
    → 3 * (c.width * c.height) ≤ 2 ^ 32
    → i < c.width
    → j < c.height
    → channel < 3
    → let place = offset (pos i) (pos j) c.width channel in
      (place ≡ read_place (given_lines s c) i j channel) × (place < length surface)
unfolding read_place
reads_where_drawn s c surface i j channel packed some_components fits long small x y z =
    let first : at (given_lines s c) 0 ≡ c.width * 3 =
      at-given_lines s c 0 fits
      ∙ rw (lt→ltb 0 (s.nb_components c.pix_fmt) some_components) packed in
    let within : outside (pos i) (pos j) c.width c.height ≡ false = ground arith in
    let below = offset_below (pos i) (pos j) c.width c.height channel within z small in
    let y' : suc j ≤ c.height = omega arith in
    let rows = mul-le-mul_left c.width y' in
    let row : j * c.width + c.width ≤ c.width * c.height =
      omega (arith, rows, mul_comm c.width (suc j)) in
    (rw first (omega (arith, row, mul_assoc j c.width 3)), omega (arith, below, long))
