-- ===== src/FrameManager/Lines/Reads/Tests.antt =====
-- An RGB image of four by two pixels.
use ngp_encode_server.Base.{
  ◌+◌, ◌*◌, ◌/◌, ◌<◌, ◌≡◌, refl, [], ◌∷◌, ◌==◌, if◌then◌else◌, arith, length,
}
use ngp_encode_server.Base.Int.{pos}
use ngp_encode_server.RenderText.{offset}
use ngp_encode_server.RenderedFrame.{FrameContext}
use ngp_encode_server.FrameManager.Lines.{
  Sizes, zeros, given_lines, set_lines, set_line, read_place,
}
use ngp_encode_server.FrameManager.Lines.Reads.{reads_where_drawn}

abbrev rgb : Sizes
rgb = record {
  nb_components = λ fmt. 3;
  linesize = λ fmt width plane. if plane == 0 then width * 3 else 0;
  padded = λ fmt width. (width * 3 + 31) / 32 * 32 ∷ 0 ∷ 0 ∷ 0 ∷ 0 ∷ 0 ∷ 0 ∷ 0 ∷ [];
}

abbrev small : FrameContext
small = record { width = 4; height = 2; pix_fmt = 2 }

lines_of_small : given_lines rgb small ≡ 12 ∷ 0 ∷ 0 ∷ 0 ∷ 0 ∷ 0 ∷ 0 ∷ 0 ∷ []
unfolding given_lines set_lines set_line zeros
lines_of_small = refl

reads_where_drawn_example :
    let place = offset (pos 3) (pos 1) 4 2 in
    (place ≡ read_place (given_lines rgb small) 3 1 2) × (place < length (zeros 24))
unfolding zeros
reads_where_drawn_example =
    reads_where_drawn rgb small (zeros 24) 3 1 2 refl (omega arith) (omega arith) (omega arith)
      (omega arith) (omega arith) (omega arith) (omega arith)
