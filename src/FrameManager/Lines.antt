-- ===== src/FrameManager/Lines.antt =====
-- The sizes of the lines of an image (types::FrameManager in src/base/video/type_managers.cc and
-- include/base/video/type_managers.h): the constructor sets them, libswscale goes by them, and an
-- AVFrameWrapper gets its own. What libavutil computes is in `Sizes`.
pub mod Reads
use ngp_encode_server.Base.{
  ℕ, zero, suc, ◌+◌, ◌*◌, ◌<◌, ◌≤◌, ◌≡◌, refl, sym, ap, ◌∙◌, List, [], ◌∷◌, Bool, true, false, ltb,
  ◌==◌, if◌then◌else◌, Bool-cases, inl, inr, arith, length,
}
use ngp_encode_server.RenderText.{at}
use ngp_encode_server.RenderedFrame.{FrameContext}

-- AV_NUM_DATA_POINTERS
abbrev pub num_data_pointers : ℕ
num_data_pointers = 8

-- Of a pixel format: av_pix_fmt_desc_get(…)->nb_components, av_image_get_linesize of a width and a
-- plane, and the line sizes that av_image_alloc leaves for a width, padded to a multiple of
-- kBufferSizeAlignValueBytes.
pub record Sizes : Type 0 where
  pub nb_components : ℕ → ℕ
  pub linesize : ℕ → ℕ → ℕ → ℕ
  pub padded : ℕ → ℕ → List ℕ

-- `int linesize[AV_NUM_DATA_POINTERS] = {0}`
pub zeros : ℕ → List ℕ
zeros zero = []
zeros (suc n) = 0 ∷ zeros n

abbrev pub no_lines : List ℕ
no_lines = zeros num_data_pointers

-- `m_data.linesize[plane] = …`; memory behind the array is not modelled.
pub set_line : List ℕ → ℕ → ℕ → List ℕ
set_line [] plane n = []
set_line (l ∷ ls) zero n = n ∷ ls
set_line (l ∷ ls) (suc plane) n = l ∷ set_line ls plane n

-- The loop over the components: so many are left, `plane` is the next.
pub set_lines : (ℕ → ℕ) → ℕ → ℕ → List ℕ → List ℕ
unfolding set_line
set_lines size zero plane lines = lines
set_lines size (suc left) plane lines =
    set_lines size left (suc plane) (set_line lines plane (size plane))

-- m_data.linesize behind the constructor: of an image that is given, and of one that is allocated,
-- if the allocation succeeds.
pub given_lines : Sizes → FrameContext → List ℕ
unfolding set_lines
given_lines s c = set_lines (s.linesize c.pix_fmt c.width) (s.nb_components c.pix_fmt) 0 no_lines

pub allocated_lines : Sizes → Bool → FrameContext → List ℕ
allocated_lines s image_ok c = if image_ok then s.padded c.pix_fmt c.width else no_lines

-- The line sizes of the AVFrame that to_avframe makes: av_image_alloc sets them, and
-- av_image_fill_pointers leaves them.
pub wrapped_lines : Sizes → FrameContext → List ℕ
wrapped_lines s c = s.padded c.pix_fmt c.width

-- The byte that libswscale reads for a channel of the pixel (i, j) of a packed image of three bytes a
-- pixel.
pub read_place : List ℕ → ℕ → ℕ → ℕ → ℕ
read_place lines i j channel = j * at lines 0 + i * 3 + channel
