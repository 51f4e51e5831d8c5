-- ===== src/FrameManager.antt =====
-- The memory of an image: types::FrameManager and its AVFrameWrapper (src/base/video/type_managers.cc,
-- include/base/video/type_managers.h). Blocks of the heap are numbered as they are allocated; what
-- libavutil answers is an argument of each operation.
pub mod Life
pub mod Scoped
pub mod Lines
mod Tests
use ngp_encode_server.Base.{
  ℕ, suc, ◌+◌, List, [], ◌∷◌, Option, none, some, Bool, true, false, ◌==◌, if◌then◌else◌,
}
use ngp_encode_server.Base.Exceptions.{Result, ok, throws, runtime_error}

-- `live` are the blocks that are allocated, the last first; `bad` is set once a block is freed that is
-- not.
pub record Heap : Type 0 where
  pub live : List ℕ
  pub allocated : ℕ
  pub bad : Bool

-- A new block.
pub alloc : Heap → ℕ × Heap
alloc h = (h.allocated, record h { live = h.allocated ∷ h.live; allocated = suc h.allocated })

also_left : ℕ → Option (List ℕ) → Option (List ℕ)
also_left x none = none
also_left x (some xs) = some (x ∷ xs)

remove : ℕ → List ℕ → Option (List ℕ)
remove b [] = none
remove b (x ∷ xs) = let rest = remove b xs in if x == b then some xs else also_left x rest

on_remove : Heap → Option (List ℕ) → Heap
on_remove h none = record h { bad = true }
on_remove h (some xs) = record h { live = xs }

-- av_freep, which does nothing for a null pointer.
pub free : Option ℕ → Heap → Heap
unfolding on_remove remove
free none h = h
free (some b) h = on_remove h (remove b h.live)

-- `pixels` is m_data.data[0].
pub record FrameManager : Type 0 where
  pub pixels : Option ℕ
  pub should_free_buffer : Bool

-- The constructor; av_image_alloc may fail, and then the pointer stays null and nothing is thrown.
pub construct : Bool → Option ℕ → Heap → FrameManager × Heap
unfolding alloc
construct image_ok (some buffer) h =
    (record { pixels = some buffer; should_free_buffer = false }, h)
construct image_ok none h =
    let (block, h') = alloc h in
    if image_ok
    then (record { pixels = some block; should_free_buffer = true }, h')
    else (record { pixels = none; should_free_buffer = true }, h)

-- The destructor.
pub destroy : FrameManager → Heap → Heap
unfolding free
destroy m h = if m.should_free_buffer then free m.pixels h else h

-- `frame` is the AVFrame, and `pixels` its data[0].
pub record AvFrameWrapper : Type 0 where
  pub frame : ℕ
  pub pixels : Option ℕ

-- What av_frame_alloc, av_image_alloc and av_image_fill_pointers answer.
pub record WrapAnswers : Type 0 where
  pub frame_ok : Bool
  pub image_ok : Bool
  pub fill_ok : Bool

-- to_avframe: the constructor of the wrapper. av_image_fill_pointers writes the manager's buffer over
-- the image that was just allocated; an exception leaves what was allocated before it.
pub to_avframe : WrapAnswers → FrameManager → Heap → Heap × Result AvFrameWrapper
unfolding alloc
to_avframe a m h =
    let (frame, h') = alloc h in
    let (image, h'') = alloc h' in
    if a.frame_ok
    then if a.image_ok
      then if a.fill_ok
        then (h'', ok (record { frame = frame; pixels = m.pixels }))
        else (h'', throws runtime_error)
      else (h', throws runtime_error)
    else (h, throws runtime_error)

-- The destructor of the wrapper: av_frame_unref makes its pointers null, so that av_freep frees
-- nothing, and av_frame_free frees the AVFrame.
pub unwrap : AvFrameWrapper → Heap → Heap
unfolding free
unwrap w h = let unreferenced : Option ℕ = none in free (some w.frame) (free unreferenced h)

-- A frame that is sent: its wrapper lives for the call of send_frame.
on_wrapped : Heap × Result AvFrameWrapper → Heap
unfolding unwrap
on_wrapped (h, ok w) = unwrap w h
on_wrapped (h, throws x) = h

pub send : WrapAnswers → FrameManager → Heap → Heap
unfolding on_wrapped to_avframe
send a m h = on_wrapped (to_avframe a m h)

pub send_frames : List WrapAnswers → FrameManager → Heap → Heap
send_frames [] m h = h
send_frames (a ∷ rest) m h = send_frames rest m (send a m h)

-- The whole life of a manager.
pub live_through : Bool → Option ℕ → List WrapAnswers → Heap → Heap
unfolding construct destroy send_frames
live_through image_ok buffer answers h =
    let (m, h') = construct image_ok buffer h in destroy m (send_frames answers m h')
