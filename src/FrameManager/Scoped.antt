-- ===== src/FrameManager/Scoped.antt =====
-- The memory of a RenderedFrame from its constructor to its destructor, with the sws contexts of its
-- conversion, and of a round of receive_packet_thread (src/base/video/type_managers.cc,
-- src/base/video/rendered_frame.cc, include/base/video/rendered_frame.h, src/encode.cpp).
pub mod Frames
use ngp_encode_server.Base.{ℕ, Option, none, some, Bool, true, false, ◌&&◌, if◌then◌else◌}
use ngp_encode_server.Base.Exceptions.{Result, ok, throws, runtime_error}
use ngp_encode_server.FrameManager.{
  Heap, alloc, free, FrameManager, construct, destroy, WrapAnswers, send,
}

-- A SwsContextManager or an AVPacketManager around what is done while it lives: its constructor
-- throws if the allocation fails, and its destructor frees what was allocated.
pub scoped : Bool → (Heap → Heap × Result (Unit {0})) → Heap → Heap × Result (Unit {0})
scoped allocates body h =
    let (block, h') = alloc h in
    let (h'', r) = body h' in
    if allocates then (free (some block) h'', r) else (h, throws runtime_error)

abbrev pub nothing_more : Heap → Heap × Result (Unit {0})
nothing_more h = (h, ok tt)

-- convert_frame of a frame that was not converted: both contexts live to its end.
pub convert : Bool → Bool → Heap → Heap × Result (Unit {0})
convert scene_context depth_context = scoped scene_context (scoped depth_context nothing_more)

-- The AVPacketManager of a round of receive_packet_thread: its packet lives to the end of the round,
-- which allocates nothing else here.
pub packet_round : Bool → Heap → Heap × Result (Unit {0})
packet_round allocates = scoped allocates nothing_more

-- A FrameManager around what is done while it lives.
pub with_manager : Bool → Option ℕ → (FrameManager → Heap → Heap) → Heap → Heap
with_manager image_ok buffer body h =
    let (m, h') = construct image_ok buffer h in destroy m (body m h')

-- What libavutil and libswscale answer in the life of a frame.
pub record FrameAnswers : Type 0 where
  pub scene_image : Bool
  pub depth_image : Bool
  pub scene_context : Bool
  pub depth_context : Bool
  pub scene_wrap : WrapAnswers
  pub depth_wrap : WrapAnswers

-- The wrapper is made.
abbrev pub works : WrapAnswers → Bool
works a = a.frame_ok && (a.image_ok && a.fill_ok)

-- What becomes of the frame once it is converted, or is not: the sender hands its two images to the
-- encoders, the second one unless the first wrapper throws.
pub send_both : FrameAnswers → FrameManager → FrameManager → Result (Unit {0}) → Heap → Heap
send_both a scene depth (throws _) h = h
send_both a scene depth (ok _) h =
    let sent = send a.scene_wrap scene h in
    let both = send a.depth_wrap depth sent in if works a.scene_wrap then both else sent

-- The conversion and the sending.
pub use_frame : FrameAnswers → FrameManager → FrameManager → Heap → Heap
use_frame a scene depth h =
    let (h', r) = convert a.scene_context a.depth_context h in send_both a scene depth r h'

-- The four images of a frame are made in the order of its members and destroyed in the reverse
-- order; `frame` and `depth` are the buffers of the answer.
pub frame_life : FrameAnswers → ℕ → ℕ → Heap → Heap
frame_life a frame depth = with_manager true (some frame) λ _.
    with_manager a.scene_image none λ scene.
      with_manager true (some depth)
        λ _. with_manager a.depth_image none λ converted_depth. use_frame a scene converted_depth
