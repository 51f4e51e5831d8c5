-- ===== src/Encode.antt =====
-- src/encode.cpp, the frame processor and the sender of each eye: process_frame_thread draws texts on
-- a frame, converts it and files it under its index; send_frame_thread takes the frames in the order
-- of their indices and hands them to the two encoders. The font, the formatting of a number of
-- the camera matrix and the clock come in `Texts`.
pub mod Overlay
pub mod Rates
pub mod Process
pub mod Send
pub mod Pipeline
pub mod Packets
pub mod Stream
mod Tests
use ngp_encode_server.Base.{ℕ, ◌+◌, ◌%◌, ◌^◌, List, ◌∷◌, Bool, true, false, ◌==◌, if◌then◌else◌}
use ngp_encode_server.Base.Int.{ℤ, negsuc}
use ngp_encode_server.Base.Exceptions.{Exception, Result, ok, throws, lock_timeout}
use ngp_encode_server.FrameMap.{FrameMap, insert, get_delete}
use ngp_encode_server.FrameQueue.{FrameQueue, pop}
use ngp_encode_server.RenderedFrame.{RenderedFrame, convert_frame}
use ngp_encode_server.Encode.Overlay.{Texts, overlay}

-- kLogStatsIntervalFrame
abbrev pub log_stats_interval : ℕ
log_stats_interval = 100

-- How a round ends: with the next one, or with an exception that nothing in the thread catches.
pub data End : Type 0 where
  next : End
  uncaught : Exception → End

-- `unsigned index` and `uint64_t elapsed`
pub record Stats : Type 0 where
  pub index : ℕ
  pub elapsed : ℕ

-- `index++; elapsed += …; if (index == kLogStatsIntervalFrame) …`
pub count_frame : ℕ → Stats → Stats
count_frame time s =
    let index = (s.index + 1) % 2 ^ 32 in
    if index == log_stats_interval
    then record { index = 0; elapsed = 0 }
    else record { index = index; elapsed = (s.elapsed + time) % 2 ^ 64 }

-- What libswscale and the clock answer in a round of the processor.
pub record Processing : Type 0 where
  pub scene_ok : Bool
  pub depth_ok : Bool
  pub time : ℕ

-- What the two threads of an eye share, and the variables of each. `to_scene` and `to_depth` are the
-- frames that were handed to the encoders, the last first.
pub record Eye {ℓ} (F : Type ℓ) : Type ℓ where
  pub frame_queue : FrameQueue (RenderedFrame F)
  pub encode_queue : FrameMap (RenderedFrame F)
  pub processed : Stats
  pub frame_index : ℕ
  pub sent : Stats
  pub to_scene : List (RenderedFrame F)
  pub to_depth : List (RenderedFrame F)

-- What the other libraries answer in a round of the sender: whether the AVFrame of each image can be
-- made, and what avcodec_send_frame returns for it.
pub record Sending : Type 0 where
  pub scene_wraps : Bool
  pub scene_ret : ℤ
  pub depth_wraps : Bool
  pub depth_ret : ℤ
  pub time : ℕ

-- The `switch` on what send_frame returned: it makes exceptions and throws none of them.
switch_ret : ℤ → Result (Unit {0})
switch_ret ret = ok tt

module _ {ℓ} {F : Type ℓ} where
  -- `catch (const LockTimeout &)` of the processor
  catch_processor : Exception → Eye F → End × Eye F
  catch_processor lock_timeout e = (next, e)
  catch_processor x e = (uncaught x, e)

  -- What follows `encode_queue->insert(…)`.
  on_insert : Processing → FrameMap (RenderedFrame F) × Result (Unit {0}) → Eye F → End × Eye F
  on_insert p (m, ok _) e =
      (next, record e { encode_queue = m; processed = count_frame p.time e.processed })
  on_insert p (m, throws x) e = catch_processor x (record e { encode_queue = m })

  on_convert : Processing → ℕ → RenderedFrame F × Result (Unit {0}) → Eye F → End × Eye F
  unfolding on_insert
  on_convert p frame_index (f, ok _) e = on_insert p (insert frame_index f e.encode_queue) e
  on_convert p frame_index (f, throws x) e = catch_processor x e

  on_pop :
      Texts F
      → Processing
      → FrameQueue (RenderedFrame F) × Result (RenderedFrame F)
      → Eye F
      → End × Eye F
  unfolding on_convert
  on_pop t p (q, ok frame) e =
      let converted = convert_frame p.scene_ok p.depth_ok (overlay t frame) in
      on_convert p frame.frame_response.index converted (record e { frame_queue = q })
  on_pop t p (q, throws x) e = catch_processor x (record e { frame_queue = q })

  -- A round of process_frame_thread.
  pub process_round : Texts F → Processing → Eye F → End × Eye F
  unfolding on_pop
  process_round t p e = on_pop t p (pop e.frame_queue) e

  -- Each image in turn: its AVFrame, send_frame, and the `switch`.
  send_depth : Sending → RenderedFrame F → Eye F → Eye F × Result (Unit {0})
  send_depth a f e =
      if a.depth_wraps
      then (record e { to_depth = f ∷ e.to_depth }, switch_ret a.depth_ret)
      else (e, throws Exception.runtime_error)

  send_scene : Sending → RenderedFrame F → Eye F → Eye F × Result (Unit {0})
  send_scene a f e =
      if a.scene_wraps
      then (record e { to_scene = f ∷ e.to_scene }, switch_ret a.scene_ret)
      else (e, throws Exception.runtime_error)

  -- What follows `encode_queue->get_delete(frame_index)`.
  send_depth_next :
      Sending → RenderedFrame F → Eye F × Result (Unit {0}) → Eye F × Result (Unit {0})
  unfolding send_depth
  send_depth_next a f (e, ok _) = send_depth a f e
  send_depth_next a f (e, throws x) = (e, throws x)

  -- `catch (const LockTimeout &)` of the sender, and `frame_index++`
  catch_sender : Exception → Eye F → End × Eye F
  catch_sender lock_timeout e = (next, record e { frame_index = (e.frame_index + 1) % 2 ^ 64 })
  catch_sender x e = (uncaught x, e)

  -- Both encoders were served: `index++`, and so on.
  on_sent : Sending → Eye F × Result (Unit {0}) → End × Eye F
  on_sent a (e, ok _) = (
    next,
    record e { sent = count_frame a.time e.sent; frame_index = (e.frame_index + 1) % 2 ^ 64 },
  )
  on_sent a (e, throws x) = catch_sender x e

  on_get : Sending → FrameMap (RenderedFrame F) × Result (RenderedFrame F) → Eye F → End × Eye F
  unfolding on_sent send_depth_next send_scene
  on_get a (m, ok f) e =
      on_sent a (send_depth_next a f (send_scene a f (record e { encode_queue = m })))
  on_get a (m, throws x) e = catch_sender x (record e { encode_queue = m })

  -- A round of send_frame_thread.
  pub send_round : Sending → Eye F → End × Eye F
  unfolding on_get
  send_round a e = on_get a (get_delete e.frame_index e.encode_queue) e
