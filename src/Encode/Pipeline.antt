-- ===== src/Encode/Pipeline.antt =====
-- One eye as a whole: frames arrive in any order, the processor and the sender take their rounds in
-- any order, and an exception that nothing catches ends the program.
pub mod Order
pub mod Reaches
pub mod Drops
pub mod Reorder
pub mod Playback
use ngp_encode_server.Base.{
  ℕ, suc, ◌+◌, ◌%◌, ◌^◌, ◌≤◌, ◌<◌, ◌≡◌, refl, ap, sym, ◌∙◌, subst, List, [], ◌∷◌, Option, none,
  some, Bool, true, false, Bool-cases, inl, inr, ◌⊎◌, arith,
}
use ngp_encode_server.Base.Exceptions.{
  Exception, Result, ok, throws, lock_timeout, runtime_error, bad_alloc, invalid_argument,
  out_of_range, websocket_error,
}
use ngp_encode_server.FrameMap.{FrameMap, insert, get_delete}
use ngp_encode_server.FrameMap.Each.{frame_insert-Each, get_delete-Each, Delivers}
use ngp_encode_server.FrameQueue.{FrameQueue, push, pop}
use ngp_encode_server.OrderedMap.Each.{Each}
use ngp_encode_server.RenderedFrame.{RenderedFrame, convert_frame, convert_frame-index}
use ngp_encode_server.Encode.{
  Eye, End, next, uncaught, Sending, Processing, process_round, send_round, on_get, on_sent,
  send_depth_next, send_scene, send_depth, switch_ret, on_pop, on_convert, on_insert,
  catch_processor, catch_sender,
}
use ngp_encode_server.Encode.Overlay.{Texts, overlay, index-overlay}

-- A client thread queues a frame, the processor takes a round, or the sender does.
pub data Step {ℓ} (F : Type ℓ) : Type ℓ where
  receives : RenderedFrame F → Step F
  processes : Texts F → Processing → Step F
  sends : Sending → Step F

module _ {ℓ} {F : Type ℓ} where
  pub step : Step F → Eye F → End × Eye F
  step (receives f) e = (next, record e { frame_queue = (push f e.frame_queue).0 })
  step (processes t p) e = process_round t p e
  step (sends a) e = send_round a e

  -- The steps up to the first exception that nothing catches.
  abbrev pub go_on : End × Eye F → (Eye F → End × Eye F) → End × Eye F
  go_on (next, e) rest = rest e
  go_on (uncaught x, e) rest = (uncaught x, e)

  pub run : List (Step F) → Eye F → End × Eye F
  run [] e = (next, e)
  run (s ∷ ss) e = go_on (step s e) (run ss)

  abbrev pub cost : Step F → ℕ
  cost (receives f) = 0
  cost (processes t p) = 0
  cost (sends a) = 1

  -- How many rounds the sender takes.
  abbrev pub sender_rounds : List (Step F) → ℕ
  sender_rounds [] = 0
  sender_rounds (s ∷ ss) = cost s + sender_rounds ss

  -- A frame stands under its own index.
  abbrev pub IsFiled : ℕ → RenderedFrame F → Type 0
  IsFiled j f = f.frame_response.index ≡ j

  -- The last first, the indices fall, from below `n`.
  abbrev pub Falls : ℕ → List (RenderedFrame F) → Type 0
  Falls n [] = Unit
  Falls n (f ∷ fs) = (f.frame_response.index < n) × Falls f.frame_response.index fs

  pub Falls-mono : {m n : ℕ} (fs : List (RenderedFrame F)) → m ≤ n → Falls m fs → Falls n fs
  Falls-mono [] le h = tt
  Falls-mono (f ∷ fs) le h = (omega arith, h.1)

  pub record IsInOrder (e : Eye F) : Type ℓ where
    pub filed : Each IsFiled e.encode_queue.entries
    pub falls : Falls e.frame_index e.to_scene
    pub same : e.to_depth ≡ e.to_scene

  -- What the encoders got: the depth encoder the frames of the scene encoder, or all but the last.
  pub record AreInOrder (e : Eye F) : Type ℓ where
    pub falls : Falls (2 ^ 64) e.to_scene
    pub depth : (e.to_scene ≡ e.to_depth) ⊎ ((f : RenderedFrame F) × (e.to_scene ≡ f ∷ e.to_depth))

  abbrev pub Outcome : ℕ → End × Eye F → Type ℓ
  Outcome n (next, e) = IsInOrder e × (e.frame_index ≤ n)
  Outcome n (uncaught x, e) = AreInOrder e

  pub AreInOrder-of : (e : Eye F) → e.frame_index < 2 ^ 64 → IsInOrder e → AreInOrder e
  AreInOrder-of e small v = record {
    falls = Falls-mono e.to_scene (omega arith) v.falls;
    depth = inl (sym v.same);
  }

  catch_processor-Outcome :
      (x : Exception) (e : Eye F)
      → e.frame_index < 2 ^ 64
      → IsInOrder e
      → Outcome e.frame_index (catch_processor x e)
  unfolding catch_processor
  catch_processor-Outcome lock_timeout e small v = (v, omega arith)
  catch_processor-Outcome runtime_error e small v = AreInOrder-of e small v
  catch_processor-Outcome bad_alloc e small v = AreInOrder-of e small v
  catch_processor-Outcome invalid_argument e small v = AreInOrder-of e small v
  catch_processor-Outcome out_of_range e small v = AreInOrder-of e small v
  catch_processor-Outcome websocket_error e small v = AreInOrder-of e small v

  on_insert-Outcome :
      (p : Processing) (m : FrameMap (RenderedFrame F)) (r : Result (Unit {0})) (e : Eye F)
      → e.frame_index < 2 ^ 64
      → Each IsFiled m.entries
      → IsInOrder e
      → Outcome e.frame_index (on_insert p (m, r) e)
  unfolding on_insert
  on_insert-Outcome p m (ok _) e small filed v =
      (record { filed = filed; falls = v.falls; same = v.same }, omega arith)
  on_insert-Outcome p m (throws x) e small filed v =
      catch_processor-Outcome x (record e { encode_queue = m }) small
        (record { filed = filed; falls = v.falls; same = v.same })

  on_convert-Outcome :
      (p : Processing) (i : ℕ) (f : RenderedFrame F) (r : Result (Unit {0})) (e : Eye F)
      → e.frame_index < 2 ^ 64
      → f.frame_response.index ≡ i
      → IsInOrder e
      → Outcome e.frame_index (on_convert p i (f, r) e)
  unfolding on_convert
  on_convert-Outcome p i f (ok _) e small own v =
      let (m, r) = insert i f e.encode_queue in
      on_insert-Outcome p m r e small (frame_insert-Each IsFiled i f e.encode_queue own v.filed) v
  on_convert-Outcome p i f (throws x) e small own v = catch_processor-Outcome x e small v

  on_pop-Outcome :
      (t : Texts F) (p : Processing) (q : FrameQueue (RenderedFrame F))
      (r : Result (RenderedFrame F)) (e : Eye F)
      → e.frame_index < 2 ^ 64
      → IsInOrder e
      → Outcome e.frame_index (on_pop t p (q, r) e)
  unfolding on_pop
  on_pop-Outcome t p q (ok frame) e small v =
      let (f, r) = convert_frame p.scene_ok p.depth_ok (overlay t frame) in
      let own =
        convert_frame-index p.scene_ok p.depth_ok (overlay t frame) ∙ index-overlay t frame in
      on_convert-Outcome p frame.frame_response.index f r (record e { frame_queue = q }) small own
        (record { filed = v.filed; falls = v.falls; same = v.same })
  on_pop-Outcome t p q (throws x) e small v =
      catch_processor-Outcome x (record e { frame_queue = q }) small
        (record { filed = v.filed; falls = v.falls; same = v.same })

  pub process_round-Outcome :
      (t : Texts F) (p : Processing) (e : Eye F)
      → e.frame_index < 2 ^ 64
      → IsInOrder e
      → Outcome e.frame_index (process_round t p e)
  unfolding process_round
  process_round-Outcome t p e small v =
      let (q, r) = pop e.frame_queue in on_pop-Outcome t p q r e small v
