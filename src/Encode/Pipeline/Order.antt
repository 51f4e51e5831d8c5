-- ===== src/Encode/Pipeline/Order.antt =====
-- The order in which the encoders get the frames.
use ngp_encode_server.Base.{
  ℕ, suc, ◌+◌, ◌%◌, ◌^◌, ◌≤◌, ◌<◌, ◌≡◌, ap, sym, List, [], ◌∷◌, Bool-cases, inl, inr, arith,
}
use ngp_encode_server.Base.Exceptions.{
  Exception, Result, ok, throws, lock_timeout, runtime_error, bad_alloc, invalid_argument,
  out_of_range, websocket_error,
}
use ngp_encode_server.FrameMap.{FrameMap, get_delete}
use ngp_encode_server.FrameMap.Each.{get_delete-Each, Delivers}
use ngp_encode_server.OrderedMap.Each.{Each}
use ngp_encode_server.RenderedFrame.{RenderedFrame}
use ngp_encode_server.Encode.{
  Eye, End, uncaught, Sending, process_round, send_round, on_get, on_sent, send_depth_next,
  send_scene, send_depth, switch_ret, catch_sender,
}
use ngp_encode_server.Encode.Pipeline.{
  Step, receives, processes, sends, step, run, go_on, cost, sender_rounds, IsFiled, Falls,
  Falls-mono, IsInOrder, AreInOrder, AreInOrder-of, Outcome, process_round-Outcome,
}

module _ {ℓ} {F : Type ℓ} where
  Outcome-mono : {m n : ℕ} (r : End × Eye F) → m ≤ n → Outcome m r → Outcome n r
  Outcome-mono (End.next, e) le h = (h.0, omega arith)
  Outcome-mono (uncaught x, e) le h = h

  advanced-IsInOrder :
      (e : Eye F)
      → suc e.frame_index < 2 ^ 64
      → IsInOrder e
      → Outcome
          (suc e.frame_index)
          (End.next, record e { frame_index = (e.frame_index + 1) % 2 ^ 64 })
  advanced-IsInOrder e small v =
      let up : e.frame_index ≤ (e.frame_index + 1) % 2 ^ 64 = omega arith in
      (
        record { filed = v.filed; falls = Falls-mono e.to_scene up v.falls; same = v.same },
        omega arith,
      )

  catch_sender-Outcome :
      (x : Exception) (e : Eye F)
      → suc e.frame_index < 2 ^ 64
      → IsInOrder e
      → Outcome (suc e.frame_index) (catch_sender x e)
  unfolding catch_sender
  catch_sender-Outcome lock_timeout e small v = advanced-IsInOrder e small v
  catch_sender-Outcome runtime_error e small v = AreInOrder-of e (omega arith) v
  catch_sender-Outcome bad_alloc e small v = AreInOrder-of e (omega arith) v
  catch_sender-Outcome invalid_argument e small v = AreInOrder-of e (omega arith) v
  catch_sender-Outcome out_of_range e small v = AreInOrder-of e (omega arith) v
  catch_sender-Outcome websocket_error e small v = AreInOrder-of e (omega arith) v

  sent-Outcome :
      (a : Sending) (f : RenderedFrame F) (e : Eye F)
      → suc e.frame_index < 2 ^ 64
      → f.frame_response.index ≡ e.frame_index
      → IsInOrder e
      → Outcome (suc e.frame_index) (on_sent a (send_depth_next a f (send_scene a f e)))
  unfolding on_sent send_depth_next send_scene send_depth switch_ret catch_sender
  sent-Outcome a f e small own v =
      let up : e.frame_index < (e.frame_index + 1) % 2 ^ 64 = omega arith in
      let below : Falls f.frame_response.index e.to_scene =
        Falls-mono e.to_scene (omega arith) v.falls in
      elim (Bool-cases a.scene_wraps) [
        | inr unwrapped ↦ rw unwrapped (AreInOrder-of e (omega arith) v)
        | inl wrapped ↦ elim (Bool-cases a.depth_wraps) [
          | inr unwrapped ↦
              rw (wrapped, unwrapped)
                (record { falls = (omega arith, below); depth = inr (f, ap (◌∷◌ f) (sym v.same)) })
          | inl wrapped' ↦
              rw (wrapped, wrapped')
                (
                  record {
                    filed = v.filed;
                    falls = (omega arith, below);
                    same = ap (◌∷◌ f) v.same;
                  },
                  omega arith,
                )
        ]
      ]

  on_get-Outcome :
      (a : Sending) (m : FrameMap (RenderedFrame F)) (r : Result (RenderedFrame F)) (e : Eye F)
      → suc e.frame_index < 2 ^ 64
      → Each IsFiled m.entries
      → Delivers IsFiled e.frame_index r
      → IsInOrder e
      → Outcome (suc e.frame_index) (on_get a (m, r) e)
  unfolding on_get
  on_get-Outcome a m (ok f) e small filed own v =
      sent-Outcome a f (record e { encode_queue = m }) small own
        (record { filed = filed; falls = v.falls; same = v.same })
  on_get-Outcome a m (throws x) e small filed own v =
      catch_sender-Outcome x (record e { encode_queue = m }) small
        (record { filed = filed; falls = v.falls; same = v.same })

  step-Outcome :
      (s : Step F) (e : Eye F)
      → e.frame_index + cost s < 2 ^ 64
      → IsInOrder e
      → Outcome (e.frame_index + cost s) (step s e)
  unfolding step send_round
  step-Outcome (receives f) e small v =
      (record { filed = v.filed; falls = v.falls; same = v.same }, omega arith)
  step-Outcome (processes t p) e small v =
      Outcome-mono (process_round t p e) (omega arith) (process_round-Outcome t p e (omega arith) v)
  step-Outcome (sends a) e small v =
      let (m, r) = get_delete e.frame_index e.encode_queue in
      let (filed, own) = get_delete-Each IsFiled e.frame_index e.encode_queue v.filed in
      Outcome-mono (on_get a (m, r) e) (omega arith)
        (on_get-Outcome a m r e (omega arith) filed own v)

  -- A step that ends with the next one, and the others after it.
  go_on-AreInOrder :
      (n : ℕ) (r : End × Eye F) (rest : Eye F → End × Eye F)
      → ((e : Eye F) → e.frame_index ≤ n → IsInOrder e → AreInOrder (rest e).1)
      → Outcome n r
      → AreInOrder (go_on r rest).1
  go_on-AreInOrder n (End.next, e) rest on h = on e h.1 h.0
  go_on-AreInOrder n (uncaught x, e) rest on h = h

  run-AreInOrder :
      (ss : List (Step F)) (e : Eye F)
      → e.frame_index + sender_rounds ss < 2 ^ 64
      → IsInOrder e
      → AreInOrder (run ss e).1
  unfolding run
  run-AreInOrder [] e small v = AreInOrder-of e (omega arith) v
  run-AreInOrder (s ∷ ss) e small v =
      go_on-AreInOrder (e.frame_index + cost s) (step s e) (run ss)
        (λ e' le v'. run-AreInOrder ss e' (omega arith) v') (step-Outcome s e (omega arith) v)

  -- From an eye that has no frames and has sent none, in whatever order frames arrive and the threads
  -- take their rounds: in fewer than 2 ^ 64 rounds of the sender, the scene encoder gets frames of
  -- strictly rising indices, so that none is encoded twice or after a later one, and the depth encoder
  -- gets the same frames in the same order, or all but the last if the program ended at it.
  pub encoders_in_order :
      (ss : List (Step F)) (e : Eye F)
      → e.frame_index ≡ 0
      → e.encode_queue.entries ≡ []
      → e.to_scene ≡ []
      → e.to_depth ≡ []
      → sender_rounds ss < 2 ^ 64
      → AreInOrder (run ss e).1
  encoders_in_order ss e first empty no_scene no_depth small =
      run-AreInOrder ss e (omega arith) (record {
        filed = rw (empty, Each) tt;
        falls = rw (no_scene, Falls) tt;
        same = rw (no_scene, no_depth);
      })
