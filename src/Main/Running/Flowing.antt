-- ===== src/Main/Running/Flowing.antt =====
-- Every step of a thread keeps the frames of both eyes on their way.
use mathlib.Core.Bool.{false≢true}
use ngp_encode_server.Base.{
  ℕ, suc, ◌+◌, ◌%◌, ◌^◌, ◌<◌, ◌≡◌, refl, sym, subst, ap, ◌∙◌, List, [], ◌∷◌, ◌++◌, Bool, true,
  false, not, arith, length,
}
use ngp_encode_server.Camera.{CameraManager}
use ngp_encode_server.Codec.{CodecInitInfo}
use ngp_encode_server.Client.{FrameRequest}
use ngp_encode_server.Client.Concurrent.{Serving, take_side, take_index, take_answer, request_for}
use ngp_encode_server.Client.Concurrent.Covered.{counter, queue_of, frame_at, request_at}
use ngp_encode_server.Client.Concurrent.Answers.{answer_keeps, answer_other}
use ngp_encode_server.Client.Session.Queues.{queue_left_lem, queue_right_lem}
use ngp_encode_server.Encode.{Eye}
use ngp_encode_server.Encode.Overlay.{Texts}
use ngp_encode_server.FrameQueue.{max_size}
use ngp_encode_server.FrameQueue.Fifo.{push_room}
use ngp_encode_server.RenderedFrame.{Response, RenderedFrame}
use ngp_encode_server.Requests.{fetch_side, fetch_index}
use ngp_encode_server.Main.Running.Flow.{
  Flows, draw-Flows, draw_other-Flows, answer-Flows, answer_other-Flows,
}

module _ {ℓ} {F : Type ℓ} (respond : FrameRequest F → Response F) (scene depth : CodecInitInfo)
    (cameras : CameraManager F) (own_side : (r : FrameRequest F) → (respond r).is_left ≡ r.is_left)
    (stamp : Bool → ℕ → Texts F) where
  abbrev pub frame_of : Bool → ℕ → RenderedFrame F
  frame_of = frame_at respond scene depth cameras own_side

  abbrev pub request_of : Bool → ℕ → FrameRequest F
  request_of = request_at respond scene depth cameras own_side

  -- The frames of an eye, while client threads and an eye stand so.
  abbrev pub EyeFlows : Bool → Serving F → Eye F → Type ℓ
  EyeFlows side t e =
      Flows side (frame_of side) (stamp side) (counter side t.shared.counters)
        (queue_of side t.shared) t.pending e

  pub side-EyeFlows :
      (side : Bool) (t : Serving F) (e : Eye F) → EyeFlows side t e → EyeFlows side (take_side t) e
  unfolding take_side fetch_side
  side-EyeFlows true t e v = v
  side-EyeFlows false t e v = v

  pub index-EyeFlows :
      (drawn side : Bool) (others : List Bool) (t : Serving F) (e : Eye F)
      → suc (counter drawn t.shared.counters) < 2 ^ 64
      → EyeFlows side t e
      → EyeFlows side (take_index drawn others t) e
  unfolding take_index fetch_index
  index-EyeFlows true true others t e small v =
      let c = t.shared.counters.frame_index_left in
      let wraps : suc c ≡ (c + 1) % 2 ^ 64 = omega (arith, small) in
      subst
        (λ k.
          Flows true (frame_of true) (stamp true) k t.shared.queue_left.queue
            (request_for true c t.shared ∷ t.pending) e)
        wraps
        (draw-Flows true (frame_of true) (stamp true) c t.shared.queue_left.queue t.pending e
          (request_for true c t.shared) small refl refl v)
  index-EyeFlows false false others t e small v =
      let c = t.shared.counters.frame_index_right in
      let wraps : suc c ≡ (c + 1) % 2 ^ 64 = omega (arith, small) in
      subst
        (λ k.
          Flows false (frame_of false) (stamp false) k t.shared.queue_right.queue
            (request_for false c t.shared ∷ t.pending) e)
        wraps
        (draw-Flows false (frame_of false) (stamp false) c t.shared.queue_right.queue t.pending e
          (request_for false c t.shared) small refl refl v)
  index-EyeFlows true false others t e small v =
      draw_other-Flows false (frame_of false) (stamp false) t.shared.counters.frame_index_right
        t.shared.queue_right.queue t.pending e
        (request_for true t.shared.counters.frame_index_left t.shared) (λ q. false≢true q) v
  index-EyeFlows false true others t e small v =
      draw_other-Flows true (frame_of true) (stamp true) t.shared.counters.frame_index_left
        t.shared.queue_left.queue t.pending e
        (request_for false t.shared.counters.frame_index_right t.shared) (λ q. false≢true (sym q)) v

  -- An answer of the eye makes its queue longer by a frame.
  answer_queued :
      (side : Bool) (k : ℕ) (others : List (FrameRequest F)) (t : Serving F)
      → length (queue_of side t.shared) < max_size
      → queue_of side (take_answer respond scene depth (request_of side k) others t).shared
        ≡ queue_of side t.shared ++ frame_of side k ∷ []
  unfolding take_answer
  answer_queued true k others t room =
      ap (queue_of true) (queue_left_lem respond scene depth cameras own_side k t.shared)
      ∙ push_room (frame_of true k) t.shared.queue_left room
  answer_queued false k others t room =
      ap (queue_of false) (queue_right_lem respond scene depth cameras own_side k t.shared)
      ∙ push_room (frame_of false k) t.shared.queue_right room

  answer_from :
      (side : Bool) (r : FrameRequest F) (others : List (FrameRequest F)) (t : Serving F)
      (e : Eye F) (queue : List (RenderedFrame F))
      → queue_of side (take_answer respond scene depth r others t).shared ≡ queue
      → Flows side (frame_of side) (stamp side) (counter side t.shared.counters) queue others e
      → EyeFlows side (take_answer respond scene depth r others t) e
  unfolding take_answer
  answer_from side r others t e queue queued v =
      let (counted, _) = answer_keeps respond scene depth cameras own_side r others t in
      subst
        (λ q.
          Flows side (frame_of side) (stamp side)
            (counter side (take_answer respond scene depth r others t).shared.counters) q others e)
        (sym queued)
        (subst (λ c. Flows side (frame_of side) (stamp side) (counter side c) queue others e)
          (sym counted) v)

  answered_own :
      (side : Bool) (k : ℕ) (before behind : List (FrameRequest F)) (t : Serving F) (e : Eye F)
      → t.pending ≡ before ++ request_of side k ∷ behind
      → length (queue_of side t.shared) < max_size
      → EyeFlows side t e
      → EyeFlows side (take_answer respond scene depth (request_of side k) (before ++ behind) t) e
  answered_own side k before behind t e asked room v =
      let c = counter side t.shared.counters in
      let q = queue_of side t.shared in
      answer_from side (request_of side k) (before ++ behind) t e (q ++ frame_of side k ∷ [])
        (answer_queued side k (before ++ behind) t room)
        (answer-Flows side (frame_of side) (stamp side) c q before behind (request_of side k) e refl
          (subst (λ rs. Flows side (frame_of side) (stamp side) c q rs e) asked v))

  answered_other :
      (side : Bool) (k : ℕ) (before behind : List (FrameRequest F)) (t : Serving F) (e : Eye F)
      → t.pending ≡ before ++ request_of (not side) k ∷ behind
      → ¬ (side ≡ not side)
      → EyeFlows side t e
      → EyeFlows side
          (take_answer respond scene depth (request_of (not side) k) (before ++ behind) t)
          e
  answered_other side k before behind t e asked differ v =
      let c = counter side t.shared.counters in
      let q = queue_of side t.shared in
      let r = request_of (not side) k in
      answer_from side r (before ++ behind) t e q
        (answer_other respond scene depth cameras own_side side k (before ++ behind) t)
        (answer_other-Flows side (frame_of side) (stamp side) c q before behind r e differ
          (subst (λ rs. Flows side (frame_of side) (stamp side) c q rs e) asked v))

  pub answer-EyeFlows :
      (drawn side : Bool) (k : ℕ) (before behind : List (FrameRequest F)) (t : Serving F)
      (e : Eye F)
      → t.pending ≡ before ++ request_of drawn k ∷ behind
      → length (queue_of drawn t.shared) < max_size
      → EyeFlows side t e
      → EyeFlows side (take_answer respond scene depth (request_of drawn k) (before ++ behind) t) e
  answer-EyeFlows true true k before behind t e asked room v =
      answered_own true k before behind t e asked room v
  answer-EyeFlows false false k before behind t e asked room v =
      answered_own false k before behind t e asked room v
  answer-EyeFlows true false k before behind t e asked room v =
      answered_other false k before behind t e asked (λ q. false≢true q) v
  answer-EyeFlows false true k before behind t e asked room v =
      answered_other true k before behind t e asked (λ q. false≢true (sym q)) v
