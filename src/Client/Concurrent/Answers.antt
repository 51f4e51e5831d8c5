-- ===== src/Client/Concurrent/Answers.antt =====
-- What queueing the frame of an answer makes of the queues.
use mathlib.Core.Bool.{false≢true}
use ngp_encode_server.Base.{
  ℕ, ◌≤◌, ◌<◌, ◌≡◌, refl, sym, subst, ap, ◌∙◌, List, [], ◌∷◌, ◌++◌, map, Bool, true, false, not,
  ◌⊎◌, inl, inr, Bool-cases, arith, length, length-append,
}
use ngp_encode_server.Camera.{CameraManager}
use ngp_encode_server.Codec.{CodecInitInfo}
use ngp_encode_server.FrameQueue.{FrameQueue, push, max_size}
use ngp_encode_server.FrameQueue.Fifo.{push_room}
use ngp_encode_server.RenderedFrame.{Response, RenderedFrame, construct}
use ngp_encode_server.Client.{FrameRequest, queue_frame}
use ngp_encode_server.Client.Concurrent.{Serving, take_answer}
use ngp_encode_server.Client.Session.Queues.{
  request, frame_of_eye, map-append, length-map, queue_left_lem, queue_right_lem,
}
use ngp_encode_server.Encode.Pipeline.Reorder.{InList}
use ngp_encode_server.Client.Concurrent.Asked.{IsAsked, length-without, moved, unmoved}
use ngp_encode_server.Client.Concurrent.Covered.{counter, queue_of, IsCovered}

module _ {ℓ} {F : Type ℓ} (respond : FrameRequest F → Response F) (scene depth : CodecInitInfo)
    (cameras : CameraManager F)
    (own_side : (r : FrameRequest F) → (respond r).is_left ≡ r.is_left) where
  abbrev frame_at : Bool → ℕ → RenderedFrame F
  frame_at = frame_of_eye respond scene depth cameras own_side

  abbrev request_at : Bool → ℕ → FrameRequest F
  request_at = request respond scene depth cameras own_side

  -- The frame goes to the end of its queue, which has room.
  queue_one :
      (side : Bool) (k : ℕ) (is : List ℕ) (q : FrameQueue (RenderedFrame F))
      → q.queue ≡ map (frame_at side) is
      → length is < max_size
      → (push (frame_at side k) q).0.queue ≡ map (frame_at side) (is ++ k ∷ [])
  queue_one side k is q e small =
      let count = ap length e ∙ length-map (frame_at side) is in
      push_room (frame_at side k) q (omega (arith, count))
      ∙ ap (λ xs. xs ++ frame_at side k ∷ []) e
      ∙ sym (map-append (frame_at side) is (k ∷ []))

  abbrev pub after_answer : FrameRequest F → List (FrameRequest F) → Serving F → Serving F
  after_answer = take_answer respond scene depth

  -- What the queue of an eye holds after an answer of the other eye, and of its own.
  pub answer_other :
      (side : Bool) (k : ℕ) (others : List (FrameRequest F)) (t : Serving F)
      → queue_of side (after_answer (request_at (not side) k) others t).shared
        ≡ queue_of side t.shared
  unfolding take_answer
  answer_other true k others t =
      ap (queue_of true) (queue_right_lem respond scene depth cameras own_side k t.shared)
  answer_other false k others t =
      ap (queue_of false) (queue_left_lem respond scene depth cameras own_side k t.shared)

  answer_own :
      (side : Bool) (k : ℕ) (is : List ℕ) (others : List (FrameRequest F)) (t : Serving F)
      → queue_of side t.shared ≡ map (frame_at side) is
      → length is < max_size
      → queue_of side (after_answer (request_at side k) others t).shared
        ≡ map (frame_at side) (is ++ k ∷ [])
  unfolding take_answer
  answer_own true k is others t e small =
      ap (queue_of true) (queue_left_lem respond scene depth cameras own_side k t.shared)
      ∙ queue_one true k is t.shared.queue_left e small
  answer_own false k is others t e small =
      ap (queue_of false) (queue_right_lem respond scene depth cameras own_side k t.shared)
      ∙ queue_one false k is t.shared.queue_right e small

  -- Queueing a frame touches neither the counters nor the cameras.
  pub answer_keeps :
      (r : FrameRequest F) (others : List (FrameRequest F)) (t : Serving F)
      → ((after_answer r others t).shared.counters ≡ t.shared.counters)
        × ((after_answer r others t).shared.cameras ≡ t.shared.cameras)
  unfolding take_answer queue_frame construct
  answer_keeps r others t = elim (Bool-cases (respond r).is_left) [
    | inl e ↦ rw e (refl, refl)
    | inr e ↦ rw e (refl, refl)
  ]

  answered_own :
      (side : Bool) (k n : ℕ) (before behind : List (FrameRequest F)) (t : Serving F)
      → t.pending ≡ before ++ request_at side k ∷ behind
      → n ≤ max_size
      → IsCovered respond scene depth cameras own_side side n t
      → IsCovered respond scene depth cameras own_side side n
          (after_answer (request_at side k) (before ++ behind) t)
  unfolding take_answer
  answered_own side k n before behind t e small v =
      let (counted, _) = answer_keeps (request_at side k) (before ++ behind) t in
      let few = v.few in
      let shorter = ap length e ∙ length-without before behind (request_at side k) in
      let longer = length-append v.indices (k ∷ []) in
      record {
        indices = v.indices ++ k ∷ [];
        queued =
            answer_own side k v.indices (before ++ behind) t v.queued (omega (arith, few, shorter));
        covers = λ i h. moved side i v.indices before behind (request_at side k) (
            subst (λ rs. InList i v.indices ⊎ IsAsked side i rs) e
              (v.covers i (subst (λ c. i < counter side c) counted h)));
        asked = subst (λ c. counter side c ≤ n) (sym counted) v.asked;
        few = omega (arith, few, shorter, longer);
      }

  answered_other :
      (side : Bool) (k n : ℕ) (before behind : List (FrameRequest F)) (t : Serving F)
      → t.pending ≡ before ++ request_at (not side) k ∷ behind
      → ¬ (side ≡ not side)
      → IsCovered respond scene depth cameras own_side side n t
      → IsCovered respond scene depth cameras own_side side n
          (after_answer (request_at (not side) k) (before ++ behind) t)
  unfolding take_answer
  answered_other side k n before behind t e differ v =
      let r = request_at (not side) k in
      let (counted, _) = answer_keeps r (before ++ behind) t in
      let few = v.few in
      let shorter = ap length e ∙ length-without before behind r in
      record {
        indices = v.indices;
        queued = answer_other side k (before ++ behind) t ∙ v.queued;
        covers = λ i h. unmoved side i v.indices before behind r differ (
            subst (λ rs. InList i v.indices ⊎ IsAsked side i rs) e
              (v.covers i (subst (λ c. i < counter side c) counted h)));
        asked = subst (λ c. counter side c ≤ n) (sym counted) v.asked;
        few = omega (arith, few, shorter);
      }

  pub answer-IsCovered :
      (drawn side : Bool) (k n : ℕ) (before behind : List (FrameRequest F)) (t : Serving F)
      → t.pending ≡ before ++ request_at drawn k ∷ behind
      → n ≤ max_size
      → IsCovered respond scene depth cameras own_side side n t
      → IsCovered respond scene depth cameras own_side side n
          (after_answer (request_at drawn k) (before ++ behind) t)
  answer-IsCovered true true k n before behind t e small v =
      answered_own true k n before behind t e small v
  answer-IsCovered false false k n before behind t e small v =
      answered_own false k n before behind t e small v
  answer-IsCovered true false k n before behind t e small v =
      answered_other false k n before behind t e (λ p. false≢true p) v
  answer-IsCovered false true k n before behind t e small v =
      answered_other true k n before behind t e (λ p. false≢true (sym p)) v
