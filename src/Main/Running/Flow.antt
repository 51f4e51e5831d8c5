-- ===== src/Main/Running/Flow.antt =====
-- The way of the frames of one eye: asked for, in the queue, in the map, handed to the encoders. Each
-- step of a thread moves a frame on, and loses none.

use ngp_encode_server.Client.Session.Queues.{map-append}
use ngp_encode_server.Base.{
  ℕ, zero, suc, ◌^◌, ◌≤◌, ◌<◌, ◌≡◌, refl, sym, subst, ap, ◌∙◌, List, [], ◌∷◌, ◌++◌, map, none, some,
  Bool, ◌⊎◌, inl, inr, arith, append_assoc,
}
use ngp_encode_server.Client.{FrameRequest}
use ngp_encode_server.Client.Concurrent.Asked.{IsAsked, grows, drawn_more, moved, unmoved}
use ngp_encode_server.Encode.{Eye}
use ngp_encode_server.Encode.Overlay.{Texts}
use ngp_encode_server.Encode.Process.{filed}
use ngp_encode_server.Encode.Pipeline.Reorder.{InList}
use ngp_encode_server.FrameMap.{IsValid}
use ngp_encode_server.FrameMap.View.{view}
use ngp_encode_server.RenderedFrame.{RenderedFrame}

pub InList-split : (i : ℕ) (xs ys : List ℕ) → InList i (xs ++ ys) → InList i xs ⊎ InList i ys
InList-split i [] ys h = inr h
InList-split i (x ∷ xs) ys (inl h) = inl (inl h)
InList-split i (x ∷ xs) ys (inr h) = elim (InList-split i xs ys h) [
  | inl a ↦ inl (inr a)
  | inr b ↦ inr b
]

module _ {ℓ} {F : Type ℓ} where
  IsAsked-with :
      (side : Bool) (i : ℕ) (before behind : List (FrameRequest F)) (r : FrameRequest F)
      → IsAsked side i (before ++ behind)
      → IsAsked side i (before ++ r ∷ behind)
  IsAsked-with side i [] behind r h = inr h
  IsAsked-with side i (x ∷ before) behind r (inl h) = inl h
  IsAsked-with side i (x ∷ before) behind r (inr h) = inr (IsAsked-with side i before behind r h)

  IsAsked-self :
      (before behind : List (FrameRequest F)) (r : FrameRequest F)
      → IsAsked r.is_left r.index (before ++ r ∷ behind)
  IsAsked-self [] behind r = inl (refl, refl)
  IsAsked-self (x ∷ before) behind r = inr (IsAsked-self before behind r)

-- `g` are the frames of the eye's requests, and `stamp` the texts that each is given.
module _ {ℓ} {F : Type ℓ} (side : Bool) (g : ℕ → RenderedFrame F) (stamp : ℕ → Texts F) where
  -- What the encoders are handed for a request.
  abbrev pub handed : ℕ → RenderedFrame F
  handed i = filed (stamp i) (g i)

  -- The frames of the requests below `n`, the last first.
  abbrev pub handed_below : ℕ → List (RenderedFrame F)
  handed_below zero = []
  handed_below (suc n) = handed n ∷ handed_below n

  -- `drawn` requests of the eye were drawn, `pending` are those that are not answered yet, of both
  -- eyes, `queue` is the frame queue of the eye, and `e` has the rest. The indices of the queue are
  -- `waiting`, those that were processed are `done`.
  pub record Flows (drawn : ℕ) (queue : List (RenderedFrame F)) (pending : List (FrameRequest F))
      (e : Eye F) : Type ℓ where
    pub done : List ℕ
    pub waiting : List ℕ
    pub queued : queue ≡ map g waiting
    pub covers : (i : ℕ) → i < drawn → InList i (done ++ waiting) ⊎ IsAsked side i pending
    pub known : (i : ℕ) → InList i waiting ⊎ IsAsked side i pending → i < drawn
    pub kept : (i : ℕ) → InList i done → e.frame_index ≤ i → view e.encode_queue i ≡ some (handed i)
    pub own :
        (j : ℕ)
        → (view e.encode_queue j ≡ none) ⊎ ((view e.encode_queue j ≡ some (handed j)) × (j < drawn))
    pub valid : IsValid e.encode_queue
    pub behind : e.frame_index ≤ drawn
    pub scene : e.to_scene ≡ handed_below e.frame_index
    pub depth : e.to_depth ≡ handed_below e.frame_index

  -- A request of the eye is drawn.
  pub draw-Flows :
      (drawn : ℕ) (queue : List (RenderedFrame F)) (pending : List (FrameRequest F)) (e : Eye F)
      (r : FrameRequest F)
      → suc drawn < 2 ^ 64
      → r.is_left ≡ side
      → r.index ≡ drawn
      → Flows drawn queue pending e
      → Flows (suc drawn) queue (r ∷ pending) e
  draw-Flows drawn queue pending e r small eye index v =
      let behind = v.behind in
      record {
        done = v.done;
        waiting = v.waiting;
        queued = v.queued;
        covers = λ i h.
            drawn_more side (v.done ++ v.waiting) pending r drawn eye index v.covers i
              (omega arith);
        known = λ i h. elim h [
          | inl a ↦ omega (arith, v.known i (inl a))
          | inr (inl (_, this)) ↦ omega (arith, this, index)
          | inr (inr b) ↦ omega (arith, v.known i (inr b))
        ];
        kept = v.kept;
        own =
            λ j. elim (v.own j) [ inl e ↦ inl e | inr (e, small) ↦ inr (e, omega (arith, small)) ];
        valid = v.valid;
        behind = omega arith;
        scene = v.scene;
        depth = v.depth;
      }

  -- A request of the other eye is drawn.
  pub draw_other-Flows :
      (drawn : ℕ) (queue : List (RenderedFrame F)) (pending : List (FrameRequest F)) (e : Eye F)
      (r : FrameRequest F)
      → ¬ (side ≡ r.is_left)
      → Flows drawn queue pending e
      → Flows drawn queue (r ∷ pending) e
  draw_other-Flows drawn queue pending e r other v = record {
    done = v.done;
    waiting = v.waiting;
    queued = v.queued;
    covers = λ i h. grows side i (v.done ++ v.waiting) pending r (v.covers i h);
    known = λ i h. elim h [
      | inl a ↦ v.known i (inl a)
      | inr (inl (same, _)) ↦ absurd (other same)
      | inr (inr b) ↦ v.known i (inr b)
    ];
    kept = v.kept;
    own = v.own;
    valid = v.valid;
    behind = v.behind;
    scene = v.scene;
    depth = v.depth;
  }

  -- A request of the eye is answered, and its frame goes to the end of the queue.
  pub answer-Flows :
      (drawn : ℕ) (queue : List (RenderedFrame F)) (before after : List (FrameRequest F))
      (r : FrameRequest F) (e : Eye F)
      → r.is_left ≡ side
      → Flows drawn queue (before ++ r ∷ after) e
      → Flows drawn (queue ++ g r.index ∷ []) (before ++ after) e
  answer-Flows drawn queue before after r e eye v = record {
    done = v.done;
    waiting = v.waiting ++ r.index ∷ [];
    queued = ap (λ q. q ++ g r.index ∷ []) v.queued ∙ sym (map-append g v.waiting (r.index ∷ []));
    covers = λ i h.
        subst (λ is. InList i is ⊎ IsAsked side i (before ++ after))
          (append_assoc v.done v.waiting (r.index ∷ []))
          (moved side i (v.done ++ v.waiting) before after r (v.covers i h));
    known = λ i h. elim h [
      | inr b ↦ v.known i (inr (IsAsked-with side i before after r b))
      | inl a ↦ elim (InList-split i v.waiting (r.index ∷ []) a) [
        | inl a ↦ v.known i (inl a)
        | inr (inl this) ↦ v.known i (
            inr (
              subst (λ k. IsAsked side k (before ++ r ∷ after)) (sym this)
                (subst (λ b. IsAsked b r.index (before ++ r ∷ after)) eye
                  (IsAsked-self before after r))))
        | inr (inr none_left) ↦ elim none_left [ ]
      ]
    ];
    kept = v.kept;
    own = v.own;
    valid = v.valid;
    behind = v.behind;
    scene = v.scene;
    depth = v.depth;
  }

  pub answer_other-Flows :
      (drawn : ℕ) (queue : List (RenderedFrame F)) (before after : List (FrameRequest F))
      (r : FrameRequest F) (e : Eye F)
      → ¬ (side ≡ r.is_left)
      → Flows drawn queue (before ++ r ∷ after) e
      → Flows drawn queue (before ++ after) e
  answer_other-Flows drawn queue before after r e other v = record {
    done = v.done;
    waiting = v.waiting;
    queued = v.queued;
    covers = λ i h. unmoved side i (v.done ++ v.waiting) before after r other (v.covers i h);
    known = λ i h. elim h [
      | inl a ↦ v.known i (inl a)
      | inr b ↦ v.known i (inr (IsAsked-with side i before after r b))
    ];
    kept = v.kept;
    own = v.own;
    valid = v.valid;
    behind = v.behind;
    scene = v.scene;
    depth = v.depth;
  }
