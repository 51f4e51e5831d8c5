-- ===== src/FrameQueue/Fifo.antt =====
-- The queue against a history of calls.
use ngp_encode_server.Base.{
  ◌≡◌, refl, List, [], ◌∷◌, ◌++◌, append_assoc, arith, length, length-append, ◌<◌, lt→ltb,
}
use ngp_encode_server.Base.Exceptions.{Result, ok, throws}
use ngp_encode_server.FrameQueue.{FrameQueue, push, pop, IsBounded, max_size}

pub data Call {ℓ} (A : Type ℓ) : Type ℓ where
  pushes : A → Call A
  pops : Call A

-- The queue, with what the calls so far put in and took out.
pub record Trace {ℓ} (A : Type ℓ) : Type ℓ where
  pub state : FrameQueue A
  pub pushed : List A
  pub popped : List A

module _ {ℓ} {A : Type ℓ} where
  abbrev pub empty : Trace A
  empty = record { state = record { queue = [] }; pushed = []; popped = [] }

  abbrev after_push : A → Trace A → FrameQueue A × Result (Unit {0}) → Trace A
  after_push el t (q, ok _) = record t { state = q; pushed = t.pushed ++ el ∷ [] }
  after_push el t (q, throws _) = record t { state = q }

  abbrev after_pop : Trace A → FrameQueue A × Result A → Trace A
  after_pop t (q, ok item) = record t { state = q; popped = t.popped ++ item ∷ [] }
  after_pop t (q, throws _) = record t { state = q }

  unfoldable pub step : Trace A → Call A → Trace A
  step t (pushes el) = after_push el t (push el t.state)
  step t pops = after_pop t (pop t.state)

  unfoldable pub run : Trace A → List (Call A) → Trace A
  run t [] = t
  run t (c ∷ cs) = run (step t c) cs

  pub record IsFifo (t : Trace A) : Type ℓ where
    pub in_order : t.pushed ≡ t.popped ++ t.state.queue
    pub bounded : IsBounded t.state

  pub pop-front :
      (x : A) (xs : List A) (q : FrameQueue A)
      → q.queue ≡ x ∷ xs
      → pop q ≡ (record { queue = xs }, ok x)
  unfolding pop
  pop-front x xs q front = rw front

  step_push-IsFifo : (t : Trace A) (el : A) → IsFifo t → IsFifo (step t (pushes el))
  unfolding step push
  step_push-IsFifo t el v =
      ground (
        arith,
        length-append t.state.queue (el ∷ []),
        append_assoc t.popped t.state.queue (el ∷ []),
      )

  step_pop-IsFifo :
      (t : Trace A) (xs : List A) → t.state.queue ≡ xs → IsFifo t → IsFifo (step t pops)
  unfolding step pop
  step_pop-IsFifo t [] e v = ground arith
  step_pop-IsFifo t (x ∷ xs) e v = ground (arith, append_assoc t.popped (x ∷ []) xs)

  step-IsFifo : (t : Trace A) (c : Call A) → IsFifo t → IsFifo (step t c)
  step-IsFifo t (pushes el) v = step_push-IsFifo t el v
  step-IsFifo t pops v = step_pop-IsFifo t t.state.queue refl v

  run-IsFifo : (t : Trace A) (cs : List (Call A)) → IsFifo t → IsFifo (run t cs)
  unfolding run
  run-IsFifo t [] v = v
  run-IsFifo t (c ∷ cs) v = run-IsFifo (step t c) cs (step-IsFifo t c v)

  -- After any sequence of calls on a new queue, what was pushed is what was popped, in that order,
  -- followed by what the queue holds, and the queue holds at most `max_size` elements: a call that
  -- times out neither loses nor makes an element.
  pub run-fifo :
      (cs : List (Call A))
      → ((run empty cs).pushed ≡ (run empty cs).popped ++ (run empty cs).state.queue)
        × IsBounded (run empty cs).state
  run-fifo cs =
      let v = run-IsFifo empty cs (record { in_order = refl; bounded = omega arith }) in
      (v.in_order, v.bounded)

-- An empty queue takes an element, and holds it alone.
pub push_empty {ℓ} :
    {A : Type ℓ} (el : A) (q : FrameQueue A) → q.queue ≡ [] → (push el q).0.queue ≡ el ∷ []
unfolding push
push_empty el q e = rw e refl

-- With room, an element goes to the end.
pub push_room {ℓ} :
    {A : Type ℓ} (el : A) (q : FrameQueue A)
    → length q.queue < max_size
    → (push el q).0.queue ≡ q.queue ++ el ∷ []
unfolding push
push_room el q h = rw (lt→ltb (length q.queue) max_size h) refl
