-- ===== src/Client/Concurrent/Covered.antt =====
-- What is in the queues, and what is on its way, at any time of such a run; and what drawing a side
-- or an index makes of it.
use ngp_encode_server.Base.{
  ℕ, suc, ◌+◌, ◌≤◌, ◌<◌, ◌≡◌, refl, subst, List, [], ◌∷◌, ◌++◌, map, Bool, true, false, ◌⊎◌, arith,
  length,
}
use ngp_encode_server.Camera.{CameraManager}
use ngp_encode_server.Codec.{CodecInitInfo}
use ngp_encode_server.RenderedFrame.{Response, RenderedFrame}
use ngp_encode_server.Requests.{Counters, fetch_side, fetch_index}
use ngp_encode_server.Client.{Shared, FrameRequest}
use ngp_encode_server.Client.Concurrent.{Serving, take_side, take_index, request_for}
use ngp_encode_server.Client.Session.Queues.{request, frame_of_eye}
use ngp_encode_server.Encode.Pipeline.Reorder.{InList}
use ngp_encode_server.Client.Concurrent.Asked.{IsAsked, grows, drawn_more}

-- The counter of an eye.
abbrev pub counter : Bool → Counters → ℕ
counter true c = c.frame_index_left
counter false c = c.frame_index_right

abbrev pub queue_of {ℓ} : {F : Type ℓ} → Bool → Shared F → List (RenderedFrame F)
queue_of true s = s.queue_left.queue
queue_of false s = s.queue_right.queue

pub counter-fetch_side :
    (side : Bool) (c : Counters) → counter side (fetch_side c).1 ≡ counter side c
unfolding fetch_side
counter-fetch_side true c = refl
counter-fetch_side false c = refl

module _ {ℓ} {F : Type ℓ} (respond : FrameRequest F → Response F) (scene depth : CodecInitInfo)
    (cameras : CameraManager F)
    (own_side : (r : FrameRequest F) → (respond r).is_left ≡ r.is_left) where
  abbrev pub frame_at : Bool → ℕ → RenderedFrame F
  frame_at = frame_of_eye respond scene depth cameras own_side

  abbrev pub request_at : Bool → ℕ → FrameRequest F
  request_at = request respond scene depth cameras own_side

  -- Every request is one of this run.
  abbrev pub AreOwn : List (FrameRequest F) → Type ℓ
  AreOwn [] = Unit {ℓ}
  AreOwn (r ∷ rs) = (r ≡ request_at r.is_left r.index) × AreOwn rs

  -- Taking a request out of the list.
  pub AreOwn-without :
      (before behind : List (FrameRequest F)) (r : FrameRequest F)
      → AreOwn (before ++ r ∷ behind)
      → (r ≡ request_at r.is_left r.index) × AreOwn (before ++ behind)
  AreOwn-without [] behind r h = h
  AreOwn-without (x ∷ before) behind r (own, h) =
      let (is, rest) = AreOwn-without before behind r h in (is, (own, rest))

  -- For an eye: its queue holds the frames of some indices, and each index drawn so far is one of
  -- them or is asked for. No more frames are queued and awaited than requests were drawn.
  pub record IsCovered (side : Bool) (n : ℕ) (t : Serving F) : Type ℓ where
    pub indices : List ℕ
    pub queued : queue_of side t.shared ≡ map (frame_at side) indices
    pub covers :
        (i : ℕ) → i < counter side t.shared.counters → InList i indices ⊎ IsAsked side i t.pending
    pub asked : counter side t.shared.counters ≤ n
    pub few : length indices + length t.pending ≤ n

  pub record IsRunning (n : ℕ) (t : Serving F) : Type ℓ where
    pub still : t.shared.cameras ≡ cameras
    pub own : AreOwn t.pending
    pub covered : (side : Bool) → IsCovered side n t

  pub side-IsCovered :
      (side : Bool) (n : ℕ) (t : Serving F) → IsCovered side n t → IsCovered side n (take_side t)
  unfolding take_side
  side-IsCovered side n t v =
      let same = counter-fetch_side side t.shared.counters in
      record {
        indices = v.indices;
        queued = queued_same side v.queued;
        covers = λ i h. v.covers i (subst (λ k. i < k) same h);
        asked = rw same (v.asked);
        few = v.few;
      }
    where
      queued_same :
          (b : Bool)
          → queue_of b t.shared ≡ map (frame_at b) v.indices
          → queue_of b (take_side t).shared ≡ map (frame_at b) v.indices
      queued_same true e = e
      queued_same false e = e

  covers_more :
      (drawn side : Bool) (is : List ℕ) (t : Serving F) (others : List Bool)
      → ((i : ℕ) → i < counter side t.shared.counters → InList i is ⊎ IsAsked side i t.pending)
      → (i : ℕ) → i < counter side (take_index drawn others t).shared.counters
      → InList i is ⊎ IsAsked side i (take_index drawn others t).pending
  unfolding take_index fetch_index
  covers_more true true is t others old i h =
      drawn_more true is t.pending (request_for true t.shared.counters.frame_index_left t.shared) _
        refl refl old i h
  covers_more false false is t others old i h =
      drawn_more false is t.pending (request_for false t.shared.counters.frame_index_right t.shared)
        _ refl refl old i h
  covers_more true false is t others old i h =
      grows false i is t.pending (request_for true t.shared.counters.frame_index_left t.shared)
        (old i h)
  covers_more false true is t others old i h =
      grows true i is t.pending (request_for false t.shared.counters.frame_index_right t.shared)
        (old i h)

  pub counter-fetch_index :
      (drawn side : Bool) (c : Counters)
      → counter side (fetch_index drawn c).1 ≤ suc (counter side c)
  unfolding fetch_index
  counter-fetch_index true true c = omega arith
  counter-fetch_index false false c = omega arith
  counter-fetch_index true false c = omega arith
  counter-fetch_index false true c = omega arith

  pub index-IsCovered :
      (drawn side : Bool) (others : List Bool) (n : ℕ) (t : Serving F)
      → IsCovered side n t
      → IsCovered side (suc n) (take_index drawn others t)
  unfolding take_index
  index-IsCovered drawn side others n t v =
      let asked = v.asked in
      let few = v.few in
      record {
        indices = v.indices;
        queued = queued_same side v.queued;
        covers = λ i h. covers_more drawn side v.indices t others v.covers i h;
        asked = omega (arith, counter-fetch_index drawn side t.shared.counters);
        few = omega arith;
      }
    where
      queued_same :
          (b : Bool)
          → queue_of b t.shared ≡ map (frame_at b) v.indices
          → queue_of b (take_index drawn others t).shared ≡ map (frame_at b) v.indices
      queued_same true e = e
      queued_same false e = e
