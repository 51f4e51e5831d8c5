-- ===== src/Client/Session/Queues.antt =====
-- What the two queues hold once a renderer has answered the first requests of a single thread, which
-- are for the right and for the left eye in turn.
use ngp_encode_server.Base.{
  ℕ, zero, suc, ◌+◌, ◌%◌, ◌^◌, ◌≤◌, ◌<◌, ◌≡◌, refl, sym, subst, ap, ◌∙◌, List, [], ◌∷◌, ◌++◌, map,
  Bool, true, false, if◌then◌else◌, arith, length, length-append,
}
use ngp_encode_server.Camera.{CameraManager}
use ngp_encode_server.Codec.{CodecInitInfo}
use ngp_encode_server.FrameQueue.{FrameQueue, push, max_size}
use ngp_encode_server.FrameQueue.Fifo.{push_room}
use ngp_encode_server.RenderedFrame.{Response, RenderedFrame, construct}
use ngp_encode_server.Requests.{fetch_side, fetch_index}
use ngp_encode_server.Client.{Shared, FrameRequest, draw_request, queue_frame}
use ngp_encode_server.Client.Session.{frame_for, serve_one, serve}

-- 0 to n - 1.
abbrev pub upto : ℕ → List ℕ
upto zero = []
upto (suc n) = upto n ++ n ∷ []

pub length-upto : (n : ℕ) → length (upto n) ≡ n
length-upto zero = refl
length-upto (suc n) = length-append (upto n) (n ∷ []) ∙ omega (arith, length-upto n)

abbrev pub double : ℕ → ℕ
double zero = zero
double (suc n) = suc (suc (double n))

pub map-append {ℓ} :
    {A : Type ℓ} (f : ℕ → A) (xs ys : List ℕ) → map f (xs ++ ys) ≡ map f xs ++ map f ys
map-append f [] ys = refl
map-append f (x ∷ xs) ys = ap (◌∷◌ (f x)) (map-append f xs ys)

pub length-map {ℓ} : {A : Type ℓ} (f : ℕ → A) (xs : List ℕ) → length (map f xs) ≡ length xs
length-map f [] = refl
length-map f (x ∷ xs) = ap suc (length-map f xs)

module _ {ℓ} {F : Type ℓ} (respond : FrameRequest F → Response F) (scene depth : CodecInitInfo)
    (cameras : CameraManager F)
    (own_side : (r : FrameRequest F) → (respond r).is_left ≡ r.is_left) where
  -- The request of an eye with an index.
  abbrev pub request : Bool → ℕ → FrameRequest F
  request side i = record {
    index = i;
    camera = if side then cameras.left.camera else cameras.right.camera;
    is_left = side;
  }

  abbrev pub frame_of_eye : Bool → ℕ → RenderedFrame F
  frame_of_eye side i = frame_for respond scene depth (request side i)

  -- The next request is for the left eye if `turn` is 1, and so many are answered of each eye.
  pub record HasServed (turn left right : ℕ) (s : Shared F) : Type ℓ where
    pub counted :
        s.counters ≡ record { is_left = turn; frame_index_left = left; frame_index_right = right }
    pub still : s.cameras ≡ cameras
    pub left_queued : s.queue_left.queue ≡ map (frame_of_eye true) (upto left)
    pub right_queued : s.queue_right.queue ≡ map (frame_of_eye false) (upto right)

  queue_one :
      (side : Bool) (n : ℕ) (q : FrameQueue (RenderedFrame F))
      → q.queue ≡ map (frame_of_eye side) (upto n)
      → n < max_size
      → (push (frame_of_eye side n) q).0.queue ≡ map (frame_of_eye side) (upto (suc n))
  queue_one side n q e small =
      let count = ap length e ∙ length-map (frame_of_eye side) (upto n) ∙ length-upto n in
      push_room (frame_of_eye side n) q (omega (arith, count))
      ∙ ap (λ xs. xs ++ frame_of_eye side n ∷ []) e
      ∙ sym (map-append (frame_of_eye side) (upto n) (n ∷ []))

  -- What a request leaves, for the side that is next.
  abbrev drawn_of : Bool → ℕ → Shared F → Shared F
  drawn_of true n s = record s {
    counters = record { is_left = 0; frame_index_left = suc n; frame_index_right = suc n };
    cameras = cameras;
  }
  drawn_of false n s = record s {
    counters = record { is_left = 1; frame_index_left = n; frame_index_right = suc n };
    cameras = cameras;
  }

  draw_right :
      (n : ℕ) (s : Shared F)
      → n < max_size
      → HasServed 0 n n s
      → draw_request s ≡ (request false n, drawn_of false n s)
  unfolding draw_request fetch_side fetch_index
  draw_right n s small v =
      let wraps : (n + 1) % 2 ^ 64 ≡ suc n = omega arith in rw (v.counted, v.still, wraps) refl

  draw_left :
      (n : ℕ) (s : Shared F)
      → n < max_size
      → HasServed 1 n (suc n) s
      → draw_request s ≡ (request true n, drawn_of true n s)
  unfolding draw_request fetch_side fetch_index
  draw_left n s small v =
      let wraps : (n + 1) % 2 ^ 64 ≡ suc n = omega arith in rw (v.counted, v.still, wraps) refl

  pub queue_right_lem :
      (n : ℕ) (s : Shared F)
      → queue_frame (frame_of_eye false n) s
        ≡ record s { queue_right = (push (frame_of_eye false n) s.queue_right).0 }
  unfolding queue_frame construct
  queue_right_lem n s =
      ap
        (λ b.
          if b
          then (record s { queue_left = (push (frame_of_eye false n) s.queue_left).0 })
          else (record s { queue_right = (push (frame_of_eye false n) s.queue_right).0 }))
        (own_side (request false n))

  pub queue_left_lem :
      (n : ℕ) (s : Shared F)
      → queue_frame (frame_of_eye true n) s
        ≡ record s { queue_left = (push (frame_of_eye true n) s.queue_left).0 }
  unfolding queue_frame construct
  queue_left_lem n s =
      ap
        (λ b.
          if b
          then (record s { queue_left = (push (frame_of_eye true n) s.queue_left).0 })
          else (record s { queue_right = (push (frame_of_eye true n) s.queue_right).0 }))
        (own_side (request true n))

  serve_right :
      (n : ℕ) (s : Shared F)
      → n < max_size
      → HasServed 0 n n s
      → HasServed 1 n (suc n) (serve_one respond scene depth s)
  serve_right n s small v =
      let served =
        ap (λ d. queue_frame (frame_for respond scene depth d.0) d.1) (draw_right n s small v)
        ∙ queue_right_lem n (drawn_of false n s) in
      subst (HasServed 1 n (suc n)) (sym served) (record {
        counted = refl;
        still = refl;
        left_queued = v.left_queued;
        right_queued = queue_one false n s.queue_right v.right_queued small;
      })

  serve_left :
      (n : ℕ) (s : Shared F)
      → n < max_size
      → HasServed 1 n (suc n) s
      → HasServed 0 (suc n) (suc n) (serve_one respond scene depth s)
  serve_left n s small v =
      let served =
        ap (λ d. queue_frame (frame_for respond scene depth d.0) d.1) (draw_left n s small v)
        ∙ queue_left_lem n (drawn_of true n s) in
      subst (HasServed 0 (suc n) (suc n)) (sym served) (record {
        counted = refl;
        still = refl;
        left_queued = queue_one true n s.queue_left v.left_queued small;
        right_queued = v.right_queued;
      })

  -- Answering the requests of both eyes in turn.
  pub serve-HasServed :
      (m n : ℕ) (s : Shared F)
      → n + m ≤ max_size
      → HasServed 0 n n s
      → HasServed 0 (n + m) (n + m) (serve respond scene depth (double m) s)
  unfolding serve
  serve-HasServed zero n s small v = subst (λ k. HasServed 0 k k s) (omega arith) v
  serve-HasServed (suc m) n s small v =
      let half = serve_right n s (omega arith) v in
      let whole = serve_left n (serve_one respond scene depth s) (omega arith) half in
      subst (λ k. HasServed 0 k k (serve respond scene depth (double (suc m)) s)) (omega arith)
        (serve-HasServed m (suc n) _ (omega arith) whole)
