-- ===== src/Main/Running/Invariant.antt =====
-- The invariant of the running threads, and that the rounds of an eye's threads keep it.
use ngp_encode_server.Base.{
  ℕ, ◌^◌, ◌≤◌, ◌<◌, ◌≡◌, refl, sym, subst, List, ◌∷◌, Bool, true, false, some,
}
use ngp_encode_server.Camera.{CameraManager}
use ngp_encode_server.Codec.{CodecInitInfo}
use ngp_encode_server.Client.{FrameRequest}
use ngp_encode_server.Client.Concurrent.Covered.{counter, queue_of, AreOwn}
use ngp_encode_server.Encode.{Eye, Processing, Sending, process_round, send_round}
use ngp_encode_server.Encode.Overlay.{Texts}
use ngp_encode_server.FrameMap.View.{view, has_room}
use ngp_encode_server.RenderedFrame.{Response, RenderedFrame, construct}
use ngp_encode_server.Main.Running.{Running, eye, put_eye}
use ngp_encode_server.Main.Running.Flow.{Flows}
use ngp_encode_server.Main.Running.Rounds.{process-Flows, send-Flows, Moves}
use ngp_encode_server.Main.Running.Flowing.{EyeFlows, frame_of, request_of}

-- What an eye has besides the queue.
abbrev pub part {ℓ} : {F : Type ℓ} → Bool → Running F → Eye F
part true s = s.left
part false s = s.right

module _ {ℓ} {F : Type ℓ} (respond : FrameRequest F → Response F) (scene depth : CodecInitInfo)
    (cameras : CameraManager F) (own_index : (r : FrameRequest F) → (respond r).index ≡ r.index)
    (own_side : (r : FrameRequest F) → (respond r).is_left ≡ r.is_left)
    (stamp : Bool → ℕ → Texts F) where
  pub record IsFlowing (n : ℕ) (s : Running F) : Type ℓ where
    pub drawn : (side : Bool) → counter side s.clients.shared.counters ≤ n
    pub still : s.clients.shared.cameras ≡ cameras
    pub own : AreOwn respond scene depth cameras own_side s.clients.pending
    pub flows :
        (side : Bool)
        → EyeFlows respond scene depth cameras own_side stamp side s.clients (part side s)

  abbrev pub Flow : Bool → Running F → Type ℓ
  Flow side s = EyeFlows respond scene depth cameras own_side stamp side s.clients (part side s)

  -- A round of a thread of an eye that keeps its frames on their way leaves the other eye alone.
  put-Flow :
      (side other : Bool) (queue : List (RenderedFrame F)) (e : Eye F) (s : Running F)
      → e.frame_queue.queue ≡ queue
      → Flows side
          (frame_of respond scene depth cameras own_side stamp side)
          (stamp side)
          (counter side s.clients.shared.counters)
          queue
          s.clients.pending
          e
      → Flow other s
      → Flow other (put_eye side e s)
  put-Flow true true queue e s queued w v =
      subst
        (λ q.
          Flows true (frame_of respond scene depth cameras own_side stamp true) (stamp true)
            (counter true s.clients.shared.counters) q s.clients.pending e)
        (sym queued) w
  put-Flow false false queue e s queued w v =
      subst
        (λ q.
          Flows false (frame_of respond scene depth cameras own_side stamp false) (stamp false)
            (counter false s.clients.shared.counters) q s.clients.pending e)
        (sym queued) w
  put-Flow true false queue e s queued w v = v
  put-Flow false true queue e s queued w v = v

  pub put-IsFlowing :
      (n : ℕ) (side : Bool) (queue : List (RenderedFrame F)) (e : Eye F) (s : Running F)
      → e.frame_queue.queue ≡ queue
      → Flows side
          (frame_of respond scene depth cameras own_side stamp side)
          (stamp side)
          (counter side s.clients.shared.counters)
          queue
          s.clients.pending
          e
      → IsFlowing n s
      → IsFlowing n (put_eye side e s)
  put-IsFlowing n true queue e s queued w v = record {
    drawn = v.drawn;
    still = v.still;
    own = v.own;
    flows = λ other. put-Flow true other queue e s queued w (v.flows other);
  }
  put-IsFlowing n false queue e s queued w v = record {
    drawn = v.drawn;
    still = v.still;
    own = v.own;
    flows = λ other. put-Flow false other queue e s queued w (v.flows other);
  }

  pub process-Moves :
      (side : Bool) (p : Processing) (f : RenderedFrame F) (rest : List (RenderedFrame F))
      (s : Running F)
      → (eye side s).frame_queue.queue ≡ f ∷ rest
      → has_room (eye side s).encode_queue ≡ true
      → p.scene_ok ≡ true
      → p.depth_ok ≡ true
      → Flow side s
      → Moves side
          (frame_of respond scene depth cameras own_side stamp side)
          (stamp side)
          (counter side s.clients.shared.counters)
          rest
          s.clients.pending
          (process_round (stamp side f.frame_response.index) p (eye side s))
  unfolding construct
  process-Moves true p f rest s front room scene_ok depth_ok v =
      process-Flows true (frame_of respond scene depth cameras own_side stamp true) (stamp true)
        (λ i. own_index (request_of respond scene depth cameras own_side stamp true i)) (λ i. refl)
        s.clients.shared.counters.frame_index_left s.clients.pending p f
        s.clients.shared.queue_left.queue rest s.left v front room scene_ok depth_ok
  process-Moves false p f rest s front room scene_ok depth_ok v =
      process-Flows false (frame_of respond scene depth cameras own_side stamp false) (stamp false)
        (λ i. own_index (request_of respond scene depth cameras own_side stamp false i)) (λ i. refl)
        s.clients.shared.counters.frame_index_right s.clients.pending p f
        s.clients.shared.queue_right.queue rest s.right v front room scene_ok depth_ok

  pub send-Moves :
      (side : Bool) (a : Sending) (f : RenderedFrame F) (s : Running F)
      → view (eye side s).encode_queue (eye side s).frame_index ≡ some f
      → a.scene_wraps ≡ true
      → a.depth_wraps ≡ true
      → counter side s.clients.shared.counters < 2 ^ 64
      → Flow side s
      → Moves side
          (frame_of respond scene depth cameras own_side stamp side)
          (stamp side)
          (counter side s.clients.shared.counters)
          (queue_of side s.clients.shared)
          s.clients.pending
          (send_round a (eye side s))
  send-Moves true a f s there wraps wraps' small v =
      send-Flows true (frame_of respond scene depth cameras own_side stamp true) (stamp true)
        s.clients.shared.counters.frame_index_left s.clients.shared.queue_left.queue
        s.clients.pending a f s.left v small there wraps wraps'
  send-Moves false a f s there wraps wraps' small v =
      send-Flows false (frame_of respond scene depth cameras own_side stamp false) (stamp false)
        s.clients.shared.counters.frame_index_right s.clients.shared.queue_right.queue
        s.clients.pending a f s.right v small there wraps wraps'
