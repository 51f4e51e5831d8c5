-- ===== src/Main/Running/Reached.antt =====
-- What holds at any time while the threads run.
use ngp_encode_server.Base.{
  ℕ, suc, ◌^◌, ◌≤◌, ◌<◌, ◌≡◌, sym, subst, ap, ◌∙◌, List, ◌∷◌, ◌++◌, Bool, true, false,
  if◌then◌else◌, arith, length,
}
use ngp_encode_server.Camera.{CameraManager}
use ngp_encode_server.Codec.{CodecInitInfo}
use ngp_encode_server.Client.{FrameRequest}
use ngp_encode_server.Client.Concurrent.{Serving, take_side, take_index, take_answer}
use ngp_encode_server.Client.Concurrent.Covered.{
  counter, counter-fetch_index, counter-fetch_side, queue_of, AreOwn, AreOwn-without,
}
use ngp_encode_server.Client.Concurrent.Answers.{answer_keeps}
use ngp_encode_server.Encode.Overlay.{Texts}
use ngp_encode_server.FrameQueue.{max_size}
use ngp_encode_server.RenderedFrame.{Response}
use ngp_encode_server.Requests.{fetch_index}
use ngp_encode_server.Main.Running.{
  Running, Reach, stays, takes_side, takes_index, takes_answer, processes, sends,
}
use ngp_encode_server.Main.Running.Flowing.{
  EyeFlows, side-EyeFlows, index-EyeFlows, answer-EyeFlows,
}
use ngp_encode_server.Main.Running.Invariant.{
  part, IsFlowing, Flow, put-IsFlowing, process-Moves, send-Moves,
}

module _ {ℓ} {F : Type ℓ} (respond : FrameRequest F → Response F) (scene depth : CodecInitInfo)
    (cameras : CameraManager F) (own_index : (r : FrameRequest F) → (respond r).index ≡ r.index)
    (own_side : (r : FrameRequest F) → (respond r).is_left ≡ r.is_left)
    (stamp : Bool → ℕ → Texts F) where
  clients-Flow :
      (side : Bool) (t : Serving F) (s : Running F)
      → EyeFlows respond scene depth cameras own_side stamp side t (part side s)
      → Flow respond scene depth cameras own_index own_side stamp side (record s { clients = t })
  clients-Flow true t s v = v
  clients-Flow false t s v = v

  side-IsFlowing :
      (n : ℕ) (s : Running F)
      → IsFlowing respond scene depth cameras own_index own_side stamp n s
      → IsFlowing respond scene depth cameras own_index own_side stamp n
          (record s { clients = take_side s.clients })
  unfolding take_side
  side-IsFlowing n s v = record {
    drawn = λ side.
        subst (λ c. c ≤ n) (sym (counter-fetch_side side s.clients.shared.counters)) (v.drawn side);
    still = v.still;
    own = v.own;
    flows = λ side. clients-Flow side (take_side s.clients) s (
        side-EyeFlows respond scene depth cameras own_side stamp side s.clients (part side s)
          (v.flows side));
  }

  index-IsFlowing :
      (n : ℕ) (side : Bool) (others : List Bool) (s : Running F)
      → suc n < 2 ^ 64
      → IsFlowing respond scene depth cameras own_index own_side stamp n s
      → IsFlowing respond scene depth cameras own_index own_side stamp
          (suc n)
          (record s { clients = take_index side others s.clients })
  unfolding take_index
  index-IsFlowing n side others s small v =
      let c = s.clients.shared.counters in
      record {
        drawn = λ other. omega (
          arith,
          v.drawn other,
          counter-fetch_index respond scene depth cameras own_side side other c,
        );
        still = v.still;
        own = (ap (λ m. requested side (fetch_index side c).0 m) v.still, v.own);
        flows = λ other. clients-Flow other (take_index side others s.clients) s (
            index-EyeFlows respond scene depth cameras own_side stamp side other others s.clients
              (part other s) (omega (arith, v.drawn side)) (v.flows other));
      }
    where
      requested : Bool → ℕ → CameraManager F → FrameRequest F
      requested is_left i m = record {
        index = i;
        camera = if is_left then m.left.camera else m.right.camera;
        is_left = is_left;
      }

  answer-IsFlowing :
      (n : ℕ) (r : FrameRequest F) (before behind : List (FrameRequest F)) (s : Running F)
      → s.clients.pending ≡ before ++ r ∷ behind
      → length (queue_of (respond r).is_left s.clients.shared) < max_size
      → IsFlowing respond scene depth cameras own_index own_side stamp n s
      → IsFlowing respond scene depth cameras own_index own_side stamp n
          (record s { clients = take_answer respond scene depth r (before ++ behind) s.clients })
  unfolding take_answer
  answer-IsFlowing n r before behind s asked room v =
      let (this, others) =
        AreOwn-without respond scene depth cameras own_side before behind r
          (subst (AreOwn respond scene depth cameras own_side) asked v.own) in
      let (counted, cameras_kept) =
        answer_keeps respond scene depth cameras own_side r (before ++ behind) s.clients in
      record {
        drawn = λ side. subst (λ c. counter side c ≤ n) (sym counted) (v.drawn side);
        still = cameras_kept ∙ v.still;
        own = others;
        flows = λ side.
            clients-Flow side (take_answer respond scene depth r (before ++ behind) s.clients) s (
              subst
                (λ q.
                  EyeFlows respond scene depth cameras own_side stamp side
                    (take_answer respond scene depth q (before ++ behind) s.clients) (part side s))
                (sym this)
                (answer-EyeFlows respond scene depth cameras own_side stamp r.is_left side r.index
                  before behind s.clients (part side s)
                  (asked ∙ ap (λ q. before ++ q ∷ behind) this)
                  (subst (λ b. length (queue_of b s.clients.shared) < max_size) (own_side r) room)
                  (v.flows side)));
      }

  -- Whatever the order in which the threads go on.
  pub reach-IsFlowing :
      {s t : Running F} {n : ℕ}
      → Reach respond scene depth stamp s n t
      → n < 2 ^ 64
      → IsFlowing respond scene depth cameras own_index own_side stamp 0 s
      → IsFlowing respond scene depth cameras own_index own_side stamp n t
  reach-IsFlowing stays small v = v
  reach-IsFlowing (takes_side r) small v = side-IsFlowing _ _ (reach-IsFlowing r small v)
  reach-IsFlowing (takes_index side before behind r _) small v =
      index-IsFlowing _ side (before ++ behind) _ small (reach-IsFlowing r (omega arith) v)
  reach-IsFlowing (takes_answer q before behind r asked room) small v =
      answer-IsFlowing _ q before behind _ asked room (reach-IsFlowing r small v)
  reach-IsFlowing (processes side p f rest r front room scene_ok depth_ok) small v =
      let w = reach-IsFlowing r small v in
      let (_, queued, flows) =
        process-Moves respond scene depth cameras own_index own_side stamp side p f rest _ front
          room scene_ok depth_ok (w.flows side) in
      put-IsFlowing respond scene depth cameras own_index own_side stamp _ side rest _ _ queued
        flows w
  reach-IsFlowing (sends side a f r there wraps wraps') small v =
      let w = reach-IsFlowing r small v in
      let (_, queued, flows) =
        send-Moves respond scene depth cameras own_index own_side stamp side a f _ there wraps
          wraps' (omega (arith, small, w.drawn side)) (w.flows side) in
      put-IsFlowing respond scene depth cameras own_index own_side stamp _ side _ _ _ queued flows w
