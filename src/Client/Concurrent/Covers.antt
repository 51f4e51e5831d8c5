-- ===== src/Client/Concurrent/Covers.antt =====
-- Every such run keeps the queues covered.
use ngp_encode_server.Base.{
  ℕ, suc, ◌≤◌, ◌≡◌, sym, subst, ap, ◌∙◌, List, ◌∷◌, ◌++◌, Bool, if◌then◌else◌, arith,
}
use ngp_encode_server.Camera.{CameraManager}
use ngp_encode_server.Codec.{CodecInitInfo}
use ngp_encode_server.FrameQueue.{max_size}
use ngp_encode_server.RenderedFrame.{Response}
use ngp_encode_server.Requests.{fetch_index}
use ngp_encode_server.Client.{FrameRequest}
use ngp_encode_server.Client.Concurrent.{
  Serving, take_side, take_index, take_answer, Reach, stays, takes_side, takes_index, takes_answer,
}
use ngp_encode_server.Client.Concurrent.Covered.{
  AreOwn, AreOwn-without, IsCovered, IsRunning, side-IsCovered, index-IsCovered,
}
use ngp_encode_server.Client.Concurrent.Answers.{answer_keeps, answer-IsCovered}

module _ {ℓ} {F : Type ℓ} (respond : FrameRequest F → Response F) (scene depth : CodecInitInfo)
    (cameras : CameraManager F)
    (own_side : (r : FrameRequest F) → (respond r).is_left ≡ r.is_left) where
  answer-IsRunning :
      (r : FrameRequest F) (n : ℕ) (before behind : List (FrameRequest F)) (t : Serving F)
      → t.pending ≡ before ++ r ∷ behind
      → n ≤ max_size
      → IsRunning respond scene depth cameras own_side n t
      → IsRunning respond scene depth cameras own_side n
          (take_answer respond scene depth r (before ++ behind) t)
  unfolding take_answer
  answer-IsRunning r n before behind t e small v =
      let (own, others) =
        AreOwn-without respond scene depth cameras own_side before behind r
          (subst (AreOwn respond scene depth cameras own_side) e v.own) in
      let (_, cameras_kept) =
        answer_keeps respond scene depth cameras own_side r (before ++ behind) t in
      record {
        still = cameras_kept ∙ v.still;
        own = others;
        covered = λ side.
            subst
              (λ q.
                IsCovered respond scene depth cameras own_side side n
                  (take_answer respond scene depth q (before ++ behind) t))
              (sym own)
              (answer-IsCovered respond scene depth cameras own_side r.is_left side r.index n before
                behind t (e ∙ ap (λ q. before ++ q ∷ behind) own) small (v.covered side));
      }

  index-IsRunning :
      (side : Bool) (others : List Bool) (n : ℕ) (t : Serving F)
      → IsRunning respond scene depth cameras own_side n t
      → IsRunning respond scene depth cameras own_side (suc n) (take_index side others t)
  unfolding take_index fetch_index
  index-IsRunning side others n t v = record {
    still = v.still;
    own = (ap (λ c. requested side (fetch_index side t.shared.counters).0 c) v.still, v.own);
    covered = λ eye.
        index-IsCovered respond scene depth cameras own_side side eye others n t (v.covered eye);
  }
    where
      requested : Bool → ℕ → CameraManager F → FrameRequest F
      requested is_left i c = record {
        index = i;
        camera = if is_left then c.left.camera else c.right.camera;
        is_left = is_left;
      }

  side-IsRunning :
      (n : ℕ) (t : Serving F)
      → IsRunning respond scene depth cameras own_side n t
      → IsRunning respond scene depth cameras own_side n (take_side t)
  unfolding take_side
  side-IsRunning n t v = record {
    still = v.still;
    own = v.own;
    covered = λ side. side-IsCovered respond scene depth cameras own_side side n t (v.covered side);
  }

  -- Whatever the order in which the threads go on.
  pub reach-IsRunning :
      {s t : Serving F} {n : ℕ}
      → Reach respond scene depth s n t
      → n ≤ max_size
      → IsRunning respond scene depth cameras own_side 0 s
      → IsRunning respond scene depth cameras own_side n t
  reach-IsRunning stays small v = v
  reach-IsRunning (takes_side r) small v = side-IsRunning _ _ (reach-IsRunning r small v)
  reach-IsRunning (takes_index side before behind r _) small v =
      index-IsRunning side (before ++ behind) _ _ (reach-IsRunning r (omega arith) v)
  reach-IsRunning (takes_answer q before behind r e) small v =
      answer-IsRunning q _ before behind _ e small (reach-IsRunning r small v)
