-- ===== src/Main/Running/Begun.antt =====
-- The threads that move frames, before the first step of any.
use ngp_encode_server.Base.{ℕ, ◌≤◌, ◌≡◌, refl, ap, [], Bool, true, false, arith, inl, inr}
use ngp_encode_server.Client.{FrameRequest}
use ngp_encode_server.Client.Concurrent.Covered.{counter, queue_of}
use ngp_encode_server.Client.Session.Queues.{frame_of_eye}
use ngp_encode_server.Encode.Overlay.{Texts}
use ngp_encode_server.FrameMap.View.{empty-view, empty-IsValid}
use ngp_encode_server.RenderedFrame.{Response}
use ngp_encode_server.Main.Startup.{Program}
use ngp_encode_server.Main.Startup.Ready.{IsReady}
use ngp_encode_server.Main.Serving.{shared_of, eye_of}
use ngp_encode_server.Main.Interleaved.{started}
use ngp_encode_server.Main.Running.{Running}
use ngp_encode_server.Main.Running.Flow.{Flows}
use ngp_encode_server.Main.Running.Invariant.{IsFlowing, part}

-- The threads before the first step of any.
abbrev pub begun {ℓ} : {F : Type ℓ} → Program F → Running F
begun p = record {
  clients = started p;
  left = eye_of true p (shared_of p);
  right = eye_of false p (shared_of p);
}

module _ {ℓ} {F : Type ℓ} (respond : FrameRequest F → Response F)
    (own_index : (r : FrameRequest F) → (respond r).index ≡ r.index)
    (own_side : (r : FrameRequest F) → (respond r).is_left ≡ r.is_left)
    (stamp : Bool → ℕ → Texts F) where
  begun_flow :
      (side : Bool) (p : Program F)
      → IsReady p
      → Flows side
          (frame_of_eye respond p.cameras.left.scene.info p.cameras.left.depth.info p.cameras
            own_side side)
          (stamp side)
          (counter side p.counters)
          (queue_of side (shared_of p))
          []
          (part side (begun p))
  begun_flow true p v = record {
    done = [];
    waiting = [];
    queued = v.left_queue_is_empty;
    covers = λ i h. absurd (omega (arith, h, ap (counter true) v.counters_are_zero));
    known = λ i h. elim h [ inl a ↦ elim a [ ] | inr b ↦ elim b [ ] ];
    kept = λ i h ge. elim h [ ];
    own = λ j. inl (empty-view p.frame_map_left j v.left_map_is_empty);
    valid = empty-IsValid p.frame_map_left v.left_map_is_empty;
    behind = omega arith;
    scene = refl;
    depth = refl;
  }
  begun_flow false p v = record {
    done = [];
    waiting = [];
    queued = v.right_queue_is_empty;
    covers = λ i h. absurd (omega (arith, h, ap (counter false) v.counters_are_zero));
    known = λ i h. elim h [ inl a ↦ elim a [ ] | inr b ↦ elim b [ ] ];
    kept = λ i h ge. elim h [ ];
    own = λ j. inl (empty-view p.frame_map_right j v.right_map_is_empty);
    valid = empty-IsValid p.frame_map_right v.right_map_is_empty;
    behind = omega arith;
    scene = refl;
    depth = refl;
  }

  pub begun-IsFlowing :
      (p : Program F)
      → IsReady p
      → IsFlowing respond p.cameras.left.scene.info p.cameras.left.depth.info p.cameras own_index
          own_side stamp 0
          (begun p)
  begun-IsFlowing p v = record { drawn = none_drawn; still = refl; own = tt; flows = flow_of }
    where
      none_drawn : (side : Bool) → counter side p.counters ≤ 0
      none_drawn true = omega (arith, ap (counter true) v.counters_are_zero)
      none_drawn false = omega (arith, ap (counter false) v.counters_are_zero)

      flow_of :
          (side : Bool)
          → Flows side
              (frame_of_eye respond p.cameras.left.scene.info p.cameras.left.depth.info p.cameras
                own_side side)
              (stamp side)
              (counter side p.counters)
              (queue_of side (shared_of p))
              []
              (part side (begun p))
      flow_of side = begun_flow side p v
