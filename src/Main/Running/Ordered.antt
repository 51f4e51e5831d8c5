-- ===== src/Main/Running/Ordered.antt =====
-- From the command line to the encoders while all threads run, in any order of their steps.
mod Tests
use mathlib.Core.List.{nil≢cons}
use mathlib.Core.Option.{none-ne-some}
use ngp_encode_server.Base.{
  ltb, ltb→lt, ℕ, zero, suc, ◌+◌, ◌^◌, ◌≤◌, ◌<◌, ◌≡◌, refl, sym, ap, subst, ◌∙◌, List, [], ◌∷◌,
  ◌++◌, map, Bool, true, false, some, none, arith, length, ◌⊎◌, inl, inr, Bool-cases,
}
use ngp_encode_server.Camera.{CameraManager}
use ngp_encode_server.Client.{Shared, FrameRequest}
use ngp_encode_server.Client.Concurrent.Asked.{IsAsked}
use ngp_encode_server.Client.Concurrent.Covered.{counter, queue_of}
use ngp_encode_server.Client.Session.Queues.{frame_of_eye}
use ngp_encode_server.Encode.{Eye}
use ngp_encode_server.Encode.Overlay.{Texts}
use ngp_encode_server.Encode.Pipeline.Reorder.{InList}
use ngp_encode_server.FrameMap.View.{view, empty-view, empty-IsValid}
use ngp_encode_server.RenderedFrame.{Response, RenderedFrame}
use ngp_encode_server.Main.Flags.{Parsed}
use ngp_encode_server.Main.Startup.{World, Program, threads, main}
use ngp_encode_server.Main.Startup.Ready.{IsReady, main-IsReady}
use ngp_encode_server.Main.Serving.{shared_of, eye_of}
use ngp_encode_server.Main.Interleaved.{started}
use ngp_encode_server.Main.Running.{Running, Reach}
use ngp_encode_server.Main.Running.Begun.{begun, begun-IsFlowing}
use ngp_encode_server.Main.Running.Flow.{Flows, handed, handed_below, InList-split}
use ngp_encode_server.Main.Running.Reached.{reach-IsFlowing}
use ngp_encode_server.Main.Running.Invariant.{IsFlowing, part}

nil≢somewhere {ℓ} : {A : Type ℓ} (x : A) (before behind : List A) → ¬ ([] ≡ before ++ x ∷ behind)
nil≢somewhere x [] behind e = nil≢cons e
nil≢somewhere x (y ∷ before) behind e = nil≢cons e

-- The frame of an index that is in the list stands somewhere in the queue.
queued_somewhere {ℓ} :
    {A : Type ℓ} (g : ℕ → A) (i : ℕ) (is : List ℕ)
    → InList i is
    → (before behind : List A) × (map g is ≡ before ++ g i ∷ behind)
queued_somewhere g i [] h = elim h [ ]
queued_somewhere g i (k ∷ ks) (inl this) = ([], map g ks, ap (λ j. g j ∷ map g ks) (sym this))
queued_somewhere g i (k ∷ ks) (inr later) =
    let (before, behind, e) = queued_somewhere g i ks later in
    (g k ∷ before, behind, ap (λ xs. g k ∷ xs) e)

module _ {ℓ} {F : Type ℓ} (respond : FrameRequest F → Response F)
    (own_index : (r : FrameRequest F) → (respond r).index ≡ r.index)
    (own_side : (r : FrameRequest F) → (respond r).is_left ≡ r.is_left)
    (stamp : Bool → ℕ → Texts F) where
  -- What the encoders of an eye are handed for the requests below `n`, the last first.
  abbrev pub frames_below : Program F → Bool → ℕ → List (RenderedFrame F)
  frames_below p side =
      handed_below side
        (frame_of_eye respond p.cameras.left.scene.info p.cameras.left.depth.info p.cameras own_side
          side)
        (stamp side)

  module _ (parsed : Parsed) (w : World F) (p : Program F) (n : ℕ) (s : Running F) (side : Bool)
      (start : main parsed w ≡ threads p)
      (reach : Reach respond p.cameras.left.scene.info p.cameras.left.depth.info stamp
        (begun p)
        n
        s)
      (few : n < 2 ^ 64) where
    flow :
        Flows side
          (frame_of_eye respond p.cameras.left.scene.info p.cameras.left.depth.info p.cameras
            own_side side)
          (stamp side)
          (counter side s.clients.shared.counters)
          (queue_of side s.clients.shared)
          s.clients.pending
          (part side s)
    flow =
        (reach-IsFlowing respond p.cameras.left.scene.info p.cameras.left.depth.info p.cameras
            own_index own_side stamp reach few
            (begun-IsFlowing respond own_index own_side stamp p
              (main-IsReady parsed w p start))).flows
          side

    -- Once main has started its threads, let any number of client threads, whose renderers answer each
    -- request with a frame of the index and the eye that was asked for, and the two threads of each eye
    -- take their steps in any order, while no client moves the cameras, no wait times out, libswscale
    -- converts the images and their AVFrames can be made. Until 2 ^ 64 requests are drawn, both encoders
    -- of an eye have been handed at any time exactly the frames of the requests below the index that its
    -- sender waits for, with their texts and converted, each once, in the order of the requests; and
    -- those requests were drawn.
    pub running_in_order :
        let e = part side s in
        (e.to_scene ≡ frames_below p side e.frame_index)
        × (e.to_depth ≡ frames_below p side e.frame_index)
        × (e.frame_index ≤ counter side s.clients.shared.counters)
    running_in_order = (flow.scene, flow.depth, flow.behind)

    -- Once main has started its threads, let any number of client threads, whose renderers answer each
    -- request with a frame of the index and the eye that was asked for, and the two threads of each eye
    -- take their steps in any order, while no client moves the cameras, no wait times out, libswscale
    -- converts the images and their AVFrames can be made. Until 2 ^ 64 requests are drawn no frame is
    -- lost: at any time each request of an eye that was drawn, from the index on that its sender waits
    -- for, is not answered yet, or its frame is in the queue of the eye, or it is in its map, under its
    -- index, with its texts and converted.
    pub no_frame_lost :
        (i : ℕ)
        → (part side s).frame_index ≤ i
        → i < counter side s.clients.shared.counters
        → let g =
            frame_of_eye respond p.cameras.left.scene.info p.cameras.left.depth.info p.cameras
              own_side side in
          IsAsked side i s.clients.pending
          ⊎ ((before behind : List (RenderedFrame F)) × (queue_of side s.clients.shared
                ≡ before ++ g i ∷ behind))
          ⊎ (view (part side s).encode_queue i ≡ some (handed side g (stamp side) i))
    no_frame_lost i ge lt =
        let g =
          frame_of_eye respond p.cameras.left.scene.info p.cameras.left.depth.info p.cameras
            own_side side in
        elim (flow.covers i lt) [
          | inr asked ↦ inl asked
          | inl somewhere ↦ elim (InList-split i flow.done flow.waiting somewhere) [
            | inl processed ↦ inr (inr (flow.kept i processed ge))
            | inr waits ↦
                let (before, behind, e) = queued_somewhere g i flow.waiting waits in
                inr (inl (before, behind, flow.queued ∙ e))
          ]
        ]

    -- Once main has started its threads, let any number of client threads, whose renderers answer each
    -- request with a frame of the index and the eye that was asked for, and the two threads of each eye
    -- take their steps in any order, while no client moves the cameras, no wait times out, libswscale
    -- converts the images and their AVFrames can be made. When fewer than 2 ^ 64 requests are drawn and
    -- an eye has come to rest, with every request of it answered, its queue empty and no frame in its
    -- map under the index that its sender waits for, both of its encoders have been handed the frames
    -- of all requests that were drawn for it, with their texts and converted, in the order of the
    -- requests.
    pub all_frames_handed :
        ((i : ℕ) → ¬ IsAsked side i s.clients.pending)
        → queue_of side s.clients.shared ≡ []
        → view (part side s).encode_queue (part side s).frame_index ≡ none
        → let e = part side s in
          let drawn = counter side s.clients.shared.counters in
          (e.to_scene ≡ frames_below p side drawn) × (e.to_depth ≡ frames_below p side drawn)
    all_frames_handed answered no_queue no_map =
        let e = part side s in
        let drawn = counter side s.clients.shared.counters in
        let none_left : e.frame_index < drawn → ⊥ = λ lt.
          elim (no_frame_lost e.frame_index (omega arith) lt) [
            | inl asked ↦ answered e.frame_index asked
            | inr (inl (before, behind, queued)) ↦
                nil≢somewhere _ before behind (sym no_queue ∙ queued)
            | inr (inr there) ↦ none-ne-some _ (sym no_map ∙ there)
          ] in
        let all : e.frame_index ≡ drawn = elim (Bool-cases (ltb e.frame_index drawn)) [
          | inl lt ↦ absurd (none_left (ltb→lt e.frame_index drawn lt))
          | inr ge ↦
              let reached : drawn ≤ e.frame_index = ground arith in
              omega (arith, flow.behind, reached)
        ] in
        (flow.scene ∙ ap (frames_below p side) all, flow.depth ∙ ap (frames_below p side) all)
