-- ===== src/Main/Interleaved.antt =====
-- From the command line to the encoders, over any number of client threads whose renderers answer in
-- any order.
use ngp_encode_server.Base.{
  ℕ, ◌≤◌, ◌<◌, ◌≡◌, refl, sym, ap, subst, ◌∙◌, List, [], ◌∷◌, Bool, true, false, arith, length, inl,
  inr, Bool-cases,
}
use ngp_encode_server.Client.{Shared, FrameRequest}
use ngp_encode_server.Client.Concurrent.{Serving, Reach}
use ngp_encode_server.Client.Concurrent.Asked.{IsAsked}
use ngp_encode_server.Client.Concurrent.Covered.{counter, queue_of, IsCovered, IsRunning}
use ngp_encode_server.Client.Concurrent.Covers.{reach-IsRunning}
use ngp_encode_server.Client.Session.Queues.{upto, length-upto, length-map, request, frame_of_eye}
use ngp_encode_server.Encode.{Processing, Sending}
use ngp_encode_server.Encode
use ngp_encode_server.Encode.Overlay.{Texts}
use ngp_encode_server.Encode.Pipeline.{Step, processes, run}
use ngp_encode_server.Encode.Pipeline.Playback.{frames_reordered}
use ngp_encode_server.Encode.Pipeline.Reorder.{played, process_each, send_each}
use ngp_encode_server.FrameMap.{max_size}
use ngp_encode_server.RenderedFrame.{Response, RenderedFrame, construct}
use ngp_encode_server.Main.Flags.{Parsed}
use ngp_encode_server.Main.Startup.{World, Program, threads, main}
use ngp_encode_server.Main.Startup.Ready.{IsReady, main-IsReady}
use ngp_encode_server.Main.Serving.{shared_of, eye_of, eye_of-empty}

-- The processor's rounds depend on the number of frames alone.
process_each-length {ℓ} :
    {F : Type ℓ} (t : Texts F) (g : ℕ → RenderedFrame F) (p : Processing) (xs ys : List ℕ)
    (rest : List (Step F))
    → length xs ≡ length ys
    → process_each t g p xs rest ≡ process_each t g p ys rest
process_each-length t g p [] [] rest h = refl
process_each-length t g p (x ∷ xs) (y ∷ ys) rest h =
    ap (λ r. processes t p ∷ r) (process_each-length t g p xs ys rest (omega (arith, h)))
process_each-length t g p [] (y ∷ ys) rest h = absurd (omega (arith, h))
process_each-length t g p (x ∷ xs) [] rest h = absurd (omega (arith, h))

eye_of-queue_of {ℓ} :
    {F : Type ℓ} (side : Bool) (p : Program F) (s : Shared F)
    → (eye_of side p s).frame_queue.queue ≡ queue_of side s
eye_of-queue_of true p s = refl
eye_of-queue_of false p s = refl

-- The client threads before any has drawn a request.
abbrev pub started {ℓ} : {F : Type ℓ} → Program F → Serving F
started p = record { shared = shared_of p; holding = []; pending = [] }

module _ {ℓ} {F : Type ℓ} (respond : FrameRequest F → Response F)
    (own_index : (r : FrameRequest F) → (respond r).index ≡ r.index)
    (own_side : (r : FrameRequest F) → (respond r).is_left ≡ r.is_left) where
  started-IsRunning :
      (p : Program F)
      → IsReady p
      → IsRunning respond p.cameras.left.scene.info p.cameras.left.depth.info p.cameras own_side 0
          (started p)
  started-IsRunning p v = record {
    still = refl;
    own = tt;
    covered = λ side. elim (Bool-cases side) [
      | inl e ↦
          subst (λ b. begins b) (sym e)
            (record {
              indices = [];
              queued = v.left_queue_is_empty;
              covers = λ i h. absurd (omega (arith, h, ap (counter true) v.counters_are_zero));
              asked = omega (arith, ap (counter true) v.counters_are_zero);
              few = omega arith;
            })
      | inr e ↦
          subst (λ b. begins b) (sym e)
            (record {
              indices = [];
              queued = v.right_queue_is_empty;
              covers = λ i h. absurd (omega (arith, h, ap (counter false) v.counters_are_zero));
              asked = omega (arith, ap (counter false) v.counters_are_zero);
              few = omega arith;
            })
    ];
  }
    where
      begins : Bool → Type ℓ
      begins b =
          IsCovered respond p.cameras.left.scene.info p.cameras.left.depth.info p.cameras own_side b
            0 (started p)

  -- Once main has started its threads, let any number of client threads draw at most a hundred
  -- requests, in any order of their steps, while no client moves the cameras, and let their renderers
  -- answer in any order, each with a frame of the index and the eye that was asked for. If the first `m` requests of an eye that were
  -- drawn are answered, a round of the eye's processor for each queued frame and `m` rounds of its
  -- sender hand the frames of the requests 0 to m - 1, with their texts and converted, to both
  -- encoders of the eye, in the order of the requests. libswscale converts the images, and their
  -- AVFrames can be made.
  pub interleaved_reaches_encoders :
      (parsed : Parsed) (w : World F) (p : Program F) (n m : ℕ) (s : Serving F) (side : Bool)
      (t : Texts F) (pr : Processing) (a : Sending)
      → main parsed w ≡ threads p
      → Reach respond p.cameras.left.scene.info p.cameras.left.depth.info (started p) n s
      → n ≤ max_size
      → m ≤ counter side s.shared.counters
      → ((i : ℕ) → i < m → ¬ IsAsked side i s.pending)
      → pr.scene_ok ≡ true
      → pr.depth_ok ≡ true
      → a.scene_wraps ≡ true
      → a.depth_wraps ≡ true
      → let scene = p.cameras.left.scene.info in
        let depth = p.cameras.left.depth.info in
        let g = frame_of_eye respond scene depth p.cameras own_side side in
        let rounds = upto (length (queue_of side s.shared)) in
        let (end, e) =
          run (process_each t g pr rounds (send_each t g a m)) (eye_of side p s.shared) in
        (end ≡ Encode.next)
        × (e.to_scene ≡ played t g 0 m [])
        × (e.to_depth ≡ played t g 0 m [])
        × (e.frame_index ≡ m)
  unfolding construct
  interleaved_reaches_encoders parsed w p n m s side t pr a start reach few drawn answered scene_ok
        depth_ok wraps wraps' =
      let ready = main-IsReady parsed w p start in
      let scene = p.cameras.left.scene.info in
      let depth = p.cameras.left.depth.info in
      let g = frame_of_eye respond scene depth p.cameras own_side side in
      let v =
        (reach-IsRunning respond scene depth p.cameras own_side reach few
            (started-IsRunning p ready)).covered
          side in
      let is = v.indices in
      let e = eye_of side p s.shared in
      let asked = v.asked in
      let rooms = v.few in
      let count = ap length v.queued ∙ length-map g is in
      let (ends, to_scene, to_depth, index) =
        frames_reordered t g pr a is m e
          (λ i. own_index (request respond scene depth p.cameras own_side side i)) (λ i. refl)
          scene_ok depth_ok wraps wraps' (eye_of-queue_of side p s.shared ∙ v.queued)
          (eye_of-empty side p s.shared ready) (omega (arith, rooms, few))
          (omega (arith, asked, few, drawn))
          (λ i ge lt. elim (v.covers i (omega (arith, lt, drawn))) [
            | inl there ↦ there
            | inr waits ↦ absurd (answered i (omega (arith, lt)) waits)
          ]) in
      let same =
        process_each-length t g pr (upto (length (queue_of side s.shared))) is (send_each t g a m)
          (length-upto _ ∙ count) in
      subst
        (λ steps.
          let (end, e') = run steps e in
          (end ≡ Encode.next)
          × (e'.to_scene ≡ played t g 0 m [])
          × (e'.to_depth ≡ played t g 0 m [])
          × (e'.frame_index ≡ m))
        (sym same) (ends, to_scene, to_depth, index ∙ omega arith)
