-- ===== src/Main/Session.antt =====
-- From the command line to the encoders, over a session with a renderer that answers every request.
mod Tests
use ngp_encode_server.Base.{
  ℕ, zero, suc, ◌+◌, ◌*◌, ◌^◌, ◌≤◌, ◌<◌, ◌≡◌, refl, sym, ap, subst, ◌∙◌, List, [], ◌∷◌, ◌++◌, map,
  some, Bool, true, false, inl, inr, Bool-cases, ==_iff, ◌==◌, arith, length, if◌then◌else◌, ◌⊎◌,
}
use ngp_encode_server.Camera.{CameraManager}
use ngp_encode_server.Codec.{CodecInitInfo}
use ngp_encode_server.Client.{Env, Connection, Shared, FrameRequest}
use ngp_encode_server.Client.Session.{client_rounds, requests, frames, serve}
use ngp_encode_server.Client.Session.Serves.{session_serves}
use ngp_encode_server.Client.Session.Queues.{
  upto, length-upto, double, request, frame_of_eye, HasServed, serve-HasServed,
}
use ngp_encode_server.Encode.{Processing, Sending}
use ngp_encode_server.Encode
use ngp_encode_server.Encode.Overlay.{Texts}
use ngp_encode_server.Encode.Pipeline.{run}
use ngp_encode_server.Encode.Pipeline.Playback.{frames_reordered}
use ngp_encode_server.Encode.Pipeline.Reorder.{
  InList, InList-append, InList-last, played, process_each, send_each,
}
use ngp_encode_server.FrameMap.{max_size}
use ngp_encode_server.RenderedFrame.{Response, RenderedFrame, construct}
use ngp_encode_server.Socket.{IsHealthy, turns}
use ngp_encode_server.Main.Flags.{Parsed}
use ngp_encode_server.Main.Startup.{World, Program, threads, main}
use ngp_encode_server.Main.Startup.Ready.{IsReady, main-IsReady}
use ngp_encode_server.Main.Serving.{shared_of, unused, eye_of, eye_of-empty}

pub InList-upto : (n i : ℕ) → i < n → InList i (upto n)
InList-upto zero i h = elim h [ ]
InList-upto (suc n) i h = elim (Bool-cases (i == n)) [
  | inl last ↦
      subst (λ k. InList k (upto n ++ n ∷ [])) (sym ((==_iff i n).0 last)) (InList-last n (upto n))
  | inr other ↦ InList-append i (upto n) (n ∷ []) (InList-upto n i (ground arith))
]

module _ {ℓ} {F : Type ℓ} (env : Env F) (answer : FrameRequest F → List ℕ)
    (respond : FrameRequest F → Response F) (limit : ℕ)
    (parses : (r : FrameRequest F) → env.parse (answer r) ≡ some (respond r))
    (own_index : (r : FrameRequest F) → (respond r).index ≡ r.index)
    (own_side : (r : FrameRequest F) → (respond r).is_left ≡ r.is_left)
    (short : (r : FrameRequest F) → length (env.serialize r) ≤ limit)
    (short_answer : (r : FrameRequest F) → length (answer r) ≤ limit) (room : limit ≤ env.memory)
    (small : limit < 2 ^ 64) where
  eye_of-queue :
      (side : Bool) (p : Program F) (s : Shared F) (n : ℕ)
      → HasServed respond p.cameras.left.scene.info p.cameras.left.depth.info p.cameras own_side 0 n
          n s
      → (eye_of side p s).frame_queue.queue
        ≡ map
            (frame_of_eye respond p.cameras.left.scene.info p.cameras.left.depth.info p.cameras
              own_side side)
            (upto n)
  eye_of-queue true p s n v = v.left_queued
  eye_of-queue false p s n v = v.right_queued

  -- Once main has started its threads, let a renderer answer 2 n requests in turn, at most a hundred
  -- for each eye, each with a frame of the index and the eye that was asked for. For either eye, n
  -- rounds of its processor and n of its sender then hand the frames of the requests 0 to n - 1, with
  -- their texts and converted, to both encoders of the eye, in the order of the requests. No message
  -- is longer than `limit`, the connection works and moves data often enough, libswscale converts the
  -- images, and their AVFrames can be made.
  pub session_reaches_encoders :
      (parsed : Parsed) (w : World F) (p : Program F) (conn : Connection) (rest : List ℕ) (n : ℕ)
      (side : Bool) (t : Texts F) (pr : Processing) (a : Sending)
      → main parsed w ≡ threads p
      → conn.inbox
        ≡ frames answer (
            requests respond p.cameras.left.scene.info p.cameras.left.depth.info
              (double n)
              (shared_of p))
          ++ rest
      → IsHealthy conn.calls
      → double n * (16 + 2 * limit) ≤ turns conn.calls
      → n ≤ max_size
      → pr.scene_ok ≡ true
      → pr.depth_ok ≡ true
      → a.scene_wraps ≡ true
      → a.depth_wraps ≡ true
      → let scene = p.cameras.left.scene.info in
        let depth = p.cameras.left.depth.info in
        let g = frame_of_eye respond scene depth p.cameras own_side side in
        let r = client_rounds env scene depth (double n) conn (shared_of p) unused in
        let (end, e) =
          run (process_each t g pr (upto n) (send_each t g a n)) (eye_of side p r.shared) in
        (end ≡ Encode.next)
        × (e.to_scene ≡ played t g 0 n [])
        × (e.to_depth ≡ played t g 0 n [])
        × (e.frame_index ≡ n)
  unfolding construct
  session_reaches_encoders parsed w p conn rest n side t pr a start arrives sound enough few
        scene_ok depth_ok wraps wraps' =
      let ready = main-IsReady parsed w p start in
      let scene = p.cameras.left.scene.info in
      let depth = p.cameras.left.depth.info in
      let g = frame_of_eye respond scene depth p.cameras own_side side in
      let s = (client_rounds env scene depth (double n) conn (shared_of p) unused).shared in
      let (_, _, _, shared) =
        session_serves env scene depth answer respond limit parses short short_answer room small
          (double n) conn (shared_of p) unused rest refl arrives sound enough in
      let begun : HasServed respond scene depth p.cameras own_side 0 0 0 (shared_of p) = record {
        counted = ready.counters_are_zero;
        still = refl;
        left_queued = ready.left_queue_is_empty;
        right_queued = ready.right_queue_is_empty;
      } in
      let served : HasServed respond scene depth p.cameras own_side 0 n n s =
        subst (HasServed respond scene depth p.cameras own_side 0 n n) (sym shared) (
          subst
            (λ k.
              HasServed respond scene depth p.cameras own_side 0 k k
                (serve respond scene depth (double n) (shared_of p)))
            (omega arith)
            (serve-HasServed respond scene depth p.cameras own_side n 0 (shared_of p) (omega arith)
              begun)) in
      let (ends, to_scene, to_depth, index) =
        frames_reordered t g pr a (upto n) n (eye_of side p s)
          (λ i. own_index (request respond scene depth p.cameras own_side side i)) (λ i. refl)
          scene_ok depth_ok wraps wraps' (eye_of-queue side p s n served)
          (eye_of-empty side p s ready) (omega (arith, length-upto n)) (omega arith)
          (λ i ge lt. InList-upto n i (omega arith)) in
      (ends, to_scene, to_depth, index ∙ omega arith)
