-- ===== src/Main/Serving.antt =====
-- What the threads of main are started with (src/main.cpp), and the way of the first frame through
-- them, from the renderer to the encoders.
use ngp_encode_server.Base.{
  ℕ, ◌+◌, ◌^◌, ◌≤◌, ◌<◌, ◌≡◌, refl, ap, ◌∙◌, List, [], ◌∷◌, ◌++◌, some, Bool, true, false,
  if◌then◌else◌, length,
}
use ngp_encode_server.Base.Int.{pos}
use ngp_encode_server.Client.{
  Env, Connection, Shared, Local, client_round, draw_request, rgb24, gray8,
}
use ngp_encode_server.Client.Rounds.{round_serves, index-draw_request}
use ngp_encode_server.Encode.{Eye, Processing, Sending}
use ngp_encode_server.Encode
use ngp_encode_server.Encode.Overlay.{Texts}
use ngp_encode_server.Encode.Pipeline.{processes, sends, run}
use ngp_encode_server.Encode.Pipeline.Reaches.{frame_reaches_encoders}
use ngp_encode_server.Encode.Process.{filed}
use ngp_encode_server.FrameMap.View.{empty-view, empty-IsValid}
use ngp_encode_server.FrameQueue.{push}
use ngp_encode_server.FrameQueue.Fifo.{push_empty}
use ngp_encode_server.RenderedFrame.{Response, RenderedFrame, construct}
use ngp_encode_server.Socket.{size_of_size, IsHealthy, turns}
use ngp_encode_server.Socket.Framing.{frame}
use ngp_encode_server.Main.Flags.{Parsed}
use ngp_encode_server.Main.Startup.{World, Program, threads, main}
use ngp_encode_server.Main.Startup.Ready.{IsReady, main-IsReady}

-- The variables of a client thread before its loop.
abbrev pub unused : Local
unused = record { ret = pos 0; count = 0; elapsed = 0 }

module _ {ℓ} {F : Type ℓ} where
  -- The arguments of socket_main_thread, which each client thread gets.
  abbrev pub shared_of : Program F → Shared F
  shared_of p = record {
    counters = p.counters;
    cameras = p.cameras;
    queue_left = p.frame_queue_left;
    queue_right = p.frame_queue_right;
  }

  -- The two threads of an eye before their loops: the queue that they share with the client threads, and
  -- the map that they get from main.
  abbrev pub eye_of : Bool → Program F → Shared F → Eye F
  eye_of is_left p s = record {
    frame_queue = if is_left then s.queue_left else s.queue_right;
    encode_queue = if is_left then p.frame_map_left else p.frame_map_right;
    processed = record { index = 0; elapsed = 0 };
    frame_index = 0;
    sent = record { index = 0; elapsed = 0 };
    to_scene = [];
    to_depth = [];
  }

  -- At the start, every eye has an empty map.
  pub eye_of-empty :
      (is_left : Bool) (p : Program F) (s : Shared F)
      → IsReady p
      → (eye_of is_left p s).encode_queue.entries ≡ []
  eye_of-empty true p s v = v.left_map_is_empty
  eye_of-empty false p s v = v.right_map_is_empty

  -- The queue of an eye, once a frame was pushed for it.
  eye_of-front :
      (is_left : Bool) (p : Program F) (s : Shared F) (f : RenderedFrame F)
      → IsReady p
      → s.queue_left ≡ (if is_left then (push f p.frame_queue_left).0 else p.frame_queue_left)
      → s.queue_right ≡ (if is_left then p.frame_queue_right else (push f p.frame_queue_right).0)
      → (eye_of is_left p s).frame_queue.queue ≡ f ∷ []
  eye_of-front true p s f v l r =
      ap (λ q. q.queue) l ∙ push_empty f p.frame_queue_left v.left_queue_is_empty
  eye_of-front false p s f v l r =
      ap (λ q. q.queue) r ∙ push_empty f p.frame_queue_right v.right_queue_is_empty

  -- From the command line to the encoders: once main has started its threads, let the first request
  -- be answered by a frame of its index, for either eye, in a message that fits the memory and over a
  -- connection that works. One round of the client thread, one of the eye's processor and one of its
  -- sender then hand exactly this frame, converted and with its texts, to both encoders of the eye,
  -- and the sender waits for index 1. libswscale converts both images, and their AVFrames can be
  -- made.
  pub first_frame_reaches_encoders :
      (parsed : Parsed) (w : World F) (p : Program F) (env : Env F) (conn : Connection)
      (answer rest : List ℕ) (response : Response F) (t : Texts F) (pr : Processing) (a : Sending)
      → main parsed w ≡ threads p
      → conn.inbox ≡ frame answer ++ rest
      → env.parse answer ≡ some response
      → response.index ≡ (draw_request (shared_of p)).0.index
      → IsHealthy conn.calls
      → size_of_size
          + length (env.serialize (draw_request (shared_of p)).0)
          + size_of_size
          + length answer
        ≤ turns conn.calls
      → length answer < 2 ^ 64
      → length answer ≤ env.memory
      → pr.scene_ok ≡ true
      → pr.depth_ok ≡ true
      → a.scene_wraps ≡ true
      → a.depth_wraps ≡ true
      → let scene = p.cameras.left.scene.info in
        let depth = p.cameras.left.depth.info in
        let r = client_round env scene depth conn (shared_of p) unused in
        let f = construct response rgb24 gray8 scene depth in
        let (end, e) = run (processes t pr ∷ sends a ∷ []) (eye_of response.is_left p r.shared) in
        (end ≡ Encode.next)
        × (e.to_scene ≡ filed t f ∷ [])
        × (e.to_depth ≡ filed t f ∷ [])
        × (e.frame_index ≡ 1)
  unfolding construct
  first_frame_reaches_encoders parsed w p env conn answer rest response t pr a start arrives parses
        own sound enough small room scene_ok depth_ok wraps wraps' =
      let ready = main-IsReady parsed w p start in
      let scene = p.cameras.left.scene.info in
      let depth = p.cameras.left.depth.info in
      let s = (client_round env scene depth conn (shared_of p) unused).shared in
      let f = construct response rgb24 gray8 scene depth in
      let (_, _, _, left, right) =
        round_serves env scene depth conn (shared_of p) unused answer rest response refl arrives
          parses sound enough small room in
      let e = eye_of response.is_left p s in
      let none_filed = eye_of-empty response.is_left p s ready in
      let zeroth = own ∙ index-draw_request (shared_of p) ready.counters_are_zero in
      frame_reaches_encoders t pr a f [] e (eye_of-front response.is_left p s f ready left right)
        refl zeroth scene_ok depth_ok wraps wraps' (empty-IsValid e.encode_queue none_filed)
        (rw none_filed refl) (empty-view e.encode_queue response.index none_filed)
