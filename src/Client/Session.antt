-- ===== src/Client/Session.antt =====
-- The loop of socket_client_thread until the shutdown (src/server.cpp), and what a renderer that
-- answers every request makes of it.
pub mod Serves
pub mod Queues
use ngp_encode_server.Base.{ℕ, zero, suc, List, [], ◌∷◌, ◌++◌}
use ngp_encode_server.Codec.{CodecInitInfo}
use ngp_encode_server.RenderedFrame.{Response, RenderedFrame, construct}
use ngp_encode_server.Socket.Framing.{frame}
use ngp_encode_server.Client.{
  Env, Connection, Shared, Local, Round, End, next, FrameRequest, client_round, draw_request,
  queue_frame, rgb24, gray8,
}

module _ {ℓ} {F : Type ℓ} (env : Env F) (scene depth : CodecInitInfo) where
  abbrev pub go_on : Round F → (Connection → Shared F → Local → Round F) → End → Round F
  go_on r rest next = rest r.conn r.shared r.local
  go_on r rest _ = r

  -- Up to so many rounds, until the shutdown is requested.
  pub client_rounds : ℕ → Connection → Shared F → Local → Round F
  client_rounds zero conn s l = record { end = next; conn = conn; shared = s; local = l }
  client_rounds (suc n) conn s l =
      let r = client_round env scene depth conn s l in go_on r (client_rounds n) r.end

module _ {ℓ} {F : Type ℓ} (respond : FrameRequest F → Response F)
    (scene depth : CodecInitInfo) where
  -- The frame of a request.
  abbrev pub frame_for : FrameRequest F → RenderedFrame F
  frame_for r = construct (respond r) rgb24 gray8 scene depth

  -- What the threads share once the next request is answered.
  abbrev pub serve_one : Shared F → Shared F
  serve_one s = queue_frame (frame_for (draw_request s).0) (draw_request s).1

  pub serve : ℕ → Shared F → Shared F
  serve zero s = s
  serve (suc n) s = serve n (serve_one s)

  -- The requests up to there.
  pub requests : ℕ → Shared F → List (FrameRequest F)
  requests zero s = []
  requests (suc n) s = (draw_request s).0 ∷ requests n (serve_one s)

-- Messages one after the other, each behind its length.
abbrev pub frames {ℓ} : {F : Type ℓ} → (FrameRequest F → List ℕ) → List (FrameRequest F) → List ℕ
frames message [] = []
frames message (r ∷ rs) = frame (message r) ++ frames message rs
