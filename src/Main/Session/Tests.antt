-- ===== src/Main/Session/Tests.antt =====
-- A renderer that answers its first request for each eye.
use ngp_encode_server.Base.{
  ℕ, zero, suc, ◌≡◌, refl, List, [], ◌∷◌, ◌++◌, Option, none, some, Bool, true, false, arith,
}
use ngp_encode_server.Client.{Env, Connection, FrameRequest}
use ngp_encode_server.Client.Session.{client_rounds, requests, frames}
use ngp_encode_server.Client.Session.Queues.{frame_of_eye}
use ngp_encode_server.Encode.{Processing, Sending}
use ngp_encode_server.Encode
use ngp_encode_server.Encode.Pipeline.{processes, sends, run}
use ngp_encode_server.Encode.Process.{filed}
use ngp_encode_server.RenderedFrame.{Response}
use ngp_encode_server.Socket.{moves}
use ngp_encode_server.Main.Flags.{accepted, defaults}
use ngp_encode_server.Main.Serving.{shared_of, unused, eye_of}
use ngp_encode_server.Main.Session.{session_reaches_encoders}
use ngp_encode_server.Main.Tests.{world, starts, marks, response, respond, program, works, wraps}

abbrev bit : Bool → ℕ
bit true = 1
bit false = 0

abbrev answer : FrameRequest ℕ → List ℕ
answer r = r.index ∷ bit r.is_left ∷ []

abbrev parse : List ℕ → Option (Response ℕ)
parse [] = none
parse (i ∷ []) = none
parse (i ∷ zero ∷ _) = some (response i false)
parse (i ∷ suc _ ∷ _) = some (response i true)

abbrev env : Env ℕ
env = record { serialize = λ r. r.index ∷ []; parse = parse; memory = 1000; receive_time = 12 }

parse_bit : (i : ℕ) (side : Bool) → parse (i ∷ bit side ∷ []) ≡ some (response i side)
parse_bit i true = refl
parse_bit i false = refl

abbrev conn : Connection
conn = record {
  calls =
      moves 0
      ∷ moves 0
      ∷ moves 0
      ∷ moves 0
      ∷ moves 0
      ∷ moves 0
      ∷ moves 0
      ∷ moves 0
      ∷ moves 0
      ∷ moves 0
      ∷ moves 0
      ∷ moves 0
      ∷ moves 0
      ∷ moves 0
      ∷ moves 0
      ∷ moves 0
      ∷ moves 0
      ∷ moves 0
      ∷ moves 0
      ∷ moves 0
      ∷ moves 0
      ∷ moves 0
      ∷ moves 0
      ∷ moves 0
      ∷ moves 0
      ∷ moves 0
      ∷ moves 0
      ∷ moves 0
      ∷ moves 0
      ∷ moves 0
      ∷ moves 0
      ∷ moves 0
      ∷ moves 0
      ∷ moves 0
      ∷ moves 0
      ∷ moves 0
      ∷ moves 0
      ∷ moves 0
      ∷ moves 0
      ∷ moves 0
      ∷ [];
  inbox =
      frames answer (
        requests respond program.cameras.left.scene.info program.cameras.left.depth.info 2
          (shared_of program))
      ++ [];
  outbox = [];
}

session_reaches_encoders_example :
    let scene = program.cameras.left.scene.info in
    let depth = program.cameras.left.depth.info in
    let g = frame_of_eye respond scene depth program.cameras (λ r. refl) true in
    let r = client_rounds env scene depth 2 conn (shared_of program) unused in
    let (end, e) = run (processes marks works ∷ sends wraps ∷ []) (eye_of true program r.shared) in
    (end ≡ Encode.next)
    × (e.to_scene ≡ filed marks (g 0) ∷ [])
    × (e.to_depth ≡ filed marks (g 0) ∷ [])
    × (e.frame_index ≡ 1)
session_reaches_encoders_example =
    session_reaches_encoders env answer respond 2 (λ r. parse_bit r.index r.is_left) (λ r. refl)
      (λ r. refl) (λ r. omega arith) (λ r. omega arith) (omega arith) (omega arith)
      (accepted defaults) (world true) program conn [] 1 true marks works wraps starts refl
      (omega arith) (omega arith) (omega arith) refl refl refl refl
