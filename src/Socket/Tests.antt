-- ===== src/Socket/Tests.antt =====
-- Runs of the socket transfers.
use ngp_encode_server.Base.{ℕ, ◌≡◌, refl, List, [], ◌∷◌, ◌++◌, some, arith, take}
use ngp_encode_server.Base.Int.{pos}
use ngp_encode_server.Base.Exceptions.{ok}
use ngp_encode_server.Socket.{
  SysCall, moves, fails, eagain, socket_send_blocking, socket_send_blocking_lpf,
  socket_receive_blocking_lpf, send_loop,
}
use ngp_encode_server.Socket.Send.{HasSent, send_all}
use ngp_encode_server.Socket.Framing.{lpf_round_trip}

-- Bytes in small pieces, with a full buffer between them.
abbrev slow : List SysCall
slow =
    moves 2
    ∷ fails eagain
    ∷ moves 0
    ∷ moves 9
    ∷ moves 0
    ∷ moves 1
    ∷ moves 1
    ∷ fails eagain
    ∷ moves 9
    ∷ moves 9
    ∷ moves 9
    ∷ moves 9
    ∷ moves 9
    ∷ []

abbrev hello : List ℕ
hello = 104 ∷ 105 ∷ []

send_slow :
    (socket_send_blocking slow (1 ∷ 2 ∷ 3 ∷ 4 ∷ 5 ∷ []) 4 (9 ∷ [])).wire ≡ 9 ∷ 1 ∷ 2 ∷ 3 ∷ 4 ∷ []
unfolding socket_send_blocking send_loop
send_slow = refl

send_all_example : HasSent slow 2 (7 ∷ take 2 hello) (socket_send_blocking slow hello 2 (7 ∷ []))
send_all_example = send_all slow hello 2 (7 ∷ []) (omega arith) (omega arith)

send_slow_returns : (socket_send_blocking slow hello 2 []).ret ≡ some (pos 0)
unfolding socket_send_blocking send_loop
send_slow_returns = refl

lpf_round_trip_example :
    let s = socket_send_blocking_lpf slow hello 2 [] in
    let r = socket_receive_blocking_lpf 1000 slow (s.wire ++ 7 ∷ []) in
    (s.ret ≡ some (pos 0)) × (r.result ≡ some (ok hello)) × (r.wire ≡ 7 ∷ [])
lpf_round_trip_example =
    lpf_round_trip slow slow hello (7 ∷ []) 1000 (omega arith) (omega arith) (omega arith)
      (omega arith) (omega arith) (omega arith)
