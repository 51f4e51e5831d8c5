-- ===== src/Socket/Framing.antt =====
-- Messages framed by their length, from socket_send_blocking_lpf to socket_receive_blocking_lpf.
use ngp_encode_server.Base.{
  ℕ, ◌+◌, ◌^◌, ◌≤◌, ◌<◌, ◌≡◌, refl, ap, ◌∙◌, List, [], ◌++◌, append_assoc, some, ltb, arith, length,
  take, length-append, take-length_le, take-append, ◌-◌, take-append_le, length-take, dec_lt,
  drop-append, true, false,
}
use ngp_encode_server.Base.Int.{pos}
use ngp_encode_server.Base.Exceptions.{ok, throws, runtime_error, bad_alloc}
use ngp_encode_server.Socket.{
  SysCall, le_bytes, le_value, size_of_size, IsHealthy, turns, socket_send_blocking,
  socket_send_blocking_lpf, socket_receive_blocking, socket_receive_blocking_lpf,
}
use ngp_encode_server.Socket.Bytes.{length-le_bytes, le_value-le_bytes}
use ngp_encode_server.Socket.Send.{HasSent, send_all}
use ngp_encode_server.Socket.Receive.{receive_all, receive_cut}

-- A message as it stands on the wire.
abbrev pub frame : List ℕ → List ℕ
frame msg = le_bytes size_of_size (length msg) ++ msg

pub send_lpf-HasSent :
    (cs : List SysCall) (msg wire : List ℕ)
    → IsHealthy cs
    → size_of_size + length msg ≤ turns cs
    → HasSent cs
        (size_of_size + length msg)
        (wire ++ frame msg)
        (socket_send_blocking_lpf cs msg (length msg) wire)
unfolding socket_send_blocking_lpf
send_lpf-HasSent cs msg wire sound enough =
    let prefix = le_bytes size_of_size (length msg) in
    let first = send_all cs prefix size_of_size wire sound (omega arith) in
    let s = socket_send_blocking cs prefix size_of_size wire in
    let second =
      send_all s.calls msg (length msg) s.wire first.healthy (omega (arith, first.turns_left)) in
    rw (first.returned) (record {
      returned = second.returned;
      on_wire =
          second.on_wire
          ∙ rw (
            take-length_le (length msg) msg (omega arith),
            first.on_wire,
            take-length_le size_of_size prefix
                (omega (arith, length-le_bytes size_of_size (length msg))),
            append_assoc wire prefix msg,
          );
      healthy = second.healthy;
      turns_left = omega (arith, first.turns_left, second.turns_left);
    })

-- A receiver that finds a whole message on the wire returns it and stops behind it.
pub receive_lpf_frame :
    (memory : ℕ) (cs : List SysCall) (msg rest : List ℕ)
    → IsHealthy cs
    → size_of_size + length msg ≤ turns cs
    → length msg < 2 ^ 64
    → length msg ≤ memory
    → let r = socket_receive_blocking_lpf memory cs (frame msg ++ rest) in
      (r.result ≡ some (ok msg))
      × (r.wire ≡ rest)
      × IsHealthy r.calls
      × (turns cs ≤ turns r.calls + (size_of_size + length msg))
unfolding socket_receive_blocking_lpf
receive_lpf_frame memory cs msg rest sound enough small room =
    let prefix = le_bytes size_of_size (length msg) in
    let prefix_length = length-le_bytes size_of_size (length msg) in
    let wire = frame msg ++ rest in
    let split = append_assoc prefix msg rest in
    let first =
      receive_all cs wire size_of_size sound (omega arith)
        (omega (arith, length-append (frame msg) rest, length-append prefix msg, prefix_length)) in
    let r = socket_receive_blocking cs wire size_of_size in
    let read_prefix : r.buf ≡ prefix =
      first.filled ∙ rw split (take-append size_of_size prefix (msg ++ rest) prefix_length) in
    let left : r.wire ≡ msg ++ rest =
      first.unread ∙ rw split (drop-append size_of_size prefix (msg ++ rest) prefix_length) in
    let size : le_value prefix ≡ length msg = le_value-le_bytes size_of_size (length msg) small in
    let second =
      receive_all r.calls (msg ++ rest) (length msg) first.healthy (omega (arith, first.turns_left))
        (omega (arith, length-append msg rest)) in
    let fits : ltb memory (length msg) ≡ false = ground arith in
    rw (first.returned, socket_receive_blocking_lpf, read_prefix, size, fits, left, second.returned)
      (
        ap (λ b. some (ok b)) (second.filled ∙ take-append (length msg) msg rest refl),
        second.unread ∙ drop-append (length msg) msg rest refl,
        second.healthy,
        omega (arith, first.turns_left, second.turns_left),
      )

-- However the kernel cuts the bytes on both sides, a message sent by socket_send_blocking_lpf is the
-- one that socket_receive_blocking_lpf returns, and what the peer sends behind it stays unread. Both
-- kernels return no error but EAGAIN and move data often enough, the length is a size_t and the
-- receiver has memory for it.
pub lpf_round_trip :
    (cs ds : List SysCall) (msg rest : List ℕ) (memory : ℕ)
    → IsHealthy cs
    → IsHealthy ds
    → size_of_size + length msg ≤ turns cs
    → size_of_size + length msg ≤ turns ds
    → length msg < 2 ^ 64
    → length msg ≤ memory
    → let s = socket_send_blocking_lpf cs msg (length msg) [] in
      let r = socket_receive_blocking_lpf memory ds (s.wire ++ rest) in
      (s.ret ≡ some (pos 0)) × (r.result ≡ some (ok msg)) × (r.wire ≡ rest)
lpf_round_trip cs ds msg rest memory sound sound' enough enough' small room =
    let sent = send_lpf-HasSent cs msg [] sound enough in
    let (result, left, _, _) = receive_lpf_frame memory ds msg rest sound' enough' small room in
    (sent.returned, rw sent.on_wire result, rw sent.on_wire left)

-- A length prefix beyond the memory that can be had makes socket_receive_blocking_lpf throw
-- std::bad_alloc, whatever follows the prefix.
pub receive_lpf_too_long :
    (memory : ℕ) (cs : List SysCall) (wire : List ℕ)
    → IsHealthy cs
    → size_of_size ≤ turns cs
    → size_of_size ≤ length wire
    → memory < le_value (take size_of_size wire)
    → (socket_receive_blocking_lpf memory cs wire).result ≡ some (throws bad_alloc)
unfolding socket_receive_blocking_lpf
receive_lpf_too_long memory cs wire sound enough arrives big =
    let first = receive_all cs wire size_of_size sound enough arrives in
    let too_big : ltb memory (le_value (take size_of_size wire)) ≡ true = ground arith in
    rw (first.returned, socket_receive_blocking_lpf, first.filled, too_big)

receive_prefix_cut :
    (memory : ℕ) (cs : List SysCall) (wire : List ℕ)
    → IsHealthy cs
    → length wire < turns cs
    → length wire < size_of_size
    → (socket_receive_blocking_lpf memory cs wire).result ≡ some (throws runtime_error)
unfolding socket_receive_blocking_lpf
receive_prefix_cut memory cs wire sound enough short =
    rw (receive_cut cs wire size_of_size sound enough short, socket_receive_blocking_lpf)

receive_body_cut :
    (memory : ℕ) (cs : List SysCall) (msg : List ℕ) (k : ℕ)
    → IsHealthy cs
    → size_of_size + length msg ≤ turns cs
    → length msg < 2 ^ 64
    → length msg ≤ memory
    → k < length msg
    → (socket_receive_blocking_lpf memory cs
        (le_bytes size_of_size (length msg) ++ take k msg)).result
      ≡ some (throws runtime_error)
unfolding socket_receive_blocking_lpf
receive_body_cut memory cs msg k sound enough small room cut =
    let prefix = le_bytes size_of_size (length msg) in
    let prefix_length = length-le_bytes size_of_size (length msg) in
    let body = take k msg in
    let wire = prefix ++ body in
    let first =
      receive_all cs wire size_of_size sound (omega arith)
        (omega (arith, length-append prefix body, prefix_length)) in
    let r = socket_receive_blocking cs wire size_of_size in
    let read_prefix : r.buf ≡ prefix =
      first.filled ∙ take-append size_of_size prefix body prefix_length in
    let left : r.wire ≡ body = first.unread ∙ drop-append size_of_size prefix body prefix_length in
    let size : le_value prefix ≡ length msg = le_value-le_bytes size_of_size (length msg) small in
    let second =
      receive_cut r.calls body (length msg) first.healthy
        (omega (arith, first.turns_left, length-take k msg)) (omega (arith, length-take k msg)) in
    let fits : ltb memory (length msg) ≡ false = ground arith in
    rw (first.returned, socket_receive_blocking_lpf, read_prefix, size, fits, left, second)

-- A peer that closes the connection inside a message, at any byte, makes socket_receive_blocking_lpf
-- throw std::runtime_error: no part of a message is returned.
pub receive_lpf_cut :
    (memory : ℕ) (cs : List SysCall) (msg : List ℕ) (k : ℕ)
    → IsHealthy cs
    → size_of_size + length msg ≤ turns cs
    → length msg < 2 ^ 64
    → length msg ≤ memory
    → k < size_of_size + length msg
    → (socket_receive_blocking_lpf memory cs (take k (frame msg))).result
      ≡ some (throws runtime_error)
receive_lpf_cut memory cs msg k sound enough small room cut = elim (dec_lt k size_of_size) [
  | yes early ↦
      let short = length-take k (frame msg) in
      receive_prefix_cut memory cs (take k (frame msg)) sound (omega (arith, short))
        (omega (arith, short))
  | no late ↦
      let rest = k - size_of_size in
      let split : k ≡ size_of_size + rest = omega arith in
      let prefix_length = length-le_bytes size_of_size (length msg) in
      rw
        (
          split,
          take-append_le size_of_size rest (le_bytes size_of_size (length msg)) msg prefix_length,
        )
        (receive_body_cut memory cs msg rest sound enough small room (omega arith))
]
