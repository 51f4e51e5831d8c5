-- ===== src/Socket.antt =====
-- src/server.cpp, the transfer functions: blocking loops over `send` and `read`, and messages framed
-- by their length. The kernel enters as the list of what its system calls will return; a call that
-- moves data moves at least one byte if it can. Lengths stay below 2 ^ 63, the range of ssize_t.
pub mod Send
pub mod Receive
pub mod Bytes
pub mod Framing
mod Tests
use ngp_encode_server.Base.{
  ℕ, zero, suc, ◌+◌, ◌-◌, ◌*◌, ◌/◌, ◌%◌, ◌≡◌, List, [], ◌∷◌, ◌++◌, Option, none, some, Bool, min,
  ltb, ◌==◌, if◌then◌else◌, length, take, drop,
}
use mathlib.Core.Option
use ngp_encode_server.Base.Int.{ℤ, pos, sub_ℕ, ltb_ℤ}
use ngp_encode_server.Base.Exceptions.{Result, ok, throws, runtime_error, bad_alloc}

-- EAGAIN
abbrev pub eagain : ℕ
eagain = 11

-- What the next system call does: it moves up to n + 1 bytes, or returns -1 and sets errno.
pub data SysCall : Type 0 where
  moves : ℕ → SysCall
  fails : ℕ → SysCall

-- The end of a transfer: what it returned, the system calls that are left, and what is on the wire.
-- `none` means that the thread still waits for a system call.
pub record Sent : Type 0 where
  pub ret : Option ℤ
  pub calls : List SysCall
  pub wire : List ℕ

-- The loop of socket_send_blocking: bytes `sent` to `size` of `buf` are still to be sent.
pub send_loop : List SysCall → List ℕ → ℕ → ℕ → List ℕ → Sent
send_loop [] buf size sent wire = record {
  ret = if ltb sent size then none else some (pos 0);
  calls = [];
  wire = wire;
}
send_loop (moves n ∷ cs) buf size sent wire =
    let ret = min (suc n) (size - sent) in
    let rest = send_loop cs buf size (sent + ret) (wire ++ take ret (drop sent buf)) in
    if ltb sent size then rest else record { ret = some (pos 0); calls = moves n ∷ cs; wire = wire }
send_loop (fails errno ∷ cs) buf size sent wire =
    let again = send_loop cs buf size sent wire in
    if ltb sent size
    then if errno == eagain
      then again
      else record { ret = some (sub_ℕ 0 errno); calls = cs; wire = wire }
    else record { ret = some (pos 0); calls = fails errno ∷ cs; wire = wire }

pub socket_send_blocking : List SysCall → List ℕ → ℕ → List ℕ → Sent
socket_send_blocking calls buf size wire = send_loop calls buf size 0 wire

-- The bytes of an unsigned integer in memory, least significant first, and back.
pub le_bytes : ℕ → ℕ → List ℕ
le_bytes zero n = []
le_bytes (suc k) n = (n % 256) ∷ le_bytes k (n / 256)

unfoldable pub le_value : List ℕ → ℕ
le_value [] = 0
le_value (b ∷ bs) = b + 256 * le_value bs

-- sizeof(size_t)
abbrev pub size_of_size : ℕ
size_of_size = 8

-- What follows a first transfer: it stops there if the transfer waits or returned less than 0.
abbrev pub on_sent : Sent → (Sent → Sent) → Sent
on_sent s next = elim s.ret [ none ↦ s | some ret ↦ if ltb_ℤ ret (pos 0) then s else next s ]

-- socket_send_blocking_lpf
pub socket_send_blocking_lpf : List SysCall → List ℕ → ℕ → List ℕ → Sent
socket_send_blocking_lpf calls buf size wire =
    on_sent (socket_send_blocking calls (le_bytes size_of_size size) size_of_size wire)
      λ s. socket_send_blocking s.calls buf size s.wire

-- The end of a transfer in: `buf` holds what was read, `wire` what the peer sent and nobody read.
pub record Received : Type 0 where
  pub ret : Option ℤ
  pub calls : List SysCall
  pub wire : List ℕ
  pub buf : List ℕ

-- The loop of socket_receive_blocking, `recv` bytes read. The peer sends no more than `wire`: a read
-- behind its end returns 0.
pub receive_loop : List SysCall → List ℕ → ℕ → ℕ → List ℕ → Received
receive_loop [] wire size recv buf = record {
  ret = if ltb recv size then none else some (pos 0);
  calls = [];
  wire = wire;
  buf = buf;
}
receive_loop (moves n ∷ cs) wire size recv buf =
    let bytes = take (min (suc n) (size - recv)) wire in
    let ret = length bytes in
    let rest = receive_loop cs (drop ret wire) size (recv + ret) (buf ++ bytes) in
    if ltb recv size
    then if ret == 0
      then record { ret = some (sub_ℕ 0 1); calls = cs; wire = wire; buf = buf }
      else rest
    else record { ret = some (pos 0); calls = moves n ∷ cs; wire = wire; buf = buf }
receive_loop (fails errno ∷ cs) wire size recv buf =
    let again = receive_loop cs wire size recv buf in
    if ltb recv size
    then if errno == eagain
      then again
      else record { ret = some (sub_ℕ 0 errno); calls = cs; wire = wire; buf = buf }
    else record { ret = some (pos 0); calls = fails errno ∷ cs; wire = wire; buf = buf }

pub socket_receive_blocking : List SysCall → List ℕ → ℕ → Received
socket_receive_blocking calls wire size = receive_loop calls wire size 0 []

-- What socket_receive_blocking_lpf ends with: a message, an exception, or `none` while it waits.
pub record Message : Type 0 where
  pub result : Option (Result (List ℕ))
  pub calls : List SysCall
  pub wire : List ℕ

abbrev received_body : Received → Message
received_body r = record {
  result = Option.map (λ ret. if ltb_ℤ ret (pos 0) then throws runtime_error else ok r.buf) r.ret;
  calls = r.calls;
  wire = r.wire;
}

-- std::make_unique<char[]>(size) throws std::bad_alloc beyond the `memory` that can be had.
abbrev receive_body : ℕ → Received → Message
receive_body memory r =
    let size = le_value r.buf in
    if ltb memory size
    then record { result = some (throws bad_alloc); calls = r.calls; wire = r.wire }
    else received_body (socket_receive_blocking r.calls r.wire size)

-- socket_receive_blocking_lpf
pub socket_receive_blocking_lpf : ℕ → List SysCall → List ℕ → Message
socket_receive_blocking_lpf memory calls wire =
    let r = socket_receive_blocking calls wire size_of_size in
    elim r.ret [
      | none ↦ record { result = none; calls = r.calls; wire = r.wire }
      | some ret ↦
          if ltb_ℤ ret (pos 0)
          then record { result = some (throws runtime_error); calls = r.calls; wire = r.wire }
          else receive_body memory r
    ]

-- A kernel that returns no error but EAGAIN.
abbrev pub IsHealthy : List SysCall → Type 0
IsHealthy [] = Unit
IsHealthy (moves n ∷ cs) = IsHealthy cs
IsHealthy (fails errno ∷ cs) = (errno ≡ eagain) × IsHealthy cs

-- How many of the calls move data.
abbrev pub turns : List SysCall → ℕ
turns [] = 0
turns (moves n ∷ cs) = suc (turns cs)
turns (fails errno ∷ cs) = turns cs
