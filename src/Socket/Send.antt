-- ===== src/Socket/Send.antt =====
-- What socket_send_blocking puts on the wire.
use ngp_encode_server.Base.{
  ℕ, suc, ◌+◌, ◌-◌, ◌≤◌, ◌<◌, ◌≡◌, refl, ap, sym, ◌∙◌, List, [], ◌∷◌, ◌++◌, append_assoc,
  append-nil, some, min, ltb, ◌==◌, arith, take, drop, take-add, inl, inr, true, false, subst,
  Bool-cases,
}
use ngp_encode_server.Base.Int.{pos}
use ngp_encode_server.Socket.{
  SysCall, moves, fails, Sent, send_loop, socket_send_blocking, IsHealthy, turns, eagain,
}

-- The bytes of `buf` that a round appends continue those that are sent.
sent_next :
    (w wire buf : List ℕ) (sent ret : ℕ)
    → wire ≡ w ++ take sent buf
    → wire ++ take ret (drop sent buf) ≡ w ++ take (sent + ret) buf
sent_next w wire buf sent ret e =
    rw (e, take-add sent ret buf, append_assoc w (take sent buf) (take ret (drop sent buf)))

abbrev pub IsPartOf : List ℕ → List ℕ → ℕ → Sent → Type 0
IsPartOf w buf size s = (k : ℕ) × (k ≤ size) × (s.wire ≡ w ++ take k buf)

send_loop-IsPartOf :
    (cs : List SysCall) (w buf : List ℕ) (size sent : ℕ) (wire : List ℕ)
    → sent ≤ size
    → wire ≡ w ++ take sent buf
    → IsPartOf w buf size (send_loop cs buf size sent wire)
unfolding send_loop
send_loop-IsPartOf [] w buf size sent wire le e = (sent, le, e)
send_loop-IsPartOf (moves n ∷ cs) w buf size sent wire le e = elim (Bool-cases (ltb sent size)) [
  | inl more ↦ rw more (
      send_loop-IsPartOf cs w buf size _ _ (omega arith)
        (sent_next w wire buf sent (min (suc n) (size - sent)) e))
  | inr done ↦ rw done (sent, le, e)
]
send_loop-IsPartOf (fails errno ∷ cs) w buf size sent wire le e =
    elim (Bool-cases (ltb sent size)) [
      | inl more ↦ elim (Bool-cases (errno == eagain)) [
        | inl again ↦ rw (more, again) (send_loop-IsPartOf cs w buf size sent wire le e)
        | inr fatal ↦ rw (more, fatal) (sent, le, e)
      ]
      | inr done ↦ rw done (sent, le, e)
    ]

-- Whatever the system calls return, and also while the thread waits for one, the wire has gained a
-- prefix of the buffer: no byte is skipped, repeated or sent from behind `size`.
pub send_prefix :
    (cs : List SysCall) (buf : List ℕ) (size : ℕ) (wire : List ℕ)
    → IsPartOf wire buf size (socket_send_blocking cs buf size wire)
unfolding socket_send_blocking
send_prefix cs buf size wire =
    send_loop-IsPartOf cs wire buf size 0 wire (omega arith) (sym (append-nil wire))

-- The state after a transfer of `count` bytes that went well.
pub record HasSent (cs : List SysCall) (count : ℕ) (wire : List ℕ) (s : Sent) : Type 0 where
  pub returned : s.ret ≡ some (pos 0)
  pub on_wire : s.wire ≡ wire
  pub healthy : IsHealthy s.calls
  pub turns_left : turns cs ≤ turns s.calls + count

-- The loop ends by its test once everything is sent.
ended-HasSent :
    (cs : List SysCall) (w buf : List ℕ) (size sent : ℕ) (wire : List ℕ)
    → ltb sent size ≡ false
    → IsHealthy cs
    → sent ≤ size
    → wire ≡ w ++ take sent buf
    → HasSent cs
        (size - sent)
        (w ++ take size buf)
        (record { ret = some (pos 0); calls = cs; wire = wire })
ended-HasSent cs w buf size sent wire done ok le e =
    let all : sent ≡ size = ground arith in
    record {
      returned = refl;
      on_wire = e ∙ ap (λ k. w ++ take k buf) all;
      healthy = ok;
      turns_left = omega arith;
    }

send_loop-HasSent :
    (cs : List SysCall) (w buf : List ℕ) (size sent : ℕ) (wire : List ℕ)
    → IsHealthy cs
    → size - sent ≤ turns cs
    → sent ≤ size
    → wire ≡ w ++ take sent buf
    → HasSent cs (size - sent) (w ++ take size buf) (send_loop cs buf size sent wire)
unfolding send_loop
send_loop-HasSent [] w buf size sent wire ok enough le e =
    let done : ltb sent size ≡ false = ground arith in
    rw done (ended-HasSent [] w buf size sent wire done ok le e)
send_loop-HasSent (moves n ∷ cs) w buf size sent wire ok enough le e =
    elim (Bool-cases (ltb sent size)) [
      | inl more ↦
          let before : sent < size = ground arith in
          let ret = min (suc n) (size - sent) in
          let rest =
            send_loop-HasSent cs w buf size (sent + ret) (wire ++ take ret (drop sent buf)) ok
              (omega arith) (omega arith) (sent_next w wire buf sent ret e) in
          rw more (record {
            returned = rest.returned;
            on_wire = rest.on_wire;
            healthy = rest.healthy;
            turns_left = omega (arith, rest.turns_left);
          })
      | inr done ↦ rw done (ended-HasSent (moves n ∷ cs) w buf size sent wire done ok le e)
    ]
send_loop-HasSent (fails errno ∷ cs) w buf size sent wire ok enough le e =
    elim (Bool-cases (ltb sent size)) [
      | inl more ↦
          let again : (errno == eagain) ≡ true = ground arith in
          let rest = send_loop-HasSent cs w buf size sent wire ok.1 enough le e in
          rw (more, again)
            (record {
              returned = rest.returned;
              on_wire = rest.on_wire;
              healthy = rest.healthy;
              turns_left = rest.turns_left;
            })
      | inr done ↦ rw done (ended-HasSent (fails errno ∷ cs) w buf size sent wire done ok le e)
    ]

-- With a kernel that returns no error but EAGAIN and moves data at least `size` times,
-- socket_send_blocking returns 0 and the wire has gained exactly the first `size` bytes of the
-- buffer, however the kernel cuts them; each byte takes at most one of those calls.
pub send_all :
    (cs : List SysCall) (buf : List ℕ) (size : ℕ) (wire : List ℕ)
    → IsHealthy cs
    → size ≤ turns cs
    → HasSent cs size (wire ++ take size buf) (socket_send_blocking cs buf size wire)
unfolding socket_send_blocking
send_all cs buf size wire ok enough =
    subst (λ n. HasSent cs n (wire ++ take size buf) (send_loop cs buf size 0 wire)) all
      (send_loop-HasSent cs wire buf size 0 wire ok (omega arith) (omega arith)
        (sym (append-nil wire)))
  where
    all : size - 0 ≡ size
    all = omega arith

-- errno is never 0 after a failure.
abbrev pub HasErrnos : List SysCall → Type 0
HasErrnos [] = Unit
HasErrnos (moves n ∷ cs) = HasErrnos cs
HasErrnos (fails errno ∷ cs) = (0 < errno) × HasErrnos cs

send_loop_success :
    (cs : List SysCall) (w buf : List ℕ) (size sent : ℕ) (wire : List ℕ)
    → HasErrnos cs
    → sent ≤ size
    → wire ≡ w ++ take sent buf
    → (send_loop cs buf size sent wire).ret ≡ some (pos 0)
    → (send_loop cs buf size sent wire).wire ≡ w ++ take size buf
unfolding send_loop
send_loop_success [] w buf size sent wire errs le e = elim (Bool-cases (ltb sent size)) [
  | inl more ↦ rw more (λ h. cc)
  | inr done ↦ λ _. (ended-HasSent [] w buf size sent wire done tt le e).on_wire
]
send_loop_success (moves n ∷ cs) w buf size sent wire errs le e =
    elim (Bool-cases (ltb sent size)) [
      | inl more ↦ rw more (
          send_loop_success cs w buf size _ _ errs (omega arith)
            (sent_next w wire buf sent (min (suc n) (size - sent)) e))
      | inr done ↦ rw done (λ _. (ended-HasSent [] w buf size sent wire done tt le e).on_wire)
    ]
send_loop_success (fails errno ∷ cs) w buf size sent wire errs le e =
    elim (Bool-cases (ltb sent size)) [
      | inl more ↦ elim (Bool-cases (errno == eagain)) [
        | inl again ↦ rw (more, again) (send_loop_success cs w buf size sent wire errs.1 le e)
        | inr fatal ↦ rw (more, fatal) (λ h. absurd (ground arith))
      ]
      | inr done ↦ rw done (λ _. (ended-HasSent [] w buf size sent wire done tt le e).on_wire)
    ]

-- socket_send_blocking reports no success before everything is sent: whatever the system calls
-- return, if errno is never 0 after a failure, a return of 0 means that the wire has gained exactly
-- the first `size` bytes of the buffer.
pub send_success :
    (cs : List SysCall) (buf : List ℕ) (size : ℕ) (wire : List ℕ)
    → HasErrnos cs
    → (socket_send_blocking cs buf size wire).ret ≡ some (pos 0)
    → (socket_send_blocking cs buf size wire).wire ≡ wire ++ take size buf
unfolding socket_send_blocking
send_success cs buf size wire errs =
    send_loop_success cs wire buf size 0 wire errs (omega arith) (sym (append-nil wire))
