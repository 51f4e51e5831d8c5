-- ===== src/Socket/Receive.antt =====
-- What socket_receive_blocking reads.
use ngp_encode_server.Base.{
  ℕ, zero, suc, ◌+◌, ◌-◌, ◌≤◌, ◌<◌, ◌≡◌, refl, ap, subst, ◌∙◌, List, [], ◌∷◌, ◌++◌, some, min, ltb,
  ◌==◌, arith, length, take, drop, take-add, take-length_le, length-take, length-drop, inl, inr,
  Bool-cases, true, false,
}
use Prim.Native.Nat.add
use ngp_encode_server.Base.Int.{pos, sub_ℕ}
use ngp_encode_server.Socket.{
  SysCall, moves, fails, Received, receive_loop, socket_receive_blocking, IsHealthy, turns, eagain,
}

-- The state after a transfer of `count` bytes that went well: the buffer has gained `bytes` and
-- `left` is still to be read.
pub record HasRead (cs : List SysCall) (count : ℕ) (bytes left : List ℕ) (r : Received)
    : Type 0 where
  pub returned : r.ret ≡ some (pos 0)
  pub filled : r.buf ≡ bytes
  pub unread : r.wire ≡ left
  pub healthy : IsHealthy r.calls
  pub turns_left : turns cs ≤ turns r.calls + count

-- The loop at `recv` bytes, of the wire `all`.
record IsAt (all : List ℕ) (size recv : ℕ) (wire buf : List ℕ) : Type 0 where
  le : recv ≤ size
  arrives : size ≤ length all
  filled : buf ≡ take recv all
  unread : wire ≡ drop recv all

ended-HasRead :
    (cs : List SysCall) (all : List ℕ) (size recv : ℕ) (wire buf : List ℕ)
    → ltb recv size ≡ false
    → IsHealthy cs
    → IsAt all size recv wire buf
    → HasRead cs
        (size - recv)
        (take size all)
        (drop size all)
        (record { ret = some (pos 0); calls = cs; wire = wire; buf = buf })
ended-HasRead cs all size recv wire buf done ok at =
    let full : recv ≡ size = ground arith in
    record {
      returned = refl;
      filled = at.filled ∙ ap (λ k. take k all) full;
      unread = at.unread ∙ ap (λ k. drop k all) full;
      healthy = ok;
      turns_left = omega arith;
    }

drop-drop : (m n : ℕ) (xs : List ℕ) → drop n (drop m xs) ≡ drop (m + n) xs
drop-drop zero n xs = rw (add.zero n)
drop-drop (suc m) zero [] = rw (add.suc m zero)
drop-drop (suc m) (suc n) [] = rw (add.suc m (suc n))
drop-drop (suc m) n (x ∷ xs) = rw (add.suc m n) (drop-drop m n xs)

-- A read takes what it asks for while so much is still to come.
length-read :
    (all wire buf : List ℕ) (size recv n : ℕ)
    → recv < size
    → IsAt all size recv wire buf
    → length (take (min (suc n) (size - recv)) wire) ≡ min (suc n) (size - recv)
length-read all wire buf size recv n lt at = omega (
  arith,
  length-take (min (suc n) (size - recv)) wire,
  ap length at.unread,
  length-drop recv all,
  at.arrives,
)

advance-IsAt :
    (all wire buf : List ℕ) (size recv k : ℕ)
    → recv + k ≤ size
    → IsAt all size recv wire buf
    → IsAt all size (recv + k) (drop k wire) (buf ++ take k wire)
advance-IsAt all wire buf size recv k le at = record {
  le = le;
  arrives = at.arrives;
  filled = rw (at.filled, at.unread, take-add recv k all);
  unread = rw (at.unread, drop-drop recv k all);
}

receive_loop-HasRead :
    (cs : List SysCall) (all : List ℕ) (size recv : ℕ) (wire buf : List ℕ)
    → IsHealthy cs
    → size - recv ≤ turns cs
    → IsAt all size recv wire buf
    → HasRead cs (size - recv) (take size all) (drop size all) (receive_loop cs wire size recv buf)
unfolding receive_loop
receive_loop-HasRead [] all size recv wire buf ok enough at =
    let le = at.le in
    let done : ltb recv size ≡ false = ground arith in
    rw done (ended-HasRead [] all size recv wire buf done ok at)
receive_loop-HasRead (moves n ∷ cs) all size recv wire buf ok enough at =
    elim (Bool-cases (ltb recv size)) [
      | inl more ↦
          let before : recv < size = ground arith in
          let k = min (suc n) (size - recv) in
          let got : length (take k wire) ≡ k = length-read all wire buf size recv n before at in
          let some_came : (k == 0) ≡ false = ground arith in
          let rest =
            receive_loop-HasRead cs all size (recv + k) (drop k wire) (buf ++ take k wire) ok
              (omega arith) (advance-IsAt all wire buf size recv k (omega arith) at) in
          rw (got, more, some_came)
            (record {
              returned = rest.returned;
              filled = rest.filled;
              unread = rest.unread;
              healthy = rest.healthy;
              turns_left = omega (arith, rest.turns_left);
            })
      | inr done ↦ rw done (ended-HasRead (moves n ∷ cs) all size recv wire buf done ok at)
    ]
receive_loop-HasRead (fails errno ∷ cs) all size recv wire buf ok enough at =
    elim (Bool-cases (ltb recv size)) [
      | inl more ↦
          let again : (errno == eagain) ≡ true = ground arith in
          let rest = receive_loop-HasRead cs all size recv wire buf ok.1 enough at in
          rw (more, again)
            (record {
              returned = rest.returned;
              filled = rest.filled;
              unread = rest.unread;
              healthy = rest.healthy;
              turns_left = rest.turns_left;
            })
      | inr done ↦ rw done (ended-HasRead (fails errno ∷ cs) all size recv wire buf done ok at)
    ]

-- With a kernel that returns no error but EAGAIN and moves data at least `size` times, and a peer
-- that sends at least `size` bytes, socket_receive_blocking returns 0, the buffer holds exactly the
-- first `size` bytes of the wire and the others are left for the next transfer.
pub receive_all :
    (cs : List SysCall) (wire : List ℕ) (size : ℕ)
    → IsHealthy cs
    → size ≤ turns cs
    → size ≤ length wire
    → HasRead cs size (take size wire) (drop size wire) (socket_receive_blocking cs wire size)
unfolding socket_receive_blocking
receive_all cs wire size ok enough arrives =
    subst (λ n. HasRead cs n (take size wire) (drop size wire) (receive_loop cs wire size 0 [])) all
      (receive_loop-HasRead cs wire size 0 wire [] ok (omega arith)
        (record { le = omega arith; arrives = arrives; filled = refl; unread = refl }))
  where
    all : size - 0 ≡ size
    all = omega arith

receive_loop_cut :
    (cs : List SysCall) (wire buf : List ℕ) (size recv : ℕ)
    → IsHealthy cs
    → length wire < turns cs
    → recv + length wire < size
    → (receive_loop cs wire size recv buf).ret ≡ some (sub_ℕ 0 1)
unfolding receive_loop
receive_loop_cut [] wire buf size recv ok enough short = absurd (omega arith)
receive_loop_cut (moves n ∷ cs) [] buf size recv ok enough short =
    let more : ltb recv size ≡ true = ground arith in
    rw (more, take-length_le {A = ℕ} (min (suc n) (size - recv)) [] (omega arith))
receive_loop_cut (moves n ∷ cs) (x ∷ wire) buf size recv ok enough short =
    let more : ltb recv size ≡ true = ground arith in
    let k = min (suc n) (size - recv) in
    let got = length (take k (x ∷ wire)) in
    let measured = length-take k (x ∷ wire) in
    let some_came : (got == 0) ≡ false = ground (arith, measured) in
    rw (more, some_came)
      (receive_loop_cut cs (drop got (x ∷ wire)) _ size (recv + got) ok
        (omega (arith, measured, length-drop got (x ∷ wire)))
        (omega (arith, measured, length-drop got (x ∷ wire))))
receive_loop_cut (fails errno ∷ cs) wire buf size recv ok enough short =
    let more : ltb recv size ≡ true = ground arith in
    let again : (errno == eagain) ≡ true = ground arith in
    rw (more, again) (receive_loop_cut cs wire buf size recv ok.1 enough short)

-- A peer that closes the connection before `size` bytes: socket_receive_blocking returns -1.
pub receive_cut :
    (cs : List SysCall) (wire : List ℕ) (size : ℕ)
    → IsHealthy cs
    → length wire < turns cs
    → length wire < size
    → (socket_receive_blocking cs wire size).ret ≡ some (sub_ℕ 0 1)
unfolding socket_receive_blocking
receive_cut cs wire size ok enough short =
    receive_loop_cut cs wire [] size 0 ok enough (omega arith)
