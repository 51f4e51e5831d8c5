-- ===== src/WebSocket/Racing/Meets.antt =====
-- Who gets a packet when connections come and go while send_to_all runs.
use ngp_encode_server.Base.{
  ℕ, ◌≡◌, ◌≢◌, refl, sym, subst, ◌∙◌, ◌⊎◌, List, [], ◌∷◌, Bool, true, false, if◌then◌else◌, ◌&&◌,
  arith,
}
use ngp_encode_server.OrderedMap.{IsSorted}
use ngp_encode_server.WebSocket.{WebSocketServer}
use ngp_encode_server.WebSocket.Connections.{
  Handler, has, leaves, handle-IsSorted, handle_keeps, has-handle,
}
use ngp_encode_server.WebSocket.Broadcast.{received}
use ngp_encode_server.WebSocket.Racing.{
  Loop, waits, copied, sent, ended, threw, lost, Scene, enter, send, advance, invalidate, Move,
  goes_on, handles, go_on, move, race,
}
use ngp_encode_server.WebSocket.Racing.Places.{
  Got, first-Got, next-Got, at_most_once, outcome, sent-Got, invalidate-Got,
}

-- No close handler runs for the connection.
abbrev pub stays_open : ℕ → List Move → Bool
stays_open h [] = true
stays_open h (handles x ∷ ms) = if leaves h x then false else stays_open h ms
stays_open h (goes_on takes ∷ ms) = stays_open h ms

module _ (payload : List ℕ) (kept : Bool) (h : ℕ) (old : List (List ℕ)) where
  record IsFair (c : Scene) : Type 0 where
    sorted : IsSorted c.server.connections
    running : c.server.running ≡ true
    there : kept ≡ true → has h c.server ≡ true
    got : Got payload kept h old c.loop (received h c.server.events)

  enter-IsFair : (c : Scene) → c.loop ≡ waits → IsFair c → IsFair (enter c)
  unfolding enter
  enter-IsFair c e v =
      let none_yet = subst (λ l. Got payload kept h old l (received h c.server.events)) e v.got in
      rw v.running (record {
        sorted = v.sorted;
        running = refl;
        there = v.there;
        got = first-Got payload kept h old c.server.connections _ v.sorted v.there none_yet;
      })

  send-IsFair :
      (takes : Bool) (k : ℕ) (valid : Bool) (c : Scene)
      → c.loop ≡ copied k valid
      → IsFair c
      → IsFair (send takes payload k valid c)
  unfolding send
  send-IsFair true k valid c e v = record {
    sorted = v.sorted;
    running = v.running;
    there = v.there;
    got =
        sent-Got payload kept h old k valid (received h c.server.events)
          (subst (λ l. Got payload kept h old l (received h c.server.events)) e v.got);
  }
  send-IsFair false k valid c e v = record {
    sorted = v.sorted;
    running = v.running;
    there = v.there;
    got = at_most_once payload kept h old c.loop _ v.got;
  }

  advance-IsFair :
      (k : ℕ) (valid : Bool) (c : Scene)
      → c.loop ≡ sent k valid
      → IsFair c
      → IsFair (advance k valid c)
  unfolding advance
  advance-IsFair k true c e v = record {
    sorted = v.sorted;
    running = v.running;
    there = v.there;
    got =
        next-Got payload kept h old k true c.server.connections _ v.sorted (λ kept lt. v.there kept)
          (subst (λ l. Got payload kept h old l (received h c.server.events)) e v.got);
  }
  advance-IsFair k false c e v = record {
    sorted = v.sorted;
    running = v.running;
    there = v.there;
    got = at_most_once payload kept h old c.loop _ v.got;
  }

  handles-IsFair :
      (x : Handler) (c : Scene)
      → (kept ≡ true → leaves h x ≡ false)
      → IsFair c
      → IsFair (move payload (handles x) c)
  unfolding move
  handles-IsFair x c stay v =
      let (run, same) = handle_keeps x c.server in
      record {
        sorted = handle-IsSorted x c.server v.sorted;
        running = run ∙ v.running;
        there = λ k. has-handle x h c.server v.sorted (stay k) (v.there k);
        got =
            subst (λ es. Got payload kept h old (invalidate x c.loop) (received h es)) (sym same)
              (invalidate-Got payload kept h old x c.loop _ v.got);
      }

  go_on-IsFair :
      (takes : Bool) (l : Loop) (c : Scene)
      → c.loop ≡ l
      → IsFair c
      → IsFair (go_on takes payload l c)
  unfolding go_on
  go_on-IsFair takes waits c e v = enter-IsFair c e v
  go_on-IsFair takes (copied k valid) c e v = send-IsFair takes k valid c e v
  go_on-IsFair takes (sent k valid) c e v = advance-IsFair k valid c e v
  go_on-IsFair takes ended c e v = v
  go_on-IsFair takes threw c e v = v
  go_on-IsFair takes lost c e v = v

  race-IsFair :
      (ms : List Move) (c : Scene)
      → (kept ≡ true → stays_open h ms ≡ true)
      → IsFair c
      → IsFair (race payload ms c)
  unfolding race move
  race-IsFair [] c stay v = v
  race-IsFair (goes_on takes ∷ ms) c stay v =
      race-IsFair ms _ stay (go_on-IsFair takes c.loop c refl v)
  race-IsFair (handles x ∷ ms) c stay v =
      race-IsFair ms _ (λ e. ground (arith, stay e))
        (handles-IsFair x c (λ e. ground (arith, stay e)) v)

-- send_to_all called on a running server, with open and close handlers anywhere between its steps: at
-- any time a connection has got the packet once or not at all, and has not got it only if the loop has
-- not come to its end, the connection was not open at the call, or it was closed in between.
pub race_meets_open :
    (payload : List ℕ) (ms : List Move) (s : WebSocketServer) (h : ℕ)
    → s.running ≡ true
    → IsSorted s.connections
    → let old = received h s.events in
      let after = race payload ms (record { server = s; loop = waits }) in
      let got = received h after.server.events in
      (got ≡ payload ∷ old)
      ⊎ ((got ≡ old) × (((has h s && stays_open h ms) ≡ false) ⊎ (after.loop ≢ ended)))
race_meets_open payload ms s h run set =
    let kept = has h s && stays_open h ms in
    let old = received h s.events in
    let start : Scene = record { server = s; loop = waits } in
    let fair : IsFair payload kept h old start = record {
      sorted = set;
      running = run;
      there = λ e. ground arith;
      got = refl;
    } in
    let done = race-IsFair payload kept h old ms start (λ e. ground arith) fair in
    outcome payload kept h old (race payload ms start).loop _ done.got
