-- ===== src/Main/Shutdown.antt =====
-- The end of main, behind the loop that joins the threads (src/main.cpp).
use ngp_encode_server.Base.{
  ℕ, suc, ◌+◌, ◌≡◌, refl, sym, ap, subst, ◌∙◌, List, [], map, ◌∷◌, Bool, true, false, not, ◌&&◌,
  ◌==◌, if◌then◌else◌, Bool-cases, inl, inr, arith,
}
use ngp_encode_server.Base.Int.{pos}
use ngp_encode_server.Base.Exceptions.{Result, ok, throws, websocket_error}
use ngp_encode_server.WebSocket.{WebSocketServer, StopAnswers, stop}
use ngp_encode_server.WebSocket.Lifecycle.{
  Call, run_calls, started, joined, IsPaired, listening, are_traffic, run_calls_running,
  run_calls-IsPaired, stop-IsPaired, stop_returns, stop_lem,
}
use ngp_encode_server.Main.Flags.{Parsed}
use ngp_encode_server.Main.Startup.{
  World, Program, Outcome, returns, terminates, threads, any_running, catch_exception, main,
  servers,
}
use ngp_encode_server.Main.Startup.Ready.{main-IsReady}

-- The servers are stopped in turn, each with what the library answers then; an exception leaves those
-- behind it as they are.
pub stop_all : List (StopAnswers × WebSocketServer) → List WebSocketServer × Result (Unit {0})
stop_all [] = ([], ok tt)
stop_all ((a, s) ∷ rest) =
    let (s', r) = stop a s in
    let (ss, r') = stop_all rest in
    elim r [ ok _ ↦ (s' ∷ ss, r') | throws x ↦ (s' ∷ map (λ t. t.1) rest, throws x) ]

-- The end of the `try` block destroys the servers, on either way out.
pub finish {ℓ} : {F : Type ℓ} → List WebSocketServer × Result (Unit {0}) → Outcome F
finish (ss, _) = catch_exception ss

-- The servers once the other threads are through: what they and the clients called on the k-th of
-- them is `calls k`, and `answers k` is what the library answers while it is stopped.
abbrev pub served :
    (ℕ → List Call)
    → (ℕ → StopAnswers)
    → ℕ
    → List WebSocketServer
    → List (StopAnswers × WebSocketServer)
served calls answers k [] = []
served calls answers k (s ∷ ss) =
    (answers k, run_calls (calls k) s) ∷ served calls answers (suc k) ss

-- Each call of the library that the five calls of stop make returns.
abbrev pub all_return : List (StopAnswers × WebSocketServer) → Bool
all_return [] = true
all_return ((a, s) ∷ rest) = stop_returns a s && all_return rest

-- Each thread that was ever started on a server has been joined.
abbrev pub all_joined : List WebSocketServer → Bool
all_joined [] = true
all_joined (s ∷ ss) = (started s.events == joined s.events) && all_joined ss

abbrev AllRunning : List (StopAnswers × WebSocketServer) → Type 0
AllRunning [] = Unit
AllRunning ((a, s) ∷ rest) = (s.running ≡ true) × IsPaired s × AllRunning rest

abbrev AllUp : List WebSocketServer → Type 0
AllUp [] = Unit
AllUp (s ∷ ss) = (s.running ≡ true) × IsPaired s × AllUp ss

served-AllRunning :
    (calls : ℕ → List Call) (answers : ℕ → StopAnswers) (k : ℕ) (ss : List WebSocketServer)
    → ((n : ℕ) → are_traffic (calls n) ≡ true)
    → AllUp ss
    → AllRunning (served calls answers k ss)
served-AllRunning calls answers k [] quiet v = tt
served-AllRunning calls answers k (s ∷ ss) quiet (on, paired, v) = (
  run_calls_running (calls k) s (quiet k) ∙ on,
  run_calls-IsPaired (calls k) s paired,
  served-AllRunning calls answers (suc k) ss quiet v,
)

record IsOver (returned : Bool) (r : List WebSocketServer × Result (Unit {0})) : Type 0 where
  result : r.1 ≡ (if returned then ok tt else throws websocket_error)
  runs : any_running r.0 ≡ not returned
  all_ended : all_joined r.0 ≡ returned

stop_all_next :
    (a : StopAnswers) (s : WebSocketServer) (rest : List (StopAnswers × WebSocketServer))
    → (stop a s).1 ≡ ok tt
    → stop_all ((a, s) ∷ rest) ≡ ((stop a s).0 ∷ (stop_all rest).0, (stop_all rest).1)
unfolding stop_all
stop_all_next a s rest h = rw (stop_all, h) refl

stop_all_left :
    (a : StopAnswers) (s : WebSocketServer) (rest : List (StopAnswers × WebSocketServer))
    → (stop a s).1 ≡ throws websocket_error
    → stop_all ((a, s) ∷ rest) ≡ ((stop a s).0 ∷ map (λ t. t.1) rest, throws websocket_error)
unfolding stop_all
stop_all_left a s rest h = rw (stop_all, h) refl

equal_counts : (m n : ℕ) → m ≡ n + 0 → (m == n) ≡ true
equal_counts m n h = ground arith

one_more : (m n : ℕ) → m ≡ n + 1 → (m == n) ≡ false
one_more m n h = ground arith

stop_all-IsOver :
    (rest : List (StopAnswers × WebSocketServer))
    → AllRunning rest
    → IsOver (all_return rest) (stop_all rest)
unfolding stop_all
stop_all-IsOver [] v = record { result = refl; runs = refl; all_ended = refl }
stop_all-IsOver ((a, s) ∷ rest) (on, paired, v) =
    let (result, running) = stop_lem a s on in
    let still = stop-IsPaired a s paired in
    let ih = stop_all-IsOver rest v in
    elim (Bool-cases (stop_returns a s)) [
      | inl well ↦
          let e = stop_all_next a s rest (result ∙ rw well refl) in
          let off : (stop a s).0.running ≡ false = running ∙ ap not well in
          let same : (started (stop a s).0.events == joined (stop a s).0.events) ≡ true =
            equal_counts _ _ (rw off at still) in
          subst (IsOver (stop_returns a s && all_return rest)) (sym e) (
            rw well (record {
              result = ih.result;
              runs = rw off ih.runs;
              all_ended = rw same ih.all_ended;
            }))
      | inr bad ↦
          let e = stop_all_left a s rest (result ∙ rw bad refl) in
          let on' : (stop a s).0.running ≡ true = running ∙ ap not bad in
          let differ : (started (stop a s).0.events == joined (stop a s).0.events) ≡ false =
            one_more _ _ (rw on' at still) in
          subst (IsOver (stop_returns a s && all_return rest)) (sym e)
            (rw bad (record { result = refl; runs = rw on' refl; all_ended = rw differ refl }))
    ]

module _ {ℓ} {F : Type ℓ} where
  finish_lem :
      (returned : Bool) (r : List WebSocketServer × Result (Unit {0}))
      → any_running r.0 ≡ not returned
      → finish {F = F} r ≡ (if returned then returns (pos 0) else terminates)
  unfolding finish catch_exception
  finish_lem true r h = rw h refl
  finish_lem false r h = rw h refl

  -- Once its threads are through, main stops its five servers, whatever was sent by them and whichever
  -- clients came and went. If each call of stop_listening and close returns, it does so without an
  -- exception, every thread of a server is joined, and main returns 0. If one throws, as for a client
  -- that is going already, the exception leaves a server behind that was not joined, and its
  -- destruction ends the program by std::terminate.
  pub main_finishes :
      (parsed : Parsed) (w : World F) (p : Program F) (calls : ℕ → List Call)
      (answers : ℕ → StopAnswers)
      → main parsed w ≡ threads p
      → ((n : ℕ) → are_traffic (calls n) ≡ true)
      → let stopped = served calls answers 0 (servers p) in
        let well = all_return stopped in
        ((stop_all stopped).1 ≡ (if well then ok tt else throws websocket_error))
        × (all_joined (stop_all stopped).0 ≡ well)
        × (finish {F = F} (stop_all stopped) ≡ (if well then returns (pos 0) else terminates))
  main_finishes parsed w p calls answers h quiet =
      let stopped = served calls answers 0 (servers p) in
      let over = stop_all-IsOver stopped (
        subst (λ ss. AllRunning (served calls answers 0 ss))
          (sym (main-IsReady parsed w p h).servers_listen)
          (served-AllRunning calls answers 0
            (listening ∷ listening ∷ listening ∷ listening ∷ listening ∷ []) quiet
            (refl, refl, (refl, refl, (refl, refl, (refl, refl, (refl, refl, tt))))))) in
      (over.result, over.all_ended, finish_lem (all_return stopped) (stop_all stopped) over.runs)
