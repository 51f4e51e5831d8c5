-- ===== src/Main/Joining/Ends.antt =====
-- When main gets through the loop that joins its threads.
mod Tests
use ngp_encode_server.Base.{
  ℕ, zero, suc, ◌+◌, ◌-◌, ◌<◌, ◌≤◌, ◌≡◌, ◌≢◌, refl, sym, ap, subst, ◌∙◌, List, [], ◌∷◌, Bool, true,
  false, ◌==◌, ==_iff, Bool-cases, inl, inr, ◌⊎◌, arith, if◌then◌else◌, length,
}
use ngp_encode_server.Main.Joining.{
  Signals, signal_handler, Doing, loops, waits, ended, Program, at_head, thread, set_thread, Reach,
  stays, is_signalled, comes_round, calls, returns, joins, IsThrough,
}

length-set_thread : (k : ℕ) (d : Doing) (ds : List Doing) → length (set_thread k d ds) ≡ length ds
unfolding set_thread
length-set_thread k d [] = refl
length-set_thread zero d (x ∷ ds) = refl
length-set_thread (suc k) d (x ∷ ds) = ap suc (length-set_thread k d ds)

thread_same :
    (k : ℕ) (d : Doing) (ds : List Doing) → k < length ds → thread k (set_thread k d ds) ≡ d
unfolding set_thread
thread_same k d [] h = absurd (omega arith)
thread_same zero d (x ∷ ds) h = refl
thread_same (suc k) d (x ∷ ds) h = thread_same k d ds (omega arith)

pub thread_other :
    (j k : ℕ) (d : Doing) (ds : List Doing) → j ≢ k → thread j (set_thread k d ds) ≡ thread j ds
unfolding set_thread
thread_other j k d [] h = refl
thread_other zero zero d (x ∷ ds) h = absurd (h refl)
thread_other zero (suc k) d (x ∷ ds) h = refl
thread_other (suc j) zero d (x ∷ ds) h = refl
thread_other (suc j) (suc k) d (x ∷ ds) h = thread_other j k d ds (λ e. h (ap suc e))

-- A thread that does one thing keeps doing it while another one goes on.
pub still_doing :
    (j k : ℕ) (d d' e : Doing) (ds : List Doing)
    → thread k ds ≡ d'
    → d' ≢ e
    → thread j ds ≡ e
    → thread j (set_thread k d ds) ≡ e
still_doing j k d d' e ds other differ this =
    thread_other j k d ds (λ same. differ (sym other ∙ ap (λ i. thread i ds) (sym same) ∙ this))
    ∙ this

loops≢ended : loops ≢ ended
loops≢ended e = cc

waits≢ended : waits ≢ ended
waits≢ended e = cc

module _ (answered : ℕ → Bool) where
  -- Main gets past a thread only once that has ended: at any time each thread that main has joined has
  -- left its loop, however the threads, the other machines and the signals go on; so has every thread
  -- when main is through.
  pub joined_ended :
      {s t : Program}
      → Reach answered s t
      → s.joined ≡ 0
      → (j : ℕ) → j < t.joined
      → thread j t.threads ≡ ended
  joined_ended stays start j h = absurd (omega (arith, start, h))
  joined_ended (is_signalled signum r) start j h = joined_ended r start j h
  joined_ended (comes_round k r d) start j h =
      still_doing j k _ loops ended _ d loops≢ended (joined_ended r start j h)
  joined_ended (calls k r d) start j h =
      still_doing j k waits loops ended _ d loops≢ended (joined_ended r start j h)
  joined_ended (returns k r d _) start j h =
      still_doing j k loops waits ended _ d waits≢ended (joined_ended r start j h)
  joined_ended (joins {t} r small d) start j h = elim (Bool-cases (j == t.joined)) [
    | inl same ↦ ap (λ i. thread i t.threads) ((==_iff j t.joined).0 same) ∙ d
    | inr other ↦ joined_ended r start j (ground arith)
  ]

  -- Each thread from one on that waits in a call will have its answer.
  abbrev pub AreAnswered : ℕ → List Doing → Type 0
  AreAnswered from ds = (k : ℕ) → from ≤ k → thread k ds ≡ waits → answered k ≡ true

  ahead-AreAnswered :
      (from : ℕ) (d : Doing) (ds : List Doing)
      → AreAnswered (suc from) ds
      → AreAnswered (suc from) (set_thread from d ds)
  ahead-AreAnswered from d ds all k ge wait =
      all k ge (sym (thread_other k from d ds (λ e. absurd (omega (arith, ge, e)))) ∙ wait)

  -- What is left of the program when it goes on from `t`.
  record Passes (s t : Program) (joined : ℕ) : Type 0 where
    program : Program
    reached : Reach answered s program
    requested : program.signals.shutdown_requested ≡ true
    same_length : length program.threads ≡ length t.threads
    passed : program.joined ≡ joined
    rest : AreAnswered joined program.threads

  end_looping :
      (s t : Program)
      → Reach answered s t
      → t.signals.shutdown_requested ≡ true
      → t.joined < length t.threads
      → AreAnswered (suc t.joined) t.threads
      → thread t.joined t.threads ≡ loops
      → Passes s t (suc t.joined)
  unfolding at_head
  end_looping s t r flag small all d =
      let ds = set_thread t.joined (at_head t.signals) t.threads in
      let same = length-set_thread t.joined (at_head t.signals) t.threads in
      let now : thread t.joined ds ≡ ended =
        thread_same t.joined (at_head t.signals) t.threads small ∙ rw flag refl in
      record {
        program = record t { threads = ds; joined = suc t.joined };
        reached = joins (comes_round t.joined r d) (omega (arith, small, same)) now;
        requested = flag;
        same_length = same;
        passed = refl;
        rest = ahead-AreAnswered t.joined (at_head t.signals) t.threads all;
      }

  end_current :
      (s t : Program) (d : Doing)
      → Reach answered s t
      → t.signals.shutdown_requested ≡ true
      → t.joined < length t.threads
      → AreAnswered t.joined t.threads
      → thread t.joined t.threads ≡ d
      → Passes s t (suc t.joined)
  end_current s t loops r flag small all d =
      end_looping s t r flag small (λ k ge. all k (omega (arith, ge))) d
  end_current s t waits r flag small all d =
      let ds = set_thread t.joined loops t.threads in
      let same = length-set_thread t.joined loops t.threads in
      let v =
        end_looping s (record t { threads = ds })
          (returns t.joined r d (all t.joined (omega arith) d)) flag (omega (arith, small, same))
          (ahead-AreAnswered t.joined loops t.threads (λ k ge. all k (omega (arith, ge))))
          (thread_same t.joined loops t.threads small) in
      record {
        program = v.program;
        reached = v.reached;
        requested = v.requested;
        same_length = v.same_length ∙ same;
        passed = v.passed;
        rest = v.rest;
      }
  end_current s t ended r flag small all d = record {
    program = record t { joined = suc t.joined };
    reached = joins r small d;
    requested = flag;
    same_length = refl;
    passed = refl;
    rest = λ k ge. all k (omega (arith, ge));
  }

  pass_rest :
      (left : ℕ) (s t : Program)
      → Reach answered s t
      → t.signals.shutdown_requested ≡ true
      → t.joined + left ≡ length t.threads
      → AreAnswered t.joined t.threads
      → Passes s t (length t.threads)
  pass_rest zero s t r flag count all = record {
    program = t;
    reached = r;
    requested = flag;
    same_length = refl;
    passed = omega (arith, count);
    rest = λ k ge. all k (omega (arith, ge, count));
  }
  pass_rest (suc left) s t r flag count all =
      let v = end_current s t (thread t.joined t.threads) r flag (omega (arith, count)) all refl in
      let w =
        pass_rest left s v.program v.reached v.requested
          (omega (arith, count, v.passed, v.same_length))
          (subst (λ n. AreAnswered n v.program.threads) (sym v.passed) v.rest) in
      record {
        program = w.program;
        reached = w.reached;
        requested = w.requested;
        same_length = w.same_length ∙ v.same_length;
        passed = w.passed ∙ v.same_length;
        rest = subst (λ n. AreAnswered n w.program.threads) v.same_length w.rest;
      }

  -- Wherever the threads are, a signal and further steps of them get main through the loop that joins
  -- them, if each thread that waits in a call will have its answer.
  pub signal_ends :
      (s : Program) (signum : ℕ)
      → s.joined ≤ length s.threads
      → AreAnswered s.joined s.threads
      → (t : Program) × Reach answered s t
        × IsThrough t
        × (length t.threads ≡ length s.threads)
        × (t.signals.shutdown_requested ≡ true)
  unfolding signal_handler
  signal_ends s signum low all =
      let t = record s { signals = signal_handler signum s.signals } in
      let v =
        pass_rest (length s.threads - s.joined) s t (is_signalled signum stays) refl
          (omega (arith, low)) all in
      (v.program, v.reached, v.passed ∙ sym v.same_length, v.same_length, v.requested)
