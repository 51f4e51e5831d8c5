-- ===== src/Main/Joining/Blocked.antt =====
-- Which waiting threads keep the program from ending.
use ngp_encode_server.Base.{
  ℕ, zero, suc, ◌≤◌, ◌≡◌, ◌≢◌, refl, sym, ap, ◌∙◌, List, [], ◌∷◌, Bool, true, false, ◌==◌, ==_iff,
  Bool-cases, inl, inr, ◌↔◌, arith, length,
}
use ngp_encode_server.Main.Joining.{
  Doing, loops, waits, ended, Program, thread, Reach, stays, is_signalled, comes_round, calls,
  returns, joins, IsThrough,
}
use ngp_encode_server.Main.Joining.Ends.{thread_other, still_doing, AreAnswered, signal_ends}

loops≢waits : loops ≢ waits
loops≢waits e = cc

ended≢waits : ended ≢ waits
ended≢waits e = cc

thread_beyond : (k : ℕ) (ds : List Doing) → length ds ≤ k → thread k ds ≡ ended
thread_beyond k [] h = refl
thread_beyond zero (d ∷ ds) h = absurd (omega arith)
thread_beyond (suc k) (d ∷ ds) h = thread_beyond k ds (omega arith)

module _ (answered : ℕ → Bool) where
  -- A renderer that stays silent keeps the program from ending: while a thread waits in a call that no
  -- machine answers, main does not get past it, whatever the other threads do and whatever signals come.
  pub silent_blocks :
      {s t : Program} (k : ℕ)
      → Reach answered s t
      → thread k s.threads ≡ waits
      → answered k ≡ false
      → s.joined ≤ k
      → (thread k t.threads ≡ waits) × (t.joined ≤ k)
  silent_blocks k stays here silent low = (here, low)
  silent_blocks k (is_signalled signum r) here silent low = silent_blocks k r here silent low
  silent_blocks k (comes_round i r d) here silent low =
      let (still, low') = silent_blocks k r here silent low in
      (still_doing k i _ loops waits _ d loops≢waits still, low')
  silent_blocks k (calls i r d) here silent low =
      let (still, low') = silent_blocks k r here silent low in
      (still_doing k i waits loops waits _ d loops≢waits still, low')
  silent_blocks k (returns {t} i r d comes) here silent low =
      let (still, low') = silent_blocks k r here silent low in
      (
        thread_other k i loops t.threads
              (λ same. let both : answered k ≡ true = ap answered same ∙ comes in ground arith)
            ∙ still,
        low',
      )
  silent_blocks k (joins {t} r small d) here silent low =
      let (still, low') = silent_blocks k r here silent low in
      (
        still,
        elim (Bool-cases (t.joined == k)) [
          | inl same ↦ absurd (
              ended≢waits
                (sym d ∙ ap (λ i. thread i t.threads) ((==_iff t.joined k).0 same) ∙ still))
          | inr other ↦ ground arith
        ],
      )

  -- Main can get through the loop that joins its threads, by some steps of the threads, the other
  -- machines and signals, exactly if each of the threads it has not joined yet that waits in a call of
  -- another machine, as for the answer of a renderer, will have its answer.
  pub ends_exactly :
      (s : Program)
      → s.joined ≤ length s.threads
      → ((t : Program) × Reach answered s t × IsThrough t) ↔ AreAnswered answered s.joined s.threads
  ends_exactly s low = (
    (λ v.
        let (t, reach, through) = v in
        λ k ge wait. elim (Bool-cases (answered k)) [
          | inl answers ↦ answers
          | inr silent ↦
              let (still, behind) = silent_blocks k reach wait silent ge in
              absurd (
                ended≢waits
                  (sym (thread_beyond k t.threads (omega (arith, behind, through))) ∙ still))
        ]),
    (λ all.
        let (t, reach, through, _, _) = signal_ends answered s 2 low all in (t, reach, through)),
  )
