-- ===== src/Codec/Lifetime.antt =====
-- Who frees which context.
use ngp_encode_server.Base.{
  countdown, ℕ, suc, ◌≡◌, inl, inr, refl, ap, List, [], ◌∷◌, none, some, true, arith, if◌then◌else◌,
  Bool-cases,
}
use ngp_encode_server.Base.Int.{pos, ltb_ℤ}
use ngp_encode_server.Base.Exceptions.{ok, throws, runtime_error}
use ngp_encode_server.Codec.{
  CodecInitInfo, Answers, CodecManager, free_context, start_codec, codec_ctx_init, unopened,
  construct, change_resolution, destroy,
}

-- Every context that was allocated is either the one in m_ctx, the newest, or has been freed, once
-- and in turn.
pub data IsTidy (m : CodecManager) : Type 0 where
  holds : (n : ℕ) → m.ctx ≡ some n → m.allocated ≡ suc n → m.freed ≡ countdown n → IsTidy m
  holds_none : (n : ℕ) → m.ctx ≡ none → m.allocated ≡ n → m.freed ≡ countdown n → IsTidy m

-- All that a manager owns has been freed.
abbrev pub IsReleased : CodecManager → Type 0
IsReleased m = (m.ctx ≡ none) × (m.freed ≡ countdown m.allocated)

free_context-IsReleased : (m : CodecManager) → IsTidy m → IsReleased (free_context m)
unfolding free_context
free_context-IsReleased m (holds n c a f) = rw (c, a, f) (refl, refl)
free_context-IsReleased m (holds_none n c a f) = rw (c, a, f) (refl, refl)

free_context_opened : (m : CodecManager) → m.opened ≡ true → (free_context m).opened ≡ true
unfolding free_context
free_context_opened m h = ground arith

-- What the methods of a constructed manager keep.
record IsManaged (m : CodecManager) : Type 0 where
  opened : m.opened ≡ true
  tidy : IsTidy m

IsReleased-IsTidy : (m : CodecManager) → IsReleased m → IsTidy m
IsReleased-IsTidy m r = holds_none m.allocated r.0 refl r.1

start_codec-IsTidy : (a : Answers) (m : CodecManager) → IsReleased m → IsTidy (start_codec a m).0
unfolding start_codec
start_codec-IsTidy a m r = elim (Bool-cases a.finds) [
  | inl found ↦ elim (Bool-cases a.allocates) [
    | inl allocated ↦ elim (Bool-cases (ltb_ℤ a.open_ret (pos 0))) [
      | inl bad ↦ rw (found, allocated, bad) (holds m.allocated refl (omega arith) r.1)
      | inr good ↦ rw (found, allocated, good) (holds m.allocated refl (omega arith) r.1)
    ]
    | inr lacking ↦ rw (found, lacking) (holds_none m.allocated refl refl r.1)
  ]
  | inr missing ↦ rw missing (IsReleased-IsTidy m r)
]

start_codec_opened :
    (a : Answers) (m : CodecManager) → m.opened ≡ true → (start_codec a m).0.opened ≡ true
unfolding start_codec
start_codec_opened a m h = ground arith

init_opened :
    (a : Answers) (m : CodecManager)
    → m.opened ≡ true
    → codec_ctx_init a m ≡ start_codec a (free_context m)
unfolding codec_ctx_init
init_opened a m h = ap (λ b. start_codec a (if b then free_context m else m)) h

-- codec_ctx_init on an opened manager frees its context first, so that it holds one at most.
init-IsManaged : (a : Answers) (m : CodecManager) → IsManaged m → IsManaged (codec_ctx_init a m).0
init-IsManaged a m v = rw (init_opened a m v.opened) (record {
  opened = start_codec_opened a (free_context m) (free_context_opened m v.opened);
  tidy = start_codec-IsTidy a (free_context m) (free_context-IsReleased m v.tidy);
})

change_resolution-IsManaged :
    (w h : ℕ) (a : Answers) (m : CodecManager)
    → IsManaged m
    → IsManaged (change_resolution w h a m).0
unfolding change_resolution
change_resolution-IsManaged w h a m v =
    init-IsManaged a _ (record { opened = v.opened; tidy = same v.tidy })
  where
    same : IsTidy m → IsTidy (record m { info = record (m.info) { width = w; height = h } })
    same (holds n c e f) = holds n c e f
    same (holds_none n c e f) = holds_none n c e f

-- Changes of resolution, each with what libavcodec answers; a change may throw.
pub run_changes : List (ℕ × ℕ × Answers) → CodecManager → CodecManager
run_changes [] m = m
run_changes ((w, h, a) ∷ cs) m = run_changes cs (change_resolution w h a m).0

run_changes-IsManaged :
    (cs : List (ℕ × ℕ × Answers)) (m : CodecManager) → IsManaged m → IsManaged (run_changes cs m)
unfolding run_changes
run_changes-IsManaged [] m v = v
run_changes-IsManaged ((w, h, a) ∷ cs) m v =
    run_changes-IsManaged cs (change_resolution w h a m).0 (change_resolution-IsManaged w h a m v)

construct-IsManaged :
    (a : Answers) (info : CodecInitInfo)
    → (construct a info).1 ≡ ok tt
    → IsManaged (construct a info).0
unfolding construct codec_ctx_init start_codec
construct-IsManaged a info h = record {
  opened = ground arith;
  tidy = start_codec-IsTidy a (unopened info) (refl, refl);
}

-- A manager that was constructed frees every context it ever allocates, each exactly once: after any
-- changes of resolution, also ones that throw, and the destructor, m_ctx is null and the contexts
-- were freed in the order in which they were allocated.
pub destroy-IsReleased :
    (a : Answers) (info : CodecInitInfo) (cs : List (ℕ × ℕ × Answers))
    → (construct a info).1 ≡ ok tt
    → IsReleased (destroy (run_changes cs (construct a info).0))
unfolding destroy
destroy-IsReleased a info cs h =
    free_context-IsReleased _ (run_changes-IsManaged cs _ (construct-IsManaged a info h)).tidy

-- The constructor itself leaks: if avcodec_open2 refuses, the context that was allocated for it is
-- never freed, since the object whose destructor would do it does not come into being.
pub construct_open_refused :
    (a : Answers) (info : CodecInitInfo)
    → a.finds ≡ true
    → a.allocates ≡ true
    → ltb_ℤ a.open_ret (pos 0) ≡ true
    → ((construct a info).1 ≡ throws runtime_error)
      × ((construct a info).0.allocated ≡ 1)
      × ((construct a info).0.freed ≡ [])
unfolding construct codec_ctx_init start_codec
construct_open_refused a info found allocated refused = ground arith
