-- ===== src/FrameManager/Life.antt =====
-- What the life of an image leaves of the heap.
use ngp_encode_server.Base.{
  ℕ, suc, ◌+◌, ◌<◌, ◌≤◌, ◌≡◌, refl, ap, ◌∙◌, List, [], ◌∷◌, ◌++◌, Option, none, some, Bool, true,
  false, ◌==◌, Bool-cases, inl, inr, arith, length, length-append, if◌then◌else◌,
}
use ngp_encode_server.FrameManager.{
  Heap, alloc, free, remove, also_left, on_remove, FrameManager, construct, destroy, WrapAnswers,
  to_avframe, unwrap, on_wrapped, send, send_frames, live_through,
}

-- The blocks that a use of the wrapper leaves: the image, or what an exception abandons.
abbrev pub leaks_of : WrapAnswers → ℕ
leaks_of a = if a.frame_ok then if a.image_ok then if a.fill_ok then 1 else 2 else 1 else 0

abbrev pub leaks : List WrapAnswers → ℕ
leaks [] = 0
leaks (a ∷ rest) = leaks_of a + leaks rest

-- All from `low` on and below `high`.
abbrev pub AreBetween : ℕ → ℕ → List ℕ → Type 0
AreBetween low high [] = Unit
AreBetween low high (x ∷ xs) = (low ≤ x) × ((x < high) × AreBetween low high xs)

pub AreBetween-mono :
    (low high higher : ℕ) (xs : List ℕ)
    → high ≤ higher
    → AreBetween low high xs
    → AreBetween low higher xs
AreBetween-mono low high higher [] le h = tt
AreBetween-mono low high higher (x ∷ xs) le h =
    (h.0, (omega arith, AreBetween-mono low high higher xs le h.1.1))

remove-above :
    (b high : ℕ) (xs rest : List ℕ)
    → AreBetween (suc b) high xs
    → remove b (xs ++ b ∷ rest) ≡ some (xs ++ rest)
unfolding remove also_left
remove-above b high [] rest h = let self : (b == b) ≡ true = ground arith in rw self
remove-above b high (x ∷ xs) rest h =
    let other : (x == b) ≡ false = ground arith in rw (other, remove-above b high xs rest h.1.1)

-- The blocks that stand above `base`: they are `count`, and younger than `low`.
pub record Holds (low count : ℕ) (base : List ℕ) (h : Heap) : Type 0 where
  pub above : List ℕ
  pub shape : h.live ≡ above ++ base
  pub between : AreBetween low h.allocated above
  pub counted : length above ≡ count
  pub sound : h.bad ≡ false
  pub older : low ≤ h.allocated

pub alloc-Holds :
    (low count : ℕ) (base : List ℕ) (h : Heap)
    → Holds low count base h
    → Holds low (suc count) base (alloc h).1
unfolding alloc
alloc-Holds low count base h v = record {
  above = h.allocated ∷ v.above;
  shape = ap (◌∷◌ h.allocated) v.shape;
  between = (
    v.older,
    (
      omega arith,
      AreBetween-mono low h.allocated (suc h.allocated) v.above (omega arith) v.between,
    ),
  );
  counted = ap suc v.counted;
  sound = v.sound;
  older = omega (arith, v.older);
}

-- The AVFrame is freed from under the image.
unwrap_new :
    (pixels : Option ℕ) (h : Heap)
    → unwrap (record { frame = h.allocated; pixels = pixels }) (alloc (alloc h).1).1
      ≡ record { live = suc h.allocated ∷ h.live; allocated = suc (suc h.allocated); bad = h.bad }
unfolding unwrap free alloc on_remove remove also_left
unwrap_new pixels h =
    let other : (suc h.allocated == h.allocated) ≡ false = ground arith in
    let self : (h.allocated == h.allocated) ≡ true = ground arith in rw (other, self)

pub recount :
    {m n low : ℕ} {base : List ℕ} (h : Heap) → m ≡ n → Holds low m base h → Holds low n base h
recount h e v = record {
  above = v.above;
  shape = v.shape;
  between = v.between;
  counted = v.counted ∙ e;
  sound = v.sound;
  older = v.older;
}

sent-Holds :
    (low count : ℕ) (base : List ℕ) (h : Heap)
    → Holds low count base h
    → Holds low
        (suc count)
        base
        (record { live = suc h.allocated ∷ h.live; allocated = suc (suc h.allocated); bad = h.bad })
sent-Holds low count base h v = record {
  above = suc h.allocated ∷ v.above;
  shape = ap (◌∷◌ (suc h.allocated)) v.shape;
  between = (
    omega (arith, v.older),
    (
      omega arith,
      AreBetween-mono low h.allocated (suc (suc h.allocated)) v.above (omega arith) v.between,
    ),
  );
  counted = ap suc v.counted;
  sound = v.sound;
  older = omega (arith, v.older);
}

pub send-Holds :
    (low count : ℕ) (base : List ℕ) (a : WrapAnswers) (m : FrameManager) (h : Heap)
    → Holds low count base h
    → Holds low (leaks_of a + count) base (send a m h)
unfolding send on_wrapped to_avframe
send-Holds low count base a m h v = elim (Bool-cases a.frame_ok) [
  | inr no_frame ↦ rw no_frame (recount h (omega arith) v)
  | inl frame ↦ elim (Bool-cases a.image_ok) [
    | inr no_image ↦
        rw (frame, no_image) (recount (alloc h).1 (omega arith) (alloc-Holds low count base h v))
    | inl image ↦ elim (Bool-cases a.fill_ok) [
      | inr no_fill ↦
          rw (frame, image, no_fill)
            (recount (alloc (alloc h).1).1 (omega arith)
              (alloc-Holds low (suc count) base (alloc h).1 (alloc-Holds low count base h v)))
      | inl fill ↦
          rw (frame, image, fill, unwrap_new m.pixels h)
            (recount
              (record {
                live = suc h.allocated ∷ h.live;
                allocated = suc (suc h.allocated);
                bad = h.bad;
              })
              (omega arith) (sent-Holds low count base h v))
    ]
  ]
]

send_frames-Holds :
    (low count : ℕ) (base : List ℕ) (answers : List WrapAnswers) (m : FrameManager) (h : Heap)
    → Holds low count base h
    → Holds low (leaks answers + count) base (send_frames answers m h)
unfolding send_frames
send_frames-Holds low count base [] m h v = recount h (omega arith) v
send_frames-Holds low count base (a ∷ rest) m h v =
    recount (send_frames rest m (send a m h)) (omega arith) (
      send_frames-Holds low (leaks_of a + count) base rest m (send a m h)
        (send-Holds low count base a m h v))

-- Freeing the youngest block of `base`.
pub free-Holds :
    (b count : ℕ) (rest : List ℕ) (h : Heap)
    → Holds (suc b) count (b ∷ rest) h
    → Holds (suc b) count rest (free (some b) h)
unfolding free on_remove
free-Holds b count rest h v =
    let found : remove b h.live ≡ some (v.above ++ rest) =
      ap (remove b) v.shape ∙ remove-above b h.allocated v.above rest v.between in
    rw found (record {
      above = v.above;
      shape = refl;
      between = v.between;
      counted = v.counted;
      sound = v.sound;
      older = v.older;
    })

-- A manager that allocated its own buffer frees it once and frees no block that is not allocated,
-- however often its image is wrapped and whatever fails in it; but each wrapper that is made leaves
-- one block behind, the image that it allocated, and one that fails leaves what it had allocated.
pub life_leaks :
    (answers : List WrapAnswers) (h : Heap)
    → h.bad ≡ false
    → let h' = live_through true none answers h in
      (h'.bad ≡ false) × (length h'.live ≡ leaks answers + length h.live)
unfolding live_through construct alloc destroy
life_leaks answers h sound =
    let b = h.allocated in
    let m : FrameManager = record { pixels = some b; should_free_buffer = true } in
    let h1 = (alloc h).1 in
    let v : Holds (suc b) 0 (b ∷ h.live) h1 = record {
      above = [];
      shape = refl;
      between = tt;
      counted = refl;
      sound = sound;
      older = omega arith;
    } in
    let w = free-Holds b (leaks answers) h.live (send_frames answers m h1) (
      recount (send_frames answers m h1) (omega arith)
        (send_frames-Holds (suc b) 0 (b ∷ h.live) answers m h1 v)) in
    (
      w.sound,
      ap length w.shape ∙ length-append w.above h.live ∙ ap (λ n. n + length h.live) w.counted,
    )

-- A manager of a buffer that it was given, as for the images of an answer, never frees that buffer:
-- every block that was allocated before is so still, under what the wrappers leave behind.
pub life_keeps_buffer :
    (image_ok : Bool) (buffer : ℕ) (answers : List WrapAnswers) (h : Heap)
    → h.bad ≡ false
    → let h' = live_through image_ok (some buffer) answers h in
      (h'.bad ≡ false)
      × ((above : List ℕ) × ((h'.live ≡ above ++ h.live) × (length above ≡ leaks answers)))
unfolding live_through construct destroy
life_keeps_buffer image_ok buffer answers h sound =
    let m : FrameManager = record { pixels = some buffer; should_free_buffer = false } in
    let start : Holds 0 0 h.live h = record {
      above = [];
      shape = refl;
      between = tt;
      counted = refl;
      sound = sound;
      older = omega arith;
    } in
    let v = send_frames-Holds 0 0 h.live answers m h start in
    (v.sound, (v.above, (v.shape, omega (arith, v.counted))))
