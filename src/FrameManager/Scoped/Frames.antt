-- ===== src/FrameManager/Scoped/Frames.antt =====
-- What whole frames leave of the heap.
use ngp_encode_server.Base.{
  ℕ, suc, ◌+◌, ◌≤◌, ◌≡◌, refl, ap, sym, ◌∙◌, List, [], ◌∷◌, ◌++◌, Option, none, some, Bool, true,
  false, ◌&&◌, if◌then◌else◌, Bool-cases, inl, inr, arith, length, length-append, append_assoc,
}
use ngp_encode_server.Base.Exceptions.{Result, ok, throws, runtime_error}
use ngp_encode_server.FrameManager.{Heap, alloc, free, FrameManager, construct, destroy, send}
use ngp_encode_server.FrameManager.Life.{
  Holds, AreBetween, AreBetween-mono, free-Holds, recount, send-Holds, leaks_of,
}
use ngp_encode_server.FrameManager.Scoped.{
  scoped, nothing_more, convert, packet_round, with_manager, FrameAnswers, works, send_both,
  use_frame, frame_life,
}

-- It leaves n blocks more, younger than all that were there.
abbrev pub Adds : ℕ → (Heap → Heap) → Type 0
Adds n f =
    (low count : ℕ) (base : List ℕ) (h : Heap)
    → Holds low count base h
    → Holds low (n + count) base (f h)

AreBetween-append :
    (low mid high : ℕ) (xs ys : List ℕ)
    → low ≤ mid
    → mid ≤ high
    → AreBetween mid high xs
    → AreBetween low mid ys
    → AreBetween low high (xs ++ ys)
AreBetween-append low mid high [] ys p q v w = AreBetween-mono low mid high ys q w
AreBetween-append low mid high (x ∷ xs) ys p q (a, (b, v)) w =
    (omega arith, (b, AreBetween-append low mid high xs ys p q v w))

-- A block that is allocated before and freed behind does not count.
around :
    (n : ℕ) (f : Heap → Heap) → Adds n f → Adds n (λ h. free (some h.allocated) (f (alloc h).1))
unfolding alloc
around n f adds low count base h v =
    let b = h.allocated in
    let w = free-Holds b (n + 0) h.live (f (alloc h).1) (
      adds (suc b) 0 (b ∷ h.live) (alloc h).1 (record {
        above = [];
        shape = refl;
        between = tt;
        counted = refl;
        sound = v.sound;
        older = omega arith;
      })) in
    let p = v.older in
    let q = w.older in
    record {
      above = w.above ++ v.above;
      shape = w.shape ∙ ap (λ xs. w.above ++ xs) v.shape ∙ sym (append_assoc w.above v.above base);
      between =
          AreBetween-append low (suc b) _ w.above v.above (omega arith) q w.between
            (AreBetween-mono low b (suc b) v.above (omega arith) v.between);
      counted = length-append w.above v.above ∙ omega (arith, w.counted, v.counted);
      sound = w.sound;
      older = omega arith;
    }

Adds-with_manager :
    (n : ℕ) (image_ok : Bool) (buffer : Option ℕ) (body : FrameManager → Heap → Heap)
    → ((m : FrameManager) → Adds n (body m))
    → Adds n (with_manager image_ok buffer body)
unfolding with_manager construct destroy
Adds-with_manager n image_ok (some b) body adds low count base h v = adds _ low count base h v
Adds-with_manager n true none body adds low count base h v =
    around n (body (record { pixels = some h.allocated; should_free_buffer = true })) (adds _) low
      count base h v
Adds-with_manager n false none body adds low count base h v =
    adds (record { pixels = none; should_free_buffer = true }) low count base h v

scoped-result :
    (allocates : Bool) (body : Heap → Heap × Result (Unit {0})) (h : Heap)
    → (scoped allocates body h).1
      ≡ (if allocates then (body (alloc h).1).1 else throws runtime_error)
unfolding scoped
scoped-result true body h = refl
scoped-result false body h = refl

Adds-scoped :
    (allocates : Bool) (body : Heap → Heap × Result (Unit {0}))
    → Adds 0 (λ h. (body h).0)
    → Adds 0 (λ h. (scoped allocates body h).0)
unfolding scoped alloc
Adds-scoped true body adds low count base h v = around 0 (λ h. (body h).0) adds low count base h v
Adds-scoped false body adds low count base h v = recount h (omega arith) v

-- The conversion leaves the heap as it was, whatever fails in it.
pub Adds-convert :
    (scene_context depth_context : Bool) → Adds 0 (λ h. (convert scene_context depth_context h).0)
unfolding convert
Adds-convert scene_context depth_context =
    Adds-scoped scene_context (scoped depth_context nothing_more)
      (Adds-scoped depth_context nothing_more λ low count base h v. recount h (omega arith) v)

-- So does a round with its packet, whether it is had or not.
pub Adds-packet_round : (allocates : Bool) → Adds 0 (λ h. (packet_round allocates h).0)
unfolding packet_round
Adds-packet_round allocates =
    Adds-scoped allocates nothing_more λ low count base h v. recount h (omega arith) v

convert-result :
    (scene_context depth_context : Bool) (h : Heap)
    → (convert scene_context depth_context h).1
      ≡ (if scene_context && depth_context then ok tt else throws runtime_error)
unfolding convert
convert-result true true h = scoped-result true _ h ∙ scoped-result true nothing_more (alloc h).1
convert-result true false h = scoped-result true _ h ∙ scoped-result false nothing_more (alloc h).1
convert-result false depth_context h = scoped-result false _ h

-- The blocks that a frame leaves, by what fails in its life.
abbrev pub leaks_of_frame : FrameAnswers → ℕ
leaks_of_frame a =
    if a.scene_context && a.depth_context
    then leaks_of a.scene_wrap + (if works a.scene_wrap then leaks_of a.depth_wrap else 0)
    else 0

Adds-use_frame :
    (a : FrameAnswers) (scene depth : FrameManager)
    → Adds (leaks_of_frame a) (use_frame a scene depth)
unfolding use_frame send_both
Adds-use_frame a scene depth low count base h v =
    let result = convert-result a.scene_context a.depth_context h in
    let h' = (convert a.scene_context a.depth_context h).0 in
    let w : Holds low count base h' =
      recount h' (omega arith) (Adds-convert a.scene_context a.depth_context low count base h v) in
    let sent : Holds low (leaks_of a.scene_wrap + count) base (send a.scene_wrap scene h') =
      send-Holds low count base a.scene_wrap scene h' w in
    elim (Bool-cases (a.scene_context && a.depth_context)) [
      | inr off ↦ rw (result, off) (recount h' (omega arith) w)
      | inl on ↦ elim (Bool-cases (works a.scene_wrap)) [
        | inr fails ↦
            rw (result, on, fails) (recount (send a.scene_wrap scene h') (omega arith) sent)
        | inl made ↦
            rw (result, on, made)
              (recount _ (omega arith) (
                send-Holds low (leaks_of a.scene_wrap + count) base a.depth_wrap depth
                  (send a.scene_wrap scene h') sent))
      ]
    ]

-- A frame, from its constructor over its conversion and its way to the encoders to its destructor,
-- frees its own two images and the contexts of its conversion once each, never touches the buffers of
-- the answer, and frees nothing that is not allocated, whatever fails; what it leaves behind is one
-- block for each wrapper that was made, and what a wrapper had allocated that failed.
pub frame_life_leaks :
    (a : FrameAnswers) (frame depth : ℕ) (h : Heap)
    → h.bad ≡ false
    → let h' = frame_life a frame depth h in
      (h'.bad ≡ false)
      × ((above : List ℕ) × ((h'.live ≡ above ++ h.live) × (length above ≡ leaks_of_frame a)))
unfolding frame_life
frame_life_leaks a frame depth h sound =
    let n = leaks_of_frame a in
    let v =
      Adds-with_manager n true (some frame) _
        (λ _. Adds-with_manager n a.scene_image none _ λ scene.
          Adds-with_manager n true (some depth) _ λ _.
            Adds-with_manager n a.depth_image none _
              λ converted_depth. Adds-use_frame a scene converted_depth)
        0 0 h.live h
        (record {
          above = [];
          shape = refl;
          between = tt;
          counted = refl;
          sound = sound;
          older = omega arith;
        }) in
    (v.sound, (v.above, (v.shape, omega (arith, v.counted))))
