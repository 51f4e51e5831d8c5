-- ===== src/Encode/Pipeline/Drops/Tests.antt =====
-- The map is full of the frames 1 to 100 and the sender waits for frame 0.
use ngp_encode_server.Base.{ℕ, zero, suc, ◌+◌, ◌%◌, ◌^◌, ◌<◌, ◌≡◌, refl, [], ◌∷◌, none, arith}
use ngp_encode_server.OrderedMap.{Entries, IsAbove}
use ngp_encode_server.OrderedMap.Order.{lookup_below}
use ngp_encode_server.FrameMap.{IsValid}
use ngp_encode_server.FrameMap.View.{view}
use ngp_encode_server.RenderedFrame.{RenderedFrame}
use ngp_encode_server.Encode.{Eye, next, process_round, send_round}
use ngp_encode_server.Encode.Pipeline.Drops.{full_map_drops}
use ngp_encode_server.Encode.Tests.{frame, marks, works, refuses, waiting}

abbrev from_on : ℕ → ℕ → Entries (RenderedFrame ℕ)
from_on k zero = []
from_on k (suc n) = (k, frame k) ∷ from_on (suc k) n

from_on-IsAbove : (j k n : ℕ) → j < k → IsAbove j (from_on k n)
from_on-IsAbove j k zero h = tt
from_on-IsAbove j k (suc n) h = (h, from_on-IsAbove k (suc k) n (omega arith))

abbrev full : Eye ℕ
full = record (waiting (frame 0 ∷ [])) { encode_queue = record { entries = from_on 1 100 } }

full-IsValid : IsValid full.encode_queue
full-IsValid = record { sorted = from_on-IsAbove 1 2 99 (omega arith); bounded = omega arith }

no_first : view full.encode_queue 0 ≡ none
unfolding view
no_first = lookup_below 0 0 (from_on 1 100) (from_on-IsAbove 0 1 100 (omega arith)) (omega arith)

full_map_drops_example :
    let (end1, e1) = process_round marks works full in
    let (end2, e2) = send_round refuses e1 in
    (end1 ≡ next)
    × (e1.frame_queue.queue ≡ [])
    × ((j : ℕ) → view e1.encode_queue j ≡ view full.encode_queue j)
    × (end2 ≡ next)
    × (e2.frame_index ≡ (0 + 1) % 2 ^ 64)
    × (e2.to_scene ≡ [])
    × (e2.to_depth ≡ [])
full_map_drops_example =
    full_map_drops marks works refuses (frame 0) [] full refl refl refl refl refl full-IsValid refl
      no_first
