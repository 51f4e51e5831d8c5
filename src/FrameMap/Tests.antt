-- ===== src/FrameMap/Tests.antt =====
-- Runs of the frame map.
use mathlib.Core.Option.{get_or}
use ngp_encode_server.Base.{
  ℕ, ◌≡◌, refl, List, [], ◌∷◌, none, some, arith, ◌==◌, ◌&&◌, map, if◌then◌else◌,
}
use ngp_encode_server.Base.Exceptions.{ok, throws, lock_timeout}
use ngp_encode_server.OrderedMap.{lookup}
use ngp_encode_server.FrameMap.{FrameMap, max_size, insert, get_delete, IsValid}
use ngp_encode_server.FrameMap.View.{
  view, or_timeout, is_some, has_room, takes_out, insert-view, get_delete-view,
}
use ngp_encode_server.FrameMap.Stale.{Call, inserts, gets, run, late_frames, empty, late_frames_jam}

abbrev frames : FrameMap ℕ
frames = record { entries = (999, 1) ∷ (1000, 2) ∷ (1001, 3) ∷ [] }

frames-IsValid : IsValid frames
frames-IsValid = omega arith

insert-view_example :
    IsValid (insert 1000 9 frames).0
    × ((insert 1000 9 frames).1 ≡ (if has_room frames then ok tt else throws lock_timeout))
    × ((j : ℕ)
        → view (insert 1000 9 frames).0 j ≡ (
            if has_room frames && (1000 == j)
            then some (get_or (view frames 1000) 9)
            else view frames j))
insert-view_example = insert-view 1000 9 frames frames-IsValid

get_delete-view_example :
    IsValid (get_delete 1000 frames).0
    × ((get_delete 1000 frames).1 ≡ or_timeout (view frames 1000))
    × ((j : ℕ)
        → view (get_delete 1000 frames).0 j
          ≡ (if is_some (view frames 1000) && takes_out 1000 j then none else view frames j))
get_delete-view_example = get_delete-view 1000 frames frames-IsValid

view_new : view frames 5 ≡ none
unfolding view lookup
view_new = refl

abbrev later_calls : List (Call ℕ)
later_calls = inserts 100 7 ∷ gets 100 ∷ gets 101 ∷ inserts 101 7 ∷ []

late_frames_jam_example :
    let m = (run empty (late_frames (λ k. k) max_size 0)).0 in
    run m later_calls ≡ (m, map (λ _. throws lock_timeout) later_calls)
late_frames_jam_example = late_frames_jam (λ k. k) later_calls (omega arith)
