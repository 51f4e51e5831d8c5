-- ===== src/FrameMap.antt =====
-- src/base/video/frame_map.cc and include/base/video/frame_map.h: the bounded map of converted
-- frames between the frame processor and the encoder. As for the queue, a call is one atomic step
-- on the state in which its `wait_for` returns. Keys are uint64_t and are only compared.
pub mod View
pub mod Each
pub mod Stale
mod Tests
use ngp_encode_server.Base.{ℕ, ◌≤◌, ◌%◌, Option, none, some, ltb, ◌==◌, if◌then◌else◌, length}
use ngp_encode_server.Base.Exceptions.{Result, ok, throws, lock_timeout}
use ngp_encode_server.OrderedMap.{Entries, IsSorted, lookup, erase, erase_if}
use ngp_encode_server.OrderedMap

-- kFrameMapMaxSize
abbrev pub max_size : ℕ
max_size = 100

-- kFrameMapDropFramesInterval
abbrev pub drop_frames_interval : ℕ
drop_frames_interval = 1000

pub record FrameMap {ℓ} (A : Type ℓ) : Type ℓ where
  pub entries : Entries A

module _ {ℓ} {A : Type ℓ} where
  -- FrameMap::insert
  pub insert : ℕ → A → FrameMap A → FrameMap A × Result (Unit {0})
  insert index item m =
      if ltb (length m.entries) max_size
      then (record { entries = OrderedMap.insert index item m.entries }, ok tt)
      else (m, throws lock_timeout)

  -- The cleanup in FrameMap::get_delete.
  pub drop_older : ℕ → Entries A → Entries A
  drop_older index m =
      if index % drop_frames_interval == 0 then erase_if (λ key. ltb key index) m else m

  -- FrameMap::get_delete
  pub get_delete : ℕ → FrameMap A → FrameMap A × Result A
  get_delete index m = elim (lookup index m.entries) [
    | none ↦ (m, throws lock_timeout)
    | some elem ↦ (record { entries = drop_older index (erase index m.entries) }, ok elem)
  ]

  -- The invariant of the class.
  pub record IsValid (m : FrameMap A) : Type 0 where
    pub sorted : IsSorted m.entries
    pub bounded : length m.entries ≤ max_size
