-- ===== src/Requests.antt =====
-- How the threads that serve the renderers (socket_client_thread in src/server.cpp) draw the side and
-- the index of a frame request from the three atomic counters that they share. Threads differ only in
-- where they stand, so the model counts them at each place; every atomic operation is one step.
pub mod Indices
pub mod Balance
mod Tests
use Prim.Native.Nat.{bit_xor}
use ngp_encode_server.Base.{
  ℕ, ◌+◌, ◌-◌, ◌%◌, ◌^◌, ◌<◌, ◌≡◌, List, [], ◌∷◌, Bool, true, false, not, ◌==◌, if◌then◌else◌,
}

-- The std::atomic variables of main: is_left (int), frame_index_left and frame_index_right (uint64).
pub record Counters : Type 0 where
  pub is_left : ℕ
  pub frame_index_left : ℕ
  pub frame_index_right : ℕ

abbrev pub zeros : Counters
zeros = record { is_left = 0; frame_index_left = 0; frame_index_right = 0 }

-- `bool is_left_val = is_left.fetch_xor(true)`
unfoldable pub fetch_side : Counters → Bool × Counters
fetch_side c = (not (c.is_left == 0), record c { is_left = bit_xor c.is_left 1 })

-- `frame_index_left.fetch_add(1)` or `frame_index_right.fetch_add(1)`
unfoldable pub fetch_index : Bool → Counters → ℕ × Counters
fetch_index true c =
    (c.frame_index_left, record c { frame_index_left = (c.frame_index_left + 1) % 2 ^ 64 })
fetch_index false c =
    (c.frame_index_right, record c { frame_index_right = (c.frame_index_right + 1) % 2 ^ 64 })

-- The threads: at the head of the loop, with a side but no index yet, and busy with a request.
-- `issued` holds the requests drawn so far, side and index, the last first.
pub record System : Type 0 where
  pub counters : Counters
  pub at_head : ℕ
  pub holding_left : ℕ
  pub holding_right : ℕ
  pub busy : ℕ
  pub issued : List (Bool × ℕ)

abbrev pub init : ℕ → System
init threads = record {
  counters = zeros;
  at_head = threads;
  holding_left = 0;
  holding_right = 0;
  busy = 0;
  issued = [];
}

abbrev pub held : Bool → System → System
held true s = record s { holding_left = s.holding_left + 1 }
held false s = record s { holding_right = s.holding_right + 1 }

-- A thread takes a side.
pub take_side : System → System
take_side s =
    held (fetch_side s.counters).0
      (record s { counters = (fetch_side s.counters).1; at_head = s.at_head - 1 })

abbrev pub let_go : Bool → System → System
let_go true s = record s { holding_left = s.holding_left - 1 }
let_go false s = record s { holding_right = s.holding_right - 1 }

-- A thread that holds a side takes the next index of it.
pub take_index : Bool → System → System
take_index side s = let_go side (record s {
  counters = (fetch_index side s.counters).1;
  busy = s.busy + 1;
  issued = (side, (fetch_index side s.counters).0) ∷ s.issued;
})

abbrev pub holding : Bool → System → ℕ
holding true s = s.holding_left
holding false s = s.holding_right

pub data Step (s : System) : System → Type 0 where
  takes_side : 0 < s.at_head → Step s (take_side s)
  takes_index : (side : Bool) → 0 < holding side s → Step s (take_index side s)
  finishes : 0 < s.busy → Step s (record s { busy = s.busy - 1; at_head = s.at_head + 1 })

pub data Reach (threads : ℕ) : System → Type 0 where
  start : Reach threads (init threads)
  later : {s t : System} → Reach threads s → Step s t → Reach threads t
