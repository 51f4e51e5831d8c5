-- ===== src/Base/Exceptions.antt =====
-- C++ exceptions as values. A method that may throw returns its object beside a `Result`, since an
-- exception leaves behind what was written before it.
pub data Exception : Type 0 where
  lock_timeout runtime_error bad_alloc invalid_argument out_of_range websocket_error : Exception

pub data Result {ℓ} (A : Type ℓ) : Type ℓ where
  ok : A → Result A
  throws : Exception → Result A
