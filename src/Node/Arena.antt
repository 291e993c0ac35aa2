-- ===== src/Node/Arena.antt =====
-- What the map uses of the crate rarena-allocator, which is not in this repository: the allocator's
-- state, its types of errors and of free lists, and its operations.
use skl_rs.Prelude.{ℕ, Bool, Result}

-- The result of an allocation: an error, or a block with its offset and capacity.
pub data Allocation (State Error : Type 0) : Type 0 where
  refused : Error → Allocation State Error
  block : (offset capacity : ℕ) → State → Allocation State Error

pub record Arena : Type 1 where
  pub State : Type 0
  pub Error : Type 0
  pub Freelist : Type 0
  pub read_only_error : Error
  pub read_only : State → Bool
  pub capacity : State → ℕ
  pub data_offset : State → ℕ
  -- The offset of the first `align`ed address from an offset on.
  pub get_aligned_pointer : (align offset : ℕ) → ℕ
  -- A block for a value of a size and an alignment, with extra bytes behind it.
  pub alloc_aligned_bytes : (size align extra : ℕ) → State → Allocation State Error
  pub alloc_bytes : (size : ℕ) → State → Allocation State Error
  -- A value of a size and an alignment (`Arena::alloc`).
  pub alloc : (size align : ℕ) → State → Allocation State Error
  -- A block that goes out of scope before it is detached.
  pub release : (offset capacity : ℕ) → State → State
  pub allocated : State → ℕ
  pub remaining : State → ℕ
  pub refs : State → ℕ
  pub discarded : State → ℕ
  pub magic_version : State → ℕ
  pub clear : State → Result (Unit {0}) Error × State
  pub dealloc : (offset size : ℕ) → State → Bool × State
  -- What is left of the bytes of blocks that were given back: the arena may write there.
  pub leftover : State → ℕ → ℕ
  pub increase_discarded : ℕ → State → State
