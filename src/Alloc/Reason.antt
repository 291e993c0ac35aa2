-- ===== src/Alloc/Reason.antt =====
-- Why an entry is refused (src/map.rs): the arena refuses an allocation, or a size is too large.
use skl_rs.Prelude.{ℕ, ◌≤◌, ◌≡◌, Option, length, err}
use skl_rs.Alloc.Made.{value_size}
use skl_rs.Capacity.{Error}
use skl_rs.Capacity.Bounds.{Checked, stored_size}
use skl_rs.Comparator.{Bytes}
use skl_rs.Map.{SkipMap}
use skl_rs.Node.Arena.{Arena, refused}

-- The arena answers an allocation with the error.
pub data IsRefusal (ar : Arena) (e : ar.Error) : Type 0 where
  of_aligned_bytes :
      (size align extra : ℕ) (s : ar.State)
      → ar.alloc_aligned_bytes size align extra s ≡ refused e
      → IsRefusal ar e
  of_bytes : (size : ℕ) (s : ar.State) → ar.alloc_bytes size s ≡ refused e → IsRefusal ar e
  of_value : (size align : ℕ) (s : ar.State) → ar.alloc size align s ≡ refused e → IsRefusal ar e

module _ {ar : Arena} {T : Type 0} (m : SkipMap ar T) (key : Bytes) (v : Option Bytes) where
  pub data IsReason : Error ar.Error → Type 0 where
    full : (e : ar.Error) → IsRefusal ar e → IsReason (Error.arena e)
    too_large :
        (height : ℕ) (e : Error ar.Error)
        → 1 ≤ height
        → height ≤ m.opts.max_height
        → Checked m height (length key) (stored_size (value_size v)) (err e)
        → IsReason e
