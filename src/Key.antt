-- ===== src/Key.antt =====
-- The key of an operation (`Key` of src/types.rs): bytes of the caller, a buffer that the caller has
-- filled, or a part of the arena; each to insert, or to remove.
use skl_rs.Prelude.{ℕ, Bool, true, false, Run, done}
use skl_rs.Buffer
use skl_rs.Buffer.{VacantBuffer}
use skl_rs.Codec.{u32}
use skl_rs.Comparator.{Bytes}
use skl_rs.Map.{SkipMap}
use skl_rs.Node.{get_bytes}
use skl_rs.Node.Arena.{Arena}

pub data Key : Type 0 where
  occupied : Bytes → Key
  vacant : VacantBuffer → Key
  pointer : (offset len : ℕ) → Key
  remove : Bytes → Key
  remove_vacant : VacantBuffer → Key
  remove_pointer : (offset len : ℕ) → Key

unfoldable pub is_remove : Key → Bool
is_remove (remove _) = true
is_remove (remove_vacant _) = true
is_remove (remove_pointer _ _) = true
is_remove (occupied _) = false
is_remove (vacant _) = false
is_remove (pointer _ _) = false

module _ {ar : Arena} {T : Type 0} (m : SkipMap ar T) where
  -- `Arena::dealloc`, its result ignored.
  unfoldable pub dealloc : (offset size : ℕ) → SkipMap ar T
  dealloc offset size = record m { arena = (ar.dealloc offset size m.arena).1 }

  -- A buffer whose entry was not made is given back.
  unfoldable pub on_fail : Key → SkipMap ar T
  unfolding dealloc
  on_fail (occupied _) = m
  on_fail (remove _) = m
  on_fail (pointer _ _) = m
  on_fail (remove_pointer _ _) = m
  on_fail (vacant b) = dealloc b.offset (u32 b.cap)
  on_fail (remove_vacant b) = dealloc b.offset (u32 b.cap)

  unfoldable pub as_ref : Key → Run Bytes
  unfolding Buffer.as_ref get_bytes
  as_ref (occupied key) = done key
  as_ref (remove key) = done key
  as_ref (vacant b) = Buffer.as_ref b
  as_ref (remove_vacant b) = Buffer.as_ref b
  as_ref (pointer offset len) = done (get_bytes m.memory offset len)
  as_ref (remove_pointer offset len) = done (get_bytes m.memory offset len)
