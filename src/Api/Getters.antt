-- ===== src/Api/Getters.antt =====
-- What a map tells of itself (src/map/api.rs).
use skl_rs.Prelude.{ℕ}
use skl_rs.Comparator.{Comparator}
use skl_rs.Map.{SkipMap}
use skl_rs.Node.Arena.{Arena}

module _ {ar : Arena} {T : Type 0} (m : SkipMap ar T) where
  unfoldable pub allocator : ar.State
  allocator = m.arena

  unfoldable pub data_offset : ℕ
  data_offset = m.data_offset

  unfoldable pub version : ℕ
  version = ar.magic_version m.arena

  unfoldable pub magic_version : ℕ
  magic_version = m.meta.magic_version

  unfoldable pub height : ℕ
  height = m.meta.height

  unfoldable pub remaining : ℕ
  remaining = ar.remaining m.arena

  unfoldable pub allocated : ℕ
  allocated = ar.allocated m.arena

  unfoldable pub capacity : ℕ
  capacity = ar.capacity m.arena

  unfoldable pub len : ℕ
  len = m.meta.len

  unfoldable pub refs : ℕ
  refs = ar.refs m.arena

  unfoldable pub discarded : ℕ
  discarded = ar.discarded m.arena

  unfoldable pub max_version : ℕ
  max_version = m.meta.max_version

  unfoldable pub min_version : ℕ
  min_version = m.meta.min_version

  unfoldable pub comparator : Comparator
  comparator = m.cmp
