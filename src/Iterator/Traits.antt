-- ===== src/Iterator/Traits.antt =====
-- `Iterator` and `DoubleEndedIterator` of `AllVersionsIter`, and its getters
-- (src/map/iterator/all_versions.rs).
use skl_rs.Prelude.{Option, Run}
use skl_rs.Comparator.{Range, unbounded, Trailer}
use skl_rs.Iterator
use skl_rs.Iterator.{AllVersionsIter, next_in}
use skl_rs.Iterator.Seek
use skl_rs.Iterator.Seek.{seek_upper_bound}
use skl_rs.Map.{SkipMap, VersionedEntryRef}
use skl_rs.Node.Arena.{Arena}

module _ {T : Type 0} where
  unfoldable pub bounds : AllVersionsIter T → Range
  bounds it = it.range

  unfoldable pub entry : AllVersionsIter T → Option (VersionedEntryRef T)
  entry it = it.last

module _ {ar : Arena} {T : Type 0} ⦃tr : Trailer T⦄ (m : SkipMap ar T) where
  unfoldable pub next : AllVersionsIter T → Run (Option (VersionedEntryRef T) × AllVersionsIter T)
  unfolding next_in
  next it = next_in m it

  unfoldable pub last : AllVersionsIter T → Run (Option (VersionedEntryRef T) × AllVersionsIter T)
  unfolding seek_upper_bound
  last it = seek_upper_bound m it unbounded

  unfoldable pub max : AllVersionsIter T → Run (Option (VersionedEntryRef T) × AllVersionsIter T)
  unfolding last
  max it = last it

  unfoldable pub min : AllVersionsIter T → Run (Option (VersionedEntryRef T) × AllVersionsIter T)
  unfolding Seek.first
  min it = Seek.first m it

  unfoldable pub next_back :
      AllVersionsIter T → Run (Option (VersionedEntryRef T) × AllVersionsIter T)
  unfolding Iterator.prev
  next_back it = Iterator.prev m it
