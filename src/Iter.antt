-- ===== src/Iter.antt =====
-- `Iter` (src/map/iterator/iter.rs): an iterator of the latest versions, whose entries are `EntryRef`s.
pub mod Laws
use skl_rs.Prelude.{ℕ, false, Option, none, some, Run, done, ◌>>=◌}
use skl_rs.Comparator.{Bound, Range, Trailer}
use skl_rs.Entry.Types.{EntryRef}
use skl_rs.Iterator
use skl_rs.Iterator.{AllVersionsIter}
use skl_rs.Iterator.Seek
use skl_rs.Iterator.Traits
use skl_rs.Map.{SkipMap, VersionedEntryRef}
use skl_rs.Node.Arena.{Arena}

pub record Iter (T : Type 0) : Type 0 where
  pub inner : AllVersionsIter T

-- `.map(EntryRef)`, with the iterator after the call.
abbrev pub wrapped :
    {T : Type 0}
    → Option (VersionedEntryRef T) × AllVersionsIter T
    → Run (Option (EntryRef T) × Iter T)
wrapped (none, it) = done (none, record { inner = it })
wrapped (some e, it) = done (some (record { inner = e }), record { inner = it })

module _ {T : Type 0} where
  unfoldable pub bounds : Iter T → Range
  bounds it = it.inner.range

  unfoldable pub entry : Iter T → Option (EntryRef T)
  entry it = elim it.inner.last [ none ↦ none | some e ↦ some (record { inner = e }) ]

module _ {ar : Arena} {T : Type 0} ⦃tr : Trailer T⦄ (m : SkipMap ar T) where
  unfoldable pub new : ℕ → Iter T
  unfolding Iterator.new
  new version = record { inner = Iterator.new m version false }

  unfoldable pub range : ℕ → Range → Iter T
  unfolding Iterator.range
  range version r = record { inner = Iterator.range m version r false }

  unfoldable pub seek_upper_bound : Iter T → Bound → Run (Option (EntryRef T) × Iter T)
  unfolding Seek.seek_upper_bound
  seek_upper_bound it upper = Seek.seek_upper_bound m it.inner upper >>= wrapped

  unfoldable pub seek_lower_bound : Iter T → Bound → Run (Option (EntryRef T) × Iter T)
  unfolding Seek.seek_lower_bound
  seek_lower_bound it lower = Seek.seek_lower_bound m it.inner lower >>= wrapped

  unfoldable pub next : Iter T → Run (Option (EntryRef T) × Iter T)
  unfolding Traits.next
  next it = Traits.next m it.inner >>= wrapped

  unfoldable pub last : Iter T → Run (Option (EntryRef T) × Iter T)
  unfolding Traits.last
  last it = Traits.last m it.inner >>= wrapped

  unfoldable pub max : Iter T → Run (Option (EntryRef T) × Iter T)
  unfolding last
  max it = last it

  unfoldable pub min : Iter T → Run (Option (EntryRef T) × Iter T)
  unfolding Traits.min
  min it = Traits.min m it.inner >>= wrapped

  unfoldable pub next_back : Iter T → Run (Option (EntryRef T) × Iter T)
  unfolding Traits.next_back
  next_back it = Traits.next_back m it.inner >>= wrapped
