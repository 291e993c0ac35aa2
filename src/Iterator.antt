-- ===== src/Iterator.antt =====
-- The iterators (src/map/iterator): `AllVersionsIter`, and `Iter`, which is one that shows the latest
-- versions only. A function returns what it yields and the iterator after it. One round of a loop is
-- a function of its own.
pub mod Seek
pub mod Traits
pub mod Walk
pub mod Next
pub mod Prev
pub mod Collect
use skl_rs.Prelude.{
  ℕ, zero, suc, Bool, true, false, not, ◌&&◌, ◌||◌, Option, none, some, if◌then◌else◌, ltb, ◌==◌,
  is_eq, is_gt, is_lt, Run, done, out_of_fuel, ◌>>=◌,
}
use skl_rs.Comparator.{Bytes, Bound, included, excluded, unbounded, Range, slice_cmp, Trailer}
use skl_rs.Map.{
  SkipMap, VersionedEntryRef, get_next, get_prev, get_key, get_value_and_trailer, from_node,
}
use skl_rs.Node.{is_null}
use skl_rs.Node.Arena.{Arena}
use skl_rs.Search.{rounds, search_gt, search_ge, search_lt, search_le, first_in, last_in}

pub record AllVersionsIter (T : Type 0) : Type 0 where
  pub nd : ℕ
  pub version : ℕ
  pub range : Range
  pub all_versions : Bool
  pub last : Option (VersionedEntryRef T)

-- What a round of a loop does: go on, or return.
pub data Move (T : Type 0) (A : Type 0) : Type 0 where
  onto : AllVersionsIter T → Move T A
  ends : Option A → AllVersionsIter T → Move T A

-- `RangeFull`
abbrev pub range_full : Range
range_full = record { start_bound = unbounded; end_bound = unbounded }

abbrev pub is_removed : Option Bytes → Bool
is_removed none = true
is_removed (some v) = false

module _ {ar : Arena} {T : Type 0} ⦃tr : Trailer T⦄ (m : SkipMap ar T) where
  unfoldable pub new : ℕ → Bool → AllVersionsIter T
  new version all_versions = record {
    nd = m.head;
    version = version;
    range = range_full;
    all_versions = all_versions;
    last = none;
  }

  unfoldable pub range : ℕ → Range → Bool → AllVersionsIter T
  range version r all_versions = record {
    nd = m.head;
    version = version;
    range = r;
    all_versions = all_versions;
    last = none;
  }

  -- The key of the entry that was yielded last.
  abbrev pub same_as_last : Option (VersionedEntryRef T) → Bytes → Bool
  same_as_last none nk = false
  same_as_last (some last) nk = is_eq (m.cmp.cmp last.key nk)

  -- At a node that is not the end of the list: yield it, or go on from it.
  unfoldable pub offer : AllVersionsIter T → Run (Move T (VersionedEntryRef T))
  unfolding get_value_and_trailer get_key
  offer it = do
    (trailer, value) ← get_value_and_trailer m it.nd
    if ltb it.version (tr.version trailer)
        then done (onto it)
        else if not it.all_versions && is_removed value
        then done (onto it)
        else do
          nk ← get_key m it.nd
          let ent : VersionedEntryRef T = record {
            key = nk;
            trailer = trailer;
            value = value;
            ptr = it.nd;
          }
          if not it.all_versions && same_as_last it.last nk
              then done (onto it)
              else if m.cmp.contains it.range nk
              then done (ends (some ent) (record it { last = some ent }))
              else done (onto it)

  unfoldable pub next_step : AllVersionsIter T → Run (Move T (VersionedEntryRef T))
  unfolding get_next is_null offer
  next_step it = do
    nd ← get_next m it.nd 0
    let it' = record it { nd = nd }
    if is_null nd || (nd == m.tail) then done (ends none it') else offer it'

  unfoldable pub prev_step : AllVersionsIter T → Run (Move T (VersionedEntryRef T))
  unfolding get_prev is_null offer
  prev_step it = do
    nd ← get_prev m it.nd 0
    let it' = record it { nd = nd }
    if is_null nd || (nd == m.head) then done (ends none it') else offer it'

  -- `self.nd = self.map.get_next(self.nd, 0)`, and another round.
  abbrev pub go_next : {A : Type 0} → AllVersionsIter T → Run (Move T A)
  go_next it = do nd ← get_next m it.nd 0; done (onto (record it { nd = nd }))

  abbrev pub go_prev : {A : Type 0} → AllVersionsIter T → Run (Move T A)
  go_prev it = do nd ← get_prev m it.nd 0; done (onto (record it { nd = nd }))

  -- A loop of rounds.
  unfoldable pub repeat :
      {A : Type 0}
      → (AllVersionsIter T → Run (Move T A))
      → ℕ
      → AllVersionsIter T
      → Run (Option A × AllVersionsIter T)
  repeat step zero it = out_of_fuel
  repeat step (suc fuel) it = do
    s ← step it
    elim s [ onto it' ↦ repeat step fuel it' | ends r it' ↦ done (r, it') ]

  unfoldable pub next_in :
      AllVersionsIter T → Run (Option (VersionedEntryRef T) × AllVersionsIter T)
  unfolding repeat next_step
  next_in it = repeat next_step (rounds m) it

  unfoldable pub prev : AllVersionsIter T → Run (Option (VersionedEntryRef T) × AllVersionsIter T)
  unfolding repeat prev_step
  prev it = repeat prev_step (rounds m) it
