-- ===== src/Iterator/Seek.antt =====
-- The seeks of an iterator, its first and last entries, and the operations of the map that are made
-- of them (src/map/iterator/all_versions.rs, src/map/api.rs).
pub mod Lower
use skl_rs.Prelude.{
  ℕ, Bool, false, not, ◌&&◌, ◌||◌, Option, none, some, if◌then◌else◌, ltb, ◌==◌, is_gt, is_lt, Run,
  done, ◌>>=◌,
}
use skl_rs.Comparator.{Bytes, Bound, included, excluded, unbounded, slice_cmp, Trailer}
use skl_rs.Iterator.{AllVersionsIter, Move, ends, new, repeat, go_next, go_prev, is_removed}
use skl_rs.Map.{SkipMap, VersionedEntryRef, get_key, get_value_and_trailer, from_node}
use skl_rs.Node.{is_null}
use skl_rs.Node.Arena.{Arena}
use skl_rs.Search.{rounds, search_gt, search_ge, search_lt, search_le, first_in, last_in}

-- No later key is in the range.
unfoldable pub past_end : Bound → Bytes → Bool
unfolding slice_cmp
past_end (included upper) nk = is_lt (slice_cmp upper nk)
past_end (excluded upper) nk = not (is_gt (slice_cmp upper nk))
past_end unbounded nk = false

-- No earlier key is in the range.
unfoldable pub past_start : Bound → Bytes → Bool
unfolding slice_cmp
past_start (included lower) nk = is_gt (slice_cmp lower nk)
past_start (excluded lower) nk = not (is_lt (slice_cmp lower nk))
past_start unbounded nk = false

module _ {ar : Arena} {T : Type 0} ⦃tr : Trailer T⦄ (m : SkipMap ar T) where
  -- One round of `seek_ge` and of `seek_gt`: the end of the list is not tested.
  unfoldable pub seek_up_step : AllVersionsIter T → Run (Move T ℕ)
  unfolding get_key past_end
  seek_up_step it = do
    nk ← get_key m it.nd
    if m.cmp.contains it.range nk
        then done (ends (some it.nd) it)
        else if past_end it.range.end_bound nk
        then done (ends none it)
        else go_next m it

  -- One round of `seek_le` and of `seek_lt`.
  unfoldable pub seek_down_step : AllVersionsIter T → Run (Move T ℕ)
  unfolding get_key past_start
  seek_down_step it = do
    nk ← get_key m it.nd
    if m.cmp.contains it.range nk
        then done (ends (some it.nd) it)
        else if past_start it.range.start_bound nk
        then done (ends none it)
        else go_prev m it

  seek_up : AllVersionsIter T → Option ℕ → Run (Option ℕ × AllVersionsIter T)
  unfolding repeat seek_up_step is_null
  seek_up it none = done (none, it)
  seek_up it (some nd) =
      if is_null nd || (nd == m.tail)
      then done (none, record it { nd = nd })
      else repeat m seek_up_step (rounds m) (record it { nd = nd })

  seek_down : AllVersionsIter T → Option ℕ → Run (Option ℕ × AllVersionsIter T)
  unfolding repeat seek_down_step
  seek_down it none = done (none, it)
  seek_down it (some nd) = repeat m seek_down_step (rounds m) (record it { nd = nd })

  unfoldable pub seek_ge : AllVersionsIter T → Bytes → Run (Option ℕ × AllVersionsIter T)
  unfolding search_ge seek_up
  seek_ge it key = search_ge m it.version key >>= seek_up it

  unfoldable pub seek_gt : AllVersionsIter T → Bytes → Run (Option ℕ × AllVersionsIter T)
  unfolding search_gt seek_up
  seek_gt it key = search_gt m it.version key >>= seek_up it

  unfoldable pub seek_le : AllVersionsIter T → Bytes → Run (Option ℕ × AllVersionsIter T)
  unfolding search_le seek_down
  seek_le it key = search_le m it.version key >>= seek_down it

  unfoldable pub seek_lt : AllVersionsIter T → Bytes → Run (Option ℕ × AllVersionsIter T)
  unfolding search_lt seek_down
  seek_lt it key = search_lt m it.version key >>= seek_down it

  -- One round of `first`.
  unfoldable pub first_step : AllVersionsIter T → Run (Move T (VersionedEntryRef T))
  unfolding get_key get_value_and_trailer is_null
  first_step it = if is_null it.nd || (it.nd == m.tail) then done (ends none it) else do
    nk ← get_key m it.nd
    (trailer, value) ← get_value_and_trailer m it.nd
    let ent : VersionedEntryRef T = record {
      key = nk;
      trailer = trailer;
      value = value;
      ptr = it.nd;
    }
    if ltb it.version (tr.version trailer)
        then go_next m it
        else if not it.all_versions && is_removed value
        then go_next m it
        else if m.cmp.contains it.range nk
        then done (ends (some ent) (record it { last = some ent }))
        else go_next m it

  -- One round of `last`: the entry is not recorded as the last one.
  unfoldable pub last_step : AllVersionsIter T → Run (Move T (VersionedEntryRef T))
  unfolding get_key get_value_and_trailer is_null
  last_step it = if is_null it.nd || (it.nd == m.head) then done (ends none it) else do
    (trailer, value) ← get_value_and_trailer m it.nd
    if ltb it.version (tr.version trailer)
        then go_prev m it
        else if not it.all_versions && is_removed value
        then go_prev m it
        else do
          nk ← get_key m it.nd
          let ent : VersionedEntryRef T = record {
            key = nk;
            trailer = trailer;
            value = value;
            ptr = it.nd;
          }
          if m.cmp.contains it.range nk then done (ends (some ent) it) else go_prev m it

  scan :
      {A : Type 0}
      → (AllVersionsIter T → Run (Move T A))
      → AllVersionsIter T
      → Option ℕ
      → Run (Option A × AllVersionsIter T)
  unfolding repeat
  scan step it none = done (none, it)
  scan step it (some nd) = repeat m step (rounds m) (record it { nd = nd })

  unfoldable pub first : AllVersionsIter T → Run (Option (VersionedEntryRef T) × AllVersionsIter T)
  unfolding first_in first_step scan
  first it = first_in m it.version >>= scan first_step it

  unfoldable pub last : AllVersionsIter T → Run (Option (VersionedEntryRef T) × AllVersionsIter T)
  unfolding last_in last_step scan
  last it = last_in m it.version >>= scan last_step it

  -- The entry of a node that a seek found is recorded as the last one.
  landed : Option ℕ × AllVersionsIter T → Run (Option (VersionedEntryRef T) × AllVersionsIter T)
  unfolding from_node
  landed (none, it) = done (none, it)
  landed (some n, it) = do ent ← from_node m n; done (some ent, record it { last = some ent })

  unfoldable pub seek_upper_bound :
      AllVersionsIter T → Bound → Run (Option (VersionedEntryRef T) × AllVersionsIter T)
  unfolding seek_le seek_lt last landed
  seek_upper_bound it (included key) = seek_le it key >>= landed
  seek_upper_bound it (excluded key) = seek_lt it key >>= landed
  seek_upper_bound it unbounded = last it

  unfoldable pub seek_lower_bound :
      AllVersionsIter T → Bound → Run (Option (VersionedEntryRef T) × AllVersionsIter T)
  unfolding seek_ge seek_gt first landed
  seek_lower_bound it (included key) = seek_ge it key >>= landed
  seek_lower_bound it (excluded key) = seek_gt it key >>= landed
  seek_lower_bound it unbounded = first it

  -- `SkipMap::upper_bound`, and with an unbounded bound `SkipMap::last`.
  unfoldable pub upper_bound : ℕ → Bound → Run (Option (VersionedEntryRef T))
  unfolding seek_upper_bound new
  upper_bound version upper = do (r, _) ← seek_upper_bound (new m version false) upper; done r

  -- `SkipMap::lower_bound`, and with an unbounded bound `SkipMap::first`.
  unfoldable pub lower_bound : ℕ → Bound → Run (Option (VersionedEntryRef T))
  unfolding seek_lower_bound new
  lower_bound version lower = do (r, _) ← seek_lower_bound (new m version false) lower; done r
