-- ===== src/Entry/Borrowed.antt =====
-- `EntryRef` (src/map/entry.rs).
use skl_rs.Prelude.{ℕ, Bool, Option, some, Ordering, Run}
use skl_rs.Comparator.{Bytes, Trailer}
use skl_rs.Entry
use skl_rs.Entry.{eq_entry, cmp_entry}
use skl_rs.Entry.Types.{EntryRef, Entry}
use skl_rs.Map.{SkipMap}
use skl_rs.Node.Arena.{Arena}

module _ {T : Type 0} where
  unfoldable pub key : EntryRef T → Bytes
  key e = e.inner.key

  -- It panics where there is none.
  unfoldable pub value : EntryRef T → Run Bytes
  unfolding Entry.value
  value e = Entry.value e.inner

  unfoldable pub trailer : EntryRef T → T
  trailer e = e.inner.trailer

  unfoldable pub version : ⦃tr : Trailer T⦄ → EntryRef T → ℕ
  unfolding Entry.version
  version e = Entry.version e.inner

module _ {ar : Arena} {T : Type 0} ⦃tr : Trailer T⦄ (m : SkipMap ar T) where
  unfoldable pub to_owned : EntryRef T → Entry ar T
  unfolding Entry.to_owned
  to_owned e = record { inner = Entry.to_owned m e.inner }

  -- `PartialEq`
  unfoldable pub eq_ref : EntryRef T → EntryRef T → Bool
  unfolding eq_entry
  eq_ref a b = eq_entry m a.inner b.inner

  -- `Ord`
  unfoldable pub cmp_ref : EntryRef T → EntryRef T → Ordering
  unfolding cmp_entry
  cmp_ref a b = cmp_entry m a.inner b.inner

  -- `PartialOrd`
  unfoldable pub partial_cmp : EntryRef T → EntryRef T → Option Ordering
  unfolding cmp_ref
  partial_cmp a b = some (cmp_ref a b)
