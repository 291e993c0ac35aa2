-- ===== src/Entry.antt =====
-- Entries (src/map/entry.rs): references into the map, and owned entries, which hold the map and read
-- the key and the value again. `EntryRef` and `Entry` wrap an entry that has a value.

pub mod Types
pub mod Versioned
pub mod Borrowed
pub mod Whole
pub mod Laws
pub mod Owned
use skl_rs.Prelude.{
  ℕ, Bool, true, false, none, some, Ordering, compare, then_with, reverse_order, is_eq, Run, done,
  panic, ◌>>=◌,
}
use skl_rs.Comparator.{Bytes, Trailer}
use skl_rs.Map.{SkipMap, VersionedEntryRef, get_key}
use skl_rs.Node.Arena.{Arena}
use skl_rs.Value.{get_value}

-- `VersionedEntryRef::is_removed`
unfoldable pub is_removed : {T : Type 0} → VersionedEntryRef T → Bool
is_removed e = elim e.value [ none ↦ true | some _ ↦ false ]

-- `EntryRef::value`
unfoldable pub value : {T : Type 0} → VersionedEntryRef T → Run Bytes
value e = elim e.value [ none ↦ panic | some v ↦ done v ]

module _ {T : Type 0} ⦃tr : Trailer T⦄ where
  -- `VersionedEntryRef::version`
  unfoldable pub version : VersionedEntryRef T → ℕ
  version e = tr.version e.trailer

module _ {ar : Arena} {T : Type 0} ⦃tr : Trailer T⦄ (m : SkipMap ar T) where
  -- `PartialEq` of `VersionedEntryRef`
  unfoldable pub eq_entry : VersionedEntryRef T → VersionedEntryRef T → Bool
  unfolding version
  eq_entry a b = is_eq (then_with (m.cmp.cmp a.key b.key) (compare (version a) (version b)))

  -- `Ord` of `VersionedEntryRef`: of one key, the newer version comes first.
  unfoldable pub cmp_entry : VersionedEntryRef T → VersionedEntryRef T → Ordering
  unfolding version
  cmp_entry a b =
      then_with (m.cmp.cmp a.key b.key) (reverse_order (compare (version a) (version b)))

-- The owned entry.
pub record VersionedEntry (ar : Arena) (T : Type 0) : Type 0 where
  pub map : SkipMap ar T
  pub trailer : T
  pub ptr : ℕ

module _ {ar : Arena} {T : Type 0} ⦃tr : Trailer T⦄ where
  -- `VersionedEntryRef::to_owned`
  unfoldable pub to_owned : SkipMap ar T → VersionedEntryRef T → VersionedEntry ar T
  to_owned m e = record { map = m; trailer = e.trailer; ptr = e.ptr }

  -- `VersionedEntry::borrow`: the key and the value are read again.
  unfoldable pub borrow : VersionedEntry ar T → Run (VersionedEntryRef T)
  unfolding get_key get_value
  borrow e = do
    key ← get_key e.map e.ptr
    v ← get_value e.map e.ptr
    done (record { key = key; trailer = e.trailer; value = v; ptr = e.ptr })

  -- `Entry::value`
  unfoldable pub owned_value : VersionedEntry ar T → Run Bytes
  unfolding get_value
  owned_value e = do v ← get_value e.map e.ptr; elim v [ none ↦ panic | some bytes ↦ done bytes ]
