-- ===== src/Entry/Types.antt =====
-- The two entries whose value cannot be none (src/map/entry.rs): `EntryRef` and `Entry`. Nothing but
-- the code that makes them sees to that.
use skl_rs.Entry.{VersionedEntry}
use skl_rs.Map.{VersionedEntryRef}
use skl_rs.Node.Arena.{Arena}

pub record EntryRef (T : Type 0) : Type 0 where
  pub inner : VersionedEntryRef T

pub record Entry (ar : Arena) (T : Type 0) : Type 0 where
  pub inner : VersionedEntry ar T
