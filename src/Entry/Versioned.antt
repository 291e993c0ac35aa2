-- ===== src/Entry/Versioned.antt =====
-- What a `VersionedEntry` reads from its map (src/map/entry.rs).
use skl_rs.Prelude.{ℕ, Option, Run}
use skl_rs.Comparator.{Bytes, Trailer}
use skl_rs.Entry.{VersionedEntry}
use skl_rs.Map.{get_key}
use skl_rs.Node.Arena.{Arena}
use skl_rs.Value.{get_value}

module _ {ar : Arena} {T : Type 0} where
  unfoldable pub key : VersionedEntry ar T → Run Bytes
  unfolding get_key
  key e = get_key e.map e.ptr

  unfoldable pub value : ⦃tr : Trailer T⦄ → VersionedEntry ar T → Run (Option Bytes)
  unfolding get_value
  value e = get_value e.map e.ptr

  unfoldable pub version : ⦃tr : Trailer T⦄ → VersionedEntry ar T → ℕ
  version ⦃tr⦄ e = tr.version e.trailer
