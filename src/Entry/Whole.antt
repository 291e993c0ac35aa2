-- ===== src/Entry/Whole.antt =====
-- `Entry` (src/map/entry.rs).
use skl_rs.Prelude.{ℕ, Run, done, ◌>>=◌}
use skl_rs.Comparator.{Bytes, Trailer}
use skl_rs.Entry
use skl_rs.Entry.{owned_value}
use skl_rs.Entry.Types.{EntryRef, Entry}
use skl_rs.Entry.Versioned
use skl_rs.Node.Arena.{Arena}

module _ {ar : Arena} {T : Type 0} where
  unfoldable pub key : Entry ar T → Run Bytes
  unfolding Versioned.key
  key e = Versioned.key e.inner

  unfoldable pub trailer : Entry ar T → T
  trailer e = e.inner.trailer

  module _ ⦃tr : Trailer T⦄ where
    -- It panics where there is none.
    unfoldable pub value : Entry ar T → Run Bytes
    unfolding owned_value
    value e = owned_value e.inner

    unfoldable pub borrow : Entry ar T → Run (EntryRef T)
    unfolding Entry.borrow
    borrow e = do r ← Entry.borrow e.inner; done (record { inner = r })

    unfoldable pub version : Entry ar T → ℕ
    unfolding Versioned.version
    version e = Versioned.version e.inner
