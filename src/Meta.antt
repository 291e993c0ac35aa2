-- ===== src/Meta.antt =====
-- The header of a map (`Meta` of src/map.rs). The two version loops are given one atomic action at a
-- time, so that several threads can take turns.
pub mod Versions
pub mod Alone
pub mod Fair
use skl_rs.Prelude.{ℕ, ◌+◌, ◌%◌, ◌^◌, Bool, true, false, if◌then◌else◌, leb, ◌==◌}

pub record Meta : Type 0 where
  pub max_version : ℕ
  pub min_version : ℕ
  pub len : ℕ
  pub magic_version : ℕ
  pub height : ℕ
  pub reserved_byte : ℕ

unfoldable pub new : ℕ → Meta
new version = record {
  max_version = 0;
  min_version = 0;
  len = 0;
  magic_version = version;
  height = 1;
  reserved_byte = 0;
}

-- `fetch_add` wraps.
unfoldable pub increase_len : Meta → Meta
increase_len m = record m { len = (m.len + 1) % 2 ^ 32 }

-- Where a thread stands in a version loop: before its first load, with a value that it read last,
-- or returned.
pub data Turn : Type 0 where
  start : Turn
  trying : ℕ → Turn
  returned : Turn

-- One atomic action of a loop that replaces a cell unless the value read `passes`. A weak
-- compare-exchange may fail `spurious`ly.
pub version_step : (ℕ → Bool) → ℕ → Bool → Turn → ℕ → Turn × ℕ
version_step passes version spurious start cell = (trying cell, cell)
version_step passes version spurious (trying current) cell =
    if passes current
    then (returned, cell)
    else if spurious
    then (trying cell, cell)
    else if cell == current
    then (returned, version)
    else (trying cell, cell)
version_step passes version spurious returned cell = (returned, cell)

-- `update_max_version` leaves at `version <= current`.
unfoldable pub max_step : ℕ → Bool → Turn → ℕ → Turn × ℕ
unfolding version_step
max_step version = version_step (λ current. leb version current) version

-- `update_min_version` leaves at `version >= current`.
unfoldable pub min_step : ℕ → Bool → Turn → ℕ → Turn × ℕ
unfolding version_step
min_step version = version_step (λ current. leb current version) version

-- The calls of a thread that runs alone: a load, and one exchange that cannot fail.
unfoldable pub update_max_version : ℕ → Meta → Meta
unfolding max_step
update_max_version version m =
    let (turn, cell) = max_step version false start m.max_version in
    record m { max_version = (max_step version false turn cell).1 }

unfoldable pub update_min_version : ℕ → Meta → Meta
unfolding min_step
update_min_version version m =
    let (turn, cell) = min_step version false start m.min_version in
    record m { min_version = (min_step version false turn cell).1 }

-- The loop of `new_node` that raises the height leaves as `update_max_version` does.
unfoldable pub raise_height : ℕ → Meta → Meta
unfolding max_step
raise_height height m =
    let (turn, cell) = max_step height false start m.height in
    record m { height = (max_step height false turn cell).1 }
