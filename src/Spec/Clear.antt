-- ===== src/Spec/Clear.antt =====
-- `compare_remove` (src/map/api.rs) of a key that has an entry of the version.
use skl_rs.Node.{Node}
use skl_rs.Node.Arena.{Arena}
