-- ===== src/Meta/Alone.antt =====
-- The least version in the header while versions are announced (`update_min_version`, src/map.rs).
use skl_rs.Prelude.{ℕ, List, [], ◌∷◌, ◌≡◌, refl, arith}
use skl_rs.Meta.{Meta, new, update_min_version}

-- The calls of `update_min_version` with each of a list of versions, in turn.
unfoldable pub announce : List ℕ → Meta → Meta
announce [] m = m
announce (v ∷ vs) m = announce vs (update_min_version v m)

announce-zero : (vs : List ℕ) (m : Meta) → m.min_version ≡ 0 → (announce vs m).min_version ≡ 0
unfolding announce update_min_version
announce-zero [] m e = e
announce-zero (v ∷ vs) m e = announce-zero vs (update_min_version v m) (ground (arith, e))

-- In a new map the least version is 0, whatever versions are announced.
pub announce-new : (vs : List ℕ) (magic : ℕ) → (announce vs (new magic)).min_version ≡ 0
unfolding new
announce-new vs magic = announce-zero vs (new magic) refl
