-- ===== src/Search/From.antt =====
-- The first cell from a lower bound on, which `ge` and `gt` (src/map.rs) look for.
use skl_rs.Prelude.{
  ℕ, ◌≡◌, refl, Bool, true, false, not, Option, none, some, Ordering, List, [], ◌∷◌, if◌then◌else◌,
  is_gt, is_lt,
}
use skl_rs.Comparator.{Bytes, Bound, included, excluded, unbounded}
use skl_rs.Map.Order.{Cell}

module _ (cmp : Bytes → Bytes → Ordering) where
  -- A key does not lie before a lower bound.
  abbrev pub reaches : Bound → Bytes → Bool
  reaches (included lower) key = not (is_gt (cmp lower key))
  reaches (excluded lower) key = is_lt (cmp lower key)
  reaches unbounded key = true

module _ {T : Type 0} (cmp : Bytes → Bytes → Ordering) where
  -- The first cell from a lower bound on.
  unfoldable pub first_from : Bound → List (Cell T) → Option (Cell T)
  first_from lower [] = none
  first_from lower (c ∷ cs) = if reaches cmp lower c.key then some c else first_from lower cs

  pub first_from-hit :
      (lower : Bound) (c : Cell T) (cs : List (Cell T))
      → reaches cmp lower c.key ≡ true
      → first_from lower (c ∷ cs) ≡ some c
  unfolding first_from
  first_from-hit lower c cs e = rw (e) refl

  pub first_from-miss :
      (lower : Bound) (c : Cell T) (cs : List (Cell T))
      → reaches cmp lower c.key ≡ false
      → first_from lower (c ∷ cs) ≡ first_from lower cs
  unfolding first_from
  first_from-miss lower c cs e = rw (e) refl

abbrev pub offset_of : {T : Type 0} → Option (Cell T) → Option ℕ
offset_of none = none
offset_of (some c) = some c.offset
