-- ===== src/Search/Get.antt =====
-- `SkipMap::get` (src/map/api.rs) against a lookup in the list of cells.
use skl_rs.Prelude.{
  ℕ, ◌≡◌, refl, inl, inr, Bool, true, false, ◌&&◌, Option, none, some, Ordering, lt, List, [], ◌∷◌,
  if◌then◌else◌, leb, is_eq, All, All-imp, done, arith, Ordering-cases,
}
use skl_rs.Comparator.{Bytes, Trailer}
use skl_rs.Comparator.Laws.{IsLawful}
use skl_rs.Map.{SkipMap, VersionedEntryRef}
use skl_rs.Map.Order.{Cell, at, IsSorted, Before}
use skl_rs.Map.Repr.{Holds, IsRepr}
use skl_rs.Node.Arena.{Arena}
use skl_rs.Search.{valued, get, get_found}
use skl_rs.Search.Near.{near_on_list, near_on_list-gt, near_on_list-eq, near_on_list-lt}
use skl_rs.Search.Towers.{find_near_lem}

module _ {T : Type 0} ⦃tr : Trailer T⦄ (cmp : Bytes → Bytes → Ordering) where
  -- The newest cell of a key that is not newer than a version: the first in the order of the list.
  unfoldable pub lookup_at : ℕ → Bytes → List (Cell T) → Option (Cell T)
  lookup_at version key [] = none
  lookup_at version key (c ∷ cs) =
      if is_eq (cmp key c.key) && leb (tr.version c.trailer) version
      then some c
      else lookup_at version key cs

-- The entry of a cell that was found: none where the cell is a removal.
abbrev pub live : {T : Type 0} → Option (Cell T) → Option (VersionedEntryRef T)
live none = none
live (some c) = valued c.key c.trailer c.offset c.value

module _ {ar : Arena} {T : Type 0} ⦃tr : Trailer T⦄ (m : SkipMap ar T) (version : ℕ)
    (key : Bytes) where
  get_found-Holds :
      (c : Cell T) (equal : Bool)
      → Holds m c
      → get_found m version key (some c.offset, equal) ≡ (
          if equal
          then done (valued c.key c.trailer c.offset c.value)
          else if is_eq (m.cmp.cmp key c.key) && leb (tr.version c.trailer) version
          then done (valued c.key c.trailer c.offset c.value)
          else done none)
  unfolding get_found
  get_found-Holds c equal h = rw (h.key_read, h.value_read) (ground arith)

  abbrev hit : Cell T → Bool
  hit c = is_eq (m.cmp.cmp key c.key) && leb (tr.version c.trailer) version

  lookup_at-hit :
      (c : Cell T) (cs : List (Cell T))
      → hit c ≡ true
      → lookup_at m.cmp.cmp version key (c ∷ cs) ≡ some c
  unfolding lookup_at
  lookup_at-hit c cs e = rw (e, lookup_at)

  lookup_at-miss :
      (c : Cell T) (cs : List (Cell T))
      → hit c ≡ false
      → lookup_at m.cmp.cmp version key (c ∷ cs) ≡ lookup_at m.cmp.cmp version key cs
  unfolding lookup_at
  lookup_at-miss c cs e = rw (e, lookup_at)

  module _ (laws : IsLawful m.cmp.cmp) where
    key_below :
        (c d : Cell T) → m.cmp.cmp key c.key ≡ lt → Before m.cmp.cmp c d → m.cmp.cmp key d.key ≡ lt
    key_below c d below before = ground (
      arith,
      laws.lt_trans key c.key d.key,
      laws.eq_cmp c.key d.key key,
      laws.cmp_flip key c.key,
      laws.cmp_flip key d.key,
    )

    lookup_at_below :
        (cs : List (Cell T))
        → All (λ d. m.cmp.cmp key d.key ≡ lt) cs
        → lookup_at m.cmp.cmp version key cs ≡ none
    unfolding lookup_at
    lookup_at_below [] h = refl
    lookup_at_below (c ∷ cs) h = rw h.0 (lookup_at_below cs h.1)

    get_on_list :
        (x : ℕ) (cells : List (Cell T))
        → All (Holds m) cells
        → IsSorted m.cmp.cmp cells
        → get_found m version key
            (near_on_list m.head m.tail (at m.cmp.cmp version key) false true x cells)
          ≡ done (live (lookup_at m.cmp.cmp version key cells))
    unfolding near_on_list lookup_at get_found
    get_on_list x [] h s = refl
    get_on_list x (c ∷ cs) h s = elim (Ordering-cases (at m.cmp.cmp version key c)) [
      | inr (inr above) ↦
          rw
            (
              near_on_list-gt m.head m.tail (at m.cmp.cmp version key) false true x c cs above,
              lookup_at-miss c cs (ground arith),
            )
            (get_on_list c.offset cs h.1 s.1)
      | inr (inl same) ↦
          rw
            (
              near_on_list-eq m.head m.tail (at m.cmp.cmp version key) false true x c cs same,
              lookup_at-hit c cs (ground arith),
            )
            (get_found-Holds c true h.0)
      | inl below ↦
          rw
            (
              near_on_list-lt m.head m.tail (at m.cmp.cmp version key) false true x c cs below,
              get_found-Holds c false h.0,
            )
            (elim (Ordering-cases (m.cmp.cmp key c.key)) [
              | inl beyond ↦
                  ground
                    (arith, lookup_at_below cs (All-imp (λ d b. key_below c d beyond b) cs s.0))
              | inr (inl key_same) ↦ ground arith
              | inr (inr before) ↦ ground arith
            ])
    ]

-- On a map that stands for cells, `get` always returns, and gives the newest entry of the key that is
-- not newer than the version, or none where there is no such entry or it is a removal.
pub get-lookup_at :
    {ar : Arena} {T : Type 0} ⦃tr : Trailer T⦄ (m : SkipMap ar T) (cells : List (Cell T))
    (version : ℕ) (key : Bytes)
    → IsRepr m cells
    → get m version key ≡ done (live (lookup_at m.cmp.cmp version key cells))
unfolding get
get-lookup_at m cells version key r =
    rw (find_near_lem m cells version key false true r)
      (get_on_list m version key r.lawful m.head cells r.holds r.sorted)
