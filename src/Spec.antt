-- ===== src/Spec.antt =====
-- What a map promises, without nodes and towers: a list of items in order, to which an item is added
-- at its place, and in which the newest visible item of a key is found (src/map/api.rs).
pub mod Place
pub mod Insert
pub mod Read
pub mod Remove
pub mod Present
pub mod Overwrite
pub mod Clear
pub mod Settle
pub mod Runs
use skl_rs.Prelude.{
  ℕ, ◌≡◌, ◌≢◌, Ordering, eq, gt, compare, Bool, Option, none, some, List, [], ◌∷◌, ◌&&◌, All,
  if◌then◌else◌, is_eq, is_gt, leb, then_with,
}
use skl_rs.Alloc.Owned.{IsOwned}
use skl_rs.Comparator.{Bytes, Trailer}
use skl_rs.Map.{SkipMap, VersionedEntryRef}
use skl_rs.Map.Order.{Cell}
use skl_rs.Node.Allocator.{IsAllocator}
use skl_rs.Node.Arena.{Arena}

-- A version of a key, with its value, or removed.
pub record Item (T : Type 0) : Type 0 where
  pub key : Bytes
  pub trailer : T
  pub value : Option Bytes

module _ {T : Type 0} ⦃tr : Trailer T⦄ (cmp : Bytes → Bytes → Ordering) where
  -- Where a key and a version stand to an item.
  abbrev pub at_item : ℕ → Bytes → Item T → Ordering
  at_item version key i = then_with (cmp key i.key) (compare (tr.version i.trailer) version)

  -- No item has the key and the version.
  abbrev pub IsAbsent : ℕ → Bytes → List (Item T) → Type 0
  IsAbsent version key = All (λ i. at_item version key i ≢ eq)

  -- An item is added before the first that it does not come after.
  unfoldable pub add : Item T → List (Item T) → List (Item T)
  add i [] = i ∷ []
  add i (j ∷ js) =
      let rest = add i js in
      if is_gt (at_item (tr.version i.trailer) i.key j) then j ∷ rest else i ∷ j ∷ js

  -- The first item of the key that is not newer than the version.
  unfoldable pub find : ℕ → Bytes → List (Item T) → Option (Item T)
  find version key [] = none
  find version key (i ∷ is) =
      if is_eq (cmp key i.key) && leb (tr.version i.trailer) version
      then some i
      else find version key is

  -- The item that has the key and the version.
  unfoldable pub exact : ℕ → Bytes → List (Item T) → Option (Item T)
  exact version key [] = none
  exact version key (i ∷ is) =
      if is_eq (at_item version key i) then some i else exact version key is

abbrev pub item_of : {T : Type 0} → Cell T → Item T
item_of c = record { key = c.key; trailer = c.trailer; value = c.value }

abbrev pub items_of : {T : Type 0} → List (Cell T) → List (Item T)
items_of [] = []
items_of (c ∷ cs) = item_of c ∷ items_of cs

-- An item that is not a removal.
abbrev pub unless_removed : {T : Type 0} → Option (Item T) → Option (Item T)
unless_removed none = none
unless_removed (some i) = elim i.value [ none ↦ none | some v ↦ some i ]

-- What an entry shows.
abbrev pub shown : {T : Type 0} → Option (VersionedEntryRef T) → Option (Item T)
shown none = none
shown (some e) = some (record { key = e.key; trailer = e.trailer; value = e.value })

-- The map holds the items: some cells in its memory, all of it in use, show them.
abbrev pub Refines :
    {ar : Arena} {T : Type 0} ⦃tr : Trailer T⦄
    → IsAllocator ar
    → SkipMap ar T
    → List (Item T)
    → Type 0
Refines {T = T} laws m items =
    (cells : List (Cell T)) × IsOwned laws m cells × (items_of cells ≡ items)
