-- ===== src/Spec/Remove.antt =====
-- `get_or_remove` (src/map/api.rs) of a key that has no entry of the version, against the items.
use Prim.{⊥}
use skl_rs.Prelude.{ℕ, ◌≡◌, refl, sym, ap, ◌∙◌, Option, none, some, false, List, [], done, ok}
use mathlib.Core.Path.{subst}
use skl_rs.Alloc.{noop}
use skl_rs.Alloc.Owned.{IsOwned}
use skl_rs.Api.{get_or_remove}
use skl_rs.Comparator.{Bytes, Trailer}
use skl_rs.Map.{SkipMap, VersionedEntryRef}
use skl_rs.Map.Order.{Cell}
use skl_rs.Node.Allocator.{IsAllocator}
use skl_rs.Node.Arena.{Arena}
use skl_rs.Search.{get}
use skl_rs.Spec.{Item, add, find, items_of, IsAbsent, Refines, shown, unless_removed}
use skl_rs.Spec.Insert.{Adds, IsReady, Adds-of}
use skl_rs.Spec.Place.{IsSorted-Split}
use skl_rs.Spec.Read.{get-find, find-add, Adds-ok}
use skl_rs.Update.Insert.{update-Inserts_removal}

module _ {ar : Arena} {T : Type 0} ⦃tr : Trailer T⦄ (laws : IsAllocator ar) (m : SkipMap ar T)
    (key : Bytes) (t : T) (table : List ℕ) (rnd : ℕ) (ready : IsReady m table key [])
    (writable : ar.read_only m.arena ≡ false) (cells : List (Cell T))
    (o : IsOwned laws m cells) where
  remove-cells :
      IsAbsent m.cmp.cmp (tr.version t) key (items_of cells)
      → Adds laws m
          (items_of cells)
          (record { key = key; trailer = t; value = none })
          (get_or_remove table rnd t key m)
  unfolding get_or_remove
  remove-cells absent =
      let s =
        IsSorted-Split m.cmp.cmp o.repr.lawful (tr.version t) key cells o.repr.sorted absent in
      Adds-of laws m cells key t none writable s _ (
        update-Inserts_removal {E = ⊥} laws m s.passed s.ahead key t noop
          (subst (λ (l : List (Cell T)). IsOwned laws m l) (sym s.whole) o) s.before s.behind
          ready.sized ready.levels ready.room (λ m'. m') false table rnd ready.covered
          ready.key_short ready.exact 0)

-- Where a map that is not read-only holds items, none of them with the key and the version of a
-- trailer, and the map and the key are ready: `get_or_remove` always returns. It returns no entry and a
-- map that holds the items with a removal of the key added; or an error, for the reasons that `insert`
-- has, and a map that holds the items as they were. The comparator and the options stay.
pub get_or_remove-Adds :
    {ar : Arena} {T : Type 0} ⦃tr : Trailer T⦄ (laws : IsAllocator ar) (m : SkipMap ar T)
    (items : List (Item T)) (key : Bytes) (t : T) (table : List ℕ) (rnd : ℕ)
    → Refines laws m items
    → IsReady m table key []
    → ar.read_only m.arena ≡ false
    → IsAbsent m.cmp.cmp (tr.version t) key items
    → Adds laws m items
        (record { key = key; trailer = t; value = none })
        (get_or_remove table rnd t key m)
unfolding get_or_remove
get_or_remove-Adds {T = T} ⦃tr = tr⦄ laws m items key t table rnd (cells, o, e) ready writable
      absent =
    subst
      (λ (is : List (Item T)).
        Adds laws m is (record { key = key; trailer = t; value = none })
          (get_or_remove table rnd t key m))
      e
      (remove-cells laws m key t table rnd ready writable cells o
        (subst (λ (is : List (Item T)). IsAbsent m.cmp.cmp (tr.version t) key is) (sym e) absent))

nothing_shown : {T : Type 0} (e : Option (VersionedEntryRef T)) → shown e ≡ none → e ≡ none
nothing_shown none s = refl
nothing_shown (some e) s = cc

-- Where a map that is not read-only holds items, none of them with the key and the version of a
-- trailer, and the map and the key are ready: after `get_or_remove` has returned without an error,
-- `get` finds nothing for the key at the version of the trailer, whatever older entries there are.
pub remove-get :
    {ar : Arena} {T : Type 0} ⦃tr : Trailer T⦄ (laws : IsAllocator ar) (m : SkipMap ar T)
    (items : List (Item T)) (key : Bytes) (t : T) (table : List ℕ) (rnd : ℕ)
    → Refines laws m items
    → IsReady m table key []
    → ar.read_only m.arena ≡ false
    → IsAbsent m.cmp.cmp (tr.version t) key items
    → (old : Option (VersionedEntryRef T)) (m' : SkipMap ar T)
    → get_or_remove table rnd t key m ≡ done (ok old, m')
    → get m' (tr.version t) key ≡ done none
remove-get {T = T} ⦃tr = tr⦄ laws m items key t table rnd (cells, o, same) ready writable absent old
      m' runs =
    let i : Item T = record { key = key; trailer = t; value = none } in
    let (r, cmp_same) =
      Adds-ok laws m items i (get_or_remove table rnd t key m)
        (get_or_remove-Adds laws m items key t table rnd (cells, o, same) ready writable absent) old
        m' runs in
    let (e, gets, shows) = get-find laws m' (add m.cmp.cmp i items) (tr.version t) key r in
    gets
    ∙ ap done (
        nothing_shown e (
          shows
          ∙ ap (λ c. unless_removed (find c.cmp (tr.version t) key (add m.cmp.cmp i items)))
              cmp_same
          ∙ ap unless_removed (find-add m.cmp.cmp o.repr.lawful i items absent)))
