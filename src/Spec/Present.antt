-- ===== src/Spec/Present.antt =====
-- `get_or_insert` and `get_or_remove` (src/map/api.rs) of a key that has an entry of the version.
use Prim.{⊥}
use skl_rs.Prelude.{
  ℕ, ◌≡◌, refl, sym, ap, ◌∙◌, Option, none, some, eq, false, List, ◌∷◌, ◌++◌, length, done, ok,
}
use mathlib.Core.Path.{subst}
use skl_rs.Alloc.{Filler, copy, noop}
use skl_rs.Api.{get_or_insert, get_or_remove, inserted, expect_right, map_err, updating}
use skl_rs.Attempt.{left, continue, lift}
use skl_rs.Codec.{u32}
use skl_rs.Comparator.{Bytes, Trailer}
use skl_rs.Key
use skl_rs.Key.{Key, occupied, remove, on_fail}
use skl_rs.Map.{SkipMap, VersionedEntryRef}
use skl_rs.Map.Order.{Cell, at}
use skl_rs.Map.Repr.{IsRepr, entry_of}
use skl_rs.Node.Allocator.{IsAllocator}
use skl_rs.Node.Arena.{Arena}
use skl_rs.Spec.{Item, exact, item_of, Refines, shown, unless_removed}
use skl_rs.Spec.Place.{IsSorted-Spot}
use skl_rs.Splice.Level.{Passed, Ahead}
use skl_rs.Update.{present}
use skl_rs.Update.Present.{update-present}

pub present_twice :
    {T : Type 0} (e : VersionedEntryRef T)
    → (r : Option (VersionedEntryRef T)) × (inserted (left (present e)) ≡ done r)
      × (shown r
          ≡ unless_removed (some (record { key = e.key; trailer = e.trailer; value = e.value })))
unfolding inserted present
present_twice {T} e = go e.value
  where
    go :
        (v : Option Bytes)
        → let e' : VersionedEntryRef T = record e { value = v } in
          (r : Option (VersionedEntryRef T)) × (inserted (left (present e')) ≡ done r)
          × (shown r
              ≡ unless_removed (some (record { key = e.key; trailer = e.trailer; value = v })))
    go none = (none, refl, refl)
    go (some v) = (some (record e { value = some v }), refl, refl)

module _ {ar : Arena} {T : Type 0} ⦃tr : Trailer T⦄ (m : SkipMap ar T) (passed : List (Cell T))
    (y : Cell T) (ahead : List (Cell T)) (r : IsRepr m (passed ++ y ∷ ahead)) (key : Bytes) (t : T)
    (p : Passed m (tr.version t) key passed) (same : at m.cmp.cmp (tr.version t) key y ≡ eq)
    (q : Ahead m (tr.version t) key ahead) (table : List ℕ) (rnd : ℕ) where
  -- An operation that is not to replace the entry.
  returned :
      (k0 : Key) (n : ℕ) (f : Filler ⊥)
      → Key.as_ref m k0 ≡ done key
      → on_fail m k0 ≡ m
      → (e : Option (VersionedEntryRef T)) × (map_err
            (expect_right {E = ⊥})
            (updating table rnd t k0 n f false)
            m
          ≡ done (ok e, m))
        × (shown e ≡ unless_removed (some (item_of y)))
  returned k0 n f reads unharmed =
      let (ins, runs) =
        update-present m passed y ahead r key t p same q (λ m'. m') table rnd k0 n f reads
          unharmed in
      let (e, stays, shows) = present_twice (entry_of m y) in
      (
        e,
        ap (λ x. map_err (expect_right {E = ⊥}) (λ m'. continue (λ r. lift (inserted r.0)) x) m)
              runs
            ∙ ap (λ x. map_err (expect_right {E = ⊥}) (λ m'. lift x m) m) stays,
        shows,
      )

-- Where a map that is not read-only holds items, of which one has the key and the version of a
-- trailer: `get_or_insert` and `get_or_remove` return that item and leave the map as it is. Where that
-- item is a removal they leave the map as it is too, but return nothing, which the documentation keeps
-- for a key that was inserted.
pub present-returned :
    {ar : Arena} {T : Type 0} ⦃tr : Trailer T⦄ (laws : IsAllocator ar) (m : SkipMap ar T)
    (items : List (Item T)) (i : Item T) (key v : Bytes) (t : T) (table : List ℕ) (rnd : ℕ)
    → Refines laws m items
    → ar.read_only m.arena ≡ false
    → exact m.cmp.cmp (tr.version t) key items ≡ some i
    → ((e : Option (VersionedEntryRef T)) × (get_or_insert table rnd t key v m ≡ done (ok e, m))
        × (shown e ≡ unless_removed (some i)))
      × ((e : Option (VersionedEntryRef T)) × (get_or_remove table rnd t key m ≡ done (ok e, m))
          × (shown e ≡ unless_removed (some i)))
unfolding get_or_insert get_or_remove Key.as_ref on_fail
present-returned {T = T} ⦃tr = tr⦄ laws m items i key v t table rnd (cells, o, e) writable held =
    let s = IsSorted-Spot m.cmp.cmp o.repr.lawful (tr.version t) key i cells o.repr.sorted (
      subst (λ (is : List (Item T)). exact m.cmp.cmp (tr.version t) key is ≡ some i) (sym e)
        held) in
    let r : IsRepr m (s.passed ++ s.cell ∷ s.ahead) =
      subst (λ (l : List (Cell T)). IsRepr m l) (sym s.whole) o.repr in
    let (a, runs_a, shows_a) =
      returned m s.passed s.cell s.ahead r key t s.before s.same s.behind table rnd (occupied key)
        (u32 (length v)) (copy v) refl refl in
    let (b, runs_b, shows_b) =
      returned m s.passed s.cell s.ahead r key t s.before s.same s.behind table rnd (remove key) 0
        noop refl refl in
    let shown_i = ap (λ j. unless_removed (some j)) s.shows in
    ((a, rw (get_or_insert, writable) runs_a, shows_a ∙ shown_i), (b, runs_b, shows_b ∙ shown_i))
