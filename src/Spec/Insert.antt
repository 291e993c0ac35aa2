-- ===== src/Spec/Insert.antt =====
-- `insert` and `get` (src/map/api.rs) against the items that a map holds.
use Prim.{⊥}
use skl_rs.Prelude.{
  ℕ, ◌+◌, ◌^◌, ◌≤◌, ◌<◌, ◌≡◌, refl, sym, ap, ◌∙◌, inl, inr, ◌⊎◌, Bool, Option, none, some, eq, true,
  false, List, ◌∷◌, ◌++◌, length, Run, done, Result, ok, err, Bool-cases, arith,
}
use mathlib.Core.Path.{subst}
use skl_rs.Alloc.{copy}
use skl_rs.Alloc.Fill.{copy-Fills}
use skl_rs.Alloc.Reason.{IsReason}
use skl_rs.Alloc.Owned.{IsOwned}
use skl_rs.Api.{insert, get_or_insert, inserted, expect_right, map_err, guarded, updating}
use skl_rs.Attempt.{Either, continue, lift}
use skl_rs.Capacity.{Error}
use skl_rs.Codec.{u32, u32_max}
use skl_rs.Comparator.{Bytes, Trailer}
use skl_rs.Key.{occupied}
use skl_rs.Map.{SkipMap, VersionedEntryRef}
use skl_rs.Map.Order.{Cell}
use skl_rs.Node.Allocator.{IsAllocator}
use skl_rs.Node.Arena.{Arena}
use skl_rs.Spec.{Item, add, items_of, IsAbsent, Refines}
use skl_rs.Spec.Place.{Split, IsSorted-Split, items_of-add}
use skl_rs.Splice.{Inserter, fresh_inserter}
use skl_rs.Update.{UpdateOk, update}
use skl_rs.Update.Insert.{Inserts, inserts, refuses, update-Inserts}

module _ {ar : Arena} {T : Type 0} ⦃tr : Trailer T⦄ (laws : IsAllocator ar) (m : SkipMap ar T)
    (items : List (Item T)) (i : Item T) where
  -- How an insertion may end.
  pub data Adds
      : Run (Result (Option (VersionedEntryRef T)) (Error ar.Error) × SkipMap ar T) → Type 0 where
    adds :
        (m' : SkipMap ar T)
        → ar.read_only m.arena ≡ false
        → Refines laws m' (add m.cmp.cmp i items)
        → (m'.cmp ≡ m.cmp) × (m'.opts ≡ m.opts)
        → Adds (done (ok none, m'))
    refused :
        (e : Error ar.Error) (m' : SkipMap ar T)
        → (ar.read_only m.arena ≡ true) × (e ≡ Error.arena ar.read_only_error)
          ⊎ IsReason m i.key i.value e
        → Refines laws m' items
        → (m'.cmp ≡ m.cmp) × (m'.opts ≡ m.opts)
        → Adds (done (err e, m'))

module _ {ar : Arena} {T : Type 0} ⦃tr : Trailer T⦄ (laws : IsAllocator ar) (m : SkipMap ar T)
    (cells : List (Cell T)) (key : Bytes) (t : T) (v : Option Bytes) where
  abbrev pub item : Item T
  item = record { key = key; trailer = t; value = v }

  pub Adds-of :
      ar.read_only m.arena ≡ false
      → (s : Split m.cmp.cmp (tr.version t) key cells)
        (x : Run (Result (UpdateOk T × Inserter) (Either ⊥ (Error ar.Error)) × SkipMap ar T))
      → Inserts laws m s.passed s.ahead key t v x
      → Adds laws m
          (items_of cells)
          item
          (map_err (expect_right {E = ⊥}) (λ m'. continue (λ r. lift (inserted r.0)) x) m)
  unfolding inserted expect_right
  Adds-of writable s x (inserts nd height ins m' o same) =
      let c : Cell T = record { offset = nd; height = height; key = key; trailer = t; value = v } in
      adds m' writable
        (
          s.passed ++ c ∷ s.ahead,
          o,
          items_of-add m.cmp.cmp c s.passed s.ahead s.before s.behind
              ∙ ap (λ cs. add m.cmp.cmp item (items_of cs)) s.whole,
        )
        same
  Adds-of writable s x (refuses e m' why o same) =
      refused e m' (inr why) (s.passed ++ s.ahead, o, ap items_of s.whole) same

-- What `insert` asks of a map and of its arguments: the sizes that the types of the source give, an
-- allocator that keeps its laws, and a comparator that tells different keys apart.
pub record IsReady {ar : Arena} {T : Type 0} ⦃tr : Trailer T⦄ (m : SkipMap ar T) (table : List ℕ)
    (key v : Bytes) : Type 0 where
  pub sized : 0 < tr.size_of
  pub levels : m.opts.max_height < 2 ^ 5
  pub covered : m.opts.max_height ≤ length table
  pub room : m.meta.len + 1 < 2 ^ 32
  pub key_short : length key < 2 ^ 27
  pub value_short : length v < u32_max
  pub exact : (d : Bytes) → m.cmp.cmp key d ≡ eq → key ≡ d

module _ {ar : Arena} {T : Type 0} ⦃tr : Trailer T⦄ (laws : IsAllocator ar) (m : SkipMap ar T)
    (key v : Bytes) (t : T) (table : List ℕ) (rnd : ℕ) (ready : IsReady m table key v)
    (cells : List (Cell T)) (o : IsOwned laws m cells) where
  updated-cells :
      (upserting : Bool)
      → IsAbsent m.cmp.cmp (tr.version t) key (items_of cells)
      → Adds laws m
          (items_of cells)
          (record { key = key; trailer = t; value = some v })
          (guarded {ar = ar}
            (Error.arena ar.read_only_error)
            (map_err
              (expect_right {E = ⊥})
              (updating table rnd t (occupied key) (u32 (length v)) (copy v) upserting))
            m)
  updated-cells upserting absent =
      let s =
        IsSorted-Split m.cmp.cmp o.repr.lawful (tr.version t) key cells o.repr.sorted absent in
      let word : u32 (length v) ≡ length v = omega (arith, ready.value_short) in
      let is =
        subst
          (λ (n : ℕ).
            Inserts {E = ⊥} laws m s.passed s.ahead key t (some v)
              (update (λ m'. m') table rnd t (occupied key) n (copy v) fresh_inserter upserting m))
          (sym word)
          (update-Inserts laws m s.passed s.ahead key t (copy v)
            (subst (λ (l : List (Cell T)). IsOwned laws m l) (sym s.whole) o) s.before s.behind
            ready.sized ready.levels ready.room (λ m'. m') upserting table rnd ready.covered
            ready.key_short ready.exact v (copy-Fills v) ready.value_short) in
      elim (Bool-cases (ar.read_only m.arena)) [
        | inl frozen ↦ rw frozen (
            refused (Error.arena ar.read_only_error) m (inl (frozen, refl)) (cells, o, refl)
              (refl, refl))
        | inr writable ↦ rw writable (Adds-of laws m cells key t (some v) writable s _ is)
      ]

-- Where a map holds items, none of them with the key and the version of the new entry, and where the
-- map and the arguments are ready: `insert` always returns. It returns no entry and a map that holds
-- the items with the new one added; or an error and a map that holds the items as they were. An error
-- has a reason: the map is read-only, the arena has refused an allocation, or at some height that the
-- map allows the key, the value or the entry is too large. The comparator and the options stay.
pub insert-Adds :
    {ar : Arena} {T : Type 0} ⦃tr : Trailer T⦄ (laws : IsAllocator ar) (m : SkipMap ar T)
    (items : List (Item T)) (key v : Bytes) (t : T) (table : List ℕ) (rnd : ℕ)
    → Refines laws m items
    → IsReady m table key v
    → IsAbsent m.cmp.cmp (tr.version t) key items
    → Adds laws m items
        (record { key = key; trailer = t; value = some v })
        (insert table rnd t key v m)
unfolding insert
insert-Adds {T = T} ⦃tr = tr⦄ laws m items key v t table rnd (cells, o, e) ready absent =
    subst
      (λ (is : List (Item T)).
        Adds laws m is (record { key = key; trailer = t; value = some v })
          (insert table rnd t key v m))
      e
      (updated-cells laws m key v t table rnd ready cells o true
        (subst (λ (is : List (Item T)). IsAbsent m.cmp.cmp (tr.version t) key is) (sym e) absent))

-- Where a map holds items, none of them with the key and the version of the new entry, and where the
-- map and the arguments are ready: `get_or_insert` always returns, either no entry and a map that
-- holds the items with the new one added, or an error, for one of the reasons that `insert` has, and
-- a map that holds the items as they were. The comparator and the options stay.
pub get_or_insert-Adds :
    {ar : Arena} {T : Type 0} ⦃tr : Trailer T⦄ (laws : IsAllocator ar) (m : SkipMap ar T)
    (items : List (Item T)) (key v : Bytes) (t : T) (table : List ℕ) (rnd : ℕ)
    → Refines laws m items
    → IsReady m table key v
    → IsAbsent m.cmp.cmp (tr.version t) key items
    → Adds laws m items
        (record { key = key; trailer = t; value = some v })
        (get_or_insert table rnd t key v m)
unfolding get_or_insert
get_or_insert-Adds {T = T} ⦃tr = tr⦄ laws m items key v t table rnd (cells, o, e) ready absent =
    subst
      (λ (is : List (Item T)).
        Adds laws m is (record { key = key; trailer = t; value = some v })
          (get_or_insert table rnd t key v m))
      e
      (updated-cells laws m key v t table rnd ready cells o false
        (subst (λ (is : List (Item T)). IsAbsent m.cmp.cmp (tr.version t) key is) (sym e) absent))
