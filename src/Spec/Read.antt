-- ===== src/Spec/Read.antt =====
-- `get` (src/map/api.rs) against the items that a map holds, and what it finds after an `insert`.
use skl_rs.Prelude.{
  ℕ, ◌≡◌, refl, sym, ap, ◌∙◌, inl, inr, Option, none, some, Ordering, List, [], ◌∷◌, Run, done,
  done-injective, Result, ok, Ordering-cases, Bool, true, false, ◌&&◌, is_eq, leb, arith,
}
use mathlib.Core.Path.{subst}
use skl_rs.Api.{insert}
use skl_rs.Capacity.{Error}
use skl_rs.Comparator.{Bytes, Trailer}
use skl_rs.Comparator.Laws.{IsLawful}
use skl_rs.Map.{SkipMap, VersionedEntryRef}
use skl_rs.Map.Order.{Cell}
use skl_rs.Node.Allocator.{IsAllocator}
use skl_rs.Node.Arena.{Arena}
use skl_rs.Search.{get, valued}
use skl_rs.Search.Get.{lookup_at, live, get-lookup_at}
use skl_rs.Spec.{Item, add, find, item_of, IsAbsent, Refines, shown, unless_removed, at_item}
use skl_rs.Spec.Insert.{Adds, adds, refused, IsReady, insert-Adds}
use skl_rs.Spec.Place.{lookup_at-find}

shown-valued :
    {T : Type 0} (c : Cell T)
    → (v : Option Bytes)
    → shown (valued c.key c.trailer c.offset v)
      ≡ unless_removed (some (record { key = c.key; trailer = c.trailer; value = v }))
shown-valued c none = refl
shown-valued c (some v) = refl

shown-live :
    {T : Type 0} (c : Option (Cell T))
    → shown (live c) ≡ unless_removed (elim c [ none ↦ none | some d ↦ some (item_of d) ])
shown-live none = refl
shown-live (some c) = shown-valued c c.value

-- What `get` finds in a map that holds items: it always returns, and shows the first item of the key
-- that is not newer than the version, or nothing where there is none or it is a removal.
pub get-find :
    {ar : Arena} {T : Type 0} ⦃tr : Trailer T⦄ (laws : IsAllocator ar) (m : SkipMap ar T)
    (items : List (Item T)) (version : ℕ) (key : Bytes)
    → Refines laws m items
    → (e : Option (VersionedEntryRef T)) × (get m version key ≡ done e)
      × (shown e ≡ unless_removed (find m.cmp.cmp version key items))
get-find laws m items version key (cells, o, same) =
    let c = lookup_at m.cmp.cmp version key cells in
    (
      live c,
      get-lookup_at m cells version key o.repr,
      shown-live c
          ∙ ap unless_removed (sym (lookup_at-find m.cmp.cmp version key cells))
          ∙ ap (λ is. unless_removed (find m.cmp.cmp version key is)) same,
    )

module _ {T : Type 0} ⦃tr : Trailer T⦄ (cmp : Bytes → Bytes → Ordering) (laws : IsLawful cmp)
    (i : Item T) where
  abbrev hit : Item T → Bool
  hit j = is_eq (cmp i.key j.key) && leb (tr.version j.trailer) (tr.version i.trailer)

  find-hit : (is : List (Item T)) → find cmp (tr.version i.trailer) i.key (i ∷ is) ≡ some i
  unfolding find
  find-hit is =
      let self : leb (tr.version i.trailer) (tr.version i.trailer) ≡ true = ground arith in
      rw (laws.cmp_refl i.key, self)

  -- An item that was added is found at its own version.
  pub find-add :
      (items : List (Item T))
      → IsAbsent cmp (tr.version i.trailer) i.key items
      → find cmp (tr.version i.trailer) i.key (add cmp i items) ≡ some i
  unfolding find add
  find-add [] absent = find-hit []
  find-add (j ∷ js) absent = elim (Ordering-cases (at_item cmp (tr.version i.trailer) i.key j)) [
    | inl below ↦ rw below (find-hit (j ∷ js))
    | inr (inl same) ↦ absurd (absent.0 same)
    | inr (inr above) ↦
        let miss : hit j ≡ false = ground arith in rw (above, miss) (find-add js absent.1)
  ]

module _ {ar : Arena} {T : Type 0} ⦃tr : Trailer T⦄ (laws : IsAllocator ar) (m : SkipMap ar T)
    (items : List (Item T)) (i : Item T) where
  pub Adds-ok :
      (x : Run (Result (Option (VersionedEntryRef T)) (Error ar.Error) × SkipMap ar T))
      → Adds laws m items i x
      → (e : Option (VersionedEntryRef T)) (m' : SkipMap ar T) → x ≡ done (ok e, m')
      → Refines laws m' (add m.cmp.cmp i items) × (m'.cmp ≡ m.cmp)
  Adds-ok x (adds m' writable r same) e m'' done_ok =
      let same_map : m' ≡ m'' = ap (λ p. p.1) (done-injective done_ok) in
      subst (λ (x : SkipMap ar T). Refines laws x (add m.cmp.cmp i items) × (x.cmp ≡ m.cmp))
        same_map (r, same.0)
  Adds-ok x (refused er m' why r same) e m'' done_ok = cc

-- Where a map holds items, none of which has the key and the version of a trailer, and the map and
-- the arguments are ready for it: what `insert` stores, `get` finds in the map after it, at the
-- version of the trailer.
pub insert-get :
    {ar : Arena} {T : Type 0} ⦃tr : Trailer T⦄ (laws : IsAllocator ar) (m : SkipMap ar T)
    (items : List (Item T)) (key v : Bytes) (t : T) (table : List ℕ) (rnd : ℕ)
    → Refines laws m items
    → IsReady m table key v
    → IsAbsent m.cmp.cmp (tr.version t) key items
    → (old : Option (VersionedEntryRef T)) (m' : SkipMap ar T)
    → insert table rnd t key v m ≡ done (ok old, m')
    → (e : Option (VersionedEntryRef T)) × (get m' (tr.version t) key ≡ done e)
      × (shown e ≡ some (record { key = key; trailer = t; value = some v }))
insert-get {T = T} ⦃tr = tr⦄ laws m items key v t table rnd (cells, o, same) ready absent old m'
      runs =
    let i : Item T = record { key = key; trailer = t; value = some v } in
    let (r, cmp_same) =
      Adds-ok laws m items i (insert table rnd t key v m)
        (insert-Adds laws m items key v t table rnd (cells, o, same) ready absent) old m' runs in
    let (e, gets, shows) = get-find laws m' (add m.cmp.cmp i items) (tr.version t) key r in
    (
      e,
      gets,
      shows
          ∙ ap (λ c. unless_removed (find c.cmp (tr.version t) key (add m.cmp.cmp i items)))
              cmp_same
          ∙ ap unless_removed (find-add m.cmp.cmp o.repr.lawful i items absent),
    )
