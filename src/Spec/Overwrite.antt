-- ===== src/Spec/Overwrite.antt =====
-- `insert` (src/map/api.rs) of a key that has a value of the version: the value is replaced.
use Prim.{⊥}
use skl_rs.Prelude.{
  ℕ, Ordering, gt, Ordering-cases, inl, inr, [], All, leb, is_eq, ◌&&◌, ◌∙◌, refl, ◌<◌, ◌≡◌, sym,
  ap, Option, some, eq, true, false, List, ◌∷◌, ◌++◌, length, Run, done, Result, ok, err, arith,
}
use mathlib.Core.Path.{subst}
use skl_rs.Alloc.{copy}
use skl_rs.Alloc.Fill.{copy-Fills}
use skl_rs.Alloc.Owned.{IsOwned}
use skl_rs.Alloc.Reason.{IsRefusal}
use skl_rs.Api.{insert, inserted, expect_right, map_err}
use skl_rs.Attempt.{Either, continue, lift}
use skl_rs.Capacity.{Error}
use skl_rs.Codec.{u32, u32_max}
use skl_rs.Comparator.{Bytes, Comparator, Trailer}
use skl_rs.Key.{occupied}
use skl_rs.Map.{SkipMap, VersionedEntryRef}
use skl_rs.Map.Order.{Cell, at, IsSorted-Monotone}
use skl_rs.Map.Repr.{entry_of}
use skl_rs.Map.Revalue.{revalued, Monotone-met}
use skl_rs.Node.Allocator.{IsAllocator}
use skl_rs.Node.Arena.{Arena}
use skl_rs.Search.{get}
use skl_rs.Spec.{find, items_of, item_of, shown, unless_removed}
use skl_rs.Spec.Read.{get-find}
use skl_rs.Spec.Present.{present_twice}
use skl_rs.Splice.{Inserter, fresh_inserter}
use skl_rs.Update.{UpdateOk, update}
use skl_rs.Update.Overwrite.{Replaces, replaces, refuses, update-Replaces}
use skl_rs.Value.Overwrite.{IsReleasable}

module _ {T : Type 0} ⦃tr : Trailer T⦄ (cmp : Bytes → Bytes → Ordering) (key : Bytes) (t : T)
    (v : Option Bytes) (y : Cell T) (met : at cmp (tr.version t) key y ≡ eq) where
  -- The item in the place of the old one is the first that a search at its version meets.
  find-revalued :
      (passed ahead : List (Cell T))
      → All (λ c. at cmp (tr.version t) key c ≡ gt) passed
      → find cmp (tr.version t) key (items_of (passed ++ revalued t v y ∷ ahead))
        ≡ some (item_of (revalued t v y))
  unfolding find
  find-revalued [] ahead p = elim (Ordering-cases (cmp key y.key)) [
    | inl below ↦ absurd (ground arith)
    | inr (inl same) ↦
        let self : leb (tr.version t) (tr.version t) ≡ true = ground arith in rw (same, self)
    | inr (inr above) ↦ absurd (ground arith)
  ]
  find-revalued (c ∷ passed) ahead p =
      let miss : (is_eq (cmp key c.key) && leb (tr.version c.trailer) (tr.version t)) ≡ false =
        ground (arith, p.0) in
      rw miss (find-revalued passed ahead p.1)

module _ {ar : Arena} {T : Type 0} ⦃tr : Trailer T⦄ (laws : IsAllocator ar) (m : SkipMap ar T)
    (passed : List (Cell T)) (y : Cell T) (ahead : List (Cell T)) (key : Bytes) (t : T)
    (v : Bytes) where
  -- `get` finds the new value at the version of the trailer.
  abbrev Finds : SkipMap ar T → Type 0
  Finds m' =
      (e : Option (VersionedEntryRef T)) × (get m' (tr.version t) key ≡ done e)
      × (shown e ≡ some (record { key = y.key; trailer = t; value = some v }))

  -- How an insertion over an entry may end.
  pub data Swaps
      : Run (Result (Option (VersionedEntryRef T)) (Error ar.Error) × SkipMap ar T) → Type 0 where
    swaps :
        (e : Option (VersionedEntryRef T)) (m' : SkipMap ar T)
        → shown e ≡ unless_removed (some (item_of y))
        → IsOwned laws m' (passed ++ revalued t (some v) y ∷ ahead)
        → Finds m'
        → (m'.cmp ≡ m.cmp) × (m'.opts ≡ m.opts)
        → Swaps (done (ok e, m'))
    refused : (e : ar.Error) → IsRefusal ar e → Swaps (done (err (Error.arena e), m))

  module _ (o : IsOwned laws m (passed ++ y ∷ ahead))
      (met : at m.cmp.cmp (tr.version t) key y ≡ eq) where
    finds :
        (m' : SkipMap ar T)
        → IsOwned laws m' (passed ++ revalued t (some v) y ∷ ahead)
        → m'.cmp ≡ m.cmp
        → Finds m'
    finds m' after same =
        let items = items_of (passed ++ revalued t (some v) y ∷ ahead) in
        let (e, gets, shows) =
          get-find laws m' items (tr.version t) key
            (passed ++ revalued t (some v) y ∷ ahead, after, refl) in
        let (p, _) =
          Monotone-met m.cmp.cmp t (some v) y ahead (tr.version t) key passed
            (IsSorted-Monotone m.cmp.cmp o.repr.lawful (tr.version t) key (passed ++ y ∷ ahead)
              o.repr.sorted)
            met in
        (
          e,
          gets,
          shows
              ∙ ap (λ (c : Comparator). unless_removed (find c.cmp (tr.version t) key items)) same
              ∙ ap unless_removed (find-revalued m.cmp.cmp key t (some v) y met passed ahead p),
        )

    Swaps-of :
        (x : Run (Result (UpdateOk T × Inserter) (Either ⊥ (Error ar.Error)) × SkipMap ar T))
        → Replaces laws m passed y ahead t v x
        → Swaps (map_err (expect_right {E = ⊥}) (λ m'. continue (λ r. lift (inserted r.0)) x) m)
    unfolding expect_right
    Swaps-of x (replaces ins m' after same) =
        let (e, stays, shows) = present_twice (entry_of m y) in
        subst (λ z. Swaps z)
          (sym (ap (λ z. map_err (expect_right {E = ⊥}) (λ k. lift z m') m) stays))
          (swaps e m' shows after (finds m' after same.0) same)
    Swaps-of x (refuses e why) = refused e why

-- Where a map that is not read-only has cells in its memory, one of which has the key and the version
-- of a trailer, and the value of that cell can be given back: `insert` always returns. It returns the
-- old entry, and the map has the same cells but for the new trailer and the new value in that one,
-- which `get` then finds at the version; or the arena has refused a block, and the map is as it was. The comparator and the options stay.
pub insert-Swaps :
    {ar : Arena} {T : Type 0} ⦃tr : Trailer T⦄ (laws : IsAllocator ar) (m : SkipMap ar T)
    (passed : List (Cell T)) (y : Cell T) (ahead : List (Cell T)) (key v : Bytes) (t : T)
    (table : List ℕ) (rnd : ℕ)
    → IsOwned laws m (passed ++ y ∷ ahead)
    → IsReleasable laws m passed y ahead
    → at m.cmp.cmp (tr.version t) key y ≡ eq
    → ar.read_only m.arena ≡ false
    → 0 < tr.size_of
    → length v < u32_max
    → Swaps laws m passed y ahead key t v (insert table rnd t key v m)
unfolding insert
insert-Swaps ⦃tr = tr⦄ laws m passed y ahead key v t table rnd o k met writable sized short =
    let word : u32 (length v) ≡ length v = omega (arith, short) in
    rw (insert, writable)
      (Swaps-of laws m passed y ahead key t v o met _ (
        subst
          (λ (n : ℕ).
            Replaces {E = ⊥} laws m passed y ahead t v
              (update (λ m'. m') table rnd t (occupied key) n (copy v) fresh_inserter true m))
          (sym word)
          (update-Replaces laws m passed y ahead t v o k sized short key met (copy v) (copy-Fills v)
            (λ m'. m') table rnd)))
