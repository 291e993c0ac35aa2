-- ===== src/Update/Overwrite.antt =====
-- `update` (src/map.rs) with a key that is in the map at the version, where its value is replaced.
use skl_rs.Prelude.{
  ℕ, ◌<◌, ◌≡◌, refl, sym, ap, ◌∙◌, true, Option, some, eq, List, ◌∷◌, ◌++◌, All-split, length, Run,
  done, Result, ok, err,
}
use mathlib.Core.Path.{subst}
use skl_rs.Alloc.{Filler}
use skl_rs.Alloc.Fill.{Fills}
use skl_rs.Alloc.Owned.{IsOwned}
use skl_rs.Alloc.Reason.{IsRefusal}
use skl_rs.Attempt.{Either, left, right, continue, pure}
use skl_rs.Capacity.{Error}
use skl_rs.Codec.{u32_max}
use skl_rs.Comparator.{Bytes, Trailer}
use skl_rs.Key
use skl_rs.Key.{Key, occupied, on_fail}
use skl_rs.Map.{SkipMap}
use skl_rs.Map.Order.{Cell, at, IsSorted-Monotone}
use skl_rs.Map.Repr.{Holds, entry_of, from_node-Holds}
use skl_rs.Map.Revalue.{revalued, same_version, Monotone-met}
use skl_rs.Node.Allocator.{IsAllocator}
use skl_rs.Node.Arena.{Arena}
use skl_rs.Splice.{Pointer, Inserter, fresh_inserter}
use skl_rs.Splice.Present.{find_splice_found}
use skl_rs.Update.{UpdateOk, present, search, with_place, update}
use skl_rs.Value.{set_value}
use skl_rs.Value.Overwrite.{IsReleasable, Overwrites, overwritten, refused, set_value-Overwrites}

module _ {ar : Arena} {T E : Type 0} ⦃tr : Trailer T⦄ (laws : IsAllocator ar) (m : SkipMap ar T)
    (passed : List (Cell T)) (y : Cell T) (ahead : List (Cell T)) (t : T) (v : Bytes) where
  -- How `update` ends: the old entry is returned, and the map has the new one in its place; or the
  -- arena has refused a block, and the map is as it was.
  pub data Replaces
      : Run (Result (UpdateOk T × Inserter) (Either E (Error ar.Error)) × SkipMap ar T)
        → Type 0 where
    replaces :
        (ins : Inserter) (m' : SkipMap ar T)
        → IsOwned laws m' (passed ++ revalued t (some v) y ∷ ahead)
        → (m'.cmp ≡ m.cmp) × (m'.opts ≡ m.opts)
        → Replaces (done (ok (left (present (entry_of m y)), ins), m'))
    refuses : (e : ar.Error) → IsRefusal ar e → Replaces (done (err (right (Error.arena e)), m))

  module _ (o : IsOwned laws m (passed ++ y ∷ ahead)) (k : IsReleasable laws m passed y ahead)
      (sized : 0 < tr.size_of) (short : length v < u32_max) (key : Bytes)
      (met : at m.cmp.cmp (tr.version t) key y ≡ eq) (f : Filler E) (fills : Fills f v) where
    Replaces-of :
        (ins : Inserter) (x : Run (Result (Unit {0}) (Either E (Error ar.Error)) × SkipMap ar T))
        → Overwrites laws m passed y ahead t v x
        → Replaces (
            continue
              (λ r. pure (r, ins))
              (continue {S = SkipMap ar T} {F = Either E (Error ar.Error)}
                (λ u. pure (left (present (entry_of m y))))
                x))
    Replaces-of ins x (overwritten m' after same) = replaces ins m' after same
    Replaces-of ins x (refused e why) = refuses e why

    with_place_found :
        (others : SkipMap ar T → SkipMap ar T) (table : List ℕ) (rnd : ℕ) (p : Option Pointer)
        (ins : Inserter)
        → with_place others table rnd t
            (occupied key)
            (length v)
            f
            true
            (done (record { found = true; found_key = p; curr = some y.offset }, ins))
            m
          ≡ continue
              (λ r. pure (r, ins))
              (continue {S = SkipMap ar T} {F = Either E (Error ar.Error)}
                (λ u. pure (left (present (entry_of m y))))
                (set_value y.offset t (length v) f m))
    unfolding with_place on_fail
    with_place_found others table rnd p ins =
        rw (from_node-Holds m y (All-split (Holds m) passed (y ∷ ahead) o.repr.holds).1.0) refl

    pub update-Replaces :
        (others : SkipMap ar T → SkipMap ar T) (table : List ℕ) (rnd : ℕ)
        → Replaces (update others table rnd t (occupied key) (length v) f fresh_inserter true m)
    unfolding update search Key.as_ref
    update-Replaces others table rnd =
        let (p, q) =
          Monotone-met m.cmp.cmp t (some v) y ahead (tr.version t) key passed
            (IsSorted-Monotone m.cmp.cmp o.repr.lawful (tr.version t) key (passed ++ y ∷ ahead)
              o.repr.sorted)
            met in
        let (found_key, ins, runs) =
          find_splice_found m (tr.version t) key passed y ahead o.repr p met q in
        let version = same_version m.cmp.cmp t (some v) y ahead key met in
        subst (λ x. Replaces x)
          (sym (
            ap (λ x. with_place others table rnd t (occupied key) (length v) f true x m) runs
            ∙ with_place_found others table rnd found_key ins))
          (Replaces-of ins _
            (set_value-Overwrites laws m passed y ahead t v o k sized short version f fills))
