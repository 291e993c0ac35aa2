-- ===== src/Update/Present.antt =====
-- `update` (src/map.rs) with a key that is in the map at the version, where it is not to be replaced.
use skl_rs.Prelude.{
  ℕ, ◌^◌, ◌<◌, ◌≡◌, refl, sym, ap, ◌∙◌, false, true, Option, some, eq, List, ◌∷◌, ◌++◌, All-split,
  done, Result, ok,
}
use skl_rs.Prelude
use skl_rs.Alloc.{Filler}
use skl_rs.Attempt.{left}
use skl_rs.Comparator.{Bytes, Trailer}
use skl_rs.Key
use skl_rs.Key.{Key, on_fail}
use skl_rs.Map.{SkipMap}
use skl_rs.Map.Order.{Cell, at}
use skl_rs.Map.Repr.{Holds, IsRepr, entry_of, from_node-Holds}
use skl_rs.Node.Arena.{Arena}
use skl_rs.Splice.{Pointer, Inserter, find_splice, fresh_inserter}
use skl_rs.Splice.Level.{Passed, Ahead}
use skl_rs.Splice.Present.{find_splice_found}
use skl_rs.Update.{present, search, with_place, update}

module _ {ar : Arena} {T E : Type 0} ⦃tr : Trailer T⦄ (m : SkipMap ar T) (passed : List (Cell T))
    (y : Cell T) (ahead : List (Cell T)) (r : IsRepr m (passed ++ y ∷ ahead)) (key : Bytes) (t : T)
    (p : Passed m (tr.version t) key passed) (same : at m.cmp.cmp (tr.version t) key y ≡ eq)
    (q : Ahead m (tr.version t) key ahead) where
  with_place_found :
      (others : SkipMap ar T → SkipMap ar T) (table : List ℕ) (rnd : ℕ) (k0 : Key) (n : ℕ)
      (f : Filler E) (k : Option Pointer) (ins : Inserter)
      → on_fail m k0 ≡ m
      → with_place others table rnd t k0 n f false
          (done (record { found = true; found_key = k; curr = some y.offset }, ins))
          m
        ≡ done (ok (left (present (entry_of m y)), ins), m)
  unfolding with_place
  with_place_found others table rnd k0 n f k ins unharmed =
      rw (from_node-Holds m y (All-split (Holds m) passed (y ∷ ahead) r.holds).1.0, unharmed) refl

  -- The entry is returned, and the map is as it was.
  pub update-present :
      (others : SkipMap ar T → SkipMap ar T) (table : List ℕ) (rnd : ℕ) (k0 : Key) (n : ℕ)
      (f : Filler E)
      → Key.as_ref m k0 ≡ done key
      → on_fail m k0 ≡ m
      → (ins : Inserter) × (update others table rnd t k0 n f fresh_inserter false m
          ≡ done (ok (left (present (entry_of m y)), ins), m))
  unfolding update search
  update-present others table rnd k0 n f reads unharmed =
      let (k, ins, runs) = find_splice_found m (tr.version t) key passed y ahead r p same q in
      (
        ins,
        ap (λ x. with_place others table rnd t k0 n f false x m)
              (ap
                  (λ x.
                    Prelude.◌>>=◌ x
                      (λ bytes. find_splice m (tr.version t) bytes fresh_inserter true))
                  reads
                ∙ runs)
            ∙ with_place_found others table rnd k0 n f k ins unharmed,
      )
