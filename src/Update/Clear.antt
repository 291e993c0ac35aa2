-- ===== src/Update/Clear.antt =====
-- `update` (src/map.rs) for a removal of a key that is in the map at the version, where its value is to
-- be removed.
use skl_rs.Prelude.{
  ℕ, ◌^◌, ◌<◌, ◌≡◌, refl, ap, ◌∙◌, true, Option, none, some, eq, List, ◌∷◌, ◌++◌, All-split, done,
  ok,
}
use skl_rs.Alloc.{Filler}
use skl_rs.Attempt.{left}
use skl_rs.Comparator.{Bytes, Trailer}
use skl_rs.Key
use skl_rs.Key.{Key, remove, on_fail}
use skl_rs.Map.{SkipMap}
use skl_rs.Map.Order.{Cell, at, IsSorted-Monotone}
use skl_rs.Map.Repr.{Holds, IsRepr, from_node-Holds}
use skl_rs.Map.Revalue.{Monotone-met}
use skl_rs.Node.{Node}
use skl_rs.Node.Arena.{Arena}
use skl_rs.Splice.{Pointer, Inserter, fresh_inserter}
use skl_rs.Splice.Present.{find_splice_found}
use skl_rs.Update.{search, with_place, update}
use skl_rs.Value.Clear.{old_size, cleared_map, clear_value-runs}

module _ {ar : Arena} {T E : Type 0} ⦃tr : Trailer T⦄ (m : SkipMap ar T) (passed : List (Cell T))
    (y : Cell T) (ahead : List (Cell T)) (r : IsRepr m (passed ++ y ∷ ahead)) (n : Node)
    (node_at : m.memory.nodes y.offset ≡ some n) (low : old_size m y.offset n < 2 ^ 32)
    (key : Bytes) (t : T) (met : at m.cmp.cmp (tr.version t) key y ≡ eq) (table : List ℕ)
    (rnd value_size : ℕ) (f : Filler E) where
  with_place_found :
      (p : Option Pointer) (ins : Inserter)
      → with_place
          (λ m'. m')
          table
          rnd
          t
          (remove key)
          value_size
          f
          true
          (done (record { found = true; found_key = p; curr = some y.offset }, ins))
          m
        ≡ done (ok (left none, ins), cleared_map m y.offset n)
  unfolding with_place on_fail
  with_place_found p ins =
      let h = (All-split (Holds m) passed (y ∷ ahead) r.holds).1.0 in
      rw (from_node-Holds m y h, h.key_read, clear_value-runs m y.offset n node_at low) refl

  -- The node is marked as removed, and no entry is returned.
  pub update-clears :
      (ins : Inserter) × (update
          (λ m'. m')
          table
          rnd
          t
          (remove key)
          value_size
          f
          fresh_inserter
          true
          m
        ≡ done (ok (left none, ins), cleared_map m y.offset n))
  unfolding update search Key.as_ref
  update-clears =
      let (p, q) =
        Monotone-met m.cmp.cmp t none y ahead (tr.version t) key passed
          (IsSorted-Monotone m.cmp.cmp r.lawful (tr.version t) key (passed ++ y ∷ ahead) r.sorted)
          met in
      let (found_key, ins, runs) =
        find_splice_found m (tr.version t) key passed y ahead r p met q in
      (
        ins,
        ap (λ x. with_place (λ m'. m') table rnd t (remove key) value_size f true x m) runs
            ∙ with_place_found found_key ins,
      )
