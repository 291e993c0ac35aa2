-- ===== src/Splice/Present.antt =====
-- `find_splice` (src/map.rs) where the list holds the key and the version.
use mathlib.Core.Path.{subst}
use skl_rs.Prelude.{
  ℕ, zero, suc, ◌-◌, ◌<◌, ◌≡◌, refl, ◌∙◌, inl, inr, true, false, Option, none, some, eq, List, [],
  ◌∷◌, ◌++◌, ◌==◌, keep, keep-append, length-keep, All-keep, All, All-split, length-append, done,
  arith, set, lt→ltb, Bool-cases, ==_ne,
}
use skl_rs.Comparator.{Bytes, Trailer}
use skl_rs.Map.{SkipMap, get_next}
use skl_rs.Map.Order.{Cell, at}
use skl_rs.Map.Repr.{tall, Chain, Holds, IsRepr}
use skl_rs.Node.Arena.{Arena}
use skl_rs.Search.{rounds}
use skl_rs.Search.Near.{first_offset}
use skl_rs.Splice.{
  Pointer, Splice, FindResult, Inserter, first_key, find_splice_for_level, splice_levels,
  find_splice, fresh_inserter,
}
use skl_rs.Splice.Level.{
  last_offset, Serves, Passed, Ahead, between, level_loop-between, level_loop_found,
}

module _ {ar : Arena} {T : Type 0} ⦃tr : Trailer T⦄ (m : SkipMap ar T) (version : ℕ) (key : Bytes)
    (passed : List (Cell T)) (y : Cell T) (ahead : List (Cell T))
    (r : IsRepr m (passed ++ y ∷ ahead)) (p : Passed m version key passed)
    (same : at m.cmp.cmp version key y ≡ eq) (q : Ahead m version key ahead) where
  -- Nothing is asked of a stored key here.
  All-Serves : (cs : List (Cell T)) → All (Serves m version key (λ k. Unit)) cs
  All-Serves [] = tt
  All-Serves (c ∷ cs) = ((λ n e s. tt), All-Serves cs)

  first_offset-ne_null :
      (cs : List (Cell T)) → All (Holds m) cs → (first_offset m.tail cs == 0) ≡ false
  unfolding first_offset
  first_offset-ne_null [] h = ==_ne _ _ r.tail_ne_null
  first_offset-ne_null (c ∷ cs) h = ==_ne _ _ h.0.ne_null

  ahead-Holds : All (Holds m) ahead
  ahead-Holds = (All-split (Holds m) passed (y ∷ ahead) r.holds).1.1

  -- On a level that the node has a link on, the loop finds it.
  level_found :
      (level : ℕ)
      → level < m.opts.max_height
      → tall level y ≡ true
      → (f : FindResult) × (find_splice_for_level m version key level m.head ≡ done f)
        × (f.found ≡ true)
        × (f.curr ≡ some y.offset)
  unfolding find_splice_for_level
  level_found level below high =
      let parts : keep (tall level) (passed ++ y ∷ ahead)
          ≡ keep (tall level) passed ++ y ∷ keep (tall level) ahead =
        keep-append (tall level) passed (y ∷ ahead) ∙ rw high refl in
      level_loop_found m version key (rounds m) level m.head (keep (tall level) passed) y
        (keep (tall level) ahead)
        (subst (λ cs. Chain (λ nd. get_next m nd level) m.head cs m.tail) parts
          (r.levels level below))
        (subst (All (Holds m)) parts (All-keep (Holds m) (tall level) _ r.holds))
        (All-keep _ (tall level) passed p) same
        (omega
          (arith, length-keep (tall level) passed, length-append passed (y ∷ ahead), r.counted))

  -- On a level above its tower, the loop stops between its neighbours.
  level_missed :
      (level : ℕ)
      → level < m.opts.max_height
      → tall level y ≡ false
      → (k : Option Pointer) × (find_splice_for_level m version key level m.head
          ≡ done
              (between m version key m.head (keep (tall level) passed) (keep (tall level) ahead) k))
  unfolding find_splice_for_level
  level_missed level below low =
      let parts : keep (tall level) (passed ++ y ∷ ahead)
          ≡ keep (tall level) passed ++ keep (tall level) ahead =
        keep-append (tall level) passed (y ∷ ahead) ∙ rw low refl in
      let (k, e, _) =
        level_loop-between m version key (λ p. Unit) (rounds m) level m.head
          (keep (tall level) passed) (keep (tall level) ahead)
          (subst (λ cs. Chain (λ nd. get_next m nd level) m.head cs m.tail) parts
            (r.levels level below))
          (subst (All (Holds m)) parts (All-keep (Holds m) (tall level) _ r.holds))
          (All-keep _ (tall level) passed p) (All-keep _ (tall level) ahead q)
          (All-Serves (keep (tall level) ahead))
          (omega (
            arith,
            length-keep (tall level) passed,
            length-append passed (y ∷ ahead),
            r.counted,
          )) in
      (k, e)

  levels_found :
      (level : ℕ) (found_key : Option Pointer) (ins : Inserter)
      → level < m.opts.max_height
      → (k : Option Pointer) × (after : Inserter) × (splice_levels m version key
            (suc level)
            m.head
            true
            false
            found_key
            ins
          ≡ done (record { found = true; found_key = k; curr = some y.offset }, after))
  unfolding splice_levels
  levels_found zero found_key ins below =
      let high : tall 0 y ≡ true =
        lt→ltb 0 y.height (All-split (Holds m) passed (y ∷ ahead) r.holds).1.0.has_link in
      let (f, e, yes_found, at_y) = level_found 0 below high in
      (first_key found_key f.found_key, ins, rw (e, yes_found, at_y) refl)
  levels_found (suc level) found_key ins below = elim (Bool-cases (tall (suc level) y)) [
    | inl high ↦
        let (f, e, yes_found, at_y) = level_found (suc level) below high in
        (first_key found_key f.found_key, ins, rw (e, yes_found, at_y) refl)
    | inr low ↦
        let (k, e) = level_missed (suc level) below low in
        let linked =
          first_offset-ne_null (keep (tall (suc level)) ahead)
            (All-keep (Holds m) (tall (suc level)) ahead ahead-Holds) in
        let here : Splice = record {
          prev = last_offset m.head (keep (tall (suc level)) passed);
          next = first_offset m.tail (keep (tall (suc level)) ahead);
        } in
        let (k', after, runs) =
          levels_found level (first_key found_key k)
            (record ins { spl = set ins.spl (suc level) here }) (omega arith) in
        (k', after, rw (e, linked) runs)
  ]

  -- On a map that stands for cells, of which one has the key and the version of the query,
  -- `find_splice` with a new inserter returns early and reports that cell's node.
  pub find_splice_found :
      (k : Option Pointer) × (after : Inserter) × (find_splice m version key fresh_inserter true
        ≡ done (record { found = true; found_key = k; curr = some y.offset }, after))
  unfolding find_splice fresh_inserter
  find_splice_found = rw (lt→ltb 0 m.meta.height r.height_pos) (
      let top : suc (m.meta.height - 1) ≡ m.meta.height = omega (arith, r.height_pos) in
      subst
        (λ h.
          (k : Option Pointer) × (after : Inserter) × (splice_levels m version key h m.head true
              false none (record fresh_inserter { height = m.meta.height })
            ≡ done (record { found = true; found_key = k; curr = some y.offset }, after)))
        top
        (levels_found (m.meta.height - 1) none (record fresh_inserter { height = m.meta.height })
          (omega (arith, r.height_pos, r.height_max))))
