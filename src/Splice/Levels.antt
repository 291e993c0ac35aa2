-- ===== src/Splice/Levels.antt =====
-- `find_splice_for_level` and `find_splice` (src/map.rs) against the list of cells.
use mathlib.Core.Path.{subst}
use skl_rs.Prelude.{
  ℕ, zero, suc, ◌≤◌, ◌<◌, ◌≡◌, refl, ◌∙◌, inl, inr, Bool, false, ◌≢◌, Option, none, some, List, [],
  ◌∷◌, ◌++◌, ◌==◌, keep, keep-append, length-keep, All-keep, get_elem?-set_self, get_elem?-set_ne,
  length-set, All, length, length-append, done, arith, All-split, get_elem?, set, lt→ltb,
  Bool-cases, ==_ne, eq_of_==,
}
use skl_rs.Comparator.{Bytes, Trailer}
use skl_rs.Height.{max_tower}
use skl_rs.Map.{SkipMap, get_next}
use skl_rs.Map.Order.{Cell}
use skl_rs.Map.Repr.{tall, Chain, Holds, IsRepr}
use skl_rs.Node.Arena.{Arena}
use skl_rs.Search.{rounds}
use skl_rs.Search.Near.{first_offset}
use skl_rs.Splice.{
  Pointer, Splice, Inserter, first_key, find_splice_for_level, splice_levels, find_splice,
  fresh_inserter,
}
use skl_rs.Splice.Level.{
  last_offset, Offered, Offered-first_key, Serves, Passed, Ahead, between, level_loop-between,
}

-- The splices of an inserter bracket the place between `passed` and `ahead` on the levels below one,
-- and are those of another inserter above.
pub record Brackets {T : Type 0} (head tail : ℕ) (passed ahead : List (Cell T)) (levels : ℕ)
    (before after : Inserter) : Type 0 where
  pub at_level :
      (l : ℕ)
      → l < levels
      → get_elem? after.spl l
        ≡ some (record {
          prev = last_offset head (keep (tall l) passed);
          next = first_offset tail (keep (tall l) ahead);
        })
  pub above : (l : ℕ) → levels ≤ l → get_elem? after.spl l ≡ get_elem? before.spl l
  pub same_height : after.height ≡ before.height

Brackets-step :
    {T : Type 0} (head tail : ℕ) (passed ahead : List (Cell T)) (level : ℕ) (ins after : Inserter)
    → level < length ins.spl
    → Brackets head tail passed ahead level
        (record ins {
          spl = set ins.spl level (record {
            prev = last_offset head (keep (tall level) passed);
            next = first_offset tail (keep (tall level) ahead);
          });
        })
        after
    → Brackets head tail passed ahead (suc level) ins after
Brackets-step head tail passed ahead level ins after sized is = record {
  at_level = λ l h. elim (Bool-cases (level == l)) [
    | inl same ↦
        let e = eq_of_== level l same in
        subst
          (λ i.
            get_elem? after.spl i
            ≡ some (record {
              prev = last_offset head (keep (tall i) passed);
              next = first_offset tail (keep (tall i) ahead);
            }))
          e (is.above level (omega arith) ∙ get_elem?-set_self ins.spl level _ sized)
    | inr other ↦ is.at_level l (ground arith)
  ];
  above = λ l h. is.above l (omega arith) ∙ get_elem?-set_ne ins.spl level l _ (omega arith);
  same_height = is.same_height;
}

module _ {ar : Arena} {T : Type 0} ⦃tr : Trailer T⦄ (m : SkipMap ar T) (version : ℕ) (key : Bytes)
    (passed ahead : List (Cell T)) (r : IsRepr m (passed ++ ahead))
    (p : Passed m version key passed) (q : Ahead m version key ahead) where
  first_offset-ne_null : (cs : List (Cell T)) → All (Holds m) cs → first_offset m.tail cs ≢ 0
  unfolding first_offset
  first_offset-ne_null [] h = r.tail_ne_null
  first_offset-ne_null (c ∷ cs) h = h.0.ne_null

  pub find_splice_for_level-between :
      (P : Pointer → Type 0) (level : ℕ)
      → All (Serves m version key P) ahead
      → level < m.opts.max_height
      → (k : Option Pointer) × (find_splice_for_level m version key level m.head
          ≡ done
              (between m version key m.head (keep (tall level) passed) (keep (tall level) ahead) k))
        × Offered P k
  unfolding find_splice_for_level
  find_splice_for_level-between P level v below =
      level_loop-between m version key P (rounds m) level m.head (keep (tall level) passed)
        (keep (tall level) ahead)
        (subst (λ cs. Chain (λ nd. get_next m nd level) m.head cs m.tail)
          (keep-append (tall level) passed ahead) (r.levels level below))
        (subst (All (Holds m)) (keep-append (tall level) passed ahead)
          (All-keep (Holds m) (tall level) (passed ++ ahead) r.holds))
        (All-keep _ (tall level) passed p) (All-keep _ (tall level) ahead q)
        (All-keep _ (tall level) ahead v)
        (omega (arith, length-keep (tall level) passed, length-append passed ahead, r.counted))

  splice_levels_lem :
      (P : Pointer → Type 0) (levels : ℕ) (early : Bool) (k : Option Pointer) (ins : Inserter)
      → All (Serves m version key P) ahead
      → Offered P k
      → levels ≤ m.opts.max_height
      → levels ≤ length ins.spl
      → (k' : Option Pointer) × (after : Inserter) × (splice_levels m version key levels m.head
            early false k ins
          ≡ done (record { found = false; found_key = k'; curr = none }, after))
        × Brackets m.head m.tail passed ahead levels ins after
        × Offered P k'
  unfolding splice_levels
  splice_levels_lem P zero early k ins v offered below sized = (
    k,
    ins,
    refl,
    record { at_level = λ l h. absurd (omega arith); above = λ l h. refl; same_height = refl },
    offered,
  )
  splice_levels_lem P (suc level) early k ins v offered below sized =
      let (found_key, e, here_offered) = find_splice_for_level-between P level v below in
      let here : Splice = record {
        prev = last_offset m.head (keep (tall level) passed);
        next = first_offset m.tail (keep (tall level) ahead);
      } in
      let (k', after, runs, is, last_offered) =
        splice_levels_lem P level early (first_key k found_key)
          (record ins { spl = set ins.spl level here }) v
          (Offered-first_key P k found_key offered here_offered) (omega arith)
          (rw length-set (omega arith)) in
      let linked : (first_offset m.tail (keep (tall level) ahead) == 0) ≡ false = ==_ne _ _ (
        first_offset-ne_null (keep (tall level) ahead)
          (All-keep (Holds m) (tall level) ahead (All-split _ passed ahead r.holds).1)) in
      (
        k',
        after,
        rw (e, linked) runs,
        Brackets-step m.head m.tail passed ahead level ins after sized is,
        last_offered,
      )

  -- `find_splice` with a new inserter, and what holds of the stored key that it offers.
  pub find_splice-Offered :
      (P : Pointer → Type 0) (early : Bool)
      → All (Serves m version key P) ahead
      → m.opts.max_height ≤ max_tower
      → (k : Option Pointer) × (after : Inserter) × (find_splice m version key fresh_inserter early
          ≡ done (record { found = false; found_key = k; curr = none }, after))
        × Brackets m.head m.tail passed ahead m.meta.height
            (record fresh_inserter { height = m.meta.height })
            after
        × Offered P k
  unfolding find_splice fresh_inserter
  find_splice-Offered P early v bounded = rw (lt→ltb 0 m.meta.height r.height_pos) (
      splice_levels_lem P m.meta.height early none
        (record fresh_inserter { height = m.meta.height }) v tt r.height_max
        (omega (arith, r.height_max)))

  -- On a map of at most 32 levels that stands for cells, of which a query has passed the first ones
  -- and comes before the others, `find_splice` with a new inserter returns: it reports that the query
  -- is not there, and leaves splices that hold its neighbours on each level of the list.
  pub find_splice-Brackets :
      (early : Bool)
      → m.opts.max_height ≤ max_tower
      → (k : Option Pointer) × (after : Inserter) × (find_splice m version key fresh_inserter early
          ≡ done (record { found = false; found_key = k; curr = none }, after))
        × Brackets m.head m.tail passed ahead m.meta.height
            (record fresh_inserter { height = m.meta.height })
            after
  find_splice-Brackets early bounded =
      let (k, after, runs, is, _) = find_splice-Offered (λ p. Unit) early (All-any ahead) bounded in
      (k, after, runs, is)
    where
      All-any : (cs : List (Cell T)) → All (Serves m version key (λ p. Unit)) cs
      All-any [] = tt
      All-any (c ∷ cs) = ((λ n e s. tt), All-any cs)
