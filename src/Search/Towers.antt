-- ===== src/Search/Towers.antt =====
-- The loop of `find_near` (src/map.rs) over the towers, with its fuel.
use mathlib.Core.Path.{subst}
use skl_rs.Prelude.{
  ℕ, zero, suc, ◌+◌, ◌-◌, ◌≤◌, ◌<◌, ◌≡◌, refl, ap, sym, ◌∙◌, inl, inr, Bool, true, false, Option,
  Ordering, lt, eq, gt, List, [], ◌∷◌, ◌++◌, ltb, ◌==◌, keep, keep-append, All, length, Run, done,
  ◌>>=◌, Bool-cases, arith, lt→ltb, Ordering-cases, length-append, All-split,
}
use skl_rs.Comparator.{Bytes, Trailer}
use skl_rs.Map.{SkipMap, get_next}
use skl_rs.Map.Order.{Cell, at, Monotone, IsSorted-Monotone}
use skl_rs.Map.Repr.{tall, Chain, Holds, IsRepr, order_at-Holds}
use skl_rs.Node.Arena.{Arena}
use skl_rs.Search.{
  go, stop, near_end, near_equal, near_less, near_step, near_loop, find_near, rounds,
}
use skl_rs.Search.Near.{
  first_offset, near_on_list, keep-Found, Chain-after, Monotone-after, answer-skip,
}

module _ {ar : Arena} {T : Type 0} ⦃tr : Trailer T⦄ (m : SkipMap ar T) where
  pub keep-tall_zero : (cells : List (Cell T)) → All (Holds m) cells → keep (tall 0) cells ≡ cells
  keep-tall_zero [] h = refl
  keep-tall_zero (c ∷ cs) h = rw (lt→ltb 0 c.height h.0.has_link, keep-tall_zero cs h.1)

  Chain-first :
      (next : ℕ → Run ℕ) (a : ℕ) (cells : List (Cell T)) (end : ℕ)
      → Chain next a cells end
      → next a ≡ done (first_offset end cells)
  unfolding first_offset
  Chain-first next a [] end c = c
  Chain-first next a (x ∷ xs) end c = c.0

  -- The links from a node lead through the cells at every level up to one.
  abbrev Reaches : ℕ → ℕ → List (Cell T) → Type 0
  Reaches x level cells =
      (l : ℕ) → l ≤ level → Chain (λ nd. get_next m nd l) x (keep (tall l) cells) m.tail

  Reaches-after :
      (x level : ℕ) (skipped : List (Cell T)) (y : Cell T) (rest : List (Cell T))
      → tall level y ≡ true
      → Reaches x level (skipped ++ y ∷ rest)
      → Reaches y.offset level rest
  Reaches-after x level skipped y rest high reaches l below =
      let high_l : tall l y ≡ true = ground arith in
      let e : keep (tall l) (skipped ++ y ∷ rest)
          ≡ keep (tall l) skipped ++ y ∷ keep (tall l) rest =
        keep-append (tall l) skipped (y ∷ rest) ∙ rw high_l in
      Chain-after (λ nd. get_next m nd l) x (keep (tall l) skipped) y (keep (tall l) rest) m.tail
        (subst (λ cs. Chain (λ nd. get_next m nd l) x cs m.tail) e (reaches l below))

  module _ (version : ℕ) (key : Bytes) (less allow_equal : Bool) where
    abbrev result : ℕ → List (Cell T) → Option ℕ × Bool
    result = near_on_list m.head m.tail (at m.cmp.cmp version key) less allow_equal

    near_step_end :
        (x level : ℕ)
        → get_next m x level ≡ done m.tail
        → near_step m version key less allow_equal x level
          ≡ done (near_end m version key less allow_equal x level)
    unfolding near_step
    near_step_end x level e = rw e (ground arith)

    near_step_cell :
        (x level : ℕ) (c : Cell T) {o : Ordering}
        → get_next m x level ≡ done c.offset
        → Holds m c
        → at m.cmp.cmp version key c ≡ o
        → near_step m version key less allow_equal x level ≡ elim o [
          | gt ↦ done (go c.offset level)
          | eq ↦ near_equal m version key less allow_equal x level c.offset
          | lt ↦ done (near_less m version key less allow_equal x level c.offset)
        ]
    unfolding near_step
    near_step_cell x level c e h order =
        rw e (rw (order_at-Holds m version key c h, order) (ground arith))

    -- The loop answers, with these rounds left, wherever it stands.
    abbrev Solves : ℕ → Type 0
    Solves fuel =
        (x level : ℕ) (cells : List (Cell T))
        → All (Holds m) cells
        → Monotone m.cmp.cmp version key cells
        → Reaches x level cells
        → level + length cells < fuel
        → near_loop m version key less allow_equal fuel x level ≡ done (result x cells)

    -- At the base level nothing is skipped.
    base_cells :
        (level : ℕ) (cells kept : List (Cell T))
        → All (Holds m) cells
        → ltb 0 level ≡ false
        → keep (tall level) cells ≡ kept
        → cells ≡ kept
    base_cells level cells kept holds base e =
        let zero_level : level ≡ 0 = ground arith in
        sym (keep-tall_zero cells holds) ∙ subst (λ l. keep (tall l) cells ≡ kept) zero_level e

    end_lem :
        (fuel : ℕ)
        → Solves fuel
        → (x level : ℕ) (cells : List (Cell T)) → All (Holds m) cells
        → Monotone m.cmp.cmp version key cells
        → Reaches x level cells
        → level + length cells < suc fuel
        → keep (tall level) cells ≡ []
        → near_loop m version key less allow_equal (suc fuel) x level ≡ done (result x cells)
    unfolding near_loop near_end near_on_list
    end_lem fuel solves x level cells holds mono reaches enough nothing =
        let at_tail : get_next m x level ≡ done m.tail =
          subst (λ cs. Chain (λ nd. get_next m nd level) x cs m.tail) nothing
            (reaches level (omega arith)) in
        rw (near_step_end x level at_tail) (elim (Bool-cases (ltb 0 level)) [
          | inl above ↦ rw above (
              solves x (level - 1) cells holds mono (λ l h. reaches l (omega arith)) (ground arith))
          | inr base ↦ rw (base, base_cells level cells [] holds base nothing) (ground arith)
        ])

    at_base :
        (level : ℕ) (skipped : List (Cell T)) (y : Cell T) (rest : List (Cell T))
        → All (Holds m) (skipped ++ y ∷ rest)
        → ltb 0 level ≡ false
        → All (λ c. tall level c ≡ false) skipped
        → skipped ++ y ∷ rest ≡ y ∷ rest
    at_base level [] y rest holds base low = refl
    at_base level (c ∷ cs) y rest holds base low = absurd (ground (arith, holds.0.has_link))

    -- The next node on the level comes before the query.
    greater_lem :
        (fuel : ℕ)
        → Solves fuel
        → (x level : ℕ) (skipped : List (Cell T)) (y : Cell T) (rest : List (Cell T))
        → All (Holds m) (skipped ++ y ∷ rest)
        → Monotone m.cmp.cmp version key (skipped ++ y ∷ rest)
        → Reaches x level (skipped ++ y ∷ rest)
        → level + length (skipped ++ y ∷ rest) < suc fuel
        → tall level y ≡ true
        → All (λ c. tall level c ≡ false) skipped
        → at m.cmp.cmp version key y ≡ gt
        → near_loop m version key less allow_equal fuel y.offset level
          ≡ done (result x (skipped ++ y ∷ rest))
    unfolding near_on_list
    greater_lem fuel solves x level skipped y rest holds mono reaches enough high low order =
        let (x', e) =
          answer-skip m.cmp.cmp version key m.head m.tail less allow_equal x skipped y rest mono
            (λ h. cc) in
        solves y.offset level rest (All-split _ skipped (y ∷ rest) holds).1.1
          (Monotone-after m.cmp.cmp version key m.head m.tail less allow_equal skipped y rest
            mono).1
          (Reaches-after x level skipped y rest high reaches)
          (omega (arith, length-append skipped (y ∷ rest)))
        ∙ ap done (sym (e ∙ rw (order, near_on_list)))

    -- The next node on the level is what the query asks for.
    equal_lem :
        (fuel : ℕ)
        → Solves fuel
        → (x level : ℕ) (skipped : List (Cell T)) (y : Cell T) (rest : List (Cell T))
        → All (Holds m) (skipped ++ y ∷ rest)
        → Monotone m.cmp.cmp version key (skipped ++ y ∷ rest)
        → Reaches x level (skipped ++ y ∷ rest)
        → level + length (skipped ++ y ∷ rest) < suc fuel
        → tall level y ≡ true
        → All (λ c. tall level c ≡ false) skipped
        → at m.cmp.cmp version key y ≡ eq
        → (near_equal m version key less allow_equal x level y.offset >>= λ s. elim s [
          | go x' level' ↦ near_loop m version key less allow_equal fuel x' level'
          | stop r ↦ done r
        ])
          ≡ done (result x (skipped ++ y ∷ rest))
    unfolding near_equal near_on_list
    equal_lem fuel solves x level skipped y rest holds mono reaches enough high low order =
        elim (Bool-cases allow_equal) [
          | inl allow ↦ ground (arith, passed.1)
          | inr strict ↦ elim (Bool-cases less) [
            | inr more ↦ ground (arith, passed.1, next_base)
            | inl fewer ↦ elim (Bool-cases (ltb 0 level)) [
              | inl above ↦ ground (
                arith,
                solves x (level - 1) (skipped ++ y ∷ rest) holds mono
                    (λ l h. reaches l (omega arith)),
              )
              | inr base ↦ ground (arith, at_base level skipped y rest holds base low)
            ]
          ]
        ]
      where
        passed : (x' : ℕ) × (result x (skipped ++ y ∷ rest) ≡ result x' (y ∷ rest))
        passed =
            answer-skip m.cmp.cmp version key m.head m.tail less allow_equal x skipped y rest mono
              (λ h. cc)

        next_base : get_next m y.offset 0 ≡ done (first_offset m.tail rest)
        next_base =
            Chain-first (λ nd. get_next m nd 0) y.offset rest m.tail
              (subst (λ cs. Chain (λ nd. get_next m nd 0) y.offset cs m.tail)
                (keep-tall_zero rest (All-split _ skipped (y ∷ rest) holds).1.1)
                (Reaches-after x level skipped y rest high reaches 0 (omega arith)))

    -- One round, where the next node on the level is the cell `y`.
    cell_lem :
        (fuel : ℕ)
        → Solves fuel
        → (x level : ℕ) (skipped : List (Cell T)) (y : Cell T) (rest : List (Cell T))
        → All (Holds m) (skipped ++ y ∷ rest)
        → Monotone m.cmp.cmp version key (skipped ++ y ∷ rest)
        → Reaches x level (skipped ++ y ∷ rest)
        → level + length (skipped ++ y ∷ rest) < suc fuel
        → tall level y ≡ true
        → All (λ c. tall level c ≡ false) skipped
        → get_next m x level ≡ done y.offset
        → near_loop m version key less allow_equal (suc fuel) x level
          ≡ done (result x (skipped ++ y ∷ rest))
    unfolding near_loop near_less near_on_list
    cell_lem fuel solves x level skipped y rest holds mono reaches enough high low next_is =
        let y_holds = (All-split _ skipped (y ∷ rest) holds).1.0 in
        elim (Ordering-cases (at m.cmp.cmp version key y)) [
          | inr (inr above) ↦ rw (near_step_cell x level y next_is y_holds above) (
              greater_lem fuel solves x level skipped y rest holds mono reaches enough high low
                above)
          | inr (inl same) ↦
              rw (near_step_cell x level y next_is y_holds same) (
                equal_lem fuel solves x level skipped y rest holds mono reaches enough high low
                  same)
          | inl below ↦
              rw (near_step_cell x level y next_is y_holds below) (elim (Bool-cases (ltb 0 level)) [
                | inl higher ↦ rw higher (
                    solves x (level - 1) (skipped ++ y ∷ rest) holds mono
                      (λ l h. reaches l (omega arith)) (ground arith))
                | inr base ↦ rw (base, at_base level skipped y rest holds base low) (ground arith)
              ])
        ]

    near_loop_lem : (fuel : ℕ) → Solves fuel
    unfolding near_loop near_less near_on_list
    near_loop_lem zero x level cells holds mono reaches enough = absurd (omega arith)
    near_loop_lem (suc fuel) x level cells holds mono reaches enough =
        elim (keep-Found (tall level) cells) [
          | inl nothing ↦
              end_lem fuel (near_loop_lem fuel) x level cells holds mono reaches enough nothing
          | inr f ↦
              let next_is : get_next m x level ≡ done f.item.offset =
                (subst (λ cs. Chain (λ nd. get_next m nd level) x cs m.tail) f.kept
                  (reaches level (omega arith))).0 in
              subst
                (λ cs.
                  near_loop m version key less allow_equal (suc fuel) x level ≡ done (result x cs))
                (sym f.split)
                (cell_lem fuel (near_loop_lem fuel) x level f.skipped f.item f.rest
                  (subst (All (Holds m)) f.split holds)
                  (subst (Monotone m.cmp.cmp version key) f.split mono)
                  (subst (Reaches x level) f.split reaches)
                  (subst (λ cs. level + length cs < suc fuel) f.split enough) f.passes f.low
                  next_is)
        ]

-- On a map that stands for cells, `find_near` always returns, reads no undefined memory, and gives
-- what the walk along the base list gives, in each of its four modes.
pub find_near_lem :
    {ar : Arena} {T : Type 0} ⦃tr : Trailer T⦄ (m : SkipMap ar T) (cells : List (Cell T))
    (version : ℕ) (key : Bytes) (less allow_equal : Bool)
    → IsRepr m cells
    → find_near m version key less allow_equal
      ≡ done (near_on_list m.head m.tail (at m.cmp.cmp version key) less allow_equal m.head cells)
unfolding find_near
find_near_lem m cells version key less allow_equal r =
    let positive : (m.meta.height == 0) ≡ false = ground (arith, r.height_pos) in
    rw positive (
      near_loop_lem m version key less allow_equal (rounds m) m.head (m.meta.height - 1) cells
        r.holds (IsSorted-Monotone m.cmp.cmp r.lawful version key cells r.sorted)
        (λ l h. r.levels l (omega (arith, r.height_pos, r.height_max)))
        (omega (arith, r.counted, r.height_pos)))
