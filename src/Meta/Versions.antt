-- ===== src/Meta/Versions.antt =====
-- Several threads in `update_max_version`, or in `update_min_version`, at once (src/map.rs): they
-- take turns in any order, and a weak exchange may fail at any time.
use skl_rs.Prelude.{
  ℕ, zero, suc, ◌≤◌, ◌≡◌, sym, List, [], ◌∷◌, Bool, true, false, arith, inl, inr, Bool-cases, leb,
  ◌==◌, All, All-imp, eq_of_==,
}
use mathlib.Core.Path.{subst}
use native.Mathlib.Nat.{le_refl, le_trans}
use skl_rs.Meta.{Turn, start, trying, returned, version_step, max_step, min_step}

-- A thread that announces its version.
pub record Thread : Type 0 where
  pub version : ℕ
  pub turn : Turn

-- The atomic action of one kind of loop: `max_step` or `min_step`.
abbrev pub Action : Type 0
Action = ℕ → Bool → Turn → ℕ → Turn × ℕ

-- Thread `i` takes a turn.
unfoldable pub take_turn : Action → ℕ → Bool → List Thread → ℕ → List Thread × ℕ
take_turn action i spurious [] cell = ([], cell)
take_turn action zero spurious (t ∷ ts) cell =
    let (turn, cell') = action t.version spurious t.turn cell in
    (record t { turn = turn } ∷ ts, cell')
take_turn action (suc i) spurious (t ∷ ts) cell =
    let (ts', cell') = take_turn action i spurious ts cell in (t ∷ ts', cell')

-- A schedule names the thread of each turn, and says whether its exchange fails spuriously.
unfoldable pub run : Action → List (ℕ × Bool) → List Thread → ℕ → List Thread × ℕ
unfolding take_turn
run action [] ts cell = (ts, cell)
run action ((i, spurious) ∷ rest) ts cell =
    let (ts', cell') = take_turn action i spurious ts cell in run action rest ts' cell'

abbrev pub IsStart : Thread → Type 0
IsStart t = t.turn ≡ start

abbrev pub IsReturned : Thread → Type 0
IsReturned t = t.turn ≡ returned

-- The bound that the threads' versions and the first value of the cell have in common.
module _ (R : ℕ → ℕ → Type 0) where
  abbrev pub BoundOf : List Thread → ℕ → ℕ → Type 0
  BoundOf ts first hi = R first hi × All (λ t. R t.version hi) ts

  -- `cell` is the least such bound.
  pub record IsLeastBound (ts : List Thread) (first cell : ℕ) : Type 0 where
    pub bounds : BoundOf ts first cell
    pub least : (hi : ℕ) → BoundOf ts first hi → R cell hi

  -- What a thread knows of the cell.
  abbrev Knows : ℕ → ℕ → Turn → Type 0
  Knows cell version start = Unit
  Knows cell version (trying current) = R current cell
  Knows cell version returned = R version cell

module _ (R : ℕ → ℕ → Type 0) (passes : ℕ → ℕ → Bool) (R_refl : (a : ℕ) → R a a)
    (R_trans : (a b c : ℕ) → R a b → R b c → R a c)
    (settles : (v c : ℕ) → passes v c ≡ true → R v c)
    (beats : (v c : ℕ) → passes v c ≡ false → R c v) where
  abbrev act : Action
  act version = version_step (passes version) version

  abbrev Ok : ℕ → Thread → Type 0
  Ok cell t = Knows R cell t.version t.turn

  Knows-mono :
      {cell cell' : ℕ} (version : ℕ) (turn : Turn)
      → R cell cell'
      → Knows R cell version turn
      → Knows R cell' version turn
  Knows-mono version start r k = tt
  Knows-mono {cell} {cell'} version (trying current) r k = R_trans current cell cell' k r
  Knows-mono {cell} {cell'} version returned r k = R_trans version cell cell' k r

  All-Ok-mono :
      {cell cell' : ℕ} (ts : List Thread) → R cell cell' → All (Ok cell) ts → All (Ok cell') ts
  All-Ok-mono ts r = All-imp (λ t k. Knows-mono t.version t.turn r k) ts

  -- One action: the cell moves on, to at most the thread's version, and the thread knows it.
  version_step_lem :
      (version : ℕ) (spurious : Bool) (turn : Turn) (cell : ℕ)
      → Knows R cell version turn
      → let (turn', cell') = version_step (passes version) version spurious turn cell in
        R cell cell'
        × Knows R cell' version turn'
        × ((hi : ℕ) → R cell hi → R version hi → R cell' hi)
  unfolding version_step
  version_step_lem version spurious start cell k = (R_refl cell, R_refl cell, λ hi r v. r)
  version_step_lem version spurious returned cell k = (R_refl cell, k, λ hi r v. r)
  version_step_lem version spurious (trying current) cell k =
      elim (Bool-cases (passes version current)) [
        | inl passed ↦ rw passed (
          R_refl cell,
          R_trans version current cell (settles version current passed) k,
          λ hi r v. r,
        )
        | inr beaten ↦ rw beaten (elim (Bool-cases spurious) [
          | inl failed ↦ rw failed (R_refl cell, R_refl cell, λ hi r v. r)
          | inr real ↦ rw real (elim (Bool-cases (cell == current)) [
            | inl same ↦ rw same (
              rw (eq_of_== cell current same) (beats version current beaten),
              R_refl version,
              λ hi r v. v,
            )
            | inr moved ↦ rw moved (R_refl cell, R_refl cell, λ hi r v. r)
          ])
        ])
      ]

  -- What a stretch of turns keeps, from `ts` and `cell` to `ts'` and `cell'`.
  abbrev Kept : List Thread → ℕ → List Thread × ℕ → Type 0
  Kept ts cell (ts', cell') =
      R cell cell'
      × All (Ok cell') ts'
      × ((hi : ℕ) → BoundOf R ts cell hi → BoundOf R ts' cell' hi)
      × ((hi : ℕ) → All (λ t. R t.version hi) ts' → All (λ t. R t.version hi) ts)

  take_turn_lem :
      (i : ℕ) (spurious : Bool) (ts : List Thread) (cell : ℕ)
      → All (Ok cell) ts
      → Kept ts cell (take_turn act i spurious ts cell)
  unfolding take_turn
  take_turn_lem i spurious [] cell k = (R_refl cell, tt, λ hi b. b, λ hi a. a)
  take_turn_lem zero spurious (t ∷ ts) cell k =
      let (moves, knows, below) = version_step_lem t.version spurious t.turn cell k.0 in
      (moves, (knows, All-Ok-mono ts moves k.1), λ hi b. (below hi b.0 b.1.0, b.1), λ hi a. a)
  take_turn_lem (suc i) spurious (t ∷ ts) cell k =
      let (moves, oks, bound, back) = take_turn_lem i spurious ts cell k.1 in
      (
        moves,
        (Knows-mono t.version t.turn moves k.0, oks),
        λ hi b. let (r, a) = bound hi (b.0, b.1.1) in (r, (b.1.0, a)),
        λ hi a. (a.0, back hi a.1),
      )

  run_lem :
      (schedule : List (ℕ × Bool)) (ts : List Thread) (cell : ℕ)
      → All (Ok cell) ts
      → Kept ts cell (run act schedule ts cell)
  unfolding run
  run_lem [] ts cell k = (R_refl cell, k, λ hi b. b, λ hi a. a)
  run_lem ((i, spurious) ∷ rest) ts cell k =
      let (moves, oks, bound, back) = take_turn_lem i spurious ts cell k in
      let (ts', cell') = take_turn act i spurious ts cell in
      let (moves', oks', bound', back') = run_lem rest ts' cell' oks in
      (
        R_trans cell cell' _ moves moves',
        oks',
        λ hi b. bound' hi (bound hi b),
        λ hi a. back hi (back' hi a),
      )

  Knows-returned : (cell : ℕ) (t : Thread) → IsReturned t → Ok cell t → R t.version cell
  Knows-returned cell t e k = subst (Knows R cell t.version) e k

  All-returned :
      (cell : ℕ) (ts : List Thread)
      → All IsReturned ts
      → All (Ok cell) ts
      → All (λ t. R t.version cell) ts
  All-returned cell [] e k = tt
  All-returned cell (t ∷ ts) e k = (Knows-returned cell t e.0 k.0, All-returned cell ts e.1 k.1)

  All-start : (cell : ℕ) (ts : List Thread) → All IsStart ts → All (Ok cell) ts
  All-start cell = All-imp λ t e. subst (Knows R cell t.version) (sym e) tt

  run-IsLeastBound :
      (schedule : List (ℕ × Bool)) (ts : List Thread) (first : ℕ)
      → All IsStart ts
      → All IsReturned (run act schedule ts first).0
      → IsLeastBound R ts first (run act schedule ts first).1
  run-IsLeastBound schedule ts first starts returns =
      let (moves, oks, bound, back) = run_lem schedule ts first (All-start first ts starts) in
      record {
        bounds = (moves, back _ (All-returned _ _ returns oks));
        least = λ hi b. (bound hi b).0;
      }

-- Threads that call `update_max_version` at once, in any order of turns and with any spurious
-- failures, leave, once all have returned, the largest of their versions and the first value.
pub run-max_step-IsLeastBound :
    (schedule : List (ℕ × Bool)) (ts : List Thread) (first : ℕ)
    → All IsStart ts
    → All IsReturned (run max_step schedule ts first).0
    → IsLeastBound ◌≤◌ ts first (run max_step schedule ts first).1
unfolding max_step
run-max_step-IsLeastBound =
    run-IsLeastBound ◌≤◌ (λ v c. leb v c) le_refl (λ a b c. le_trans) (λ v c e. ground arith)
      (λ v c e. ground arith)

-- Threads that call `update_min_version` at once, in any order of turns and with any spurious
-- failures, leave, once all have returned, the smallest of their versions and the first value.
pub run-min_step-IsLeastBound :
    (schedule : List (ℕ × Bool)) (ts : List Thread) (first : ℕ)
    → All IsStart ts
    → All IsReturned (run min_step schedule ts first).0
    → IsLeastBound (λ a b. b ≤ a) ts first (run min_step schedule ts first).1
unfolding min_step
run-min_step-IsLeastBound =
    run-IsLeastBound (λ a b. b ≤ a) (λ v c. leb c v) le_refl (λ a b c p q. le_trans q p)
      (λ v c e. ground arith) (λ v c e. ground arith)
