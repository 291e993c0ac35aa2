-- ===== src/Meta/Fair/Returns.antt =====
-- Each turn brings the thread that takes it nearer to the end of its loop, and no turn takes another
-- thread back (the version loops and the height loop of src/map.rs).
use skl_rs.Prelude.{
  ℕ, zero, suc, ◌-◌, ◌≤◌, ◌≡◌, inl, inr, refl, sym, ◌∙◌, List, [], ◌∷◌, Bool, false, length, ap,
  if◌then◌else◌, ◌==◌, Bool-cases, All, eq_of_==, arith,
}
use mathlib.Core.Path.{subst}
use skl_rs.Meta.{Turn, start, trying, returned, version_step}
use skl_rs.Meta.Versions.{Thread, Action, take_turn, run, IsReturned}
use skl_rs.Meta.Fair.{
  turns, turns-cons, turns-own, turns-other, turn_at, waits, waiting, waiting-length, need, Moves,
  fewer_lem, need-Moves, waits-turn_at, need-bound, need-returned, All-turn_at, IsFair,
}

module _ (passes : ℕ → ℕ → Bool) where
  abbrev act : Action
  act version = version_step (passes version) version

  action-Moves :
      (v : ℕ) (spurious : Bool) (t : Turn) (cell : ℕ)
      → let (t', cell') = act v spurious t cell in Moves cell (waits t) cell' (waits t')
  unfolding version_step waits
  action-Moves v spurious start cell = inl (refl, omega arith)
  action-Moves v spurious returned cell = inl (refl, omega arith)
  action-Moves v spurious (trying c) cell = elim (Bool-cases (passes v c)) [
    | inl passed ↦ rw passed (inl (refl, omega arith))
    | inr beaten ↦ rw beaten (elim (Bool-cases spurious) [
      | inl failed ↦ rw failed (inl (refl, omega arith))
      | inr real ↦ rw real (elim (Bool-cases (cell == c)) [
        | inl same ↦ rw same (inr (omega arith))
        | inr moved ↦ rw moved (inl (refl, omega arith))
      ])
    ])
  ]

  -- A turn brings its thread nearer to the end, unless it fails spuriously.
  action-need :
      (v : ℕ) (spurious : Bool) (t : Turn) (cell n n' : ℕ)
      → n' ≤ n
      → let (t', cell') = act v spurious t cell in
        need t' cell' n' ≤ need t cell n - (if spurious then 0 else 1)
  unfolding version_step need
  action-need v spurious start cell n n' h = ground arith
  action-need v spurious returned cell n n' h = omega arith
  action-need v spurious (trying c) cell n n' h = elim (Bool-cases (passes v c)) [
    | inl passed ↦ rw passed (omega arith)
    | inr beaten ↦ rw beaten (elim (Bool-cases spurious) [
      | inl failed ↦ rw failed (ground arith)
      | inr real ↦ rw real (elim (Bool-cases (cell == c)) [
        | inl same ↦ rw same (omega arith)
        | inr moved ↦ rw moved (ground arith)
      ])
    ])
  ]

  turn-Moves :
      (j : ℕ) (spurious : Bool) (ts : List Thread) (cell : ℕ)
      → let (ts', cell') = take_turn act j spurious ts cell in
        Moves cell (waiting ts) cell' (waiting ts') × (length ts' ≡ length ts)
  unfolding take_turn waiting
  turn-Moves j spurious [] cell = (inl (refl, omega arith), refl)
  turn-Moves zero spurious (t ∷ ts) cell = (
    elim (action-Moves t.version spurious t.turn cell) [
      | inl m ↦ inl (m.0, omega (arith, m.1))
      | inr m ↦ inr (omega (arith, m))
    ],
    refl,
  )
  turn-Moves (suc j) spurious (t ∷ ts) cell =
      let (moves, same) = turn-Moves j spurious ts cell in
      (
        elim moves [ inl m ↦ inl (m.0, omega (arith, m.1)) | inr m ↦ inr (omega (arith, m)) ],
        ap suc same,
      )

  turn_at-other :
      (i j : ℕ) (spurious : Bool) (ts : List Thread) (cell : ℕ)
      → (j == i) ≡ false
      → turn_at i (take_turn act j spurious ts cell).0 ≡ turn_at i ts
  unfolding take_turn turn_at
  turn_at-other i j spurious [] cell h = refl
  turn_at-other zero zero spurious (t ∷ ts) cell h = absurd (ground (arith, h))
  turn_at-other (suc i) zero spurious (t ∷ ts) cell h = refl
  turn_at-other zero (suc j) spurious (t ∷ ts) cell h = refl
  turn_at-other (suc i) (suc j) spurious (t ∷ ts) cell h =
      turn_at-other i j spurious ts cell (ground (arith, h))

  turn_at-own :
      (i : ℕ) (spurious : Bool) (ts : List Thread) (cell : ℕ)
      → (v : ℕ) × (let (ts', cell') = take_turn act i spurious ts cell in
          (turn_at i ts', cell') ≡ act v spurious (turn_at i ts) cell)
  unfolding take_turn turn_at version_step
  turn_at-own i spurious [] cell = (0, refl)
  turn_at-own zero spurious (t ∷ ts) cell = (t.version, refl)
  turn_at-own (suc i) spurious (t ∷ ts) cell = turn_at-own i spurious ts cell

  abbrev need_at : ℕ → List Thread → ℕ → ℕ
  need_at i ts cell = need (turn_at i ts) cell (waiting ts)

  need_at-own :
      (i : ℕ) (spurious : Bool) (ts : List Thread) (cell : ℕ)
      → let (ts', cell') = take_turn act i spurious ts cell in
        need_at i ts' cell' ≤ need_at i ts cell - turns i ((i, spurious) ∷ [])
  need_at-own i spurious ts cell =
      let (ts', cell') = take_turn act i spurious ts cell in
      let (v, e) = turn_at-own i spurious ts cell in
      rw (turns-own i spurious) (
        subst (λ p. need p.0 p.1 (waiting ts') ≤ need_at i ts cell - (if spurious then 0 else 1))
          (sym e)
          (action-need v spurious (turn_at i ts) cell (waiting ts) (waiting ts')
            (fewer_lem (turn-Moves i spurious ts cell).0)))

  need_at-turn :
      (i j : ℕ) (spurious : Bool) (ts : List Thread) (cell : ℕ)
      → let (ts', cell') = take_turn act j spurious ts cell in
        need_at i ts' cell' ≤ need_at i ts cell - turns i ((j, spurious) ∷ [])
  need_at-turn i j spurious ts cell = elim (Bool-cases (j == i)) [
    | inl own ↦ rw (eq_of_== j i own) (need_at-own i spurious ts cell)
    | inr other ↦
        rw (turns-other i j spurious other, turn_at-other i j spurious ts cell other)
          (omega (
            arith,
            need-Moves (turn_at i ts) cell (waiting ts) _ _ (turn-Moves j spurious ts cell).0,
          ))
  ]

  need_at-run :
      (i : ℕ) (schedule : List (ℕ × Bool)) (ts : List Thread) (cell : ℕ)
      → let (ts', cell') = run act schedule ts cell in
        (need_at i ts' cell' ≤ need_at i ts cell - turns i schedule) × (length ts' ≡ length ts)
  unfolding run turns
  need_at-run i [] ts cell = (omega arith, refl)
  need_at-run i ((j, spurious) ∷ rest) ts cell =
      let (ts', cell') = take_turn act j spurious ts cell in
      let (fewer, same) = need_at-run i rest ts' cell' in
      (
        rw (turns-cons i j spurious rest) (omega (arith, fewer, need_at-turn i j spurious ts cell)),
        same ∙ (turn-Moves j spurious ts cell).1,
      )

-- Threads that call `update_max_version`, `update_min_version`, or the loop that raises the height,
-- at once, whatever is left to each of them: once each has been given more turns than there are
-- threads, besides those in which its exchange fails spuriously, every one has returned, however the
-- turns are ordered.
pub run-IsReturned :
    (passes : ℕ → ℕ → Bool) (schedule : List (ℕ × Bool)) (ts : List Thread) (cell : ℕ)
    → IsFair ts schedule
    → All IsReturned (run (λ version. version_step (passes version) version) schedule ts cell).0
run-IsReturned passes schedule ts cell fair = All-turn_at _ λ i l.
    let (ts', cell') = run (act passes) schedule ts cell in
    let (fewer, same) = need_at-run passes i schedule ts cell in
    need-returned (turn_at i ts') cell' (waiting ts') (waits-turn_at i ts') (
      omega (
        arith,
        fewer,
        need-bound (turn_at i ts) cell (waiting ts),
        waiting-length ts,
        fair.enough i (omega (arith, l, same)),
      ))
