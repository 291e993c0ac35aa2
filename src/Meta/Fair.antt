-- ===== src/Meta/Fair.antt =====
-- How many turns a thread needs in `update_max_version`, `update_min_version`, or the loop of
-- `new_node` that raises the height (src/map.rs), while other threads take turns in between.
pub mod Returns
use skl_rs.Prelude.{
  ℕ, zero, suc, ◌+◌, ◌-◌, ◌≤◌, ◌<◌, ◌≡◌, ◌⊎◌, inl, inr, refl, sym, ◌∙◌, List, [], ◌∷◌, Bool, true,
  false, length, ap, if◌then◌else◌, ◌==◌, Bool-cases, All, eq_of_==, arith,
}
use mathlib.Core.Path.{subst}
use skl_rs.Meta.{Turn, start, trying, returned, version_step}
use skl_rs.Meta.Versions.{Thread, Action, take_turn, run, IsReturned}

-- The turns of thread `i` in a schedule that do not fail spuriously.
unfoldable pub turns : ℕ → List (ℕ × Bool) → ℕ
turns i [] = 0
turns i ((j, true) ∷ rest) = turns i rest
turns i ((j, false) ∷ rest) = let n = turns i rest in if j == i then suc n else n

turns-cons :
    (i j : ℕ) (spurious : Bool) (rest : List (ℕ × Bool))
    → turns i ((j, spurious) ∷ rest) ≡ turns i ((j, spurious) ∷ []) + turns i rest
unfolding turns
turns-cons i j true rest = omega arith
turns-cons i j false rest = ground arith

turns-own : (i : ℕ) (spurious : Bool) → turns i ((i, spurious) ∷ []) ≡ (if spurious then 0 else 1)
unfolding turns
turns-own i true = refl
turns-own i false = ground arith

turns-other : (i j : ℕ) (spurious : Bool) → (j == i) ≡ false → turns i ((j, spurious) ∷ []) ≡ 0
unfolding turns
turns-other i j true h = refl
turns-other i j false h = rw h refl

-- The turn of thread `i`; there is nothing to wait for when there is no such thread.
turn_at : ℕ → List Thread → Turn
turn_at i [] = returned
turn_at zero (t ∷ ts) = t.turn
turn_at (suc i) (t ∷ ts) = turn_at i ts

waits : Turn → ℕ
waits start = 1
waits (trying current) = 1
waits returned = 0

-- The threads that have not returned.
waiting : List Thread → ℕ
unfolding waits
waiting [] = 0
waiting (t ∷ ts) = waits t.turn + waiting ts

-- The turns that a thread still needs while `n` threads have not returned: one for each of them,
-- and one to read the cell again when what it knows is stale.
need : Turn → ℕ → ℕ → ℕ
need start cell n = suc n
need (trying current) cell n = if cell == current then n else suc n
need returned cell n = 0

waits-bound : (t : Turn) → waits t ≤ 1
unfolding waits
waits-bound start = omega arith
waits-bound (trying current) = omega arith
waits-bound returned = omega arith

waiting-length : (ts : List Thread) → waiting ts ≤ length ts
unfolding waiting
waiting-length [] = omega arith
waiting-length (t ∷ ts) = omega (arith, waits-bound t.turn, waiting-length ts)

waits-turn_at : (i : ℕ) (ts : List Thread) → waits (turn_at i ts) ≤ waiting ts
unfolding waits waiting turn_at
waits-turn_at i [] = omega arith
waits-turn_at zero (t ∷ ts) = omega arith
waits-turn_at (suc i) (t ∷ ts) = omega (arith, waits-turn_at i ts)

need-bound : (t : Turn) (cell n : ℕ) → need t cell n ≤ suc n
unfolding need
need-bound start cell n = omega arith
need-bound (trying c) cell n = ground arith
need-bound returned cell n = omega arith

need-returned : (t : Turn) (cell n : ℕ) → waits t ≤ n → need t cell n ≡ 0 → t ≡ returned
unfolding need waits
need-returned start cell n h e = absurd (omega arith)
need-returned (trying c) cell n h e = absurd (ground arith)
need-returned returned cell n h e = refl

All-turn_at :
    (ts : List Thread) → ((i : ℕ) → i < length ts → turn_at i ts ≡ returned) → All IsReturned ts
unfolding turn_at
All-turn_at [] h = tt
All-turn_at (t ∷ ts) h = (h 0 (omega arith), All-turn_at ts (λ i l. h (suc i) (omega arith)))

-- Every thread is given more turns than there are threads, besides those that fail spuriously.
pub record IsFair (ts : List Thread) (schedule : List (ℕ × Bool)) : Type 0 where
  pub enough : (i : ℕ) → i < length ts → length ts < turns i schedule

-- Either the cell is as it was, or a thread has returned.
abbrev Moves : ℕ → ℕ → ℕ → ℕ → Type 0
Moves cell n cell' n' = ((cell' ≡ cell) × (n' ≤ n)) ⊎ (n' < n)

fewer_lem : {cell n cell' n' : ℕ} → Moves cell n cell' n' → n' ≤ n
fewer_lem (inl m) = m.1
fewer_lem (inr m) = omega (arith, m)

need-Moves :
    (t : Turn) (cell n cell' n' : ℕ) → Moves cell n cell' n' → need t cell' n' ≤ need t cell n
unfolding need
need-Moves start cell n cell' n' (inl (same, fewer)) = omega arith
need-Moves start cell n cell' n' (inr fewer) = omega arith
need-Moves (trying c) cell n cell' n' (inl (same, fewer)) = rw same (ground arith)
need-Moves (trying c) cell n cell' n' (inr fewer) = ground arith
need-Moves returned cell n cell' n' moves = omega arith
