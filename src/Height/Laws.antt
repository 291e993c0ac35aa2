-- ===== src/Height/Laws.antt =====
-- The heights of `random_height` (src/lib.rs).
use skl_rs.Prelude.{
  ℕ, zero, suc, ◌+◌, ◌-◌, ◌≤◌, ◌<◌, ◌≡◌, ◌⊎◌, inl, inr, refl, List, [], ◌∷◌, some, length,
  get_elem?, done, arith, ltb, ltb→le, ◌==◌, eq_of_==, leb, Bool-cases, true,
}
use skl_rs.Height.{height_loop, random_height}

-- `h` is where the random word first exceeds the table, or the greatest height allowed.
pub record IsHeight (table : List ℕ) (rnd max_height start h : ℕ) : Type 0 where
  pub from : start ≤ h
  pub passed : (i : ℕ) → start ≤ i → i < h → (p : ℕ) × (get_elem? table i ≡ some p) × (rnd ≤ p)
  pub stopped : (max_height ≤ h) ⊎ ((p : ℕ) × (get_elem? table h ≡ some p) × (p < rnd))
  pub bounded : start ≤ max_height → h ≤ max_height

get_elem?_in : (table : List ℕ) (i : ℕ) → i < length table → (p : ℕ) × (get_elem? table i ≡ some p)
get_elem?_in [] i h = absurd (omega arith)
get_elem?_in (p ∷ table) zero h = (p, refl)
get_elem?_in (p ∷ table) (suc i) h = get_elem?_in table i (omega arith)

-- One round of the loop that goes on.
IsHeight-step :
    {table : List ℕ} {rnd max_height h r p : ℕ}
    → get_elem? table h ≡ some p
    → rnd ≤ p
    → ltb h max_height ≡ true
    → IsHeight table rnd max_height (h + 1) r
    → IsHeight table rnd max_height h r
IsHeight-step {h} {p} found passes below is = record {
  from = omega (arith, is.from);
  passed = λ i a b. elim (Bool-cases (h == i)) [
    | inl same ↦ rw (← eq_of_== h i same) (p, found, passes)
    | inr other ↦ is.passed i (ground arith) b
  ];
  stopped = is.stopped;
  bounded = λ e. is.bounded (ground arith);
}

height_loop_lem :
    (fuel : ℕ) (table : List ℕ) (max_height rnd h : ℕ)
    → max_height ≤ length table
    → max_height - h < fuel
    → (r : ℕ) × (height_loop fuel table max_height rnd h ≡ done r)
      × IsHeight table rnd max_height h r
unfolding height_loop
height_loop_lem zero table max_height rnd h fits fuel = absurd (omega arith)
height_loop_lem (suc k) table max_height rnd h fits fuel = elim (Bool-cases (ltb h max_height)) [
  | inr out ↦ (
    h,
    rw out,
    record {
      from = omega arith;
      passed = λ i a b. absurd (omega arith);
      stopped = inl (ltb→le _ _ out);
      bounded = λ e. e;
    },
  )
  | inl below ↦
      let (p, found) = get_elem?_in table h (ground arith) in
      elim (Bool-cases (leb rnd p)) [
        | inr above ↦ (
          h,
          rw (below, found, above),
          record {
            from = omega arith;
            passed = λ i a b. absurd (omega arith);
            stopped = inr (p, found, ground arith);
            bounded = λ e. ground arith;
          },
        )
        | inl passes ↦
            let (r, runs, is) =
              height_loop_lem k table max_height rnd (h + 1) fits (ground arith) in
            (r, rw (below, found, passes) runs, IsHeight-step found (ground arith) below is)
      ]
]

-- With a table that covers the heights allowed, `random_height` ends without a panic, in a height
-- of at least 1, at most `max_height` where that is at least 1, and it is the first height at which
-- the random word exceeds the table, or `max_height`.
pub random_height_lem :
    (table : List ℕ) (rnd max_height : ℕ)
    → max_height ≤ length table
    → (h : ℕ) × (random_height table rnd max_height ≡ done h) × IsHeight table rnd max_height 1 h
unfolding random_height
random_height_lem table rnd max_height fits =
    height_loop_lem (max_height + 1) table max_height rnd 1 fits (omega arith)
