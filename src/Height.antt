-- ===== src/Height.antt =====
-- The height of a new node (`random_height` of src/lib.rs). The random word and the table of
-- probabilities, which the source computes in floating point, are arguments.
pub mod Laws
use skl_rs.Prelude.{
  ℕ, zero, suc, ◌+◌, Bool, true, false, Option, none, some, List, if◌then◌else◌, ltb, leb,
  get_elem?, Run, done, panic, out_of_fuel,
}

-- `const MAX_HEIGHT`
abbrev pub max_tower : ℕ
max_tower = 32

-- The `while` loop. Reading the table past its end panics.
height_loop : ℕ → List ℕ → ℕ → ℕ → ℕ → Run ℕ
height_loop zero probabilities max_height rnd h = out_of_fuel
height_loop (suc fuel) probabilities max_height rnd h =
    let rest = height_loop fuel probabilities max_height rnd (h + 1) in
    if ltb h max_height
    then (elim (get_elem? probabilities h) [
      | none ↦ panic
      | some p ↦ if leb rnd p then rest else done h
    ])
    else done h

unfoldable pub random_height : List ℕ → ℕ → ℕ → Run ℕ
unfolding height_loop
random_height probabilities rnd max_height =
    height_loop (max_height + 1) probabilities max_height rnd 1
