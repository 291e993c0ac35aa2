-- ===== src/Tests/TwoKeys.antt =====
-- A map of two entries in memory, and the node of a third that is not linked yet: towers of up to
-- two levels, versions that are u64 trailers.
use skl_rs.Prelude.{
  ℕ, zero, suc, ◌+◌, ◌-◌, ◌*◌, ◌<◌, ◌≡◌, refl, inl, inr, true, false, Option, none, some, List, [],
  ◌∷◌, if◌then◌else◌, ◌==◌, ltb, arith, done, ok,
}
use skl_rs.Comparator.{ascend, slice_cmp, u64_trailer}
use skl_rs.Comparator.Laws.{comparators-IsLawful}
use skl_rs.Map.{SkipMap, get_next, get_prev, get_key, get_trailer, get_value_and_trailer}
use skl_rs.Map.Order.{Cell}
use skl_rs.Map.Repr.{Holds, IsRepr}
use skl_rs.Node.{Node, Link}
use skl_rs.Node.Arena.{Arena, Allocation, refused, block}
use skl_rs.Link.Insert.{IsFresh}
use skl_rs.Splice.{Pointer, Inserter, find_splice, fresh_inserter}
use skl_rs.Splice.Level.{Passed, Ahead}
use skl_rs.Splice.Levels.{Brackets, find_splice-Brackets}

-- A block behind the last byte in use, where offsets stay below `2 ^ 32`.
abbrev pub behind : ℕ → ℕ → Allocation ℕ (Unit {0})
behind size s = if ltb (s + 1 + size) 4294967296 then block (s + 1) size (s + size) else refused tt

-- An arena that hands out the next free bytes, and needs no alignment. Its state is the last byte in
-- use.
abbrev pub bump : Arena
bump = record {
  State = ℕ;
  Error = Unit;
  Freelist = Unit;
  read_only_error = tt;
  read_only = λ s. false;
  capacity = λ s. 1024;
  data_offset = λ s. 1;
  get_aligned_pointer = λ align offset. offset;
  alloc_aligned_bytes = λ size align extra s. behind (size + extra) s;
  alloc_bytes = λ size s. behind size s;
  alloc = λ size align s. behind size s;
  release = λ offset capacity s. s;
  allocated = λ s. s;
  remaining = λ s. 4294967296 - s;
  refs = λ s. 1;
  discarded = λ s. 0;
  magic_version = λ s. 0;
  clear = λ s. (ok tt, 1);
  dealloc = λ offset size s. (false, s);
  leftover = λ s q. 0;
  increase_discarded = λ n s. s;
}

abbrev pub nodes : ℕ → Option Node
nodes n =
    if n == 8
    then some (record { value = 0; key_offset = 0; key_size_and_height = 2 })
    else if n == 40
    then some (record { value = 0; key_offset = 0; key_size_and_height = 2 })
    else if n == 72
    then some (record { value = 208 + 1 * 4294967296; key_offset = 200; key_size_and_height = 34 })
    else if n == 104
    then some (record {
      value = 224 + 4294967295 * 4294967296;
      key_offset = 201;
      key_size_and_height = 33;
    })
    else if n == 128
    then some (record { value = 240; key_offset = 202; key_size_and_height = 34 })
    else if n == 160
    then some (record { value = 248; key_offset = 203; key_size_and_height = 33 })
    else none

abbrev pub links : ℕ → Option Link
links n =
    if n == 24
    then some (record { next_offset = 72; prev_offset = 0 })
    else if n == 32
    then some (record { next_offset = 72; prev_offset = 0 })
    else if n == 56
    then some (record { next_offset = 0; prev_offset = 104 })
    else if n == 64
    then some (record { next_offset = 0; prev_offset = 72 })
    else if n == 88
    then some (record { next_offset = 104; prev_offset = 8 })
    else if n == 96
    then some (record { next_offset = 40; prev_offset = 8 })
    else if n == 120
    then some (record { next_offset = 40; prev_offset = 72 })
    else none

abbrev pub trailers : ℕ → Option ℕ
trailers n =
    if n == 208
    then some 5
    else if n == 224
    then some 4
    else if n == 240
    then some 7
    else if n == 248
    then some 6
    else none

abbrev pub bytes : ℕ → ℕ
bytes n =
    if n == 200
    then 1
    else if n == 201
    then 3
    else if n == 202
    then 2
    else if n == 203
    then 2
    else if n == 216
    then 9
    else 0

abbrev pub example : SkipMap bump ℕ
example = record {
  arena = 256;
  memory = record { nodes = nodes; links = links; trailers = trailers; bytes = bytes };
  meta = record {
    max_version = 5;
    min_version = 0;
    len = 2;
    magic_version = 0;
    height = 2;
    reserved_byte = 0;
  };
  head = 8;
  tail = 40;
  data_offset = 8;
  opts = record {
    max_value_size = 65535;
    max_key_size = 65535;
    max_height = 2;
    magic_version = 0;
    capacity = 1024;
    unify = true;
    freelist = tt;
  };
  cmp = ascend;
}

abbrev pub first_cell : Cell ℕ
first_cell = record { offset = 72; height = 2; key = 1 ∷ []; trailer = 5; value = some (9 ∷ []) }

abbrev pub last_cell : Cell ℕ
last_cell = record { offset = 104; height = 1; key = 3 ∷ []; trailer = 4; value = none }

abbrev pub new_cell : Cell ℕ
new_cell = record { offset = 128; height = 2; key = 2 ∷ []; trailer = 7; value = some [] }

-- The node of another thread, with the same key.
abbrev pub rival_cell : Cell ℕ
rival_cell = record { offset = 160; height = 1; key = 2 ∷ []; trailer = 6; value = some [] }

abbrev pub cells : List (Cell ℕ)
cells = first_cell ∷ last_cell ∷ []

pub below_two : (P : ℕ → Type 0) → P 0 → P 1 → (n : ℕ) → n < 2 → P n
below_two P p q zero h = p
below_two P p q (suc zero) h = q
below_two P p q (suc (suc n)) h = absurd (omega arith)

first_cell-Holds : Holds ⦃tr = u64_trailer⦄ example first_cell
unfolding get_key get_trailer get_value_and_trailer
first_cell-Holds = record {
  ne_null = λ e. omega arith;
  ne_head = λ e. omega arith;
  ne_tail = λ e. omega arith;
  has_link = omega arith;
  key_read = refl;
  trailer_read = refl;
  value_read = refl;
}

last_cell-Holds : Holds ⦃tr = u64_trailer⦄ example last_cell
unfolding get_key get_trailer get_value_and_trailer
last_cell-Holds = record {
  ne_null = λ e. omega arith;
  ne_head = λ e. omega arith;
  ne_tail = λ e. omega arith;
  has_link = omega arith;
  key_read = refl;
  trailer_read = refl;
  value_read = refl;
}

pub new_cell-Holds : Holds ⦃tr = u64_trailer⦄ example new_cell
unfolding get_key get_trailer get_value_and_trailer
new_cell-Holds = record {
  ne_null = λ e. omega arith;
  ne_head = λ e. omega arith;
  ne_tail = λ e. omega arith;
  has_link = omega arith;
  key_read = refl;
  trailer_read = refl;
  value_read = refl;
}

pub example-IsRepr : IsRepr ⦃tr = u64_trailer⦄ example cells
unfolding get_next get_prev get_key slice_cmp ascend
example-IsRepr = record {
  lawful = comparators-IsLawful.0;
  sorted = ((refl, tt), (tt, tt));
  holds = (first_cell-Holds, (last_cell-Holds, tt));
  levels = below_two _ (refl, (refl, refl)) (refl, refl);
  backs = below_two _ (refl, (refl, refl)) (refl, refl);
  apart = record {
    ends = inl (omega arith);
    from_head = (inl (omega arith), (inl (omega arith), tt));
    from_tail = (inl (omega arith), (inl (omega arith), tt));
    pairs = ((inl (omega arith), tt), (tt, tt));
  };
  height_pos = omega arith;
  height_max = omega arith;
  short = (omega arith, (omega arith, tt));
  counted = refl;
  head_ne_null = λ e. omega arith;
  tail_ne_null = λ e. omega arith;
  head_ne_tail = λ e. omega arith;
  tail_key = refl;
}

pub new_cell-IsFresh : IsFresh ⦃tr = u64_trailer⦄ example new_cell cells
new_cell-IsFresh = record {
  ne_null = λ e. omega arith;
  from_head = inr (omega arith);
  from_tail = inr (omega arith);
  from_cells = (inr (omega arith), (inr (omega arith), tt));
}

-- The place of the third entry is between the two.
pub first_cell-Passed : Passed ⦃tr = u64_trailer⦄ example 7 (2 ∷ []) (first_cell ∷ [])
unfolding ascend slice_cmp
first_cell-Passed = (refl, tt)

pub last_cell-Ahead : Ahead ⦃tr = u64_trailer⦄ example 7 (2 ∷ []) (last_cell ∷ [])
unfolding ascend slice_cmp
last_cell-Ahead = (refl, tt)

-- The splices of the place.
pub splices :
    (k : Option Pointer) × (after : Inserter) × (find_splice ⦃tr = u64_trailer⦄ example 7
        (2 ∷ [])
        fresh_inserter
        true
      ≡ done (record { found = false; found_key = k; curr = none }, after))
    × Brackets 8 40
        (first_cell ∷ [])
        (last_cell ∷ [])
        2
        (record fresh_inserter { height = 2 })
        after
splices =
    find_splice-Brackets ⦃tr = u64_trailer⦄ example 7 (2 ∷ []) (first_cell ∷ []) (last_cell ∷ [])
      example-IsRepr first_cell-Passed last_cell-Ahead true (omega arith)
