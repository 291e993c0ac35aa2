-- ===== src/Tests/Witnesses.antt =====
-- The theorems at concrete inputs.
use skl_rs.Prelude.{
  Result, ℕ, ◌≤◌, ◌≡◌, refl, true, false, Option, none, some, List, [], ◌∷◌, done, arith, gt,
}
use skl_rs.Buffer.{VacantBuffer, write, fill}
use skl_rs.Buffer.Laws.{Written, write-Written, fill_unchanged}
use skl_rs.Capacity.{Error, Layout, check_capacity, check_node_size}
use skl_rs.Capacity.Bounds.{
  IsLayout, Checked, stored_size, check_capacity-IsLayout, check_node_size-random_height,
}
use skl_rs.Codec.{
  encode_value_pointer, decode_value_pointer, encode_key_size_and_height,
  decode_key_size_and_height,
}
use skl_rs.Codec.RoundTrip.{decode-encode_value_pointer, decode-encode_key_size_and_height}
use skl_rs.Comparator.{slice_cmp, ascend, u64_trailer}
use skl_rs.Height.{random_height}
use skl_rs.Height.Laws.{IsHeight, random_height_lem}
use skl_rs.Iterator.{AllVersionsIter, range_full, next_in}
use skl_rs.Iterator.Next.{next_in-first_shown}
use skl_rs.Iterator.Walk.{first_shown}
use skl_rs.Key
use skl_rs.Link.{with_links, link_levels, Locals, linked}
use skl_rs.Link.Preserve.{grown, link_levels-IsRepr}
use skl_rs.Map.Order.{at}
use skl_rs.Map.Repr.{IsRepr}
use skl_rs.Meta.{start, max_step, min_step}
use skl_rs.Meta.Versions.{
  Thread, run, IsLeastBound, take_turn, run-max_step-IsLeastBound, run-min_step-IsLeastBound,
}
use skl_rs.Node
use skl_rs.Node.{Node, Memory, get_bytes, Link}
use skl_rs.Search.{find_near, get}
use skl_rs.Search.Get.{lookup_at, live, get-lookup_at}
use skl_rs.Search.Near.{near_on_list}
use skl_rs.Search.Towers.{find_near_lem}
use skl_rs.Splice.{Inserter, Pointer, find_splice, fresh_inserter, shared_key, starts_with}
use skl_rs.Splice.Level.{last_offset}
use skl_rs.Splice.Levels.{Brackets, find_splice-Brackets}
use skl_rs.Splice.SharedKey.{shared_key-get_bytes, shared_key-slice_cmp}
use skl_rs.Tests.TwoKeys.{
  bump, example, cells, first_cell, last_cell, new_cell, new_cell-Holds, new_cell-IsFresh,
  example-IsRepr, first_cell-Passed, last_cell-Ahead, splices,
}

find_near_lem_example :
    find_near ⦃tr = u64_trailer⦄ example 9 (2 ∷ []) false true
    ≡ done (near_on_list 8 40 (at ⦃tr = u64_trailer⦄ ascend.cmp 9 (2 ∷ [])) false true 8 cells)
find_near_lem_example =
    find_near_lem ⦃tr = u64_trailer⦄ example cells 9 (2 ∷ []) false true example-IsRepr

get-lookup_at_example :
    get ⦃tr = u64_trailer⦄ example 9 (1 ∷ [])
    ≡ done (live (lookup_at ⦃tr = u64_trailer⦄ ascend.cmp 9 (1 ∷ []) cells))
get-lookup_at_example = get-lookup_at ⦃tr = u64_trailer⦄ example cells 9 (1 ∷ []) example-IsRepr

find_splice-Brackets_example :
    (k : Option Pointer) × (after : Inserter) × (find_splice ⦃tr = u64_trailer⦄ example 7
        (2 ∷ [])
        fresh_inserter
        true
      ≡ done (record { found = false; found_key = k; curr = none }, after))
    × Brackets 8 40
        (first_cell ∷ [])
        (last_cell ∷ [])
        2
        (record fresh_inserter { height = 2 })
        after
find_splice-Brackets_example =
    find_splice-Brackets ⦃tr = u64_trailer⦄ example 7 (2 ∷ []) (first_cell ∷ []) (last_cell ∷ [])
      example-IsRepr first_cell-Passed last_cell-Ahead true (omega arith)

-- The locals of an insertion whose key is the caller's.
abbrev locals : Locals
locals = record {
  k = Key.Key.occupied (2 ∷ []);
  deallocator = record { node = none; key = none; value = none };
  invalid_data_splice = false;
}

link_levels-IsRepr_example :
    (links : ℕ → Option Link) × (link_levels ⦃tr = u64_trailer⦄ 7 128 2 0 example splices.1 locals
      ≡ done (linked (with_links example links) locals))
    × IsRepr ⦃tr = u64_trailer⦄
        (grown ⦃tr = u64_trailer⦄ example links)
        (first_cell ∷ new_cell ∷ last_cell ∷ [])
link_levels-IsRepr_example =
    link_levels-IsRepr ⦃tr = u64_trailer⦄ example new_cell (first_cell ∷ []) (last_cell ∷ []) 2
      splices.1 locals example-IsRepr first_cell-Passed last_cell-Ahead new_cell-IsFresh
      new_cell-Holds (omega arith) (omega arith) (omega arith) (omega arith, (omega arith, tt))
      splices.3

-- Two threads that announce the versions 3 and 5.
abbrev pub two_threads : List Thread
two_threads = record { version = 3; turn = start } ∷ record { version = 5; turn = start } ∷ []

run-max_step-IsLeastBound_example :
    IsLeastBound ◌≤◌ two_threads 0
      (run max_step
        ((0, false) ∷ (1, false) ∷ (1, false) ∷ (0, false) ∷ (0, false) ∷ [])
        two_threads
        0).1
unfolding run take_turn max_step
run-max_step-IsLeastBound_example =
    run-max_step-IsLeastBound ((0, false) ∷ (1, false) ∷ (1, false) ∷ (0, false) ∷ (0, false) ∷ [])
      two_threads 0 (refl, (refl, tt)) (refl, (refl, tt))

run-min_step-IsLeastBound_example :
    IsLeastBound
      (λ a b. b ≤ a)
      two_threads
      9
      (run min_step
        ((0, false) ∷ (1, true) ∷ (1, true) ∷ (0, false) ∷ (1, false) ∷ (1, false) ∷ [])
        two_threads
        9).1
unfolding run take_turn min_step
run-min_step-IsLeastBound_example =
    run-min_step-IsLeastBound
      ((0, false) ∷ (1, true) ∷ (1, true) ∷ (0, false) ∷ (1, false) ∷ (1, false) ∷ []) two_threads 9
      (refl, (refl, tt)) (refl, (refl, tt))

-- A buffer of three bytes, of which one is written.
abbrev buffer : VacantBuffer
buffer = record { value = 1 ∷ 0 ∷ 0 ∷ []; len = 1; cap = 3; offset = 64 }

write-Written_example : Written buffer (2 ∷ 3 ∷ []) (write buffer (2 ∷ 3 ∷ []))
write-Written_example =
    write-Written buffer (2 ∷ 3 ∷ []) (record { sized = refl; within = omega arith })

fill_unchanged_example : fill buffer 9 ≡ done (record buffer { len = 3 })
fill_unchanged_example = fill_unchanged buffer 9 (record { sized = refl; within = omega arith })

decode-encode_value_pointer_example : decode_value_pointer (encode_value_pointer 5 7) ≡ (5, 7)
decode-encode_value_pointer_example = decode-encode_value_pointer 5 7 (omega arith) (omega arith)

decode-encode_key_size_and_height_example :
    decode_key_size_and_height (encode_key_size_and_height 100 31) ≡ (100, 31)
decode-encode_key_size_and_height_example =
    decode-encode_key_size_and_height 100 31 (omega arith) (omega arith)

random_height_lem_example :
    (h : ℕ) × (random_height (90 ∷ 50 ∷ 10 ∷ []) 30 3 ≡ done h)
    × IsHeight (90 ∷ 50 ∷ 10 ∷ []) 30 3 1 h
random_height_lem_example = random_height_lem (90 ∷ 50 ∷ 10 ∷ []) 30 3 (omega arith)

abbrev one_three : List ℕ
one_three = 1 ∷ 3 ∷ []

-- A node of which the key is the two bytes at 200.
abbrev prefixed : Node
prefixed = record { value = 0; key_offset = 200; key_size_and_height = 65 }

shared_key-get_bytes_example : get_bytes example.memory 200 1 ≡ 1 ∷ []
unfolding shared_key get_bytes Node.key_size decode_key_size_and_height starts_with
shared_key-get_bytes_example =
    shared_key-get_bytes example.memory gt (1 ∷ []) (1 ∷ 3 ∷ []) prefixed
      (record { offset = 200; size = 1; height = some 1 }) refl (λ e. ground arith) refl

shared_key-slice_cmp_example : one_three ≡ one_three
unfolding shared_key slice_cmp Node.key_size Node.height decode_key_size_and_height
shared_key-slice_cmp_example =
    shared_key-slice_cmp (1 ∷ 3 ∷ []) (1 ∷ 3 ∷ []) prefixed
      (record { offset = 200; size = 2; height = some 1 }) refl

-- From the first entry on, the removal is skipped.
abbrev latest : AllVersionsIter ℕ
latest = record { nd = 72; version = 9; range = range_full; all_versions = false; last = none }

next_in-first_shown_example :
    next_in ⦃tr = u64_trailer⦄ example latest
    ≡ done (first_shown ⦃tr = u64_trailer⦄ example example.tail latest (last_cell ∷ []))
unfolding last_offset
next_in-first_shown_example =
    next_in-first_shown ⦃tr = u64_trailer⦄ example (first_cell ∷ []) (last_cell ∷ []) latest
      example-IsRepr refl

check_capacity-IsLayout_example :
    (l : Layout 8 8 2) × IsLayout 1 2 8 8 l × (l.end ≡ 112) × (112 ≤ 1024)
unfolding check_capacity
check_capacity-IsLayout_example =
    check_capacity-IsLayout bump ℕ ⦃tr = u64_trailer⦄ 0 2 112 (omega arith) (omega arith) refl

check_node_size-random_height_example :
    (h : ℕ) × (r : Result (Unit {0}) (Error Unit)) × (random_height (90 ∷ 50 ∷ 10 ∷ []) 30 2
      ≡ done h)
    × (check_node_size example h 1 4294967295 ≡ done r)
    × Checked example h 1 (stored_size 4294967295) r
check_node_size-random_height_example =
    check_node_size-random_height example (90 ∷ 50 ∷ 10 ∷ []) 30 1 4294967295 (omega arith)
      (omega arith) (omega arith)
