-- ===== src/Tests/Iterations.antt =====
-- Iterators over the example map, and over one whose first key was removed after it was inserted.
use skl_rs.Prelude.{
  ℕ, ◌+◌, ◌*◌, ◌≡◌, refl, inl, false, Option, none, some, [], ◌∷◌, if◌then◌else◌, ◌==◌, keep, done,
  arith,
}
use mathlib.Core.List.{reverse}
use skl_rs.Api.{iter_all_versions, range_all_versions}
use skl_rs.Comparator.{Range, included, unbounded, ascend, slice_cmp, range_contains, u64_trailer}
use skl_rs.Comparator.Laws.{comparators-IsLawful}
use skl_rs.Entry.Laws.{entries}
use skl_rs.Iter
use skl_rs.Iter.{Iter}
use skl_rs.Iter.Laws.{YieldsValue, next-YieldsValue, next-revives}
use skl_rs.Iterator
use skl_rs.Iterator.{AllVersionsIter, prev}
use skl_rs.Iterator.Collect.{collect, seen, collect-entries}
use skl_rs.Iterator.Prev.{prev-first_shown}
use skl_rs.Iterator.Walk.{first_shown}
use skl_rs.Map.{SkipMap, get_next, get_prev, get_key, get_trailer, get_value_and_trailer}
use skl_rs.Map.Order.{Cell}
use skl_rs.Map.Repr.{Holds, IsRepr, entry_of}
use skl_rs.Node.{Node}
use skl_rs.Search.{get}
use skl_rs.Search.Near.{first_offset}
use skl_rs.Splice.Level.{last_offset}
use skl_rs.Tests.TwoKeys.{below_two, bump, links, trailers, example, cells, example-IsRepr}

abbrev between : Range
between = record { start_bound = included (2 ∷ []); end_bound = unbounded }

collect-entries_example :
    (collect ⦃tr = u64_trailer⦄ example 3 (range_all_versions ⦃tr = u64_trailer⦄ example 9 between)
      ≡ done (
          entries ⦃tr = u64_trailer⦄ example
            (keep (seen ⦃tr = u64_trailer⦄ example 9 between) cells)))
    × (collect ⦃tr = u64_trailer⦄ example 3 (iter_all_versions ⦃tr = u64_trailer⦄ example 9)
        ≡ done (
            entries ⦃tr = u64_trailer⦄ example
              (keep (seen ⦃tr = u64_trailer⦄ example 9 Iterator.range_full) cells)))
collect-entries_example = collect-entries ⦃tr = u64_trailer⦄ example cells 9 between example-IsRepr

-- An iterator over the latest versions that has come to the end of the list.
abbrev at_end : AllVersionsIter ℕ
at_end = record {
  nd = 40;
  version = 9;
  range = Iterator.range_full;
  all_versions = false;
  last = none;
}

prev-first_shown_example :
    prev ⦃tr = u64_trailer⦄ example at_end
    ≡ done (first_shown ⦃tr = u64_trailer⦄ example example.head at_end (reverse cells))
unfolding first_offset
prev-first_shown_example =
    prev-first_shown ⦃tr = u64_trailer⦄ example cells [] at_end example-IsRepr refl

next-YieldsValue_example :
    YieldsValue (Iter.next ⦃tr = u64_trailer⦄ example (record { inner = record at_end { nd = 8 } }))
    × YieldsValue
        (Iter.next_back ⦃tr = u64_trailer⦄ example (record { inner = record at_end { nd = 72 } }))
unfolding last_offset first_offset
next-YieldsValue_example =
    next-YieldsValue ⦃tr = u64_trailer⦄ example [] cells
      (record { inner = record at_end { nd = 8 } }) (record { inner = record at_end { nd = 72 } })
      example-IsRepr refl refl refl refl

abbrev undone_nodes : ℕ → Option Node
undone_nodes n =
    if n == 8
    then some (record { value = 0; key_offset = 0; key_size_and_height = 2 })
    else if n == 40
    then some (record { value = 0; key_offset = 0; key_size_and_height = 2 })
    else if n == 72
    then some (record {
      value = 208 + 4294967295 * 4294967296;
      key_offset = 200;
      key_size_and_height = 34;
    })
    else if n == 104
    then some (record { value = 224 + 1 * 4294967296; key_offset = 200; key_size_and_height = 33 })
    else none

abbrev undone : SkipMap bump ℕ
undone = record example {
  memory = record {
    nodes = undone_nodes;
    links = links;
    trailers = trailers;
    bytes = λ n. if n == 200 then 1 else if n == 232 then 9 else 0;
  };
}

abbrev removal : Cell ℕ
removal = record { offset = 72; height = 2; key = 1 ∷ []; trailer = 5; value = none }

abbrev older : Cell ℕ
older = record { offset = 104; height = 1; key = 1 ∷ []; trailer = 4; value = some (9 ∷ []) }

removal-Holds : Holds ⦃tr = u64_trailer⦄ undone removal
unfolding get_key get_trailer get_value_and_trailer
removal-Holds = record {
  ne_null = λ e. omega arith;
  ne_head = λ e. omega arith;
  ne_tail = λ e. omega arith;
  has_link = omega arith;
  key_read = refl;
  trailer_read = refl;
  value_read = refl;
}

older-Holds : Holds ⦃tr = u64_trailer⦄ undone older
unfolding get_key get_trailer get_value_and_trailer
older-Holds = record {
  ne_null = λ e. omega arith;
  ne_head = λ e. omega arith;
  ne_tail = λ e. omega arith;
  has_link = omega arith;
  key_read = refl;
  trailer_read = refl;
  value_read = refl;
}

undone-IsRepr : IsRepr ⦃tr = u64_trailer⦄ undone (removal ∷ older ∷ [])
unfolding get_next get_prev get_key slice_cmp ascend
undone-IsRepr = record {
  lawful = comparators-IsLawful.0;
  sorted = ((refl, tt), (tt, tt));
  holds = (removal-Holds, (older-Holds, tt));
  levels = below_two _ (refl, (refl, refl)) (refl, refl);
  backs = below_two _ (refl, (refl, refl)) (refl, refl);
  apart = record {
    ends = inl (omega arith);
    from_head = (inl (omega arith), (inl (omega arith), tt));
    from_tail = (inl (omega arith), (inl (omega arith), tt));
    pairs = ((inl (omega arith), tt), (tt, tt));
  };
  height_pos = omega arith;
  height_max = omega arith;
  short = (omega arith, (omega arith, tt));
  counted = refl;
  head_ne_null = λ e. omega arith;
  tail_ne_null = λ e. omega arith;
  head_ne_tail = λ e. omega arith;
  tail_key = refl;
}

next-revives_example :
    ((it : Iter ℕ) × (Iter.next ⦃tr = u64_trailer⦄ undone (Iter.new ⦃tr = u64_trailer⦄ undone 9)
        ≡ done (some (record { inner = entry_of ⦃tr = u64_trailer⦄ undone older }), it)))
    × (get ⦃tr = u64_trailer⦄ undone 9 (1 ∷ []) ≡ done none)
unfolding ascend slice_cmp range_contains
next-revives_example =
    next-revives ⦃tr = u64_trailer⦄ undone 9 removal older [] undone-IsRepr refl (omega arith)
      (9 ∷ []) refl refl refl
