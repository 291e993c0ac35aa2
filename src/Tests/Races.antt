-- ===== src/Tests/Races.antt =====
-- Two threads that link entries of one key between the two of the map, in turns.
use skl_rs.Prelude.{ℕ, ◌≡◌, ◌⊎◌, inl, inr, refl, List, [], ◌∷◌, All, done, arith}
use skl_rs.Comparator.{u64_trailer, slice_cmp, ascend}
use skl_rs.Link.Race.{Racer, writing, race}
use skl_rs.Link.Race.Keeps.{StandsTo, race-Chain}
use skl_rs.Link.Race.Places.{Has}
use skl_rs.Link.Race.Turns.{cells_of, IsSound}
use skl_rs.Map.{SkipMap, get_key, order_at, get_next, get_trailer, get_value_and_trailer}
use skl_rs.Map.Order.{Cell, IsSorted}
use skl_rs.Map.Repr.{Chain, Holds}
use skl_rs.Tests.TwoKeys.{
  bump, example, cells, new_cell, rival_cell, new_cell-Holds, example-IsRepr,
}

rival_cell-Holds : Holds ⦃tr = u64_trailer⦄ example rival_cell
unfolding get_key get_trailer get_value_and_trailer
rival_cell-Holds = record {
  ne_null = λ e. omega arith;
  ne_head = λ e. omega arith;
  ne_tail = λ e. omega arith;
  has_link = omega arith;
  key_read = refl;
  trailer_read = refl;
  value_read = refl;
}

-- Both threads have found the place between the two entries.
abbrev racers : List (Racer ℕ)
racers =
    record { cell = new_cell; move = writing 72 104 }
    ∷ record { cell = rival_cell; move = writing 72 104 }
    ∷ []

racers-IsSound : All (IsSound ⦃tr = u64_trailer⦄ example example.memory.links cells) racers
unfolding slice_cmp ascend get_key order_at
racers-IsSound = (
  (
    new_cell-Holds,
    (
      ((λ e. omega (arith, e)), ((λ e. omega (arith, e)), tt)),
      (inr (inl refl), inr refl),
      (inr (inr (inl refl)), inr refl),
    ),
  ),
  (
    (
      rival_cell-Holds,
      (
        ((λ e. omega (arith, e)), ((λ e. omega (arith, e)), tt)),
        (inr (inl refl), inr refl),
        (inr (inr (inl refl)), inr refl),
      ),
    ),
    tt,
  ),
)

-- The second thread wins the exchange, and the first one looks for its place again.
abbrev turns : List ℕ
turns = 0 ∷ 1 ∷ 1 ∷ 0 ∷ 1 ∷ 0 ∷ 0 ∷ 1 ∷ 0 ∷ 0 ∷ 0 ∷ 0 ∷ []

race-Chain_example :
    (rs' : List (Racer ℕ)) × (m' : SkipMap bump ℕ) × (after : List (Cell ℕ)) × (race
        ⦃tr = u64_trailer⦄ 0 turns racers example
      ≡ done (rs', m'))
    × Chain (λ nd. get_next m' nd 0) 8 after 40
    × IsSorted ⦃tr = u64_trailer⦄ ascend.cmp after
    × All (λ d. Has d after) cells
    × All (λ d. Has d cells ⊎ Has d (cells_of racers)) after
    × (cells_of rs' ≡ cells_of racers)
    × All (StandsTo ⦃tr = u64_trailer⦄ example cells example-IsRepr after) rs'
race-Chain_example =
    race-Chain ⦃tr = u64_trailer⦄ example cells racers turns example-IsRepr
      (((λ e. omega (arith, e)), tt), (tt, tt)) racers-IsSound
