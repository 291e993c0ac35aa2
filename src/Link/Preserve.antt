-- ===== src/Link/Preserve.antt =====
-- The loop of `update` (src/map.rs) against the cells that the map stands for.
use mathlib.Core.Path.{subst}
use skl_rs.Prelude.{
  le→ltb, if◌then◌else◌, ℕ, zero, suc, ◌+◌, ◌^◌, ◌≤◌, ◌<◌, ◌≡◌, ◌≢◌, inl, inr, refl, sym, Option,
  some, List, [], ◌∷◌, ◌++◌, All, All-imp, All-keep, All-split, All-insert, Pairwise-insert, keep,
  keep-append, ltb, ltb→lt, ltb→le, ==_ne, Bool-cases, done, arith, get_elem?, replicate, gt,
  length-append,
}
use skl_rs.Comparator.{Trailer}
use skl_rs.Comparator.Laws.{IsLawful}
use skl_rs.Height.{max_tower}
use skl_rs.Map.{SkipMap, get_next, get_prev, get_key, get_trailer, get_value_and_trailer}
use skl_rs.Map.Order.{Cell, Before, at, IsSorted}
use skl_rs.Map.Repr.{
  tall, Chain, BackChain, Apart, IsApart, head_block, tail_block, block_of, Holds, IsRepr,
}
use skl_rs.Meta.{increase_len}
use skl_rs.Node.{Link, is_null}
use skl_rs.Node.Arena.{Arena}
use skl_rs.Search.Near.{first_offset}
use skl_rs.Splice.{Splice, Inserter, fresh_inserter}
use skl_rs.Splice.Level.{last_offset, Passed, Ahead}
use skl_rs.Splice.Levels.{Brackets}
use skl_rs.Link.{with_links, link_levels, level_ends, Locals, linked}
use skl_rs.Link.Insert.{IsFresh}
use skl_rs.Link.Site.{Apart-symm}
use skl_rs.Link.Loop.{IsLinked, link_levels_lem}

last_offset-ne :
    {T : Type 0} (a : ℕ) (cs : List (Cell T))
    → a ≢ 0
    → All (λ c. c.offset ≢ 0) cs
    → last_offset a cs ≢ 0
unfolding last_offset
last_offset-ne a [] h k = h
last_offset-ne a (c ∷ cs) h k = last_offset-ne c.offset cs k.0 k.1

get_elem?-replicate : {A : Type 0} (n i : ℕ) (v : A) → i < n → get_elem? (replicate n v) i ≡ some v
get_elem?-replicate zero i v h = absurd (omega arith)
get_elem?-replicate (suc n) zero v h = refl
get_elem?-replicate (suc n) (suc i) v h = get_elem?-replicate n i v (omega arith)

module _ {ar : Arena} {T : Type 0} ⦃tr : Trailer T⦄ (m : SkipMap ar T) where
  abbrev pub grown : (ℕ → Option Link) → SkipMap ar T
  grown links = record (with_links m links) { meta = increase_len m.meta }

  Holds-links : (links : ℕ → Option Link) (c : Cell T) → Holds m c → Holds (grown links) c
  unfolding get_key get_trailer get_value_and_trailer
  Holds-links links c h = record {
    ne_null = h.ne_null;
    ne_head = h.ne_head;
    ne_tail = h.ne_tail;
    has_link = h.has_link;
    key_read = h.key_read;
    trailer_read = h.trailer_read;
    value_read = h.value_read;
  }

  module _ (laws : IsLawful m.cmp.cmp) (c : Cell T) where
    Before-Passed :
        (d : Cell T) → at m.cmp.cmp (tr.version c.trailer) c.key d ≡ gt → Before m.cmp.cmp d c
    Before-Passed d h = ground (arith, laws.cmp_flip c.key d.key)

    pub IsSorted-inserted :
        (passed ahead : List (Cell T))
        → IsSorted m.cmp.cmp (passed ++ ahead)
        → Passed m (tr.version c.trailer) c.key passed
        → Ahead m (tr.version c.trailer) c.key ahead
        → IsSorted m.cmp.cmp (passed ++ c ∷ ahead)
    IsSorted-inserted passed ahead s p q =
        Pairwise-insert (Before m.cmp.cmp) passed c ahead s (All-imp Before-Passed passed p) q

  module _ (c : Cell T) (passed ahead : List (Cell T)) (a : IsApart m (passed ++ ahead))
      (f : IsFresh m c (passed ++ ahead)) where
    IsApart-inserted : (links : ℕ → Option Link) → IsApart (grown links) (passed ++ c ∷ ahead)
    IsApart-inserted links = record {
      ends = a.ends;
      from_head =
          All-insert (λ d. Apart (head_block m) (block_of d)) passed c ahead a.from_head
            (Apart-symm (block_of c) (head_block m) f.from_head);
      from_tail =
          All-insert (λ d. Apart (tail_block m) (block_of d)) passed c ahead a.from_tail
            (Apart-symm (block_of c) (tail_block m) f.from_tail);
      pairs =
          Pairwise-insert (λ d e. Apart (block_of d) (block_of e)) passed c ahead a.pairs
            (All-imp (λ d. Apart-symm (block_of c) (block_of d)) passed
              (All-split _ passed ahead f.from_cells).0)
            (All-split _ passed ahead f.from_cells).1;
    }

  keep_low :
      (i levels : ℕ) (cs : List (Cell T))
      → levels ≤ i
      → All (λ d. d.height ≤ levels) cs
      → keep (tall i) cs ≡ []
  keep_low i levels [] h k = refl
  keep_low i levels (d ∷ ds) h k = elim (Bool-cases (tall i d)) [
    | inl e ↦ absurd (omega (arith, ltb→lt i d.height e, k.0))
    | inr e ↦ rw e (keep_low i levels ds h k.1)
  ]

  placed_at :
      (c : Cell T) (passed ahead : List (Cell T)) (r : IsRepr m (passed ++ ahead))
      (f : IsFresh m c (passed ++ ahead)) (levels : ℕ) (ins : Inserter)
      → Brackets m.head m.tail passed ahead levels (record fresh_inserter { height = levels }) ins
      → All (λ d. d.height ≤ levels) (passed ++ ahead)
      → c.height ≤ max_tower
      → (i : ℕ) → i < c.height
      → level_ends m (get_elem? ins.spl i)
        ≡ done
            (last_offset m.head (keep (tall i) passed), first_offset m.tail (keep (tall i) ahead))
  unfolding level_ends fresh_inserter is_null last_offset first_offset
  placed_at c passed ahead r f levels ins b short h i j = elim (Bool-cases (ltb i levels)) [
    | inl low ↦ rw (
      b.at_level i (ltb→lt i levels low),
      ==_ne _ _ (
          last_offset-ne m.head (keep (tall i) passed) r.head_ne_null (
            All-keep _ (tall i) passed
              (All-imp (λ d x. x.ne_null) passed (All-split _ passed ahead r.holds).0))),
    )
    | inr high ↦
        let (low_passed, low_ahead) = All-split (λ d. d.height ≤ levels) passed ahead short in
        let above : levels ≤ i = ltb→le i levels high in
        rw (
          b.above i above,
          keep_low i levels passed above low_passed,
          keep_low i levels ahead above low_ahead,
          get_elem?-replicate {A = Splice} max_tower i (record { prev = 0; next = 0 })
              (omega arith),
        )
  ]

  keep_inserted :
      (i : ℕ) (c : Cell T) (passed ahead : List (Cell T))
      → c.height ≤ i
      → keep (tall i) (passed ++ c ∷ ahead) ≡ keep (tall i) (passed ++ ahead)
  keep_inserted i c passed ahead h = elim (Bool-cases (tall i c)) [
    | inl e ↦ absurd (omega (arith, ltb→lt i c.height e))
    | inr e ↦ rw (keep-append (tall i) passed (c ∷ ahead), keep-append (tall i) passed ahead, e)
  ]

  -- What is linked on all levels of the tower is a list with the cell.
  all_placed :
      (i : ℕ) (c : Cell T) (passed ahead : List (Cell T))
      → keep (tall i) (if ltb i c.height then passed ++ c ∷ ahead else passed ++ ahead)
        ≡ keep (tall i) (passed ++ c ∷ ahead)
  all_placed i c passed ahead = elim (Bool-cases (ltb i c.height)) [
    | inl e ↦ rw e
    | inr e ↦ rw e (sym (keep_inserted i c passed ahead (ltb→le i c.height e)))
  ]

  module _ (c : Cell T) (passed ahead : List (Cell T)) (r : IsRepr m (passed ++ ahead))
      (f : IsFresh m c (passed ++ ahead)) (low : c.height ≤ m.opts.max_height) where
    abbrev AllLinked : (ℕ → Option Link) → Type 0
    AllLinked =
        IsLinked m c passed ahead r.apart f r.head_ne_null r.tail_ne_null
          (All-imp (λ d x. x.ne_null) (passed ++ ahead) r.holds) low c.height

    none-IsLinked :
        IsLinked m c passed ahead r.apart f r.head_ne_null r.tail_ne_null
          (All-imp (λ d x. x.ne_null) (passed ++ ahead) r.holds)
          low
          0
          m.memory.links
    none-IsLinked = record {
      chains = λ j below. rw (le→ltb j 0 (omega arith)) (r.levels j below);
      backs = λ j below. rw (le→ltb j 0 (omega arith)) (r.backs j below);
    }

    IsRepr-inserted :
        (links : ℕ → Option Link)
        → AllLinked links
        → Holds m c
        → c.height ≤ m.meta.height
        → m.meta.len + 1 < 2 ^ 32
        → Passed m (tr.version c.trailer) c.key passed
        → Ahead m (tr.version c.trailer) c.key ahead
        → IsRepr (grown links) (passed ++ c ∷ ahead)
    unfolding increase_len get_key get_next get_prev
    IsRepr-inserted links s h short room p q = record {
      lawful = r.lawful;
      sorted = IsSorted-inserted r.lawful c passed ahead r.sorted p q;
      holds =
          All-insert (Holds (grown links)) passed c ahead
            (All-imp (Holds-links links) (passed ++ ahead) r.holds) (Holds-links links c h);
      levels = λ i below.
          subst (λ cs. Chain (λ nd. get_next (with_links m links) nd i) m.head cs m.tail)
            (all_placed i c passed ahead) (s.chains i below);
      backs = λ i below.
          subst (λ cs. BackChain (λ nd. get_prev (with_links m links) nd i) m.head cs m.tail)
            (all_placed i c passed ahead) (s.backs i below);
      apart = IsApart-inserted c passed ahead r.apart f links;
      height_pos = r.height_pos;
      height_max = r.height_max;
      short = All-insert (λ d. d.height ≤ m.meta.height) passed c ahead r.short short;
      counted =
          omega (arith, r.counted, length-append passed ahead, length-append passed (c ∷ ahead));
      head_ne_null = r.head_ne_null;
      tail_ne_null = r.tail_ne_null;
      head_ne_tail = r.head_ne_tail;
      tail_key = r.tail_key;
    }

-- Where a map stands for the cells before and after the place of a new cell, no cell is higher than
-- the levels that the splices of an inserter bracket the place on, and the inserter is else as new;
-- where the node of the new cell is in memory, apart from the others, no higher than the list, and
-- the list has at most 32 levels and room for one more in its count: then the loop over the levels
-- of the new tower ends linked, with no retry, and after `increase_len` the map stands for the cells
-- with the new one at its place.
pub link_levels-IsRepr :
    {ar : Arena} {T : Type 0} ⦃tr : Trailer T⦄ (m : SkipMap ar T) (c : Cell T)
    (passed ahead : List (Cell T)) (levels : ℕ) (ins : Inserter) (ls : Locals)
    → IsRepr m (passed ++ ahead)
    → Passed m (tr.version c.trailer) c.key passed
    → Ahead m (tr.version c.trailer) c.key ahead
    → IsFresh m c (passed ++ ahead)
    → Holds m c
    → c.height ≤ m.meta.height
    → m.opts.max_height ≤ max_tower
    → m.meta.len + 1 < 2 ^ 32
    → All (λ d. d.height ≤ levels) (passed ++ ahead)
    → Brackets m.head m.tail passed ahead levels (record fresh_inserter { height = levels }) ins
    → (links : ℕ → Option Link) × (link_levels (tr.version c.trailer) c.offset c.height 0 m ins ls
        ≡ done (linked (with_links m links) ls))
      × IsRepr (grown m links) (passed ++ c ∷ ahead)
link_levels-IsRepr ⦃tr = tr⦄ m c passed ahead levels ins ls r p q f h short bounded room low b =
    let below : c.height ≤ m.opts.max_height = omega (arith, r.height_max) in
    let (links, runs, s) =
      link_levels_lem m c passed ahead r.apart f r.head_ne_null r.tail_ne_null
        (All-imp (λ d x. x.ne_null) (passed ++ ahead) r.holds) below (tr.version c.trailer) c.height
        0 m.memory.links ins ls (omega arith)
        (placed_at m c passed ahead r f levels ins b low (omega arith))
        (none-IsLinked m c passed ahead r f below) in
    (links, runs, IsRepr-inserted m c passed ahead r f below links s h short room p q)
