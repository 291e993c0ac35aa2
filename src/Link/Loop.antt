-- ===== src/Link/Loop.antt =====
-- The loop of `update` over the levels of the tower of a new node.
use mathlib.Core.Path.{subst}
use skl_rs.Prelude.{
  ℕ, zero, suc, ◌+◌, ◌≤◌, ◌<◌, ◌≡◌, ◌≢◌, inl, inr, refl, ap, ◌∙◌, true, false, Option, none, some,
  List, ◌∷◌, ◌++◌, All, All-keep, All-split, All-insert, keep, keep-append, ltb, ltb→lt, lt→ltb,
  Bool-cases, Run, done, arith, get_elem?, if◌then◌else◌, ◌==◌, eq_of_==,
}
use skl_rs.Comparator.{Trailer}
use skl_rs.Map.{SkipMap, get_next, get_prev}
use skl_rs.Map.Order.{Cell}
use skl_rs.Map.Repr.{tall, Chain, BackChain, Block, IsApart, head_block, tail_block, block_of}
use skl_rs.Node.{Link, tower_offset}
use skl_rs.Node.Arena.{Arena}
use skl_rs.Search.Near.{first_offset}
use skl_rs.Search.{rounds}
use skl_rs.Splice.{Splice, Inserter}
use skl_rs.Splice.Level.{last_offset}
use skl_rs.Link.{with_links, link_level, link_levels, level_ends, Locals, linked, link_round}
use skl_rs.Link.Site.{
  last_in, first_in, Site, last_block, first_block, last_block-All, first_block-All,
  last_block-offset, first_block-offset,
}
use skl_rs.Link.Insert.{IsFresh, site, insert_level}
use skl_rs.Link.Levels.{
  IsAround, head-IsAround, tail-IsAround, new-IsAround, cells-IsAround, other_Chain,
  other_BackChain,
}

ne_of_== : (a b : ℕ) → (a == b) ≡ false → a ≢ b
ne_of_== a b e = ground arith

module _ {ar : Arena} {T : Type 0} ⦃tr : Trailer T⦄ (m : SkipMap ar T) (c : Cell T)
    (passed ahead : List (Cell T)) (a : IsApart m (passed ++ ahead))
    (f : IsFresh m c (passed ++ ahead)) (hn : m.head ≢ 0) (tn : m.tail ≢ 0)
    (nn : All (λ d. d.offset ≢ 0) (passed ++ ahead))
    (height_max : c.height ≤ m.opts.max_height) where
  -- The cells that the list of a level holds, where the levels below `idx` are linked.
  abbrev pub placed : ℕ → ℕ → List (Cell T)
  placed idx j = if ltb j idx then passed ++ c ∷ ahead else passed ++ ahead

  pub record IsLinked (idx : ℕ) (links : ℕ → Option Link) : Type 0 where
    pub chains :
        (j : ℕ)
        → j < m.opts.max_height
        → Chain
            (λ nd. get_next (with_links m links) nd j)
            m.head
            (keep (tall j) (placed idx j))
            m.tail
    pub backs :
        (j : ℕ)
        → j < m.opts.max_height
        → BackChain
            (λ nd. get_prev (with_links m links) nd j)
            m.head
            (keep (tall j) (placed idx j))
            m.tail

  abbrev pub level_prev : ℕ → Block
  level_prev i = last_block (head_block m) (keep (tall i) passed)

  abbrev pub level_next : ℕ → Block
  level_next i = first_block (tail_block m) (keep (tall i) ahead)

  prev-IsAround : (i : ℕ) → IsAround m c (passed ++ ahead) (level_prev i)
  prev-IsAround i =
      last_block-All (λ b. IsAround m c (passed ++ ahead) b) (head_block m) (keep (tall i) passed)
        (head-IsAround m c (passed ++ ahead) a f)
        (All-keep _ (tall i) passed
          (All-split _ passed ahead (cells-IsAround m c (passed ++ ahead) a f)).0)

  next-IsAround : (i : ℕ) → IsAround m c (passed ++ ahead) (level_next i)
  next-IsAround i =
      first_block-All (λ b. IsAround m c (passed ++ ahead) b) (tail_block m) (keep (tall i) ahead)
        (tail-IsAround m c (passed ++ ahead) a f)
        (All-keep _ (tall i) ahead
          (All-split _ passed ahead (cells-IsAround m c (passed ++ ahead) a f)).1)

  keep_inserted :
      (i : ℕ)
      → i < c.height
      → keep (tall i) (passed ++ c ∷ ahead) ≡ keep (tall i) passed ++ c ∷ keep (tall i) ahead
  keep_inserted i h = rw (keep-append (tall i) passed (c ∷ ahead), lt→ltb i c.height h)

  placed-All :
      (P : Cell T → Type 0) (idx j : ℕ) → All P (passed ++ ahead) → P c → All P (placed idx j)
  placed-All P idx j h k = elim (Bool-cases (ltb j idx)) [
    | inl e ↦ rw e (All-insert P passed c ahead h k)
    | inr e ↦ rw e h
  ]

  placed_self : (i : ℕ) → placed i i ≡ passed ++ ahead
  placed_self i = elim (Bool-cases (ltb i i)) [
    | inl e ↦ absurd (omega (arith, ltb→lt i i e))
    | inr e ↦ rw e
  ]

  placed-suc : (i : ℕ) → placed (i + 1) i ≡ passed ++ c ∷ ahead
  placed-suc i = rw (lt→ltb i (i + 1) (omega arith))

  placed-ne : (i j : ℕ) → j ≢ i → placed (i + 1) j ≡ placed i j
  placed-ne i j ne = elim (Bool-cases (ltb j i)) [
    | inl e ↦ rw (e, lt→ltb j (i + 1) (omega (arith, ltb→lt j i e)))
    | inr e ↦ elim (Bool-cases (ltb j (i + 1))) [
      | inl l ↦ ground (arith, lt→ltb j i, ltb→lt j (i + 1))
      | inr l ↦ rw (e, l)
    ]
  ]

  Site-at :
      (i : ℕ)
      → i < c.height
      → Site i
          (head_block m)
          (tail_block m)
          (block_of c)
          (keep (tall i) passed)
          (keep (tall i) ahead)
  Site-at i h = site m i c passed ahead (omega arith) a f

  -- From the list of one level to the lists of all levels.
  module _ (i : ℕ) (h : i < c.height) (next next' : ℕ → ℕ → Run ℕ) where
    chains_next :
        ((j q : ℕ)
          → tower_offset q j ≢ tower_offset (level_prev i).0 i
          → tower_offset q j ≢ tower_offset c.offset i
          → next' j q ≡ next j q)
        → Chain (next' i) m.head (keep (tall i) passed ++ c ∷ keep (tall i) ahead) m.tail
        → ((j : ℕ)
            → j < m.opts.max_height
            → Chain (next j) m.head (keep (tall j) (placed i j)) m.tail)
        → (j : ℕ) → j < m.opts.max_height
        → Chain (next' j) m.head (keep (tall j) (placed (i + 1) j)) m.tail
    chains_next same here before j below = elim (Bool-cases (j == i)) [
      | inl at ↦ rw (eq_of_== j i at, placed-suc i, keep_inserted i h) here
      | inr other ↦
          let ne = ne_of_== j i other in
          let around = prev-IsAround i in
          let new = new-IsAround m c (passed ++ ahead) a f in
          rw (placed-ne i j ne) (
            other_Chain m i j ne below (level_prev i) (block_of c)
              (last_in i _ _ _ _ _ (Site-at i h)) h (next j) (next' j) (same j) (placed i j)
              (placed-All _ i j around.to_cells around.to_new)
              (placed-All _ i j new.to_cells new.to_new) around.to_head new.to_head
              (before j below))
    ]

    backs_next :
        ((j q : ℕ)
          → tower_offset q j ≢ tower_offset (level_next i).0 i
          → tower_offset q j ≢ tower_offset c.offset i
          → next' j q ≡ next j q)
        → BackChain (next' i) m.head (keep (tall i) passed ++ c ∷ keep (tall i) ahead) m.tail
        → ((j : ℕ)
            → j < m.opts.max_height
            → BackChain (next j) m.head (keep (tall j) (placed i j)) m.tail)
        → (j : ℕ) → j < m.opts.max_height
        → BackChain (next' j) m.head (keep (tall j) (placed (i + 1) j)) m.tail
    backs_next same here before j below = elim (Bool-cases (j == i)) [
      | inl at ↦ rw (eq_of_== j i at, placed-suc i, keep_inserted i h) here
      | inr other ↦
          let ne = ne_of_== j i other in
          let around = next-IsAround i in
          let new = new-IsAround m c (passed ++ ahead) a f in
          rw (placed-ne i j ne) (
            other_BackChain m i j ne below (level_next i) (block_of c)
              (first_in i _ _ _ _ _ (Site-at i h)) h (next j) (next' j) (same j) (placed i j)
              (placed-All _ i j around.to_cells around.to_new)
              (placed-All _ i j new.to_cells new.to_new) around.to_tail new.to_tail
              (before j below))
    ]

  -- One level more is linked.
  IsLinked-next :
      (i : ℕ) (links : ℕ → Option Link)
      → i < c.height
      → IsLinked i links
      → (links' : ℕ → Option Link) × (link_round
            (with_links m links)
            c.offset
            i
            (level_prev i).0
            (level_next i).0
          ≡ done (true, with_links m links'))
        × IsLinked (i + 1) links'
  IsLinked-next i links h s =
      let cut : keep (tall i) (placed i i) ≡ keep (tall i) passed ++ keep (tall i) ahead =
        ap (keep (tall i)) (placed_self i) ∙ keep-append (tall i) passed ahead in
      let (passed_ne, ahead_ne) = All-split _ passed ahead nn in
      let (links', round, chain, back, next_same, prev_same) =
        insert_level (with_links m links) i c (keep (tall i) passed) (keep (tall i) ahead) h
          f.ne_null hn tn (All-keep _ (tall i) passed passed_ne)
          (All-keep _ (tall i) ahead ahead_ne) (Site-at i h)
          (subst (λ cs. Chain (λ nd. get_next (with_links m links) nd i) m.head cs m.tail) cut
            (s.chains i (omega arith)))
          (subst (λ cs. BackChain (λ nd. get_prev (with_links m links) nd i) m.head cs m.tail) cut
            (s.backs i (omega arith))) in
      (
        links',
        round,
        record {
          chains =
              chains_next i h (λ j q. get_next (with_links m links) q j)
                (λ j q. get_next (with_links m links') q j) (λ j q. next_same q j) chain s.chains;
          backs =
              backs_next i h (λ j q. get_prev (with_links m links) q j)
                (λ j q. get_prev (with_links m links') q j) (λ j q. prev_same q j) back s.backs;
        },
      )

  -- The splices of an inserter hold the neighbours on every level.
  abbrev pub IsPlaced : Inserter → Type 0
  IsPlaced ins =
      (i : ℕ)
      → i < c.height
      → level_ends m (get_elem? ins.spl i)
        ≡ done
            (last_offset m.head (keep (tall i) passed), first_offset m.tail (keep (tall i) ahead))

  level_ends-links :
      (links : ℕ → Option Link) (s : Option Splice)
      → level_ends (with_links m links) s ≡ level_ends m s
  unfolding level_ends
  level_ends-links links none = refl
  level_ends-links links (some s) = refl

  -- One round is enough where the exchange succeeds.
  link_level_won :
      (version fuel : ℕ) (m1 m2 : SkipMap ar T) (i prev next : ℕ) (ls : Locals)
      → 0 < fuel
      → link_round m1 c.offset i prev next ≡ done (true, m2)
      → link_level version c.offset fuel m1 i prev next ls ≡ done (linked m2 ls)
  unfolding link_level
  link_level_won version zero m1 m2 i prev next ls h e = absurd (omega arith)
  link_level_won version (suc fuel) m1 m2 i prev next ls h e = rw e refl

  -- The loop links all levels.
  pub link_levels_lem :
      (version left idx : ℕ) (links : ℕ → Option Link) (ins : Inserter) (ls : Locals)
      → left + idx ≡ c.height
      → IsPlaced ins
      → IsLinked idx links
      → (links' : ℕ → Option Link) × (link_levels version c.offset left idx
            (with_links m links)
            ins
            ls
          ≡ done (linked (with_links m links') ls))
        × IsLinked c.height links'
  unfolding link_levels
  link_levels_lem version zero idx links ins ls e p s =
      (links, refl, subst (λ n. IsLinked n links) (omega arith) s)
  link_levels_lem version (suc left) idx links ins ls e p s =
      let (links1, round, s1) = IsLinked-next idx links (omega arith) s in
      let (links2, rest, s2) =
        link_levels_lem version left (idx + 1) links1 ins ls (omega arith) p s1 in
      let won =
        link_level_won version (rounds (with_links m links)) (with_links m links)
          (with_links m links1) idx (level_prev idx).0 (level_next idx).0 ls (omega arith) round in
      (
        links2,
        rw
            (
              level_ends-links links,
              p idx (omega arith),
              ← last_block-offset (head_block m) (keep (tall idx) passed),
              ← first_block-offset (tail_block m) (keep (tall idx) ahead),
              won,
            )
            rest,
        s2,
      )
