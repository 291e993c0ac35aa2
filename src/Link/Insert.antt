-- ===== src/Link/Insert.antt =====
-- The list of one level, before and after a round of linking (the loop of `update`, src/map.rs).
use skl_rs.Prelude.{
  ℕ, ◌<◌, ◌≡◌, ◌≢◌, true, List, ◌∷◌, ◌++◌, All, All-keep, All-split, Pairwise-split, Pairwise-keep,
  Across-keep, keep, done, ltb→lt, inl, inr, Bool-cases, [], Option, some,
}
use skl_rs.Comparator.{Trailer}
use skl_rs.Map.{SkipMap, get_next, get_prev}
use skl_rs.Map.Order.{Cell}
use skl_rs.Map.Repr.{
  tall, Chain, BackChain, Block, Apart, IsApart, head_block, tail_block, block_of,
}
use skl_rs.Node.{Link, tower_offset}
use skl_rs.Node.Arena.{Arena}
use skl_rs.Link.{with_links, link_round}
use skl_rs.Link.Chains.{Chain-insert, BackChain-insert, Chain-between, BackChain-between}
use skl_rs.Link.Level.{
  tower_offset-ne, get_next-inv, get_prev-inv, relinked, link_round_lem, next_of_prev, next_of_nd,
  prev_of_nd, prev_of_next, next_elsewhere, prev_elsewhere,
}
use skl_rs.Link.Site.{
  Site, last_block, first_block, last_block-All, first_block-All, last_block-offset,
  first_block-offset, Apart-symm, new_last, new_first, last_in, first_in, last_first, Elsewhere,
  kept_but, ahead-Same, passed-Same, kept_after,
}

module _ {ar : Arena} {T : Type 0} ⦃tr : Trailer T⦄ (m : SkipMap ar T) where
  -- The block of a new node lies apart from those of the list.
  pub record IsFresh (c : Cell T) (cells : List (Cell T)) : Type 0 where
    pub ne_null : c.offset ≢ 0
    pub from_head : Apart (block_of c) (head_block m)
    pub from_tail : Apart (block_of c) (tail_block m)
    pub from_cells : All (λ d. Apart (block_of c) (block_of d)) cells

  pub tall-All : (i : ℕ) (cs : List (Cell T)) → All (λ c. i < c.height) (keep (tall i) cs)
  tall-All i [] = tt
  tall-All i (c ∷ cs) = elim (Bool-cases (tall i c)) [
    | inl e ↦ rw e (ltb→lt i c.height e, tall-All i cs)
    | inr e ↦ rw e (tall-All i cs)
  ]

  pub site :
      (i : ℕ) (c : Cell T) (passed ahead : List (Cell T))
      → i < m.opts.max_height
      → IsApart m (passed ++ ahead)
      → IsFresh c (passed ++ ahead)
      → Site i
          (head_block m)
          (tail_block m)
          (block_of c)
          (keep (tall i) passed)
          (keep (tall i) ahead)
  site i c passed ahead h a f =
      let (hp, ha) = All-split (λ d. Apart (head_block m) (block_of d)) passed ahead a.from_head in
      let (tp, ta) = All-split (λ d. Apart (tail_block m) (block_of d)) passed ahead a.from_tail in
      let (np, na) = All-split (λ d. Apart (block_of c) (block_of d)) passed ahead f.from_cells in
      let (pp, pa, ac) =
        Pairwise-split (λ c d. Apart (block_of c) (block_of d)) passed ahead a.pairs in
      record {
        in_head = h;
        in_tail = h;
        in_passed = tall-All i passed;
        in_ahead = tall-All i ahead;
        head_tail = a.ends;
        head_passed = All-keep (λ d. Apart (head_block m) (block_of d)) (tall i) passed hp;
        head_ahead = All-keep (λ d. Apart (head_block m) (block_of d)) (tall i) ahead ha;
        tail_passed = All-keep (λ d. Apart (tail_block m) (block_of d)) (tall i) passed tp;
        tail_ahead = All-keep (λ d. Apart (tail_block m) (block_of d)) (tall i) ahead ta;
        pairs_passed = Pairwise-keep (λ c d. Apart (block_of c) (block_of d)) (tall i) passed pp;
        pairs_ahead = Pairwise-keep (λ c d. Apart (block_of c) (block_of d)) (tall i) ahead pa;
        across = Across-keep (λ c d. Apart (block_of c) (block_of d)) (tall i) passed ahead ac;
        new_head = f.from_head;
        new_tail = f.from_tail;
        new_passed = All-keep (λ d. Apart (block_of c) (block_of d)) (tall i) passed np;
        new_ahead = All-keep (λ d. Apart (block_of c) (block_of d)) (tall i) ahead na;
      }

  -- The list of a level, at a place.
  module _ (i : ℕ) (c : Cell T) (passed ahead : List (Cell T)) (tall_new : i < c.height)
      (ne : c.offset ≢ 0) (head_ne : m.head ≢ 0) (tail_ne : m.tail ≢ 0)
      (passed_ne : All (λ d. d.offset ≢ 0) passed) (ahead_ne : All (λ d. d.offset ≢ 0) ahead)
      (s : Site i (head_block m) (tail_block m) (block_of c) passed ahead)
      (chain : Chain (λ nd. get_next m nd i) m.head (passed ++ ahead) m.tail)
      (back : BackChain (λ nd. get_prev m nd i) m.head (passed ++ ahead) m.tail) where
    abbrev before : Block
    before = last_block (head_block m) passed

    abbrev behind : Block
    behind = first_block (tail_block m) ahead

    before_ne : before.0 ≢ 0
    before_ne = last_block-All (λ b. b.0 ≢ 0) (head_block m) passed head_ne passed_ne

    behind_ne : behind.0 ≢ 0
    behind_ne = first_block-All (λ b. b.0 ≢ 0) (tail_block m) ahead tail_ne ahead_ne

    over : get_next m before.0 i ≡ done behind.0
    over =
        rw (last_block-offset (head_block m) passed, first_block-offset (tail_block m) ahead)
          (Chain-between (λ nd. get_next m nd i) m.head passed ahead m.tail chain)

    back_over : get_prev m behind.0 i ≡ done before.0
    back_over =
        rw (last_block-offset (head_block m) passed, first_block-offset (tail_block m) ahead)
          (BackChain-between (λ nd. get_prev m nd i) m.head passed ahead m.tail back)

    new_before : tower_offset before.0 i ≢ tower_offset c.offset i
    new_before =
        tower_offset-ne before (block_of c) i i
          (Apart-symm (block_of c) before (new_last i _ _ _ passed ahead s))
          (last_in i _ _ _ passed ahead s) tall_new

    new_behind : tower_offset behind.0 i ≢ tower_offset c.offset i
    new_behind =
        tower_offset-ne behind (block_of c) i i
          (Apart-symm (block_of c) behind (new_first i _ _ _ passed ahead s))
          (first_in i _ _ _ passed ahead s) tall_new

    behind_before : tower_offset behind.0 i ≢ tower_offset before.0 i
    behind_before =
        tower_offset-ne behind before i i
          (Apart-symm before behind (last_first i _ _ _ passed ahead s))
          (first_in i _ _ _ passed ahead s) (last_in i _ _ _ passed ahead s)

    module _ (lp ln : Link) (hp : m.memory.links (tower_offset before.0 i) ≡ some lp)
        (hn : m.memory.links (tower_offset behind.0 i) ≡ some ln) (ep : lp.next_offset ≡ behind.0)
        (en : ln.prev_offset ≡ before.0) where
      abbrev links' : ℕ → Option Link
      links' =
          relinked m i c.offset before.0 behind.0 lp ln hp hn ep en new_before new_behind
            behind_before

      Chain-inserted :
          Chain (λ nd. get_next (with_links m links') nd i) m.head (passed ++ c ∷ ahead) m.tail
      Chain-inserted =
          let keeps : Elsewhere i (block_of c) (λ nd. get_next m nd i)
              (λ nd. get_next (with_links m links') nd i) before =
            λ q h a n.
              next_elsewhere m i c.offset before.0 behind.0 lp ln hp hn ep en new_before new_behind
                behind_before q.0 i
                (tower_offset-ne q before i i (Apart-symm before q a) h
                  (last_in i _ _ _ passed ahead s))
                (tower_offset-ne q (block_of c) i i (Apart-symm (block_of c) q n) h tall_new) in
          Chain-insert (λ nd. get_next m nd i) (λ nd. get_next (with_links m links') nd i) m.head
            passed c ahead m.tail chain (kept_but i _ _ _ passed ahead s _ _ keeps)
            (ahead-Same i _ _ _ passed ahead s _ _ keeps)
            (rw (← last_block-offset (head_block m) passed) (
              next_of_prev m i c.offset before.0 behind.0 lp ln hp hn ep en new_before new_behind
                behind_before before_ne))
            (rw (← first_block-offset (tail_block m) ahead) (
              next_of_nd m i c.offset before.0 behind.0 lp ln hp hn ep en new_before new_behind
                behind_before ne))

      BackChain-inserted :
          BackChain (λ nd. get_prev (with_links m links') nd i) m.head (passed ++ c ∷ ahead) m.tail
      BackChain-inserted =
          let keeps : Elsewhere i (block_of c) (λ nd. get_prev m nd i)
              (λ nd. get_prev (with_links m links') nd i) behind =
            λ q h a n.
              prev_elsewhere m i c.offset before.0 behind.0 lp ln hp hn ep en new_before new_behind
                behind_before q.0 i
                (tower_offset-ne q behind i i (Apart-symm behind q a) h
                  (first_in i _ _ _ passed ahead s))
                (tower_offset-ne q (block_of c) i i (Apart-symm (block_of c) q n) h tall_new) in
          BackChain-insert (λ nd. get_prev m nd i) (λ nd. get_prev (with_links m links') nd i)
            m.head passed c ahead m.tail back (passed-Same i _ _ _ passed ahead s _ _ keeps)
            (kept_after i _ _ _ passed ahead s _ _ keeps)
            (rw (← first_block-offset (tail_block m) ahead) (
              prev_of_next m i c.offset before.0 behind.0 lp ln hp hn ep en new_before new_behind
                behind_before behind_ne))
            (rw (← last_block-offset (head_block m) passed) (
              prev_of_nd m i c.offset before.0 behind.0 lp ln hp hn ep en new_before new_behind
                behind_before ne))

    pub insert_level :
        (links : ℕ → Option Link) × (link_round m c.offset i before.0 behind.0
          ≡ done (true, with_links m links))
        × Chain (λ nd. get_next (with_links m links) nd i) m.head (passed ++ c ∷ ahead) m.tail
        × BackChain (λ nd. get_prev (with_links m links) nd i) m.head (passed ++ c ∷ ahead) m.tail
        × ((q j : ℕ)
            → tower_offset q j ≢ tower_offset before.0 i
            → tower_offset q j ≢ tower_offset c.offset i
            → get_next (with_links m links) q j ≡ get_next m q j)
        × ((q j : ℕ)
            → tower_offset q j ≢ tower_offset behind.0 i
            → tower_offset q j ≢ tower_offset c.offset i
            → get_prev (with_links m links) q j ≡ get_prev m q j)
    insert_level =
        let (lp, hp, ep) = get_next-inv m before.0 i behind.0 before_ne over in
        let (ln, hn, en) = get_prev-inv m behind.0 i before.0 behind_ne back_over in
        (
          links' lp ln hp hn ep en,
          link_round_lem m i c.offset before.0 behind.0 lp ln hp hn ep en new_before new_behind
              behind_before,
          Chain-inserted lp ln hp hn ep en,
          BackChain-inserted lp ln hp hn ep en,
          next_elsewhere m i c.offset before.0 behind.0 lp ln hp hn ep en new_before new_behind
              behind_before,
          prev_elsewhere m i c.offset before.0 behind.0 lp ln hp hn ep en new_before new_behind
              behind_before,
        )
