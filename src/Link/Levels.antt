-- ===== src/Link/Levels.antt =====
-- The lists of all levels during the linking of a new node (the loop of `update`, src/map.rs).
use skl_rs.Prelude.{
  ℕ, ◌<◌, ◌≡◌, ◌≢◌, ◌⊎◌, inl, inr, refl, List, [], ◌∷◌, All, All-imp, All-keep, Pairwise, keep, Run,
}
use skl_rs.Comparator.{Trailer}
use skl_rs.Map.{SkipMap}
use skl_rs.Map.Order.{Cell}
use skl_rs.Map.Repr.{
  tall, Chain, BackChain, Block, Apart, IsApart, head_block, tail_block, block_of,
}
use skl_rs.Node.{tower_offset}
use skl_rs.Node.Arena.{Arena}
use skl_rs.Link.Chains.{Same, Chain-congr, BackChain-congr}
use skl_rs.Link.Level.{tower_offset-ne, tower_offset-ne_level}
use skl_rs.Link.Site.{Apart-symm}
use skl_rs.Link.Insert.{IsFresh, tall-All}

-- Two blocks of the list lie apart, or are the same.
abbrev pub Distant : Block → Block → Type 0
Distant a b = Apart a b ⊎ (a ≡ b)

-- Links of different levels are at different offsets.
pub Distant-tower_offset :
    (a b : Block) (i j : ℕ)
    → Distant a b
    → i < a.1
    → j < b.1
    → j ≢ i
    → tower_offset b.0 j ≢ tower_offset a.0 i
Distant-tower_offset a b i j (inl apart) p q ne = tower_offset-ne b a j i (Apart-symm a b apart) q p
Distant-tower_offset a b i j (inr same) p q ne = rw same (tower_offset-ne_level b.0 j i ne)

pairs-Distant :
    {T : Type 0} (cs : List (Cell T))
    → Pairwise (λ c d. Apart (block_of c) (block_of d)) cs
    → All (λ c. All (λ d. Distant (block_of c) (block_of d)) cs) cs
pairs-Distant [] h = tt
pairs-Distant {T = T} (c ∷ cs) h =
    ((inr refl, All-imp (λ d. inl) cs h.0), later cs h.0 (pairs-Distant cs h.1))
  where
    later :
        (ds : List (Cell T))
        → All (λ d. Apart (block_of c) (block_of d)) ds
        → All (λ d. All (λ e. Distant (block_of d) (block_of e)) cs) ds
        → All (λ d. All (λ e. Distant (block_of d) (block_of e)) (c ∷ cs)) ds
    later [] a k = tt
    later (d ∷ ds) a k = ((inl (Apart-symm (block_of c) (block_of d) a.0), k.0), later ds a.1 k.1)

module _ {ar : Arena} {T : Type 0} ⦃tr : Trailer T⦄ (m : SkipMap ar T) where
  -- A block is distant from all blocks: of the ends, the new node, and the cells.
  pub record IsAround (c : Cell T) (cells : List (Cell T)) (b : Block) : Type 0 where
    pub to_head : Distant b (head_block m)
    pub to_tail : Distant b (tail_block m)
    pub to_new : Distant b (block_of c)
    pub to_cells : All (λ d. Distant b (block_of d)) cells

  module _ (c : Cell T) (cells : List (Cell T)) (a : IsApart m cells) (f : IsFresh m c cells) where
    pub head-IsAround : IsAround c cells (head_block m)
    head-IsAround = record {
      to_head = inr refl;
      to_tail = inl a.ends;
      to_new = inl (Apart-symm (block_of c) (head_block m) f.from_head);
      to_cells = All-imp (λ d. inl) cells a.from_head;
    }

    pub tail-IsAround : IsAround c cells (tail_block m)
    tail-IsAround = record {
      to_head = inl (Apart-symm (head_block m) (tail_block m) a.ends);
      to_tail = inr refl;
      to_new = inl (Apart-symm (block_of c) (tail_block m) f.from_tail);
      to_cells = All-imp (λ d. inl) cells a.from_tail;
    }

    pub new-IsAround : IsAround c cells (block_of c)
    new-IsAround = record {
      to_head = inl f.from_head;
      to_tail = inl f.from_tail;
      to_new = inr refl;
      to_cells = All-imp (λ d. inl) cells f.from_cells;
    }

    gather :
        (ds : List (Cell T))
        → All (λ d. Apart (head_block m) (block_of d)) ds
        → All (λ d. Apart (tail_block m) (block_of d)) ds
        → All (λ d. Apart (block_of c) (block_of d)) ds
        → All (λ d. All (λ e. Distant (block_of d) (block_of e)) cells) ds
        → All (λ d. IsAround c cells (block_of d)) ds
    gather [] h t n k = tt
    gather (d ∷ ds) h t n k = (
      record {
        to_head = inl (Apart-symm (head_block m) (block_of d) h.0);
        to_tail = inl (Apart-symm (tail_block m) (block_of d) t.0);
        to_new = inl (Apart-symm (block_of c) (block_of d) n.0);
        to_cells = k.0;
      },
      gather ds h.1 t.1 n.1 k.1,
    )

    pub cells-IsAround : All (λ d. IsAround c cells (block_of d)) cells
    cells-IsAround = gather cells a.from_head a.from_tail f.from_cells (pairs-Distant cells a.pairs)

  -- A change of the links of one level at most, at two of the blocks, leaves a chain of another level.
  module _ (i j : ℕ) (ne : j ≢ i) (below : j < m.opts.max_height) (b n : Block) (in_b : i < b.1)
      (in_n : i < n.1) (next next' : ℕ → Run ℕ)
      (f : (q : ℕ)
        → tower_offset q j ≢ tower_offset b.0 i
        → tower_offset q j ≢ tower_offset n.0 i
        → next' q ≡ next q) where
    other_sames :
        (ds : List (Cell T))
        → All (λ d. j < d.height) ds
        → All (λ d. Distant b (block_of d)) ds
        → All (λ d. Distant n (block_of d)) ds
        → All (Same next next') ds
    other_sames [] h k l = tt
    other_sames (d ∷ ds) h k l = (
      f d.offset (Distant-tower_offset b (block_of d) i j k.0 in_b h.0 ne)
          (Distant-tower_offset n (block_of d) i j l.0 in_n h.0 ne),
      other_sames ds h.1 k.1 l.1,
    )

    other_same : (q : Block) → j < q.1 → Distant b q → Distant n q → next' q.0 ≡ next q.0
    other_same q h k l =
        f q.0 (Distant-tower_offset b q i j k in_b h ne) (Distant-tower_offset n q i j l in_n h ne)

    pub other_Chain :
        (ds : List (Cell T))
        → All (λ d. Distant b (block_of d)) ds
        → All (λ d. Distant n (block_of d)) ds
        → Distant b (head_block m)
        → Distant n (head_block m)
        → Chain next m.head (keep (tall j) ds) m.tail
        → Chain next' m.head (keep (tall j) ds) m.tail
    other_Chain ds k l kh lh chain =
        Chain-congr next next' m.head (keep (tall j) ds) m.tail chain
          (other_same (head_block m) below kh lh)
          (other_sames (keep (tall j) ds) (tall-All m j ds)
            (All-keep (λ d. Distant b (block_of d)) (tall j) ds k)
            (All-keep (λ d. Distant n (block_of d)) (tall j) ds l))

    pub other_BackChain :
        (ds : List (Cell T))
        → All (λ d. Distant b (block_of d)) ds
        → All (λ d. Distant n (block_of d)) ds
        → Distant b (tail_block m)
        → Distant n (tail_block m)
        → BackChain next m.head (keep (tall j) ds) m.tail
        → BackChain next' m.head (keep (tall j) ds) m.tail
    other_BackChain ds k l kh lh chain =
        BackChain-congr next next' m.head (keep (tall j) ds) m.tail chain
          (other_same (tail_block m) below kh lh)
          (other_sames (keep (tall j) ds) (tall-All m j ds)
            (All-keep (λ d. Distant b (block_of d)) (tall j) ds k)
            (All-keep (λ d. Distant n (block_of d)) (tall j) ds l))
