-- ===== src/Link/Site.antt =====
-- The nodes around the place of a new node on a level (the loop of `update`, src/map.rs).
use skl_rs.Prelude.{ℕ, ◌<◌, ◌≡◌, inl, inr, refl, List, [], ◌∷◌, All, Pairwise, Across, Run}
use skl_rs.Map.Order.{Cell}
use skl_rs.Map.Repr.{Block, Apart, block_of}
use skl_rs.Search.Near.{first_offset}
use skl_rs.Splice.Level.{last_offset}
use skl_rs.Link.Chains.{Same, KeptBut, KeptAfter}

-- The block of the last cell, or of the node that the list starts from.
abbrev pub last_block : {T : Type 0} → Block → List (Cell T) → Block
last_block a [] = a
last_block a (c ∷ cs) = last_block (block_of c) cs

abbrev pub first_block : {T : Type 0} → Block → List (Cell T) → Block
first_block a [] = a
first_block a (c ∷ cs) = block_of c

pub Apart-symm : (a b : Block) → Apart a b → Apart b a
Apart-symm a b (inl h) = inr h
Apart-symm a b (inr h) = inl h

module _ {T : Type 0} where
  pub last_block-offset :
      (a : Block) (cs : List (Cell T)) → (last_block a cs).0 ≡ last_offset a.0 cs
  unfolding last_offset
  last_block-offset a [] = refl
  last_block-offset a (c ∷ cs) = last_block-offset (block_of c) cs

  pub first_block-offset :
      (a : Block) (cs : List (Cell T)) → (first_block a cs).0 ≡ first_offset a.0 cs
  unfolding first_offset
  first_block-offset a [] = refl
  first_block-offset a (c ∷ cs) = refl

  -- A property of all blocks of a list holds of the last one.
  pub last_block-All :
      (P : Block → Type 0) (a : Block) (cs : List (Cell T))
      → P a
      → All (λ c. P (block_of c)) cs
      → P (last_block a cs)
  last_block-All P a [] h k = h
  last_block-All P a (c ∷ cs) h k = last_block-All P (block_of c) cs k.0 k.1

  pub first_block-All :
      (P : Block → Type 0) (a : Block) (cs : List (Cell T))
      → P a
      → All (λ c. P (block_of c)) cs
      → P (first_block a cs)
  first_block-All P a [] h k = h
  first_block-All P a (c ∷ cs) h k = k.0

-- The nodes around a new one on a level, in the order of the list.
pub record Site (i : ℕ) (head tail new : Block) {T : Type 0} (passed ahead : List (Cell T))
    : Type 0 where
  pub in_head : i < head.1
  pub in_tail : i < tail.1
  pub in_passed : All (λ c. i < c.height) passed
  pub in_ahead : All (λ c. i < c.height) ahead
  pub head_tail : Apart head tail
  pub head_passed : All (λ c. Apart head (block_of c)) passed
  pub head_ahead : All (λ c. Apart head (block_of c)) ahead
  pub tail_passed : All (λ c. Apart tail (block_of c)) passed
  pub tail_ahead : All (λ c. Apart tail (block_of c)) ahead
  pub pairs_passed : Pairwise (λ c d. Apart (block_of c) (block_of d)) passed
  pub pairs_ahead : Pairwise (λ c d. Apart (block_of c) (block_of d)) ahead
  pub across : Across (λ c d. Apart (block_of c) (block_of d)) passed ahead
  pub new_head : Apart new head
  pub new_tail : Apart new tail
  pub new_passed : All (λ c. Apart new (block_of c)) passed
  pub new_ahead : All (λ c. Apart new (block_of c)) ahead

-- The links are as before at the nodes that lie apart from a node and from the new one.
abbrev pub Elsewhere : ℕ → Block → (ℕ → Run ℕ) → (ℕ → Run ℕ) → Block → Type 0
Elsewhere i new next next' at =
    (q : Block) → i < q.1 → Apart at q → Apart new q → next' q.0 ≡ next q.0

module _ {T : Type 0} (i : ℕ) (new : Block) (next next' : ℕ → Run ℕ) where
  keep_but :
      (a : Block) (cs : List (Cell T))
      → Elsewhere i new next next' (last_block a cs)
      → i < a.1
      → All (λ c. i < c.height) cs
      → All (λ c. Apart a (block_of c)) cs
      → Pairwise (λ c d. Apart (block_of c) (block_of d)) cs
      → Apart new a
      → All (λ c. Apart new (block_of c)) cs
      → KeptBut next next' a.0 cs
  keep_but a [] f h k p w n l = tt
  keep_but a (x ∷ xs) f h k p w n l = (
    f a h
        (Apart-symm a (last_block (block_of x) xs)
          (last_block-All (λ b. Apart a b) (block_of x) xs p.0 p.1))
        n,
    keep_but (block_of x) xs f k.0 k.1 w.0 w.1 l.0 l.1,
  )

  keep_all :
      (at : Block) (cs : List (Cell T))
      → Elsewhere i new next next' at
      → All (λ c. i < c.height) cs
      → All (λ c. Apart at (block_of c)) cs
      → All (λ c. Apart new (block_of c)) cs
      → All (Same next next') cs
  keep_all at [] f h k l = tt
  keep_all at (x ∷ xs) f h k l = (f (block_of x) h.0 k.0 l.0, keep_all at xs f h.1 k.1 l.1)

  keep_after :
      (tail : Block) (cs : List (Cell T))
      → Elsewhere i new next next' (first_block tail cs)
      → i < tail.1
      → All (λ c. i < c.height) cs
      → All (λ c. Apart tail (block_of c)) cs
      → Pairwise (λ c d. Apart (block_of c) (block_of d)) cs
      → Apart new tail
      → All (λ c. Apart new (block_of c)) cs
      → KeptAfter next next' cs tail.0
  keep_after tail [] f h k p w n l = tt
  keep_after tail (x ∷ xs) f h k p w n l =
      (keep_all (block_of x) xs f k.1 w.0 l.1, f tail h (Apart-symm tail (block_of x) p.0) n)

module _ {T : Type 0} (i : ℕ) (head tail new : Block) (passed ahead : List (Cell T))
    (s : Site i head tail new passed ahead) where
  -- The two neighbours have links of the level, and lie apart from the new node and each other.
  pub last_in : i < (last_block head passed).1
  last_in = last_block-All (λ b. i < b.1) head passed s.in_head s.in_passed

  pub first_in : i < (first_block tail ahead).1
  first_in = first_block-All (λ b. i < b.1) tail ahead s.in_tail s.in_ahead

  pub new_last : Apart new (last_block head passed)
  new_last = last_block-All (λ b. Apart new b) head passed s.new_head s.new_passed

  pub new_first : Apart new (first_block tail ahead)
  new_first = first_block-All (λ b. Apart new b) tail ahead s.new_tail s.new_ahead

  last_ahead : All (λ d. Apart (last_block head passed) (block_of d)) ahead
  last_ahead =
      last_block-All (λ b. All (λ d. Apart b (block_of d)) ahead) head passed s.head_ahead s.across

  tail_last : Apart tail (last_block head passed)
  tail_last =
      last_block-All (λ b. Apart tail b) head passed (Apart-symm head tail s.head_tail)
        s.tail_passed

  pub last_first : Apart (last_block head passed) (first_block tail ahead)
  last_first =
      first_block-All (λ b. Apart (last_block head passed) b) tail ahead
        (Apart-symm tail (last_block head passed) tail_last) last_ahead

  first_passed :
      (cs : List (Cell T))
      → All (λ c. Apart tail (block_of c)) cs
      → Across (λ c d. Apart (block_of c) (block_of d)) cs ahead
      → All (λ c. Apart (first_block tail ahead) (block_of c)) cs
  first_passed [] t a = tt
  first_passed (c ∷ cs) t a = (
    Apart-symm (block_of c) (first_block tail ahead) (
        first_block-All (λ b. Apart (block_of c) b) tail ahead (Apart-symm tail (block_of c) t.0)
          a.0),
    first_passed cs t.1 a.1,
  )

  module _ (next next' : ℕ → Run ℕ) where
    pub kept_but :
        Elsewhere i new next next' (last_block head passed) → KeptBut next next' head.0 passed
    kept_but f =
        keep_but i new next next' head passed f s.in_head s.in_passed s.head_passed s.pairs_passed
          s.new_head s.new_passed

    pub ahead-Same :
        Elsewhere i new next next' (last_block head passed) → All (Same next next') ahead
    ahead-Same f =
        keep_all i new next next' (last_block head passed) ahead f s.in_ahead last_ahead s.new_ahead

    pub passed-Same :
        Elsewhere i new next next' (first_block tail ahead) → All (Same next next') passed
    passed-Same f =
        keep_all i new next next' (first_block tail ahead) passed f s.in_passed
          (first_passed passed s.tail_passed s.across) s.new_passed

    pub kept_after :
        Elsewhere i new next next' (first_block tail ahead) → KeptAfter next next' ahead tail.0
    kept_after f =
        keep_after i new next next' tail ahead f s.in_tail s.in_ahead s.tail_ahead s.pairs_ahead
          s.new_tail s.new_ahead
