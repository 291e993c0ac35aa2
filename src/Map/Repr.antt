-- ===== src/Map/Repr.antt =====
-- The cells that a map in memory (src/map.rs) stands for: at every level the links lead from the
-- head through the cells that are tall enough to the tail, and back.
use skl_rs.Prelude.{
  ℕ, ◌≤◌, ◌<◌, ◌≡◌, ◌≢◌, ◌⊎◌, List, [], ◌∷◌, Bool, ltb, All, Pairwise, length, keep, Run, done, inl,
  inr, Ordering-cases,
}
use skl_rs.Comparator.{Bytes, Trailer}
use skl_rs.Comparator.Laws.{IsLawful}
use skl_rs.Map.{
  SkipMap, get_next, get_prev, get_key, get_trailer, get_value_and_trailer, order_at, from_node,
  VersionedEntryRef,
}
use skl_rs.Map.Order.{Cell, at, IsSorted}
use skl_rs.Node
use skl_rs.Node.Arena.{Arena}

module _ {T : Type 0} where
  -- The cells that have a link at a level.
  abbrev pub tall : ℕ → Cell T → Bool
  tall level c = ltb level c.height

  -- From an offset, `next` leads through the cells to `stop`.
  abbrev pub Chain : (ℕ → Run ℕ) → ℕ → List (Cell T) → ℕ → Type 0
  Chain next a [] stop = next a ≡ done stop
  Chain next a (c ∷ cs) stop = (next a ≡ done c.offset) × Chain next c.offset cs stop

  -- `prev` leads back from `stop` through the cells, the last one first, to an offset.
  abbrev pub BackChain : (ℕ → Run ℕ) → ℕ → List (Cell T) → ℕ → Type 0
  BackChain prev a [] stop = prev stop ≡ done a
  BackChain prev a (c ∷ cs) stop = (prev c.offset ≡ done a) × BackChain prev c.offset cs stop

-- A node's offset and the height of its tower.
abbrev pub Block : Type 0
Block = ℕ × ℕ

-- The towers of two nodes lie apart.
abbrev pub Apart : Block → Block → Type 0
Apart (p, h) (q, k) = (Node.tower_offset p h ≤ q) ⊎ (Node.tower_offset q k ≤ p)

abbrev pub block_of : {T : Type 0} → Cell T → Block
block_of c = (c.offset, c.height)

module _ {ar : Arena} {T : Type 0} ⦃tr : Trailer T⦄ (m : SkipMap ar T) where
  abbrev pub head_block : Block
  head_block = (m.head, m.opts.max_height)

  abbrev pub tail_block : Block
  tail_block = (m.tail, m.opts.max_height)

  -- The towers of the nodes of the list lie apart.
  pub record IsApart (cells : List (Cell T)) : Type 0 where
    pub ends : Apart head_block tail_block
    pub from_head : All (λ c. Apart head_block (block_of c)) cells
    pub from_tail : All (λ c. Apart tail_block (block_of c)) cells
    pub pairs : Pairwise (λ c d. Apart (block_of c) (block_of d)) cells

  -- The node of a cell reads as the cell says.
  pub record Holds (c : Cell T) : Type 0 where
    pub ne_null : c.offset ≢ 0
    pub ne_head : c.offset ≢ m.head
    pub ne_tail : c.offset ≢ m.tail
    pub has_link : 0 < c.height
    pub key_read : get_key m c.offset ≡ done c.key
    pub trailer_read : get_trailer m c.offset ≡ done c.trailer
    pub value_read : get_value_and_trailer m c.offset ≡ done (c.trailer, c.value)

  pub record IsRepr (cells : List (Cell T)) : Type 0 where
    pub lawful : IsLawful m.cmp.cmp
    pub sorted : IsSorted m.cmp.cmp cells
    pub holds : All Holds cells
    pub levels :
        (level : ℕ)
        → level < m.opts.max_height
        → Chain (λ nd. get_next m nd level) m.head (keep (tall level) cells) m.tail
    pub backs :
        (level : ℕ)
        → level < m.opts.max_height
        → BackChain (λ nd. get_prev m nd level) m.head (keep (tall level) cells) m.tail
    pub apart : IsApart cells
    pub height_pos : 0 < m.meta.height
    pub height_max : m.meta.height ≤ m.opts.max_height
    pub short : All (λ c. c.height ≤ m.meta.height) cells
    pub counted : m.meta.len ≡ length cells
    pub head_ne_null : m.head ≢ 0
    pub tail_ne_null : m.tail ≢ 0
    pub head_ne_tail : m.head ≢ m.tail
    pub tail_key : get_key m m.tail ≡ done []

  -- The reference that `from_node` makes for a cell.
  abbrev pub entry_of : Cell T → VersionedEntryRef T
  entry_of c = record { key = c.key; trailer = c.trailer; value = c.value; ptr = c.offset }

  pub from_node-Holds : (c : Cell T) → Holds c → from_node m c.offset ≡ done (entry_of c)
  unfolding from_node
  from_node-Holds c h = rw (h.value_read, h.key_read)

  pub order_at-Holds :
      (version : ℕ) (key : Bytes) (c : Cell T)
      → Holds c
      → order_at m version key c.offset ≡ done (at m.cmp.cmp version key c)
  unfolding order_at
  order_at-Holds version key c h = rw h.key_read (elim (Ordering-cases (m.cmp.cmp key c.key)) [
    | inl below ↦ rw below
    | inr (inl same) ↦ rw (same, h.trailer_read)
    | inr (inr above) ↦ rw above
  ])
