-- ===== src/Node/Allocator.antt =====
-- What the map relies on of the allocator (the crate rarena-allocator, which is not in this
-- repository): a block that it hands out is not in use before, is in use then, and is as large as was
-- asked for; what is in use stays in use until it is given back.
use skl_rs.Prelude.{
  ℕ, ◌+◌, ◌^◌, ◌≤◌, ◌<◌, ◌≡◌, refl, ◌⊎◌, inl, inr, Bool-cases, ltb, ltb→lt, ltb→le, arith,
}
use Prim.{¬◌}
use skl_rs.Node.Arena.{Arena, Allocation, refused, block}

-- All bytes of a block are in use.
abbrev pub InUse : (ℕ → Type 0) → (offset size : ℕ) → Type 0
InUse used offset size = (q : ℕ) → offset ≤ q → q < offset + size → used q

pub InUse-part :
    (used : ℕ → Type 0) (offset size start part : ℕ)
    → InUse used offset size
    → offset ≤ start
    → start + part ≤ offset + size
    → InUse used start part
InUse-part used offset size start part u low high q above below = u q (omega arith) (omega arith)

-- A block that has been handed out, by the bytes in use before and after.
pub record IsBlock (before after : ℕ → Type 0) (offset size capacity : ℕ) : Type 0 where
  pub fresh : (q : ℕ) → offset ≤ q → q < offset + size → ¬ before q
  pub used : InUse after offset size
  pub keeps : (q : ℕ) → before q → after q
  pub ends : offset + size < 2 ^ 32
  pub not_null : 0 < size → 0 < offset
  pub sized : capacity ≡ size

-- What was in use lies outside a new block.
pub IsBlock-outside :
    {before after : ℕ → Type 0} (offset size capacity : ℕ)
    → IsBlock before after offset size capacity
    → (q : ℕ) → before q
    → (q < offset) ⊎ (offset + size ≤ q)
IsBlock-outside offset size capacity b q u = elim (Bool-cases (ltb q offset)) [
  | inl below ↦ inl (ltb→lt q offset below)
  | inr above ↦ elim (Bool-cases (ltb q (offset + size))) [
    | inl inside ↦ absurd (b.fresh q (ltb→le q offset above) (ltb→lt q (offset + size) inside) u)
    | inr beyond ↦ inr (ltb→le q (offset + size) beyond)
  ]
]

pub record IsAllocator (ar : Arena) : Type 1 where
  pub Used : ar.State → ℕ → Type 0
  pub aligned_bytes :
      (size align extra offset capacity : ℕ) (s s' : ar.State)
      → ar.alloc_aligned_bytes size align extra s ≡ block offset capacity s'
      → IsBlock (Used s) (Used s') offset (size + extra) capacity
        × (ar.get_aligned_pointer align offset ≡ offset)
  pub plain_bytes :
      (size offset capacity : ℕ) (s s' : ar.State)
      → ar.alloc_bytes size s ≡ block offset capacity s'
      → IsBlock (Used s) (Used s') offset size capacity
  pub value :
      (size align offset capacity : ℕ) (s s' : ar.State)
      → ar.alloc size align s ≡ block offset capacity s'
      → IsBlock (Used s) (Used s') offset size capacity
        × (ar.get_aligned_pointer align offset ≡ offset)
  pub released :
      (offset capacity q : ℕ) (s : ar.State)
      → Used s q
      → (q < offset) ⊎ (offset + capacity ≤ q)
      → Used (ar.release offset capacity s) q
  pub freed :
      (offset size q : ℕ) (s : ar.State)
      → Used s q
      → (q < offset) ⊎ (offset + size ≤ q)
      → Used (ar.dealloc offset size s).1 q

-- To split on the result of an allocation.
pub Allocation-cases :
    {S E : Type 0} (x : Allocation S E)
    → ((e : E) × (x ≡ refused e))
      ⊎ ((offset : ℕ) × (capacity : ℕ) × (s : S) × (x ≡ block offset capacity s))
Allocation-cases (refused e) = inl (e, refl)
Allocation-cases (block offset capacity s) = inr (offset, capacity, s, refl)

-- What was in use before a block was handed out is still in use when the block is released.
pub IsBlock-released :
    {ar : Arena} (laws : IsAllocator ar) (s s' : ar.State) (offset size capacity : ℕ)
    → IsBlock (laws.Used s) (laws.Used s') offset size capacity
    → (now : ar.State) (q : ℕ) → laws.Used s q
    → laws.Used now q
    → laws.Used (ar.release offset capacity now) q
IsBlock-released laws s s' offset size capacity b now q before u =
    let away = IsBlock-outside offset size capacity b q before in
    laws.released offset capacity q now u (ground (arith, b.sized, away))
