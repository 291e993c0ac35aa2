-- ===== src/Alloc.antt =====
-- Blocks of the arena for the parts of an entry (src/map.rs): what is written to them, and how the
-- caller's closures fill the slices of a key and of a value.
pub mod Reason
pub mod Removed
pub mod Nodes
pub mod Made
pub mod Outcome
pub mod Fill
pub mod Owned
use skl_rs.Prelude.{
  ℕ, ◌+◌, Bool, none, some, [], ◌∷◌, ◌&&◌, leb, ltb, if◌then◌else◌, ◌==◌, Run, done, panic, Result,
  ok, err,
}
use skl_rs.Prelude
use skl_rs.Attempt.{Either, left, right, Attempt, pure, fail, ◌>>=◌, reading, lift, modify, or_undo}
use skl_rs.Buffer
use skl_rs.Buffer.{VacantBuffer}
use skl_rs.Capacity.{Error}
use skl_rs.Codec.{u32, add_u32, sub_u32}
use skl_rs.Comparator.{Bytes, Trailer}
use skl_rs.Link.{update, with_nodes}
use skl_rs.Map.{SkipMap}
use skl_rs.Node.{Node, get_bytes}
use skl_rs.Node.Arena.{Arena, Allocation, refused, block}
use skl_rs.Splice.{Pointer, pointer}

-- A block that the arena has handed out (`BytesRefMut` and `RefMut` of the allocator).
pub record BytesRefMut : Type 0 where
  pub offset : ℕ
  pub capacity : ℕ

-- A closure that fills a vacant buffer.
abbrev pub Filler : Type 0 → Type 0
Filler E = VacantBuffer → Run (Result (Unit {0}) E × VacantBuffer)

-- `|buf| { buf.write(key).unwrap(); Ok(()) }`
unfoldable pub write_key : {E : Type 0} → Bytes → Filler E
unfolding Buffer.write
write_key key b =
    Prelude.◌>>=◌ (Buffer.write b key) (λ w. elim w.0 [ ok _ ↦ done (ok tt, w.1) | err _ ↦ panic ])

-- `|buf| { let _ = buf.write(value); Ok(()) }`
unfoldable pub copy : {E : Type 0} → Bytes → Filler E
unfolding Buffer.write
copy value b = Prelude.◌>>=◌ (Buffer.write b value) (λ w. done (ok tt, w.1))

-- `noop`
unfoldable pub noop : {E : Type 0} → Filler E
noop b = done (ok tt, b)

-- Bytes in memory, with some of them replaced from an offset on.
unfoldable pub put_bytes : (ℕ → ℕ) → ℕ → Bytes → ℕ → ℕ
put_bytes f offset [] = f
put_bytes f offset (b ∷ bs) = put_bytes (update f offset b) (offset + 1) bs

-- One memory over another, in a block.
unfoldable pub overlaid {ℓ} : {A : Type ℓ} → (offset size : ℕ) → (over under : ℕ → A) → ℕ → A
overlaid offset size over under q =
    if leb offset q && ltb q (offset + size) then over q else under q

module _ {ar : Arena} {T : Type 0} where
  abbrev pub with_bytes : SkipMap ar T → (ℕ → ℕ) → SkipMap ar T
  with_bytes m bytes = record m { memory = record m.memory { bytes = bytes } }

  -- The node at an offset is written.
  unfoldable pub write_node : SkipMap ar T → ℕ → Node → SkipMap ar T
  write_node m offset n = with_nodes m (update m.memory.nodes offset (some n))

  unfoldable pub write_trailer : SkipMap ar T → ℕ → T → SkipMap ar T
  write_trailer m offset t = record m {
    memory = record m.memory { trailers = update m.memory.trailers offset (some t) };
  }

-- The operations on the map: errors of the caller's closures, or of the map.
abbrev pub Operation : Arena → (T E A : Type 0) → Type 0
Operation ar T E A = Attempt (SkipMap ar T) (Either E (Error ar.Error)) A

module _ {ar : Arena} {T E : Type 0} where
  abbrev allocated :
      SkipMap ar T
      → Allocation ar.State ar.Error
      → Run (Result BytesRefMut (Either E (Error ar.Error)) × SkipMap ar T)
  allocated m (refused e) = fail (right (Error.arena e)) m
  allocated m (block offset capacity a) =
      done (ok (record { offset = offset; capacity = capacity }), record m { arena = a })

  unfoldable pub alloc_aligned_bytes : (size align extra : ℕ) → Operation ar T E BytesRefMut
  alloc_aligned_bytes size align extra m =
      allocated m (ar.alloc_aligned_bytes size align extra m.arena)

  unfoldable pub alloc_bytes : ℕ → Operation ar T E BytesRefMut
  alloc_bytes size m = allocated m (ar.alloc_bytes size m.arena)

  unfoldable pub alloc : (size align : ℕ) → Operation ar T E BytesRefMut
  alloc size align m = allocated m (ar.alloc size align m.arena)

  -- A block that is not yet detached: it is released where what follows fails.
  unfoldable pub releasing : {A : Type 0} → BytesRefMut → Operation ar T E A → Operation ar T E A
  releasing b = or_undo (λ m. record m { arena = ar.release b.offset b.capacity m.arena })

  -- `Arena::dealloc`, with its result: whether the block went to the free list.
  unfoldable pub give_back : (offset size : ℕ) → Operation ar T E Bool
  give_back offset size m =
      let (listed, a) = ar.dealloc offset size m.arena in pure listed (record m { arena = a })

  -- The block of a trailer and a value is given back: no trailer can be read there any more, and the
  -- bytes are what the arena leaves there.
  unfoldable pub give_back_value : (offset size : ℕ) → Operation ar T E Bool
  unfolding overlaid
  give_back_value offset size m =
      let (listed, a) = ar.dealloc offset size m.arena in
      pure listed (record m {
        arena = a;
        memory = record m.memory {
          trailers = overlaid offset size (λ q. none) m.memory.trailers;
          bytes = overlaid offset size (ar.leftover a) m.memory.bytes;
        };
      })

  -- A closure runs on a slice of the arena.
  unfoldable pub fill_slice :
      (size offset : ℕ) → Filler E → Operation ar T E (Result (Unit {0}) E × VacantBuffer)
  unfolding get_bytes Buffer.new put_bytes
  fill_slice size offset f = do
    r ← reading (λ m. f (Buffer.new size offset (get_bytes m.memory offset size)))
    _ ← modify (λ m. with_bytes m (put_bytes m.memory.bytes offset r.1.value))
    pure r

  -- The end of both functions below: what the closure left unfilled of the slice is given back, and
  -- is cut from the block where it went to the free list.
  unfoldable give_back_rest :
      (start offset size : ℕ) → VacantBuffer → Operation ar T E (ℕ × Pointer)
  unfolding Buffer.remaining give_back pointer
  give_back_rest start offset size b = do
    rest ← lift (Buffer.remaining b)
    if rest == 0 then pure (u32 b.len, pointer offset size) else do
      at ← lift (add_u32 start (u32 b.len))
      listed ← give_back at (u32 rest)
      if listed
          then (do kept ← lift (sub_u32 size (u32 rest)); pure (u32 b.len, pointer offset kept))
          else pure (u32 b.len, pointer offset size)

  unfoldable pub fill_vacant_key : (size offset : ℕ) → Filler E → Operation ar T E (ℕ × Pointer)
  unfolding fill_slice give_back give_back_rest
  fill_vacant_key size offset f = do
    (filled, b) ← fill_slice size offset f
    elim filled [
      | ok _ ↦ give_back_rest offset offset size b
      | err e ↦ do _ ← give_back offset size; fail (left e)
    ]

  unfoldable pub fill_vacant_value :
      (offset size value_size value_offset : ℕ) → Filler E → Operation ar T E (ℕ × Pointer)
  unfolding fill_slice give_back give_back_rest
  fill_vacant_value offset size value_size value_offset f = do
    (filled, b) ← fill_slice value_size value_offset f
    elim filled [
      | ok _ ↦ give_back_rest value_offset offset size b
      | err e ↦ do _ ← give_back offset size; fail (left e)
    ]

  -- A key that the caller writes into the arena itself.
  unfoldable pub fetch_vacant_key : ℕ → Filler E → Operation ar T E VacantBuffer
  unfolding alloc_bytes fill_slice give_back
  fetch_vacant_key key_size key = do
    b ← alloc_bytes key_size
    (filled, vk) ← fill_slice b.capacity (u32 b.offset) key
    elim filled [
      | ok _ ↦ pure vk
      | err e ↦ do _ ← give_back (u32 b.offset) (u32 b.capacity); fail (left e)
    ]
