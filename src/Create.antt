-- ===== src/Create.antt =====
-- How a map comes to be (src/map.rs and src/map/api.rs): `new_in` on an arena, the pointers of a map
-- that lies there already, and `clear`. The arena's memory is given with it, and with it the headers
-- that lie there.
pub mod Open
pub mod Ways
pub mod Ends
pub mod Empty
pub mod NewIn
use skl_rs.Prelude.{
  ℕ, zero, suc, ◌+◌, ◌*◌, Bool, true, false, Option, none, some, if◌then◌else◌, not, ◌==◌, Run,
  done, fault, panic, out_of_fuel, Result, ok, err,
}
use skl_rs.Attempt.{Attempt, pure, ◌>>=◌, reading, modify}
use skl_rs.Capacity.{Error, check_capacity, meta_size, meta_align}
use skl_rs.Codec.{u32, decode_value_pointer}
use skl_rs.Comparator.{Comparator, Trailer}
use skl_rs.Link.{update}
use skl_rs.Map.{SkipMap}
use skl_rs.Meta
use skl_rs.Meta.{Meta}
use skl_rs.Node.{Link, Memory, deref, tower_offset, full, node_size, node_align, link_size}
use skl_rs.Node.Arena.{Arena, Allocation, refused, block}
use skl_rs.Options
use skl_rs.Options.{Options}

-- `const CURRENT_VERSION`
abbrev pub current_version : ℕ
current_version = 0

-- An arena, and what lies in it.
pub record Store (ar : Arena) (T : Type 0) : Type 0 where
  pub arena : ar.State
  pub memory : Memory T

-- `From<rarena_allocator::Error> for Error`
abbrev pub arena_error : {S F A : Type 0} → Run (Result A F × S) → Run (Result A (Error F) × S)
arena_error (done (ok a, s)) = done (ok a, s)
arena_error (done (err e, s)) = done (err (Error.arena e), s)
arena_error fault = fault
arena_error panic = panic
arena_error out_of_fuel = out_of_fuel

abbrev pub into : {S F A : Type 0} → Attempt S F A → Attempt S (Error F) A
into op s = arena_error (op s)

-- The result, where the state is not needed further.
abbrev pub result_of : {S A : Type 0} → Run (A × S) → Run A
result_of (done (a, s)) = done a
result_of fault = fault
result_of panic = panic
result_of out_of_fuel = out_of_fuel

module _ {ar : Arena} {T : Type 0} where
  -- The offset of a block that is detached at once.
  abbrev detached : Store ar T → Allocation ar.State ar.Error → Run (Result ℕ ar.Error × Store ar T)
  detached s (refused e) = done (err e, s)
  detached s (block offset capacity a) = done (ok offset, record s { arena = a })

  abbrev pub with_link : Store ar T → ℕ → Link → Store ar T
  with_link s at l = record s {
    memory = record s.memory { links = update s.memory.links at (some l) };
  }

  -- The header lies in the map's record.
  unfoldable pub allocate_meta : ℕ → Attempt (Store ar T) ar.Error Meta
  unfolding Meta.new
  allocate_meta magic_version = do
    _ ← (λ s. detached s (ar.alloc meta_size meta_align s.arena))
    pure (Meta.new magic_version)

  -- The loop that links the ends of the list on the levels from `i` on.
  unfoldable pub link_ends :
      (left i head tail : ℕ) → Attempt (Store ar T) (Error ar.Error) (Unit {0})
  link_ends zero i head tail = pure tt
  link_ends (suc left) i head tail = do
    head_link ← reading (λ s. deref (s.memory.links (tower_offset head i)))
    _ ← modify (λ s. with_link s (tower_offset head i) (record head_link { next_offset = tail }))
    tail_link ← reading (λ s. deref (s.memory.links (tower_offset tail i)))
    _ ← modify (λ s. with_link s (tower_offset tail i) (record tail_link { prev_offset = head }))
    link_ends left (i + 1) head tail

module _ {ar : Arena} {T : Type 0} ⦃tr : Trailer T⦄ where
  -- Where the trailer of an end of the list lies; it is not written.
  trailer_place : Attempt (Store ar T) ar.Error ℕ
  trailer_place =
      if tr.size_of == 0
      then (λ s. pure (ar.allocated s.arena) s)
      else (λ s. detached s (ar.alloc tr.size_of tr.align_of s.arena))

  unfoldable pub allocate_full_node : ℕ → Attempt (Store ar T) ar.Error ℕ
  unfolding full trailer_place
  allocate_full_node max_height = do
    node_offset ← (λ s.
        detached s
          (ar.alloc_aligned_bytes node_size node_align (u32 (max_height * link_size)) s.arena))
    trailer_offset ← trailer_place
    _ ← modify (λ s. record s {
      memory = record s.memory {
        nodes = update s.memory.nodes node_offset (some (full (u32 trailer_offset) max_height));
      };
    })
    pure (u32 node_offset)

  -- The head and the tail, linked on all levels.
  allocate_ends : ℕ → Attempt (Store ar T) (Error ar.Error) (ℕ × ℕ)
  unfolding allocate_full_node link_ends
  allocate_ends max_height = do
    head ← into (allocate_full_node max_height)
    tail ← into (allocate_full_node max_height)
    _ ← link_ends max_height 0 head tail
    pure (head, tail)

  -- The header, the head and the tail of a map that lies in the arena; `metas` is the headers in
  -- memory.
  unfoldable pub get_pointers : (ℕ → Option Meta) → Store ar T → Run (Meta × ℕ × ℕ)
  unfolding decode_value_pointer
  get_pointers metas s =
      let meta_offset = ar.get_aligned_pointer meta_align (ar.data_offset s.arena) in
      let head = ar.get_aligned_pointer node_align (meta_offset + meta_size) in
      elim (metas meta_offset) [
        | none ↦ fault
        | some meta ↦ elim (s.memory.nodes head) [
          | none ↦ fault
          | some n ↦
              let trailer_offset = (decode_value_pointer n.value).0 in
              let tail = ar.get_aligned_pointer node_align (trailer_offset + tr.size_of) in
              done (meta, u32 head, u32 tail)
        ]
      ]

  -- `construct`
  unfoldable pub construct :
      Store ar T
      → Meta
      → (head tail data_offset : ℕ) → Options ar.Freelist
      → Comparator
      → SkipMap ar T
  construct s meta head tail data_offset opts cmp = record {
    arena = s.arena;
    memory = s.memory;
    meta = meta;
    head = head;
    tail = tail;
    data_offset = data_offset;
    opts = opts;
    cmp = cmp;
  }

  -- The header of a new map: in the arena, or on the heap.
  new_meta : Bool → ℕ → Attempt (Store ar T) (Error ar.Error) Meta
  unfolding allocate_meta Meta.new
  new_meta true magic_version = into (allocate_meta magic_version)
  new_meta false magic_version = pure (Meta.new magic_version)

  -- A map in the arena.
  fill_arena :
      ℕ → Options ar.Freelist → Comparator → Attempt (Store ar T) (Error ar.Error) (SkipMap ar T)
  unfolding new_meta allocate_ends construct
  fill_arena data_offset opts cmp = do
    meta ← new_meta opts.unify opts.magic_version
    (head, tail) ← allocate_ends opts.max_height
    (λ s. pure (construct s meta head tail data_offset opts cmp) s)

  -- A map that lies in the arena already.
  opened_map :
      Store ar T
      → ℕ
      → Options ar.Freelist
      → Comparator
      → Run (Meta × ℕ × ℕ)
      → Run (Result (SkipMap ar T) (Error ar.Error))
  unfolding construct
  opened_map s data_offset opts cmp (done p) =
      done (ok (construct s p.0 p.1 p.2 data_offset opts cmp))
  opened_map s data_offset opts cmp fault = fault
  opened_map s data_offset opts cmp panic = panic
  opened_map s data_offset opts cmp out_of_fuel = out_of_fuel

  -- What `new_in` does after the check of the capacity.
  on_capacity :
      (ℕ → Option Meta)
      → Store ar T
      → Comparator
      → Options ar.Freelist
      → Result ℕ (Error ar.Error)
      → Run (Result (SkipMap ar T) (Error ar.Error))
  unfolding get_pointers opened_map fill_arena
  on_capacity metas s cmp opts (err e) = done (err e)
  on_capacity metas s cmp opts (ok data_offset) =
      if ar.read_only s.arena
      then opened_map s data_offset opts cmp (get_pointers metas s)
      else result_of (fill_arena data_offset opts cmp s)

  unfoldable pub new_in :
      (ℕ → Option Meta)
      → Store ar T
      → Comparator
      → Options ar.Freelist
      → Run (Result (SkipMap ar T) (Error ar.Error))
  unfolding check_capacity on_capacity
  new_in metas s cmp opts =
      on_capacity metas s cmp opts (check_capacity ar T s.arena opts.max_height)

  -- `SkipMap::clear`. Where the ends cannot be made, the header is new and they are the old ones.
  unfoldable pub clear : Attempt (SkipMap ar T) (Error ar.Error) (Unit {0})
  unfolding new_meta allocate_ends
  clear m =
      let (cleared, a) = ar.clear m.arena in
      let s : Store ar T = record { arena = a; memory = m.memory } in
      elim cleared [
        | err e ↦ done (err (Error.arena e), record m { arena = a })
        | ok _ ↦ with_meta (new_meta m.opts.unify m.meta.magic_version s)
      ]
    where
      finish :
          Meta
          → Run (Result (ℕ × ℕ) (Error ar.Error) × Store ar T)
          → Run (Result (Unit {0}) (Error ar.Error) × SkipMap ar T)
      finish meta (done (ok (head, tail), s)) = done (
        ok tt,
        record m { arena = s.arena; memory = s.memory; meta = meta; head = head; tail = tail },
      )
      finish meta (done (err e, s)) =
          done (err e, record m { arena = s.arena; memory = s.memory; meta = meta })
      finish meta fault = fault
      finish meta panic = panic
      finish meta out_of_fuel = out_of_fuel

      with_meta :
          Run (Result Meta (Error ar.Error) × Store ar T)
          → Run (Result (Unit {0}) (Error ar.Error) × SkipMap ar T)
      with_meta (done (ok meta, s)) = finish meta (allocate_ends m.opts.max_height s)
      with_meta (done (err e, s)) = done (err e, record m { arena = s.arena; memory = s.memory })
      with_meta fault = fault
      with_meta panic = panic
      with_meta out_of_fuel = out_of_fuel
