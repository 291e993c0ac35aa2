-- ===== src/Update/NewNode.antt =====
-- `new_node` (src/map.rs): the node that it makes, and the height that it leaves.
use skl_rs.Prelude.{
  ℕ, ◌^◌, ◌≤◌, ◌<◌, ◌≡◌, inl, inr, Option, none, some, List, length, Run, done, Result, ok, err,
  arith, leb, Bool-cases, ==_refl,
}
use mathlib.Core.Path.{subst, sym}
use skl_rs.Alloc.{Filler, write_key}
use skl_rs.Alloc.Fill.{Fills}
use skl_rs.Alloc.Made.{IsNew, Fits}
use skl_rs.Alloc.Nodes.{new_node, allocate_entry_node, allocate_key_node}
use skl_rs.Alloc.Outcome.{
  Allocates, made, not_made, allocate_entry_node-Allocates, allocate_value_node-Allocates,
}
use skl_rs.Alloc.Reason.{IsReason}
use skl_rs.Alloc.Removed.{allocate_key_node-Allocates, allocate_node-Allocates}
use skl_rs.Alloc.Owned.{IsKept, renewed}
use skl_rs.Attempt.{Either, right, continue, pure, modify, ◌>>=◌}
use skl_rs.Capacity.{Error}
use skl_rs.Codec.{u8, u32, remove_size}
use skl_rs.Comparator.{Bytes, Trailer}
use skl_rs.Height.Laws.{random_height_lem}
use skl_rs.Key.{occupied, pointer, remove, remove_pointer}
use skl_rs.Link.{Deallocator}
use skl_rs.Map.{SkipMap}
use skl_rs.Meta.{Meta, raise_height}
use skl_rs.Node.{Node, get_bytes}
use skl_rs.Node.Allocator.{InUse, IsAllocator}
use skl_rs.Node.Arena.{Arena}

pub record IsRaised (height before after : ℕ) : Type 0 where
  pub above : height ≤ after
  pub grows : before ≤ after
  pub least : (bound : ℕ) → height ≤ bound → before ≤ bound → after ≤ bound

-- `raise_height` changes the height only, to the greater of the two.
pub raise_height_lem :
    (height : ℕ) (m : Meta)
    → (after : ℕ) × (raise_height height m ≡ record m { height = after })
      × IsRaised height m.height after
unfolding raise_height
raise_height_lem height m = elim (Bool-cases (leb height m.height)) [
  | inl low ↦
      (m.height, rw low, record { above = ground arith; grows = omega arith; least = λ b h k. k })
  | inr high ↦ (
    height,
    rw (high, ==_refl m.height),
    record { above = omega arith; grows = ground arith; least = λ b h k. h },
  )
]

module _ {ar : Arena} {T E : Type 0} ⦃tr : Trailer T⦄ (laws : IsAllocator ar) (m : SkipMap ar T)
    (key : Bytes) (t : T) (v : Option Bytes) where
  pub data Creates
      : Run (Result (ℕ × ℕ × Deallocator) (Either E (Error ar.Error)) × SkipMap ar T) → Type 0 where
    created :
        (nd height : ℕ) (d : Deallocator) (a : ar.State) (nodes : ℕ → Option Node)
        (trailers : ℕ → Option T) (bytes : ℕ → ℕ) (after : ℕ)
        → IsKept laws m a nodes trailers bytes
        → IsNew laws m a nodes trailers bytes nd height key t v
        → 1 ≤ height
        → height ≤ after
        → m.meta.height ≤ after
        → after ≤ m.opts.max_height
        → Creates (done (ok (nd, height, d), renewed laws m a nodes trailers bytes after))
    not_created :
        (e : Error ar.Error) (a : ar.State)
        → IsReason m key v e
        → ((q : ℕ) → laws.Used m.arena q → laws.Used a q)
        → Creates (done (err (right e), record m { arena = a }))

  module _ (height : ℕ) (positive : 1 ≤ height) (bounded : height ≤ m.opts.max_height)
      (low : m.opts.max_height < 2 ^ 5) (high : m.meta.height ≤ m.opts.max_height) where
    Creates-of :
        (x : Run (Result (ℕ × Deallocator) (Either E (Error ar.Error)) × SkipMap ar T))
        → Allocates laws m height key t v x
        → Creates (
            continue
              (λ r.
                modify (λ m'. record m' { meta = raise_height (u8 height) m'.meta })
                >>= (λ _. pure (r.0, height, r.1)))
              x)
    Creates-of x (made nd d a nodes trailers bytes kept is) =
        let word : u8 height ≡ height = omega arith in
        let (after, e, r) = raise_height_lem height m.meta in
        rw (word, e)
          (created nd height d a nodes trailers bytes after kept is positive r.above r.grows
            (r.least m.opts.max_height bounded high))
    Creates-of x (not_made e a why kept) = not_created e a why kept

module _ {ar : Arena} {T E : Type 0} ⦃tr : Trailer T⦄ (laws : IsAllocator ar) (m : SkipMap ar T)
    (key : Bytes) (t : T) (v : Bytes) (f : Filler E) (fills : Fills f v) (sized : 0 < tr.size_of)
    (short : length key < 2 ^ 27) (fits : Fits (some v)) (low : m.opts.max_height < 2 ^ 5)
    (positive : 1 ≤ m.opts.max_height) (high : m.meta.height ≤ m.opts.max_height) (table : List ℕ)
    (rnd : ℕ) (covered : m.opts.max_height ≤ length table) where
  pub new_node-occupied :
      Creates laws m key t (some v) (new_node table rnd (occupied key) t (length v) f m)
  unfolding new_node
  new_node-occupied =
      let (h, runs, is) = random_height_lem table rnd m.opts.max_height covered in
      let bounded = is.bounded positive in
      let word : u32 (length key) ≡ length key = omega arith in
      rw (new_node, runs)
        (Creates-of laws m key t (some v) h is.from bounded low high _ (
          subst
            (λ n.
              Allocates laws m h key t (some v)
                (allocate_entry_node h t n (write_key key) (length v) f m))
            (sym word)
            (allocate_entry_node-Allocates laws m h key t v f fills sized (omega arith) is.from
              bounded short fits (omega arith))))

  pub new_node-pointer :
      (ko : ℕ)
      → ko < 2 ^ 32
      → get_bytes m.memory ko (length key) ≡ key
      → InUse (laws.Used m.arena) ko (length key)
      → Creates laws m key t
          (some v)
          (new_node table rnd (pointer ko (length key)) t (length v) f m)
  unfolding new_node
  new_node-pointer ko at_low stored owned =
      let (h, runs, is) = random_height_lem table rnd m.opts.max_height covered in
      let bounded = is.bounded positive in
      rw (new_node, runs)
        (Creates-of laws m key t (some v) h is.from bounded low high _ (
          allocate_value_node-Allocates laws m h key t v f fills sized (omega arith) is.from bounded
            short fits (omega arith) ko at_low stored owned))

module _ {ar : Arena} {T E : Type 0} ⦃tr : Trailer T⦄ (laws : IsAllocator ar) (m : SkipMap ar T)
    (key : Bytes) (t : T) (n : ℕ) (f : Filler E) (sized : 0 < tr.size_of)
    (short : length key < 2 ^ 27) (low : m.opts.max_height < 2 ^ 5)
    (positive : 1 ≤ m.opts.max_height) (high : m.meta.height ≤ m.opts.max_height) (table : List ℕ)
    (rnd : ℕ) (covered : m.opts.max_height ≤ length table) where
  pub new_node-remove : Creates laws m key t none (new_node table rnd (remove key) t n f m)
  unfolding new_node
  new_node-remove =
      let (h, runs, is) = random_height_lem table rnd m.opts.max_height covered in
      let bounded = is.bounded positive in
      let word : u32 (length key) ≡ length key = omega arith in
      rw (new_node, runs)
        (Creates-of laws m key t none h is.from bounded low high _ (
          subst
            (λ n.
              Allocates {E = E} laws m h key t none
                (allocate_key_node h t n (write_key key) remove_size m))
            (sym word)
            (allocate_key_node-Allocates laws m h key t sized (omega arith) is.from bounded short
              (omega arith))))

  pub new_node-remove_pointer :
      (ko : ℕ)
      → ko < 2 ^ 32
      → get_bytes m.memory ko (length key) ≡ key
      → InUse (laws.Used m.arena) ko (length key)
      → Creates laws m key t none (new_node table rnd (remove_pointer ko (length key)) t n f m)
  unfolding new_node
  new_node-remove_pointer ko at_low stored owned =
      let (h, runs, is) = random_height_lem table rnd m.opts.max_height covered in
      let bounded = is.bounded positive in
      rw (new_node, runs)
        (Creates-of laws m key t none h is.from bounded low high _ (
          allocate_node-Allocates laws m h key t sized (omega arith) is.from bounded short
            (omega arith) ko at_low stored owned))
