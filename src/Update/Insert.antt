-- ===== src/Update/Insert.antt =====
-- `update` (src/map.rs) with a key that is not in the map at the version: the search, the new node,
-- and its linking, against the list of cells.
use skl_rs.Prelude.{
  ℕ, ◌+◌, ◌^◌, ◌≤◌, ◌<◌, ◌≡◌, refl, sym, ap, ◌∙◌, Option, none, some, eq, Bool, List, ◌∷◌, ◌++◌,
  length, All-zip, All-split, Run, done, done-injective, Result, ok, err, arith, true, false,
}
use skl_rs.Prelude
use mathlib.Core.Path.{subst}
use skl_rs.Alloc.{Filler}
use skl_rs.Alloc.Fill.{Fills, length-get_bytes}
use skl_rs.Alloc.Made.{Fits}
use skl_rs.Alloc.Reason.{IsReason}
use skl_rs.Alloc.Owned.{IsOwned, IsStored, renewed, IsOwned-renewed}
use skl_rs.Attempt.{Either, left, right, continue, undo_with}
use skl_rs.Capacity.{Error}
use skl_rs.Comparator.{Bytes, Trailer}
use skl_rs.Key
use skl_rs.Key.{Key, occupied, pointer, remove, remove_pointer, on_fail}
use skl_rs.Link.{Locals, Deallocator, with_links}
use skl_rs.Link.Preserve.{link_levels-IsRepr}
use skl_rs.Map.{SkipMap, as_ref}
use skl_rs.Map.Order.{Cell}
use skl_rs.Map.Reads.{get_key-node}
use skl_rs.Map.Repr.{Holds}
use skl_rs.Node
use skl_rs.Node.{Node, deref, get_bytes}
use skl_rs.Node.Allocator.{InUse, IsAllocator}
use skl_rs.Node.Arena.{Arena}
use skl_rs.Splice.{Pointer, Inserter, find_splice, fresh_inserter}
use skl_rs.Splice.Level.{Passed, Ahead, Offered, Serves, own_key}
use skl_rs.Splice.Levels.{Brackets, find_splice-Offered}
use skl_rs.Update.{
  UpdateOk, search, with_place, update, link_node, insert_entry, stored_or, announce, after_levels,
}
use skl_rs.Update.Cell.{Holds-new, IsStored-new, IsFresh-new, IsOwned-linked}
use skl_rs.Alloc.Nodes.{new_node}
use skl_rs.Update.NewNode.{
  Creates, created, not_created, new_node-occupied, new_node-pointer, new_node-remove,
  new_node-remove_pointer,
}

module _ {ar : Arena} {T : Type 0} ⦃tr : Trailer T⦄ (laws : IsAllocator ar) (m : SkipMap ar T)
    (key : Bytes) where
  -- A stored key that reads as the key.
  pub record IsShared (p : Pointer) : Type 0 where
    pub low : p.offset < 2 ^ 32
    pub reads : get_bytes m.memory p.offset p.size ≡ key
    pub sized : p.size ≡ length key
    pub used : InUse (laws.Used m.arena) p.offset p.size

  module _ (exact : (d : Bytes) → m.cmp.cmp key d ≡ eq → key ≡ d) where
    own_key-IsShared :
        (version : ℕ) (d : Cell T) → IsStored laws m d → Holds m d → Serves m version key IsShared d
    unfolding as_ref
    own_key-IsShared version d s h n e same =
        let node_same : s.node ≡ n = done-injective (ap deref (sym s.node_at) ∙ e) in
        let reads : get_bytes m.memory s.node.key_offset (Node.key_size s.node) ≡ key =
          done-injective (sym (get_key-node m d.offset s.node s.node_at) ∙ h.key_read)
          ∙ sym (exact d.key same) in
        subst (λ (x : Node). IsShared (own_key x)) node_same
          (record {
            low = s.key_low;
            reads = reads;
            sized =
                sym (length-get_bytes m.memory s.node.key_offset (Node.key_size s.node))
                ∙ ap (λ (b : Bytes). length b) reads;
            used = s.key_used;
          })

module _ {ar : Arena} {T E : Type 0} ⦃tr : Trailer T⦄ (laws : IsAllocator ar) (m : SkipMap ar T)
    (passed ahead : List (Cell T)) (key : Bytes) (t : T) (v : Option Bytes) where
  -- How an insertion ends: with the new cell at its place, or with an error and the cells as they were.
  pub data Inserts
      : Run (Result (UpdateOk T × Inserter) (Either E (Error ar.Error)) × SkipMap ar T)
        → Type 0 where
    inserts :
        (nd height : ℕ) (ins : Inserter) (m' : SkipMap ar T)
        → IsOwned laws m' (
            passed
            ++ (record { offset = nd; height = height; key = key; trailer = t; value = v }) ∷ ahead)
        → (m'.cmp ≡ m.cmp) × (m'.opts ≡ m.opts)
        → Inserts (done (ok (left none, ins), m'))
    refuses :
        (e : Error ar.Error) (m' : SkipMap ar T)
        → IsReason m key v e
        → IsOwned laws m' (passed ++ ahead)
        → (m'.cmp ≡ m.cmp) × (m'.opts ≡ m.opts)
        → Inserts (done (err (right e), m'))

module _ {ar : Arena} {T E : Type 0} ⦃tr : Trailer T⦄ (laws : IsAllocator ar) (m : SkipMap ar T)
    (passed ahead : List (Cell T)) (key : Bytes) (t : T) (v : Option Bytes) (n : ℕ) (f : Filler E)
    (o : IsOwned laws m (passed ++ ahead)) (p : Passed m (tr.version t) key passed)
    (q : Ahead m (tr.version t) key ahead) (sized : 0 < tr.size_of)
    (low : m.opts.max_height < 2 ^ 5) (room : m.meta.len + 1 < 2 ^ 32)
    (others : SkipMap ar T → SkipMap ar T) (upserting : Bool) where
  link_node-Inserts :
      (x : Run (Result (ℕ × ℕ × Deallocator) (Either E (Error ar.Error)) × SkipMap ar T)) (k : Key)
      (ins : Inserter)
      → Creates laws m key t v x
      → ((m' : SkipMap ar T) → on_fail m' k ≡ m')
      → Brackets m.head m.tail passed ahead m.meta.height
          (record fresh_inserter { height = m.meta.height })
          ins
      → Inserts laws m passed ahead key t v (
          continue
            (λ r. link_node others r.0 r.1 r.2 k ins t n f upserting)
            (undo_with (λ m'. on_fail m' k) x))
  unfolding link_node after_levels announce
  link_node-Inserts x k ins
        (created nd height d a nodes trailers bytes after kept is positive tall grows below)
        unharmed b =
      let m' = renewed laws m a nodes trailers bytes after in
      let c : Cell T = record { offset = nd; height = height; key = key; trailer = t; value = v } in
      let o' =
        IsOwned-renewed laws m a nodes trailers bytes after (passed ++ ahead) sized kept o grows
          below in
      let ls : Locals = record { k = k; deallocator = d; invalid_data_splice = false } in
      let (links, runs, r) =
        link_levels-IsRepr m' c passed ahead m.meta.height ins ls o'.repr p q
          (IsFresh-new laws m (passed ++ ahead) o a nodes trailers bytes after c is positive)
          (Holds-new laws m (passed ++ ahead) o a nodes trailers bytes after c is positive) tall
          (omega arith) room o.repr.short b in
      rw (link_node, runs)
        (inserts nd height _ (announce (tr.version t) (with_links m' links))
          (IsOwned-linked laws m' links (tr.version t) c passed ahead o'
            (IsStored-new laws m (passed ++ ahead) o a nodes trailers bytes after c is positive) r)
          (refl, refl))
  link_node-Inserts x k ins (not_created e a why kept) unharmed b =
      rw (unharmed (record m { arena = a })) (
        refuses e (record m { arena = a }) why
          (IsOwned-renewed laws m a m.memory.nodes m.memory.trailers m.memory.bytes m.meta.height
            (passed ++ ahead) sized
            (record {
              nodes_kept = λ q u. refl;
              trailers_kept = λ q u. refl;
              bytes_kept = λ q u. refl;
              used_kept = kept;
            })
            o (omega arith) o.repr.height_max)
          (refl, refl))

  -- `update` with a key that is not in the map at the version, from what follows the search.
  module _ (exact : (d : Bytes) → m.cmp.cmp key d ≡ eq → key ≡ d) (table : List ℕ) (rnd : ℕ) where
    update_after :
        (k0 : Key)
        → Key.as_ref m k0 ≡ done key
        → ((k : Option Pointer) (ins : Inserter)
            → Offered (IsShared laws m key) k
            → Brackets m.head m.tail passed ahead m.meta.height
                (record fresh_inserter { height = m.meta.height })
                ins
            → Inserts laws m passed ahead key t v
                (insert_entry others table rnd k k0 t n f ins upserting m))
        → Inserts laws m passed ahead key t v
            (update others table rnd t k0 n f fresh_inserter upserting m)
    unfolding update with_place search
    update_after k0 reads then =
        let (_, stored) = All-split (IsStored laws m) passed ahead o.stored in
        let (_, holds) = All-split (Holds m) passed ahead o.repr.holds in
        let (k, ins, runs, b, offered) =
          find_splice-Offered m (tr.version t) key passed ahead o.repr p q (IsShared laws m key)
            true (All-zip (own_key-IsShared laws m key exact (tr.version t)) ahead stored holds)
            (omega arith) in
        subst
          (λ r.
            Inserts laws m passed ahead key t v
              (with_place others table rnd t k0 n f upserting r m))
          (sym (
            ap
              (λ x.
                Prelude.◌>>=◌ x (λ bytes. find_splice m (tr.version t) bytes fresh_inserter true))
              reads
            ∙ runs))
          (then k ins offered b)

module _ {ar : Arena} {T E : Type 0} ⦃tr : Trailer T⦄ (laws : IsAllocator ar) (m : SkipMap ar T)
    (passed ahead : List (Cell T)) (key : Bytes) (t : T) (f : Filler E)
    (o : IsOwned laws m (passed ++ ahead)) (p : Passed m (tr.version t) key passed)
    (q : Ahead m (tr.version t) key ahead) (sized : 0 < tr.size_of)
    (low : m.opts.max_height < 2 ^ 5) (room : m.meta.len + 1 < 2 ^ 32)
    (others : SkipMap ar T → SkipMap ar T) (upserting : Bool) (table : List ℕ) (rnd : ℕ)
    (covered : m.opts.max_height ≤ length table) (short : length key < 2 ^ 27)
    (exact : (d : Bytes) → m.cmp.cmp key d ≡ eq → key ≡ d) where
  module _ (v : Bytes) (fills : Fills f v) (fits : Fits (some v)) where
    inserted_with :
        (k : Option Pointer) (ins : Inserter)
        → Offered (IsShared laws m key) k
        → Brackets m.head m.tail passed ahead m.meta.height
            (record fresh_inserter { height = m.meta.height })
            ins
        → Inserts laws m passed ahead key t
            (some v)
            (insert_entry others table rnd k (occupied key) t (length v) f ins upserting m)
    unfolding insert_entry stored_or on_fail
    inserted_with none ins offered b =
        link_node-Inserts laws m passed ahead key t (some v) (length v) f o p q sized low room
          others upserting _ (occupied key) ins
          (new_node-occupied laws m key t v f fills sized short fits low
            (omega (arith, o.repr.height_pos, o.repr.height_max)) o.repr.height_max table rnd
            covered)
          (λ m'. refl) b
    inserted_with (some k) ins offered b =
        link_node-Inserts laws m passed ahead key t (some v) (length v) f o p q sized low room
          others upserting _ (pointer k.offset k.size) ins
          (subst
            (λ (n : ℕ).
              Creates laws m key t (some v)
                (new_node table rnd (pointer k.offset n) t (length v) f m))
            (sym offered.sized)
            (new_node-pointer laws m key t v f fills sized short fits low
              (omega (arith, o.repr.height_pos, o.repr.height_max)) o.repr.height_max table rnd
              covered k.offset offered.low
              (subst (λ (n : ℕ). get_bytes m.memory k.offset n ≡ key) offered.sized offered.reads)
              (subst (λ (n : ℕ). InUse (laws.Used m.arena) k.offset n) offered.sized offered.used)))
          (λ m'. refl) b

    -- `update` with a key of the caller that is not in the map at the version.
    pub update-Inserts :
        Inserts laws m passed ahead key t
          (some v)
          (update others table rnd t (occupied key) (length v) f fresh_inserter upserting m)
    unfolding Key.as_ref
    update-Inserts =
        update_after laws m passed ahead key t (some v) (length v) f o p q sized low room others
          upserting exact table rnd (occupied key) refl inserted_with

  module _ (n : ℕ) where
    removed_with :
        (k : Option Pointer) (ins : Inserter)
        → Offered (IsShared laws m key) k
        → Brackets m.head m.tail passed ahead m.meta.height
            (record fresh_inserter { height = m.meta.height })
            ins
        → Inserts laws m passed ahead key t none
            (insert_entry others table rnd k (remove key) t n f ins upserting m)
    unfolding insert_entry stored_or on_fail
    removed_with none ins offered b =
        link_node-Inserts laws m passed ahead key t none n f o p q sized low room others upserting _
          (remove key) ins
          (new_node-remove laws m key t n f sized short low
            (omega (arith, o.repr.height_pos, o.repr.height_max)) o.repr.height_max table rnd
            covered)
          (λ m'. refl) b
    removed_with (some k) ins offered b =
        link_node-Inserts laws m passed ahead key t none n f o p q sized low room others upserting _
          (remove_pointer k.offset k.size) ins
          (subst
            (λ (l : ℕ).
              Creates laws m key t none (new_node table rnd (remove_pointer k.offset l) t n f m))
            (sym offered.sized)
            (new_node-remove_pointer laws m key t n f sized short low
              (omega (arith, o.repr.height_pos, o.repr.height_max)) o.repr.height_max table rnd
              covered k.offset offered.low
              (subst (λ (l : ℕ). get_bytes m.memory k.offset l ≡ key) offered.sized offered.reads)
              (subst (λ (l : ℕ). InUse (laws.Used m.arena) k.offset l) offered.sized offered.used)))
          (λ m'. refl) b

    -- A removal of a key that is not in the map at the version.
    pub update-Inserts_removal :
        Inserts laws m passed ahead key t none
          (update others table rnd t (remove key) n f fresh_inserter upserting m)
    unfolding Key.as_ref
    update-Inserts_removal =
        update_after laws m passed ahead key t none n f o p q sized low room others upserting exact
          table rnd (remove key) refl removed_with
