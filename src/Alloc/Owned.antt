-- ===== src/Alloc/Owned.antt =====
-- The cells of a map (src/map.rs) lie in blocks that the arena has handed out, so that a write to
-- other blocks leaves them as they are.
use mathlib.Core.Path.{ap₂}
use skl_rs.Prelude.{
  ℕ, ◌+◌, ◌*◌, ◌^◌, ◌≤◌, ◌<◌, ◌≡◌, sym, ◌∙◌, Bool-cases, inl, inr, Option, some, List, All, All-imp,
  All-zip, ◌==◌, done, ◌>>=◌, arith, ap,
}
use skl_rs.Capacity.Bounds.{stored_size}
use skl_rs.Codec.{decode_value_pointer, u32_max}
use skl_rs.Comparator.{Trailer}
use skl_rs.Map.{SkipMap, get_next, get_prev}
use skl_rs.Map.Reads.{
  get_bytes-same, get_key-node, get_trailer-node, get_value_and_trailer-node, trailer_ptr, value_of,
}
use skl_rs.Map.Order.{Cell}
use skl_rs.Map.Repr.{Holds, IsRepr}
use skl_rs.Node
use skl_rs.Node.{Node, Memory, get_bytes, deref, node_size, link_size}
use skl_rs.Node.Allocator.{InUse, InUse-part, IsAllocator}
use skl_rs.Node.Arena.{Arena}

module _ {ar : Arena} {T : Type 0} ⦃tr : Trailer T⦄ (laws : IsAllocator ar) where
  -- The node of a cell, and the blocks of its tower, its key, and its trailer and value.
  pub record IsStored (m : SkipMap ar T) (c : Cell T) : Type 0 where
    pub node : Node
    pub node_at : m.memory.nodes c.offset ≡ some node
    pub tower_used : InUse (laws.Used m.arena) c.offset (node_size + c.height * link_size)
    pub key_low : node.key_offset < 2 ^ 32
    pub key_used : InUse (laws.Used m.arena) node.key_offset (Node.key_size node)
    pub value_used :
        InUse
          (laws.Used m.arena)
          (ar.get_aligned_pointer tr.align_of (decode_value_pointer node.value).0)
          (tr.size_of + stored_size (decode_value_pointer node.value).1)

  -- The map stands for the cells, and all of it is in use.
  pub record IsOwned (m : SkipMap ar T) (cells : List (Cell T)) : Type 0 where
    pub repr : IsRepr m cells
    pub stored : All (IsStored m) cells
    pub head_used : InUse (laws.Used m.arena) m.head (node_size + m.opts.max_height * link_size)
    pub tail_used : InUse (laws.Used m.arena) m.tail (node_size + m.opts.max_height * link_size)
    pub tail_node : Node
    pub tail_at : m.memory.nodes m.tail ≡ some tail_node
    pub tail_size : Node.key_size tail_node ≡ 0

  -- A map with other contents of nodes, trailers and bytes, and another height.
  abbrev pub renewed :
      SkipMap ar T → ar.State → (ℕ → Option Node) → (ℕ → Option T) → (ℕ → ℕ) → ℕ → SkipMap ar T
  renewed m a nodes trailers bytes height = record m {
    arena = a;
    memory = record m.memory { nodes = nodes; trailers = trailers; bytes = bytes };
    meta = record m.meta { height = height };
  }

  module _ (m : SkipMap ar T) (a : ar.State) (nodes : ℕ → Option Node) (trailers : ℕ → Option T)
      (bytes : ℕ → ℕ) where
    -- What was in use is as it was.
    pub record IsKept : Type 0 where
      pub nodes_kept : (q : ℕ) → laws.Used m.arena q → nodes q ≡ m.memory.nodes q
      pub trailers_kept : (q : ℕ) → laws.Used m.arena q → trailers q ≡ m.memory.trailers q
      pub bytes_kept : (q : ℕ) → laws.Used m.arena q → bytes q ≡ m.memory.bytes q
      pub used_kept : (q : ℕ) → laws.Used m.arena q → laws.Used a q

    module _ (height : ℕ) (cells : List (Cell T)) (sized : 0 < tr.size_of) (k : IsKept) where
      abbrev after : SkipMap ar T
      after = renewed m a nodes trailers bytes height

      get_bytes-kept :
          (offset len : ℕ)
          → InUse (laws.Used m.arena) offset len
          → get_bytes after.memory offset len ≡ get_bytes m.memory offset len
      get_bytes-kept offset len used =
          get_bytes-same m.memory after.memory offset len
            (λ q low high. k.bytes_kept q (used q low high))

      node_kept : (c : Cell T) (s : IsStored m c) → nodes c.offset ≡ some s.node
      node_kept c s =
          k.nodes_kept c.offset (s.tower_used c.offset (omega arith) (omega arith)) ∙ s.node_at

      trailer_kept :
          (c : Cell T) (s : IsStored m c)
          → trailers (trailer_ptr m s.node) ≡ m.memory.trailers (trailer_ptr m s.node)
      trailer_kept c s =
          k.trailers_kept (trailer_ptr m s.node)
            (s.value_used (trailer_ptr m s.node) (omega arith) (omega arith))

      value_of-kept : (c : Cell T) (s : IsStored m c) → value_of after s.node ≡ value_of m s.node
      value_of-kept c s = elim (Bool-cases ((decode_value_pointer s.node.value).1 == u32_max)) [
        | inl removed ↦ rw removed
        | inr valued ↦
            let len = (decode_value_pointer s.node.value).1 in
            let stored : stored_size len ≡ len = rw valued in
            let start = trailer_ptr m s.node + tr.size_of in
            let used : InUse (laws.Used m.arena) start len =
              InUse-part (laws.Used m.arena) (trailer_ptr m s.node) (tr.size_of + stored_size len)
                start len s.value_used (omega arith) (omega arith) in
            rw (valued, get_bytes-kept start len used)
      ]

      Holds-renewed : (c : Cell T) → IsStored m c → Holds m c → Holds after c
      Holds-renewed c s h = record {
        ne_null = h.ne_null;
        ne_head = h.ne_head;
        ne_tail = h.ne_tail;
        has_link = h.has_link;
        key_read =
            get_key-node after c.offset s.node (node_kept c s)
            ∙ ap done (get_bytes-kept s.node.key_offset (Node.key_size s.node) s.key_used)
            ∙ sym (get_key-node m c.offset s.node s.node_at)
            ∙ h.key_read;
        trailer_read =
            get_trailer-node after c.offset s.node (node_kept c s)
            ∙ ap deref (trailer_kept c s)
            ∙ sym (get_trailer-node m c.offset s.node s.node_at)
            ∙ h.trailer_read;
        value_read =
            get_value_and_trailer-node after c.offset s.node (node_kept c s)
            ∙ ap₂ (λ t v. deref t >>= λ x. done (x, v)) (trailer_kept c s) (value_of-kept c s)
            ∙ sym (get_value_and_trailer-node m c.offset s.node s.node_at)
            ∙ h.value_read;
      }

      IsStored-renewed : (c : Cell T) → IsStored m c → IsStored after c
      IsStored-renewed c s = record {
        node = s.node;
        node_at = node_kept c s;
        tower_used = λ q low high. k.used_kept q (s.tower_used q low high);
        key_low = s.key_low;
        key_used = λ q low high. k.used_kept q (s.key_used q low high);
        value_used = λ q low high. k.used_kept q (s.value_used q low high);
      }

      tail_kept : (o : IsOwned m cells) → nodes m.tail ≡ some o.tail_node
      tail_kept o = k.nodes_kept m.tail (o.tail_used m.tail (omega arith) (omega arith)) ∙ o.tail_at

      IsRepr-renewed :
          IsOwned m cells → m.meta.height ≤ height → height ≤ m.opts.max_height → IsRepr after cells
      unfolding get_next get_prev get_bytes
      IsRepr-renewed o grows bounded =
          let r = o.repr in
          record {
            lawful = r.lawful;
            sorted = r.sorted;
            holds = All-zip Holds-renewed cells o.stored r.holds;
            levels = r.levels;
            backs = r.backs;
            apart = record {
              ends = r.apart.ends;
              from_head = r.apart.from_head;
              from_tail = r.apart.from_tail;
              pairs = r.apart.pairs;
            };
            height_pos = omega (arith, r.height_pos);
            height_max = bounded;
            short = All-imp (λ c low. omega arith) cells r.short;
            counted = r.counted;
            head_ne_null = r.head_ne_null;
            tail_ne_null = r.tail_ne_null;
            head_ne_tail = r.head_ne_tail;
            tail_key =
                get_key-node after m.tail o.tail_node (tail_kept o)
                ∙ ap (λ n. done (get_bytes after.memory o.tail_node.key_offset n)) o.tail_size;
          }

      pub IsOwned-renewed :
          IsOwned m cells
          → m.meta.height ≤ height
          → height ≤ m.opts.max_height
          → IsOwned after cells
      IsOwned-renewed o grows bounded = record {
        repr = IsRepr-renewed o grows bounded;
        stored = All-imp IsStored-renewed cells o.stored;
        head_used = λ q low high. k.used_kept q (o.head_used q low high);
        tail_used = λ q low high. k.used_kept q (o.tail_used q low high);
        tail_node = o.tail_node;
        tail_at = tail_kept o;
        tail_size = o.tail_size;
      }
