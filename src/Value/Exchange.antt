-- ===== src/Value/Exchange.antt =====
-- A node of the list gets a new trailer and value (`Node::set_value` of src/map.rs), and the block of
-- the old ones is given back: what the map stands for then.
use mathlib.Core.Path.{ap₂, subst}
use skl_rs.Prelude.{
  ℕ, ◌+◌, ◌^◌, ◌<◌, ◌≡◌, ◌≢◌, refl, sym, ap, Option, ◌∙◌, inl, inr, none, some, List, ◌∷◌, ◌++◌,
  if◌then◌else◌, ◌==◌, ==_ne, ==_refl, Bool-cases, arith, done, ◌>>=◌,
}
use skl_rs.Alloc.{overlaid}
use skl_rs.Alloc.Made.{value_size, held, Fits, stored_size-held, value_size-low}
use skl_rs.Alloc.Owned.{IsOwned, IsStored}
use skl_rs.Capacity.Bounds.{stored_size}
use skl_rs.Codec.{u32_max, encode_value_pointer, decode_value_pointer}
use skl_rs.Codec.RoundTrip.{decode-encode_value_pointer}
use skl_rs.Comparator.{Bytes, Trailer}
use skl_rs.Link.{update}
use skl_rs.Map.{SkipMap}
use skl_rs.Map.Order.{Cell}
use skl_rs.Map.Reads.{
  get_bytes-same, get_key-node, get_trailer-node, get_value_and_trailer-node, trailer_ptr, value_of,
}
use skl_rs.Map.Repr.{Holds}
use skl_rs.Map.Revalue.{revalued}
use skl_rs.Node
use skl_rs.Node.{Node, Memory, get_bytes, deref, node_size, link_size}
use skl_rs.Node.Allocator.{InUse, InUse-part, IsAllocator}
use skl_rs.Node.Arena.{Arena}
use skl_rs.Value.Lone.{Outside, Clear, overlaid-Outside, IsClear, IsLone}

module _ {ar : Arena} {T : Type 0} ⦃tr : Trailer T⦄ (laws : IsAllocator ar) (m : SkipMap ar T)
    (passed : List (Cell T)) (y : Cell T) (ahead : List (Cell T)) (n : Node) (offset size to : ℕ)
    (t : T) (v : Option Bytes) (s' : ar.State) where
  -- What is in memory before the exchange.
  pub record IsReady : Type 0 where
    pub owned : IsOwned laws m (passed ++ y ∷ ahead)
    pub node_at : m.memory.nodes y.offset ≡ some n
    pub lone : IsLone m offset size passed y ahead
    pub same_version : tr.version y.trailer ≡ tr.version t
    pub aligned : ar.get_aligned_pointer tr.align_of to ≡ to
    pub low : to < 2 ^ 32
    pub sized : 0 < tr.size_of
    pub fits : Fits v
    pub trailer_at : m.memory.trailers to ≡ some t
    pub value_at :
        (if value_size v == u32_max
          then none
          else some (get_bytes m.memory (to + tr.size_of) (value_size v)))
        ≡ v
    pub used : InUse (laws.Used m.arena) to (tr.size_of + held v)
    pub used_clear : Clear offset size to (tr.size_of + held v)
    pub keeps : (q : ℕ) → laws.Used m.arena q → Outside offset size q → laws.Used s' q

  abbrev new_node : Node
  new_node = record n { value = encode_value_pointer to (value_size v) }

  abbrev pub with_new_value : SkipMap ar T
  with_new_value = record m {
    arena = s';
    memory = record m.memory {
      nodes = update m.memory.nodes y.offset (some new_node);
      trailers = overlaid offset size (λ q. none) m.memory.trailers;
      bytes = overlaid offset size (ar.leftover s') m.memory.bytes;
    };
  }

  module _ (i : IsReady) where
    abbrev pointer : ℕ × ℕ
    pointer = decode_value_pointer new_node.value

    pointer_lem : pointer ≡ (to, value_size v)
    pointer_lem = decode-encode_value_pointer to (value_size v) i.low (value_size-low v i.fits)

    pub keeps_block :
        (at part : ℕ)
        → InUse (laws.Used m.arena) at part
        → Clear offset size at part
        → InUse (laws.Used s') at part
    keeps_block at part used clear q low high = i.keeps q (used q low high) (clear q low high)

    pub bytes_kept :
        (at len : ℕ)
        → Clear offset size at len
        → get_bytes with_new_value.memory at len ≡ get_bytes m.memory at len
    bytes_kept at len clear =
        get_bytes-same m.memory with_new_value.memory at len
          (λ q low high. overlaid-Outside offset size _ m.memory.bytes q (clear q low high))

    trailer_kept :
        (at part : ℕ)
        → Clear offset size at (tr.size_of + part)
        → with_new_value.memory.trailers at ≡ m.memory.trailers at
    trailer_kept at part clear =
        overlaid-Outside offset size _ m.memory.trailers at
          (clear at (omega arith) (omega (arith, i.sized)))

    value_kept :
        (k : Node)
        → Clear offset size
            (trailer_ptr m k)
            (tr.size_of + stored_size (decode_value_pointer k.value).1)
        → value_of with_new_value k ≡ value_of m k
    value_kept k clear = elim (Bool-cases ((decode_value_pointer k.value).1 == u32_max)) [
      | inl removed ↦ rw removed
      | inr valued ↦
          let len = (decode_value_pointer k.value).1 in
          let whole : stored_size len ≡ len = rw valued in
          rw (
            valued,
            bytes_kept (trailer_ptr m k + tr.size_of) len (
                InUse-part (Outside offset size) (trailer_ptr m k) (tr.size_of + stored_size len)
                  (trailer_ptr m k + tr.size_of) len clear (omega arith) (omega arith)),
          )
    ]

    module _ (c : Cell T) (away : c.offset ≢ y.offset) (s : IsStored laws m c)
        (k : IsClear m offset size c) where
      node_kept : with_new_value.memory.nodes c.offset ≡ some s.node
      node_kept = rw (==_ne c.offset y.offset away) s.node_at

      pub Holds-exchanged : Holds m c → Holds with_new_value c
      Holds-exchanged h = record {
        ne_null = h.ne_null;
        ne_head = h.ne_head;
        ne_tail = h.ne_tail;
        has_link = h.has_link;
        key_read =
            get_key-node with_new_value c.offset s.node node_kept
            ∙ ap done (
                bytes_kept s.node.key_offset (Node.key_size s.node)
                  (k.key.key_clear s.node s.node_at))
            ∙ sym (get_key-node m c.offset s.node s.node_at)
            ∙ h.key_read;
        trailer_read =
            get_trailer-node with_new_value c.offset s.node node_kept
            ∙ ap deref (trailer_kept (trailer_ptr m s.node) _ (k.value_clear s.node s.node_at))
            ∙ sym (get_trailer-node m c.offset s.node s.node_at)
            ∙ h.trailer_read;
        value_read =
            get_value_and_trailer-node with_new_value c.offset s.node node_kept
            ∙ ap₂ (λ u x. deref u >>= λ w. done (w, x))
                (trailer_kept (trailer_ptr m s.node) _ (k.value_clear s.node s.node_at))
                (value_kept s.node (k.value_clear s.node s.node_at))
            ∙ sym (get_value_and_trailer-node m c.offset s.node s.node_at)
            ∙ h.value_read;
      }

      pub IsStored-exchanged : IsStored laws with_new_value c
      IsStored-exchanged = record {
        node = s.node;
        node_at = node_kept;
        tower_used = keeps_block _ _ s.tower_used k.key.tower_clear;
        key_low = s.key_low;
        key_used = keeps_block _ _ s.key_used (k.key.key_clear s.node s.node_at);
        value_used = keeps_block _ _ s.value_used (k.value_clear s.node s.node_at);
      }

    abbrev pub renewed_cell : Cell T
    renewed_cell = revalued t v y

    own_at : with_new_value.memory.nodes y.offset ≡ some new_node
    own_at = rw (==_refl y.offset)

    ptr_lem : trailer_ptr m new_node ≡ to
    ptr_lem = ap (λ d. ar.get_aligned_pointer tr.align_of d.0) pointer_lem ∙ i.aligned

    own_trailer : with_new_value.memory.trailers (trailer_ptr m new_node) ≡ some t
    own_trailer =
        ap with_new_value.memory.trailers ptr_lem ∙ trailer_kept to _ i.used_clear ∙ i.trailer_at

    bytes_there :
        (if value_size v == u32_max
          then none
          else some (get_bytes with_new_value.memory (to + tr.size_of) (value_size v)))
        ≡ (if value_size v == u32_max
            then none
            else some (get_bytes m.memory (to + tr.size_of) (value_size v)))
    bytes_there = elim (Bool-cases (value_size v == u32_max)) [
      | inl removed ↦ rw (removed) refl
      | inr valued ↦
          let whole : stored_size (value_size v) ≡ value_size v = rw valued in
          let same = stored_size-held v i.fits in
          rw
            (
              valued,
              bytes_kept (to + tr.size_of) (value_size v) (
                  InUse-part (Outside offset size) to (tr.size_of + held v) (to + tr.size_of)
                    (value_size v) i.used_clear (omega arith) (omega (arith, whole, same))),
            )
            refl
    ]

    own_value : value_of with_new_value new_node ≡ v
    own_value =
        ap₂
          (λ ptr len.
            if len == u32_max
            then none
            else some (get_bytes with_new_value.memory (ptr + tr.size_of) len))
          ptr_lem (ap (λ d. d.1) pointer_lem)
        ∙ bytes_there
        ∙ i.value_at

    pub Holds-own : Holds m y → Holds with_new_value renewed_cell
    unfolding Node.key_size
    Holds-own h = record {
      ne_null = h.ne_null;
      ne_head = h.ne_head;
      ne_tail = h.ne_tail;
      has_link = h.has_link;
      key_read =
          get_key-node with_new_value y.offset new_node own_at
          ∙ ap done
              (bytes_kept n.key_offset (Node.key_size n) (i.lone.own_clear.key_clear n i.node_at))
          ∙ sym (get_key-node m y.offset n i.node_at)
          ∙ h.key_read;
      trailer_read =
          get_trailer-node with_new_value y.offset new_node own_at ∙ ap deref own_trailer;
      value_read =
          get_value_and_trailer-node with_new_value y.offset new_node own_at
          ∙ ap₂ (λ u x. deref u >>= λ w. done (w, x)) own_trailer own_value;
    }

    pub IsStored-own : IsStored laws m y → IsStored laws with_new_value renewed_cell
    unfolding Node.key_size
    IsStored-own s =
        let found : some s.node ≡ some n = sym s.node_at ∙ i.node_at in
        let same : s.node ≡ n = cc in
        record {
          node = new_node;
          node_at = own_at;
          tower_used = keeps_block _ _ s.tower_used i.lone.own_clear.tower_clear;
          key_low = subst (λ (k : Node). k.key_offset < 2 ^ 32) same s.key_low;
          key_used =
              keeps_block n.key_offset (Node.key_size n)
                (subst (λ (k : Node). InUse (laws.Used m.arena) k.key_offset (Node.key_size k)) same
                  s.key_used)
                (i.lone.own_clear.key_clear n i.node_at);
          value_used =
              subst
                (λ (part : ℕ). InUse (laws.Used s') (trailer_ptr m new_node) (tr.size_of + part))
                (sym (ap (λ d. stored_size d.1) pointer_lem ∙ stored_size-held v i.fits))
                (subst (λ (ptr : ℕ). InUse (laws.Used s') ptr (tr.size_of + held v)) (sym ptr_lem)
                  (keeps_block to _ i.used i.used_clear));
        }
