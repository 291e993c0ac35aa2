-- ===== src/Alloc/Made.antt =====
-- A new node in memory (src/map.rs): its block, its key, and the block of its trailer and value.
use skl_rs.Prelude.{
  ℕ, ◌+◌, ◌*◌, ◌%◌, ◌^◌, ◌≤◌, ◌<◌, ◌≡◌, ◌≢◌, refl, sym, ap, ◌∙◌, ◌⊎◌, Option, some, none, length,
  if◌then◌else◌, ◌==◌, arith, ==_ne, ==_refl,
}
use Prim.{¬◌}
use mathlib.Core.Path.{ap₂, subst}
use skl_rs.Alloc.{put_bytes}
use skl_rs.Alloc.Fill.{put_bytes-elsewhere, get_bytes-put_bytes}
use skl_rs.Alloc.Nodes.{node_of}
use skl_rs.Alloc.Owned.{IsKept, renewed}
use skl_rs.Capacity.Bounds.{stored_size}
use skl_rs.Codec.{decode_value_pointer, decode_key_size_and_height, u32_max, remove_size}
use skl_rs.Codec.RoundTrip.{decode-encode_value_pointer, decode-encode_key_size_and_height}
use skl_rs.Comparator.{Bytes, Trailer}
use skl_rs.Link.{update}
use skl_rs.Map.{SkipMap}
use skl_rs.Map.Reads.{trailer_ptr, value_of, get_bytes-same}
use skl_rs.Node
use skl_rs.Node.{Node, Memory, get_bytes, node_size, link_size}
use skl_rs.Node.Allocator.{InUse, IsBlock, IsBlock-outside, IsAllocator}
use skl_rs.Node.Arena.{Arena}

-- The size that stands for a value, and how many bytes it has.
abbrev pub value_size : Option Bytes → ℕ
value_size none = remove_size
value_size (some v) = length v

abbrev pub held : Option Bytes → ℕ
held none = 0
held (some v) = length v

-- A value is written, a removal writes none.
abbrev pub put_value : (ℕ → ℕ) → ℕ → Option Bytes → ℕ → ℕ
put_value f offset none = f
put_value f offset (some v) = put_bytes f offset v

-- A value is shorter than what stands for a removal.
abbrev pub Fits : Option Bytes → Type 0
Fits none = Unit
Fits (some v) = length v < u32_max

pub stored_size-held : (v : Option Bytes) → Fits v → stored_size (value_size v) ≡ held v
stored_size-held none f = refl
stored_size-held (some v) f = rw (==_ne (length v) u32_max (λ e. omega arith))

pub value_size-low : (v : Option Bytes) → Fits v → value_size v < 2 ^ 32
value_size-low none f = omega arith
value_size-low (some v) f = omega arith

put_value-elsewhere :
    (f : ℕ → ℕ) (offset : ℕ) (v : Option Bytes) (q : ℕ)
    → (q < offset) ⊎ (offset + held v ≤ q)
    → put_value f offset v q ≡ f q
put_value-elsewhere f offset none q away = refl
put_value-elsewhere f offset (some v) q away = put_bytes-elsewhere f offset v q away

pub read_value :
    {T : Type 0} (mem : Memory T) (f : ℕ → ℕ) (offset : ℕ) (v : Option Bytes)
    → Fits v
    → (if value_size v == u32_max
        then none
        else some (get_bytes (record mem { bytes = put_value f offset v }) offset (value_size v)))
      ≡ v
read_value mem f offset none fits = refl
read_value mem f offset (some v) fits =
    rw (==_ne (length v) u32_max (λ e. omega arith)) (ap some (get_bytes-put_bytes mem f offset v))

module _ (trailer_offset size key_offset key_size height : ℕ) where
  key_size-node_of :
      key_size < 2 ^ 27
      → height < 2 ^ 5
      → Node.key_size (node_of trailer_offset size key_offset key_size height) ≡ key_size
  unfolding node_of Node.key_size decode_key_size_and_height
  key_size-node_of k h =
      let key_word : key_size % 2 ^ 32 ≡ key_size = omega arith in
      let height_word : height % 2 ^ 8 ≡ height = omega arith in
      rw (key_word, height_word)
        (ap (λ d. d.0) (decode-encode_key_size_and_height key_size height k h))

  value-node_of :
      trailer_offset < 2 ^ 32
      → size < 2 ^ 32
      → decode_value_pointer (node_of trailer_offset size key_offset key_size height).value
        ≡ (trailer_offset, size)
  unfolding node_of
  value-node_of o s =
      let word : trailer_offset % 2 ^ 32 ≡ trailer_offset = omega arith in
      rw word (decode-encode_value_pointer trailer_offset size o s)

module _ {ar : Arena} {T : Type 0} ⦃tr : Trailer T⦄ (laws : IsAllocator ar) (m : SkipMap ar T) where
  -- A node that was not in the map before, with its key, trailer and value.
  pub record IsNew (a : ar.State) (nodes : ℕ → Option Node) (trailers : ℕ → Option T)
      (bytes : ℕ → ℕ) (nd height : ℕ) (key : Bytes) (t : T) (v : Option Bytes) : Type 0 where
    pub node : Node
    pub node_at : nodes nd ≡ some node
    pub ne_null : nd ≢ 0
    pub fresh : (q : ℕ) → nd ≤ q → q < nd + (node_size + height * link_size) → ¬ laws.Used m.arena q
    pub tower_used : InUse (laws.Used a) nd (node_size + height * link_size)
    pub key_read :
        get_bytes
          (renewed laws m a nodes trailers bytes m.meta.height).memory
          node.key_offset
          (Node.key_size node)
        ≡ key
    pub key_low : node.key_offset < 2 ^ 32
    pub key_used : InUse (laws.Used a) node.key_offset (Node.key_size node)
    pub trailer_at : trailers (trailer_ptr m node) ≡ some t
    pub value_read : value_of (renewed laws m a nodes trailers bytes m.meta.height) node ≡ v
    pub value_used :
        InUse
          (laws.Used a)
          (trailer_ptr m node)
          (tr.size_of + stored_size (decode_value_pointer node.value).1)

  -- The blocks of a new node, and the key where it lies before the value is written.
  module _ (nd nc : ℕ) (s1 : ar.State) (s2 : ar.State) (key_offset : ℕ) (filled : ℕ → ℕ) (to tc : ℕ)
      (s3 : ar.State) (height : ℕ) (key : Bytes) (t : T) (v : Option Bytes) where
    pub record IsMade : Type 0 where
      pub sized : 0 < tr.size_of
      pub node_block :
          IsBlock (laws.Used m.arena) (laws.Used s1) nd (node_size + height * link_size) nc
      pub between : (q : ℕ) → laws.Used s1 q → laws.Used s2 q
      pub key_low : key_offset < 2 ^ 32
      pub key_filled : get_bytes (record m.memory { bytes = filled }) key_offset (length key) ≡ key
      pub key_owned : InUse (laws.Used s2) key_offset (length key)
      pub rest_kept : (q : ℕ) → laws.Used m.arena q → filled q ≡ m.memory.bytes q
      pub value_block : IsBlock (laws.Used s2) (laws.Used s3) to (tr.size_of + held v) tc
      pub aligned : ar.get_aligned_pointer tr.align_of to ≡ to
      pub key_short : length key < 2 ^ 27
      pub low : height < 2 ^ 5
      pub value_fits : Fits v

    abbrev made_node : Node
    made_node = node_of to (value_size v) key_offset (length key) height

    abbrev pub made_nodes : ℕ → Option Node
    made_nodes = update m.memory.nodes nd (some made_node)

    abbrev pub made_trailers : ℕ → Option T
    made_trailers = update m.memory.trailers to (some t)

    abbrev pub made_bytes : ℕ → ℕ
    made_bytes = put_value filled (to + tr.size_of) v

    abbrev made_memory : Memory T
    made_memory = (renewed laws m s3 made_nodes made_trailers made_bytes m.meta.height).memory

    module _ (b : IsMade) where
      used_between : (q : ℕ) → laws.Used m.arena q → laws.Used s2 q
      used_between q u = b.between q (b.node_block.keeps q u)

      pub made-IsKept : IsKept laws m s3 made_nodes made_trailers made_bytes
      made-IsKept = record {
        nodes_kept = λ q u.
            let away = IsBlock-outside nd _ nc b.node_block q u in
            rw (==_ne q nd (λ e. omega (arith, away)));
        trailers_kept = λ q u.
            let away = IsBlock-outside to _ tc b.value_block q (used_between q u) in
            rw (==_ne q to (λ e. omega (arith, away, b.sized)));
        bytes_kept = λ q u.
            let away = IsBlock-outside to _ tc b.value_block q (used_between q u) in
            put_value-elsewhere filled (to + tr.size_of) v q (ground (arith, away))
            ∙ b.rest_kept q u;
        used_kept = λ q u. b.value_block.keeps q (used_between q u);
      }

      ends : to + (tr.size_of + held v) < 2 ^ 32
      ends = b.value_block.ends

      made_pointer : decode_value_pointer made_node.value ≡ (to, value_size v)
      made_pointer =
          value-node_of to (value_size v) key_offset (length key) height (omega (arith, ends))
            (value_size-low v b.value_fits)

      made_ptr : trailer_ptr m made_node ≡ to
      made_ptr = ap (λ d. ar.get_aligned_pointer tr.align_of d.0) made_pointer ∙ b.aligned

      made_key_size : Node.key_size made_node ≡ length key
      made_key_size =
          key_size-node_of to (value_size v) key_offset (length key) height b.key_short b.low

      made_key_offset : made_node.key_offset ≡ key_offset
      unfolding node_of
      made_key_offset = omega (arith, b.key_low)

      key_kept : get_bytes made_memory key_offset (length key) ≡ key
      key_kept =
          get_bytes-same (record m.memory { bytes = filled }) made_memory key_offset (length key)
            (λ q above below.
              let away = IsBlock-outside to _ tc b.value_block q (b.key_owned q above below) in
              put_value-elsewhere filled (to + tr.size_of) v q (ground (arith, away)))
          ∙ b.key_filled

      pub made-IsNew : IsNew s3 made_nodes made_trailers made_bytes nd height key t v
      made-IsNew = record {
        node = made_node;
        node_at = rw (==_refl nd);
        ne_null = λ e. omega (arith, b.node_block.not_null (omega arith));
        fresh = b.node_block.fresh;
        tower_used =
            λ q above below. b.value_block.keeps q (b.between q (b.node_block.used q above below));
        key_read =
            ap₂ (λ at n. get_bytes made_memory at n) made_key_offset made_key_size ∙ key_kept;
        key_low = rw made_key_offset b.key_low;
        key_used =
            rw (made_key_size, made_key_offset)
              (λ q above below. b.value_block.keeps q (b.key_owned q above below));
        trailer_at = ap made_trailers made_ptr ∙ rw (==_refl to);
        value_read =
            ap₂
              (λ ptr len.
                if len == u32_max
                then none
                else some (get_bytes made_memory (ptr + tr.size_of) len))
              made_ptr (ap (λ d. d.1) made_pointer)
            ∙ read_value made_memory filled (to + tr.size_of) v b.value_fits;
        value_used =
            subst (λ (size : ℕ). InUse (laws.Used s3) (trailer_ptr m made_node) (tr.size_of + size))
              (sym (ap (λ d. stored_size d.1) made_pointer ∙ stored_size-held v b.value_fits))
              (subst (λ (ptr : ℕ). InUse (laws.Used s3) ptr (tr.size_of + held v)) (sym made_ptr)
                b.value_block.used);
      }
