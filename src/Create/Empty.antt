-- ===== src/Create/Empty.antt =====
-- A map that `new_in` makes (src/map.rs): its ends, in blocks of the arena, and no entries.
use skl_rs.Prelude.{
  ℕ, ◌+◌, ◌*◌, ◌^◌, ◌≤◌, ◌<◌, ◌≡◌, ◌≢◌, ap, inl, inr, Option, some, Run, done, Result, ok, err,
  arith, false, ==_refl, ==_ne, ◌==◌,
}
use Prim.{¬◌}
use skl_rs.Alloc.Reason.{IsRefusal, of_aligned_bytes, of_value}
use skl_rs.Codec.{u32, decode_key_size_and_height}
use skl_rs.Codec.RoundTrip.{decode-encode_key_size_and_height}
use skl_rs.Comparator.{Trailer}
use skl_rs.Create.{Store, allocate_full_node, trailer_place}
use skl_rs.Node
use skl_rs.Node.{Node, full, node_size, node_align, link_size}
use skl_rs.Node.Allocator.{InUse, IsBlock-outside, IsAllocator, Allocation-cases}
use skl_rs.Node.Arena.{Arena}

key_size-full : (offset height : ℕ) → height < 2 ^ 5 → Node.key_size (full offset height) ≡ 0
unfolding full Node.key_size decode_key_size_and_height
key_size-full offset height low =
    ap (λ d. d.0) (decode-encode_key_size_and_height 0 height (omega arith) low)

module _ {ar : Arena} {T : Type 0} ⦃tr : Trailer T⦄ (laws : IsAllocator ar) (s : Store ar T)
    (height : ℕ) where
  -- A node of the full height, in a block of its own.
  pub record IsEnd (nd : ℕ) (a : ar.State) (nodes : ℕ → Option Node) : Type 0 where
    pub node : Node
    pub node_at : nodes nd ≡ some node
    pub no_key : Node.key_size node ≡ 0
    pub ne_null : nd ≢ 0
    pub fresh : (q : ℕ) → nd ≤ q → q < nd + (node_size + height * link_size) → ¬ laws.Used s.arena q
    pub used : InUse (laws.Used a) nd (node_size + height * link_size)
    pub keeps : (q : ℕ) → laws.Used s.arena q → laws.Used a q
    pub nodes_kept : (q : ℕ) → laws.Used s.arena q → nodes q ≡ s.memory.nodes q

  pub data FullNode : Run (Result ℕ ar.Error × Store ar T) → Type 0 where
    node_made :
        (nd : ℕ) (a : ar.State) (nodes : ℕ → Option Node)
        → IsEnd nd a nodes
        → FullNode (done (ok nd, record { arena = a; memory = record s.memory { nodes = nodes } }))
    node_refused : (e : ar.Error) (s' : Store ar T) → IsRefusal ar e → FullNode (done (err e, s'))

  pub allocate_full_node-FullNode :
      0 < tr.size_of → height < 2 ^ 5 → FullNode (allocate_full_node height s)
  unfolding allocate_full_node trailer_place
  allocate_full_node-FullNode sized low =
      let word : u32 (height * link_size) ≡ height * link_size = omega arith in
      let place : (tr.size_of == 0) ≡ false = ==_ne tr.size_of 0 (λ e. omega arith) in
      elim (Allocation-cases
        (ar.alloc_aligned_bytes node_size node_align (height * link_size) s.arena)) [
          | inl (e, x) ↦ rw (word, x) (node_refused e s (of_aligned_bytes _ _ _ _ x))
          | inr (nd, nc, s1, x) ↦
              let (b, _) =
                laws.aligned_bytes node_size node_align (height * link_size) nd nc s.arena s1 x in
              elim (Allocation-cases (ar.alloc tr.size_of tr.align_of s1)) [
                | inl (e, y) ↦ rw (word, x, place, y) (node_refused e _ (of_value _ _ _ y))
                | inr (to, tc, s2, y) ↦
                    let (c, _) = laws.value tr.size_of tr.align_of to tc s1 s2 y in
                    let at : u32 nd ≡ nd = omega (arith, b.ends) in
                    rw (word, x, place, y, at)
                      (node_made nd s2 _ (record {
                        node = full (u32 to) height;
                        node_at = rw (==_refl nd);
                        no_key = key_size-full (u32 to) height low;
                        ne_null = λ e. omega (arith, b.not_null (omega arith));
                        fresh = b.fresh;
                        used = λ q above below. c.keeps q (b.used q above below);
                        keeps = λ q u. c.keeps q (b.keeps q u);
                        nodes_kept = λ q u.
                            let away = IsBlock-outside nd _ nc b q u in
                            rw (==_ne q nd (λ e. omega (arith, away)));
                      }))
              ]
        ]
