-- ===== src/Alloc/Removed.antt =====
-- How the allocations of a node that stands for a removal (src/map.rs) end, as those of an entry do.
use skl_rs.Prelude.{
  ℕ, ◌+◌, ◌*◌, ◌^◌, ◌≤◌, ◌<◌, ◌≡◌, refl, ap, ◌∙◌, inl, inr, none, length, done, Result, ok, err,
  arith,
}
use mathlib.Core.Path.{ap₂, subst}
use skl_rs.Alloc.{
  releasing, write_key, write_node, write_trailer, put_bytes, with_bytes, fill_vacant_key,
}
use skl_rs.Alloc.Fill.{
  write_key-Fills, fill_vacant_key-Fills, get_bytes-put_bytes, put_bytes-elsewhere,
}
use skl_rs.Alloc.Made.{IsMade, made-IsKept, made-IsNew}
use skl_rs.Alloc.Nodes.{node_of, allocate_key_node, allocate_node}
use skl_rs.Alloc.Outcome.{Allocates, made, not_made}
use skl_rs.Alloc.Reason.{of_aligned_bytes, of_bytes, of_value, full, too_large}
use skl_rs.Capacity.{Error, check_node_size}
use skl_rs.Capacity.Bounds.{Checked, stored_size, check_node_size-Checked}
use skl_rs.Codec.{u32, remove_size}
use skl_rs.Comparator.{Bytes, Trailer}
use skl_rs.Map.{SkipMap}
use skl_rs.Node.{get_bytes, node_size, node_align, link_size}
use skl_rs.Node.Allocator.{
  InUse, IsBlock, IsBlock-outside, IsBlock-released, IsAllocator, Allocation-cases,
}
use skl_rs.Node.Arena.{Arena, block}
use skl_rs.Splice.{pointer}

module _ {ar : Arena} (laws : IsAllocator ar) (size align : ℕ) where
  -- A block for a trailer alone.
  trailer_block :
      (to tc : ℕ) (s s' : ar.State)
      → ar.alloc size align s ≡ block to tc s'
      → IsBlock (laws.Used s) (laws.Used s') to (size + 0) tc
        × (ar.get_aligned_pointer align to ≡ to)
  trailer_block to tc s s' e =
      let (b, aligned) = laws.value size align to tc s s' e in
      let whole : size ≡ size + 0 = omega arith in
      (subst (λ (n : ℕ). IsBlock (laws.Used s) (laws.Used s') to n tc) whole b, aligned)

module _ {ar : Arena} {T E : Type 0} ⦃tr : Trailer T⦄ (laws : IsAllocator ar) (m : SkipMap ar T)
    (height : ℕ) (key : Bytes) (t : T) (sized : 0 < tr.size_of) (low : height < 2 ^ 5)
    (positive : 1 ≤ height) (bounded : height ≤ m.opts.max_height)
    (short : length key < 2 ^ 27) where
  key_parts :
      check_node_size m height (length key) remove_size ≡ done (ok tt)
      → Allocates {E = E} laws m height key t none
          (allocate_key_node height t (length key) (write_key key) remove_size m)
  unfolding allocate_key_node releasing write_node write_trailer
  key_parts checks =
      elim (Allocation-cases
        (ar.alloc_aligned_bytes node_size node_align (height * link_size) m.arena)) [
          | inl (e, x) ↦
              rw (checks, x)
                (not_made (Error.arena e) m.arena (full e (of_aligned_bytes _ _ _ _ x)) (λ q u. u))
          | inr (nd, nc, s1, x) ↦
              let (node_block, _) =
                laws.aligned_bytes node_size node_align (height * link_size) nd nc m.arena s1 x in
              elim (Allocation-cases (ar.alloc_bytes (length key) s1)) [
                | inl (e, y) ↦
                    rw (checks, x, y)
                      (not_made (Error.arena e) (ar.release nd nc s1) (full e (of_bytes _ _ y))
                        (λ q u.
                          IsBlock-released laws m.arena s1 nd _ nc node_block s1 q u
                            (node_block.keeps q u)))
                | inr (ko, kc, s2, y) ↦
                    let key_block = laws.plain_bytes (length key) ko kc s1 s2 y in
                    elim (Allocation-cases (ar.alloc tr.size_of tr.align_of s2)) [
                      | inl (e, z) ↦
                          rw (checks, x, y, z)
                            (not_made (Error.arena e) (ar.release nd nc (ar.release ko kc s2))
                              (full e (of_value _ _ _ z))
                              (λ q u.
                                IsBlock-released laws m.arena s1 nd _ nc node_block
                                  (ar.release ko kc s2) q u
                                  (IsBlock-released laws s1 s2 ko _ kc key_block s2 q
                                    (node_block.keeps q u)
                                    (key_block.keeps q (node_block.keeps q u)))))
                      | inr (to, tc, s3, z) ↦
                          let (value_block, aligned) =
                            trailer_block laws tr.size_of tr.align_of to tc s2 s3 z in
                          let y' = y ∙ ap (λ c. block ko c s2) key_block.sized in
                          let filled = put_bytes m.memory.bytes ko key in
                          let is : IsMade laws m nd nc s1 s2 ko filled to tc s3 height key t none =
                            record {
                              sized = sized;
                              node_block = node_block;
                              between = key_block.keeps;
                              key_low = omega (arith, key_block.ends);
                              key_filled = get_bytes-put_bytes m.memory m.memory.bytes ko key;
                              key_owned = key_block.used;
                              rest_kept = λ q u.
                                  put_bytes-elsewhere m.memory.bytes ko key q
                                    (IsBlock-outside ko _ kc key_block q (node_block.keeps q u));
                              value_block = value_block;
                              aligned = aligned;
                              key_short = short;
                              low = low;
                              value_fits = tt;
                            } in
                          let key_word : u32 (length key) ≡ length key = omega arith in
                          let key_at : u32 ko ≡ ko = omega (arith, key_block.ends) in
                          let node_at : u32 nd ≡ nd = omega (arith, node_block.ends) in
                          let m' =
                            write_node (write_trailer (record m { arena = s3 }) to t) nd
                              (node_of to remove_size ko (length key) height) in
                          let key_fill : fill_vacant_key {E = E} (u32 (length key)) (u32 ko)
                                (write_key key) m'
                              ≡ done (
                                ok (u32 (length key), pointer ko (length key)),
                                with_bytes m' filled,
                              ) =
                            ap₂ (λ n at. fill_vacant_key n at (write_key key) m') key_word key_at
                            ∙ fill_vacant_key-Fills m' (write_key key) key (write_key-Fills key)
                                ko in
                          rw (checks, x, y', z, key_fill, node_at)
                            (made nd _ s3 _ _ _
                              (made-IsKept laws m nd nc s1 s2 ko filled to tc s3 height key t none
                                is)
                              (made-IsNew laws m nd nc s1 s2 ko filled to tc s3 height key t none
                                is))
                    ]
              ]
        ]

  module _ (ko : ℕ) (at_low : ko < 2 ^ 32) (stored : get_bytes m.memory ko (length key) ≡ key)
      (owned : InUse (laws.Used m.arena) ko (length key)) where
    node_parts :
        check_node_size m height (length key) remove_size ≡ done (ok tt)
        → Allocates {E = E} laws m height key t none
            (allocate_node height t ko (length key) remove_size m)
    unfolding allocate_node releasing write_node write_trailer get_bytes
    node_parts checks =
        elim (Allocation-cases
          (ar.alloc_aligned_bytes node_size node_align (height * link_size) m.arena)) [
            | inl (e, x) ↦
                rw (checks, x)
                  (not_made (Error.arena e) m.arena (full e (of_aligned_bytes _ _ _ _ x))
                    (λ q u. u))
            | inr (nd, nc, s1, x) ↦
                let (node_block, _) =
                  laws.aligned_bytes node_size node_align (height * link_size) nd nc m.arena s1 x in
                elim (Allocation-cases (ar.alloc tr.size_of tr.align_of s1)) [
                  | inl (e, z) ↦
                      rw (checks, x, z)
                        (not_made (Error.arena e) (ar.release nd nc s1) (full e (of_value _ _ _ z))
                          (λ q u.
                            IsBlock-released laws m.arena s1 nd _ nc node_block s1 q u
                              (node_block.keeps q u)))
                  | inr (to, tc, s3, z) ↦
                      let (value_block, aligned) =
                        trailer_block laws tr.size_of tr.align_of to tc s1 s3 z in
                      let is : IsMade laws m nd nc s1 s1 ko m.memory.bytes to tc s3 height key t
                          none =
                        record {
                          sized = sized;
                          node_block = node_block;
                          between = λ q u. u;
                          key_low = at_low;
                          key_filled = stored;
                          key_owned = λ q above below. node_block.keeps q (owned q above below);
                          rest_kept = λ q u. refl;
                          value_block = value_block;
                          aligned = aligned;
                          key_short = short;
                          low = low;
                          value_fits = tt;
                        } in
                      let node_at : u32 nd ≡ nd = omega (arith, node_block.ends) in
                      rw (checks, x, z, node_at)
                        (made nd _ s3 _ _ _
                          (made-IsKept laws m nd nc s1 s1 ko m.memory.bytes to tc s3 height key t
                            none is)
                          (made-IsNew laws m nd nc s1 s1 ko m.memory.bytes to tc s3 height key t
                            none is))
                ]
          ]

    node_after :
        (r : Result (Unit {0}) (Error ar.Error))
        → check_node_size m height (length key) remove_size ≡ done r
        → Checked m height (length key) (stored_size remove_size) r
        → Allocates {E = E} laws m height key t none
            (allocate_node height t ko (length key) remove_size m)
    unfolding allocate_node
    node_after (ok u) checks which = node_parts checks
    node_after (err e) checks which =
        rw checks (not_made e m.arena (too_large height e positive bounded which) (λ q u. u))

  key_after :
      (r : Result (Unit {0}) (Error ar.Error))
      → check_node_size m height (length key) remove_size ≡ done r
      → Checked m height (length key) (stored_size remove_size) r
      → Allocates {E = E} laws m height key t none
          (allocate_key_node height t (length key) (write_key key) remove_size m)
  unfolding allocate_key_node
  key_after (ok u) checks which = key_parts checks
  key_after (err e) checks which =
      rw checks (not_made e m.arena (too_large height e positive bounded which) (λ q u. u))

  module _ (levels : m.opts.max_height < 256) where
    pub allocate_key_node-Allocates :
        Allocates {E = E} laws m height key t none
          (allocate_key_node height t (length key) (write_key key) remove_size m)
    allocate_key_node-Allocates =
        let (r, checks, which) =
          check_node_size-Checked m height (length key) remove_size positive bounded levels in
        key_after r checks which

    pub allocate_node-Allocates :
        (ko : ℕ)
        → ko < 2 ^ 32
        → get_bytes m.memory ko (length key) ≡ key
        → InUse (laws.Used m.arena) ko (length key)
        → Allocates {E = E} laws m height key t none
            (allocate_node height t ko (length key) remove_size m)
    allocate_node-Allocates ko at_low stored owned =
        let (r, checks, which) =
          check_node_size-Checked m height (length key) remove_size positive bounded levels in
        node_after ko at_low stored owned r checks which
