-- ===== src/Alloc/Outcome.antt =====
-- How the allocations of a node (src/map.rs) end: with a new node beside all that was in use, or
-- with an error that leaves the map's memory as it was.
use skl_rs.Prelude.{
  ℕ, ◌+◌, ◌*◌, ◌^◌, ◌≤◌, ◌<◌, ◌≡◌, refl, ap, ◌∙◌, inl, inr, Option, some, length, Run, done, Result,
  ok, err, arith,
}
use mathlib.Core.Path.{ap₂}
use skl_rs.Alloc.{
  Filler, releasing, write_key, write_node, write_trailer, put_bytes, with_bytes, fill_vacant_key,
  fill_vacant_value,
}
use skl_rs.Alloc.Fill.{
  Fills, write_key-Fills, fill_vacant_key-Fills, fill_vacant_value-Fills, get_bytes-put_bytes,
  put_bytes-elsewhere,
}
use skl_rs.Alloc.Made.{IsNew, IsMade, made-IsKept, made-IsNew, Fits}
use skl_rs.Alloc.Nodes.{node_of, allocate_entry_node, allocate_value_node}
use skl_rs.Alloc.Owned.{IsKept, renewed}
use skl_rs.Alloc.Reason.{IsReason, of_aligned_bytes, of_bytes, full, too_large}
use skl_rs.Attempt.{Either, right}
use skl_rs.Capacity.{Error, check_node_size}
use skl_rs.Capacity.Bounds.{Checked, stored_size, check_node_size-Checked}
use skl_rs.Codec.{u32}
use skl_rs.Comparator.{Bytes, Trailer}
use skl_rs.Link.{Deallocator}
use skl_rs.Map.{SkipMap}
use skl_rs.Node.{Node, get_bytes, node_size, node_align, link_size}
use skl_rs.Node.Allocator.{InUse, IsBlock-outside, IsBlock-released, IsAllocator, Allocation-cases}
use skl_rs.Node.Arena.{Arena, block}
use skl_rs.Splice.{pointer}

module _ {ar : Arena} {T E : Type 0} ⦃tr : Trailer T⦄ (laws : IsAllocator ar) (m : SkipMap ar T)
    (height : ℕ) (key : Bytes) (t : T) (v : Option Bytes) where
  pub data Allocates
      : Run (Result (ℕ × Deallocator) (Either E (Error ar.Error)) × SkipMap ar T) → Type 0 where
    made :
        (nd : ℕ) (d : Deallocator) (a : ar.State) (nodes : ℕ → Option Node)
        (trailers : ℕ → Option T) (bytes : ℕ → ℕ)
        → IsKept laws m a nodes trailers bytes
        → IsNew laws m a nodes trailers bytes nd height key t v
        → Allocates (done (ok (nd, d), renewed laws m a nodes trailers bytes m.meta.height))
    not_made :
        (e : Error ar.Error) (a : ar.State)
        → IsReason m key v e
        → ((q : ℕ) → laws.Used m.arena q → laws.Used a q)
        → Allocates (done (err (right e), record m { arena = a }))

module _ {ar : Arena} {T E : Type 0} ⦃tr : Trailer T⦄ (laws : IsAllocator ar) (m : SkipMap ar T)
    (height : ℕ) (key : Bytes) (t : T) (v : Bytes) (f : Filler E) (fills : Fills f v)
    (sized : 0 < tr.size_of) (low : height < 2 ^ 5) (positive : 1 ≤ height)
    (bounded : height ≤ m.opts.max_height) (short : length key < 2 ^ 27)
    (fits : Fits (some v)) where
  entry_parts :
      check_node_size m height (length key) (length v) ≡ done (ok tt)
      → Allocates laws m height key t
          (some v)
          (allocate_entry_node height t (length key) (write_key key) (length v) f m)
  unfolding allocate_entry_node releasing write_node write_trailer
  entry_parts checks =
      elim (Allocation-cases
        (ar.alloc_aligned_bytes node_size node_align (height * link_size) m.arena)) [
          | inl (e, x) ↦
              rw (checks, x)
                (not_made (Error.arena e) m.arena (full e (of_aligned_bytes _ _ _ _ x)) (λ q u. u))
          | inr (nd, nc, s1, x) ↦
              let (node_block, _) =
                laws.aligned_bytes node_size node_align (height * link_size) nd nc m.arena s1 x in
              elim (Allocation-cases (ar.alloc_bytes (length key) s1)) [
                | inl (e, y) ↦
                    rw (checks, x, y)
                      (not_made (Error.arena e) (ar.release nd nc s1) (full e (of_bytes _ _ y))
                        (λ q u.
                          IsBlock-released laws m.arena s1 nd _ nc node_block s1 q u
                            (node_block.keeps q u)))
                | inr (ko, kc, s2, y) ↦
                    let key_block = laws.plain_bytes (length key) ko kc s1 s2 y in
                    elim (Allocation-cases
                      (ar.alloc_aligned_bytes tr.size_of tr.align_of (length v) s2)) [
                        | inl (e, z) ↦
                            rw (checks, x, y, z)
                              (not_made (Error.arena e) (ar.release nd nc (ar.release ko kc s2))
                                (full e (of_aligned_bytes _ _ _ _ z))
                                (λ q u.
                                  IsBlock-released laws m.arena s1 nd _ nc node_block
                                    (ar.release ko kc s2) q u
                                    (IsBlock-released laws s1 s2 ko _ kc key_block s2 q
                                      (node_block.keeps q u)
                                      (key_block.keeps q (node_block.keeps q u)))))
                        | inr (to, tc, s3, z) ↦
                            let (value_block, aligned) =
                              laws.aligned_bytes tr.size_of tr.align_of (length v) to tc s2 s3 z in
                            let y' = y ∙ ap (λ c. block ko c s2) key_block.sized in
                            let filled = put_bytes m.memory.bytes ko key in
                            let is : IsMade laws m nd nc s1 s2 ko filled to tc s3 height key t
                                (some v) =
                              record {
                                sized = sized;
                                node_block = node_block;
                                between = key_block.keeps;
                                key_low = omega (arith, key_block.ends);
                                key_filled = get_bytes-put_bytes m.memory m.memory.bytes ko key;
                                key_owned = key_block.used;
                                rest_kept = λ q u.
                                    put_bytes-elsewhere m.memory.bytes ko key q
                                      (IsBlock-outside ko _ kc key_block q (node_block.keeps q u));
                                value_block = value_block;
                                aligned = aligned;
                                key_short = short;
                                low = low;
                                value_fits = fits;
                              } in
                            let key_word : u32 (length key) ≡ length key = omega arith in
                            let key_at : u32 ko ≡ ko = omega (arith, key_block.ends) in
                            let node_at : u32 nd ≡ nd = omega (arith, node_block.ends) in
                            let value_at : u32 (to + tr.size_of) ≡ to + tr.size_of =
                              omega (arith, value_block.ends) in
                            let m' =
                              write_node (write_trailer (record m { arena = s3 }) to t) nd
                                (node_of to (length v) ko (length key) height) in
                            let key_fill : fill_vacant_key {E = E} (u32 (length key)) (u32 ko)
                                  (write_key key) m'
                                ≡ done (
                                  ok (u32 (length key), pointer ko (length key)),
                                  with_bytes m' filled,
                                ) =
                              ap₂ (λ n at. fill_vacant_key n at (write_key key) m') key_word key_at
                              ∙ fill_vacant_key-Fills m' (write_key key) key (write_key-Fills key)
                                  ko in
                            let value_fill =
                              ap
                                (λ at.
                                  fill_vacant_value (u32 to) (u32 tc) (length v) at f
                                    (with_bytes m' filled))
                                value_at
                              ∙ fill_vacant_value-Fills (with_bytes m' filled) f v fills (u32 to)
                                  (u32 tc) (to + tr.size_of) in
                            rw (checks, x, y', z, key_fill, value_fill, node_at)
                              (made nd _ s3 _ _ _
                                (made-IsKept laws m nd nc s1 s2 ko filled to tc s3 height key t
                                  (some v) is)
                                (made-IsNew laws m nd nc s1 s2 ko filled to tc s3 height key t
                                  (some v) is))
                      ]
              ]
        ]

  module _ (ko : ℕ) (at_low : ko < 2 ^ 32) (stored : get_bytes m.memory ko (length key) ≡ key)
      (owned : InUse (laws.Used m.arena) ko (length key)) where
    value_parts :
        check_node_size m height (length key) (length v) ≡ done (ok tt)
        → Allocates laws m height key t
            (some v)
            (allocate_value_node height t (length key) ko (length v) f m)
    unfolding allocate_value_node releasing write_node write_trailer get_bytes
    value_parts checks =
        elim (Allocation-cases
          (ar.alloc_aligned_bytes node_size node_align (height * link_size) m.arena)) [
            | inl (e, x) ↦
                rw (checks, x)
                  (not_made (Error.arena e) m.arena (full e (of_aligned_bytes _ _ _ _ x))
                    (λ q u. u))
            | inr (nd, nc, s1, x) ↦
                let (node_block, _) =
                  laws.aligned_bytes node_size node_align (height * link_size) nd nc m.arena s1 x in
                elim (Allocation-cases
                  (ar.alloc_aligned_bytes tr.size_of tr.align_of (length v) s1)) [
                    | inl (e, z) ↦
                        rw (checks, x, z)
                          (not_made (Error.arena e) (ar.release nd nc s1)
                            (full e (of_aligned_bytes _ _ _ _ z))
                            (λ q u.
                              IsBlock-released laws m.arena s1 nd _ nc node_block s1 q u
                                (node_block.keeps q u)))
                    | inr (to, tc, s3, z) ↦
                        let (value_block, aligned) =
                          laws.aligned_bytes tr.size_of tr.align_of (length v) to tc s1 s3 z in
                        let is : IsMade laws m nd nc s1 s1 ko m.memory.bytes to tc s3 height key t
                            (some v) =
                          record {
                            sized = sized;
                            node_block = node_block;
                            between = λ q u. u;
                            key_low = at_low;
                            key_filled = stored;
                            key_owned = λ q above below. node_block.keeps q (owned q above below);
                            rest_kept = λ q u. refl;
                            value_block = value_block;
                            aligned = aligned;
                            key_short = short;
                            low = low;
                            value_fits = fits;
                          } in
                        let node_at : u32 nd ≡ nd = omega (arith, node_block.ends) in
                        let value_at : u32 (to + tr.size_of) ≡ to + tr.size_of =
                          omega (arith, value_block.ends) in
                        let m' =
                          write_node (write_trailer (record m { arena = s3 }) to t) nd
                            (node_of to (length v) ko (length key) height) in
                        let value_fill =
                          ap (λ at. fill_vacant_value (u32 to) (u32 tc) (length v) at f m') value_at
                          ∙ fill_vacant_value-Fills m' f v fills (u32 to) (u32 tc)
                              (to + tr.size_of) in
                        rw (checks, x, z, value_fill, node_at)
                          (made nd _ s3 _ _ _
                            (made-IsKept laws m nd nc s1 s1 ko m.memory.bytes to tc s3 height key t
                              (some v) is)
                            (made-IsNew laws m nd nc s1 s1 ko m.memory.bytes to tc s3 height key t
                              (some v) is))
                  ]
          ]

    value_after :
        (r : Result (Unit {0}) (Error ar.Error))
        → check_node_size m height (length key) (length v) ≡ done r
        → Checked m height (length key) (stored_size (length v)) r
        → Allocates laws m height key t
            (some v)
            (allocate_value_node height t (length key) ko (length v) f m)
    unfolding allocate_value_node
    value_after (ok u) checks which = value_parts checks
    value_after (err e) checks which =
        rw checks (not_made e m.arena (too_large height e positive bounded which) (λ q u. u))

  entry_after :
      (r : Result (Unit {0}) (Error ar.Error))
      → check_node_size m height (length key) (length v) ≡ done r
      → Checked m height (length key) (stored_size (length v)) r
      → Allocates laws m height key t
          (some v)
          (allocate_entry_node height t (length key) (write_key key) (length v) f m)
  unfolding allocate_entry_node
  entry_after (ok u) checks which = entry_parts checks
  entry_after (err e) checks which =
      rw checks (not_made e m.arena (too_large height e positive bounded which) (λ q u. u))

  module _ (levels : m.opts.max_height < 256) where
    pub allocate_entry_node-Allocates :
        Allocates laws m height key t
          (some v)
          (allocate_entry_node height t (length key) (write_key key) (length v) f m)
    allocate_entry_node-Allocates =
        let (r, checks, which) =
          check_node_size-Checked m height (length key) (length v) positive bounded levels in
        entry_after r checks which

    pub allocate_value_node-Allocates :
        (ko : ℕ)
        → ko < 2 ^ 32
        → get_bytes m.memory ko (length key) ≡ key
        → InUse (laws.Used m.arena) ko (length key)
        → Allocates laws m height key t
            (some v)
            (allocate_value_node height t (length key) ko (length v) f m)
    allocate_value_node-Allocates ko at_low stored owned =
        let (r, checks, which) =
          check_node_size-Checked m height (length key) (length v) positive bounded levels in
        value_after ko at_low stored owned r checks which
