-- ===== src/Capacity/Bounds.antt =====
-- What the checks before an allocation (src/map.rs) ask for.
use native.Mathlib.Nat.{div-add-mod', mod-lt}
use skl_rs.Prelude.{
  if◌then◌else◌, ℕ, ◌+◌, ◌-◌, ◌*◌, ◌^◌, ◌%◌, ◌≤◌, ◌<◌, ◌≡◌, refl, inl, inr, ltb, le→ltb, ltb→le,
  ltb→lt, Bool-cases, done, Result, ok, err, arith, List, length, ◌==◌,
}
use skl_rs.Codec.{u32, u32_max}
use skl_rs.Capacity.{
  Error, check_capacity, check_node_size, layout, Layout, align_up, trailer_end, node_end,
  arena_too_small, key_too_large, value_too_large, entry_too_large, meta_size,
}
use skl_rs.Comparator.{Trailer}
use skl_rs.Height.{random_height}
use skl_rs.Height.Laws.{random_height_lem}
use skl_rs.Map.{SkipMap}
use skl_rs.Node
use skl_rs.Node.{node_size, link_size}
use skl_rs.Node.Arena.{Arena}

-- The parts of an empty map lie one behind the other, each with room for a node and its tower.
pub record IsLayout (start max_height : ℕ) (trailer_size trailer_align : ℕ)
    (l : Layout trailer_size trailer_align max_height) : Type 0 where
  pub from : start ≤ l.meta_offset
  pub head_behind : l.meta_offset + meta_size ≤ l.head_offset
  pub tail_behind :
      l.head_offset + node_size + max_height * link_size + trailer_size ≤ l.tail_offset
  pub end_behind : l.tail_offset + node_size + max_height * link_size + trailer_size ≤ l.end
  pub head_aligned : l.head_offset % 8 ≡ 0
  pub tail_aligned : l.tail_offset % 8 ≡ 0

align_up-le : (alignment offset : ℕ) → 0 < alignment → offset ≤ align_up alignment offset
unfolding align_up
align_up-le alignment offset h =
    omega
      (arith, div-add-mod' (offset + alignment - 1) alignment, mod-lt (offset + alignment - 1) h)

align_up_8 : (offset : ℕ) → align_up 8 offset % 8 ≡ 0
unfolding align_up
align_up_8 offset = omega arith

trailer_end-le :
    (trailer_size trailer_align max_height at : ℕ)
    → 0 < trailer_align
    → at + trailer_size ≤ trailer_end trailer_size trailer_align max_height at
unfolding trailer_end
trailer_end-le trailer_size trailer_align max_height at h = elim (Bool-cases (trailer_size == 0)) [
  | inl none_stored ↦ rw none_stored (ground arith)
  | inr stored ↦ rw stored (omega (arith, align_up-le trailer_align at h))
]

layout-IsLayout :
    (trailer_size trailer_align max_height start : ℕ)
    → 0 < trailer_align
    → IsLayout start max_height trailer_size trailer_align
        (layout trailer_size trailer_align max_height start)
unfolding layout node_end
layout-IsLayout trailer_size trailer_align max_height start h =
    let l = layout trailer_size trailer_align max_height start in
    let head_end = l.head_offset + node_size + link_size * max_height in
    let tail_end = l.tail_offset + node_size + link_size * max_height in
    record {
      from = align_up-le 8 start (omega arith);
      head_behind = align_up-le 8 (l.meta_offset + meta_size) (omega arith);
      tail_behind = omega (
        arith,
        trailer_end-le trailer_size trailer_align max_height head_end h,
        align_up-le 8 (trailer_end trailer_size trailer_align max_height head_end) (omega arith),
      );
      end_behind = omega (arith, trailer_end-le trailer_size trailer_align max_height tail_end h);
      head_aligned = align_up_8 (l.meta_offset + meta_size);
      tail_aligned = align_up_8 (trailer_end trailer_size trailer_align max_height head_end);
    }

-- What the comparison with the capacity lets through is not cut by the cast to u32.
guard-ok :
    {E : Type 0} (capacity end result : ℕ) (error : E)
    → capacity < 2 ^ 32
    → (if ltb capacity end then err error else ok (u32 end)) ≡ ok result
    → (end ≡ result) × (result ≤ capacity)
guard-ok capacity end result error small e = elim (Bool-cases (ltb capacity end)) [
  | inl over ↦ ground arith
  | inr within ↦
      let exact : end % 2 ^ 32 ≡ end = omega (arith, ltb→le capacity end within) in
      let same : end ≡ result = ground arith in (same, omega (arith, ltb→le capacity end within))
]

-- Where `check_capacity` passes, in an arena whose capacity is a u32 and for a trailer of a positive
-- alignment, the parts of the empty map lie in the arena, one behind the other and the nodes
-- aligned, and the offset that it returns is behind all of them.
pub check_capacity-IsLayout :
    (ar : Arena) (T : Type 0) ⦃tr : Trailer T⦄ (a : ar.State) (max_height end : ℕ)
    → 0 < tr.align_of
    → ar.capacity a < 2 ^ 32
    → check_capacity ar T a max_height ≡ ok end
    → (l : Layout tr.size_of tr.align_of max_height) × IsLayout
        (ar.data_offset a)
        max_height
        tr.size_of
        tr.align_of
        l
      × (l.end ≡ end)
      × (end ≤ ar.capacity a)
unfolding check_capacity
check_capacity-IsLayout ar T ⦃tr = types⦄ a max_height end p small e =
    let l = layout types.size_of types.align_of max_height (ar.data_offset a) in
    let is = layout-IsLayout types.size_of types.align_of max_height (ar.data_offset a) p in
    let (ends, fits) = guard-ok (ar.capacity a) l.end end arena_too_small small e in
    (l, is, ends, fits)

-- The size that a value takes: none where it is the mark of a removal.
abbrev pub stored_size : ℕ → ℕ
stored_size value_size = if value_size == u32_max then 0 else value_size

-- What `check_node_size` says, by what is too large.
pub data Checked {ar : Arena} {T : Type 0} (m : SkipMap ar T) (height key value : ℕ)
    : Result (Unit {0}) (Error ar.Error) → Type 0 where
  passed :
      key ≤ m.opts.max_key_size
      → value ≤ m.opts.max_value_size
      → value + key + Node.size height ≤ u32_max
      → Checked m height key value (ok tt)
  key_refused : m.opts.max_key_size < key → Checked m height key value (err (key_too_large key))
  value_refused :
      m.opts.max_value_size < value → Checked m height key value (err (value_too_large value))
  entry_refused :
      u32_max < value + key + Node.size height
      → Checked m height key value (err (entry_too_large (value + key + Node.size height)))

pub check_node_size-Checked :
    {ar : Arena} {T : Type 0} (m : SkipMap ar T) (height key_size value_size : ℕ)
    → 1 ≤ height
    → height ≤ m.opts.max_height
    → m.opts.max_height < 256
    → (r : Result (Unit {0}) (Error ar.Error)) × (check_node_size m height key_size value_size
        ≡ done r)
      × Checked m height key_size (stored_size value_size) r
unfolding check_node_size
check_node_size-Checked m height key_size value_size low high small =
    let word : height % 256 ≡ height = omega arith in
    let entry = stored_size value_size + key_size + Node.size height in
    elim (Bool-cases (ltb m.opts.max_key_size key_size)) [
      | inl k ↦ (
        _,
        rw (word, le→ltb height 1 low, le→ltb m.opts.max_height height high, k) refl,
        key_refused (ltb→lt _ _ k),
      )
      | inr k ↦ elim (Bool-cases (ltb m.opts.max_value_size (stored_size value_size))) [
        | inl v ↦ (
          _,
          rw (word, le→ltb height 1 low, le→ltb m.opts.max_height height high, k, v) refl,
          value_refused (ltb→lt _ _ v),
        )
        | inr v ↦ elim (Bool-cases (ltb u32_max entry)) [
          | inl e ↦ (
            _,
            rw (word, le→ltb height 1 low, le→ltb m.opts.max_height height high, k, v, e) refl,
            entry_refused (ltb→lt _ _ e),
          )
          | inr e ↦ (
            _,
            rw (word, le→ltb height 1 low, le→ltb m.opts.max_height height high, k, v, e) refl,
            passed (ltb→le _ _ k) (ltb→le _ _ v) (ltb→le _ _ e),
          )
        ]
      ]
    ]

-- With a table that covers the heights allowed, and at least one and less than 256 levels allowed, a
-- random height passes the first test of `check_node_size`, which then does not panic: it lets the
-- entry through where key, value and entry are within their bounds, or names what is too large. A
-- removal counts as an empty value.
pub check_node_size-random_height :
    {ar : Arena} {T : Type 0} (m : SkipMap ar T) (table : List ℕ) (rnd key_size value_size : ℕ)
    → 1 ≤ m.opts.max_height
    → m.opts.max_height < 256
    → m.opts.max_height ≤ length table
    → (h : ℕ) × (r : Result (Unit {0}) (Error ar.Error)) × (random_height table rnd
          m.opts.max_height
        ≡ done h)
      × (check_node_size m h key_size value_size ≡ done r)
      × Checked m h key_size (stored_size value_size) r
check_node_size-random_height m table rnd key_size value_size positive small covered =
    let (h, runs, is) = random_height_lem table rnd m.opts.max_height covered in
    let (r, checks, which) =
      check_node_size-Checked m h key_size value_size is.from (is.bounded positive) small in
    (h, r, runs, checks, which)
