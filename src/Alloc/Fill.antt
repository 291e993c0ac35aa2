-- ===== src/Alloc/Fill.antt =====
-- Closures that fill their slice of the arena (src/map.rs): what is in memory then.
use skl_rs.Prelude.{
  ℕ, zero, suc, ◌+◌, ◌-◌, ◌≤◌, ◌<◌, ◌≡◌, refl, ◌∙◌, ◌⊎◌, inl, [], ◌∷◌, length, done, ok, arith,
  ==_ne, ==_refl, le→ltb, ap,
}
use mathlib.Core.Path.{ap₂}
use skl_rs.Alloc.{
  Filler, write_key, copy, put_bytes, with_bytes, fill_slice, fill_vacant_key, fill_vacant_value,
  give_back_rest,
}
use skl_rs.Buffer
use skl_rs.Buffer.Laws.{write-new}
use skl_rs.Codec.{u32}
use skl_rs.Comparator.{Bytes}
use skl_rs.Link.{update}
use skl_rs.Map.{SkipMap}
use skl_rs.Node.{Memory, get_bytes}
use skl_rs.Node.Arena.{Arena}
use skl_rs.Splice.{pointer}

pub put_bytes-elsewhere :
    (f : ℕ → ℕ) (offset : ℕ) (bs : Bytes) (q : ℕ)
    → (q < offset) ⊎ (offset + length bs ≤ q)
    → put_bytes f offset bs q ≡ f q
unfolding put_bytes
put_bytes-elsewhere f offset [] q away = refl
put_bytes-elsewhere f offset (b ∷ bs) q away =
    put_bytes-elsewhere (update f offset b) (offset + 1) bs q (ground arith)
    ∙ rw (==_ne q offset (λ e. ground arith))

pub length-get_bytes :
    {T : Type 0} (m : Memory T) (offset len : ℕ) → length (get_bytes m offset len) ≡ len
unfolding get_bytes
length-get_bytes m offset zero = refl
length-get_bytes m offset (suc len) = ap suc (length-get_bytes m (offset + 1) len)

-- Bytes that were put are read back.
pub get_bytes-put_bytes :
    {T : Type 0} (m : Memory T) (f : ℕ → ℕ) (offset : ℕ) (bs : Bytes)
    → get_bytes (record m { bytes = put_bytes f offset bs }) offset (length bs) ≡ bs
unfolding get_bytes put_bytes
get_bytes-put_bytes m f offset [] = refl
get_bytes-put_bytes m f offset (b ∷ bs) =
    ap₂ (λ x xs. x ∷ xs)
      (put_bytes-elsewhere (update f offset b) (offset + 1) bs offset (inl (omega arith))
        ∙ rw (==_refl offset))
      (get_bytes-put_bytes m (update f offset b) (offset + 1) bs)

module _ {E : Type 0} where
  -- A closure that fills a buffer of its size with bytes.
  abbrev pub Fills : Filler E → Bytes → Type 0
  Fills f v =
      (offset : ℕ) (old : Bytes)
      → length old ≡ length v
      → f (Buffer.new (length v) offset old)
        ≡ done (ok tt, record { value = v; len = length v; cap = length v; offset = offset })

  pub write_key-Fills : (v : Bytes) → Fills (write_key v) v
  unfolding write_key Buffer.new
  write_key-Fills v offset old e = rw (write-new offset old v e)

  pub copy-Fills : (v : Bytes) → Fills (copy v) v
  unfolding copy Buffer.new
  copy-Fills v offset old e = rw (write-new offset old v e)

module _ {ar : Arena} {T E : Type 0} (m : SkipMap ar T) (f : Filler E) (v : Bytes)
    (fills : Fills f v) where
  pub fill_slice-Fills :
      (offset : ℕ)
      → fill_slice (length v) offset f m
        ≡ done (
          ok (ok tt, record { value = v; len = length v; cap = length v; offset = offset }),
          with_bytes m (put_bytes m.memory.bytes offset v),
        )
  unfolding fill_slice
  fill_slice-Fills offset = rw (
      fills offset (get_bytes m.memory offset (length v))
        (length-get_bytes m.memory offset (length v)))

  pub fill_vacant_key-Fills :
      (offset : ℕ)
      → fill_vacant_key (length v) offset f m
        ≡ done (
          ok (u32 (length v), pointer offset (length v)),
          with_bytes m (put_bytes m.memory.bytes offset v),
        )
  unfolding fill_vacant_key give_back_rest
  fill_vacant_key-Fills offset =
      let nothing : length v - length v ≡ 0 = omega arith in
      rw (fill_slice-Fills offset, le→ltb (length v) (length v) (omega arith), nothing)

  pub fill_vacant_value-Fills :
      (offset size value_offset : ℕ)
      → fill_vacant_value offset size (length v) value_offset f m
        ≡ done (
          ok (u32 (length v), pointer offset size),
          with_bytes m (put_bytes m.memory.bytes value_offset v),
        )
  unfolding fill_vacant_value give_back_rest
  fill_vacant_value-Fills offset size value_offset =
      let nothing : length v - length v ≡ 0 = omega arith in
      rw (fill_slice-Fills value_offset, le→ltb (length v) (length v) (omega arith), nothing)
