-- ===== src/Codec.antt =====
-- The packed words of a node (src/map.rs): value offset and size in a u64, key size and height in a
-- u32. A `u32` is a number below `2 ^ 32`; casts and shifts cut to their width.
pub mod RoundTrip
use Prim.Native.Nat.{bit_or, bit_and}
use skl_rs.Prelude.{ℕ, ◌+◌, ◌-◌, ◌*◌, ◌/◌, ◌%◌, ◌^◌, if◌then◌else◌, ltb, Run, done, panic}

-- `as u32`
abbrev pub u32 : ℕ → ℕ
u32 n = n % 2 ^ 32

-- `as u8`
abbrev pub u8 : ℕ → ℕ
u8 n = n % 2 ^ 8

-- The largest u32.
abbrev pub u32_max : ℕ
u32_max = 4294967295

-- The largest u64.
abbrev pub u64_max : ℕ
u64_max = 18446744073709551615

-- `+` on u32: overflow panics.
abbrev pub add_u32 : ℕ → ℕ → Run ℕ
add_u32 a b = if ltb u32_max (a + b) then panic else done (a + b)

-- `-` on u32: overflow panics.
abbrev pub sub_u32 : ℕ → ℕ → Run ℕ
sub_u32 a b = if ltb a b then panic else done (a - b)

-- The value size of a tombstone.
abbrev pub remove_size : ℕ
remove_size = u32_max

unfoldable pub encode_value_pointer : ℕ → ℕ → ℕ
encode_value_pointer offset val_size = bit_or (val_size * 2 ^ 32 % 2 ^ 64) offset

unfoldable pub decode_value_pointer : ℕ → ℕ × ℕ
decode_value_pointer value = (u32 value, u32 (value / 2 ^ 32))

unfoldable pub encode_key_size_and_height : ℕ → ℕ → ℕ
encode_key_size_and_height key_size height = bit_or (key_size * 2 ^ 5 % 2 ^ 32) height

unfoldable pub decode_key_size_and_height : ℕ → ℕ × ℕ
decode_key_size_and_height size = (size / 2 ^ 5, u8 (bit_and size 0b11111))
