-- ===== src/Codec/RoundTrip.antt =====
-- Packing and unpacking the words of a node (`encode_*` and `decode_*` of src/map.rs).
use Prim.Native.Nat.{bit_or, bit_and, digits, bit_and-bitwise, bit_or-bitwise, min, max}
use mathlib.Core.Path.{ap₂}
use native.Mathlib.Nat.{pow-suc}
use skl_rs.Prelude.{ℕ, zero, suc, ◌+◌, ◌*◌, ◌/◌, ◌%◌, ◌^◌, ◌≤◌, ◌<◌, ◌≡◌, refl, ap, arith}
use skl_rs.Codec.{
  encode_value_pointer, decode_value_pointer, encode_key_size_and_height,
  decode_key_size_and_height,
}

mul-two_pow : (q k : ℕ) → q * 2 ^ suc k ≡ 2 * (q * 2 ^ k)
mul-two_pow q k = omega (arith, ap (λ (t : ℕ). q * t) (pow-suc 2 k))

-- The digits of a multiple of `2 ^ k` and of a number below it do not meet.
or_digits-add :
    (fuel k q high low : ℕ)
    → high ≤ fuel
    → high ≡ q * 2 ^ k
    → low < 2 ^ k
    → digits (λ y. y) max fuel high low ≡ high + low
or_digits-add zero k q zero low enough e fits = omega arith
or_digits-add zero k q (suc high) low enough e fits = absurd (omega arith)
or_digits-add (suc fuel) k q zero low enough e fits = omega arith
or_digits-add (suc fuel) zero q (suc high) low enough e fits = omega (
  arith,
  or_digits-add fuel zero (suc high / 2) (suc high / 2) (low / 2) (omega arith) (omega arith)
      (omega arith),
)
or_digits-add (suc fuel) (suc k) q (suc high) low enough e fits = omega (
  arith,
  mul-two_pow q k,
  or_digits-add fuel k q (suc high / 2) (low / 2) (omega arith) (omega (arith, mul-two_pow q k))
      (omega (arith, pow-suc 2 k)),
)

-- A mask of `k` ones keeps what is below `2 ^ k`.
and_digits-low :
    (fuel k mask q low word : ℕ)
    → word ≤ fuel
    → mask + 1 ≡ 2 ^ k
    → word ≡ q * 2 ^ k + low
    → low < 2 ^ k
    → digits (λ y. 0) min fuel word mask ≡ low
and_digits-low zero k mask q low zero enough ones e fits = omega arith
and_digits-low zero k mask q low (suc word) enough ones e fits = absurd (omega arith)
and_digits-low (suc fuel) k mask q low zero enough ones e fits = omega arith
and_digits-low (suc fuel) zero mask q low (suc word) enough ones e fits = omega (
  arith,
  and_digits-low fuel zero (mask / 2) (suc word / 2) (low / 2) (suc word / 2) (omega arith)
      (omega arith) (omega arith) (omega arith),
)
and_digits-low (suc fuel) (suc k) mask q low (suc word) enough ones e fits = omega (
  arith,
  mul-two_pow q k,
  pow-suc 2 k,
  and_digits-low fuel k (mask / 2) q (low / 2) (suc word / 2) (omega arith)
      (omega (arith, pow-suc 2 k)) (omega (arith, mul-two_pow q k)) (omega (arith, pow-suc 2 k)),
)

-- `(q << k) | r` is a sum where `r` fits in `k` bits.
bit_or_fields : (k q r : ℕ) → r < 2 ^ k → bit_or (q * 2 ^ k) r ≡ q * 2 ^ k + r
bit_or_fields k q r fits =
    simp bit_or-bitwise (or_digits-add (q * 2 ^ k) k q (q * 2 ^ k) r (omega arith) refl fits)

bit_and_low5 : (a : ℕ) → bit_and a 31 ≡ a % 32
bit_and_low5 a =
    simp bit_and-bitwise
      (and_digits-low a 5 31 (a / 32) (a % 32) a (omega arith) refl (omega arith) (omega arith))

value_word :
    (offset size : ℕ)
    → offset < 2 ^ 32
    → size < 2 ^ 32
    → encode_value_pointer offset size ≡ size * 2 ^ 32 + offset
unfolding encode_value_pointer
value_word offset size o s =
    let e : size * 2 ^ 32 % 2 ^ 64 ≡ size * 2 ^ 32 = omega arith in
    rw e (bit_or_fields 32 size offset o)

-- Decoding an encoded value pointer gives the offset and the size back, for every pair of u32.
pub decode-encode_value_pointer :
    (offset size : ℕ)
    → offset < 2 ^ 32
    → size < 2 ^ 32
    → decode_value_pointer (encode_value_pointer offset size) ≡ (offset, size)
unfolding decode_value_pointer
decode-encode_value_pointer offset size o s =
    rw (value_word offset size o s) (ap₂ (λ a b. (a, b)) (omega arith) (omega arith))

-- Decoding an encoded key size and height gives both back, for a key size of 27 bits and a height
-- of 5 bits.
pub decode-encode_key_size_and_height :
    (size height : ℕ)
    → size < 2 ^ 27
    → height < 2 ^ 5
    → decode_key_size_and_height (encode_key_size_and_height size height) ≡ (size, height)
unfolding decode_key_size_and_height encode_key_size_and_height
decode-encode_key_size_and_height size height s h =
    let e : size * 2 ^ 5 % 2 ^ 32 ≡ size * 2 ^ 5 = omega arith in
    rw (e, bit_or_fields 5 size height h, bit_and_low5)
      (ap₂ (λ a b. (a, b)) (omega arith) (omega arith))
