-- ===== src/Buffer.antt =====
-- The vacant buffer that a caller fills with a key or a value (src/types.rs). Slicing out of range
-- and `cap - len` below zero panic.
pub mod Laws
use skl_rs.Prelude.{
  ℕ, ◌+◌, ◌-◌, Bool, ◌++◌, if◌then◌else◌, ltb, ◌==◌, length, take, drop, replicate, Run, done,
  panic, ◌>>=◌, Result, ok, err,
}
use skl_rs.Comparator.{Bytes}

pub record TooLarge : Type 0 where
  pub remaining : ℕ
  pub write : ℕ

-- `value` is the slice of the arena that the buffer stands for.
pub record VacantBuffer : Type 0 where
  pub value : Bytes
  pub len : ℕ
  pub cap : ℕ
  pub offset : ℕ

unfoldable pub new : ℕ → ℕ → Bytes → VacantBuffer
new cap offset value = record { value = value; len = 0; cap = cap; offset = offset }

-- `value[at..at + bytes.len()].copy_from_slice(bytes)`
copy_from_slice : Bytes → ℕ → Bytes → Run Bytes
copy_from_slice value at bytes =
    if ltb (length value) (at + length bytes)
    then panic
    else done (take at value ++ bytes ++ drop (at + length bytes) value)

-- `value[at..].fill(byte)`
fill_from : Bytes → ℕ → ℕ → Run Bytes
fill_from value at byte =
    if ltb (length value) at
    then panic
    else done (take at value ++ replicate (length value - at) byte)

unfoldable pub fill : VacantBuffer → ℕ → Run VacantBuffer
unfolding fill_from
fill b byte = do
  let b' = record b { len = b.cap }
  value ← fill_from b'.value b'.len byte
  done (record b' { value = value })

unfoldable pub write_unchecked : VacantBuffer → Bytes → Run VacantBuffer
unfolding copy_from_slice
write_unchecked b bytes = do
  value ← copy_from_slice b.value b.len bytes
  done (record b { value = value; len = b.len + length bytes })

unfoldable pub remaining : VacantBuffer → Run ℕ
remaining b = if ltb b.cap b.len then panic else done (b.cap - b.len)

unfoldable pub write : VacantBuffer → Bytes → Run (Result (Unit {0}) TooLarge × VacantBuffer)
unfolding copy_from_slice remaining
write b bytes = do
  let len = length bytes
  rest ← remaining b
  if ltb rest len then done (err (record { remaining = rest; write = len }), b) else do
    value ← copy_from_slice b.value b.len bytes
    done (ok tt, record b { value = value; len = b.len + len })

unfoldable pub is_empty : VacantBuffer → Bool
is_empty b = b.len == 0

-- `Deref`, `AsRef`: the bytes written so far.
unfoldable pub as_ref : VacantBuffer → Run Bytes
as_ref b = if ltb (length b.value) b.len then panic else done (take b.len b.value)
