-- ===== src/Buffer/Laws.antt =====
-- What the operations of a vacant buffer (src/types.rs) do to the bytes written so far.
use skl_rs.Prelude.{
  ℕ, ◌+◌, ◌-◌, ◌≤◌, ◌<◌, ◌≡◌, refl, ap, sym, ◌∙◌, inl, inr, [], ◌∷◌, ◌++◌, length, take, drop,
  replicate, ltb, le→ltb, Bool-cases, length-append, length-take, length-drop, take-append, Run,
  done, Result, ok, err, arith,
}
use mathlib.Core.List.{append-nil}
use skl_rs.Comparator.{Bytes}
use skl_rs.Buffer.{VacantBuffer, TooLarge, remaining, write, fill}

-- The buffer's slice has the buffer's capacity, and the length stays within it.
pub record IsValid (b : VacantBuffer) : Type 0 where
  pub sized : length b.value ≡ b.cap
  pub within : b.len ≤ b.cap

-- The first bytes after a copy: those before it, and the bytes copied.
take-copied :
    (at : ℕ) (value bytes : Bytes)
    → at + length bytes ≤ length value
    → take (at + length bytes) (take at value ++ bytes ++ drop (at + length bytes) value)
      ≡ take at value ++ bytes
take-copied at value bytes fits =
    let e : length (take at value ++ bytes) ≡ at + length bytes =
      omega (arith, length-append (take at value) bytes, length-take at value (omega arith)) in
    ap (λ n. take n (take at value ++ bytes ++ drop (at + length bytes) value)) (sym e)
    ∙ take-append (take at value ++ bytes) (drop (at + length bytes) value)

length-copied :
    (at : ℕ) (value bytes : Bytes)
    → at + length bytes ≤ length value
    → length (take at value ++ bytes ++ drop (at + length bytes) value) ≡ length value
length-copied at value bytes fits = omega (
  arith,
  length-append (take at value ++ bytes) (drop (at + length bytes) value),
  length-append (take at value) bytes,
  length-take at value (omega arith),
  length-drop (at + length bytes) value,
)

-- The two ways in which `write` may end.
pub data Written (b : VacantBuffer) (bytes : Bytes)
    : Run (Result (Unit {0}) TooLarge × VacantBuffer) → Type 0 where
  fits :
      (b' : VacantBuffer)
      → IsValid b'
      → b.len + length bytes ≤ b.cap
      → b'.len ≡ b.len + length bytes
      → (b'.cap ≡ b.cap) × (b'.offset ≡ b.offset)
      → take b'.len b'.value ≡ take b.len b.value ++ bytes
      → Written b bytes (done (ok tt, b'))
  refused :
      b.cap < b.len + length bytes
      → Written b bytes (done (err (record { remaining = b.cap - b.len; write = length bytes }), b))

-- On a valid buffer, `write` appends the bytes to those written so far and keeps the buffer valid
-- where they fit in the remaining space; otherwise it reports the remaining space and the wanted
-- length, and changes nothing. It never panics.
pub write-Written : (b : VacantBuffer) (bytes : Bytes) → IsValid b → Written b bytes (write b bytes)
unfolding write
write-Written b bytes v =
    rw (le→ltb b.cap b.len v.within) (elim (Bool-cases (ltb (b.cap - b.len) (length bytes))) [
      | inl short ↦ rw short (refused (ground arith))
      | inr room ↦
          let ends : b.len + length bytes ≤ b.cap = ground arith in
          rw (room, le→ltb (length b.value) (b.len + length bytes) (omega arith))
            (fits
              (record b {
                value = take b.len b.value ++ bytes ++ drop (b.len + length bytes) b.value;
                len = b.len + length bytes;
              })
              (record {
                sized = omega (arith, length-copied b.len b.value bytes (omega arith));
                within = ends;
              })
              ends refl (refl, refl) (take-copied b.len b.value bytes (omega arith)))
    ])

take_self : (xs : Bytes) → take (length xs) xs ≡ xs
take_self [] = refl
take_self (x ∷ xs) = rw (take_self xs)

take-fill_nothing :
    (xs : Bytes) (n byte : ℕ) → length xs ≡ n → take n xs ++ replicate (length xs - n) byte ≡ xs
take-fill_nothing xs n byte e =
    let none_left : length xs - n ≡ 0 = omega arith in
    rw (none_left, ← e, take_self, append-nil) refl

-- On a valid buffer, `fill` announces the whole capacity as written, whatever was written before, and
-- changes no byte: it moves the length first, and fills what lies behind it.
pub fill_unchanged :
    (b : VacantBuffer) (byte : ℕ) → IsValid b → fill b byte ≡ done (record b { len = b.cap })
unfolding fill
fill_unchanged b byte v = rw (le→ltb (length b.value) b.cap (omega (arith, v.sized))) (
    ap (λ x. done (record b { value = x; len = b.cap }))
      (take-fill_nothing b.value b.cap byte v.sized))

drop_self : (xs : Bytes) → drop (length xs) xs ≡ []
drop_self [] = refl
drop_self (x ∷ xs) = drop_self xs

-- A write that fills a new buffer.
pub write-new :
    (offset : ℕ) (old bytes : Bytes)
    → length old ≡ length bytes
    → write (record { value = old; len = 0; cap = length bytes; offset = offset }) bytes
      ≡ done
          (ok tt, record { value = bytes; len = length bytes; cap = length bytes; offset = offset })
unfolding write remaining
write-new offset old bytes e =
    let plus : 0 + length bytes ≡ length bytes = omega arith in
    rw
      (
        plus,
        le→ltb (length bytes) 0 (omega arith),
        le→ltb (length bytes - 0) (length bytes) (omega arith),
        le→ltb (length old) (length bytes) (omega arith),
      )
      (ap
        (λ rest.
          done (
            ok tt,
            record { value = rest; len = length bytes; cap = length bytes; offset = offset },
          ))
        (ap (λ rest. bytes ++ rest) (ap (λ n. drop n old) (sym e) ∙ drop_self old)
          ∙ append-nil bytes))
