-- ===== src/Attempt.antt =====
-- Operations that change a state and may fail (`Result` with `?` in the source): what was changed
-- before an error stays changed.
use skl_rs.Prelude.{Run, done, fault, panic, out_of_fuel, Result, ok, err}

-- The crate either: here an error of the caller's closure, or one of the map.
pub data Either (A B : Type 0) : Type 0 where
  left : A → Either A B
  right : B → Either A B

abbrev pub Attempt : (S F A : Type 0) → Type 0
Attempt S F A = S → Run (Result A F × S)

module _ {S F : Type 0} where
  abbrev pub pure : {A : Type 0} → A → Attempt S F A
  pure a s = done (ok a, s)

  abbrev pub fail : {A : Type 0} → F → Attempt S F A
  fail e s = done (err e, s)

  -- What follows a result.
  abbrev pub continue :
      {A B : Type 0} → (A → Attempt S F B) → Run (Result A F × S) → Run (Result B F × S)
  continue f (done (ok a, s)) = f a s
  continue f (done (err e, s)) = done (err e, s)
  continue f fault = fault
  continue f panic = panic
  continue f out_of_fuel = out_of_fuel

  infixl 5 ◌>>=◌
  abbrev pub ◌>>=◌ : {A B : Type 0} → Attempt S F A → (A → Attempt S F B) → Attempt S F B
  (r >>= f) s = continue f (r s)

  -- A read of the state.
  abbrev pub read_as : {A : Type 0} → Run A → S → Run (Result A F × S)
  read_as (done a) s = done (ok a, s)
  read_as fault s = fault
  read_as panic s = panic
  read_as out_of_fuel s = out_of_fuel

  abbrev pub reading : {A : Type 0} → (S → Run A) → Attempt S F A
  reading r s = read_as (r s) s

  abbrev pub lift : {A : Type 0} → Run A → Attempt S F A
  lift r = reading (λ s. r)

  abbrev pub modify : (S → S) → Attempt S F (Unit {0})
  modify f s = done (ok tt, f s)

  -- Undo a part where the rest fails.
  abbrev pub undo_with : {A : Type 0} → (S → S) → Run (Result A F × S) → Run (Result A F × S)
  undo_with undo (done (ok a, s)) = done (ok a, s)
  undo_with undo (done (err e, s)) = done (err e, undo s)
  undo_with undo fault = fault
  undo_with undo panic = panic
  undo_with undo out_of_fuel = out_of_fuel

  abbrev pub or_undo : {A : Type 0} → (S → S) → Attempt S F A → Attempt S F A
  or_undo undo r s = undo_with undo (r s)
