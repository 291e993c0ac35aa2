-- ===== src/Api.antt =====
-- The public operations (src/map/api.rs) that are made of `update`, and the short ones.
pub mod Getters
use Prim.{⊥}
use skl_rs.Prelude.{
  ℕ, Bool, true, false, Option, none, some, List, length, if◌then◌else◌, ◌==◌, Run, done, fault,
  panic, out_of_fuel, Result, ok, err,
}
use skl_rs.Prelude
use skl_rs.Alloc.{Filler, Operation, copy, noop, fetch_vacant_key}
use skl_rs.Attempt.{Either, left, right, Attempt, pure, fail, ◌>>=◌, lift}
use skl_rs.Capacity.{Error}
use skl_rs.Codec.{u32}
use skl_rs.Comparator.{Bytes, Range, unbounded, Trailer}
use skl_rs.Iterator
use skl_rs.Iterator.{AllVersionsIter}
use skl_rs.Iterator.Seek.{lower_bound, upper_bound}
use skl_rs.Key.{Key, occupied, vacant, remove, remove_vacant}
use skl_rs.Map.{SkipMap, VersionedEntryRef}
use skl_rs.Node.Arena.{Arena}
use skl_rs.Search.{get}
use skl_rs.Splice.{fresh_inserter}
use skl_rs.Update.{UpdateOk, present, update}

-- `e.expect_right("must be map::Error")`
unfoldable pub expect_right : {E F : Type 0} → Either E F → Run F
expect_right (left _) = panic
expect_right (right e) = done e

-- The errors of an operation, replaced.
abbrev pub map_err : {S F G A : Type 0} → (F → Run G) → Attempt S F A → Attempt S G A
map_err f op s = elim (op s) [
  | done r ↦ elim r.0 [
    | ok a ↦ done (ok a, r.1)
    | err e ↦ Prelude.◌>>=◌ (f e) (λ e'. done (err e', r.1))
  ]
  | fault ↦ fault
  | panic ↦ panic
  | out_of_fuel ↦ out_of_fuel
]

-- What an insertion returns: `expect_left`, and no entry that is removed.
unfoldable pub inserted : {T : Type 0} → UpdateOk T → Run (Option (VersionedEntryRef T))
unfolding present
inserted (left none) = done none
inserted (left (some old)) = done (present old)
inserted (right _) = panic

-- What `compare_remove` returns.
unfoldable pub exchanged : {T : Type 0} → UpdateOk T → Option (VersionedEntryRef T)
unfolding present
exchanged (left _) = none
exchanged (right (ok old)) = present old
exchanged (right (err current)) = present current

-- An operation on an arena that may be read-only.
abbrev pub guarded :
    {ar : Arena} {T F A : Type 0} → F → Attempt (SkipMap ar T) F A → Attempt (SkipMap ar T) F A
guarded {ar = ar} e op m = if ar.read_only m.arena then fail e m else op m

module _ {ar : Arena} {T : Type 0} ⦃tr : Trailer T⦄ (probabilities : List ℕ) (rnd : ℕ) where
  module _ {E : Type 0} where
    -- `update` for a caller that is not interrupted between the read of a value and its exchange,
    -- with a new inserter.
    abbrev pub updating :
        T → Key → ℕ → Filler E → Bool → Operation ar T E (Option (VersionedEntryRef T))
    updating trailer key value_size f upserting = do
      (r, _) ← update (λ m. m) probabilities rnd trailer key value_size f fresh_inserter upserting
      lift (inserted r)

    unfoldable pub insert_with_value :
        T → Bytes → ℕ → Filler E → Operation ar T E (Option (VersionedEntryRef T))
    unfolding update inserted
    insert_with_value trailer key value_size f =
        guarded (right (Error.arena ar.read_only_error))
          (updating trailer (occupied key) value_size f true)

    unfoldable pub get_or_insert_with_value :
        T → Bytes → ℕ → Filler E → Operation ar T E (Option (VersionedEntryRef T))
    unfolding update inserted
    get_or_insert_with_value trailer key value_size f =
        guarded (right (Error.arena ar.read_only_error))
          (updating trailer (occupied key) value_size f false)

    unfoldable pub insert_with :
        T → ℕ → Filler E → ℕ → Filler E → Operation ar T E (Option (VersionedEntryRef T))
    unfolding fetch_vacant_key update inserted
    insert_with trailer key_size key val_size val = do
      vk ← fetch_vacant_key key_size key
      updating trailer (vacant vk) val_size val true

    unfoldable pub get_or_insert_with :
        T → ℕ → Filler E → ℕ → Filler E → Operation ar T E (Option (VersionedEntryRef T))
    unfolding fetch_vacant_key update inserted
    get_or_insert_with trailer key_size key val_size val = do
      vk ← fetch_vacant_key key_size key
      updating trailer (vacant vk) val_size val false

    -- The closure of the value cannot fail here, that of the key can.
    unfoldable pub get_or_remove_with :
        T → ℕ → Filler E → Operation ar T E (Option (VersionedEntryRef T))
    unfolding fetch_vacant_key update inserted expect_right noop
    get_or_remove_with trailer key_size key = do
      vk ← fetch_vacant_key key_size key
      (r, _) ←
          map_err (λ e. Prelude.◌>>=◌ (expect_right {E = ⊥} e) (λ f. done (right f)))
            (update (λ m. m) probabilities rnd trailer (remove_vacant vk) 0 noop fresh_inserter
              false)
      lift (inserted r)

  unfoldable pub insert :
      T → Bytes → Bytes → Attempt (SkipMap ar T) (Error ar.Error) (Option (VersionedEntryRef T))
  unfolding update inserted expect_right copy
  insert trailer key value = guarded (Error.arena ar.read_only_error) (
      map_err (expect_right {E = ⊥})
        (updating trailer (occupied key) (u32 (length value)) (copy value) true))

  unfoldable pub get_or_insert :
      T → Bytes → Bytes → Attempt (SkipMap ar T) (Error ar.Error) (Option (VersionedEntryRef T))
  unfolding update inserted expect_right copy
  get_or_insert trailer key value = guarded (Error.arena ar.read_only_error) (
      map_err (expect_right {E = ⊥})
        (updating trailer (occupied key) (u32 (length value)) (copy value) false))

  -- The value size of the call is 0; a removal allocates none.
  unfoldable pub compare_remove :
      (SkipMap ar T → SkipMap ar T)
      → T
      → Bytes
      → Attempt (SkipMap ar T) (Error ar.Error) (Option (VersionedEntryRef T))
  unfolding update exchanged expect_right noop
  compare_remove others trailer key = map_err (expect_right {E = ⊥}) (do
    (r, _) ← update others probabilities rnd trailer (remove key) 0 noop fresh_inserter true
    pure (exchanged r))

  unfoldable pub get_or_remove :
      T → Bytes → Attempt (SkipMap ar T) (Error ar.Error) (Option (VersionedEntryRef T))
  unfolding update inserted expect_right noop
  get_or_remove trailer key =
      map_err (expect_right {E = ⊥}) (updating trailer (remove key) 0 noop false)

module _ {ar : Arena} {T : Type 0} ⦃tr : Trailer T⦄ (m : SkipMap ar T) where
  unfoldable pub contains_key : ℕ → Bytes → Run Bool
  unfolding get
  contains_key version key =
      Prelude.◌>>=◌ (get m version key) (λ e. elim e [ none ↦ done false | some _ ↦ done true ])

  unfoldable pub first : ℕ → Run (Option (VersionedEntryRef T))
  unfolding lower_bound
  first version = lower_bound m version unbounded

  unfoldable pub last : ℕ → Run (Option (VersionedEntryRef T))
  unfolding upper_bound
  last version = upper_bound m version unbounded

  unfoldable pub is_empty : Bool
  is_empty = m.meta.len == 0

  -- Of the latest versions.
  unfoldable pub iter : ℕ → AllVersionsIter T
  unfolding Iterator.new
  iter version = Iterator.new m version false

  unfoldable pub iter_all_versions : ℕ → AllVersionsIter T
  unfolding Iterator.new
  iter_all_versions version = Iterator.new m version true

  unfoldable pub range : ℕ → Range → AllVersionsIter T
  unfolding Iterator.range
  range version r = Iterator.range m version r false

  unfoldable pub range_all_versions : ℕ → Range → AllVersionsIter T
  unfolding Iterator.range
  range_all_versions version r = Iterator.range m version r true
