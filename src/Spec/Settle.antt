-- ===== src/Spec/Settle.antt =====
-- A run of calls of `get_or_insert` and `get_or_remove` (src/map/api.rs), and what it makes of a list
-- of items.
use skl_rs.Prelude.{
  ℕ, ◌+◌, ◌^◌, ◌≤◌, ◌<◌, ◌≡◌, refl, Option, none, some, Ordering, eq, List, [], ◌∷◌, length, Run,
  done, Result, ok, err, ◌>>=◌, arith,
}
use skl_rs.Api.{get_or_insert, get_or_remove}
use skl_rs.Attempt.{Attempt}
use skl_rs.Capacity.{Error}
use skl_rs.Codec.{u32_max}
use skl_rs.Comparator.{Bytes, Comparator, Trailer}
use skl_rs.Map.{SkipMap, VersionedEntryRef}
use skl_rs.Node.Arena.{Arena}
use skl_rs.Spec.{Item, add, exact, shown, unless_removed}

module _ {ar : Arena} {T : Type 0} ⦃tr : Trailer T⦄ (table : List ℕ) where
  -- An item with a value is inserted, one without is removed, unless the version is there.
  unfoldable pub settle :
      ℕ
      → Bytes
      → T
      → Option Bytes
      → Attempt (SkipMap ar T) (Error ar.Error) (Option (VersionedEntryRef T))
  unfolding get_or_insert get_or_remove
  settle rnd key t (some v) = get_or_insert table rnd t key v
  settle rnd key t none = get_or_remove table rnd t key

  -- One call after the other, each with its random word; with what they return.
  unfoldable pub settle_all :
      List (ℕ × Item T)
      → SkipMap ar T
      → Run (List (Result (Option (VersionedEntryRef T)) (Error ar.Error)) × SkipMap ar T)
  unfolding settle
  settle_all [] m = done ([], m)
  settle_all ((rnd, i) ∷ calls) m = do
    (r, m') ← settle rnd i.key i.trailer i.value m
    (rs, m'') ← settle_all calls m'
    done (r ∷ rs, m'')

  pub two_calls :
      (rnd : ℕ) (i : Item T) (calls : List (ℕ × Item T)) (m m' m'' : SkipMap ar T)
      (r : Result (Option (VersionedEntryRef T)) (Error ar.Error))
      (rs : List (Result (Option (VersionedEntryRef T)) (Error ar.Error)))
      → settle rnd i.key i.trailer i.value m ≡ done (r, m')
      → settle_all calls m' ≡ done (rs, m'')
      → settle_all ((rnd, i) ∷ calls) m ≡ done (r ∷ rs, m'')
  unfolding settle_all
  two_calls rnd i calls m m' m'' r rs one rest = rw (one, rest) refl

module _ {T : Type 0} ⦃tr : Trailer T⦄ (cmp : Bytes → Bytes → Ordering) where
  abbrev pub there : Item T → List (Item T) → Option (Item T)
  there i = exact cmp (tr.version i.trailer) i.key

  -- An item is added unless one of its key and its version is there.
  unfoldable pub add_new : Item T → List (Item T) → List (Item T)
  add_new i items = elim (there i items) [ none ↦ add cmp i items | some j ↦ items ]

  -- What a call may return, and the items after it. It fails only where it would add an item.
  abbrev pub Settles :
      {E : Type 0}
      → Item T
      → Result (Option (VersionedEntryRef T)) E
      → List (Item T)
      → List (Item T)
      → Type 0
  Settles i (ok e) items after =
      (shown e ≡ unless_removed (there i items)) × (after ≡ add_new i items)
  Settles i (err x) items after = (there i items ≡ none) × (after ≡ items)

  -- The same for calls in a row.
  abbrev pub SettlesAll :
      {E : Type 0}
      → List (ℕ × Item T)
      → List (Result (Option (VersionedEntryRef T)) E)
      → List (Item T)
      → List (Item T)
      → Type 0
  SettlesAll [] [] items after = after ≡ items
  SettlesAll [] (r ∷ rs) items after = ⊥
  SettlesAll (call ∷ calls) [] items after = ⊥
  SettlesAll ((rnd, i) ∷ calls) (r ∷ rs) items after =
      (between : List (Item T)) × Settles i r items between × SettlesAll calls rs between after

  length-add : (i : Item T) (is : List (Item T)) → length (add cmp i is) ≡ length is + 1
  unfolding add
  length-add i [] = omega arith
  length-add i (j ∷ js) = ground (arith, length-add i js)

  pub length-Settles :
      {E : Type 0} (i : Item T) (r : Result (Option (VersionedEntryRef T)) E)
      (items after : List (Item T))
      → Settles i r items after
      → length after ≤ length items + 1
  unfolding add_new
  length-Settles i (ok e) items after s =
      rw s.1
        (elim (there i items)
          as (λ x. length (elim x [ none ↦ add cmp i items | some j ↦ items ]) ≤ length items + 1) [
            | none ↦ omega (arith, length-add i items)
            | some j ↦ omega arith
          ])
  length-Settles i (err x) items after s = rw s.1 (omega arith)

-- The bytes of a value, if any.
abbrev pub bytes_of : Option Bytes → Bytes
bytes_of none = []
bytes_of (some v) = v

-- An item of the sizes that the types of the source give, with a comparator that tells its key apart.
pub record IsFit {T : Type 0} (cmp : Comparator) (i : Item T) : Type 0 where
  pub key_short : length i.key < 2 ^ 27
  pub value_short : length (bytes_of i.value) < u32_max
  pub apart : (d : Bytes) → cmp.cmp i.key d ≡ eq → i.key ≡ d
