-- ===== src/Search/Near.antt =====
-- `find_near` (src/map.rs) without towers: a walk along the base list.
use skl_rs.Prelude.{
  ℕ, ◌≡◌, ◌≢◌, refl, ap, ◌⊎◌, inl, inr, Bool, true, false, not, Option, none, some, Ordering, lt,
  eq, gt, List, [], ◌∷◌, ◌++◌, if◌then◌else◌, ◌==◌, keep, All, Run, Bool-cases, arith, All-split,
}
use skl_rs.Comparator.{Bytes, Trailer}
use skl_rs.Map.Order.{Cell, at, Monotone}
use skl_rs.Map.Repr.{Chain}

-- The offset of the first cell, or where the list ends.
unfoldable pub first_offset : {T : Type 0} → ℕ → List (Cell T) → ℕ
first_offset tail [] = tail
first_offset tail (c ∷ cs) = c.offset

module _ {T : Type 0} (head tail : ℕ) (order : Cell T → Ordering) (less allow_equal : Bool) where
  -- The answer without towers: walk along the list from the node `x`.
  unfoldable pub near_on_list : ℕ → List (Cell T) → Option ℕ × Bool
  unfolding first_offset
  near_on_list x [] =
      if not less then (none, false) else if x == head then (none, false) else (some x, false)
  near_on_list x (c ∷ cs) = elim (order c) [
    | gt ↦ near_on_list c.offset cs
    | eq ↦
        if allow_equal
        then (some c.offset, true)
        else if not less
        then (some (first_offset tail cs), false)
        else (some x, false)
    | lt ↦
        if not less
        then (some c.offset, false)
        else if x == head
        then (none, false)
        else (some x, false)
  ]

  pub near_on_list-gt :
      (x : ℕ) (c : Cell T) (cs : List (Cell T))
      → order c ≡ gt
      → near_on_list x (c ∷ cs) ≡ near_on_list c.offset cs
  unfolding near_on_list
  near_on_list-gt x c cs e = rw (e, near_on_list)

  pub near_on_list-eq :
      (x : ℕ) (c : Cell T) (cs : List (Cell T))
      → order c ≡ eq
      → near_on_list x (c ∷ cs) ≡ (
          if allow_equal
          then (some c.offset, true)
          else if not less
          then (some (first_offset tail cs), false)
          else (some x, false))
  unfolding near_on_list
  near_on_list-eq x c cs e = rw (e, near_on_list)

  pub near_on_list-lt :
      (x : ℕ) (c : Cell T) (cs : List (Cell T))
      → order c ≡ lt
      → near_on_list x (c ∷ cs) ≡ (
          if not less
          then (some c.offset, false)
          else if x == head
          then (none, false)
          else (some x, false))
  unfolding near_on_list
  near_on_list-lt x c cs e = rw (e, near_on_list)

-- The first element that passes a test, with what stands before it.
pub record Found {A : Type 0} (p : A → Bool) (xs : List A) : Type 0 where
  pub skipped : List A
  pub item : A
  pub rest : List A
  pub split : xs ≡ skipped ++ item ∷ rest
  pub passes : p item ≡ true
  pub low : All (λ x. p x ≡ false) skipped
  pub kept : keep p xs ≡ item ∷ keep p rest

pub keep-Found : {A : Type 0} (p : A → Bool) (xs : List A) → (keep p xs ≡ []) ⊎ Found p xs
keep-Found p [] = inl refl
keep-Found p (x ∷ xs) = elim (Bool-cases (p x)) [
  | inl yes_x ↦ inr (record {
    skipped = [];
    item = x;
    rest = xs;
    split = refl;
    passes = yes_x;
    low = tt;
    kept = rw yes_x;
  })
  | inr no_x ↦ elim (keep-Found p xs) [
    | inl nothing ↦ inl (rw no_x nothing)
    | inr f ↦ inr (record {
      skipped = x ∷ f.skipped;
      item = f.item;
      rest = f.rest;
      split = ap (λ l. x ∷ l) f.split;
      passes = f.passes;
      low = (no_x, f.low);
      kept = rw no_x f.kept;
    })
  ]
]

module _ {T : Type 0} where
  pub Chain-after :
      (next : ℕ → Run ℕ) (a : ℕ) (xs : List (Cell T)) (y : Cell T) (ys : List (Cell T)) (end : ℕ)
      → Chain next a (xs ++ y ∷ ys) end
      → Chain next y.offset ys end
  Chain-after next a [] y ys end c = c.1
  Chain-after next a (x ∷ xs) y ys end c = Chain-after next x.offset xs y ys end c.1

module _ {T : Type 0} ⦃tr : Trailer T⦄ (cmp : Bytes → Bytes → Ordering) (version : ℕ) (key : Bytes)
    (head tail : ℕ) (less allow_equal : Bool) where
  abbrev pub order : Cell T → Ordering
  order = at cmp version key

  abbrev pub answer : ℕ → List (Cell T) → Option ℕ × Bool
  answer = near_on_list head tail order less allow_equal

  pub Monotone-after :
      (xs : List (Cell T)) (y : Cell T) (ys : List (Cell T))
      → Monotone cmp version key (xs ++ y ∷ ys)
      → Monotone cmp version key (y ∷ ys)
  Monotone-after [] y ys mono = mono
  Monotone-after (x ∷ xs) y ys mono = Monotone-after xs y ys mono.1

  -- What stands before a cell that does not come after the query is passed over.
  pub answer-skip :
      (x : ℕ) (skipped : List (Cell T)) (y : Cell T) (rest : List (Cell T))
      → Monotone cmp version key (skipped ++ y ∷ rest)
      → order y ≢ lt
      → (x' : ℕ) × (answer x (skipped ++ y ∷ rest) ≡ answer x' (y ∷ rest))
  unfolding near_on_list
  answer-skip x [] y rest mono reached = (x, refl)
  answer-skip x (s ∷ skipped) y rest mono reached =
      let (x', e) = answer-skip s.offset skipped y rest mono.1 reached in
      let relation = (All-split _ skipped (y ∷ rest) mono.0).1.0 in
      let passed : order s ≡ gt = ground arith in (x', rw (passed, near_on_list) e)
