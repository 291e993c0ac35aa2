-- ===== src/Spec/Place.antt =====
-- The place of an item in the order (src/map.rs): what it comes after, and what comes after it.
use skl_rs.Prelude.{
  ℕ, ◌≡◌, refl, ap, inl, inr, Ordering, lt, eq, gt, List, [], ◌∷◌, ◌++◌, All, All-imp,
  Ordering-cases, Bool-cases, arith, ◌⊎◌, none, some, ◌&&◌, is_eq, leb,
}
use skl_rs.Comparator.{Bytes, Trailer}
use skl_rs.Comparator.Laws.{IsLawful}
use skl_rs.Map.Order.{Cell, at, IsSorted, Monotone, IsSorted-Monotone}
use skl_rs.Search.Get.{lookup_at}
use skl_rs.Spec.{Item, add, find, exact, at_item, item_of, items_of, IsAbsent}

module _ {T : Type 0} ⦃tr : Trailer T⦄ (cmp : Bytes → Bytes → Ordering) where
  -- The cells that a query has passed, and those ahead of it.
  pub record Split (version : ℕ) (key : Bytes) (cells : List (Cell T)) : Type 0 where
    pub passed : List (Cell T)
    pub ahead : List (Cell T)
    pub whole : passed ++ ahead ≡ cells
    pub before : All (λ c. at cmp version key c ≡ gt) passed
    pub behind : All (λ c. at cmp version key c ≡ lt) ahead

  module _ (version : ℕ) (key : Bytes) where
    all_ahead :
        (c : Cell T) (cs : List (Cell T))
        → at cmp version key c ≡ lt
        → All (λ d. (at cmp version key c ≡ gt) ⊎ (at cmp version key d ≡ lt)) cs
        → All (λ d. at cmp version key d ≡ lt) cs
    all_ahead c cs below = All-imp (λ d h. ground arith) cs

    Split-at :
        (cells : List (Cell T))
        → Monotone cmp version key cells
        → IsAbsent cmp version key (items_of cells)
        → Split version key cells
    Split-at [] mono absent = record {
      passed = [];
      ahead = [];
      whole = refl;
      before = tt;
      behind = tt;
    }
    Split-at (c ∷ cs) mono absent = elim (Ordering-cases (at cmp version key c)) [
      | inl below ↦ record {
        passed = [];
        ahead = c ∷ cs;
        whole = refl;
        before = tt;
        behind = (below, all_ahead c cs below mono.0);
      }
      | inr (inl same) ↦ absurd (absent.0 same)
      | inr (inr above) ↦
          let s = Split-at cs mono.1 absent.1 in
          record {
            passed = c ∷ s.passed;
            ahead = s.ahead;
            whole = ap (λ (l : List (Cell T)). c ∷ l) s.whole;
            before = (above, s.before);
            behind = s.behind;
          }
    ]

  pub IsSorted-Split :
      IsLawful cmp
      → (version : ℕ) (key : Bytes) (cells : List (Cell T)) → IsSorted cmp cells
      → IsAbsent cmp version key (items_of cells)
      → Split version key cells
  IsSorted-Split laws version key cells s =
      Split-at version key cells (IsSorted-Monotone cmp laws version key cells s)

  -- The cell that has the key and the version, between those that it has passed and those ahead.
  pub record Spot (version : ℕ) (key : Bytes) (i : Item T) (cells : List (Cell T)) : Type 0 where
    pub passed : List (Cell T)
    pub cell : Cell T
    pub ahead : List (Cell T)
    pub whole : passed ++ cell ∷ ahead ≡ cells
    pub before : All (λ c. at cmp version key c ≡ gt) passed
    pub same : at cmp version key cell ≡ eq
    pub behind : All (λ c. at cmp version key c ≡ lt) ahead
    pub shows : item_of cell ≡ i

  module _ (version : ℕ) (key : Bytes) where
    exact_ahead :
        (cs : List (Cell T))
        → All (λ d. at cmp version key d ≡ lt) cs
        → exact cmp version key (items_of cs) ≡ none
    unfolding exact
    exact_ahead [] h = refl
    exact_ahead (d ∷ ds) h = rw h.0 (exact_ahead ds h.1)

    Spot-at :
        (i : Item T) (cells : List (Cell T))
        → Monotone cmp version key cells
        → exact cmp version key (items_of cells) ≡ some i
        → Spot version key i cells
    unfolding exact
    Spot-at i [] mono e = cc
    Spot-at i (c ∷ cs) mono e = elim (Ordering-cases (at cmp version key c)) [
      | inl below ↦
          let gone = exact_ahead cs (all_ahead version key c cs below mono.0) in
          let e' : exact cmp version key (items_of cs) ≡ some i = rw below at e in cc
      | inr (inl same) ↦
          let e' : some (item_of c) ≡ some i = rw same at e in
          record {
            passed = [];
            cell = c;
            ahead = cs;
            whole = refl;
            before = tt;
            same = same;
            behind = All-imp (λ d h. ground arith) cs mono.0;
            shows = cc;
          }
      | inr (inr above) ↦
          let e' : exact cmp version key (items_of cs) ≡ some i = rw above at e in
          let s = Spot-at i cs mono.1 e' in
          record {
            passed = c ∷ s.passed;
            cell = s.cell;
            ahead = s.ahead;
            whole = ap (λ (l : List (Cell T)). c ∷ l) s.whole;
            before = (above, s.before);
            same = s.same;
            behind = s.behind;
            shows = s.shows;
          }
    ]

    -- Where no item has the key and the version, they are absent.
    pub exact-IsAbsent :
        (is : List (Item T)) → exact cmp version key is ≡ none → IsAbsent cmp version key is
    unfolding exact
    exact-IsAbsent [] e = tt
    exact-IsAbsent (i ∷ is) e = elim (Ordering-cases (at_item cmp version key i)) [
      | inl below ↦ ((λ h. cc), exact-IsAbsent is (rw below at e))
      | inr (inl same) ↦ let e' : some i ≡ none = rw same at e in cc
      | inr (inr above) ↦ ((λ h. cc), exact-IsAbsent is (rw above at e))
    ]

  pub IsSorted-Spot :
      IsLawful cmp
      → (version : ℕ) (key : Bytes) (i : Item T) (cells : List (Cell T)) → IsSorted cmp cells
      → exact cmp version key (items_of cells) ≡ some i
      → Spot version key i cells
  IsSorted-Spot laws version key i cells s =
      Spot-at version key i cells (IsSorted-Monotone cmp laws version key cells s)

  -- The cell between those that it has passed and those ahead shows the item that was added.
  pub items_of-add :
      (c : Cell T) (passed ahead : List (Cell T))
      → All (λ d. at cmp (tr.version c.trailer) c.key d ≡ gt) passed
      → All (λ d. at cmp (tr.version c.trailer) c.key d ≡ lt) ahead
      → items_of (passed ++ c ∷ ahead) ≡ add cmp (item_of c) (items_of (passed ++ ahead))
  unfolding add
  items_of-add c [] [] p q = refl
  items_of-add c [] (d ∷ ds) p q = rw q.0
  items_of-add c (d ∷ ds) ahead p q =
      rw p.0 (ap (λ (l : List (Item T)). item_of d ∷ l) (items_of-add c ds ahead p.1 q))

  -- A lookup sees what the items show.
  pub lookup_at-find :
      (version : ℕ) (key : Bytes) (cells : List (Cell T))
      → find cmp version key (items_of cells)
        ≡ elim (lookup_at cmp version key cells) [ none ↦ none | some c ↦ some (item_of c) ]
  unfolding find lookup_at
  lookup_at-find version key [] = refl
  lookup_at-find version key (c ∷ cs) =
      elim (Bool-cases (is_eq (cmp key c.key) && leb (tr.version c.trailer) version)) [
        | inl hit ↦ rw hit
        | inr miss ↦ rw miss (lookup_at-find version key cs)
      ]
