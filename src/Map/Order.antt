-- ===== src/Map/Order.antt =====
-- Cells in the order of the list: by key, and for one key from the newest version to the oldest.
use skl_rs.Prelude.{
  ℕ, ◌≡◌, Ordering, lt, gt, compare, Option, List, [], ◌∷◌, All, All-imp, Pairwise, ◌⊎◌, then_with,
  arith,
}
use skl_rs.Comparator.{Bytes, Trailer}
use skl_rs.Comparator.Laws.{IsLawful}

-- What a node stands for.
pub record Cell (T : Type 0) : Type 0 where
  pub offset : ℕ
  pub height : ℕ
  pub key : Bytes
  pub trailer : T
  pub value : Option Bytes

module _ {T : Type 0} ⦃tr : Trailer T⦄ (cmp : Bytes → Bytes → Ordering) where
  -- Where a key and a version stand to a cell.
  abbrev pub at : ℕ → Bytes → Cell T → Ordering
  at version key c = then_with (cmp key c.key) (compare (tr.version c.trailer) version)

  abbrev pub Before : Cell T → Cell T → Type 0
  Before c d = at (tr.version c.trailer) c.key d ≡ lt

  abbrev pub IsSorted : List (Cell T) → Type 0
  IsSorted = Pairwise Before

  -- A query that has reached or passed a cell has passed what comes later.
  abbrev pub Monotone : ℕ → Bytes → List (Cell T) → Type 0
  Monotone version key [] = Unit
  Monotone version key (c ∷ cs) =
      All (λ d. (at version key c ≡ gt) ⊎ (at version key d ≡ lt)) cs × Monotone version key cs

  module _ (laws : IsLawful cmp) (version : ℕ) (key : Bytes) where
    at-Before : (c d : Cell T) → Before c d → (at version key c ≡ gt) ⊎ (at version key d ≡ lt)
    at-Before c d b = ground (
      arith,
      laws.lt_trans key c.key d.key,
      laws.eq_cmp key c.key d.key,
      laws.eq_cmp c.key d.key key,
      laws.cmp_flip key c.key,
      laws.cmp_flip key d.key,
    )

    pub IsSorted-Monotone : (cs : List (Cell T)) → IsSorted cs → Monotone version key cs
    IsSorted-Monotone [] s = tt
    IsSorted-Monotone (c ∷ cs) s = (All-imp (λ d. at-Before c d) cs s.0, IsSorted-Monotone cs s.1)
