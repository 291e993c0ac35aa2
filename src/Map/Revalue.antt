-- ===== src/Map/Revalue.antt =====
-- The cells of a map (src/map.rs) when one of them gets another trailer of its version, and another
-- value.
use skl_rs.Prelude.{
  ℕ, ◌≡◌, refl, sym, inl, inr, Ordering, eq, lt, gt, Option, List, [], ◌∷◌, ◌++◌, Bool-cases,
  Ordering-cases, All, All-imp, All-split, Pairwise-replace, length, keep, Run, arith,
}
use skl_rs.Comparator.{Bytes, Trailer}
use skl_rs.Map.Order.{Cell, at, Before, IsSorted, Monotone}
use skl_rs.Map.Repr.{tall, Chain, BackChain}

module _ {T : Type 0} (t : T) (v : Option Bytes) where
  abbrev pub revalued : Cell T → Cell T
  revalued c = record c { trailer = t; value = v }

module _ {T : Type 0} (t : T) (v : Option Bytes) (y : Cell T) (ahead : List (Cell T)) where
  abbrev new : Cell T
  new = revalued t v y

  pub length-revalued :
      (passed : List (Cell T)) → length (passed ++ new ∷ ahead) ≡ length (passed ++ y ∷ ahead)
  length-revalued [] = refl
  length-revalued (c ∷ passed) = omega (arith, length-revalued passed)

  pub Chain-revalued :
      (next : ℕ → Run ℕ) (level a stop : ℕ) (passed : List (Cell T))
      → Chain next a (keep (tall level) (passed ++ y ∷ ahead)) stop
      → Chain next a (keep (tall level) (passed ++ new ∷ ahead)) stop
  Chain-revalued next level a stop [] h = elim (Bool-cases (tall level y)) [
    | inl e ↦ rw e (rw e at h)
    | inr e ↦ rw e (rw e at h)
  ]
  Chain-revalued next level a stop (c ∷ passed) h = elim (Bool-cases (tall level c)) [
    | inl e ↦
        let h' : Chain next a (c ∷ keep (tall level) (passed ++ y ∷ ahead)) stop = rw e at h in
        rw e (h'.0, Chain-revalued next level c.offset stop passed h'.1)
    | inr e ↦
        let h' : Chain next a (keep (tall level) (passed ++ y ∷ ahead)) stop = rw e at h in
        rw e (Chain-revalued next level a stop passed h')
  ]

  pub BackChain-revalued :
      (prev : ℕ → Run ℕ) (level a stop : ℕ) (passed : List (Cell T))
      → BackChain prev a (keep (tall level) (passed ++ y ∷ ahead)) stop
      → BackChain prev a (keep (tall level) (passed ++ new ∷ ahead)) stop
  BackChain-revalued prev level a stop [] h = elim (Bool-cases (tall level y)) [
    | inl e ↦ rw e (rw e at h)
    | inr e ↦ rw e (rw e at h)
  ]
  BackChain-revalued prev level a stop (c ∷ passed) h = elim (Bool-cases (tall level c)) [
    | inl e ↦
        let h' : BackChain prev a (c ∷ keep (tall level) (passed ++ y ∷ ahead)) stop = rw e at h in
        rw e (h'.0, BackChain-revalued prev level c.offset stop passed h'.1)
    | inr e ↦
        let h' : BackChain prev a (keep (tall level) (passed ++ y ∷ ahead)) stop = rw e at h in
        rw e (BackChain-revalued prev level a stop passed h')
  ]

module _ {T : Type 0} ⦃tr : Trailer T⦄ (cmp : Bytes → Bytes → Ordering) (t : T) (v : Option Bytes)
    (y : Cell T) (ahead : List (Cell T)) where
  pub same_version :
      (key : Bytes) → at cmp (tr.version t) key y ≡ eq → tr.version y.trailer ≡ tr.version t
  same_version key e = elim (Ordering-cases (cmp key y.key)) [
    | inl below ↦ absurd (ground arith)
    | inr (inl same) ↦ ground arith
    | inr (inr above) ↦ absurd (ground arith)
  ]

  pub IsSorted-revalued :
      (passed : List (Cell T))
      → tr.version y.trailer ≡ tr.version t
      → IsSorted cmp (passed ++ y ∷ ahead)
      → IsSorted cmp (passed ++ revalued t v y ∷ ahead)
  IsSorted-revalued passed e s =
      Pairwise-replace (Before cmp) passed y (revalued t v y) ahead s (λ c b. rw (sym e) b)
        (λ c b. rw (sym e) b)

  -- A cell that is met lies between those that are passed and those ahead.
  pub Monotone-met :
      (version : ℕ) (key : Bytes) (passed : List (Cell T))
      → Monotone cmp version key (passed ++ y ∷ ahead)
      → at cmp version key y ≡ eq
      → All (λ c. at cmp version key c ≡ gt) passed × All (λ c. at cmp version key c ≡ lt) ahead
  Monotone-met version key [] mono e = (tt, All-imp (λ d h. ground arith) ahead mono.0)
  Monotone-met version key (c ∷ passed) mono e =
      let (a, b) = Monotone-met version key passed mono.1 e in
      let here = (All-split _ passed (y ∷ ahead) mono.0).1.0 in ((ground arith, a), b)
