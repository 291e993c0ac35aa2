-- ===== src/Entry/Laws.antt =====
-- The order of entries, and owned entries (src/map/entry.rs).
use skl_rs.Prelude.{
  ◌≡◌, lt, eq, reverse_order, is_eq, List, [], ◌∷◌, All, Pairwise, Bool, keep, inl, inr, Bool-cases,
  arith,
}
use skl_rs.Comparator.{Trailer}
use skl_rs.Comparator.Laws.{IsLawful}
use skl_rs.Entry.{eq_entry, cmp_entry, version}
use skl_rs.Map.{SkipMap, VersionedEntryRef}
use skl_rs.Map.Order.{Cell, Before, IsSorted}
use skl_rs.Map.Repr.{entry_of}
use skl_rs.Node.Arena.{Arena}

module _ {ar : Arena} {T : Type 0} ⦃tr : Trailer T⦄ (m : SkipMap ar T) where
  -- What `Ord` asks for, and that `PartialEq` agrees with it.
  pub record IsOrd : Type 0 where
    pub agrees : (a b : VersionedEntryRef T) → eq_entry m a b ≡ is_eq (cmp_entry m a b)
    pub itself : (a : VersionedEntryRef T) → cmp_entry m a a ≡ eq
    pub flips : (a b : VersionedEntryRef T) → cmp_entry m b a ≡ reverse_order (cmp_entry m a b)
    pub transitive :
        (a b c : VersionedEntryRef T)
        → cmp_entry m a b ≡ lt
        → cmp_entry m b c ≡ lt
        → cmp_entry m a c ≡ lt

  cmp_entry_trans :
      IsLawful m.cmp.cmp
      → (a b c : VersionedEntryRef T) → cmp_entry m a b ≡ lt
      → cmp_entry m b c ≡ lt
      → cmp_entry m a c ≡ lt
  unfolding cmp_entry version
  cmp_entry_trans laws a b c p q = ground (
    arith,
    laws.lt_trans a.key b.key c.key,
    laws.eq_cmp a.key b.key c.key,
    laws.eq_cmp b.key c.key a.key,
    laws.cmp_flip a.key b.key,
    laws.cmp_flip a.key c.key,
    laws.cmp_flip b.key c.key,
  )

  -- With a lawful comparator the order of entries is a total order, in which entries of one key and
  -- one version are equal: it agrees with their equality, reverses, and is transitive.
  pub cmp_entry-IsOrd : IsLawful m.cmp.cmp → IsOrd
  unfolding eq_entry cmp_entry version
  cmp_entry-IsOrd laws = record {
    agrees = λ a b. ground arith;
    itself = λ a. ground (arith, laws.cmp_refl a.key);
    flips = λ a b. ground (arith, laws.cmp_flip a.key b.key);
    transitive = cmp_entry_trans laws;
  }

  abbrev pub entries : List (Cell T) → List (VersionedEntryRef T)
  entries [] = []
  entries (c ∷ cs) = entry_of m c ∷ entries cs

  entries-below :
      (c : Cell T) (p : Cell T → Bool) (cs : List (Cell T))
      → All (Before m.cmp.cmp c) cs
      → All (λ e. cmp_entry m (entry_of m c) e ≡ lt) (entries (keep p cs))
  unfolding cmp_entry version
  entries-below c p [] h = tt
  entries-below c p (d ∷ ds) h = elim (Bool-cases (p d)) [
    | inl kept ↦ rw (kept) (ground arith, entries-below c p ds h.1)
    | inr dropped ↦ rw (dropped) (entries-below c p ds h.1)
  ]

  -- The entries of cells in order, some of them left out, are in the order of entries.
  pub entries-Pairwise :
      (p : Cell T → Bool) (cs : List (Cell T))
      → IsSorted m.cmp.cmp cs
      → Pairwise (λ a b. cmp_entry m a b ≡ lt) (entries (keep p cs))
  entries-Pairwise p [] s = tt
  entries-Pairwise p (c ∷ cs) s = elim (Bool-cases (p c)) [
    | inl kept ↦ rw (kept) (entries-below c p cs s.0, entries-Pairwise p cs s.1)
    | inr dropped ↦ rw (dropped) (entries-Pairwise p cs s.1)
  ]
