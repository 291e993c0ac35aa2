-- ===== src/Iterator/Collect.antt =====
-- The entries that an iterator (src/map/iterator/all_versions.rs) yields from its position to the end
-- of the list, as a caller collects them with `next`.
use skl_rs.Prelude.{
  ℕ, zero, suc, ◌<◌, ◌≡◌, refl, ap, sym, ◌∙◌, inl, inr, Bool, true, false, ◌&&◌, none, some, lt,
  Pairwise, List, [], ◌∷◌, ◌++◌, leb, keep, length, length-append, Run, done, out_of_fuel, ◌>>=◌,
  arith, Bool-cases,
}
use mathlib.Core.List.{append_assoc}
use mathlib.Core.Path.{subst}
use skl_rs.Api.{iter_all_versions, range_all_versions}
use skl_rs.Comparator.{Trailer, Range}
use skl_rs.Entry.{cmp_entry}
use skl_rs.Entry.Laws.{entries, entries-Pairwise}
use skl_rs.Iterator
use skl_rs.Iterator.{AllVersionsIter, next_in, is_removed, same_as_last}
use skl_rs.Iterator.Next.{next_in-first_shown}
use skl_rs.Iterator.Walk.{shows, first_shown}
use skl_rs.Map.{SkipMap, VersionedEntryRef}
use skl_rs.Map.Order.{Cell}
use skl_rs.Map.Repr.{IsRepr, entry_of}
use skl_rs.Node.Arena.{Arena}
use skl_rs.Splice.Level.{last_offset}

module _ {ar : Arena} {T : Type 0} ⦃tr : Trailer T⦄ (m : SkipMap ar T) where
  -- `next` until it yields nothing.
  unfoldable pub collect : ℕ → AllVersionsIter T → Run (List (VersionedEntryRef T))
  unfolding next_in
  collect zero it = out_of_fuel
  collect (suc fuel) it = do
    (r, it') ← next_in m it
    elim r [ none ↦ done [] | some e ↦ do rest ← collect fuel it'; done (e ∷ rest) ]

  -- A version that is seen, of a key in a range.
  abbrev pub seen : ℕ → Range → Cell T → Bool
  seen version r c = leb (tr.version c.trailer) version && m.cmp.contains r c.key

  -- The first cell that is seen, with those before it.
  data FirstSeen (version : ℕ) (r : Range) (stop : ℕ) (it : AllVersionsIter T) (cs : List (Cell T))
      : Type 0 where
    nothing :
        keep (seen version r) cs ≡ []
        → first_shown m stop it cs ≡ (none, record it { nd = stop })
        → FirstSeen version r stop it cs
    cell :
        (skipped : List (Cell T)) (c : Cell T) (rest : List (Cell T))
        → skipped ++ c ∷ rest ≡ cs
        → keep (seen version r) cs ≡ c ∷ keep (seen version r) rest
        → first_shown m stop it cs
          ≡ (some (entry_of m c), record it { nd = c.offset; last = some (entry_of m c) })
        → FirstSeen version r stop it cs

  first_shown-FirstSeen :
      (stop : ℕ) (it : AllVersionsIter T) (cs : List (Cell T))
      → it.all_versions ≡ true
      → FirstSeen it.version it.range stop it cs
  unfolding first_shown
  first_shown-FirstSeen stop it [] all = nothing refl refl
  first_shown-FirstSeen stop it (c ∷ cs) all = elim (Bool-cases (seen it.version it.range c)) [
    | inl e ↦
        let shown : shows m it c ≡ true = ground arith in
        cell [] c cs refl (rw e refl) (rw shown refl)
    | inr e ↦
        let hidden : shows m it c ≡ false = ground arith in
        elim (first_shown-FirstSeen stop it cs all) [
          | nothing k f ↦ nothing (rw e k) (rw hidden f)
          | cell skipped d rest split k f ↦
              cell (c ∷ skipped) d rest (ap (λ (l : List (Cell T)). c ∷ l) split) (rw e k)
                (rw hidden f)
        ]
  ]

  last_offset-snoc :
      (a : ℕ) (xs : List (Cell T)) (c : Cell T) → last_offset a (xs ++ c ∷ []) ≡ c.offset
  unfolding last_offset
  last_offset-snoc a [] c = refl
  last_offset-snoc a (x ∷ xs) c = last_offset-snoc x.offset xs c

  module _ (cells : List (Cell T)) (r : IsRepr m cells) where
    regroup :
        (passed skipped rest : List (Cell T)) (c : Cell T)
        → ((passed ++ skipped) ++ c ∷ []) ++ rest ≡ passed ++ (skipped ++ c ∷ rest)
    regroup passed skipped rest c = simp append_assoc

    collect-keep :
        (fuel : ℕ) (it : AllVersionsIter T) (passed ahead : List (Cell T))
        → length ahead < fuel
        → passed ++ ahead ≡ cells
        → it.nd ≡ last_offset m.head passed
        → it.all_versions ≡ true
        → collect fuel it ≡ done (entries m (keep (seen it.version it.range) ahead))
    unfolding collect
    collect-keep zero it passed ahead enough whole at all = absurd (omega arith)
    collect-keep (suc fuel) it passed ahead enough whole at all =
        let runs = next_in-first_shown m passed ahead it (subst (IsRepr m) (sym whole) r) at in
        elim (first_shown-FirstSeen m.tail it ahead all) [
          | nothing k f ↦ rw (runs, f, k) refl
          | cell skipped c rest split k f ↦
              let it' : AllVersionsIter T = record it {
                nd = c.offset;
                last = some (entry_of m c);
              } in
              let less : length rest < length ahead =
                subst (λ (l : List (Cell T)). length rest < length l) split
                  (omega (arith, length-append skipped (c ∷ rest))) in
              let ih =
                collect-keep fuel it' ((passed ++ skipped) ++ c ∷ []) rest (omega arith)
                  (regroup passed skipped rest c
                    ∙ ap (λ (l : List (Cell T)). passed ++ l) split
                    ∙ whole)
                  (sym (last_offset-snoc m.head (passed ++ skipped) c)) all in
              rw (runs, f, ih, k) refl
        ]

-- On a map that stands for cells, collecting an iterator over all versions, of the whole map or of a
-- range, with one call of `next` more than there are cells, always returns, and gives the entries of
-- all cells that are not newer than the version and lie in the range, in the order of the list.
pub collect-entries :
    {ar : Arena} {T : Type 0} ⦃tr : Trailer T⦄ (m : SkipMap ar T) (cells : List (Cell T))
    (version : ℕ) (r : Range)
    → IsRepr m cells
    → (collect m (suc (length cells)) (range_all_versions m version r)
        ≡ done (entries m (keep (seen m version r) cells)))
      × (collect m (suc (length cells)) (iter_all_versions m version)
          ≡ done (entries m (keep (seen m version Iterator.range_full) cells)))
unfolding range_all_versions iter_all_versions Iterator.new Iterator.range last_offset
collect-entries m cells version r repr = (
  collect-keep m cells repr (suc (length cells)) (range_all_versions m version r) [] cells
      (omega arith) refl refl refl,
  collect-keep m cells repr (suc (length cells)) (iter_all_versions m version) [] cells
      (omega arith) refl refl refl,
)

-- On a map that stands for cells, what is collected of an iterator over all versions, of the whole map
-- or of a range, with one call of `next` more than there are cells, is in the strict order of entries:
-- every entry that it yields is less than all that it yields later.
pub collect-Pairwise :
    {ar : Arena} {T : Type 0} ⦃tr : Trailer T⦄ (m : SkipMap ar T) (cells : List (Cell T))
    (version : ℕ) (r : Range)
    → IsRepr m cells
    → ((es : List (VersionedEntryRef T)) × (collect m
            (suc (length cells))
            (range_all_versions m version r)
          ≡ done es)
        × Pairwise (λ a b. cmp_entry m a b ≡ lt) es)
      × ((es : List (VersionedEntryRef T)) × (collect m
              (suc (length cells))
              (iter_all_versions m version)
            ≡ done es)
          × Pairwise (λ a b. cmp_entry m a b ≡ lt) es)
collect-Pairwise m cells version r repr =
    let (ranged, whole) = collect-entries m cells version r repr in
    (
      (_, ranged, entries-Pairwise m (seen m version r) cells repr.sorted),
      (_, whole, entries-Pairwise m (seen m version Iterator.range_full) cells repr.sorted),
    )
