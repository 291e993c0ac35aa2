-- ===== src/Iterator/Walk.antt =====
-- The loops of `next_in` and of `prev` (src/map/iterator/all_versions.rs), which differ in the links
-- that they follow and in the end at which they stop.
use skl_rs.Prelude.{
  ℕ, zero, suc, ◌<◌, ◌≡◌, refl, ap, ◌∙◌, inl, inr, Bool, not, ◌&&◌, ◌||◌, Option, none, some, List,
  [], ◌∷◌, if◌then◌else◌, leb, All, length, Run, done, arith, Bool-cases,
}
use skl_rs.Comparator.{Trailer}
use skl_rs.Iterator.{AllVersionsIter, Move, onto, ends, repeat, offer, is_removed, same_as_last}
use skl_rs.Map.{SkipMap, VersionedEntryRef}
use skl_rs.Map.Order.{Cell}
use skl_rs.Map.Repr.{Chain, Holds, entry_of}
use skl_rs.Node.Arena.{Arena}

module _ {ar : Arena} {T : Type 0} ⦃tr : Trailer T⦄ (m : SkipMap ar T) where
  -- An iterator shows a cell that its version sees, in its range; one of the latest versions shows
  -- no removal, and no cell of the key that it yielded last.
  abbrev pub shows : AllVersionsIter T → Cell T → Bool
  shows it c =
      leb (tr.version c.trailer) it.version
      && (it.all_versions || (not (is_removed c.value) && not (same_as_last m it.last c.key)))
      && m.cmp.contains it.range c.key

  -- What it yields of the cells on its way to `stop`, and the iterator after that.
  unfoldable pub first_shown :
      ℕ → AllVersionsIter T → List (Cell T) → Option (VersionedEntryRef T) × AllVersionsIter T
  first_shown stop it [] = (none, record it { nd = stop })
  first_shown stop it (c ∷ cs) =
      if shows it c
      then (some (entry_of m c), record it { nd = c.offset; last = some (entry_of m c) })
      else first_shown stop it cs

  -- Where an iterator stands does not matter for what it shows.
  first_shown_from :
      (stop : ℕ) (it : AllVersionsIter T) (nd : ℕ) (cs : List (Cell T))
      → first_shown stop (record it { nd = nd }) cs ≡ first_shown stop it cs
  unfolding first_shown
  first_shown_from stop it nd [] = refl
  first_shown_from stop it nd (c ∷ cs) = elim (Bool-cases (shows it c)) [
    | inl e ↦ rw e refl
    | inr e ↦ rw e (first_shown_from stop it nd cs)
  ]

  -- What a round does at a cell.
  abbrev pub met : AllVersionsIter T → Cell T → Move T (VersionedEntryRef T)
  met it c =
      if shows it c
      then ends (some (entry_of m c)) (record it { nd = c.offset; last = some (entry_of m c) })
      else onto (record it { nd = c.offset })

  pub offer_lem :
      (it : AllVersionsIter T) (c : Cell T)
      → Holds m c
      → offer m (record it { nd = c.offset }) ≡ done (met it c)
  unfolding offer
  offer_lem it c h = rw (h.value_read, h.key_read) (ground arith)

  module _ (step : AllVersionsIter T → Run (Move T (VersionedEntryRef T))) (follow : ℕ → Run ℕ)
      (stop : ℕ)
      (at_cell : (it : AllVersionsIter T) (c : Cell T)
        → Holds m c
        → follow it.nd ≡ done c.offset
        → step it ≡ done (met it c))
      (at_stop : (it : AllVersionsIter T)
        → follow it.nd ≡ done stop
        → step it ≡ done (ends none (record it { nd = stop }))) where
    pub repeat-first_shown :
        (fuel : ℕ) (it : AllVersionsIter T) (cs : List (Cell T))
        → length cs < fuel
        → All (Holds m) cs
        → Chain follow it.nd cs stop
        → repeat m step fuel it ≡ done (first_shown stop it cs)
    unfolding repeat first_shown
    repeat-first_shown zero it cs enough h chain = absurd (omega arith)
    repeat-first_shown (suc fuel) it [] enough h chain = rw (at_stop it chain) refl
    repeat-first_shown (suc fuel) it (c ∷ cs) enough h chain = elim (Bool-cases (shows it c)) [
      | inl e ↦ rw (at_cell it c h.0 chain.0, e) refl
      | inr e ↦
          rw (at_cell it c h.0 chain.0, e)
            (repeat-first_shown fuel (record it { nd = c.offset }) cs (omega arith) h.1 chain.1
              ∙ ap done (first_shown_from stop it c.offset cs))
    ]
