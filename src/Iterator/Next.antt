-- ===== src/Iterator/Next.antt =====
-- `next_in` of an iterator (src/map/iterator/all_versions.rs) against the list of cells.
use skl_rs.Prelude.{
  ℕ, ◌≡◌, sym, none, List, [], ◌∷◌, ◌++◌, All-split, length-append, Run, done, arith, ==_ne,
  ==_refl,
}
use mathlib.Core.Path.{subst}
use skl_rs.Comparator.{Trailer}
use skl_rs.Iterator.{AllVersionsIter, ends, next_step, next_in}
use skl_rs.Iterator.Walk.{first_shown, met, offer_lem, repeat-first_shown}
use skl_rs.Map.{SkipMap, get_next}
use skl_rs.Map.Order.{Cell}
use skl_rs.Map.Repr.{Chain, Holds, IsRepr}
use skl_rs.Node.{is_null}
use skl_rs.Node.Arena.{Arena}
use skl_rs.Search.{rounds}
use skl_rs.Search.Towers.{keep-tall_zero}
use skl_rs.Splice.Level.{last_offset}

module _ {ar : Arena} {T : Type 0} ⦃tr : Trailer T⦄ (m : SkipMap ar T) where
  next_step_cell :
      (it : AllVersionsIter T) (c : Cell T)
      → Holds m c
      → get_next m it.nd 0 ≡ done c.offset
      → next_step m it ≡ done (met m it c)
  unfolding next_step is_null
  next_step_cell it c h e = rw (e, ==_ne _ _ h.ne_null, ==_ne _ _ h.ne_tail) (offer_lem m it c h)

  next_step_end :
      (it : AllVersionsIter T)
      → get_next m it.nd 0 ≡ done m.tail
      → next_step m it ≡ done (ends none (record it { nd = m.tail }))
  unfolding next_step is_null
  next_step_end it e = rw (e, ==_refl m.tail) (ground arith)

Chain-behind_last :
    {T : Type 0} (next : ℕ → Run ℕ) (a : ℕ) (xs ys : List (Cell T)) (end : ℕ)
    → Chain next a (xs ++ ys) end
    → Chain next (last_offset a xs) ys end
unfolding last_offset
Chain-behind_last next a [] ys end c = c
Chain-behind_last next a (x ∷ xs) ys end c = Chain-behind_last next x.offset xs ys end c.1

-- On a map that stands for cells, an iterator that stands at the head or at a cell yields with `next`
-- the first cell behind it that it shows, and stands there then; where there is none, it yields
-- nothing and stands at the tail. It always returns.
pub next_in-first_shown :
    {ar : Arena} {T : Type 0} ⦃tr : Trailer T⦄ (m : SkipMap ar T) (passed ahead : List (Cell T))
    (it : AllVersionsIter T)
    → IsRepr m (passed ++ ahead)
    → it.nd ≡ last_offset m.head passed
    → next_in m it ≡ done (first_shown m m.tail it ahead)
unfolding next_in
next_in-first_shown m passed ahead it r at =
    let base =
      subst (λ cs. Chain (λ nd. get_next m nd 0) m.head cs m.tail)
        (keep-tall_zero m (passed ++ ahead) r.holds)
        (r.levels 0 (omega (arith, r.height_pos, r.height_max))) in
    repeat-first_shown m (next_step m) (λ nd. get_next m nd 0) m.tail (next_step_cell m)
      (next_step_end m) (rounds m) it ahead (omega (arith, r.counted, length-append passed ahead))
      (All-split (Holds m) passed ahead r.holds).1
      (subst (λ nd. Chain (λ q. get_next m q 0) nd ahead m.tail) (sym at)
        (Chain-behind_last (λ nd. get_next m nd 0) m.head passed ahead m.tail base))
