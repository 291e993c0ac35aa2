-- ===== src/Iterator/Prev.antt =====
-- `prev` of an iterator (src/map/iterator/all_versions.rs) against the list of cells.
use skl_rs.Prelude.{
  ℕ, ◌≡◌, sym, none, List, [], ◌∷◌, ◌++◌, All, All-split, All-append, length, length-append, Run,
  done, arith, ==_ne, ==_refl,
}
use mathlib.Core.List.{reverse, reverse-cons}
use mathlib.Core.Path.{subst}
use skl_rs.Comparator.{Trailer}
use skl_rs.Iterator.{AllVersionsIter, ends, prev_step, prev}
use skl_rs.Iterator.Walk.{first_shown, met, offer_lem, repeat-first_shown}
use skl_rs.Map.{SkipMap, get_prev}
use skl_rs.Map.Order.{Cell}
use skl_rs.Map.Repr.{Chain, BackChain, Holds, IsRepr}
use skl_rs.Node.{is_null}
use skl_rs.Node.Arena.{Arena}
use skl_rs.Search.{rounds}
use skl_rs.Search.Near.{first_offset}
use skl_rs.Search.Towers.{keep-tall_zero}

module _ {ar : Arena} {T : Type 0} ⦃tr : Trailer T⦄ (m : SkipMap ar T) where
  prev_step_cell :
      (it : AllVersionsIter T) (c : Cell T)
      → Holds m c
      → get_prev m it.nd 0 ≡ done c.offset
      → prev_step m it ≡ done (met m it c)
  unfolding prev_step is_null
  prev_step_cell it c h e = rw (e, ==_ne _ _ h.ne_null, ==_ne _ _ h.ne_head) (offer_lem m it c h)

  prev_step_end :
      (it : AllVersionsIter T)
      → get_prev m it.nd 0 ≡ done m.head
      → prev_step m it ≡ done (ends none (record it { nd = m.head }))
  unfolding prev_step is_null
  prev_step_end it e = rw (e, ==_refl m.head) (ground arith)

module _ {T : Type 0} (back : ℕ → Run ℕ) where
  BackChain-before :
      (a : ℕ) (xs ys : List (Cell T)) (end : ℕ)
      → BackChain back a (xs ++ ys) end
      → BackChain back a xs (first_offset end ys)
  unfolding first_offset
  BackChain-before a [] [] end b = b
  BackChain-before a [] (y ∷ ys) end b = b.0
  BackChain-before a (x ∷ xs) ys end b = (b.0, BackChain-before x.offset xs ys end b.1)

  Chain-snoc :
      (a : ℕ) (xs : List (Cell T)) (c : Cell T) (stop : ℕ)
      → Chain back a xs c.offset
      → back c.offset ≡ done stop
      → Chain back a (xs ++ c ∷ []) stop
  Chain-snoc a [] c stop h e = (h, e)
  Chain-snoc a (x ∷ xs) c stop h e = (h.0, Chain-snoc x.offset xs c stop h.1 e)

  -- A chain back through the cells is a chain through the cells in reverse.
  BackChain-Chain :
      (a : ℕ) (cs : List (Cell T)) (stop : ℕ)
      → BackChain back a cs stop
      → Chain back stop (reverse cs) a
  BackChain-Chain a [] stop b = b
  BackChain-Chain a (c ∷ cs) stop b =
      subst (λ l. Chain back stop l a) (sym (reverse-cons c cs))
        (Chain-snoc stop (reverse cs) c a (BackChain-Chain c.offset cs stop b.1) b.0)

All-reverse : {A : Type 0} (P : A → Type 0) (xs : List A) → All P xs → All P (reverse xs)
All-reverse P [] h = tt
All-reverse P (x ∷ xs) h =
    subst (All P) (sym (reverse-cons x xs))
      (All-append P (reverse xs) (x ∷ []) (All-reverse P xs h.1) (h.0, tt))

length-reverse : {A : Type 0} (xs : List A) → length (reverse xs) ≡ length xs
length-reverse [] = omega arith
length-reverse (x ∷ xs) =
    rw (reverse-cons x xs) (omega (arith, length-append (reverse xs) (x ∷ []), length-reverse xs))

-- On a map that stands for cells, an iterator that stands at a cell or at the tail yields with `prev`
-- the last cell before it that it shows, and stands there then; where there is none, it yields
-- nothing and stands at the head. It always returns.
pub prev-first_shown :
    {ar : Arena} {T : Type 0} ⦃tr : Trailer T⦄ (m : SkipMap ar T) (passed ahead : List (Cell T))
    (it : AllVersionsIter T)
    → IsRepr m (passed ++ ahead)
    → it.nd ≡ first_offset m.tail ahead
    → prev m it ≡ done (first_shown m m.head it (reverse passed))
unfolding prev
prev-first_shown m passed ahead it r at =
    let base =
      subst (λ cs. BackChain (λ nd. get_prev m nd 0) m.head cs m.tail)
        (keep-tall_zero m (passed ++ ahead) r.holds)
        (r.backs 0 (omega (arith, r.height_pos, r.height_max))) in
    repeat-first_shown m (prev_step m) (λ nd. get_prev m nd 0) m.head (prev_step_cell m)
      (prev_step_end m) (rounds m) it (reverse passed)
      (omega (arith, r.counted, length-append passed ahead, length-reverse passed))
      (All-reverse (Holds m) passed (All-split (Holds m) passed ahead r.holds).0)
      (subst (λ nd. Chain (λ q. get_prev m q 0) nd (reverse passed) m.head) (sym at)
        (BackChain-Chain (λ nd. get_prev m nd 0) m.head passed (first_offset m.tail ahead)
          (BackChain-before (λ nd. get_prev m nd 0) m.head passed ahead m.tail base)))
