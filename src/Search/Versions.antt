-- ===== src/Search/Versions.antt =====
-- The walk of `find_next_max_version` (src/map.rs), which `ge`, `gt` and the seeks of an iterator end
-- with.
use skl_rs.Prelude.{
  ℕ, zero, suc, ◌≤◌, ◌<◌, ◌≡◌, refl, ◌∙◌, some, Bool, gt, inl, inr, List, [], ◌∷◌, ◌++◌, All,
  All-split, done, arith, ==_ne, leb, true, false, Ordering-cases,
}
use skl_rs.Codec.{u64_max}
use skl_rs.Comparator.{Bytes, included, Trailer}
use skl_rs.Map.{SkipMap, get_next}
use skl_rs.Map.Order.{Cell, at}
use skl_rs.Map.Repr.{Holds, IsRepr}
use skl_rs.Node.Arena.{Arena}
use skl_rs.Search.{rounds, search_ge, find_next_max_version, next_max_step, next_max_loop}
use skl_rs.Search.Bounds.{onward_walks, base-Chain}
use skl_rs.Search.From.{reaches}
use skl_rs.Search.Near.{
  Chain-after, near_on_list, near_on_list-gt, near_on_list-eq, near_on_list-lt,
}
use skl_rs.Search.Towers.{find_near_lem}

module _ {ar : Arena} {T : Type 0} ⦃tr : Trailer T⦄ (m : SkipMap ar T) (version : ℕ) where
  step_newer :
      (c d : Cell T)
      → Holds m c
      → Holds m d
      → version < tr.version c.trailer
      → tr.version d.trailer ≤ version
      → m.cmp.cmp d.key c.key ≡ gt
      → (fuel : ℕ) → 0 < fuel
      → next_max_loop m version fuel c.offset d.offset ≡ done (some c.offset)
  unfolding next_max_loop next_max_step
  step_newer c d h k newer seen above zero enough = absurd (omega arith)
  step_newer c d h k newer seen above (suc fuel) enough =
      let hidden : leb (tr.version c.trailer) version ≡ false = ground arith in
      let visible : leb (tr.version d.trailer) version ≡ true = ground arith in
      rw
        (
          h.key_read,
          h.trailer_read,
          k.key_read,
          k.trailer_read,
          ==_ne _ _ k.ne_null,
          ==_ne _ _ k.ne_head,
          above,
          hidden,
          visible,
        )
        refl

  newer_found :
      (c d : Cell T)
      → Holds m c
      → Holds m d
      → get_next m c.offset 0 ≡ done d.offset
      → version < tr.version c.trailer
      → tr.version d.trailer ≤ version
      → m.cmp.cmp d.key c.key ≡ gt
      → find_next_max_version m version c.offset ≡ done (some c.offset)
  unfolding find_next_max_version
  newer_found c d h k link newer seen above =
      rw link (step_newer c d h k newer seen above (rounds m) (omega arith))

  module _ (key : Bytes) where
    -- The place of the first cell from the key on.
    near_from :
        (x : ℕ) (passed : List (Cell T)) (c : Cell T) (rest : List (Cell T))
        → All (λ p. reaches m.cmp.cmp (included key) p.key ≡ false) passed
        → reaches m.cmp.cmp (included key) c.key ≡ true
        → tr.version c.trailer ≤ u64_max
        → (equal : Bool) × (near_on_list m.head m.tail
              (at m.cmp.cmp u64_max key)
              false
              true
              x
              (passed ++ c ∷ rest)
            ≡ (some c.offset, equal))
    near_from x [] c rest low reached small = elim (Ordering-cases (at m.cmp.cmp u64_max key c)) [
      | inr (inr above) ↦ absurd (ground (arith, reached, small))
      | inr (inl same) ↦
          (true, near_on_list-eq m.head m.tail (at m.cmp.cmp u64_max key) false true x c rest same)
      | inl below ↦ (
        false,
        near_on_list-lt m.head m.tail (at m.cmp.cmp u64_max key) false true x c rest below,
      )
    ]
    near_from x (p ∷ ps) c rest low reached small =
        let passes : at m.cmp.cmp u64_max key p ≡ gt = ground (arith, low.0) in
        let (equal, e) = near_from p.offset ps c rest low.1 reached small in
        (
          equal,
          near_on_list-gt m.head m.tail (at m.cmp.cmp u64_max key) false true x p (ps ++ c ∷ rest)
                passes
              ∙ e,
        )

    -- `ge` stops at the first cell from the key on, although it is newer than the version.
    pub search_ge-newer :
        (passed : List (Cell T)) (c d : Cell T) (ahead : List (Cell T))
        → IsRepr m (passed ++ c ∷ d ∷ ahead)
        → All (λ p. reaches m.cmp.cmp (included key) p.key ≡ false) passed
        → reaches m.cmp.cmp (included key) c.key ≡ true
        → tr.version c.trailer ≤ u64_max
        → version < tr.version c.trailer
        → tr.version d.trailer ≤ version
        → m.cmp.cmp d.key c.key ≡ gt
        → search_ge m version key ≡ done (some c.offset)
    unfolding search_ge
    search_ge-newer passed c d ahead r low reached small newer seen above =
        let (equal, near) = near_from m.head passed c (d ∷ ahead) low reached small in
        let held = (All-split (Holds m) passed (c ∷ d ∷ ahead) r.holds).1 in
        let link =
          Chain-after (λ nd. get_next m nd 0) m.head passed c (d ∷ ahead) m.tail
            (base-Chain m (passed ++ c ∷ d ∷ ahead) r) in
        rw (find_near_lem m (passed ++ c ∷ d ∷ ahead) u64_max key false true r, near)
          (onward_walks m version c.offset equal held.0.ne_null held.0.ne_tail
            ∙ newer_found c d held.0 held.1.0 link.0 newer seen above)
