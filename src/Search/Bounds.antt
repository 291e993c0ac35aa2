-- ===== src/Search/Bounds.antt =====
-- `ge` and `gt` (src/map.rs) against the list of cells, for a version that sees the cells.
use skl_rs.Prelude.{
  ℕ, zero, suc, ◌≤◌, ◌<◌, ◌≡◌, ◌≢◌, ◌∙◌, refl, inl, inr, Bool, true, false, some, eq, List, [], ◌∷◌,
  leb, All, All-imp, Run, done, arith, Ordering-cases, Bool-cases, ◌==◌, ==_ne, ==_refl,
}
use mathlib.Core.Path.{subst}
use skl_rs.Comparator.{Bytes, Bound, included, excluded, Trailer}
use skl_rs.Comparator.Laws.{IsLawful}
use skl_rs.Map.{SkipMap, get_next}
use skl_rs.Map.Order.{Cell, at, IsSorted, Before}
use skl_rs.Map.Repr.{Chain, Holds, IsRepr}
use skl_rs.Node.{is_null}
use skl_rs.Node.Arena.{Arena}
use skl_rs.Search.{
  rounds, u64_max, onward, search_ge, search_gt, find_next_max_version, next_max_step,
  next_max_loop,
}
use skl_rs.Search.From.{reaches, first_from, first_from-hit, first_from-miss, offset_of}
use skl_rs.Search.Near.{
  first_offset, near_on_list, near_on_list-gt, near_on_list-eq, near_on_list-lt,
}
use skl_rs.Search.Towers.{find_near_lem, keep-tall_zero}

Chain-first :
    {T : Type 0} (next : ℕ → Run ℕ) (a : ℕ) (cs : List (Cell T)) (stop : ℕ)
    → Chain next a cs stop
    → next a ≡ done (first_offset stop cs)
unfolding first_offset
Chain-first next a [] stop chain = chain
Chain-first next a (c ∷ cs) stop chain = chain.0

pub base-Chain :
    {ar : Arena} {T : Type 0} ⦃tr : Trailer T⦄ (m : SkipMap ar T) (cells : List (Cell T))
    → IsRepr m cells
    → Chain (λ nd. get_next m nd 0) m.head cells m.tail
base-Chain m cells r =
    subst (λ cs. Chain (λ nd. get_next m nd 0) m.head cs m.tail) (keep-tall_zero m cells r.holds)
      (r.levels 0 (omega (arith, r.height_pos, r.height_max)))

module _ {ar : Arena} {T : Type 0} ⦃tr : Trailer T⦄ (m : SkipMap ar T) (version : ℕ) where
  abbrev pub Sees : Cell T → Type 0
  Sees c = tr.version c.trailer ≤ version

  abbrev next_at : ℕ → Run ℕ
  next_at nd = get_next m nd 0

  loop_seen :
      (c : Cell T) (next fuel : ℕ)
      → Holds m c
      → Sees c
      → 0 < fuel
      → next_max_loop m version fuel c.offset next ≡ done (some c.offset)
  unfolding next_max_loop next_max_step
  loop_seen c next zero h seen enough = absurd (omega arith)
  loop_seen c next (suc fuel) h seen enough =
      let visible : leb (tr.version c.trailer) version ≡ true = ground arith in
      rw (h.key_read, h.trailer_read, visible) refl

  found_seen :
      (c : Cell T) (next : ℕ)
      → Holds m c
      → Sees c
      → get_next m c.offset 0 ≡ done next
      → find_next_max_version m version c.offset ≡ done (some c.offset)
  unfolding find_next_max_version
  found_seen c next h seen link = rw link (loop_seen c next (rounds m) h seen (omega arith))

  pub onward_walks :
      (nd : ℕ) (equal : Bool)
      → nd ≢ 0
      → nd ≢ m.tail
      → onward m version (some nd, equal) ≡ find_next_max_version m version nd
  unfolding onward is_null
  onward_walks nd equal ne_null ne_tail = rw (==_ne _ _ ne_null, ==_ne _ _ ne_tail) refl

  onward_seen :
      (c : Cell T) (cs : List (Cell T)) (equal : Bool)
      → Holds m c
      → Sees c
      → Chain next_at c.offset cs m.tail
      → onward m version (some c.offset, equal) ≡ done (some c.offset)
  onward_seen c cs equal h seen chain =
      onward_walks c.offset equal h.ne_null h.ne_tail
      ∙ found_seen c _ h seen (Chain-first next_at c.offset cs m.tail chain)

  -- Where all cells are within the bound, the first one is found.
  onward_first :
      (cs : List (Cell T)) (a : ℕ)
      → All (Holds m) cs
      → All Sees cs
      → Chain next_at a cs m.tail
      → (bound : Bound) → All (λ c. reaches m.cmp.cmp bound c.key ≡ true) cs
      → onward m version (some (first_offset m.tail cs), false)
        ≡ done (offset_of (first_from m.cmp.cmp bound cs))
  unfolding first_offset first_from onward is_null
  onward_first [] a h seen chain bound above = elim (Bool-cases (m.tail == 0)) [
    | inl null ↦ rw (null) refl
    | inr e ↦ rw (e, ==_refl m.tail) refl
  ]
  onward_first (c ∷ cs) a h seen chain bound above =
      rw (first_from-hit m.cmp.cmp bound c cs above.0) (onward_seen c cs false h.0 seen.0 chain.1)

  module _ (key : Bytes) where
    -- The answer for `ge`: the place is that of the key with the greatest version.
    ge_on_list :
        (x : ℕ) (cs : List (Cell T))
        → All (Holds m) cs
        → All Sees cs
        → version ≤ u64_max
        → Chain next_at x cs m.tail
        → onward m version (near_on_list m.head m.tail (at m.cmp.cmp u64_max key) false true x cs)
          ≡ done (offset_of (first_from m.cmp.cmp (included key) cs))
    unfolding near_on_list first_from onward
    ge_on_list x [] h seen small chain = refl
    ge_on_list x (c ∷ cs) h seen small chain = elim (Ordering-cases (at m.cmp.cmp u64_max key c)) [
      | inr (inr above) ↦
          let missed : reaches m.cmp.cmp (included key) c.key ≡ false = ground (arith, seen.0) in
          rw
            (
              near_on_list-gt m.head m.tail (at m.cmp.cmp u64_max key) false true x c cs above,
              first_from-miss m.cmp.cmp (included key) c cs missed,
            )
            (ge_on_list c.offset cs h.1 seen.1 small chain.1)
      | inr (inl same) ↦
          let hit : reaches m.cmp.cmp (included key) c.key ≡ true = ground arith in
          rw
            (
              near_on_list-eq m.head m.tail (at m.cmp.cmp u64_max key) false true x c cs same,
              first_from-hit m.cmp.cmp (included key) c cs hit,
            )
            (onward_seen c cs true h.0 seen.0 chain.1)
      | inl below ↦
          let hit : reaches m.cmp.cmp (included key) c.key ≡ true = ground arith in
          rw
            (
              near_on_list-lt m.head m.tail (at m.cmp.cmp u64_max key) false true x c cs below,
              first_from-hit m.cmp.cmp (included key) c cs hit,
            )
            (onward_seen c cs false h.0 seen.0 chain.1)
    ]

    module _ (laws : IsLawful m.cmp.cmp) where
      beyond :
          (c d : Cell T)
          → at m.cmp.cmp 0 key c ≡ eq
          → Before m.cmp.cmp c d
          → reaches m.cmp.cmp (excluded key) d.key ≡ true
      beyond c d same before = ground (arith, laws.eq_cmp key c.key d.key)

      -- The answer for `gt`: the place is that of the key with the least version.
      gt_on_list :
          (x : ℕ) (cs : List (Cell T))
          → All (Holds m) cs
          → All Sees cs
          → IsSorted m.cmp.cmp cs
          → Chain next_at x cs m.tail
          → onward m version (near_on_list m.head m.tail (at m.cmp.cmp 0 key) false false x cs)
            ≡ done (offset_of (first_from m.cmp.cmp (excluded key) cs))
      unfolding near_on_list first_from onward
      gt_on_list x [] h seen sorted chain = refl
      gt_on_list x (c ∷ cs) h seen sorted chain = elim (Ordering-cases (at m.cmp.cmp 0 key c)) [
        | inr (inr above) ↦
            let missed : reaches m.cmp.cmp (excluded key) c.key ≡ false = ground arith in
            rw
              (
                near_on_list-gt m.head m.tail (at m.cmp.cmp 0 key) false false x c cs above,
                first_from-miss m.cmp.cmp (excluded key) c cs missed,
              )
              (gt_on_list c.offset cs h.1 seen.1 sorted.1 chain.1)
        | inr (inl same) ↦
            let missed : reaches m.cmp.cmp (excluded key) c.key ≡ false = ground arith in
            rw
              (
                near_on_list-eq m.head m.tail (at m.cmp.cmp 0 key) false false x c cs same,
                first_from-miss m.cmp.cmp (excluded key) c cs missed,
              )
              (onward_first cs c.offset h.1 seen.1 chain.1 (excluded key)
                (All-imp (λ d before. beyond c d same before) cs sorted.0))
        | inl below ↦
            let hit : reaches m.cmp.cmp (excluded key) c.key ≡ true = ground arith in
            rw
              (
                near_on_list-lt m.head m.tail (at m.cmp.cmp 0 key) false false x c cs below,
                first_from-hit m.cmp.cmp (excluded key) c cs hit,
              )
              (onward_seen c cs false h.0 seen.0 chain.1)
      ]

  module _ (cells : List (Cell T)) (r : IsRepr m cells) (seen : All Sees cells) (key : Bytes) where
    pub search_ge-first_from :
        version ≤ u64_max
        → search_ge m version key ≡ done (offset_of (first_from m.cmp.cmp (included key) cells))
    unfolding search_ge
    search_ge-first_from small =
        rw (find_near_lem m cells u64_max key false true r)
          (ge_on_list key m.head cells r.holds seen small (base-Chain m cells r))

    pub search_gt-first_from :
        search_gt m version key ≡ done (offset_of (first_from m.cmp.cmp (excluded key) cells))
    unfolding search_gt
    search_gt-first_from =
        rw (find_near_lem m cells 0 key false false r)
          (gt_on_list key r.lawful m.head cells r.holds seen r.sorted (base-Chain m cells r))
