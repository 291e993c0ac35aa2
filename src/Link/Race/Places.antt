-- ===== src/Link/Race/Places.antt =====
-- What a thread knows of the places on the base level while it links its node (the loop of `update`,
-- src/map.rs), and what follows of the place of the node where an exchange succeeds.
use skl_rs.Prelude.{
  ℕ, ◌≡◌, ◌≢◌, ◌⊎◌, inl, inr, refl, sym, ap, ◌∙◌, lt, gt, List, [], ◌∷◌, ◌++◌, All, All-imp,
  Pairwise, Ordering, Run, done, done-injective, arith,
}
use mathlib.Core.Path.{subst}
use skl_rs.Comparator.{Trailer}
use skl_rs.Link.Chains.{Same, KeptBut}
use skl_rs.Map.{SkipMap, order_at}
use skl_rs.Map.Order.{Cell, at, Monotone}
use skl_rs.Map.Repr.{Chain, Holds, order_at-Holds}
use skl_rs.Node.Arena.{Arena}
use skl_rs.Search.Near.{first_offset}
use skl_rs.Splice.Level.{last_offset}

module _ {T : Type 0} where
  -- Some cell lies at an offset.
  abbrev pub At : ℕ → List (Cell T) → Type 0
  At p [] = ⊥
  At p (c ∷ cs) = (p ≡ c.offset) ⊎ At p cs

  abbrev pub Has : Cell T → List (Cell T) → Type 0
  Has c [] = ⊥
  Has c (d ∷ ds) = (c ≡ d) ⊎ Has c ds

  -- No cell lies at an offset.
  abbrev pub Away : ℕ → List (Cell T) → Type 0
  Away p = All (λ c. c.offset ≢ p)

  pub At-away : (p x : ℕ) (cs : List (Cell T)) → At p cs → Away x cs → p ≢ x
  At-away p x [] h away e = elim h [ ]
  At-away p x (c ∷ cs) (inl here) away e = away.0 (sym here ∙ e)
  At-away p x (c ∷ cs) (inr there) away e = At-away p x cs there away.1 e

  pub Has-At : (c : Cell T) (cs : List (Cell T)) → Has c cs → At c.offset cs
  Has-At c [] h = elim h [ ]
  Has-At c (d ∷ ds) (inl here) = inl (ap (λ (x : Cell T). x.offset) here)
  Has-At c (d ∷ ds) (inr there) = inr (Has-At c ds there)

  pub Has-All : (P : Cell T → Type 0) (c : Cell T) (cs : List (Cell T)) → All P cs → Has c cs → P c
  Has-All P c [] h k = elim k [ ]
  Has-All P c (d ∷ ds) h (inl here) = subst P (sym here) h.0
  Has-All P c (d ∷ ds) h (inr there) = Has-All P c ds h.1 there

  module _ (c : Cell T) (ahead : List (Cell T)) where
    pub At-insert :
        (p : ℕ) (passed : List (Cell T)) → At p (passed ++ ahead) → At p (passed ++ c ∷ ahead)
    At-insert p [] h = inr h
    At-insert p (d ∷ ds) (inl here) = inl here
    At-insert p (d ∷ ds) (inr there) = inr (At-insert p ds there)

    pub Has-insert :
        (d : Cell T) (passed : List (Cell T))
        → Has d (passed ++ ahead)
        → Has d (passed ++ c ∷ ahead)
    Has-insert d [] h = inr h
    Has-insert d (e ∷ es) (inl here) = inl here
    Has-insert d (e ∷ es) (inr there) = inr (Has-insert d es there)

    pub Has-of-insert :
        (d : Cell T) (passed : List (Cell T))
        → Has d (passed ++ c ∷ ahead)
        → (d ≡ c) ⊎ Has d (passed ++ ahead)
    Has-of-insert d [] h = h
    Has-of-insert d (e ∷ es) (inl here) = inr (inl here)
    Has-of-insert d (e ∷ es) (inr there) = elim (Has-of-insert d es there) [
      | inl new ↦ inl new
      | inr old ↦ inr (inr old)
    ]

    pub Has-inserted : (passed : List (Cell T)) → Has c (passed ++ c ∷ ahead)
    Has-inserted [] = inl refl
    Has-inserted (d ∷ ds) = inr (Has-inserted ds)

  -- The place behind an offset, whose link is `n`.
  pub record Place (a stop p n : ℕ) (cells : List (Cell T)) : Type 0 where
    pub passed : List (Cell T)
    pub ahead : List (Cell T)
    pub whole : passed ++ ahead ≡ cells
    pub behind : last_offset a passed ≡ p
    pub before : first_offset stop ahead ≡ n

  module _ (next : ℕ → Run ℕ) (stop p n : ℕ) (link : next p ≡ done n) where
    first_of :
        (a : ℕ) (cs : List (Cell T)) → Chain next a cs stop → p ≡ a → first_offset stop cs ≡ n
    unfolding first_offset
    first_of a [] chain e = done-injective (sym chain ∙ ap next (sym e) ∙ link)
    first_of a (c ∷ cs) chain e = done-injective (sym chain.0 ∙ ap next (sym e) ∙ link)

    pub place :
        (a : ℕ) (cs : List (Cell T))
        → Chain next a cs stop
        → (p ≡ a) ⊎ At p cs
        → Place a stop p n cs
    unfolding last_offset
    place a cs chain (inl e) = record {
      passed = [];
      ahead = cs;
      whole = refl;
      behind = sym e;
      before = first_of a cs chain e;
    }
    place a [] chain (inr h) = elim h [ ]
    place a (c ∷ cs) chain (inr h) =
        let s = place c.offset cs chain.1 h in
        record {
          passed = c ∷ s.passed;
          ahead = s.ahead;
          whole = ap (λ (l : List (Cell T)). c ∷ l) s.whole;
          behind = s.behind;
          before = s.before;
        }

  away_last :
      (a : ℕ) (c : Cell T) (cs : List (Cell T)) → Away a (c ∷ cs) → last_offset c.offset cs ≢ a
  unfolding last_offset
  away_last a c [] away = away.0
  away_last a c (d ∷ ds) away = away_last a d ds away.1

  module _ (next next' : ℕ → Run ℕ) (p : ℕ) (kept : (q : ℕ) → q ≢ p → next' q ≡ next q) where
    -- Only the link of the last cell has changed.
    pub kept_but :
        (a : ℕ) (passed : List (Cell T))
        → last_offset a passed ≡ p
        → Away a passed
        → Pairwise (λ c d. c.offset ≢ d.offset) passed
        → KeptBut next next' a passed
    unfolding last_offset
    kept_but a [] e away apart = tt
    kept_but a (c ∷ cs) e away apart = (
      kept a (λ same. away_last a c cs away (e ∙ sym same)),
      kept_but c.offset cs e (All-imp (λ d ne e'. ne (sym e')) cs apart.0) apart.1,
    )

    pub Same-ahead : (cs : List (Cell T)) → Away p cs → All (Same next next') cs
    Same-ahead = All-imp (λ c ne. kept c.offset ne)

module _ {ar : Arena} {T : Type 0} ⦃tr : Trailer T⦄ (m : SkipMap ar T) (c : Cell T) where
  abbrev pub query : ℕ → Run Ordering
  query = order_at m (tr.version c.trailer) c.key

  -- The node of a thread is to come after a node, or before one.
  abbrev pub Below : ℕ → Type 0
  Below p = (p ≡ m.head) ⊎ (query p ≡ done gt)

  abbrev pub Above : ℕ → Type 0
  Above n = (n ≡ m.tail) ⊎ (query n ≡ done lt)

  abbrev place_of : Cell T → Ordering
  place_of d = at m.cmp.cmp (tr.version c.trailer) c.key d

  Below-Holds : (d : Cell T) → Holds m d → Below d.offset → place_of d ≡ gt
  Below-Holds d h (inl e) = absurd (h.ne_head e)
  Below-Holds d h (inr e) =
      done-injective (sym (order_at-Holds m (tr.version c.trailer) c.key d h) ∙ e)

  Above-Holds : (d : Cell T) → Holds m d → Above d.offset → place_of d ≡ lt
  Above-Holds d h (inl e) = absurd (h.ne_tail e)
  Above-Holds d h (inr e) =
      done-injective (sym (order_at-Holds m (tr.version c.trailer) c.key d h) ∙ e)

  pub all_passed :
      (a : ℕ) (passed : List (Cell T))
      → Monotone m.cmp.cmp (tr.version c.trailer) c.key passed
      → All (Holds m) passed
      → Below (last_offset a passed)
      → All (λ d. place_of d ≡ gt) passed
  unfolding last_offset
  all_passed a [] mono h b = tt
  all_passed a (d ∷ []) mono h b = (Below-Holds d h.0 b, tt)
  all_passed a (d ∷ e ∷ es) mono h b =
      let rest = all_passed d.offset (e ∷ es) mono.1 h.1 b in
      (ground (arith, rest.0, mono.0.0), rest)

  pub all_ahead :
      (ahead : List (Cell T))
      → Monotone m.cmp.cmp (tr.version c.trailer) c.key ahead
      → All (Holds m) ahead
      → Above (first_offset m.tail ahead)
      → All (λ d. place_of d ≡ lt) ahead
  unfolding first_offset
  all_ahead [] mono h b = tt
  all_ahead (d ∷ ds) mono h b =
      let first = Above-Holds d h.0 b in
      (first, All-imp (λ e k. ground (arith, first, k)) ds mono.0)
