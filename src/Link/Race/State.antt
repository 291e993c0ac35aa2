-- ===== src/Link/Race/State.antt =====
-- The base level while threads link their nodes there (the loop of `update`, src/map.rs): what holds of
-- its links, what a thread knows, and what of it no other thread can undo.
use mathlib.Core.Path.{subst}
use skl_rs.Prelude.{
  ℕ, ◌≡◌, ◌≢◌, ◌⊎◌, inl, inr, refl, sym, ap, ◌∙◌, eq, Option, some, Bool-cases, List, [], ◌∷◌, All,
  All-imp, Pairwise, ==_ne, ==_refl, eq_of_==, ◌==◌, Run, done, ◌>>=◌, done-injective, >>=-eq-done,
  arith,
}
use skl_rs.Comparator.{Trailer}
use skl_rs.Comparator.Laws.{IsLawful}
use skl_rs.Link.{update, with_links}
use skl_rs.Link.Chains.{Chain-congr}
use skl_rs.Link.Race.{
  Move, writing, checking, doubting, helping, linking, returning, seeking, finished, meeting,
}
use skl_rs.Link.Race.Places.{At, At-away, Has, Away, Below, Above}
use skl_rs.Map.{SkipMap, get_next, tower}
use skl_rs.Map.Order.{Cell, at, IsSorted}
use skl_rs.Map.Repr.{Chain, Holds}
use skl_rs.Value.Clear.{some_of_deref}
use skl_rs.Node.{Link, tower_offset, is_null, deref}
use skl_rs.Node.Arena.{Arena}

module _ {ar : Arena} {T : Type 0} ⦃tr : Trailer T⦄ (m : SkipMap ar T) where
  abbrev pub over : (ℕ → Option Link) → SkipMap ar T
  over links = with_links m links

  abbrev pub next_of : (ℕ → Option Link) → ℕ → Run ℕ
  next_of links q = get_next (over links) q 0

  abbrev pub HasLink : (ℕ → Option Link) → ℕ → Type 0
  HasLink links q = (l : Link) × (links (tower_offset q 0) ≡ some l)

  -- The base level leads through the cells, in order.
  pub record Level (links : ℕ → Option Link) (cells : List (Cell T)) : Type 0 where
    pub lawful : IsLawful m.cmp.cmp
    pub head_ne_null : m.head ≢ 0
    pub tail_link : HasLink links m.tail
    pub chain : Chain (next_of links) m.head cells m.tail
    pub sorted : IsSorted m.cmp.cmp cells
    pub holds : All (Holds m) cells
    pub apart : Pairwise (λ c d. c.offset ≢ d.offset) cells

  module _ (c : Cell T) (links : ℕ → Option Link) (cells : List (Cell T)) where
    -- A node of the list that the new one comes after, or before.
    abbrev pub IsBefore : ℕ → Type 0
    IsBefore p = ((p ≡ m.head) ⊎ At p cells) × Below m c p

    abbrev pub IsAfter : ℕ → Type 0
    IsAfter n = ((n ≡ m.tail) ⊎ At n cells) × Above m c n

    abbrev pub IsWritten : (p n : ℕ) → Type 0
    IsWritten p n = Away c.offset cells × IsBefore p × IsAfter n × (next_of links c.offset ≡ done n)

    -- What a thread with a node for the cell knows.
    abbrev pub Knows : Move → Type 0
    Knows (writing p n) = Away c.offset cells × IsBefore p × IsAfter n
    Knows (checking p n) = IsWritten p n
    Knows (doubting p n seen) = IsWritten p n
    Knows (helping p n seen) = IsWritten p n
    Knows (linking p n) = IsWritten p n
    Knows (returning p n) = Has c cells × ((n ≡ m.tail) ⊎ At n cells)
    Knows (seeking p) = Away c.offset cells × IsBefore p
    Knows finished = Has c cells
    Knows (meeting q) =
        (d : Cell T) × Has d cells
        × (d.offset ≡ q)
        × (at m.cmp.cmp (tr.version c.trailer) c.key d ≡ eq)

  -- What has not changed for the `others`: the nodes of the list are still there, and a node that is
  -- not in it is as its thread left it.
  pub record Later (others : ℕ → Type 0) (links : ℕ → Option Link) (cells : List (Cell T))
      (links' : ℕ → Option Link) (cells' : List (Cell T)) : Type 0 where
    pub next_kept :
        (q : ℕ) → others q → Away q cells → q ≢ m.head → next_of links' q ≡ next_of links q
    pub at_kept : (q : ℕ) → At q cells → At q cells'
    pub has_kept : (d : Cell T) → Has d cells → Has d cells'
    pub away_kept : (q : ℕ) → others q → Away q cells → Away q cells'

  module _ (others : ℕ → Type 0) (links links' : ℕ → Option Link) (cells cells' : List (Cell T))
      (l : Later others links cells links' cells') (c : Cell T) (h : Holds m c)
      (other : others c.offset) where
    IsBefore-kept : (p : ℕ) → IsBefore c links cells p → IsBefore c links' cells' p
    IsBefore-kept p (inl e, b) = (inl e, b)
    IsBefore-kept p (inr k, b) = (inr (l.at_kept p k), b)

    IsAfter-kept : (n : ℕ) → IsAfter c links cells n → IsAfter c links' cells' n
    IsAfter-kept n (inl e, b) = (inl e, b)
    IsAfter-kept n (inr k, b) = (inr (l.at_kept n k), b)

    IsWritten-kept : (p n : ℕ) → IsWritten c links cells p n → IsWritten c links' cells' p n
    IsWritten-kept p n (away, b, a, w) = (
      l.away_kept c.offset other away,
      IsBefore-kept p b,
      IsAfter-kept n a,
      l.next_kept c.offset other away h.ne_head ∙ w,
    )

    pub Knows-Later : (move : Move) → Knows c links cells move → Knows c links' cells' move
    Knows-Later (writing p n) (away, b, a) =
        (l.away_kept c.offset other away, IsBefore-kept p b, IsAfter-kept n a)
    Knows-Later (checking p n) k = IsWritten-kept p n k
    Knows-Later (doubting p n seen) k = IsWritten-kept p n k
    Knows-Later (helping p n seen) k = IsWritten-kept p n k
    Knows-Later (linking p n) k = IsWritten-kept p n k
    Knows-Later (returning p n) (here, inl e) = (l.has_kept c here, inl e)
    Knows-Later (returning p n) (here, inr k) = (l.has_kept c here, inr (l.at_kept n k))
    Knows-Later (seeking p) (away, b) = (l.away_kept c.offset other away, IsBefore-kept p b)
    Knows-Later finished here = l.has_kept c here
    Knows-Later (meeting q) (d, here, e, same) = (d, l.has_kept d here, e, same)

  -- The link of a node, and where `next` leads from it.
  pub link_of_next :
      (links : ℕ → Option Link) (q n : ℕ)
      → q ≢ 0
      → next_of links q ≡ done n
      → (l : Link) × (links (tower_offset q 0) ≡ some l) × (l.next_offset ≡ n)
  unfolding get_next tower is_null
  link_of_next links q n ne e =
      let e' : (deref (links (tower_offset q 0)) >>= λ l. done l.next_offset) ≡ done n =
        rw (==_ne q 0 ne) at e in
      let (l, found, next) = >>=-eq-done (deref (links (tower_offset q 0))) _ e' in
      (l, some_of_deref (links (tower_offset q 0)) l found, done-injective next)

  pub next_here :
      (links : ℕ → Option Link) (q : ℕ) (l : Link)
      → q ≢ 0
      → next_of (update links (tower_offset q 0) (some l)) q ≡ done l.next_offset
  unfolding get_next tower is_null
  next_here links q l ne = rw (==_ne q 0 ne, ==_refl (tower_offset q 0))

  pub next_elsewhere :
      (links : ℕ → Option Link) (at q : ℕ) (l : Link)
      → q ≢ at
      → next_of (update links (tower_offset at 0) (some l)) q ≡ next_of links q
  unfolding get_next tower is_null
  next_elsewhere links at q l ne =
      rw (==_ne (tower_offset q 0) (tower_offset at 0) (λ e. ne (omega (arith, e)))) refl

  -- A link back plays no part in where `next` leads.
  pub next_back :
      (links : ℕ → Option Link) (at q : ℕ) (l l' : Link)
      → links (tower_offset at 0) ≡ some l
      → l'.next_offset ≡ l.next_offset
      → next_of (update links (tower_offset at 0) (some l')) q ≡ next_of links q
  unfolding get_next tower is_null
  next_back links at q l l' found same = elim (Bool-cases (q == at)) [
    | inl here ↦ rw (eq_of_== q at here, ==_refl (tower_offset at 0), found, same)
    | inr there ↦ next_elsewhere links at q l' (λ e. ground (arith, e, there))
  ]

  module _ (links : ℕ → Option Link) (cells : List (Cell T)) (l : Level links cells) where
    not_null : (cs : List (Cell T)) → All (Holds m) cs → Away 0 cs
    not_null = All-imp (λ c h. h.ne_null)

    pub before_ne_null : (q : ℕ) → (q ≡ m.head) ⊎ At q cells → q ≢ 0
    before_ne_null q (inl e) = λ z. l.head_ne_null (sym e ∙ z)
    before_ne_null q (inr k) = At-away q 0 cells k (not_null cells l.holds)

    pub next_before :
        (a p : ℕ) (cs : List (Cell T))
        → Chain (next_of links) a cs m.tail
        → (p ≡ a) ⊎ At p cs
        → (n : ℕ) × (next_of links p ≡ done n)
    next_before a p [] chain (inl e) = (m.tail, ap (next_of links) e ∙ chain)
    next_before a p [] chain (inr k) = elim k [ ]
    next_before a p (c ∷ cs) chain (inl e) = (c.offset, ap (next_of links) e ∙ chain.0)
    next_before a p (c ∷ cs) chain (inr k) = next_before c.offset p cs chain.1 k

    -- The link of a node of the list leads to the tail, or to a cell.
    pub next_cases :
        (a p : ℕ) (cs : List (Cell T))
        → Chain (next_of links) a cs m.tail
        → (p ≡ a) ⊎ At p cs
        → (next_of links p ≡ done m.tail)
          ⊎ ((d : Cell T) × Has d cs × (next_of links p ≡ done d.offset))
    next_cases a p [] chain (inl e) = inl (ap (next_of links) e ∙ chain)
    next_cases a p [] chain (inr k) = elim k [ ]
    next_cases a p (c ∷ cs) chain (inl e) = inr (c, inl refl, ap (next_of links) e ∙ chain.0)
    next_cases a p (c ∷ cs) chain (inr k) = elim (next_cases c.offset p cs chain.1 k) [
      | inl e ↦ inl e
      | inr (d, has, e) ↦ inr (d, inr has, e)
    ]

    pub before_link :
        (p : ℕ)
        → (p ≡ m.head) ⊎ At p cells
        → (n : ℕ) × (x : Link) × (next_of links p ≡ done n)
          × (links (tower_offset p 0) ≡ some x)
          × (x.next_offset ≡ n)
    before_link p b =
        let (n, e) = next_before m.head p cells l.chain b in
        let (x, found, next) = link_of_next links p n (before_ne_null p b) e in
        (n, x, e, found, next)

    pub after_link : (q : ℕ) → (q ≡ m.tail) ⊎ At q cells → HasLink links q
    after_link q (inl e) = subst (HasLink links) (sym e) l.tail_link
    after_link q (inr k) = let (n, x, e, found, next) = before_link q (inr k) in (x, found)

    -- Where no link to a next node has changed, the level is as it was.
    pub Level-quiet :
        (others : ℕ → Type 0) (links' : ℕ → Option Link)
        → ((q : ℕ) → others q → next_of links' q ≡ next_of links q)
        → others m.head
        → All (λ c. others c.offset) cells
        → HasLink links' m.tail
        → Level links' cells
    Level-quiet others links' same head all tail = record {
      lawful = l.lawful;
      head_ne_null = l.head_ne_null;
      tail_link = tail;
      chain =
          Chain-congr (next_of links) (next_of links') m.head cells m.tail l.chain
            (same m.head head) (All-imp (λ c. same c.offset) cells all);
      sorted = l.sorted;
      holds = l.holds;
      apart = l.apart;
    }
