-- ===== src/Link/Race/Wins.antt =====
-- The exchange by which a thread links its node on the base level (the loop of `update`, src/map.rs).
use mathlib.Core.Path.{subst}
use skl_rs.Prelude.{
  ℕ, ◌≡◌, ◌≢◌, ◌⊎◌, inl, inr, refl, sym, ap, ◌∙◌, lt, gt, some, Option, true, Bool-cases, List, [],
  ◌∷◌, ◌++◌, All, All-imp, All-insert, All-split, Across, Pairwise-split, Pairwise-insert, ◌==◌,
  eq_of_==, done,
}
use skl_rs.Comparator.{Trailer}
use skl_rs.Link.{update, cas_next_offset}
use skl_rs.Link.Chains.{Chain-insert}
use skl_rs.Link.Preserve.{IsSorted-inserted}
use skl_rs.Link.Race.{linking, returning, seeking, act}
use skl_rs.Link.Race.Acts.{Acts, nothing, HasLink-update}
use skl_rs.Link.Race.Places.{
  At, At-away, At-insert, Has-insert, Has-inserted, Has-of-insert, Away, place, kept_but,
  Same-ahead, Below, Above, all_passed, all_ahead,
}
use skl_rs.Link.Race.State.{
  next_of, Level, IsWritten, next_here, next_elsewhere, before_link, before_ne_null,
}
use skl_rs.Map.{SkipMap, tower}
use skl_rs.Map.Order.{Cell, at, Before, IsSorted-Monotone}
use skl_rs.Map.Repr.{Holds}
use skl_rs.Node.{Link, tower_offset}
use skl_rs.Node.Arena.{Arena}
use skl_rs.Search.Near.{first_offset}
use skl_rs.Splice.Level.{last_offset}

last_away :
    {T : Type 0} (a : ℕ) (passed ahead : List (Cell T))
    → Away a ahead
    → Across (λ c d. c.offset ≢ d.offset) passed ahead
    → Away (last_offset a passed) ahead
unfolding last_offset
last_away a [] ahead away across = away
last_away a (c ∷ cs) ahead away across =
    last_away c.offset cs ahead (All-imp (λ d ne e. ne (sym e)) ahead across.0) across.1

module _ {ar : Arena} {T : Type 0} ⦃tr : Trailer T⦄ (m : SkipMap ar T) (c : Cell T) (h : Holds m c)
    (links : ℕ → Option Link) (p n : ℕ) where
  module _ (passed ahead : List (Cell T)) (l : Level m links (passed ++ ahead))
      (k : IsWritten m c links (passed ++ ahead) p n) (behind : last_offset m.head passed ≡ p)
      (before : first_offset m.tail ahead ≡ n) (x : Link)
      (found : links (tower_offset p 0) ≡ some x) (free : (x.next_offset == n) ≡ true) where
    abbrev cells : List (Cell T)
    cells = passed ++ ahead

    abbrev linked : Link
    linked = record x { next_offset = c.offset }

    abbrev after : ℕ → Option Link
    after = update links (tower_offset p 0) (some linked)

    kept : (q : ℕ) → q ≢ p → next_of m after q ≡ next_of m links q
    kept q = next_elsewhere m links p q linked

    not_new : (q : ℕ) → (q ≡ m.head) ⊎ At q cells → (y : ℕ) → Away y cells → y ≢ m.head → y ≢ q
    not_new q (inl e) y away ne e' = ne (e' ∙ e)
    not_new q (inr known) y away ne e' = At-away q y cells known away (sym e')

    sorted_parts :
        All (λ d. at m.cmp.cmp (tr.version c.trailer) c.key d ≡ gt) passed
        × All (λ d. at m.cmp.cmp (tr.version c.trailer) c.key d ≡ lt) ahead
    sorted_parts =
        let version = tr.version c.trailer in
        let (sp, sa, _) = Pairwise-split (Before m.cmp.cmp) passed ahead l.sorted in
        let (hp, ha) = All-split (Holds m) passed ahead l.holds in
        (
          all_passed m c m.head passed
              (IsSorted-Monotone m.cmp.cmp l.lawful version c.key passed sp) hp
              (subst (Below m c) (sym behind) k.1.1),
          all_ahead m c ahead (IsSorted-Monotone m.cmp.cmp l.lawful version c.key ahead sa) ha
              (subst (Above m c) (sym before) k.2.1),
        )

    still_after : (n ≡ m.tail) ⊎ At n cells → (n ≡ m.tail) ⊎ At n (passed ++ c ∷ ahead)
    still_after (inl e) = inl e
    still_after (inr known) = inr (At-insert c ahead n passed known)

    Level-won : Level m after (passed ++ c ∷ ahead)
    Level-won =
        let (away, b, a, w) = k in
        let (away_passed, away_ahead) = All-split (λ d. d.offset ≢ c.offset) passed ahead away in
        let (apart_passed, apart_ahead, across) =
          Pairwise-split (λ d e. d.offset ≢ e.offset) passed ahead l.apart in
        let head_away = All-imp (λ d k. k.ne_head) cells l.holds in
        let (head_passed, head_ahead) = All-split (λ d. d.offset ≢ m.head) passed ahead head_away in
        let (lower, higher) = sorted_parts in
        record {
          lawful = l.lawful;
          head_ne_null = l.head_ne_null;
          tail_link = HasLink-update m links m.tail (tower_offset p 0) linked l.tail_link;
          chain =
              Chain-insert (next_of m links) (next_of m after) m.head passed c ahead m.tail l.chain
                (kept_but (next_of m links) (next_of m after) p kept m.head passed behind
                  head_passed apart_passed)
                (Same-ahead (next_of m links) (next_of m after) p kept ahead (
                  subst (λ (q : ℕ). Away q ahead) behind
                    (last_away m.head passed ahead head_ahead across)))
                (ap (next_of m after) behind
                  ∙ next_here m links p linked (before_ne_null m links cells l p b.0))
                (kept c.offset (not_new p b.0 c.offset away h.ne_head) ∙ w ∙ ap done (sym before));
          sorted = IsSorted-inserted m l.lawful c passed ahead l.sorted lower higher;
          holds = All-insert (Holds m) passed c ahead l.holds h;
          apart =
              Pairwise-insert (λ d e. d.offset ≢ e.offset) passed c ahead l.apart away_passed
                (All-imp (λ d ne e. ne (sym e)) ahead away_ahead);
        }

    won : Acts m c h (linking p n) links cells
    unfolding act cas_next_offset tower
    won =
        let (away, b, a, w) = k in
        record {
          move' = returning p n;
          links' = after;
          cells' = passed ++ c ∷ ahead;
          runs = rw (found, free) refl;
          level = Level-won;
          knows = (Has-inserted c ahead passed, still_after a.0);
          only_new = λ d. Has-of-insert c ahead d passed;
          later = record {
            next_kept = λ q other away' ne. kept q (not_new p b.0 q away' ne);
            at_kept = λ q. At-insert c ahead q passed;
            has_kept = λ d. Has-insert c ahead d passed;
            away_kept = λ q other away'. All-insert (λ d. d.offset ≢ q) passed c ahead away' other;
          };
        }

  -- An exchange wins where the link of the node before still leads to the one that was read.
  pub Acts-linking :
      (cells : List (Cell T))
      → Level m links cells
      → IsWritten m c links cells p n
      → Acts m c h (linking p n) links cells
  unfolding act cas_next_offset tower
  Acts-linking cells l k =
      let (q, x, e, found, next) = before_link m links cells l p k.1.0 in
      elim (Bool-cases (x.next_offset == n)) [
        | inl free ↦
            let s =
              place (next_of m links) m.tail p n (e ∙ ap done (sym next ∙ eq_of_== _ _ free)) m.head
                cells l.chain k.1.0 in
            subst (λ (cs : List (Cell T)). Acts m c h (linking p n) links cs) s.whole
              (won s.passed s.ahead
                (subst (λ (cs : List (Cell T)). Level m links cs) (sym s.whole) l)
                (subst (λ (cs : List (Cell T)). IsWritten m c links cs p n) (sym s.whole) k)
                s.behind s.before x found free)
        | inr taken ↦
            nothing m c h links cells l (linking p n) (seeking p) (rw (found, taken) refl)
              (k.0, k.1)
      ]
