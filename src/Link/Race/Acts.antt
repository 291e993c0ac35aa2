-- ===== src/Link/Race/Acts.antt =====
-- One action of a thread that links its node on the base level (the loop of `update`, src/map.rs).
use skl_rs.Prelude.{
  ℕ, ◌≡◌, ◌≢◌, ◌⊎◌, inl, inr, refl, sym, ap, ◌∙◌, lt, eq, gt, some, Option, Bool-cases,
  Ordering-cases, List, All-imp, ◌==◌, done, ◌>>=◌,
}
use skl_rs.Comparator.{Trailer}
use skl_rs.Link.{update, write_tower, cas_prev_offset}
use skl_rs.Link.Race.{
  Move, writing, checking, doubting, helping, linking, returning, seeking, finished, meeting, act,
}
use skl_rs.Link.Race.Places.{At, Has, Has-All, Has-At}
use skl_rs.Link.Race.State.{
  over, next_of, HasLink, Level, IsWritten, Knows, Later, next_here, next_elsewhere, next_back,
  next_cases, before_link, after_link, Level-quiet,
}
use skl_rs.Map.{SkipMap, tower, get_key, get_trailer, get_value_and_trailer}
use skl_rs.Map.Order.{Cell, at}
use skl_rs.Map.Repr.{Holds, order_at-Holds}
use skl_rs.Node.{Link, tower_offset}
use skl_rs.Node.Arena.{Arena}
use skl_rs.Splice.Level.{level_result, level_step_cell, level_step_tail}

pub HasLink-update :
    {ar : Arena} {T : Type 0} ⦃tr : Trailer T⦄ (m : SkipMap ar T) (links : ℕ → Option Link)
    (q a : ℕ) (x : Link)
    → HasLink m links q
    → HasLink m (update links a (some x)) q
HasLink-update m links q a x (l, e) = elim (Bool-cases (tower_offset q 0 == a)) [
  | inl here ↦ (x, rw here refl)
  | inr there ↦ (l, rw there e)
]

module _ {ar : Arena} {T : Type 0} ⦃tr : Trailer T⦄ (m : SkipMap ar T) (c : Cell T)
    (h : Holds m c) where
  -- What an action does: it returns, and the level and what the thread knows stay true.
  pub record Acts (move : Move) (links : ℕ → Option Link) (cells : List (Cell T)) : Type 0 where
    pub move' : Move
    pub links' : ℕ → Option Link
    pub cells' : List (Cell T)
    pub runs :
        act 0 (tr.version c.trailer) c.offset c.key move (over m links)
        ≡ done (move', over m links')
    pub level : Level m links' cells'
    pub knows : Knows m c links' cells' move'
    pub only_new : (d : Cell T) → Has d cells' → (d ≡ c) ⊎ Has d cells
    pub later : Later m (λ q. c.offset ≢ q) links cells links' cells'

  module _ (links : ℕ → Option Link) (cells : List (Cell T)) (l : Level m links cells) where
    -- An action that changes no link to a next node.
    still :
        (move move' : Move) (links' : ℕ → Option Link)
        → ((q : ℕ) → next_of m links' q ≡ next_of m links q)
        → HasLink m links' m.tail
        → act 0 (tr.version c.trailer) c.offset c.key move (over m links)
          ≡ done (move', over m links')
        → Knows m c links' cells move'
        → Acts move links cells
    still move move' links' same tail runs knows = record {
      move' = move';
      links' = links';
      cells' = cells;
      runs = runs;
      level =
          Level-quiet m links cells l (λ q. Unit) links' (λ q u. same q) tt
            (All-imp (λ d k. tt) cells l.holds) tail;
      knows = knows;
      only_new = λ d k. inr k;
      later = record {
        next_kept = λ q other away ne. same q;
        at_kept = λ q k. k;
        has_kept = λ d k. k;
        away_kept = λ q other away. away;
      };
    }

    pub nothing :
        (move move' : Move)
        → act 0 (tr.version c.trailer) c.offset c.key move (over m links)
          ≡ done (move', over m links)
        → Knows m c links cells move'
        → Acts move links cells
    nothing move move' = still move move' links (λ q. refl) l.tail_link

    pub Acts-writing :
        (p n : ℕ) → Knows m c links cells (writing p n) → Acts (writing p n) links cells
    unfolding act write_tower
    Acts-writing p n (away, b, a) =
        let x : Link = record { next_offset = n; prev_offset = p } in
        let links' = update links (tower_offset c.offset 0) (some x) in
        record {
          move' = checking p n;
          links' = links';
          cells' = cells;
          runs = refl;
          level =
              Level-quiet m links cells l (λ q. c.offset ≢ q) links'
                (λ q other. next_elsewhere m links c.offset q x (λ e. other (sym e))) h.ne_head
                (All-imp (λ d ne e. ne (sym e)) cells away)
                (HasLink-update m links m.tail (tower_offset c.offset 0) x l.tail_link);
          knows = (away, b, a, next_here m links c.offset x h.ne_null);
          only_new = λ d k. inr k;
          later = record {
            next_kept =
                λ q other away' ne. next_elsewhere m links c.offset q x (λ e. other (sym e));
            at_kept = λ q k. k;
            has_kept = λ d k. k;
            away_kept = λ q other away'. away';
          };
        }

    pub Acts-checking : (p n : ℕ) → IsWritten m c links cells p n → Acts (checking p n) links cells
    unfolding act tower
    Acts-checking p n k =
        let (x, found) = after_link m links cells l n k.2.0 in
        elim (Bool-cases (x.prev_offset == p)) [
          | inl back ↦ nothing (checking p n) (linking p n) (rw (found, back)) k
          | inr other ↦ nothing (checking p n) (doubting p n x.prev_offset) (rw (found, other)) k
        ]

    pub Acts-doubting :
        (p n seen : ℕ) → IsWritten m c links cells p n → Acts (doubting p n seen) links cells
    unfolding act tower
    Acts-doubting p n seen k =
        let (_, x, _, found, _) = before_link m links cells l p k.1.0 in
        elim (Bool-cases (x.next_offset == n)) [
          | inl still_next ↦
              nothing (doubting p n seen) (helping p n seen) (rw (found, still_next)) k
          | inr other ↦ nothing (doubting p n seen) (linking p n) (rw (found, other)) k
        ]

    -- An exchange of the link back of a node that the thread's node is to come before.
    exchange_back :
        (move move' : Move) (n current new : ℕ)
        → (n ≡ m.tail) ⊎ At n cells
        → act 0 (tr.version c.trailer) c.offset c.key move (over m links)
          ≡ (cas_prev_offset (over m links) n 0 current new >>= λ r. done (move', r.1))
        → ((links' : ℕ → Option Link)
            → ((q : ℕ) → next_of m links' q ≡ next_of m links q)
            → Knows m c links' cells move')
        → Acts move links cells
    unfolding cas_prev_offset tower
    exchange_back move move' n current new known runs knows =
        let (x, found) = after_link m links cells l n known in
        elim (Bool-cases (x.prev_offset == current)) [
          | inl same ↦
              let y : Link = record x { prev_offset = new } in
              let links' = update links (tower_offset n 0) (some y) in
              let kept : (q : ℕ) → next_of m links' q ≡ next_of m links q =
                λ q. next_back m links n q x y found refl in
              still move move' links' kept
                (HasLink-update m links m.tail (tower_offset n 0) y l.tail_link)
                (runs ∙ rw (found, same) refl) (knows links' kept)
          | inr other ↦ nothing move move' (runs ∙ rw (found, other) refl) (knows links (λ q. refl))
        ]

    pub Acts-helping :
        (p n seen : ℕ) → IsWritten m c links cells p n → Acts (helping p n seen) links cells
    unfolding act
    Acts-helping p n seen (away, b, a, w) =
        exchange_back (helping p n seen) (linking p n) n seen p a.0 refl
          (λ links' same. (away, b, a, same c.offset ∙ w))

    pub Acts-returning :
        (p n : ℕ) → Knows m c links cells (returning p n) → Acts (returning p n) links cells
    unfolding act
    Acts-returning p n (here, known) =
        exchange_back (returning p n) finished n p c.offset known refl (λ links' same. here)

    Holds-over : (d : Cell T) → Holds m d → Holds (over m links) d
    unfolding get_key get_trailer get_value_and_trailer
    Holds-over d k = record {
      ne_null = k.ne_null;
      ne_head = k.ne_head;
      ne_tail = k.ne_tail;
      has_link = k.has_link;
      key_read = k.key_read;
      trailer_read = k.trailer_read;
      value_read = k.value_read;
    }

    pub Acts-seeking : (p : ℕ) → Knows m c links cells (seeking p) → Acts (seeking p) links cells
    unfolding act level_result
    Acts-seeking p (away, b) =
        let version = tr.version c.trailer in
        elim (next_cases m links cells l m.head p cells l.chain b.0) [
          | inl e ↦
              nothing (seeking p) (writing p m.tail)
                (rw (level_step_tail (over m links) version c.key 0 p e) refl)
                (away, b, (inl refl, inl refl))
          | inr (d, has, e) ↦
              let k = Has-All (Holds m) d cells l.holds has in
              let k' = Holds-over d k in
              let query = order_at-Holds m version c.key d k in
              elim (Ordering-cases (at m.cmp.cmp version c.key d)) [
                | inl below ↦
                    let (_, runs) =
                      level_step_cell (over m links) version c.key 0 p d lt e k' below in
                    nothing (seeking p) (writing p d.offset) (rw runs refl)
                      (away, b, (inr (Has-At d cells has), inr (query ∙ ap done below)))
                | inr (inl same) ↦
                    let (_, runs) =
                      level_step_cell (over m links) version c.key 0 p d eq e k' same in
                    nothing (seeking p) (meeting d.offset) (rw runs refl) (d, has, refl, same)
                | inr (inr above) ↦
                    let (_, runs) =
                      level_step_cell (over m links) version c.key 0 p d gt e k' above in
                    nothing (seeking p) (seeking d.offset) (rw runs refl)
                      (away, (inr (Has-At d cells has), inr (query ∙ ap done above)))
              ]
        ]
