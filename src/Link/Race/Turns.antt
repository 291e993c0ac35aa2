-- ===== src/Link/Race/Turns.antt =====
-- Threads that link their nodes on the base level in turns (the loop of `update`, src/map.rs).
use skl_rs.Prelude.{
  ℕ, zero, suc, ◌≡◌, ◌≢◌, ◌⊎◌, inl, inr, refl, sym, ap, ◌∙◌, List, [], ◌∷◌, All, All-imp, Pairwise,
  Option, Run, done,
}
use mathlib.Core.Path.{subst}
use skl_rs.Comparator.{Trailer}
use skl_rs.Link.Race.{
  Move, Racer, writing, checking, doubting, helping, linking, returning, seeking, finished, meeting,
  act, take_turn, race,
}
use skl_rs.Link.Race.Acts.{
  Acts, nothing, Acts-writing, Acts-checking, Acts-doubting, Acts-helping, Acts-returning,
  Acts-seeking,
}
use skl_rs.Link.Race.Places.{Has, Away}
use skl_rs.Link.Race.State.{over, Level, Knows, Later, Knows-Later}
use skl_rs.Link.Race.Wins.{Acts-linking}
use skl_rs.Map.{SkipMap}
use skl_rs.Map.Order.{Cell}
use skl_rs.Map.Repr.{Holds}
use skl_rs.Node.{Link}
use skl_rs.Node.Arena.{Arena}

abbrev pub cells_of : {T : Type 0} → List (Racer T) → List (Cell T)
cells_of [] = []
cells_of (r ∷ rs) = r.cell ∷ cells_of rs

-- The threads have made different nodes.
abbrev pub AreDistinct : {T : Type 0} → List (Cell T) → Type 0
AreDistinct = Pairwise (λ c d. c.offset ≢ d.offset)

module _ {ar : Arena} {T : Type 0} ⦃tr : Trailer T⦄ (m : SkipMap ar T) where
  -- The node of a thread reads as its cell says, and what the thread knows is true.
  abbrev pub IsSound : (ℕ → Option Link) → List (Cell T) → Racer T → Type 0
  IsSound links cells r = Holds m r.cell × Knows m r.cell links cells r.move

  acts :
      (c : Cell T) (h : Holds m c) (links : ℕ → Option Link) (cells : List (Cell T)) (move : Move)
      → Level m links cells
      → Knows m c links cells move
      → Acts m c h move links cells
  unfolding act
  acts c h links cells (writing p n) l k = Acts-writing m c h links cells l p n k
  acts c h links cells (checking p n) l k = Acts-checking m c h links cells l p n k
  acts c h links cells (doubting p n seen) l k = Acts-doubting m c h links cells l p n seen k
  acts c h links cells (helping p n seen) l k = Acts-helping m c h links cells l p n seen k
  acts c h links cells (linking p n) l k = Acts-linking m c h links p n cells l k
  acts c h links cells (returning p n) l k = Acts-returning m c h links cells l p n k
  acts c h links cells (seeking p) l k = Acts-seeking m c h links cells l p k
  acts c h links cells finished l k = nothing m c h links cells l finished finished refl k
  acts c h links cells (meeting q) l k = nothing m c h links cells l (meeting q) (meeting q) refl k

  module _ (rs : List (Racer T)) (links : ℕ → Option Link) (cells : List (Cell T))
      (run : SkipMap ar T → Run (List (Racer T) × SkipMap ar T)) where
    -- What a stretch of turns leaves.
    pub record Leaves : Type 0 where
      pub rs' : List (Racer T)
      pub links' : ℕ → Option Link
      pub cells' : List (Cell T)
      pub runs : run (over m links) ≡ done (rs', over m links')
      pub level : Level m links' cells'
      pub sound : All (IsSound links' cells') rs'
      pub same : cells_of rs' ≡ cells_of rs
      pub kept : (d : Cell T) → Has d cells → Has d cells'
      pub gained : (d : Cell T) → Has d cells' → Has d cells ⊎ Has d (cells_of rs)

    -- After one turn also the other threads' nodes are as they were.
    pub record Turned : Type 0 where
      pub leaves : Leaves
      pub later : Later m (λ q. Away q (cells_of rs)) links cells leaves.links' leaves.cells'

  weaker :
      (others others' : ℕ → Type 0)
      → ((q : ℕ) → others' q → others q)
      → (links links' : ℕ → Option Link) (cells cells' : List (Cell T))
      → Later m others links cells links' cells'
      → Later m others' links cells links' cells'
  weaker others others' f links links' cells cells' l = record {
    next_kept = λ q o. l.next_kept q (f q o);
    at_kept = l.at_kept;
    has_kept = l.has_kept;
    away_kept = λ q o. l.away_kept q (f q o);
  }

  others-IsSound :
      (others : ℕ → Type 0) (links links' : ℕ → Option Link) (cells cells' : List (Cell T))
      → Later m others links cells links' cells'
      → (rs : List (Racer T)) → All (λ c. others c.offset) (cells_of rs)
      → All (IsSound links cells) rs
      → All (IsSound links' cells') rs
  others-IsSound others links links' cells cells' l [] away k = tt
  others-IsSound others links links' cells cells' l (r ∷ rs) away ((h, k), ks) = (
    (h, Knows-Later m others links links' cells cells' l r.cell h away.0 r.move k),
    others-IsSound others links links' cells cells' l rs away.1 ks,
  )

  turn_lem :
      (i : ℕ) (rs : List (Racer T)) (links : ℕ → Option Link) (cells : List (Cell T))
      → Level m links cells
      → All (IsSound links cells) rs
      → AreDistinct (cells_of rs)
      → Turned rs links cells (take_turn 0 i rs)
  unfolding take_turn
  turn_lem i [] links cells l k d = record {
    leaves = record {
      rs' = [];
      links' = links;
      cells' = cells;
      runs = refl;
      level = l;
      sound = tt;
      same = refl;
      kept = λ e h. h;
      gained = λ e h. inl h;
    };
    later = record {
      next_kept = λ q o a ne. refl;
      at_kept = λ q h. h;
      has_kept = λ e h. h;
      away_kept = λ q o a. a;
    };
  }
  turn_lem zero (r ∷ rs) links cells l ((h, k), ks) d =
      let a = acts r.cell h links cells r.move l k in
      record {
        leaves = record {
          rs' = record r { move = a.move' } ∷ rs;
          links' = a.links';
          cells' = a.cells';
          runs = rw (a.runs) refl;
          level = a.level;
          sound = (
            (h, a.knows),
            others-IsSound (λ q. r.cell.offset ≢ q) links a.links' cells a.cells' a.later rs d.0 ks,
          );
          same = refl;
          kept = a.later.has_kept;
          gained = λ e has. elim (a.only_new e has) [ inl new ↦ inr (inl new) | inr old ↦ inl old ];
        };
        later =
            weaker (λ q. r.cell.offset ≢ q) (λ q. Away q (cells_of (r ∷ rs))) (λ q o. o.0) links
              a.links' cells a.cells' a.later;
      }
  turn_lem (suc i) (r ∷ rs) links cells l ((h, k), ks) d =
      let t = turn_lem i rs links cells l ks d.1 in
      let v = t.leaves in
      record {
        leaves = record {
          rs' = r ∷ v.rs';
          links' = v.links';
          cells' = v.cells';
          runs = rw (v.runs) refl;
          level = v.level;
          sound = (
            (
              h,
              Knows-Later m (λ q. Away q (cells_of rs)) links v.links' cells v.cells' t.later r.cell
                  h (All-imp (λ c ne e. ne (sym e)) (cells_of rs) d.0) r.move k,
            ),
            v.sound,
          );
          same = ap (λ (cs : List (Cell T)). r.cell ∷ cs) v.same;
          kept = v.kept;
          gained = λ e has. elim (v.gained e has) [ inl old ↦ inl old | inr new ↦ inr (inr new) ];
        };
        later =
            weaker (λ q. Away q (cells_of rs)) (λ q. Away q (cells_of (r ∷ rs))) (λ q o. o.1) links
              v.links' cells v.cells' t.later;
      }

  pub race_lem :
      (schedule : List ℕ) (rs : List (Racer T)) (links : ℕ → Option Link) (cells : List (Cell T))
      → Level m links cells
      → All (IsSound links cells) rs
      → AreDistinct (cells_of rs)
      → Leaves rs links cells (race 0 schedule rs)
  unfolding race
  race_lem [] rs links cells l k d = record {
    rs' = rs;
    links' = links;
    cells' = cells;
    runs = refl;
    level = l;
    sound = k;
    same = refl;
    kept = λ e h. h;
    gained = λ e h. inl h;
  }
  race_lem (i ∷ schedule) rs links cells l k d =
      let t = (turn_lem i rs links cells l k d).leaves in
      let v =
        race_lem schedule t.rs' t.links' t.cells' t.level t.sound
          (subst (λ (cs : List (Cell T)). AreDistinct cs) (sym t.same) d) in
      record {
        rs' = v.rs';
        links' = v.links';
        cells' = v.cells';
        runs = rw (t.runs) v.runs;
        level = v.level;
        sound = v.sound;
        same = v.same ∙ t.same;
        kept = λ e h. v.kept e (t.kept e h);
        gained = λ e h. elim (v.gained e h) [
          | inl old ↦ t.gained e old
          | inr new ↦ inr (subst (λ (cs : List (Cell T)). Has e cs) t.same new)
        ];
      }
