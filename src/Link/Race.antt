-- ===== src/Link/Race.antt =====
-- Several threads that link their new nodes on one level at once (the loop of `update`, src/map.rs):
-- each access to a link is an action of its own, and the threads take turns in any order. What a thread
-- does to its own node where a search offers a stored key is left out: it touches no link.
pub mod Places
pub mod State
pub mod Acts
pub mod Wins
pub mod Turns
pub mod Keeps
use skl_rs.Prelude.{ℕ, zero, suc, Bool, List, [], ◌∷◌, if◌then◌else◌, ◌==◌, Run, done, panic, ◌>>=◌}
use skl_rs.Comparator.{Bytes, Trailer}
use skl_rs.Link.{write_tower, cas_prev_offset, cas_next_offset, unwrap}
use skl_rs.Map.{SkipMap, tower}
use skl_rs.Map.Order.{Cell}
use skl_rs.Node.Arena.{Arena}
use skl_rs.Splice.{FindResult, LevelStep, move_to, return, level_step}

-- Where a thread stands in the loop: what it is about to do, with the nodes that it knows.
pub data Move : Type 0 where
  -- To write the links of its own node.
  writing : (prev next : ℕ) → Move
  -- To read the link back of `next`.
  checking : (prev next : ℕ) → Move
  -- To read the link of `prev`; the link back of `next` is `seen`.
  doubting : (prev next seen : ℕ) → Move
  -- To set the link back of `next` for another thread.
  helping : (prev next seen : ℕ) → Move
  -- To exchange the link of `prev`.
  linking : (prev next : ℕ) → Move
  -- To set the link back of `next` to its own node.
  returning : (prev next : ℕ) → Move
  -- To read the link of a node, in search of a new place.
  seeking : (prev : ℕ) → Move
  finished : Move
  -- At a node with its key and its version.
  meeting : ℕ → Move

-- A thread, with what its node stands for.
pub record Racer (T : Type 0) : Type 0 where
  pub cell : Cell T
  pub move : Move

module _ (level : ℕ) where
  found_at : FindResult → Run Move
  found_at r =
      if r.found
      then (if level == 0 then (do nd ← unwrap r.curr; done (meeting nd)) else panic)
      else done (writing r.splice.prev r.splice.next)

  after_step : LevelStep → Run Move
  unfolding found_at
  after_step (move_to next) = done (seeking next)
  after_step (return r) = found_at r

module _ {ar : Arena} {T : Type 0} ⦃tr : Trailer T⦄ (level : ℕ) where
  module _ (version nd : ℕ) (key : Bytes) where
    unfoldable pub act : Move → SkipMap ar T → Run (Move × SkipMap ar T)
    unfolding write_tower tower cas_prev_offset cas_next_offset level_step after_step
    act (writing prev next) m = done (checking prev next, write_tower m nd level prev next)
    act (checking prev next) m = do
      l ← tower m next level
      if l.prev_offset == prev
          then done (linking prev next, m)
          else done (doubting prev next l.prev_offset, m)
    act (doubting prev next seen) m = do
      l ← tower m prev level
      if l.next_offset == next
          then done (helping prev next seen, m)
          else done (linking prev next, m)
    act (helping prev next seen) m = do
      (_, m') ← cas_prev_offset m next level seen prev
      done (linking prev next, m')
    act (linking prev next) m = do
      (won, m') ← cas_next_offset m prev level next nd
      done (if won then returning prev next else seeking prev, m')
    act (returning prev next) m = do
      (_, m') ← cas_prev_offset m next level prev nd
      done (finished, m')
    act (seeking prev) m = do
      s ← level_step m version key level prev
      move ← after_step level s
      done (move, m)
    act finished m = done (finished, m)
    act (meeting at) m = done (meeting at, m)

  -- Thread `i` takes a turn.
  unfoldable pub take_turn : ℕ → List (Racer T) → SkipMap ar T → Run (List (Racer T) × SkipMap ar T)
  unfolding act
  take_turn i [] m = done ([], m)
  take_turn zero (r ∷ rs) m = do
    (move, m') ← act (tr.version r.cell.trailer) r.cell.offset r.cell.key r.move m
    done (record r { move = move } ∷ rs, m')
  take_turn (suc i) (r ∷ rs) m = do (rs', m') ← take_turn i rs m; done (r ∷ rs', m')

  -- A schedule names the thread of each turn.
  unfoldable pub race : List ℕ → List (Racer T) → SkipMap ar T → Run (List (Racer T) × SkipMap ar T)
  unfolding take_turn
  race [] rs m = done (rs, m)
  race (i ∷ schedule) rs m = do (rs', m') ← take_turn i rs m; race schedule rs' m'
