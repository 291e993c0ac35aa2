-- ===== src/Splice.antt =====
-- Where a new node goes (src/map.rs): `find_splice_for_level` on one level, `key_is_after_node`, and
-- `find_splice` with the splices that an `Inserter` caches.
pub mod Level
pub mod Levels
pub mod Present
pub mod SharedKey
use skl_rs.Prelude.{
  ℕ, zero, suc, ◌+◌, Bool, true, false, not, ◌&&◌, Option, none, some, Ordering, lt, eq, gt, List,
  [], ◌∷◌, compare, if◌then◌else◌, ltb, ◌==◌, then_with, is_lt, length, get_elem?, set, replicate,
  Run, done, panic, fault, out_of_fuel, ◌>>=◌,
}
use skl_rs.Comparator.{Bytes, Trailer}
use skl_rs.Height.{max_tower}
use skl_rs.Map.{SkipMap, as_ref, get_next, get_key, get_trailer}
use skl_rs.Node
use skl_rs.Node.{Node}
use skl_rs.Node.Arena.{Arena}
use skl_rs.Search.{rounds}

-- A part of the arena that holds a key: `height` is that of the node whose key it is.
pub record Pointer : Type 0 where
  pub offset : ℕ
  pub size : ℕ
  pub height : Option ℕ

-- `Pointer::new`
unfoldable pub pointer : ℕ → ℕ → Pointer
pointer offset size = record { offset = offset; size = size; height = none }

pub record Splice : Type 0 where
  pub prev : ℕ
  pub next : ℕ

pub record FindResult : Type 0 where
  pub found : Bool
  pub found_key : Option Pointer
  pub splice : Splice
  pub curr : Option ℕ

-- `Inserter`: one splice for each level of the highest tower.
pub record Inserter : Type 0 where
  pub spl : List Splice
  pub height : ℕ

-- `Inserter::default`
unfoldable pub fresh_inserter : Inserter
fresh_inserter = record { spl = replicate max_tower (record { prev = 0; next = 0 }); height = 0 }

-- `[u8]::starts_with`
unfoldable pub starts_with : Bytes → Bytes → Bool
starts_with xs [] = true
starts_with [] (y ∷ ys) = false
starts_with (x ∷ xs) (y ∷ ys) = x == y && starts_with xs ys

-- The key of a node that can serve for the new key: the same key, or one that begins with it.
unfoldable pub shared_key : Ordering → Bytes → Bytes → Node → Option Pointer
unfolding starts_with Node.key_size Node.height
shared_key eq key next_key n =
    some (record { offset = n.key_offset; size = Node.key_size n; height = some (Node.height n) })
shared_key gt key next_key n =
    if starts_with next_key key
    then some (record { offset = n.key_offset; size = length key; height = some (Node.height n) })
    else none
shared_key lt key next_key n = none

-- `get_or_insert`: the first key found is kept.
abbrev pub first_key : Option Pointer → Option Pointer → Option Pointer
first_key (some k) _ = some k
first_key none k = k

-- What a round of `find_splice_for_level` does.
pub data LevelStep : Type 0 where
  move_to : ℕ → LevelStep
  return : FindResult → LevelStep

-- What `find_splice` returns beside the inserter: the node has the key and the version.
pub record Found : Type 0 where
  pub found : Bool
  pub found_key : Option Pointer
  pub curr : Option ℕ

module _ {ar : Arena} {T : Type 0} ⦃tr : Trailer T⦄ (m : SkipMap ar T) (version : ℕ)
    (key : Bytes) where
  unfoldable pub level_step : (level prev : ℕ) → Run LevelStep
  unfolding get_next as_ref get_key get_trailer shared_key
  level_step level prev = do
    next ← get_next m prev level
    if next == m.tail
        then done (
            return (record {
              found = false;
              found_key = none;
              splice = record { prev = prev; next = next };
              curr = none;
            }))
        else do
          next_node ← as_ref m next
          next_key ← get_key m next
          let order = m.cmp.cmp key next_key
          let found_key = shared_key order key next_key next_node
          next_trailer ← get_trailer m next
          elim (then_with order (compare (tr.version next_trailer) version)) [
            | lt ↦ done (
                return (record {
                  found = false;
                  found_key = found_key;
                  splice = record { prev = prev; next = next };
                  curr = none;
                }))
            | gt ↦ done (move_to next)
            | eq ↦ done (
                return (record {
                  found = true;
                  found_key = found_key;
                  splice = record { prev = prev; next = next };
                  curr = some next;
                }))
          ]

  pub level_loop : ℕ → (level prev : ℕ) → Run FindResult
  unfolding level_step
  level_loop zero level prev = out_of_fuel
  level_loop (suc fuel) level prev = do
    s ← level_step level prev
    elim s [ move_to prev' ↦ level_loop fuel level prev' | return r ↦ done r ]

  unfoldable pub find_splice_for_level : (level start : ℕ) → Run FindResult
  unfolding level_loop
  find_splice_for_level level start = level_loop (rounds m) level start

  -- `nd` is not null. Of one key, the new entry comes after a node with a greater version.
  unfoldable pub key_is_after_node : ℕ → Run Bool
  unfolding get_key get_trailer
  key_is_after_node nd = do
    nd_key ← get_key m nd
    elim (m.cmp.cmp nd_key key) [
      | lt ↦ done true
      | gt ↦ done false
      | eq ↦ do t ← get_trailer m nd; done (is_lt (compare version (tr.version t)))
    ]

  -- From which level down the cached splices have to be found again, and the node to start from.
  cached_level : (left level : ℕ) → Inserter → Run (ℕ × ℕ)
  unfolding get_next key_is_after_node
  cached_level zero level ins = done (level, m.head)
  cached_level (suc left) level ins =
      let rest = cached_level left (level + 1) ins in
      elim (get_elem? ins.spl level) [
        | none ↦ panic
        | some spl ↦ do
          next ← get_next m spl.prev level
          if not (next == spl.next) then rest else do
            before ← (if spl.prev == m.head then done true else key_is_after_node spl.prev)
            if not before then done (m.meta.height, m.head) else do
              after ← (if spl.next == m.tail then done true else key_is_after_node spl.next)
              if not after then done (m.meta.height, m.head) else done (level, spl.prev)
      ]

  -- The levels below one, from the highest down.
  splice_levels :
      (level start : ℕ) → Bool → Bool → Option Pointer → Inserter → Run (Found × Inserter)
  unfolding find_splice_for_level
  splice_levels zero start early found found_key ins =
      done (record { found = found; found_key = found_key; curr = none }, ins)
  splice_levels (suc level) start early found found_key ins = do
    fr ← find_splice_for_level level start
    let next = if fr.splice.next == 0 then m.tail else fr.splice.next
    let found_key' = first_key found_key fr.found_key
    if fr.found && early
        then done (record { found = fr.found; found_key = found_key'; curr = fr.curr }, ins)
        else splice_levels level start early fr.found found_key'
            (record ins { spl = set ins.spl level (record { prev = fr.splice.prev; next = next }) })

  unfoldable pub find_splice : Inserter → Bool → Run (Found × Inserter)
  unfolding cached_level splice_levels
  find_splice ins returned_when_found =
      if ltb ins.height m.meta.height
      then splice_levels m.meta.height m.head returned_when_found false none
          (record ins { height = m.meta.height })
      else (do
        (level, prev) ← cached_level m.meta.height 0 ins
        splice_levels level prev returned_when_found false none ins)
