-- ===== src/Link.antt =====
-- Linking a new node into the levels of its tower (the loop of `update`, src/map.rs). An exchange
-- takes effect where the link is still what was read.
pub mod Chains
pub mod Level
pub mod Site
pub mod Insert
pub mod Levels
pub mod Loop
pub mod Preserve
pub mod Race
use skl_rs.Prelude.{
  ℕ, zero, suc, ◌+◌, Bool, true, false, Option, none, some, if◌then◌else◌, ◌==◌, get_elem?, set,
  Run, done, panic, out_of_fuel, ◌>>=◌,
}
use skl_rs.Codec.{encode_key_size_and_height}
use skl_rs.Comparator.{Trailer}
use skl_rs.Key
use skl_rs.Key.{Key, on_fail}
use skl_rs.Map.{SkipMap, as_ref, tower}
use skl_rs.Meta
use skl_rs.Node.{Node, Link, tower_offset, is_null}
use skl_rs.Node.Arena.{Arena}
use skl_rs.Search.{rounds}
use skl_rs.Splice.{Pointer, Splice, Inserter, find_splice_for_level}

-- A function with the value at one number replaced.
abbrev pub update : {A : Type 0} → (ℕ → A) → ℕ → A → ℕ → A
update f at v q = if q == at then v else f q

-- `Option::unwrap`
abbrev pub unwrap : {A : Type 0} → Option A → Run A
unwrap none = panic
unwrap (some a) = done a

-- What `update` holds of the blocks of a new entry, to give them back (`Deallocator`).
pub record Deallocator : Type 0 where
  pub node : Option Pointer
  pub key : Option Pointer
  pub value : Option Pointer

-- The local variables of `update` that the loop changes: its key, its blocks, and whether a splice
-- had to be found again.
pub record Locals : Type 0 where
  pub k : Key
  pub deallocator : Deallocator
  pub invalid_data_splice : Bool

module _ {ar : Arena} {T : Type 0} where
  abbrev pub with_links : SkipMap ar T → (ℕ → Option Link) → SkipMap ar T
  with_links m links = record m { memory = record m.memory { links = links } }

  abbrev pub with_nodes : SkipMap ar T → (ℕ → Option Node) → SkipMap ar T
  with_nodes m nodes = record m { memory = record m.memory { nodes = nodes } }

  unfoldable pub write_tower : SkipMap ar T → (nd idx prev_offset next_offset : ℕ) → SkipMap ar T
  write_tower m nd idx prev_offset next_offset = with_links m (
      update m.memory.links (tower_offset nd idx)
        (some (record { next_offset = next_offset; prev_offset = prev_offset })))

  unfoldable pub cas_prev_offset :
      SkipMap ar T → (nd idx current new : ℕ) → Run (Bool × SkipMap ar T)
  unfolding tower
  cas_prev_offset m nd idx current new = do
    l ← tower m nd idx
    if l.prev_offset == current
        then done (
          true,
          with_links m
              (update m.memory.links (tower_offset nd idx) (some (record l { prev_offset = new }))),
        )
        else done (false, m)

  unfoldable pub cas_next_offset :
      SkipMap ar T → (nd idx current new : ℕ) → Run (Bool × SkipMap ar T)
  unfolding tower
  cas_next_offset m nd idx current new = do
    l ← tower m nd idx
    if l.next_offset == current
        then done (
          true,
          with_links m
              (update m.memory.links (tower_offset nd idx) (some (record l { next_offset = new }))),
        )
        else done (false, m)

  -- Another thread has linked `next` but not yet set its link back: help it along.
  unfoldable pub help_along : SkipMap ar T → (idx prev next : ℕ) → Run (SkipMap ar T)
  unfolding tower cas_prev_offset
  help_along m idx prev next = do
    next_link ← tower m next idx
    if next_link.prev_offset == prev then done m else do
      prev_link ← tower m prev idx
      if prev_link.next_offset == next
          then (do (_, m') ← cas_prev_offset m next idx next_link.prev_offset prev; done m')
          else done m

  -- One round: the new tower's link, and the exchange of the link of `prev`; where that succeeds,
  -- the link back of `next`.
  unfoldable pub link_round : SkipMap ar T → (nd idx prev next : ℕ) → Run (Bool × SkipMap ar T)
  unfolding write_tower help_along cas_next_offset cas_prev_offset
  link_round m nd idx prev next = do
    m' ← help_along (write_tower m nd idx prev next) idx prev next
    (won, m'') ← cas_next_offset m' prev idx next nd
    if won
        then (do (_, m3) ← cas_prev_offset m'' next idx prev nd; done (true, m3))
        else done (false, m'')

  -- The new node takes the key that another thread has stored meanwhile.
  unfoldable pub adopt_key :
      SkipMap ar T → ℕ → Option Pointer → Locals → Run (SkipMap ar T × Locals)
  unfolding as_ref on_fail encode_key_size_and_height
  adopt_key m nd none ls = done (m, ls)
  adopt_key m nd (some p) ls = do
    node ← as_ref m nd
    height ← unwrap p.height
    let node' = record node {
      key_offset = p.offset;
      key_size_and_height = encode_key_size_and_height p.size height;
    }
    let m' = on_fail m ls.k
    done (
      with_nodes m' (update m'.memory.nodes nd (some node')),
      record ls {
        k = Key.pointer p.offset p.size;
        deallocator = record ls.deallocator { key = none };
      },
    )

-- How the loop ends: linked, or at a node of another thread with the key and the version.
pub data Outcome (ar : Arena) (T : Type 0) : Type 0 where
  linked : SkipMap ar T → Locals → Outcome ar T
  existing : ℕ → SkipMap ar T → Locals → Outcome ar T

-- `expect` on the node that was found.
unfoldable pub at_existing :
    {ar : Arena} {T : Type 0} → Option ℕ → SkipMap ar T → Locals → Run (Outcome ar T)
at_existing none m ls = panic
at_existing (some old) m ls = done (existing old m ls)

-- The nodes between which a level is linked: those of its splice, or the ends of the list where the
-- new node is the first on the level.
unfoldable pub level_ends : {ar : Arena} {T : Type 0} → SkipMap ar T → Option Splice → Run (ℕ × ℕ)
unfolding is_null
level_ends m none = panic
level_ends m (some spl) =
    if is_null spl.prev
    then (if is_null spl.next then done (m.head, m.tail) else panic)
    else done (spl.prev, spl.next)

module _ {ar : Arena} {T : Type 0} ⦃tr : Trailer T⦄ (version nd : ℕ) where
  unfoldable pub link_level : ℕ → SkipMap ar T → (idx prev next : ℕ) → Locals → Run (Outcome ar T)
  unfolding link_round adopt_key Key.as_ref find_splice_for_level at_existing
  link_level zero m idx prev next ls = out_of_fuel
  link_level (suc fuel) m idx prev next ls = do
    (won, m') ← link_round m nd idx prev next
    elim won [
      | true ↦ done (linked m' ls)
      | false ↦ do
        key ← Key.as_ref m' ls.k
        fr ← find_splice_for_level m' version key idx prev
        elim fr.found [
          | true ↦ if idx == 0 then at_existing fr.curr m' ls else panic
          | false ↦ do
            (m'', ls') ← adopt_key m' nd fr.found_key ls
            link_level fuel m'' idx fr.splice.prev fr.splice.next
                (record ls' { invalid_data_splice = true })
        ]
    ]

  -- `for i in 0..height`, the levels that are left from `idx` on.
  unfoldable pub link_levels :
      (left idx : ℕ) → SkipMap ar T → Inserter → Locals → Run (Outcome ar T)
  unfolding link_level level_ends
  link_levels zero idx m ins ls = done (linked m ls)
  link_levels (suc left) idx m ins ls = do
    (prev, next) ← level_ends m (get_elem? ins.spl idx)
    o ← link_level (rounds m) m idx prev next ls
    elim o [
      | linked m' ls' ↦ link_levels left (idx + 1) m' ins ls'
      | existing old m' ls' ↦ done (existing old m' ls')
    ]
