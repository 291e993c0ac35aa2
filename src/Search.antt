-- ===== src/Search.antt =====
-- The searches of a map (src/map.rs): `find_near` over the towers, the four searches that are built
-- on it, and the walks over the versions of a key. One round of a loop is a function of its own;
-- the loops run on fuel.
pub mod Near
pub mod Towers
pub mod Get
pub mod Versions
pub mod From
pub mod Bounds
use skl_rs.Prelude.{
  ℕ, zero, suc, ◌+◌, ◌-◌, Bool, true, false, not, Option, none, some, Ordering, lt, eq, gt,
  if◌then◌else◌, ltb, leb, ◌==◌, ◌||◌, is_gt, is_lt, is_eq, Run, done, panic, out_of_fuel, ◌>>=◌,
}
use skl_rs.Comparator.{Bytes, Trailer}
use skl_rs.Codec.{u64_max}
use skl_rs.Map.{
  SkipMap, VersionedEntryRef, get_next, get_prev, get_key, get_trailer, get_value_and_trailer,
  order_at,
}
use skl_rs.Node.{is_null}
use skl_rs.Node.Arena.{Arena}

-- What a round of `find_near` does: go on from a node at a level, or return.
pub data NearStep : Type 0 where
  go : (x level : ℕ) → NearStep
  stop : Option ℕ × Bool → NearStep

-- What a round of a walk over versions does.
pub data WalkStep : Type 0 where
  walk : (curr other : ℕ) → WalkStep
  found : Option ℕ → WalkStep

-- The entry that `get` returns for a node: none if it is removed.
abbrev pub valued : {T : Type 0} → Bytes → T → ℕ → Option Bytes → Option (VersionedEntryRef T)
valued key trailer nd none = none
valued key trailer nd (some v) =
    some (record { key = key; trailer = trailer; value = some v; ptr = nd })

module _ {ar : Arena} {T : Type 0} ⦃tr : Trailer T⦄ (m : SkipMap ar T) where
  -- Enough rounds for any loop over the nodes and the levels.
  abbrev pub rounds : ℕ
  rounds = m.meta.len + m.meta.height + 2

  module _ (version : ℕ) (key : Bytes) (less allow_equal : Bool) where
    -- At the end of a level, where `next` is the tail.
    near_end : (x level : ℕ) → NearStep
    near_end x level =
        if ltb 0 level
        then go x (level - 1)
        else if not less
        then stop (none, false)
        else if x == m.head
        then stop (none, false)
        else stop (some x, false)

    -- Where `next` has the key and the version.
    near_equal : (x level next : ℕ) → Run NearStep
    unfolding get_next
    near_equal x level next =
        if allow_equal
        then done (stop (some next, true))
        else if not less
        then (do n ← get_next m next 0; done (stop (some n, false)))
        else if ltb 0 level
        then done (go x (level - 1))
        else done (stop (some x, false))

    -- Where `next` comes after the key and the version.
    near_less : (x level next : ℕ) → NearStep
    near_less x level next =
        if ltb 0 level
        then go x (level - 1)
        else if not less
        then stop (some next, false)
        else if x == m.head
        then stop (none, false)
        else stop (some x, false)

    -- One round.
    near_step : (x level : ℕ) → Run NearStep
    unfolding get_next order_at is_null near_end near_equal near_less
    near_step x level = do
      next ← get_next m x level
      if is_null next || (next == m.tail) then done (near_end x level) else do
        order ← order_at m version key next
        elim order [
          | gt ↦ done (go next level)
          | eq ↦ near_equal x level next
          | lt ↦ done (near_less x level next)
        ]

    near_loop : ℕ → (x level : ℕ) → Run (Option ℕ × Bool)
    unfolding near_step
    near_loop zero x level = out_of_fuel
    near_loop (suc fuel) x level = do
      s ← near_step x level
      elim s [ go x' level' ↦ near_loop fuel x' level' | stop r ↦ done r ]

    -- A map whose height is 0 would make the first level underflow.
    unfoldable pub find_near : Run (Option ℕ × Bool)
    unfolding near_loop
    find_near = if m.meta.height == 0 then panic else near_loop rounds m.head (m.meta.height - 1)

  module _ (version : ℕ) where
    -- One round of `find_next_max_version`.
    next_max_step : (curr next : ℕ) → Run WalkStep
    unfolding get_key get_trailer get_next is_null
    next_max_step curr next = do
      curr_key ← get_key m curr
      curr_trailer ← get_trailer m curr
      if leb (tr.version curr_trailer) version
          then done (found (some curr))
          else if is_null next || (next == m.head)
          then (if leb (tr.version curr_trailer) version
              then done (found (some curr))
              else done (found none))
          else do
            next_key ← get_key m next
            next_trailer ← get_trailer m next
            let old = leb (tr.version next_trailer) version
            if is_gt (m.cmp.cmp next_key curr_key)
                then (if old then done (found (some curr)) else done (found none))
                else if old
                then (if next == m.tail then done (found none) else done (found (some next)))
                else (do next' ← get_next m next 0; done (walk next next'))

    next_max_loop : ℕ → (curr next : ℕ) → Run (Option ℕ)
    unfolding next_max_step
    next_max_loop zero curr next = out_of_fuel
    next_max_loop (suc fuel) curr next = do
      s ← next_max_step curr next
      elim s [ walk curr' next' ↦ next_max_loop fuel curr' next' | found r ↦ done r ]

    unfoldable pub find_next_max_version : ℕ → Run (Option ℕ)
    unfolding next_max_loop get_next
    find_next_max_version curr = do next ← get_next m curr 0; next_max_loop rounds curr next

    -- One round of `find_prev_max_version`.
    prev_max_step : (curr prev : ℕ) → Run WalkStep
    unfolding get_key get_trailer get_prev is_null
    prev_max_step curr prev = do
      curr_key ← get_key m curr
      curr_trailer ← get_trailer m curr
      if ltb version (tr.version curr_trailer)
          then done (found none)
          else if is_null prev || (prev == m.head)
          then (if leb (tr.version curr_trailer) version
              then done (found (some curr))
              else done (found none))
          else do
            prev_key ← get_key m prev
            if is_lt (m.cmp.cmp prev_key curr_key) then done (found (some curr)) else do
              prev_trailer ← get_trailer m prev
              if tr.version prev_trailer == version
                  then done (found (some prev))
                  else if ltb version (tr.version prev_trailer)
                  then done (found (some curr))
                  else do prev' ← get_prev m prev 0; done (walk prev prev')

    prev_max_loop : ℕ → (curr prev : ℕ) → Run (Option ℕ)
    unfolding prev_max_step
    prev_max_loop zero curr prev = out_of_fuel
    prev_max_loop (suc fuel) curr prev = do
      s ← prev_max_step curr prev
      elim s [ walk curr' prev' ↦ prev_max_loop fuel curr' prev' | found r ↦ done r ]

    unfoldable pub find_prev_max_version : ℕ → Run (Option ℕ)
    unfolding prev_max_loop get_prev
    find_prev_max_version curr = do prev ← get_prev m curr 0; prev_max_loop rounds curr prev

    -- What `gt` and `ge` do with the node found, and what `lt` and `le` do.
    unfoldable pub onward : Option ℕ × Bool → Run (Option ℕ)
    unfolding find_next_max_version is_null
    onward (none, _) = done none
    onward (some n, _) = if is_null n || (n == m.tail) then done none else find_next_max_version n

    unfoldable pub backward : Option ℕ × Bool → Run (Option ℕ)
    unfolding find_prev_max_version is_null
    backward (none, _) = done none
    backward (some n, _) = if is_null n || (n == m.head) then done none else find_prev_max_version n

    unfoldable pub search_gt : Bytes → Run (Option ℕ)
    unfolding find_near onward
    search_gt key = find_near 0 key false false >>= onward

    unfoldable pub search_ge : Bytes → Run (Option ℕ)
    unfolding find_near onward
    search_ge key = find_near u64_max key false true >>= onward

    unfoldable pub search_lt : Bytes → Run (Option ℕ)
    unfolding find_near backward
    search_lt key = find_near u64_max key true false >>= backward

    unfoldable pub search_le : Bytes → Run (Option ℕ)
    unfolding find_near backward
    search_le key = find_near 0 key true true >>= backward

    unfoldable pub first_in : Run (Option ℕ)
    unfolding search_ge get_next get_key is_null
    first_in = do
      nd ← get_next m m.head 0
      if is_null nd || (nd == m.tail)
          then done none
          else do curr_key ← get_key m nd; search_ge curr_key

    unfoldable pub last_in : Run (Option ℕ)
    unfolding search_le get_prev get_key is_null
    last_in = do
      nd ← get_prev m m.tail 0
      if is_null nd || (nd == m.head)
          then done none
          else do curr_key ← get_key m nd; search_le curr_key

    -- What `get` does with the node found. A value of `none` is a removed entry.
    unfoldable pub get_found : Bytes → Option ℕ × Bool → Run (Option (VersionedEntryRef T))
    unfolding get_key get_value_and_trailer
    get_found key (none, equal) = done none
    get_found key (some nd, equal) = do
      node_key ← get_key m nd
      (trailer, value) ← get_value_and_trailer m nd
      if equal
          then done (valued node_key trailer nd value)
          else if not (is_eq (m.cmp.cmp key node_key))
          then done none
          else if ltb version (tr.version trailer)
          then done none
          else done (valued node_key trailer nd value)

    -- `SkipMap::get`
    unfoldable pub get : Bytes → Run (Option (VersionedEntryRef T))
    unfolding find_near get_found
    get key = find_near version key false true >>= get_found key
