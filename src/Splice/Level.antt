-- ===== src/Splice/Level.antt =====
-- The loop of `find_splice_for_level` (src/map.rs) against the list of cells.
use skl_rs.Prelude.{
  ℕ, zero, suc, ◌<◌, ◌≡◌, refl, true, false, ◌≢◌, Option, none, some, Ordering, lt, eq, gt, List,
  [], ◌∷◌, ◌++◌, ◌==◌, All, length, done, >>=-eq-done, arith, ==_refl,
}
use skl_rs.Comparator.{Bytes, Trailer}
use skl_rs.Map.{SkipMap, get_next, get_key, as_ref}
use skl_rs.Map.Order.{Cell, at}
use skl_rs.Map.Repr.{Chain, Holds}
use skl_rs.Node
use skl_rs.Node.{Node}
use skl_rs.Node.Arena.{Arena}
use skl_rs.Search.Near.{first_offset}
use skl_rs.Splice.{
  Pointer, FindResult, first_key, LevelStep, move_to, return, shared_key, level_step, level_loop,
}

-- The offset of the last cell, or of the node that the list starts from.
unfoldable pub last_offset : {T : Type 0} → ℕ → List (Cell T) → ℕ
last_offset a [] = a
last_offset a (c ∷ cs) = last_offset c.offset cs

-- What holds of a stored key, where one is offered.
abbrev pub Offered : (Pointer → Type 0) → Option Pointer → Type 0
Offered P none = Unit
Offered P (some p) = P p

-- The whole key of a node.
abbrev pub own_key : Node → Pointer
own_key n = record { offset = n.key_offset; size = Node.key_size n; height = some (Node.height n) }

pub Offered-first_key :
    (P : Pointer → Type 0) (k k' : Option Pointer)
    → Offered P k
    → Offered P k'
    → Offered P (first_key k k')
Offered-first_key P none k' h h' = h'
Offered-first_key P (some p) k' h h' = h

module _ {ar : Arena} {T : Type 0} ⦃tr : Trailer T⦄ (m : SkipMap ar T) (version : ℕ)
    (key : Bytes) where
  -- The key of a cell serves for an equal one.
  abbrev pub Serves : (Pointer → Type 0) → Cell T → Type 0
  Serves P d = (n : Node) → as_ref m d.offset ≡ done n → m.cmp.cmp key d.key ≡ eq → P (own_key n)

  abbrev pub Passed : List (Cell T) → Type 0
  Passed = All (λ c. at m.cmp.cmp version key c ≡ gt)

  abbrev pub Ahead : List (Cell T) → Type 0
  Ahead = All (λ c. at m.cmp.cmp version key c ≡ lt)

  as_ref-Holds : (c : Cell T) → Holds m c → (n : Node) × (as_ref m c.offset ≡ done n)
  unfolding get_key
  as_ref-Holds c h = let (n, e, _) = >>=-eq-done (as_ref m c.offset) _ h.key_read in (n, e)

  -- What the loop returns at a node, by where the query stands to it.
  unfoldable pub level_result : Ordering → (prev next : ℕ) → Option Pointer → LevelStep
  level_result gt prev next k = move_to next
  level_result lt prev next k = return (record {
    found = false;
    found_key = k;
    splice = record { prev = prev; next = next };
    curr = none;
  })
  level_result eq prev next k = return (record {
    found = true;
    found_key = k;
    splice = record { prev = prev; next = next };
    curr = some next;
  })

  level_step_node :
      (level prev : ℕ) (c : Cell T) (o : Ordering)
      → get_next m prev level ≡ done c.offset
      → Holds m c
      → at m.cmp.cmp version key c ≡ o
      → (n : Node) × (as_ref m c.offset ≡ done n)
        × (level_step m version key level prev
            ≡ done (level_result o prev c.offset (shared_key (m.cmp.cmp key c.key) key c.key n)))
  unfolding level_step level_result
  level_step_node level prev c o e h order =
      let (n, node) = as_ref-Holds c h in
      let away : (c.offset == m.tail) ≡ false = ground (arith, h.ne_tail) in
      (n, node, rw (e, away, h.key_read, h.trailer_read, node) (ground arith))

  pub level_step_cell :
      (level prev : ℕ) (c : Cell T) (o : Ordering)
      → get_next m prev level ≡ done c.offset
      → Holds m c
      → at m.cmp.cmp version key c ≡ o
      → (k : Option Pointer) × (level_step m version key level prev
          ≡ done (level_result o prev c.offset k))
  level_step_cell level prev c o e h order =
      let (n, node, runs) = level_step_node level prev c o e h order in (_, runs)

  shared_key-Offered :
      (P : Pointer → Type 0) (o : Ordering) (stored : Bytes) (n : Node)
      → o ≢ gt
      → (o ≡ eq → P (own_key n))
      → Offered P (shared_key o key stored n)
  unfolding shared_key
  shared_key-Offered P lt stored n below same = tt
  shared_key-Offered P eq stored n below same = same refl
  shared_key-Offered P gt stored n below same = absurd (below refl)

  level_step_ahead :
      (P : Pointer → Type 0) (level prev : ℕ) (c : Cell T)
      → get_next m prev level ≡ done c.offset
      → Holds m c
      → at m.cmp.cmp version key c ≡ lt
      → Serves P c
      → (k : Option Pointer) × (level_step m version key level prev
          ≡ done (level_result lt prev c.offset k))
        × Offered P k
  level_step_ahead P level prev c e h order serves =
      let (n, node, runs) = level_step_node level prev c lt e h order in
      (
        _,
        runs,
        shared_key-Offered P (m.cmp.cmp key c.key) c.key n (λ above. ground arith) (serves n node),
      )

  pub level_step_tail :
      (level prev : ℕ)
      → get_next m prev level ≡ done m.tail
      → level_step m version key level prev ≡ done (level_result lt prev m.tail none)
  unfolding level_step level_result
  level_step_tail level prev e = rw (e, ==_refl m.tail)

  -- The result of the loop that stops between the passed cells and those ahead.
  abbrev pub between : ℕ → List (Cell T) → List (Cell T) → Option Pointer → FindResult
  between a passed ahead k = record {
    found = false;
    found_key = k;
    splice = record { prev = last_offset a passed; next = first_offset m.tail ahead };
    curr = none;
  }

  pub level_loop-between :
      (P : Pointer → Type 0) (fuel level a : ℕ) (passed ahead : List (Cell T))
      → Chain (λ nd. get_next m nd level) a (passed ++ ahead) m.tail
      → All (Holds m) (passed ++ ahead)
      → Passed passed
      → Ahead ahead
      → All (Serves P) ahead
      → length passed < fuel
      → (k : Option Pointer) × (level_loop m version key fuel level a
          ≡ done (between a passed ahead k))
        × Offered P k
  unfolding level_loop level_result last_offset first_offset
  level_loop-between P zero level a passed ahead chain holds p q v enough = absurd (omega arith)
  level_loop-between P (suc fuel) level a [] [] chain holds p q v enough =
      (none, rw (level_step_tail level a chain), tt)
  level_loop-between P (suc fuel) level a [] (c ∷ cs) chain holds p q v enough =
      let (k, e, offered) = level_step_ahead P level a c chain.0 holds.0 q.0 v.0 in
      (k, rw e, offered)
  level_loop-between P (suc fuel) level a (c ∷ cs) ahead chain holds p q v enough =
      let (k, e) = level_step_cell level a c gt chain.0 holds.0 p.0 in
      let (k', e', offered) =
        level_loop-between P fuel level c.offset cs ahead chain.1 holds.1 p.1 q v (omega arith) in
      (k', rw e e', offered)

  pub level_loop_found :
      (fuel level a : ℕ) (passed : List (Cell T)) (y : Cell T) (ahead : List (Cell T))
      → Chain (λ nd. get_next m nd level) a (passed ++ y ∷ ahead) m.tail
      → All (Holds m) (passed ++ y ∷ ahead)
      → Passed passed
      → at m.cmp.cmp version key y ≡ eq
      → length passed < fuel
      → (r : FindResult) × (level_loop m version key fuel level a ≡ done r)
        × (r.found ≡ true)
        × (r.curr ≡ some y.offset)
  unfolding level_loop level_result
  level_loop_found zero level a passed y ahead chain holds p same enough = absurd (omega arith)
  level_loop_found (suc fuel) level a [] y ahead chain holds p same enough =
      let (k, e) = level_step_cell level a y eq chain.0 holds.0 same in
      (
        record {
          found = true;
          found_key = k;
          splice = record { prev = a; next = y.offset };
          curr = some y.offset;
        },
        rw e,
        refl,
        refl,
      )
  level_loop_found (suc fuel) level a (c ∷ cs) y ahead chain holds p same enough =
      let (k, e) = level_step_cell level a c gt chain.0 holds.0 p.0 in
      let (r, e', f, g) =
        level_loop_found fuel level c.offset cs y ahead chain.1 holds.1 p.1 same (omega arith) in
      (r, rw e e', f, g)
