-- ===== src/Link/Race/Keeps.antt =====
-- What the base level of a map holds after a race of threads that link their nodes there (the loop of
-- `update`, src/map.rs).
use skl_rs.Prelude.{
  ℕ, ◌≡◌, ◌≢◌, ◌⊎◌, ◌<◌, inl, inr, refl, ap, eq, List, [], ◌∷◌, All, All-imp, Pairwise, keep,
  lt→ltb, Run, done, ◌>>=◌, >>=-eq-done, ==_ne, arith, Option,
}
use mathlib.Core.Path.{subst}
use skl_rs.Comparator.{Trailer}
use skl_rs.Link.Race.{
  Move, Racer, writing, checking, doubting, helping, linking, returning, seeking, finished, meeting,
  race,
}
use skl_rs.Link.Race.Places.{Has, Away}
use skl_rs.Link.Race.State.{HasLink, Level, Knows}
use skl_rs.Link.Race.Turns.{cells_of, AreDistinct, IsSound, race_lem}
use skl_rs.Map.{SkipMap, get_next, get_prev, tower}
use skl_rs.Map.Order.{Cell, at, IsSorted}
use skl_rs.Map.Repr.{tall, Chain, BackChain, Apart, IsRepr, block_of}
use skl_rs.Node.{Link, tower_offset, is_null, deref}
use skl_rs.Node.Arena.{Arena}
use skl_rs.Value.Clear.{some_of_deref}

module _ {T : Type 0} where
  All-Has : (P : Cell T → Type 0) (cs : List (Cell T)) → ((d : Cell T) → Has d cs → P d) → All P cs
  All-Has P [] f = tt
  All-Has P (c ∷ cs) f = (f c (inl refl), All-Has P cs (λ d h. f d (inr h)))

  keep_all : (cs : List (Cell T)) → All (λ c. 0 < c.height) cs → keep (tall 0) cs ≡ cs
  keep_all [] h = refl
  keep_all (c ∷ cs) h =
      rw (lt→ltb 0 c.height h.0) (ap (λ (l : List (Cell T)). c ∷ l) (keep_all cs h.1))

  away_of : (c d : Cell T) → Apart (block_of c) (block_of d) → c.offset ≢ d.offset
  away_of c d (inl a) e = omega (arith, a, e)
  away_of c d (inr a) e = omega (arith, a, e)

  Pairwise-apart :
      (cs : List (Cell T))
      → Pairwise (λ c d. Apart (block_of c) (block_of d)) cs
      → Pairwise (λ c d. c.offset ≢ d.offset) cs
  Pairwise-apart [] h = tt
  Pairwise-apart (c ∷ cs) h = (All-imp (away_of c) cs h.0, Pairwise-apart cs h.1)

  back_of_stop :
      (prev : ℕ → Run ℕ) (a stop : ℕ) (cs : List (Cell T))
      → BackChain prev a cs stop
      → (b : ℕ) × (prev stop ≡ done b)
  back_of_stop prev a stop [] h = (a, h)
  back_of_stop prev a stop (c ∷ cs) h = back_of_stop prev c.offset stop cs h.1

module _ {ar : Arena} {T : Type 0} ⦃tr : Trailer T⦄ (m : SkipMap ar T) (cells : List (Cell T))
    (r : IsRepr m cells) where
  tail_HasLink : HasLink m m.memory.links m.tail
  unfolding get_prev tower is_null
  tail_HasLink =
      let (b, back) =
        back_of_stop (λ nd. get_prev m nd 0) m.head m.tail (keep (tall 0) cells)
          (r.backs 0 (omega (arith, r.height_pos, r.height_max))) in
      let back' : (deref (m.memory.links (tower_offset m.tail 0)) >>= λ l. done l.prev_offset)
          ≡ done b =
        rw (==_ne m.tail 0 r.tail_ne_null) at back in
      let (l, found, _) = >>=-eq-done (deref (m.memory.links (tower_offset m.tail 0))) _ back' in
      (l, some_of_deref (m.memory.links (tower_offset m.tail 0)) l found)

  pub IsRepr-Level : Level m m.memory.links cells
  IsRepr-Level = record {
    lawful = r.lawful;
    head_ne_null = r.head_ne_null;
    tail_link = tail_HasLink;
    chain =
        subst (λ (cs : List (Cell T)). Chain (λ nd. get_next m nd 0) m.head cs m.tail)
          (keep_all cells (All-imp (λ c h. h.has_link) cells r.holds))
          (r.levels 0 (omega (arith, r.height_pos, r.height_max)));
    sorted = r.sorted;
    holds = r.holds;
    apart = Pairwise-apart cells r.apart.pairs;
  }

  -- Where a thread stands to the list: its node is in it from the exchange on, and not before; or the
  -- node that it has met has its key and its version.
  abbrev pub StandsTo : List (Cell T) → Racer T → Type 0
  StandsTo after q = elim q.move [
    | writing prev next ↦ Away q.cell.offset after
    | checking prev next ↦ Away q.cell.offset after
    | doubting prev next seen ↦ Away q.cell.offset after
    | helping prev next seen ↦ Away q.cell.offset after
    | linking prev next ↦ Away q.cell.offset after
    | seeking prev ↦ Away q.cell.offset after
    | returning prev next ↦ Has q.cell after
    | finished ↦ Has q.cell after
    | meeting nd ↦
        (d : Cell T) × Has d after
        × (d.offset ≡ nd)
        × (at m.cmp.cmp (tr.version q.cell.trailer) q.cell.key d ≡ eq)
  ]

  stands :
      (links : ℕ → Option Link) (after : List (Cell T)) (c : Cell T) (move : Move)
      → Knows m c links after move
      → StandsTo after (record { cell = c; move = move })
  stands links after c (writing p n) k = k.0
  stands links after c (checking p n) k = k.0
  stands links after c (doubting p n seen) k = k.0
  stands links after c (helping p n seen) k = k.0
  stands links after c (linking p n) k = k.0
  stands links after c (returning p n) k = k.0
  stands links after c (seeking p) k = k.0
  stands links after c finished k = k
  stands links after c (meeting q) k = k

-- Threads link new nodes on the base level of a map that stands for cells: their nodes are different and
-- read as their cells say, and what each thread knows at the start is true. However they take turns, no
-- access fails, and the level leads in order through all the cells that were there and through no others
-- but the threads' own; the node of a thread is among them from its exchange on, and not before; and
-- where a thread has met a node with its key and its version, that node is among them.
pub race-Chain :
    {ar : Arena} {T : Type 0} ⦃tr : Trailer T⦄ (m : SkipMap ar T) (cells : List (Cell T))
    (rs : List (Racer T)) (schedule : List ℕ) (r : IsRepr m cells)
    → AreDistinct (cells_of rs)
    → All (IsSound m m.memory.links cells) rs
    → (rs' : List (Racer T)) × (m' : SkipMap ar T) × (after : List (Cell T)) × (race 0 schedule rs m
        ≡ done (rs', m'))
      × Chain (λ nd. get_next m' nd 0) m.head after m.tail
      × IsSorted m.cmp.cmp after
      × All (λ d. Has d after) cells
      × All (λ d. Has d cells ⊎ Has d (cells_of rs)) after
      × (cells_of rs' ≡ cells_of rs)
      × All (StandsTo m cells r after) rs'
race-Chain {T = T} m cells rs schedule r distinct sound =
    let v = race_lem m schedule rs m.memory.links cells (IsRepr-Level m cells r) sound distinct in
    (
      v.rs',
      _,
      v.cells',
      v.runs,
      v.level.chain,
      v.level.sorted,
      All-Has (λ d. Has d v.cells') cells v.kept,
      All-Has (λ d. Has d cells ⊎ Has d (cells_of rs)) v.cells' v.gained,
      v.same,
      All-imp (λ (q : Racer T) k. stands m cells r v.links' v.cells' q.cell q.move k.1) v.rs'
          v.sound,
    )
