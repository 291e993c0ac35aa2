-- ===== src/Iterator/Seek/Lower.antt =====
-- `SkipMap::lower_bound` (src/map/api.rs), which is a seek of an iterator over the latest versions,
-- against the list of cells.
use skl_rs.Prelude.{
  ℕ, zero, suc, ◌≤◌, ◌<◌, ◌≡◌, refl, true, false, Option, none, some, List, [], ◌∷◌, ◌++◌, false,
  gt, All-split, All, done, ◌>>=◌, inl, inr, Bool-cases, arith, ==_ne,
}
use skl_rs.Codec.{u64_max}
use skl_rs.Comparator.{Bytes, Bound, included, excluded, Trailer}
use skl_rs.Iterator.{AllVersionsIter, repeat, new, range_full}
use skl_rs.Iterator.Seek.{
  seek_up, seek_up_step, seek_ge, seek_gt, landed, seek_lower_bound, lower_bound,
}
use skl_rs.Map.{SkipMap, VersionedEntryRef}
use skl_rs.Map.Order.{Cell}
use skl_rs.Map.Repr.{Holds, IsRepr, entry_of, from_node-Holds}
use skl_rs.Node.{is_null}
use skl_rs.Node.Arena.{Arena}
use skl_rs.Search.{rounds}
use skl_rs.Search.Bounds.{Sees, search_ge-first_from, search_gt-first_from}
use skl_rs.Search.Versions.{search_ge-newer}
use skl_rs.Search.From.{reaches, first_from, offset_of}

module _ {ar : Arena} {T : Type 0} ⦃tr : Trailer T⦄ (m : SkipMap ar T) where
  abbrev pub entry_at : Option (Cell T) → Option (VersionedEntryRef T)
  entry_at none = none
  entry_at (some c) = some (entry_of m c)

  repeat_up :
      (it : AllVersionsIter T) (c : Cell T) (fuel : ℕ)
      → Holds m c
      → it.nd ≡ c.offset
      → m.cmp.contains it.range c.key ≡ true
      → 0 < fuel
      → repeat m (seek_up_step m) fuel it ≡ done (some it.nd, it)
  unfolding repeat seek_up_step
  repeat_up it c zero h e inside enough = absurd (omega arith)
  repeat_up it c (suc fuel) h e inside enough = rw (e, h.key_read, inside) refl

  seek_up_cell :
      (it : AllVersionsIter T) (c : Cell T)
      → Holds m c
      → m.cmp.contains it.range c.key ≡ true
      → (seek_up m it (some c.offset) >>= landed m)
        ≡ done (some (entry_of m c), record it { nd = c.offset; last = some (entry_of m c) })
  unfolding seek_up landed is_null
  seek_up_cell it c h inside =
      rw
        (
          ==_ne _ _ h.ne_null,
          ==_ne _ _ h.ne_tail,
          repeat_up (record it { nd = c.offset }) c (rounds m) h refl inside (omega arith),
          from_node-Holds m c h,
        )
        refl

  abbrev HoldsAt : Option (Cell T) → Type 0
  HoldsAt none = Unit
  HoldsAt (some c) = Holds m c

  first_from-HoldsAt :
      (lower : Bound) (cs : List (Cell T))
      → All (Holds m) cs
      → HoldsAt (first_from m.cmp.cmp lower cs)
  unfolding first_from
  first_from-HoldsAt lower [] h = tt
  first_from-HoldsAt lower (c ∷ cs) h = elim (Bool-cases (reaches m.cmp.cmp lower c.key)) [
    | inl hit ↦ rw (hit) h.0
    | inr missed ↦ rw (missed) (first_from-HoldsAt lower cs h.1)
  ]

  seek_up-landed :
      (it : AllVersionsIter T) (o : Option (Cell T))
      → HoldsAt o
      → ((key : Bytes) → m.cmp.contains it.range key ≡ true)
      → ((seek_up m it (offset_of o) >>= landed m) >>= λ r. done r.0) ≡ done (entry_at o)
  unfolding seek_up landed
  seek_up-landed it none h inside = refl
  seek_up-landed it (some c) h inside = rw (seek_up_cell it c h (inside c.key)) refl

-- On a map that stands for cells, with a comparator by which every key is in the full range, and for
-- a version that is not less than that of any cell, `lower_bound` returns: the entry of the first cell
-- whose key is not less than the bound, or is greater than it where the bound is excluded, and none
-- where there is no such cell. The entry may be a removal.
pub lower_bound-first_from :
    {ar : Arena} {T : Type 0} ⦃tr : Trailer T⦄ (m : SkipMap ar T) (cells : List (Cell T))
    (version : ℕ) (key : Bytes)
    → IsRepr m cells
    → ((k : Bytes) → m.cmp.contains range_full k ≡ true)
    → version ≤ u64_max
    → All (Sees m version) cells
    → (lower_bound m version (included key)
        ≡ done (entry_at m (first_from m.cmp.cmp (included key) cells)))
      × (lower_bound m version (excluded key)
          ≡ done (entry_at m (first_from m.cmp.cmp (excluded key) cells)))
unfolding lower_bound seek_lower_bound seek_ge seek_gt new
lower_bound-first_from m cells version key r inside small seen = (
  rw (search_ge-first_from m version cells r seen key small) (
      seek_up-landed m (new m version false) _ (first_from-HoldsAt m (included key) cells r.holds)
        inside),
  rw (search_gt-first_from m version cells r seen key) (
      seek_up-landed m (new m version false) _ (first_from-HoldsAt m (excluded key) cells r.holds)
        inside),
)

-- On a map that stands for cells, where the first cell whose key is not less than the bound is newer
-- than the version, while the cell behind it has a greater key and is not newer, and where every key
-- is in the full range of the comparator: `lower_bound` returns the entry of the first of them, which
-- its version does not see.
pub lower_bound-newer :
    {ar : Arena} {T : Type 0} ⦃tr : Trailer T⦄ (m : SkipMap ar T) (version : ℕ) (key : Bytes)
    (passed : List (Cell T)) (c d : Cell T) (ahead : List (Cell T))
    → IsRepr m (passed ++ c ∷ d ∷ ahead)
    → ((k : Bytes) → m.cmp.contains range_full k ≡ true)
    → All (λ p. reaches m.cmp.cmp (included key) p.key ≡ false) passed
    → reaches m.cmp.cmp (included key) c.key ≡ true
    → tr.version c.trailer ≤ u64_max
    → version < tr.version c.trailer
    → tr.version d.trailer ≤ version
    → m.cmp.cmp d.key c.key ≡ gt
    → lower_bound m version (included key) ≡ done (some (entry_of m c))
unfolding lower_bound seek_lower_bound seek_ge new
lower_bound-newer m version key passed c d ahead r inside low reached small newer seen above =
    let held = (All-split (Holds m) passed (c ∷ d ∷ ahead) r.holds).1.0 in
    rw (search_ge-newer m version key passed c d ahead r low reached small newer seen above)
      (seek_up-landed m (new m version false) (some c) held inside)
