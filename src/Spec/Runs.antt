-- ===== src/Spec/Runs.antt =====
-- Runs of `get_or_insert` and `get_or_remove` (src/map/api.rs) against the items that a map holds.
use skl_rs.Prelude.{
  ℕ, suc, ◌+◌, ◌^◌, ◌≤◌, ◌<◌, ◌≡◌, refl, sym, ap, ◌∙◌, false, Option, none, some, eq, List, [], ◌∷◌,
  All, length, Run, done, Result, ok, err, arith,
}
use mathlib.Core.Path.{subst}
use skl_rs.Capacity.{Error}
use skl_rs.Comparator.{Bytes, Comparator, Trailer}
use skl_rs.Map.{SkipMap, VersionedEntryRef}
use skl_rs.Map.Order.{Cell}
use skl_rs.Node.Allocator.{IsAllocator}
use skl_rs.Node.Arena.{Arena}
use skl_rs.Options.{Options}
use skl_rs.Spec.{Item, add, exact, items_of, Refines, shown, unless_removed}
use skl_rs.Spec.Insert.{Adds, adds, refused, IsReady, get_or_insert-Adds}
use skl_rs.Spec.Place.{exact-IsAbsent}
use skl_rs.Spec.Present.{present-returned}
use skl_rs.Spec.Remove.{get_or_remove-Adds}
use skl_rs.Spec.Settle.{
  settle, settle_all, two_calls, there, add_new, Settles, SettlesAll, length-Settles, bytes_of,
  IsFit,
}

module _ {ar : Arena} {T : Type 0} ⦃tr : Trailer T⦄ (laws : IsAllocator ar)
    (writable : (s : ar.State) → ar.read_only s ≡ false) (opts : Options ar.Freelist)
    (cmp : Comparator) (sized : 0 < tr.size_of) (levels : opts.max_height < 2 ^ 5) (table : List ℕ)
    (covered : opts.max_height ≤ length table) where
  -- A map with its options and its order, and the items that it holds.
  pub record Stands (m : SkipMap ar T) (items : List (Item T)) : Type 0 where
    pub refines : Refines laws m items
    pub same_cmp : m.cmp ≡ cmp
    pub same_opts : m.opts ≡ opts

  len-Stands :
      (m : SkipMap ar T) (items : List (Item T)) → Stands m items → m.meta.len ≡ length items
  len-Stands m items s =
      let (cells, o, e) = s.refines in
      o.repr.counted ∙ length-items_of cells ∙ ap (λ (l : List (Item T)). length l) e
    where
      length-items_of : (cs : List (Cell T)) → length cs ≡ length (items_of cs)
      length-items_of [] = refl
      length-items_of (c ∷ cs) = ap suc (length-items_of cs)

  ready :
      (m : SkipMap ar T) (items : List (Item T)) (i : Item T)
      → Stands m items
      → IsFit cmp i
      → length items + 1 < 2 ^ 32
      → IsReady m table i.key (bytes_of i.value)
  ready m items i s fit room = record {
    sized = sized;
    levels = subst (λ (o : Options ar.Freelist). o.max_height < 2 ^ 5) (sym s.same_opts) levels;
    covered =
        subst (λ (o : Options ar.Freelist). o.max_height ≤ length table) (sym s.same_opts) covered;
    room = omega (arith, len-Stands m items s);
    key_short = fit.key_short;
    value_short = fit.value_short;
    exact =
        subst (λ (c : Comparator). (d : Bytes) → c.cmp i.key d ≡ eq → i.key ≡ d) (sym s.same_cmp)
          fit.apart;
  }

  -- How a call ends.
  data Ends (items : List (Item T)) (i : Item T)
      : Run (Result (Option (VersionedEntryRef T)) (Error ar.Error) × SkipMap ar T) → Type 0 where
    ends :
        (r : Result (Option (VersionedEntryRef T)) (Error ar.Error)) (m' : SkipMap ar T)
        (after : List (Item T))
        → Stands m' after
        → Settles cmp.cmp i r items after
        → Ends items i (done (r, m'))

  Ends-Adds :
      (m : SkipMap ar T) (items : List (Item T)) (i : Item T)
      → Stands m items
      → there cmp.cmp i items ≡ none
      → (x : Run (Result (Option (VersionedEntryRef T)) (Error ar.Error) × SkipMap ar T))
      → Adds laws m items i x
      → Ends items i x
  unfolding add_new
  Ends-Adds m items i s new x (adds m' w r same) =
      ends (ok none) m' (add m.cmp.cmp i items)
        (record { refines = r; same_cmp = same.0 ∙ s.same_cmp; same_opts = same.1 ∙ s.same_opts })
        (rw new refl, rw (new, add_new) (ap (λ (c : Comparator). add c.cmp i items) s.same_cmp))
  Ends-Adds m items i s new x (refused e m' why r same) =
      ends (err e) m' items
        (record { refines = r; same_cmp = same.0 ∙ s.same_cmp; same_opts = same.1 ∙ s.same_opts })
        (new, refl)

  added :
      (m : SkipMap ar T) (items : List (Item T)) (rnd : ℕ) (key : Bytes) (t : T) (v : Option Bytes)
      → Stands m items
      → IsReady m table key (bytes_of v)
      → exact m.cmp.cmp (tr.version t) key items ≡ none
      → exact cmp.cmp (tr.version t) key items ≡ none
      → Ends items (record { key = key; trailer = t; value = v }) (settle table rnd key t v m)
  unfolding settle
  added m items rnd key t (some v) s ready new new' = Ends-Adds m items _ s new' _ (
      get_or_insert-Adds laws m items key v t table rnd s.refines ready
        (exact-IsAbsent m.cmp.cmp (tr.version t) key items new))
  added m items rnd key t none s ready new new' = Ends-Adds m items _ s new' _ (
      get_or_remove-Adds laws m items key t table rnd s.refines ready (writable m.arena)
        (exact-IsAbsent m.cmp.cmp (tr.version t) key items new))

  -- A call that finds its version leaves the map as it is.
  Ends-kept :
      (m : SkipMap ar T) (items : List (Item T)) (i j : Item T)
      → Stands m items
      → there cmp.cmp i items ≡ some j
      → (e : Option (VersionedEntryRef T)) → shown e ≡ unless_removed (some j)
      → (x : Run (Result (Option (VersionedEntryRef T)) (Error ar.Error) × SkipMap ar T))
      → x ≡ done (ok e, m)
      → Ends items i x
  unfolding add_new
  Ends-kept m items i j s old e shows x runs =
      rw runs (ends (ok e) m items s (rw old shows, rw (old, add_new) refl))

  kept :
      (m : SkipMap ar T) (items : List (Item T)) (rnd : ℕ) (key : Bytes) (t : T) (v : Option Bytes)
      (j : Item T)
      → Stands m items
      → exact m.cmp.cmp (tr.version t) key items ≡ some j
      → exact cmp.cmp (tr.version t) key items ≡ some j
      → Ends items (record { key = key; trailer = t; value = v }) (settle table rnd key t v m)
  unfolding settle
  kept m items rnd key t (some v) j s old old' =
      let ((e, runs, shows), _) =
        present-returned laws m items j key v t table rnd s.refines (writable m.arena) old in
      Ends-kept m items _ j s old' e shows _ runs
  kept m items rnd key t none j s old old' =
      let (_, (e, runs, shows)) =
        present-returned laws m items j key [] t table rnd s.refines (writable m.arena) old in
      Ends-kept m items _ j s old' e shows _ runs

  settle-Ends :
      (m : SkipMap ar T) (items : List (Item T)) (rnd : ℕ) (i : Item T)
      → Stands m items
      → IsFit cmp i
      → length items + 1 < 2 ^ 32
      → Ends items i (settle table rnd i.key i.trailer i.value m)
  settle-Ends m items rnd i s fit room = by_item (there cmp.cmp i items) refl
    where
      at_cmp : there m.cmp.cmp i items ≡ there cmp.cmp i items
      at_cmp = ap (λ (c : Comparator). there c.cmp i items) s.same_cmp

      by_item :
          (o : Option (Item T))
          → there cmp.cmp i items ≡ o
          → Ends items i (settle table rnd i.key i.trailer i.value m)
      by_item none new =
          added m items rnd i.key i.trailer i.value s (ready m items i s fit room) (at_cmp ∙ new)
            new
      by_item (some j) old = kept m items rnd i.key i.trailer i.value j s (at_cmp ∙ old) old

  Ends-parts :
      (items : List (Item T)) (i : Item T)
      (x : Run (Result (Option (VersionedEntryRef T)) (Error ar.Error) × SkipMap ar T))
      → Ends items i x
      → (r : Result (Option (VersionedEntryRef T)) (Error ar.Error)) × (m' : SkipMap ar T)
        × (after : List (Item T)) × (x ≡ done (r, m'))
        × Stands m' after
        × Settles cmp.cmp i r items after
  Ends-parts items i x (ends r m' after s one) = (r, m', after, refl, s, one)

  settle_all-Stands :
      (calls : List (ℕ × Item T)) (m : SkipMap ar T) (items : List (Item T))
      → Stands m items
      → All (λ c. IsFit cmp c.1) calls
      → length items + length calls < 2 ^ 32
      → (rs : List (Result (Option (VersionedEntryRef T)) (Error ar.Error))) × (m' : SkipMap ar T)
        × (after : List (Item T)) × (settle_all table calls m ≡ done (rs, m'))
        × Stands m' after
        × SettlesAll cmp.cmp calls rs items after
  unfolding settle_all
  settle_all-Stands [] m items s fit room = ([], m, items, refl, s, refl)
  settle_all-Stands ((rnd, i) ∷ calls) m items s fit room =
      let (r, m', between, runs, s', one) =
        Ends-parts items i _ (settle-Ends m items rnd i s fit.0 (omega arith)) in
      let (rs, m'', after, rest, s'', many) =
        settle_all-Stands calls m' between s' fit.1
          (omega (arith, length-Settles cmp.cmp i r items between one)) in
      (
        r ∷ rs,
        m'',
        after,
        two_calls table rnd i calls m m' m'' r rs runs rest,
        s'',
        (between, one, many),
      )

-- On an arena that keeps the laws of an allocator and is never read-only, with trailers that have a
-- size, at most 31 levels and a probability for each, where a map holds items and has room for as
-- many more as there are calls, each of a key and a value that fit: a run of `get_or_insert` and
-- `get_or_remove`, in any order and with any random words, always returns, one result for each call,
-- and a map that holds the items that the run leaves. A call that finds its key and its version
-- returns that item and leaves the items; where that item is a removal it leaves the items too, but
-- returns nothing, which the documentation keeps for a key that was inserted. Any other call returns
-- nothing and adds its item, or an error and leaves the items.
pub settle_all-Refines :
    {ar : Arena} {T : Type 0} ⦃tr : Trailer T⦄ (laws : IsAllocator ar) (m : SkipMap ar T)
    (items : List (Item T)) (table : List ℕ) (calls : List (ℕ × Item T))
    → ((s : ar.State) → ar.read_only s ≡ false)
    → 0 < tr.size_of
    → m.opts.max_height < 2 ^ 5
    → m.opts.max_height ≤ length table
    → Refines laws m items
    → All (λ c. IsFit m.cmp c.1) calls
    → length items + length calls < 2 ^ 32
    → (rs : List (Result (Option (VersionedEntryRef T)) (Error ar.Error))) × (m' : SkipMap ar T)
      × (after : List (Item T)) × (settle_all table calls m ≡ done (rs, m'))
      × Refines laws m' after
      × SettlesAll m.cmp.cmp calls rs items after
settle_all-Refines laws m items table calls writable sized levels covered r fit room =
    let (rs, m', after, runs, s, many) =
      settle_all-Stands laws writable m.opts m.cmp sized levels table covered calls m items
        (record { refines = r; same_cmp = refl; same_opts = refl }) fit room in
    (rs, m', after, runs, s.refines, many)
