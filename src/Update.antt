-- ===== src/Update.antt =====
-- `update` and `upsert` (src/map.rs): an entry is found and overwritten, or a new node is made and
-- linked. The table of probabilities, the random word, and what other threads do between a read of
-- a value and its exchange are arguments.
pub mod NewNode
pub mod Cell
pub mod Insert
pub mod Present
pub mod Overwrite
pub mod Clear
use skl_rs.Prelude.{
  ℕ, zero, suc, ◌+◌, Bool, true, false, Option, none, some, List, if◌then◌else◌, get_elem?, set,
  Run, done, fault, panic, out_of_fuel, Result, ok, err,
}
use skl_rs.Prelude
use skl_rs.Alloc.{Filler, Operation}
use skl_rs.Alloc.Nodes.{new_node, dealloc}
use skl_rs.Attempt.{Either, left, right, pure, ◌>>=◌, reading, lift, modify, or_undo}
use skl_rs.Capacity.{Error}
use skl_rs.Comparator.{Trailer}
use skl_rs.Entry.{is_removed}
use skl_rs.Key
use skl_rs.Key.{
  Key, occupied, vacant, pointer, remove, remove_vacant, remove_pointer, is_remove, on_fail,
}
use skl_rs.Link.{unwrap, Deallocator, Outcome, linked, existing, link_levels}
use skl_rs.Map.{SkipMap, VersionedEntryRef, from_node, get_key, read_trailer}
use skl_rs.Meta.{increase_len, update_max_version, update_min_version}
use skl_rs.Node.Arena.{Arena}
use skl_rs.Splice.{Found, Pointer, Splice, Inserter, find_splice}
use skl_rs.Value.{get_value_by_offset, set_value, clear_value}

-- `UpdateOk`: of an insertion or a removal, or of an exchange.
abbrev pub UpdateOk : Type 0 → Type 0
UpdateOk T =
    Either (Option (VersionedEntryRef T)) (Result (VersionedEntryRef T) (VersionedEntryRef T))

-- `if old.is_removed() { None } else { Some(old) }`
unfoldable pub present : {T : Type 0} → VersionedEntryRef T → Option (VersionedEntryRef T)
unfolding is_removed
present old = if is_removed old then none else some old

-- The key that is used on: the stored one where the search has found one.
unfoldable pub stored_or : Key → Option Pointer → Key
unfolding is_remove
stored_or key none = key
stored_or key (some k) =
    if is_remove key then remove_pointer k.offset k.size else pointer k.offset k.size

-- `ins.spl[i].prev = nd` on the levels below one.
unfoldable pub set_prevs : ℕ → ℕ → List Splice → List Splice
set_prevs zero nd spl = spl
set_prevs (suc i) nd spl =
    let rest = set_prevs i nd spl in
    elim (get_elem? spl i) [ none ↦ rest | some s ↦ set rest i (record s { prev = nd }) ]

-- The inserter after the loop: cleared where a splice had to be found again.
unfoldable pub after_links : Bool → ℕ → ℕ → Inserter → Inserter
unfolding set_prevs
after_links true height nd ins = record ins { height = 0 }
after_links false height nd ins = record ins { spl = set_prevs height nd ins.spl }

module _ {ar : Arena} {T : Type 0} where
  -- The header after a new entry.
  unfoldable pub announce : ℕ → SkipMap ar T → SkipMap ar T
  unfolding increase_len update_max_version update_min_version
  announce version m = record m {
    meta = update_min_version version (update_max_version version (increase_len m.meta));
  }

module _ {ar : Arena} {T : Type 0} ⦃tr : Trailer T⦄ (m : SkipMap ar T) where
  -- The search for the place of a key.
  unfoldable pub search : Key → T → Inserter → Run (Found × Inserter)
  unfolding Key.as_ref find_splice
  search key trailer ins =
      Prelude.◌>>=◌ (Key.as_ref m key) (λ bytes. find_splice m (tr.version trailer) bytes ins true)

module _ {ar : Arena} {T E : Type 0} ⦃tr : Trailer T⦄ (others : SkipMap ar T → SkipMap ar T) where
  -- The branch of `upsert` for a removal.
  upsert_remove : ℕ → Operation ar T E (UpdateOk T)
  unfolding get_key read_trailer get_value_by_offset clear_value
  upsert_remove nd = do
    key ← reading (λ m. get_key m nd)
    r ← clear_value others nd
    elim r [
      | ok _ ↦ pure (left none)
      | err current ↦ do
        trailer ← reading (λ m. read_trailer m current.0)
        value ← reading (λ m. done (get_value_by_offset m current.0 current.1))
        pure (right (err (record { key = key; trailer = trailer; value = value; ptr = nd })))
    ]

  upsert_set : VersionedEntryRef T → ℕ → T → ℕ → Filler E → Operation ar T E (UpdateOk T)
  unfolding set_value present
  upsert_set old nd trailer value_size f = do
    _ ← set_value nd trailer value_size f
    pure (left (present old))

  unfoldable pub upsert :
      VersionedEntryRef T → ℕ → Key → T → ℕ → Filler E → Operation ar T E (UpdateOk T)
  unfolding upsert_remove upsert_set
  upsert old nd (occupied _) trailer value_size f = upsert_set old nd trailer value_size f
  upsert old nd (vacant _) trailer value_size f = upsert_set old nd trailer value_size f
  upsert old nd (pointer _ _) trailer value_size f = upsert_set old nd trailer value_size f
  upsert old nd (remove _) trailer value_size f = upsert_remove nd
  upsert old nd (remove_vacant _) trailer value_size f = upsert_remove nd
  upsert old nd (remove_pointer _ _) trailer value_size f = upsert_remove nd

  -- The entry is in the list: it is overwritten, or returned.
  at_entry : VersionedEntryRef T → ℕ → Key → T → ℕ → Filler E → Bool → Operation ar T E (UpdateOk T)
  unfolding upsert present
  at_entry old nd key trailer value_size f true = upsert old nd key trailer value_size f
  at_entry old nd key trailer value_size f false = pure (left (present old))

  found_entry : Option ℕ → Key → T → ℕ → Filler E → Bool → Operation ar T E (UpdateOk T)
  unfolding from_node on_fail at_entry
  found_entry curr key trailer value_size f upserting = do
    nd ← lift (unwrap curr)
    old ← reading (λ m. from_node m nd)
    _ ← modify (λ m. on_fail m key)
    at_entry old nd key trailer value_size f upserting

  -- How `update` ends after the loop over the levels.
  after_levels :
      (nd height : ℕ)
      → Inserter
      → T
      → ℕ
      → Filler E
      → Bool
      → Outcome ar T
      → Run (Result (UpdateOk T × Inserter) (Either E (Error ar.Error)) × SkipMap ar T)
  unfolding after_links announce from_node on_fail dealloc at_entry
  after_levels nd height ins trailer value_size f upserting (linked m ls) =
      pure (left none, after_links ls.invalid_data_splice height nd ins)
        (announce (tr.version trailer) m)
  after_levels nd height ins trailer value_size f upserting (existing at m ls) =
      (do
        old ← reading (λ m'. from_node m' at)
        _ ← modify (λ m'. on_fail m' ls.k)
        _ ← dealloc ls.deallocator
        r ← at_entry old at ls.k trailer value_size f upserting
        pure (r, ins))
        m

  link_node :
      (nd height : ℕ)
      → Deallocator
      → Key
      → Inserter
      → T
      → ℕ
      → Filler E
      → Bool
      → Operation ar T E (UpdateOk T × Inserter)
  unfolding link_levels after_levels
  link_node nd height deallocator k ins trailer value_size f upserting m =
      elim (link_levels (tr.version trailer) nd height 0 m ins
        (record { k = k; deallocator = deallocator; invalid_data_splice = false })) [
          | done o ↦ after_levels nd height ins trailer value_size f upserting o
          | fault ↦ fault
          | panic ↦ panic
          | out_of_fuel ↦ out_of_fuel
        ]

  module _ (probabilities : List ℕ) (rnd : ℕ) where
    insert_entry :
        Option Pointer
        → Key
        → T
        → ℕ
        → Filler E
        → Inserter
        → Bool
        → Operation ar T E (UpdateOk T × Inserter)
    unfolding stored_or new_node on_fail link_node
    insert_entry found_key key trailer value_size f ins upserting = do
      let k = stored_or key found_key
      (nd, height, deallocator) ←
          or_undo (λ m. on_fail m k) (new_node probabilities rnd k trailer value_size f)
      link_node nd height deallocator k ins trailer value_size f upserting

    -- What follows the search.
    unfoldable with_place :
        T
        → Key
        → ℕ
        → Filler E
        → Bool
        → Run (Found × Inserter)
        → Operation ar T E (UpdateOk T × Inserter)
    unfolding found_entry insert_entry
    with_place trailer key value_size f upserting (done (found, ins)) =
        if found.found
        then (do r ← found_entry found.curr key trailer value_size f upserting; pure (r, ins))
        else insert_entry found.found_key key trailer value_size f ins upserting
    with_place trailer key value_size f upserting fault = λ m. fault
    with_place trailer key value_size f upserting panic = λ m. panic
    with_place trailer key value_size f upserting out_of_fuel = λ m. out_of_fuel

    unfoldable pub update :
        T → Key → ℕ → Filler E → Inserter → Bool → Operation ar T E (UpdateOk T × Inserter)
    unfolding search with_place
    update trailer key value_size f ins upserting m =
        with_place trailer key value_size f upserting (search m key trailer ins) m
