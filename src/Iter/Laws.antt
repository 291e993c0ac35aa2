-- ===== src/Iter/Laws.antt =====
-- What `Iter` (src/map/iterator/iter.rs) yields, and where that is not what `get` finds.
use skl_rs.Prelude.{
  ℕ, ◌≤◌, ◌≡◌, refl, ◌∙◌, inl, inr, true, false, Option, none, some, eq, List, [], ◌∷◌, ◌++◌, leb,
  Run, done, arith, Bool-cases,
}
use mathlib.Core.List.{reverse}
use skl_rs.Comparator.{Bytes, Trailer}
use skl_rs.Entry.Borrowed
use skl_rs.Entry.Types.{EntryRef}
use skl_rs.Iter.{Iter, new, next, next_back, wrapped}
use skl_rs.Iterator
use skl_rs.Iterator.{AllVersionsIter, is_removed, same_as_last}
use skl_rs.Iterator.Next.{next_in-first_shown}
use skl_rs.Iterator.Prev.{prev-first_shown}
use skl_rs.Iterator.Traits
use skl_rs.Iterator.Walk.{shows, first_shown}
use skl_rs.Map.{SkipMap}
use skl_rs.Map.Order.{Cell}
use skl_rs.Map.Repr.{IsRepr, entry_of}
use skl_rs.Node.Arena.{Arena}
use skl_rs.Search.{get}
use skl_rs.Search.Get.{lookup_at, get-lookup_at}
use skl_rs.Search.Near.{first_offset}
use skl_rs.Splice.Level.{last_offset}

-- An entry, where there is one, has a value: reading it does not panic.
abbrev pub HasValue : {T : Type 0} → Option (EntryRef T) → Type 0
HasValue none = Unit
HasValue (some e) = (v : Bytes) × (Borrowed.value e ≡ done v)

-- A call returns, and what it returns has a value.
abbrev pub YieldsValue : {T : Type 0} → Run (Option (EntryRef T) × Iter T) → Type 0
YieldsValue {T} x = (r : Option (EntryRef T)) × (it : Iter T) × (x ≡ done (r, it)) × HasValue r

module _ {ar : Arena} {T : Type 0} ⦃tr : Trailer T⦄ (m : SkipMap ar T) where
  wrapped-first_shown :
      (stop : ℕ) (it : AllVersionsIter T) (cs : List (Cell T))
      → it.all_versions ≡ false
      → YieldsValue (wrapped (first_shown m stop it cs))
  unfolding first_shown Borrowed.value
  wrapped-first_shown stop it [] latest =
      (none, record { inner = record it { nd = stop } }, refl, tt)
  wrapped-first_shown stop it (c ∷ cs) latest = elim (Bool-cases (shows m it c)) [
    | inl e ↦ rw e (valued c.value (ground arith))
    | inr e ↦ rw e (wrapped-first_shown stop it cs latest)
  ]
    where
      valued :
          (v : Option Bytes)
          → is_removed v ≡ false
          → YieldsValue (
              wrapped (
                some (record { key = c.key; trailer = c.trailer; value = v; ptr = c.offset }),
                record it {
                  nd = c.offset;
                  last =
                      some (record { key = c.key; trailer = c.trailer; value = v; ptr = c.offset });
                },
              ))
      valued none h = cc
      valued (some v) h = (_, _, refl, (v, refl))

  -- On a map that stands for cells, iterators over the latest versions always return: from `next`
  -- where one stands at the head or at a cell, and from `next_back` where one stands at a cell or at
  -- the tail. An entry that they yield has a value, so that reading it does not panic.
  pub next-YieldsValue :
      (passed ahead : List (Cell T)) (it back : Iter T)
      → IsRepr m (passed ++ ahead)
      → it.inner.all_versions ≡ false
      → back.inner.all_versions ≡ false
      → it.inner.nd ≡ last_offset m.head passed
      → back.inner.nd ≡ first_offset m.tail ahead
      → YieldsValue (next m it) × YieldsValue (next_back m back)
  unfolding next next_back Traits.next Traits.next_back
  next-YieldsValue passed ahead it back r latest latest_back at behind = (
    rw (next_in-first_shown m passed ahead it.inner r at)
        (wrapped-first_shown m.tail it.inner ahead latest),
    rw (prev-first_shown m passed ahead back.inner r behind)
        (wrapped-first_shown m.head back.inner (reverse passed) latest_back),
  )

  module _ (version : ℕ) (c d : Cell T) (cells : List (Cell T)) (r : IsRepr m (c ∷ d ∷ cells))
      (same : m.cmp.cmp c.key d.key ≡ eq) (seen : tr.version c.trailer ≤ version) where
    older_seen : leb (tr.version d.trailer) version ≡ true
    older_seen = ground (arith, r.sorted.0.0)

    newest_found : lookup_at m.cmp.cmp version d.key (c ∷ d ∷ cells) ≡ some c
    unfolding lookup_at
    newest_found =
        let back : m.cmp.cmp d.key c.key ≡ eq = ground (arith, r.lawful.cmp_flip c.key d.key) in
        let low : leb (tr.version c.trailer) version ≡ true = ground arith in rw (back, low) refl

    -- Where the newest entry of the first key is a removal that the version sees, and the key has an
    -- older entry with a value and lies in the range of an iterator over the whole map: a new iterator
    -- over the latest versions yields the older entry first, which `get` reports as removed.
    pub next-revives :
        (v : Bytes)
        → c.value ≡ none
        → d.value ≡ some v
        → m.cmp.contains Iterator.range_full d.key ≡ true
        → ((it : Iter T) × (next m (new m version)
              ≡ done (some (record { inner = entry_of m d }), it)))
          × (get m version d.key ≡ done none)
    unfolding next new Traits.next Iterator.new first_shown last_offset
    next-revives v removed kept ranged =
        let it : AllVersionsIter T = Iterator.new m version false in
        let hidden : shows m it c ≡ false = rw removed (ground arith) in
        let shown : shows m it d ≡ true = rw (kept, older_seen, ranged) refl in
        (
          (
            record { inner = record it { nd = d.offset; last = some (entry_of m d) } },
            rw (next_in-first_shown m [] (c ∷ d ∷ cells) it r refl, hidden, shown) refl,
          ),
          get-lookup_at m (c ∷ d ∷ cells) version d.key r ∙ rw (newest_found, removed) refl,
        )
