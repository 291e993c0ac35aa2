-- ===== src/Create/Ends.antt =====
-- The loop of `new_in` (src/map.rs) that links the head and the tail on all levels.
use skl_rs.Prelude.{
  ℕ, zero, suc, ◌+◌, ◌≤◌, ◌<◌, ◌≡◌, ◌≢◌, refl, ◌∙◌, inl, inr, Option, some, done, ok, arith,
  Bool-cases, ==_refl, ==_ne, eq_of_==, ◌==◌,
}
use mathlib.Core.Path.{subst}
use skl_rs.Create.{Store, link_ends}
use skl_rs.Link.{update}
use skl_rs.Map.Repr.{Apart}
use skl_rs.Node.{Link, tower_offset}
use skl_rs.Node.Arena.{Arena}

-- Every place holds a link, written or not.
abbrev pub IsReadable : (ℕ → Option Link) → Type 0
IsReadable links = (q : ℕ) → (l : Link) × (links q ≡ some l)

IsReadable-update :
    (links : ℕ → Option Link) (at : ℕ) (l : Link)
    → IsReadable links
    → IsReadable (update links at (some l))
IsReadable-update links at l r q = elim (Bool-cases (q == at)) [
  | inl same ↦ (l, rw same)
  | inr other ↦ let (l', e) = r q in (l', rw other e)
]

update_self :
    (links : ℕ → Option Link) (at q : ℕ) (l : Link) → q ≡ at → update links at (some l) q ≡ some l
update_self links at q l e = rw (e, ==_refl at)

update-other :
    (links : ℕ → Option Link) (at q : ℕ) (l : Option Link) → q ≢ at → update links at l q ≡ links q
update-other links at q l away = rw (==_ne q at away)

-- On the levels below one, the head leads to the tail and back.
pub record AreLinked (head tail levels : ℕ) (links : ℕ → Option Link) : Type 0 where
  pub onward :
      (i : ℕ)
      → i < levels
      → (l : Link) × (links (tower_offset head i) ≡ some l) × (l.next_offset ≡ tail)
  pub back :
      (i : ℕ)
      → i < levels
      → (l : Link) × (links (tower_offset tail i) ≡ some l) × (l.prev_offset ≡ head)

module _ (head tail height : ℕ) (apart : Apart (head, height) (tail, height)) where
  AreLinked-step :
      (links : ℕ → Option Link) (i : ℕ) (a b : Link)
      → i < height
      → AreLinked head tail i links
      → AreLinked head tail (i + 1) (
          update
            (update links (tower_offset head i) (some (record a { next_offset = tail })))
            (tower_offset tail i)
            (some (record b { prev_offset = head })))
  AreLinked-step links i a b below before =
      let first = update links (tower_offset head i) (some (record a { next_offset = tail })) in
      record {
        onward = λ j h. elim (Bool-cases (j == i)) [
          | inl same ↦
              let e = eq_of_== j i same in
              (
                record a { next_offset = tail },
                update-other first (tower_offset tail i) (tower_offset head j)
                      (some (record b { prev_offset = head })) (λ x. omega (arith, apart))
                    ∙ update_self links (tower_offset head i) (tower_offset head j)
                        (record a { next_offset = tail }) (omega arith),
                refl,
              )
          | inr other ↦
              let low : j < i = ground arith in
              let (l, e, f) = before.onward j low in
              (
                l,
                update-other first (tower_offset tail i) (tower_offset head j)
                      (some (record b { prev_offset = head })) (λ x. omega (arith, apart))
                    ∙ update-other links (tower_offset head i) (tower_offset head j)
                        (some (record a { next_offset = tail })) (λ x. omega arith)
                    ∙ e,
                f,
              )
        ];
        back = λ j h. elim (Bool-cases (j == i)) [
          | inl same ↦
              let e = eq_of_== j i same in
              (
                record b { prev_offset = head },
                update_self first (tower_offset tail i) (tower_offset tail j)
                    (record b { prev_offset = head }) (omega arith),
                refl,
              )
          | inr other ↦
              let low : j < i = ground arith in
              let (l, e, f) = before.back j low in
              (
                l,
                update-other first (tower_offset tail i) (tower_offset tail j)
                      (some (record b { prev_offset = head })) (λ x. omega arith)
                    ∙ update-other links (tower_offset head i) (tower_offset tail j)
                        (some (record a { next_offset = tail })) (λ x. omega (arith, apart))
                    ∙ e,
                f,
              )
        ];
      }

  pub link_ends-AreLinked :
      {ar : Arena} {T : Type 0} (left i : ℕ) (s : Store ar T)
      → i + left ≤ height
      → IsReadable s.memory.links
      → AreLinked head tail i s.memory.links
      → (links : ℕ → Option Link) × (link_ends left i head tail s
          ≡ done (ok tt, record s { memory = record s.memory { links = links } }))
        × AreLinked head tail (i + left) links
  unfolding link_ends
  link_ends-AreLinked zero i s fits readable linked = (
    s.memory.links,
    refl,
    subst (λ (n : ℕ). AreLinked head tail n s.memory.links) (omega arith) linked,
  )
  link_ends-AreLinked (suc left) i s fits readable linked =
      let (a, e) = readable (tower_offset head i) in
      let links =
        update s.memory.links (tower_offset head i) (some (record a { next_offset = tail })) in
      let readable' =
        IsReadable-update s.memory.links (tower_offset head i) (record a { next_offset = tail })
          readable in
      let (b, f) = readable' (tower_offset tail i) in
      let links' = update links (tower_offset tail i) (some (record b { prev_offset = head })) in
      let (links'', runs, all) =
        link_ends-AreLinked left (i + 1) (record s { memory = record s.memory { links = links' } })
          (omega arith)
          (IsReadable-update links (tower_offset tail i) (record b { prev_offset = head })
            readable')
          (AreLinked-step s.memory.links i a b (omega arith) linked) in
      (
        links'',
        rw (link_ends, e, f) runs,
        subst (λ (n : ℕ). AreLinked head tail n links'') (omega arith) all,
      )
