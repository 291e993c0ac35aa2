-- ===== src/Link/Level.antt =====
-- One round of linking (the loop of `update`, src/map.rs) where no other thread interferes: the
-- three links that it is about.
use skl_rs.Prelude.{
  ℕ, ◌<◌, ◌≡◌, ◌≢◌, inl, inr, refl, ◌∙◌, ap, true, Option, none, some, ◌==◌, done, ◌>>=◌, ==_ne,
  ==_refl, eq_of_==, arith, Bool-cases,
}
use skl_rs.Map.{SkipMap, get_next, get_prev}
use skl_rs.Map.Repr.{Block, Apart}
use skl_rs.Node.{Link, tower_offset, deref}
use skl_rs.Node.Arena.{Arena}
use skl_rs.Link.{update, with_links, write_tower, help_along, link_round}

-- Links of towers that lie apart are at different offsets.
pub tower_offset-ne :
    (a b : Block) (i j : ℕ)
    → Apart a b
    → i < a.1
    → j < b.1
    → tower_offset a.0 i ≢ tower_offset b.0 j
tower_offset-ne a b i j apart p q e = omega arith

pub tower_offset-ne_level : (a i j : ℕ) → i ≢ j → tower_offset a i ≢ tower_offset a j
tower_offset-ne_level a i j ne e = omega arith

-- What a read that ends well has read.
read-inv :
    {A B : Type 0} (o : Option A) (f : A → B) {b : B}
    → (deref o >>= λ a. done (f a)) ≡ done b
    → (a : A) × (o ≡ some a) × (f a ≡ b)
read-inv none f e = cc
read-inv (some a) f e = (a, refl, ground arith)

module _ {ar : Arena} {T : Type 0} where
  -- What a read of a link says about the memory.
  pub get_next-inv :
      (m : SkipMap ar T) (nd i x : ℕ)
      → nd ≢ 0
      → get_next m nd i ≡ done x
      → (l : Link) × (m.memory.links (tower_offset nd i) ≡ some l) × (l.next_offset ≡ x)
  unfolding get_next
  get_next-inv m nd i x ne e =
      read-inv (m.memory.links (tower_offset nd i)) (λ l. l.next_offset) (rw (==_ne nd 0 ne) at e)

  pub get_prev-inv :
      (m : SkipMap ar T) (nd i x : ℕ)
      → nd ≢ 0
      → get_prev m nd i ≡ done x
      → (l : Link) × (m.memory.links (tower_offset nd i) ≡ some l) × (l.prev_offset ≡ x)
  unfolding get_prev
  get_prev-inv m nd i x ne e =
      read-inv (m.memory.links (tower_offset nd i)) (λ l. l.prev_offset) (rw (==_ne nd 0 ne) at e)

module _ {ar : Arena} {T : Type 0} (m : SkipMap ar T) (i nd prev next : ℕ) (lp ln : Link)
    (hp : m.memory.links (tower_offset prev i) ≡ some lp)
    (hn : m.memory.links (tower_offset next i) ≡ some ln) (ep : lp.next_offset ≡ next)
    (en : ln.prev_offset ≡ prev) (d1 : tower_offset prev i ≢ tower_offset nd i)
    (d2 : tower_offset next i ≢ tower_offset nd i)
    (d3 : tower_offset next i ≢ tower_offset prev i) where
  abbrev pub relinked : ℕ → Option Link
  relinked =
      update
        (update
          (update m.memory.links (tower_offset nd i)
            (some (record { next_offset = next; prev_offset = prev })))
          (tower_offset prev i) (some (record lp { next_offset = nd })))
        (tower_offset next i) (some (record ln { prev_offset = nd }))

  help_along_lem :
      help_along (write_tower m nd i prev next) i prev next ≡ done (write_tower m nd i prev next)
  unfolding help_along write_tower
  help_along_lem = rw (==_ne _ _ d2, hn, en, ==_refl prev)

  pub link_round_lem : link_round m nd i prev next ≡ done (true, with_links m relinked)
  unfolding link_round
  link_round_lem = rw help_along_lem (
      rw (==_ne _ _ d1, hp, ep, ==_refl next)
        (rw (==_ne _ _ d3, ==_ne _ _ d2, hn, en, ==_refl prev)))

  pub next_of_prev : prev ≢ 0 → get_next (with_links m relinked) prev i ≡ done nd
  unfolding get_next
  next_of_prev ne = rw (==_ne prev 0 ne) (ground arith)

  pub next_of_nd : nd ≢ 0 → get_next (with_links m relinked) nd i ≡ done next
  unfolding get_next
  next_of_nd ne = rw (==_ne nd 0 ne) (ground arith)

  pub prev_of_nd : nd ≢ 0 → get_prev (with_links m relinked) nd i ≡ done prev
  unfolding get_prev
  prev_of_nd ne = rw (==_ne nd 0 ne) (ground arith)

  pub prev_of_next : next ≢ 0 → get_prev (with_links m relinked) next i ≡ done nd
  unfolding get_prev
  prev_of_next ne = rw (==_ne next 0 ne) (ground arith)

  pub next_elsewhere :
      (q j : ℕ)
      → tower_offset q j ≢ tower_offset prev i
      → tower_offset q j ≢ tower_offset nd i
      → get_next (with_links m relinked) q j ≡ get_next m q j
  unfolding get_next
  next_elsewhere q j ne_prev ne_nd = elim (Bool-cases (tower_offset q j == tower_offset next i)) [
    | inl same ↦
        let here : m.memory.links (tower_offset q j) ≡ some ln =
          ap m.memory.links (eq_of_== _ _ same) ∙ hn in
        rw (same, here)
    | inr other ↦ rw (other, ==_ne _ _ ne_prev, ==_ne _ _ ne_nd)
  ]

  pub prev_elsewhere :
      (q j : ℕ)
      → tower_offset q j ≢ tower_offset next i
      → tower_offset q j ≢ tower_offset nd i
      → get_prev (with_links m relinked) q j ≡ get_prev m q j
  unfolding get_prev
  prev_elsewhere q j ne_next ne_nd = elim (Bool-cases (tower_offset q j == tower_offset prev i)) [
    | inl same ↦
        let here : m.memory.links (tower_offset q j) ≡ some lp =
          ap m.memory.links (eq_of_== _ _ same) ∙ hp in
        rw (==_ne _ _ ne_next, same, here)
    | inr other ↦ rw (==_ne _ _ ne_next, other, ==_ne _ _ ne_nd)
  ]
