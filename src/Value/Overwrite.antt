-- ===== src/Value/Overwrite.antt =====
-- `set_value` (src/map.rs) on a node of the list.
use mathlib.Core.Path.{subst}
use skl_rs.Prelude.{
  ℕ, ◌+◌, ◌^◌, ◌<◌, ◌≡◌, refl, sym, ◌∙◌, inl, inr, some, List, ◌∷◌, ◌++◌, All-imp, All-split,
  length, ==_ne, ==_refl, Bool-cases, ltb, ltb→lt, ltb→le, Run, done, Result, ok, err, arith,
}
use skl_rs.Alloc.{Filler, write_node, write_trailer, put_bytes}
use skl_rs.Alloc.Fill.{Fills, put_bytes-elsewhere}
use skl_rs.Alloc.Made.{read_value}
use skl_rs.Alloc.Owned.{IsOwned, IsStored, IsKept, IsOwned-renewed}
use skl_rs.Alloc.Reason.{IsRefusal}
use skl_rs.Attempt.{Either, right}
use skl_rs.Capacity.{Error}
use skl_rs.Capacity.Bounds.{stored_size}
use skl_rs.Codec.{u32_max, decode_value_pointer}
use skl_rs.Comparator.{Bytes, Trailer}
use skl_rs.Link.{update}
use skl_rs.Map.{SkipMap}
use skl_rs.Map.Order.{Cell}
use skl_rs.Map.Revalue.{revalued}
use skl_rs.Node.{Node}
use skl_rs.Node.Allocator.{InUse, IsBlock, IsBlock-outside, IsAllocator}
use skl_rs.Node.Arena.{Arena}
use skl_rs.Value.{set_value}
use skl_rs.Value.Lone.{Clear, IsClearKey, IsClear, IsLone}
use skl_rs.Value.Exchange.{IsReady}
use skl_rs.Value.Exchanged.{IsOwned-exchanged}
use skl_rs.Value.Sets.{filled, replaced, Sets, set, not_set, set_value-Sets}

module _ {ar : Arena} {T : Type 0} ⦃tr : Trailer T⦄ (laws : IsAllocator ar) (m : SkipMap ar T)
    (passed : List (Cell T)) (y : Cell T) (ahead : List (Cell T)) where
  -- The value of the cell can be given back: it is not a removal, its size fits in a word, and its
  -- block, at an aligned offset, has no byte in common with what else the map has in use.
  pub record IsReleasable : Type 0 where
    pub node : Node
    pub node_at : m.memory.nodes y.offset ≡ some node
    pub fits : tr.size_of + (decode_value_pointer node.value).1 < 2 ^ 32
    pub aligned :
        ar.get_aligned_pointer tr.align_of (decode_value_pointer node.value).0
        ≡ (decode_value_pointer node.value).0
    pub lone :
        IsLone m
          (decode_value_pointer node.value).0
          (tr.size_of + (decode_value_pointer node.value).1)
          passed
          y
          ahead

  module _ (o : IsOwned laws m (passed ++ y ∷ ahead)) (k : IsReleasable) (t : T) (v : Bytes)
      (sized : 0 < tr.size_of) (short : length v < u32_max)
      (same : tr.version y.trailer ≡ tr.version t) where
    abbrev old : ℕ
    old = (decode_value_pointer k.node.value).0

    abbrev old_size : ℕ
    old_size = tr.size_of + (decode_value_pointer k.node.value).1

    -- The old block is in use.
    old_used : InUse (laws.Used m.arena) old old_size
    old_used =
        let s = (All-split (IsStored laws m) passed (y ∷ ahead) o.stored).1.0 in
        let found : some s.node ≡ some k.node = sym s.node_at ∙ k.node_at in
        let node_same : s.node ≡ k.node = cc in
        let valued : stored_size (decode_value_pointer k.node.value).1
            ≡ (decode_value_pointer k.node.value).1 =
          rw
            (==_ne (decode_value_pointer k.node.value).1 u32_max (λ e. omega (arith, k.fits, e))) in
        subst (λ (at : ℕ). InUse (laws.Used m.arena) at old_size) k.aligned
          (subst
            (λ (len : ℕ).
              InUse (laws.Used m.arena)
                (ar.get_aligned_pointer tr.align_of (decode_value_pointer k.node.value).0)
                (tr.size_of + len))
            valued
            (subst
              (λ (n : Node).
                InUse (laws.Used m.arena)
                  (ar.get_aligned_pointer tr.align_of (decode_value_pointer n.value).0)
                  (tr.size_of + stored_size (decode_value_pointer n.value).1))
              node_same s.value_used))

    module _ (to tc : ℕ) (a : ar.State)
        (fresh : IsBlock (laws.Used m.arena) (laws.Used a) to (tr.size_of + length v) tc)
        (aligned : ar.get_aligned_pointer tr.align_of to ≡ to) where
      abbrev between : SkipMap ar T
      between = filled m y.offset k.node t v a to

      between-IsKept :
          IsKept laws m a m.memory.nodes
            (update m.memory.trailers to (some t))
            (put_bytes m.memory.bytes (to + tr.size_of) v)
      between-IsKept = record {
        nodes_kept = λ q u. refl;
        trailers_kept = λ q u.
            let away = IsBlock-outside to _ tc fresh q u in
            rw (==_ne q to (λ e. omega (arith, away, sized, e)));
        bytes_kept = λ q u.
            let away = IsBlock-outside to _ tc fresh q u in
            put_bytes-elsewhere m.memory.bytes (to + tr.size_of) v q (ground (arith, away));
        used_kept = fresh.keeps;
      }

      between-IsOwned : IsOwned laws between (passed ++ y ∷ ahead)
      unfolding write_trailer
      between-IsOwned =
          IsOwned-renewed laws m a m.memory.nodes (update m.memory.trailers to (some t))
            (put_bytes m.memory.bytes (to + tr.size_of) v) m.meta.height (passed ++ y ∷ ahead) sized
            between-IsKept o (omega arith) o.repr.height_max

      IsClearKey-between :
          (c : Cell T) → IsClearKey m old old_size c → IsClearKey between old old_size c
      unfolding write_trailer
      IsClearKey-between c h = record { tower_clear = h.tower_clear; key_clear = h.key_clear }

      IsClear-between : (c : Cell T) → IsClear m old old_size c → IsClear between old old_size c
      unfolding write_trailer
      IsClear-between c h = record { key = IsClearKey-between c h.key; value_clear = h.value_clear }

      between-IsLone : IsLone between old old_size passed y ahead
      unfolding write_trailer
      between-IsLone = record {
        passed_clear = All-imp IsClear-between passed k.lone.passed_clear;
        own_clear = IsClearKey-between y k.lone.own_clear;
        ahead_clear = All-imp IsClear-between ahead k.lone.ahead_clear;
        head_clear = k.lone.head_clear;
        tail_clear = k.lone.tail_clear;
      }

      new-Clear : Clear old old_size to (tr.size_of + length v)
      new-Clear q low high = elim (Bool-cases (ltb q old)) [
        | inl before ↦ inl (ltb→lt q old before)
        | inr from ↦ elim (Bool-cases (ltb q (old + old_size))) [
          | inl inside ↦ absurd (
              fresh.fresh q low high
                (old_used q (ltb→le q old from) (ltb→lt q (old + old_size) inside)))
          | inr beyond ↦ inr (ltb→le q (old + old_size) beyond)
        ]
      ]

      replaced-IsReady :
          IsReady laws between passed y ahead k.node old old_size to t
            (some v)
            (ar.dealloc old old_size a).1
      unfolding write_trailer
      replaced-IsReady = record {
        owned = between-IsOwned;
        node_at = k.node_at;
        lone = between-IsLone;
        same_version = same;
        aligned = aligned;
        low = omega (arith, fresh.ends);
        sized = sized;
        fits = short;
        trailer_at = rw (==_refl to);
        value_at = read_value between.memory m.memory.bytes (to + tr.size_of) (some v) short;
        used = fresh.used;
        used_clear = new-Clear;
        keeps = λ q u away. laws.freed old old_size q a u away;
      }

      replaced-IsOwned :
          IsOwned laws
            (replaced m y.offset k.node t v a to)
            (passed ++ revalued t (some v) y ∷ ahead)
      unfolding write_trailer write_node
      replaced-IsOwned =
          IsOwned-exchanged laws between passed y ahead k.node old old_size to t (some v)
            (ar.dealloc old old_size a).1 replaced-IsReady

module _ {ar : Arena} {T E : Type 0} ⦃tr : Trailer T⦄ (laws : IsAllocator ar) (m : SkipMap ar T)
    (passed : List (Cell T)) (y : Cell T) (ahead : List (Cell T)) (t : T) (v : Bytes) where
  -- How an overwriting ends: with the new trailer and value in the place of the old ones, or with the
  -- arena's error and the map as it was.
  pub data Overwrites
      : Run (Result (Unit {0}) (Either E (Error ar.Error)) × SkipMap ar T) → Type 0 where
    overwritten :
        (m' : SkipMap ar T)
        → IsOwned laws m' (passed ++ revalued t (some v) y ∷ ahead)
        → (m'.cmp ≡ m.cmp) × (m'.opts ≡ m.opts)
        → Overwrites (done (ok tt, m'))
    refused : (e : ar.Error) → IsRefusal ar e → Overwrites (done (err (right (Error.arena e)), m))

  module _ (o : IsOwned laws m (passed ++ y ∷ ahead)) (k : IsReleasable laws m passed y ahead)
      (sized : 0 < tr.size_of) (short : length v < u32_max)
      (same : tr.version y.trailer ≡ tr.version t) where
    Overwrites-of :
        (x : Run (Result (Unit {0}) (Either E (Error ar.Error)) × SkipMap ar T))
        → Sets laws m y.offset k.node t v x
        → Overwrites x
    unfolding write_trailer write_node
    Overwrites-of x (set to tc a fresh aligned) =
        overwritten (replaced m y.offset k.node t v a to)
          (replaced-IsOwned laws m passed y ahead o k t v sized short same to tc a fresh aligned)
          (refl, refl)
    Overwrites-of x (not_set e why) = refused e why

    pub set_value-Overwrites :
        (f : Filler E) → Fills f v → Overwrites (set_value y.offset t (length v) f m)
    set_value-Overwrites f fills =
        Overwrites-of _ (set_value-Sets laws m y.offset k.node t v f fills k.node_at k.fits)
