-- ===== src/Update/Cell.antt =====
-- The cell of a new node (src/map.rs), before it is linked and after.
use skl_rs.Prelude.{
  ℕ, ◌+◌, ◌*◌, ◌≤◌, ◌<◌, ◌≡◌, refl, sym, ap, ◌∙◌, inl, inr, Option, List, ◌∷◌, ◌++◌, All-imp,
  All-insert, done, ◌>>=◌, arith, Bool-cases, ltb, ltb→lt, ltb→le,
}
use Prim.{¬◌}
use mathlib.Core.Path.{ap₂, subst}
use skl_rs.Alloc.Made.{IsNew}
use skl_rs.Alloc.Owned.{IsOwned, IsStored, renewed}
use skl_rs.Comparator.{Trailer}
use skl_rs.Link.{with_links}
use skl_rs.Link.Insert.{IsFresh}
use skl_rs.Link.Preserve.{grown}
use skl_rs.Map.{SkipMap, get_next, get_prev, get_key, get_trailer, get_value_and_trailer}
use skl_rs.Map.Order.{Cell}
use skl_rs.Map.Reads.{get_key-node, get_trailer-node, get_value_and_trailer-node}
use skl_rs.Map.Repr.{Apart, Holds, IsRepr}
use skl_rs.Meta.{Meta, update_max_version, update_min_version}
use skl_rs.Node.{Node, Link, deref, node_size, link_size}
use skl_rs.Node.Allocator.{InUse, IsAllocator}
use skl_rs.Node.Arena.{Arena}
use skl_rs.Update.{announce}

-- Of two towers, one of which is in use and the other not, one lies before the other.
pub apart_of :
    (u : ℕ → Type 0) (p h q k : ℕ)
    → ((x : ℕ) → p ≤ x → x < p + (node_size + h * link_size) → ¬ u x)
    → InUse u q (node_size + k * link_size)
    → Apart (p, h) (q, k)
apart_of u p h q k fresh used = elim (Bool-cases (ltb q p)) [
  | inl before ↦
      let below : q < p = ltb→lt q p before in
      elim (Bool-cases (ltb p (q + (node_size + k * link_size)))) [
        | inl inside ↦ absurd (
            fresh p (omega arith) (omega arith)
              (used p (omega arith) (ltb→lt p (q + (node_size + k * link_size)) inside)))
        | inr beyond ↦
            let e : q + (node_size + k * link_size) ≤ p = ltb→le _ _ beyond in inr (omega arith)
      ]
  | inr after ↦
      let above : p ≤ q = ltb→le q p after in
      elim (Bool-cases (ltb q (p + (node_size + h * link_size)))) [
        | inl inside ↦ absurd (
            fresh q above (ltb→lt q (p + (node_size + h * link_size)) inside)
              (used q (omega arith) (omega arith)))
        | inr beyond ↦
            let e : p + (node_size + h * link_size) ≤ q = ltb→le _ _ beyond in inl (omega arith)
      ]
]

module _ {ar : Arena} {T : Type 0} ⦃tr : Trailer T⦄ (m : SkipMap ar T) (meta : Meta)
    (cells : List (Cell T)) (same_len : meta.len ≡ m.meta.len)
    (same_height : meta.height ≡ m.meta.height) where
  Holds-meta : (c : Cell T) → Holds m c → Holds (record m { meta = meta }) c
  unfolding get_key get_trailer get_value_and_trailer
  Holds-meta c h = record {
    ne_null = h.ne_null;
    ne_head = h.ne_head;
    ne_tail = h.ne_tail;
    has_link = h.has_link;
    key_read = h.key_read;
    trailer_read = h.trailer_read;
    value_read = h.value_read;
  }

  -- The versions of the header play no part.
  pub IsRepr-meta : IsRepr m cells → IsRepr (record m { meta = meta }) cells
  unfolding get_next get_prev get_key
  IsRepr-meta r = record {
    lawful = r.lawful;
    sorted = r.sorted;
    holds = All-imp Holds-meta cells r.holds;
    levels = r.levels;
    backs = r.backs;
    apart = record {
      ends = r.apart.ends;
      from_head = r.apart.from_head;
      from_tail = r.apart.from_tail;
      pairs = r.apart.pairs;
    };
    height_pos = omega (arith, r.height_pos);
    height_max = omega (arith, r.height_max);
    short = All-imp (λ c low. omega arith) cells r.short;
    counted = same_len ∙ r.counted;
    head_ne_null = r.head_ne_null;
    tail_ne_null = r.tail_ne_null;
    head_ne_tail = r.head_ne_tail;
    tail_key = r.tail_key;
  }

module _ {ar : Arena} {T : Type 0} ⦃tr : Trailer T⦄ (laws : IsAllocator ar) (m : SkipMap ar T)
    (cells : List (Cell T)) (o : IsOwned laws m cells) (a : ar.State) (nodes : ℕ → Option Node)
    (trailers : ℕ → Option T) (bytes : ℕ → ℕ) (height : ℕ) (c : Cell T)
    (is : IsNew laws m a nodes trailers bytes c.offset c.height c.key c.trailer c.value)
    (positive : 1 ≤ c.height) where
  abbrev after : SkipMap ar T
  after = renewed laws m a nodes trailers bytes height

  not_used : (q : ℕ) → laws.Used m.arena q → c.offset ≡ q → ⊥
  not_used q u e =
      is.fresh c.offset (omega arith) (omega arith) (subst (laws.Used m.arena) (sym e) u)

  pub Holds-new : Holds after c
  Holds-new = record {
    ne_null = is.ne_null;
    ne_head = not_used m.head (o.head_used m.head (omega arith) (omega arith));
    ne_tail = not_used m.tail (o.tail_used m.tail (omega arith) (omega arith));
    has_link = positive;
    key_read = get_key-node after c.offset is.node is.node_at ∙ ap done is.key_read;
    trailer_read = get_trailer-node after c.offset is.node is.node_at ∙ ap deref is.trailer_at;
    value_read =
        get_value_and_trailer-node after c.offset is.node is.node_at
        ∙ ap₂ (λ t v. deref t >>= λ x. done (x, v)) is.trailer_at is.value_read;
  }

  pub IsStored-new : IsStored laws after c
  IsStored-new = record {
    node = is.node;
    node_at = is.node_at;
    tower_used = is.tower_used;
    key_low = is.key_low;
    key_used = is.key_used;
    value_used = is.value_used;
  }

  pub IsFresh-new : IsFresh after c cells
  IsFresh-new = record {
    ne_null = is.ne_null;
    from_head =
        apart_of (laws.Used m.arena) c.offset c.height m.head m.opts.max_height is.fresh
          o.head_used;
    from_tail =
        apart_of (laws.Used m.arena) c.offset c.height m.tail m.opts.max_height is.fresh
          o.tail_used;
    from_cells =
        All-imp
          (λ d s.
            apart_of (laws.Used m.arena) c.offset c.height d.offset d.height is.fresh s.tower_used)
          cells o.stored;
  }

module _ {ar : Arena} {T : Type 0} ⦃tr : Trailer T⦄ (laws : IsAllocator ar) (m : SkipMap ar T)
    (links : ℕ → Option Link) (version : ℕ) where
  IsStored-linked :
      (c : Cell T) → IsStored laws m c → IsStored laws (announce version (with_links m links)) c
  unfolding announce
  IsStored-linked c s = record {
    node = s.node;
    node_at = s.node_at;
    tower_used = s.tower_used;
    key_low = s.key_low;
    key_used = s.key_used;
    value_used = s.value_used;
  }

  -- The map after the loop and with the new entry counted and its version announced.
  pub IsOwned-linked :
      (c : Cell T) (passed ahead : List (Cell T))
      → IsOwned laws m (passed ++ ahead)
      → IsStored laws m c
      → IsRepr (grown m links) (passed ++ c ∷ ahead)
      → IsOwned laws (announce version (with_links m links)) (passed ++ c ∷ ahead)
  unfolding announce update_max_version update_min_version
  IsOwned-linked c passed ahead o s r = record {
    repr =
        IsRepr-meta (grown m links) (announce version (with_links m links)).meta
          (passed ++ c ∷ ahead) refl refl r;
    stored =
        All-insert (IsStored laws (announce version (with_links m links))) passed c ahead
          (All-imp IsStored-linked (passed ++ ahead) o.stored) (IsStored-linked c s);
    head_used = o.head_used;
    tail_used = o.tail_used;
    tail_node = o.tail_node;
    tail_at = o.tail_at;
    tail_size = o.tail_size;
  }
