-- ===== src/Create/NewIn.antt =====
-- `new_in` (src/map.rs): the map that it makes holds no items.
use skl_rs.Prelude.{
  ℕ, ◌+◌, ◌*◌, ◌^◌, ◌≤◌, ◌<◌, ◌≡◌, ◌≢◌, refl, ap, ◌∙◌, inl, inr, Option, some, [], Run, done,
  Result, ok, err, arith, Bool, true, false, ==_ne,
}
use mathlib.Core.Path.{subst}
use skl_rs.Alloc.Reason.{IsRefusal, of_value}
use skl_rs.Alloc.Owned.{IsOwned}
use skl_rs.Capacity.{Error, check_capacity, meta_size, meta_align}
use skl_rs.Comparator.{Comparator, Trailer}
use skl_rs.Comparator.Laws.{IsLawful}
use skl_rs.Create.{
  Store, allocate_full_node, allocate_ends, allocate_meta, link_ends, construct, new_meta,
  fill_arena, on_capacity, new_in, into, arena_error, result_of,
}
use skl_rs.Create.Empty.{IsEnd, FullNode, node_made, node_refused, allocate_full_node-FullNode}
use skl_rs.Create.Ends.{IsReadable, AreLinked, link_ends-AreLinked}
use skl_rs.Attempt.{continue, pure, ◌>>=◌}
use skl_rs.Link.Site.{Apart-symm}
use skl_rs.Map.{SkipMap, get_next, get_prev}
use skl_rs.Map.Reads.{get_key-node}
use skl_rs.Map.Repr.{Apart, IsRepr}
use skl_rs.Meta
use skl_rs.Meta.{Meta}
use skl_rs.Node
use skl_rs.Node.{Node, Link, tower_offset, is_null, node_size, link_size, get_bytes}
use skl_rs.Node.Allocator.{InUse, IsAllocator, Allocation-cases}
use skl_rs.Node.Arena.{Arena}
use skl_rs.Options.{Options}
use skl_rs.Spec.{Refines}
use skl_rs.Update.Cell.{apart_of}

module _ {ar : Arena} {T : Type 0} (m : SkipMap ar T) (nd i : ℕ) (l : Link) (away : nd ≢ 0)
    (e : m.memory.links (tower_offset nd i) ≡ some l) where
  get_next-link : get_next m nd i ≡ done l.next_offset
  unfolding get_next is_null
  get_next-link = rw (==_ne nd 0 away, e)

  get_prev-link : get_prev m nd i ≡ done l.prev_offset
  unfolding get_prev is_null
  get_prev-link = rw (==_ne nd 0 away, e)

module _ {ar : Arena} {T : Type 0} ⦃tr : Trailer T⦄ (laws : IsAllocator ar) (height : ℕ) where
  -- The two ends of an empty list, linked on all levels, in the store that they leave.
  pub record AreEnds (head tail : ℕ) (s : Store ar T) : Type 0 where
    pub head_ne_null : head ≢ 0
    pub tail_ne_null : tail ≢ 0
    pub apart : Apart (head, height) (tail, height)
    pub head_used : InUse (laws.Used s.arena) head (node_size + height * link_size)
    pub tail_used : InUse (laws.Used s.arena) tail (node_size + height * link_size)
    pub tail_node : Node
    pub tail_at : s.memory.nodes tail ≡ some tail_node
    pub tail_size : Node.key_size tail_node ≡ 0
    pub linked : AreLinked head tail height s.memory.links

  pub data Ends : Run (Result (ℕ × ℕ) (Error ar.Error) × Store ar T) → Type 0 where
    ends_made :
        (head tail : ℕ) (s : Store ar T) → AreEnds head tail s → Ends (done (ok (head, tail), s))
    ends_refused :
        (e : ar.Error) (s : Store ar T) → IsRefusal ar e → Ends (done (err (Error.arena e), s))

  -- After the head.
  tail_after :
      (s : Store ar T) (head : ℕ) (a : ar.State) (nodes : ℕ → Option Node)
      → IsEnd laws s height head a nodes
      → IsReadable s.memory.links
      → (x : Run (Result ℕ ar.Error × Store ar T))
      → FullNode laws (record { arena = a; memory = record s.memory { nodes = nodes } }) height x
      → Ends (
          continue
            (λ tail. link_ends height 0 head tail >>= (λ _. pure (head, tail)))
            (arena_error x))
  tail_after s head a nodes h readable x (node_made tail a' nodes' t) =
      let apart =
        Apart-symm (tail, height) (head, height)
          (apart_of (laws.Used a) tail height head height t.fresh h.used) in
      let s' : Store ar T = record { arena = a'; memory = record s.memory { nodes = nodes' } } in
      let (links, runs, linked) =
        link_ends-AreLinked head tail height apart height 0 s' (omega arith) readable (record {
          onward = λ i low. absurd (omega arith);
          back = λ i low. absurd (omega arith);
        }) in
      rw runs (
        ends_made head tail _ (record {
          head_ne_null = h.ne_null;
          tail_ne_null = t.ne_null;
          apart = apart;
          head_used = λ q above below. t.keeps q (h.used q above below);
          tail_used = t.used;
          tail_node = t.node;
          tail_at = t.node_at;
          tail_size = t.no_key;
          linked = subst (λ (n : ℕ). AreLinked head tail n links) (omega arith) linked;
        }))
  tail_after s head a nodes h readable x (node_refused e s' why) = ends_refused e s' why

  head_after :
      (s : Store ar T)
      → IsReadable s.memory.links
      → 0 < tr.size_of
      → height < 2 ^ 5
      → (x : Run (Result ℕ ar.Error × Store ar T)) → FullNode laws s height x
      → Ends (
          continue
            (λ head.
              into (allocate_full_node height)
              >>= (λ tail. link_ends height 0 head tail >>= (λ _. pure (head, tail))))
            (arena_error x))
  head_after s readable sized low x (node_made head a nodes h) =
      tail_after s head a nodes h readable _ (
        allocate_full_node-FullNode laws
          (record { arena = a; memory = record s.memory { nodes = nodes } }) height sized low)
  head_after s readable sized low x (node_refused e s' why) = ends_refused e s' why

  allocate_ends-Ends :
      (s : Store ar T)
      → IsReadable s.memory.links
      → 0 < tr.size_of
      → height < 2 ^ 5
      → Ends (allocate_ends height s)
  unfolding allocate_ends
  allocate_ends-Ends s readable sized low =
      head_after s readable sized low _ (allocate_full_node-FullNode laws s height sized low)

module _ {ar : Arena} {T : Type 0} ⦃tr : Trailer T⦄ (laws : IsAllocator ar)
    (opts : Options ar.Freelist) (cmp : Comparator) (a : ar.State) where
  -- How `new_in` may end.
  pub data Opens : Run (Result (SkipMap ar T) (Error ar.Error)) → Type 0 where
    opens :
        (m : SkipMap ar T)
        → Refines laws m []
        → (m.cmp ≡ cmp) × (m.opts ≡ opts)
        → Opens (done (ok m))
    fails : (e : ar.Error) → IsRefusal ar e → Opens (done (err (Error.arena e)))
    too_small :
        (e : Error ar.Error) → check_capacity ar T a opts.max_height ≡ err e → Opens (done (err e))

module _ {ar : Arena} {T : Type 0} ⦃tr : Trailer T⦄ (laws : IsAllocator ar)
    (opts : Options ar.Freelist) (cmp : Comparator) (lawful : IsLawful cmp.cmp)
    (positive : 1 ≤ opts.max_height) (a : ar.State) where
  module _ (meta : Meta) (fresh : meta.height ≡ 1) (empty : meta.len ≡ 0)
      (head tail data_offset : ℕ) (s : Store ar T)
      (ends : AreEnds laws opts.max_height head tail s) where
    abbrev made : SkipMap ar T
    made = record {
      arena = s.arena;
      memory = s.memory;
      meta = meta;
      head = head;
      tail = tail;
      data_offset = data_offset;
      opts = opts;
      cmp = cmp;
    }

    made-IsRepr : IsRepr made []
    unfolding get_bytes
    made-IsRepr = record {
      lawful = lawful;
      sorted = tt;
      holds = tt;
      levels = λ i low.
          let (l, at, next) = ends.linked.onward i low in
          get_next-link made head i l ends.head_ne_null at ∙ ap done next;
      backs = λ i low.
          let (l, at, prev) = ends.linked.back i low in
          get_prev-link made tail i l ends.tail_ne_null at ∙ ap done prev;
      apart = record { ends = ends.apart; from_head = tt; from_tail = tt; pairs = tt };
      height_pos = omega (arith, fresh);
      height_max = omega (arith, fresh);
      short = tt;
      counted = empty;
      head_ne_null = ends.head_ne_null;
      tail_ne_null = ends.tail_ne_null;
      head_ne_tail = λ e. omega (arith, ends.apart);
      tail_key =
          get_key-node made tail ends.tail_node ends.tail_at
          ∙ ap (λ n. done (get_bytes s.memory ends.tail_node.key_offset n)) ends.tail_size;
    }

    made-IsOwned : IsOwned laws made []
    made-IsOwned = record {
      repr = made-IsRepr;
      stored = tt;
      head_used = ends.head_used;
      tail_used = ends.tail_used;
      tail_node = ends.tail_node;
      tail_at = ends.tail_at;
      tail_size = ends.tail_size;
    }

  -- After the header.
  meta_after :
      (meta : Meta) (fresh : meta.height ≡ 1) (empty : meta.len ≡ 0) (data_offset : ℕ)
      (x : Run (Result (ℕ × ℕ) (Error ar.Error) × Store ar T))
      → Ends laws opts.max_height x
      → Opens laws opts cmp a
          (result_of (continue (λ p s. pure (construct s meta p.0 p.1 data_offset opts cmp) s) x))
  unfolding construct
  meta_after meta fresh empty data_offset x (ends_made head tail s ends) =
      opens _ ([], made-IsOwned meta fresh empty head tail data_offset s ends, refl) (refl, refl)
  meta_after meta fresh empty data_offset x (ends_refused e s why) = fails e why

  module _ (sized : 0 < tr.size_of) (low : opts.max_height < 2 ^ 5) where
    header_first :
        (unify : Bool) (magic_version data_offset : ℕ) (s : Store ar T)
        → IsReadable s.memory.links
        → Opens laws opts cmp a (
            result_of (
              continue
                (λ meta.
                  allocate_ends opts.max_height
                  >>= (λ p s'. pure (construct s' meta p.0 p.1 data_offset opts cmp) s'))
                (new_meta unify magic_version s)))
    unfolding new_meta allocate_meta Meta.new
    header_first true magic_version data_offset s readable =
        elim (Allocation-cases (ar.alloc meta_size meta_align s.arena)) [
          | inl (e, x) ↦ rw x (fails e (of_value _ _ _ x))
          | inr (at, capacity, a1, x) ↦ rw x (
              meta_after (Meta.new magic_version) refl refl data_offset _ (
                allocate_ends-Ends laws opts.max_height (record s { arena = a1 }) readable sized
                  low))
        ]
    header_first false magic_version data_offset s readable =
        meta_after (Meta.new magic_version) refl refl data_offset _
          (allocate_ends-Ends laws opts.max_height s readable sized low)

    fill_arena-Opens :
        (data_offset : ℕ) (s : Store ar T)
        → IsReadable s.memory.links
        → Opens laws opts cmp a (result_of (fill_arena data_offset opts cmp s))
    unfolding fill_arena
    fill_arena-Opens data_offset s readable =
        header_first opts.unify opts.magic_version data_offset s readable

    on_capacity-Opens :
        (metas : ℕ → Option Meta) (s : Store ar T) (r : Result ℕ (Error ar.Error))
        → check_capacity ar T a opts.max_height ≡ r
        → IsReadable s.memory.links
        → ar.read_only s.arena ≡ false
        → Opens laws opts cmp a (on_capacity metas s cmp opts r)
    unfolding on_capacity
    on_capacity-Opens metas s (err e) checks readable writable = too_small e checks
    on_capacity-Opens metas s (ok data_offset) checks readable writable =
        rw writable (fill_arena-Opens data_offset s readable)

-- On an arena that keeps the laws of an allocator, is not read-only, and whose memory can be read as
-- links everywhere, with a lawful comparator, trailers that have a size, and between one and 31
-- levels allowed: `new_in` returns a map that holds no items, with the comparator and the options
-- given, or an error: the one of `check_capacity`, or one with which the arena refuses an allocation.
pub new_in-Opens :
    {ar : Arena} {T : Type 0} ⦃tr : Trailer T⦄ (laws : IsAllocator ar) (opts : Options ar.Freelist)
    (cmp : Comparator) (metas : ℕ → Option Meta) (s : Store ar T)
    → IsLawful cmp.cmp
    → 1 ≤ opts.max_height
    → opts.max_height < 2 ^ 5
    → 0 < tr.size_of
    → IsReadable s.memory.links
    → ar.read_only s.arena ≡ false
    → Opens laws opts cmp s.arena (new_in metas s cmp opts)
unfolding new_in
new_in-Opens {ar} {T} laws opts cmp metas s lawful positive low sized readable writable =
    on_capacity-Opens laws opts cmp lawful positive s.arena sized low metas s
      (check_capacity ar T s.arena opts.max_height) refl readable writable
