-- ===== src/Value/Exchanged.antt =====
-- The map in which a node has a new trailer and value (`Node::set_value` of src/map.rs): the cells that
-- it stands for.
use skl_rs.Prelude.{
  ℕ, ◌≤◌, ◌≡◌, ◌≢◌, sym, ap, ◌∙◌, inl, inr, Option, some, List, ◌∷◌, ◌++◌, All, All-zip, All-split,
  All-append, All-replace, Pairwise-split, Pairwise-replace, ==_ne, done, arith,
}
use skl_rs.Alloc.Owned.{IsOwned, IsStored}
use skl_rs.Comparator.{Bytes, Trailer}
use skl_rs.Map.{SkipMap, get_next, get_prev}
use skl_rs.Map.Order.{Cell}
use skl_rs.Map.Reads.{get_key-node}
use skl_rs.Map.Repr.{Apart, Holds, IsApart, IsRepr, head_block, tail_block, block_of}
use skl_rs.Map.Revalue.{
  revalued, length-revalued, Chain-revalued, BackChain-revalued, IsSorted-revalued,
}
use skl_rs.Node
use skl_rs.Node.{Node, node_size, link_size, get_bytes}
use skl_rs.Node.Allocator.{IsAllocator}
use skl_rs.Node.Arena.{Arena}
use skl_rs.Value.Lone.{IsClear}
use skl_rs.Value.Exchange.{
  IsReady, with_new_value, keeps_block, Holds-exchanged, IsStored-exchanged, Holds-own,
  IsStored-own, bytes_kept,
}

module _ {ar : Arena} {T : Type 0} ⦃tr : Trailer T⦄ (laws : IsAllocator ar) (m : SkipMap ar T)
    (passed : List (Cell T)) (y : Cell T) (ahead : List (Cell T)) (n : Node) (offset size to : ℕ)
    (t : T) (v : Option Bytes) (s' : ar.State)
    (i : IsReady laws m passed y ahead n offset size to t v s') where
  abbrev after : SkipMap ar T
  after = with_new_value laws m passed y ahead n offset size to t v s'

  abbrev cell : Cell T
  cell = revalued t v y

  away_of : (c d : Cell T) → Apart (block_of c) (block_of d) → c.offset ≢ d.offset
  away_of c d (inl a) e = omega (arith, a, e)
  away_of c d (inr a) e = omega (arith, a, e)

  abbrev Other : Cell T → Type 0
  Other c = (c.offset ≢ y.offset) × IsStored laws m c × Holds m c

  abbrev Both : Cell T → Type 0
  Both c = IsStored laws m c × Holds m c

  others : All Other passed × All Other ahead
  others =
      let r = i.owned.repr in
      let (_, pairs, across) =
        Pairwise-split (λ c d. Apart (block_of c) (block_of d)) passed (y ∷ ahead) r.apart.pairs in
      let (sp, (_, sa)) = All-split (IsStored laws m) passed (y ∷ ahead) i.owned.stored in
      let (hp, (_, ha)) = All-split (Holds m) passed (y ∷ ahead) r.holds in
      (
        All-zip {Q = Both} (λ c k h. (away_of c y k.0, h.0, h.1)) passed across
            (All-zip (λ c s h. (s, h)) passed sp hp),
        All-zip {Q = Both} (λ c k h. ((λ e. away_of y c k (sym e)), h.0, h.1)) ahead pairs.0
            (All-zip (λ c s h. (s, h)) ahead sa ha),
      )

  own : IsStored laws m y × Holds m y
  own = (
    (All-split (IsStored laws m) passed (y ∷ ahead) i.owned.stored).1.0,
    (All-split (Holds m) passed (y ∷ ahead) i.owned.repr.holds).1.0,
  )

  Holds-other : (c : Cell T) → Other c → IsClear m offset size c → Holds after c
  Holds-other c (away, s, h) k =
      Holds-exchanged laws m passed y ahead n offset size to t v s' i c away s k h

  holds : All (Holds after) (passed ++ cell ∷ ahead)
  holds =
      All-append (Holds after) passed (cell ∷ ahead)
        (All-zip Holds-other passed others.0 i.lone.passed_clear)
        (
          Holds-own laws m passed y ahead n offset size to t v s' i own.1,
          All-zip Holds-other ahead others.1 i.lone.ahead_clear,
        )

  IsStored-other : (c : Cell T) → Other c → IsClear m offset size c → IsStored laws after c
  IsStored-other c (away, s, h) k =
      IsStored-exchanged laws m passed y ahead n offset size to t v s' i c away s k

  stored : All (IsStored laws after) (passed ++ cell ∷ ahead)
  stored =
      All-append (IsStored laws after) passed (cell ∷ ahead)
        (All-zip IsStored-other passed others.0 i.lone.passed_clear)
        (
          IsStored-own laws m passed y ahead n offset size to t v s' i own.0,
          All-zip IsStored-other ahead others.1 i.lone.ahead_clear,
        )

  tail_at : after.memory.nodes m.tail ≡ some i.owned.tail_node
  tail_at = rw (==_ne m.tail y.offset (λ e. own.1.ne_tail (sym e))) i.owned.tail_at

  IsApart-exchanged : IsApart after (passed ++ cell ∷ ahead)
  IsApart-exchanged =
      let a = i.owned.repr.apart in
      record {
        ends = a.ends;
        from_head =
            All-replace (λ d. Apart (head_block m) (block_of d)) passed y cell ahead a.from_head
              (λ h. h);
        from_tail =
            All-replace (λ d. Apart (tail_block m) (block_of d)) passed y cell ahead a.from_tail
              (λ h. h);
        pairs =
            Pairwise-replace (λ c d. Apart (block_of c) (block_of d)) passed y cell ahead a.pairs
              (λ c h. h) (λ c h. h);
      }

  IsRepr-exchanged : IsRepr after (passed ++ cell ∷ ahead)
  unfolding get_next get_prev
  IsRepr-exchanged =
      let r = i.owned.repr in
      record {
        lawful = r.lawful;
        sorted = IsSorted-revalued m.cmp.cmp t v y ahead passed i.same_version r.sorted;
        holds = holds;
        levels = λ level low.
            Chain-revalued t v y ahead (λ nd. get_next m nd level) level m.head m.tail passed
              (r.levels level low);
        backs = λ level low.
            BackChain-revalued t v y ahead (λ nd. get_prev m nd level) level m.head m.tail passed
              (r.backs level low);
        apart = IsApart-exchanged;
        height_pos = r.height_pos;
        height_max = r.height_max;
        short = All-replace (λ c. c.height ≤ m.meta.height) passed y cell ahead r.short (λ h. h);
        counted = r.counted ∙ sym (length-revalued t v y ahead passed);
        head_ne_null = r.head_ne_null;
        tail_ne_null = r.tail_ne_null;
        head_ne_tail = r.head_ne_tail;
        tail_key =
            get_key-node after m.tail i.owned.tail_node tail_at
            ∙ ap done (
                bytes_kept laws m passed y ahead n offset size to t v s' i
                  i.owned.tail_node.key_offset (Node.key_size i.owned.tail_node)
                  (λ q low high. absurd (omega (arith, i.owned.tail_size, low, high))))
            ∙ sym (get_key-node m m.tail i.owned.tail_node i.owned.tail_at)
            ∙ r.tail_key;
      }

  -- The map stands for the cells with the new trailer and value.
  pub IsOwned-exchanged : IsOwned laws after (passed ++ cell ∷ ahead)
  IsOwned-exchanged =
      let o = i.owned in
      let keeps = keeps_block laws m passed y ahead n offset size to t v s' i in
      record {
        repr = IsRepr-exchanged;
        stored = stored;
        head_used = keeps _ _ o.head_used i.lone.head_clear;
        tail_used = keeps _ _ o.tail_used i.lone.tail_clear;
        tail_node = o.tail_node;
        tail_at = tail_at;
        tail_size = o.tail_size;
      }
