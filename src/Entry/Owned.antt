-- ===== src/Entry/Owned.antt =====
-- Owned entries (src/map/entry.rs): an entry that is made owned and borrowed again.
use skl_rs.Prelude.{◌≡◌, refl, sym, ap, ◌∙◌, Option, none, some, done, ◌>>=◌}
use skl_rs.Capacity.{align_up}
use skl_rs.Codec.{decode_value_pointer}
use skl_rs.Comparator.{Bytes, Trailer}
use skl_rs.Entry.{to_owned, borrow}
use skl_rs.Map.{SkipMap, as_ref}
use skl_rs.Map.Order.{Cell}
use skl_rs.Map.Reads.{trailer_ptr, value_of, get_value_and_trailer-node}
use skl_rs.Map.Repr.{Holds, entry_of}
use skl_rs.Node.{Node, deref}
use skl_rs.Node.Arena.{Arena}
use skl_rs.Value.{get_value, get_value_by_offset}

value_of_pair :
    {T : Type 0} (x : Option T) (t : T) (v w : Option Bytes)
    → ◌>>=◌ {B = T × Option Bytes} (deref x) (λ t'. done (t', v)) ≡ done (t, w)
    → v ≡ w
value_of_pair none t v w e = cc
value_of_pair (some t') t v w e = cc

module _ {ar : Arena} {T : Type 0} ⦃tr : Trailer T⦄ (m : SkipMap ar T) (c : Cell T) (n : Node)
    (at : m.memory.nodes c.offset ≡ some n)
    (aligned : trailer_ptr m n ≡ align_up tr.align_of (decode_value_pointer n.value).0) where
  get_value-value_of : get_value m c.offset ≡ done (value_of m n)
  unfolding get_value as_ref get_value_by_offset
  get_value-value_of = rw (at, sym aligned) refl

-- For a cell of a map, whose node lies at its offset with a trailer at an aligned place: its entry,
-- made owned and borrowed again, is read as the same entry.
pub borrow-to_owned :
    {ar : Arena} {T : Type 0} ⦃tr : Trailer T⦄ (m : SkipMap ar T) (c : Cell T) (n : Node)
    → m.memory.nodes c.offset ≡ some n
    → trailer_ptr m n ≡ align_up tr.align_of (decode_value_pointer n.value).0
    → Holds m c
    → borrow (to_owned m (entry_of m c)) ≡ done (entry_of m c)
unfolding borrow to_owned
borrow-to_owned m c n at aligned h =
    let value : value_of m n ≡ c.value =
      value_of_pair _ c.trailer (value_of m n) c.value
        (sym (get_value_and_trailer-node m c.offset n at) ∙ h.value_read) in
    let read : get_value m c.offset ≡ done c.value =
      get_value-value_of m c n at aligned ∙ ap done value in
    rw (h.key_read, read) refl
