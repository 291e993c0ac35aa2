-- ===== src/Create/Ways.antt =====
-- The constructors that fill in the default options and the ascending order (src/map/api.rs).
use skl_rs.Prelude.{ℕ, Bool, Option, Run, Result}
use skl_rs.Capacity.{Error}
use skl_rs.Comparator.{Comparator, ascend, Trailer}
use skl_rs.Create.{Store}
use skl_rs.Create.Open.{
  ArenaOptions, IoError, with_options_and_comparator, map_mut_with_options_and_comparator,
  map_with_comparator, map_anon_with_options_and_comparator,
}
use skl_rs.Map.{SkipMap}
use skl_rs.Meta.{Meta}
use skl_rs.Node.Arena.{Arena}
use skl_rs.Options
use skl_rs.Options.{Options}

-- `default_freelist` is the `Freelist::Optimistic` of `Options::new`.
module _ {ar : Arena} {T : Type 0} ⦃tr : Trailer T⦄ (metas : ℕ → Option Meta)
    (default_freelist : ar.Freelist) where
  module _ (new_arena : ArenaOptions ar.Freelist → Store ar T) where
    unfoldable pub with_comparator : Comparator → Run (Result (SkipMap ar T) (Error ar.Error))
    unfolding with_options_and_comparator Options.new
    with_comparator cmp =
        with_options_and_comparator metas new_arena (Options.new default_freelist) cmp

    unfoldable pub with_options : Options ar.Freelist → Run (Result (SkipMap ar T) (Error ar.Error))
    unfolding with_options_and_comparator ascend
    with_options opts = with_options_and_comparator metas new_arena opts ascend

    unfoldable pub new : Run (Result (SkipMap ar T) (Error ar.Error))
    unfolding with_options Options.new
    new = with_options (Options.new default_freelist)

  module _ {Io : Type 0} (default_capacity : ℕ) (default_unify : Bool) where
    module _ (new_arena : ArenaOptions ar.Freelist → Result (Store ar T) Io) where
      unfoldable pub map_mut_with_comparator :
          Comparator → Run (Result (SkipMap ar T) (IoError Io ar.Error))
      unfolding map_mut_with_options_and_comparator Options.new
      map_mut_with_comparator cmp =
          map_mut_with_options_and_comparator metas new_arena default_capacity default_unify
            (Options.new default_freelist) cmp

      unfoldable pub map_mut_with_options :
          Options ar.Freelist → Run (Result (SkipMap ar T) (IoError Io ar.Error))
      unfolding map_mut_with_options_and_comparator ascend
      map_mut_with_options opts =
          map_mut_with_options_and_comparator metas new_arena default_capacity default_unify opts
            ascend

      unfoldable pub map_mut : Run (Result (SkipMap ar T) (IoError Io ar.Error))
      unfolding map_mut_with_options Options.new
      map_mut = map_mut_with_options (Options.new default_freelist)

  module _ {Io : Type 0} where
    -- `map_arena` is `Arena::map` on a path.
    unfoldable pub map :
        (ℕ → Result (Store ar T) Io) → ℕ → Run (Result (SkipMap ar T) (IoError Io ar.Error))
    unfolding map_with_comparator ascend
    map map_arena magic_version =
        map_with_comparator metas map_arena default_freelist ascend magic_version

    module _ (default_capacity : ℕ)
        (new_arena : ArenaOptions ar.Freelist → Result (Store ar T) Io) where
      unfoldable pub map_anon_with_comparator :
          Comparator → Run (Result (SkipMap ar T) (IoError Io ar.Error))
      unfolding map_anon_with_options_and_comparator Options.new
      map_anon_with_comparator cmp =
          map_anon_with_options_and_comparator metas new_arena default_capacity default_freelist
            (Options.new default_freelist) cmp

      unfoldable pub map_anon_with_options :
          Options ar.Freelist → Run (Result (SkipMap ar T) (IoError Io ar.Error))
      unfolding map_anon_with_options_and_comparator ascend
      map_anon_with_options opts =
          map_anon_with_options_and_comparator metas new_arena default_capacity default_freelist
            opts ascend

      unfoldable pub map_anon : Run (Result (SkipMap ar T) (IoError Io ar.Error))
      unfolding map_anon_with_options_and_comparator Options.new ascend
      map_anon =
          map_anon_with_options_and_comparator metas new_arena default_capacity default_freelist
            (Options.new default_freelist) ascend
