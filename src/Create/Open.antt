-- ===== src/Create/Open.antt =====
-- The constructors (src/map/api.rs): of a map in memory, and of maps over files. How an arena is opened
-- is an argument, with its memory and the headers that lie there.
use skl_rs.Prelude.{
  ℕ, Bool, true, Option, if◌then◌else◌, not, ◌==◌, Run, done, fault, panic, out_of_fuel, Result, ok,
  err,
}
use skl_rs.Capacity.{Error}
use skl_rs.Comparator.{Comparator, Trailer}
use skl_rs.Map.{SkipMap}
use skl_rs.Meta.{Meta}
use skl_rs.Node.{node_align}
use skl_rs.Node.Arena.{Arena}
use skl_rs.Options
use skl_rs.Options.{Options}
use skl_rs.Create.{current_version, Store, new_in}

-- What the constructors ask of the allocator (`ArenaOptions`). The fields that a constructor does not
-- set keep the allocator's defaults, which are arguments.
pub record ArenaOptions (Freelist : Type 0) : Type 0 where
  pub capacity : ℕ
  pub maximum_alignment : ℕ
  pub unify : Bool
  pub magic_version : ℕ
  pub freelist : Freelist

-- Errors of the constructors over files: of the system, or of data that is no such map.
pub data IoError (Io E : Type 0) : Type 0 where
  io : Io → IoError Io E
  invalid_data : Error E → IoError Io E
  bad_magic_version : IoError Io E
  bad_version : IoError Io E

module _ {ar : Arena} {T : Type 0} ⦃tr : Trailer T⦄ (metas : ℕ → Option Meta) where
  -- `with_options_and_comparator`
  unfoldable pub with_options_and_comparator :
      (ArenaOptions ar.Freelist → Store ar T)
      → Options ar.Freelist
      → Comparator
      → Run (Result (SkipMap ar T) (Error ar.Error))
  unfolding new_in
  with_options_and_comparator new opts cmp =
      new_in metas
        (new (record {
          capacity = opts.capacity;
          maximum_alignment = node_align;
          unify = opts.unify;
          magic_version = current_version;
          freelist = opts.freelist;
        }))
        cmp opts

  module _ {Io : Type 0} where
    -- The errors of `new_in` as errors of the system, and the two checks of the versions.
    abbrev opened :
        Result (SkipMap ar T) (Error ar.Error) → Result (SkipMap ar T) (IoError Io ar.Error)
    opened (ok map) = ok map
    opened (err e) = err (invalid_data e)

    check_versions :
        ℕ
        → Result (SkipMap ar T) (IoError Io ar.Error)
        → Result (SkipMap ar T) (IoError Io ar.Error)
    check_versions magic (err e) = err e
    check_versions magic (ok map) =
        if not (map.meta.magic_version == magic)
        then err bad_magic_version
        else if not (ar.magic_version map.arena == current_version)
        then err bad_version
        else ok map

    abbrev on_arena :
        (Result (SkipMap ar T) (IoError Io ar.Error) → Result (SkipMap ar T) (IoError Io ar.Error))
        → Comparator
        → Options ar.Freelist
        → Result (Store ar T) Io
        → Run (Result (SkipMap ar T) (IoError Io ar.Error))
    on_arena check cmp opts (err e) = done (err (io e))
    on_arena check cmp opts (ok s) = elim (new_in metas s cmp opts) [
      | done r ↦ done (check (opened r))
      | fault ↦ fault
      | panic ↦ panic
      | out_of_fuel ↦ out_of_fuel
    ]

    -- `map_mut_with_options_and_comparator`; `new_arena` is `Arena::map_mut` on a path.
    unfoldable pub map_mut_with_options_and_comparator :
        (ArenaOptions ar.Freelist → Result (Store ar T) Io)
        → (default_capacity : ℕ) → (default_unify : Bool) → Options ar.Freelist
        → Comparator
        → Run (Result (SkipMap ar T) (IoError Io ar.Error))
    unfolding new_in check_versions Options.with_unify
    map_mut_with_options_and_comparator new_arena default_capacity default_unify opts cmp =
        on_arena (check_versions opts.magic_version) cmp (Options.with_unify opts true) (
          new_arena (record {
            capacity = default_capacity;
            maximum_alignment = node_align;
            unify = default_unify;
            magic_version = current_version;
            freelist = opts.freelist;
          }))

    -- `map_with_comparator`; `map_arena` is `Arena::map` on a path, with the version that it asks for.
    unfoldable pub map_with_comparator :
        (ℕ → Result (Store ar T) Io)
        → (default_freelist : ar.Freelist) → Comparator
        → ℕ
        → Run (Result (SkipMap ar T) (IoError Io ar.Error))
    unfolding new_in check_versions Options.new Options.with_unify Options.with_magic_version
    map_with_comparator map_arena default_freelist cmp magic_version =
        on_arena (check_versions magic_version) cmp
          (Options.with_magic_version (Options.with_unify (Options.new default_freelist) true)
            magic_version)
          (map_arena current_version)

    -- `map_anon_with_options_and_comparator`
    unfoldable pub map_anon_with_options_and_comparator :
        (ArenaOptions ar.Freelist → Result (Store ar T) Io)
        → (default_capacity : ℕ) → (default_freelist : ar.Freelist) → Options ar.Freelist
        → Comparator
        → Run (Result (SkipMap ar T) (IoError Io ar.Error))
    unfolding new_in
    map_anon_with_options_and_comparator new_arena default_capacity default_freelist opts cmp =
        on_arena (λ r. r) cmp opts
          (new_arena (record {
            capacity = default_capacity;
            maximum_alignment = node_align;
            unify = opts.unify;
            magic_version = current_version;
            freelist = default_freelist;
          }))
