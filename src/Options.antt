-- ===== src/Options.antt =====
-- The options of a map (src/options.rs). The kind of free list is a type of the allocator.
use skl_rs.Prelude.{ℕ, Bool, false}
use skl_rs.Codec.{u32_max}

-- The largest u27.
abbrev pub u27_max : ℕ
u27_max = 134217727

pub record Options (Freelist : Type 0) : Type 0 where
  pub max_value_size : ℕ
  pub max_key_size : ℕ
  pub max_height : ℕ
  pub magic_version : ℕ
  pub capacity : ℕ
  pub unify : Bool
  pub freelist : Freelist

module _ {Freelist : Type 0} where
  -- `Options::new`; the default free list is an argument.
  unfoldable pub new : Freelist → Options Freelist
  new optimistic = record {
    max_value_size = u32_max;
    max_key_size = u27_max;
    max_height = 20;
    magic_version = 0;
    capacity = 1024;
    unify = false;
    freelist = optimistic;
  }

  unfoldable pub with_magic_version : Options Freelist → ℕ → Options Freelist
  with_magic_version o v = record o { magic_version = v }

  unfoldable pub with_freelist : Options Freelist → Freelist → Options Freelist
  with_freelist o f = record o { freelist = f }

  unfoldable pub with_unify : Options Freelist → Bool → Options Freelist
  with_unify o u = record o { unify = u }

  unfoldable pub with_max_value_size : Options Freelist → ℕ → Options Freelist
  with_max_value_size o n = record o { max_value_size = n }

  unfoldable pub with_max_key_size : Options Freelist → ℕ → Options Freelist
  with_max_key_size o n = record o { max_key_size = n }

  unfoldable pub with_max_height : Options Freelist → ℕ → Options Freelist
  with_max_height o h = record o { max_height = h }

  unfoldable pub with_capacity : Options Freelist → ℕ → Options Freelist
  with_capacity o n = record o { capacity = n }
