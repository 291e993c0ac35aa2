-- ===== src/Tests/Creates.antt =====
-- A map made on an empty arena.
use skl_rs.Prelude.{ℕ, refl, none, some, arith}
use skl_rs.Comparator.{ascend, u64_trailer}
use skl_rs.Comparator.Laws.{comparators-IsLawful}
use skl_rs.Create.{Store, new_in}
use skl_rs.Create.NewIn.{Opens, new_in-Opens}
use skl_rs.Tests.Owned.{bump_laws}
use skl_rs.Tests.TwoKeys.{bump, example}

-- Zeroed memory.
abbrev zeroed : Store bump ℕ
zeroed = record {
  arena = 1;
  memory = record {
    nodes = λ q. none;
    links = λ q. some (record { next_offset = 0; prev_offset = 0 });
    trailers = λ q. none;
    bytes = λ q. 0;
  };
}

new_in-Opens_example :
    Opens {T = ℕ} ⦃tr = u64_trailer⦄ bump_laws example.opts ascend zeroed.arena
      (new_in ⦃tr = u64_trailer⦄ (λ q. none) zeroed ascend example.opts)
new_in-Opens_example =
    new_in-Opens ⦃tr = u64_trailer⦄ bump_laws example.opts ascend (λ q. none) zeroed
      comparators-IsLawful.0 (omega arith) (omega arith) (omega arith)
      (λ q. (record { next_offset = 0; prev_offset = 0 }, refl)) refl
