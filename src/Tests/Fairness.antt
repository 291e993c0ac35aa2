-- ===== src/Tests/Fairness.antt =====
-- Two threads that take turns in `update_max_version` until both have returned.
use skl_rs.Prelude.{ℕ, ◌<◌, zero, suc, [], ◌∷◌, List, Bool, true, false, All, leb, arith}
use skl_rs.Meta.{version_step}
use skl_rs.Meta.Fair.{turns, IsFair}
use skl_rs.Meta.Fair.Returns.{run-IsReturned}
use skl_rs.Meta.Versions.{IsReturned, run}
use skl_rs.Tests.Witnesses.{two_threads}

abbrev schedule : List (ℕ × Bool)
schedule =
    (0, false)
    ∷ (1, true)
    ∷ (1, false)
    ∷ (1, true)
    ∷ (0, false)
    ∷ (1, false)
    ∷ (0, false)
    ∷ (1, false)
    ∷ []

enough : (i : ℕ) → i < 2 → 2 < turns i schedule
unfolding turns
enough zero l = omega arith
enough (suc zero) l = omega arith
enough (suc (suc i)) l = absurd (omega arith)

schedule-IsFair : IsFair two_threads schedule
schedule-IsFair = record { enough = enough }

run-IsReturned_example :
    All IsReturned
      (run
        (λ version. version_step (λ current. leb version current) version)
        schedule
        two_threads
        0).0
run-IsReturned_example =
    run-IsReturned (λ version current. leb version current) schedule two_threads 0 schedule-IsFair
