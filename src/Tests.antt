-- ===== src/Tests.antt =====
-- Runs of the definitions on concrete data, at which the theorems apply.
mod TwoKeys
mod Owned
mod Inserts
mod Witnesses
mod Creates
mod Orders
mod Removals
mod Iterations
mod Settled
mod Fairness
mod Overwrites
mod Races
mod Seeks
