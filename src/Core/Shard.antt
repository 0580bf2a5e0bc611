-- ===== src/Core/Shard.antt =====
-- tflo-core/src/shard.rs: the epoch of an assignment, and the router that owns every key. The counter
-- of an epoch is a `u64`: `fetch_add` wraps it around, and the result of `bump` saturates.
use tflo.Prelude.{ℕ, ◌+◌, ◌%◌, ◌^◌, ◌<◌, ◌≤◌, ◌≡◌, ◌↔◌, Bool, true, arith}
use tflo.Prelude.I64.{sat_add_u64, u64_max}

pub record AssignmentEpoch : Type 0 where
  pub value : ℕ

pub data DropReason : Type 0 where
  stale_epoch : DropReason
  not_owned : DropReason

abbrev pub new : AssignmentEpoch
new = record { value = 0 }

abbrev pub get : AssignmentEpoch → ℕ
get e = e.value

unfoldable pub bump : AssignmentEpoch → ℕ × AssignmentEpoch
bump e = (sat_add_u64 e.value 1, record { value = (e.value + 1) % 2 ^ 64 })

pub record LocalShard : Type 0 where
  pub epoch : AssignmentEpoch

module _ {ℓ} {K : Type ℓ} where
  abbrev pub owns : LocalShard → K → Bool
  owns s key = true

abbrev pub assignment_epoch : LocalShard → ℕ
assignment_epoch s = get s.epoch

abbrev pub simulate_rebalance : LocalShard → ℕ × LocalShard
unfolding bump
simulate_rebalance s = let (n, e) = bump s.epoch in (n, record { epoch = e })

-- A rebalance of the local router returns the epoch that the router then has, and that epoch is later
-- than the one before it, exactly when the counter was not at its maximum.
pub rebalance_advances :
    (s : LocalShard)
    → assignment_epoch s ≤ u64_max
    → let (n, s') = simulate_rebalance s in
      ((n ≡ assignment_epoch s') × (assignment_epoch s < assignment_epoch s'))
      ↔ (assignment_epoch s < u64_max)
unfolding bump
rebalance_advances s h = (λ e. ground arith, λ k. ground arith)
