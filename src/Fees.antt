-- ===== src/Fees.antt =====
-- The fees of transactions on Polygon Amoy: the wallet's of docs/.vitepress/theme/testnet-user-demo.js
-- and the relayers' of apps/gateway/src. Fees are in wei.
pub mod Agree
pub mod Tests
use creator_first_platform.Base.{ℕ, ◌+◌, ◌*◌, Option, none, some, ltb, if◌then◌else◌}

-- AMOY_MIN_PRIORITY_FEE_PER_GAS and AMOY_FALLBACK_BASE_FEE_PER_GAS
abbrev pub min_priority_fee : ℕ
min_priority_fee = 25000000000

abbrev pub fallback_base_fee : ℕ
fallback_base_fee = 1000000000

pub record Fees : Type 0 where
  pub max_priority_fee_per_gas : ℕ
  pub max_fee_per_gas : ℕ

-- What a wallet suggests; `none` where it is no `bigint`.
pub record Estimate : Type 0 where
  pub max_fee_per_gas : Option ℕ
  pub max_priority_fee_per_gas : Option ℕ

abbrev pub or_zero : Option ℕ → ℕ
or_zero none = 0
or_zero (some n) = n

abbrev larger : ℕ → ℕ → ℕ
larger a b = if ltb b a then a else b

unfoldable pub resolve_amoy_transaction_fees : Estimate → Option ℕ → Fees
resolve_amoy_transaction_fees estimate base_fee =
    let priority = larger (or_zero estimate.max_priority_fee_per_gas) min_priority_fee in
    record {
      max_priority_fee_per_gas = priority;
      max_fee_per_gas = larger (or_zero estimate.max_fee_per_gas) (priority + or_zero base_fee * 2);
    }

-- What `estimateFeesPerGas` and `getBlock` came to: `none` where they throw. The block's base fee
-- is `none` where it is no `bigint`.
abbrev pub estimate_or_empty : Option Estimate → Estimate
estimate_or_empty none = record { max_fee_per_gas = none; max_priority_fee_per_gas = none }
estimate_or_empty (some e) = e

abbrev base_fee_of : Option (Option ℕ) → Option ℕ
base_fee_of none = some fallback_base_fee
base_fee_of (some none) = some 0
base_fee_of (some (some n)) = some n

unfoldable pub get_amoy_transaction_fees : Option Estimate → Option (Option ℕ) → Fees
unfolding resolve_amoy_transaction_fees
get_amoy_transaction_fees estimate block =
    resolve_amoy_transaction_fees (estimate_or_empty estimate) (base_fee_of block)

-- `transactionFees` of SupporterSbtRelayer.js: the base fee of a block, `none` where it has none
unfoldable pub supporter_fees : Option ℕ → Fees
supporter_fees base_fee = record {
  max_priority_fee_per_gas = min_priority_fee;
  max_fee_per_gas = or_zero base_fee * 2 + min_priority_fee;
}

-- the fees in `relay` of GovernanceVoteRelayer.js
unfoldable pub governance_fees : Option ℕ → Fees
governance_fees base_fee = record {
  max_priority_fee_per_gas = min_priority_fee;
  max_fee_per_gas = or_zero base_fee * 2 + min_priority_fee;
}

-- `transactionFees` of ParticipantEnrollmentOperator.js
unfoldable pub participant_fees : Option ℕ → Fees
participant_fees base_fee = record {
  max_priority_fee_per_gas = min_priority_fee;
  max_fee_per_gas = or_zero base_fee * 2 + min_priority_fee;
}
