-- ===== src/Fees/Agree.antt =====
-- The two ways to the fees compared, and the bounds of the wallet's.
use creator_first_platform.Base.{ℕ, ◌+◌, ◌*◌, ◌≤◌, ◌≡◌, Option, none, some, arith}
use creator_first_platform.Fees.{
  Estimate, min_priority_fee, or_zero, estimate_or_empty, resolve_amoy_transaction_fees,
  get_amoy_transaction_fees, supporter_fees, governance_fees, participant_fees,
}

-- Where the wallet estimates no fees, and a block was read, the fees of the site are the fees of
-- the supporter, the governance and the participant clients for the base fee of that block.
pub fees_agree :
    (base_fee : Option ℕ)
    → (get_amoy_transaction_fees none (some base_fee) ≡ supporter_fees base_fee)
      × (get_amoy_transaction_fees none (some base_fee) ≡ governance_fees base_fee)
      × (get_amoy_transaction_fees none (some base_fee) ≡ participant_fees base_fee)
unfolding get_amoy_transaction_fees resolve_amoy_transaction_fees supporter_fees governance_fees
    participant_fees
fees_agree none = (ground arith, ground arith, ground arith)
fees_agree (some n) = (ground arith, ground arith, ground arith)

-- The priority fee of the site is at least 25 gwei and at least the suggested one, its largest fee
-- is at least the suggested one, and, where a block with a base fee was read, at least the
-- priority fee and twice that base fee.
pub fees_suffice :
    (estimate : Option Estimate) (block : Option (Option ℕ))
    → let fees = get_amoy_transaction_fees estimate block in
      let suggested = estimate_or_empty estimate in
      (min_priority_fee ≤ fees.max_priority_fee_per_gas)
      × (or_zero suggested.max_priority_fee_per_gas ≤ fees.max_priority_fee_per_gas)
      × (or_zero suggested.max_fee_per_gas ≤ fees.max_fee_per_gas)
      × ((base_fee : ℕ)
          → block ≡ some (some base_fee)
          → fees.max_priority_fee_per_gas + base_fee * 2 ≤ fees.max_fee_per_gas)
unfolding get_amoy_transaction_fees resolve_amoy_transaction_fees
fees_suffice estimate block = (ground arith, ground arith, ground arith, λ n e. ground arith)
