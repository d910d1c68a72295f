-- ===== src/Fees/Tests.antt =====
-- The theorems on fees at concrete inputs.
use creator_first_platform.Base.{ℕ, ◌+◌, ◌*◌, ◌≤◌, ◌≡◌, Option, none, some}
use creator_first_platform.Fees.{
  Estimate, min_priority_fee, or_zero, estimate_or_empty, get_amoy_transaction_fees, supporter_fees,
  governance_fees, participant_fees,
}
use creator_first_platform.Fees.Agree.{fees_agree, fees_suffice}

fees_agree_example :
    (get_amoy_transaction_fees none (some (some 30)) ≡ supporter_fees (some 30))
    × (get_amoy_transaction_fees none (some (some 30)) ≡ governance_fees (some 30))
    × (get_amoy_transaction_fees none (some (some 30)) ≡ participant_fees (some 30))
fees_agree_example = fees_agree (some 30)

abbrev suggestion : Option Estimate
suggestion =
    some
      (record { max_fee_per_gas = some 90000000000; max_priority_fee_per_gas = some 30000000000 })

fees_suffice_example :
    let fees = get_amoy_transaction_fees suggestion (some (some 7)) in
    let suggested = estimate_or_empty suggestion in
    (min_priority_fee ≤ fees.max_priority_fee_per_gas)
    × (or_zero suggested.max_priority_fee_per_gas ≤ fees.max_priority_fee_per_gas)
    × (or_zero suggested.max_fee_per_gas ≤ fees.max_fee_per_gas)
    × ((base_fee : ℕ)
        → some (some 7) ≡ some (some base_fee)
        → fees.max_priority_fee_per_gas + base_fee * 2 ≤ fees.max_fee_per_gas)
fees_suffice_example = fees_suffice suggestion (some (some 7))
