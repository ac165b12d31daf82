-- ===== src/Tests/Fees.antt =====
-- The fee policy at small numbers.
use guard_daemon.Prelude.{ℕ, pos, ◌≤◌, ◌≡◌, refl, inl, true, false, Option, some, none, arith}
use guard_daemon.Budget.Cost.{maximum_cost}
use guard_daemon.Prelude.{Fallible}
use guard_daemon.Rescue.Fees.{
  ok, FeePolicy, FeeQuote, valid_fee_policy, gas_limit, positive_uint256, tip_of, fee_cap_of,
  maximum_fee_cost, build_fee_quote, evaluate_minimum_value, asset_native, asset_unknown_token,
}
use guard_daemon.Rescue.Fees.Quote.{
  PolicyFits, Priced, build_fee_quote-Priced, build_fee_quote-succeeds,
  build_fee_quote-maximum_cost,
}
use guard_daemon.Rescue.Fees.Value.{evaluate_minimum_value-native, evaluate_minimum_value-untrusted}
use guard_daemon.Tests.World.{world}

abbrev fee_policy : FeePolicy
fee_policy = record {
  network = 1;
  max_fee_per_gas = 100;
  max_priority_fee_per_gas = 30;
  min_priority_fee_per_gas = 2;
  token_gas_limit = 300;
  native_gas_limit = 200;
  overhead = 50;
  unknown_token_cost_cap = 9000;
  transaction_cost_cap = 100000;
  unbounded_additional_fees = false;
  estimated_base_fees = false;
}

fee_policy_fits : PolicyFits fee_policy
fee_policy_fits = record { max_fee = omega arith; max_priority = omega arith }

fee_policy_valid : valid_fee_policy fee_policy ≡ true
unfolding valid_fee_policy
fee_policy_valid = refl

native_gas : gas_limit fee_policy asset_native ≡ some 200
unfolding gas_limit
native_gas = refl

abbrev quote : FeeQuote
quote = record {
  network = 1;
  asset = 1;
  tip_cap = 5;
  fee_cap = 25;
  gas_limit = 200;
  maximum_cost = 5050;
}

quoted :
    build_fee_quote ⦃x = world⦄ fee_policy asset_native (some (pos 10)) (some (pos 15)) ≡ ok quote
unfolding build_fee_quote valid_fee_policy gas_limit positive_uint256 tip_of fee_cap_of
    maximum_fee_cost
quoted = refl

build_fee_quote-Priced_example :
    (base suggested : ℕ) × (Option.some (pos 10) ≡ some (pos base))
    × (Option.some (pos 15) ≡ some (pos suggested))
    × Priced fee_policy asset_native base suggested quote
build_fee_quote-Priced_example =
    build_fee_quote-Priced ⦃x = world⦄ fee_policy asset_native (some (pos 10)) (some (pos 15))
      fee_policy_fits quoted

build_fee_quote-succeeds_example :
    build_fee_quote ⦃x = world⦄ fee_policy asset_native (some (pos 10)) (some (pos 15)) ≡ ok quote
build_fee_quote-succeeds_example =
    build_fee_quote-succeeds ⦃x = world⦄ fee_policy asset_native 10 15 200 fee_policy_fits
      fee_policy_valid native_gas (omega arith) (omega arith) (omega arith) (omega arith)
      (inl (omega arith)) (omega arith) (omega arith)

build_fee_quote-maximum_cost_example :
    maximum_cost ⦃x = world⦄
      (record { gas_limit = 200; max_fee_per_gas = 25; maximum_cost = 5050 })
      50
    ≡ Fallible.ok 5050
build_fee_quote-maximum_cost_example =
    build_fee_quote-maximum_cost ⦃x = world⦄ fee_policy asset_native (some (pos 10)) (some (pos 15))
      fee_policy_fits quoted

evaluate_minimum_value-native_example :
    evaluate_minimum_value ⦃x = world⦄ fee_policy asset_native (some (pos 7000)) 1000 5050
    ≡ ok (record { allowed = true; trusted = true; required = 6050 })
evaluate_minimum_value-native_example =
    evaluate_minimum_value-native ⦃x = world⦄ fee_policy 7000 1000 5050 fee_policy_valid
      (omega arith) (omega arith)

unknown_allowed :
    evaluate_minimum_value ⦃x = world⦄ fee_policy asset_unknown_token none 1000 5050
    ≡ ok (record { allowed = true; trusted = false; required = 0 })
unfolding evaluate_minimum_value valid_fee_policy
unknown_allowed = refl

evaluate_minimum_value-untrusted_example :
    (asset_unknown_token ≡ asset_unknown_token) × (5050 ≤ 9000)
evaluate_minimum_value-untrusted_example =
    evaluate_minimum_value-untrusted ⦃x = world⦄ fee_policy asset_unknown_token none 1000 5050
      unknown_allowed refl refl
