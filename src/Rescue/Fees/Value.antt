-- ===== src/Rescue/Fees/Value.antt =====
-- What `EvaluateMinimumValue` decides.
use guard_daemon.Prelude.{
  ℕ, ℤ, pos, ◌+◌, ◌^◌, ◌≤◌, ◌<◌, ◌≡◌, true, false, Option, some, arith, leb, if◌then◌else◌,
}
use guard_daemon.External.{External}
use guard_daemon.Rescue.Fees.{
  ok, err, FeePolicy, MinimumValueDecision, valid_fee_policy, asset_native, asset_unknown_token,
  native_value, evaluate_minimum_value, source_of, minimum_overflow,
}

module _ ⦃x : External⦄ where
  -- A source of a native asset that fits 256 bits, under a valid policy and a positive cost, is
  -- rescued exactly if it holds the maximum cost and the minimal net value; where the two together
  -- do not fit 256 bits, that is the error.
  pub evaluate_minimum_value-native :
      (p : FeePolicy) (source minimum maximum_cost : ℕ)
      → valid_fee_policy p ≡ true
      → 0 < maximum_cost
      → source < 2 ^ 256
      → evaluate_minimum_value p asset_native (some (pos source)) minimum maximum_cost ≡ (
          if leb (2 ^ 256) (maximum_cost + minimum)
          then err minimum_overflow
          else ok (record {
            allowed = leb (maximum_cost + minimum) source;
            trusted = true;
            required = maximum_cost + minimum;
          }))
  unfolding evaluate_minimum_value native_value source_of
  evaluate_minimum_value-native p source minimum maximum_cost v c s =
      ground (arith, x.from_big_lem source, x.add_overflow_lem maximum_cost minimum)

  -- An allowed rescue of an asset that is not trusted is one of an unknown token whose cost is
  -- within the cap for those.
  pub evaluate_minimum_value-untrusted :
      (p : FeePolicy) (asset : ℕ) (source_value : Option ℤ) (minimum maximum_cost : ℕ)
      {d : MinimumValueDecision}
      → evaluate_minimum_value p asset source_value minimum maximum_cost ≡ ok d
      → d.trusted ≡ false
      → d.allowed ≡ true
      → (asset ≡ asset_unknown_token) × (maximum_cost ≤ p.unknown_token_cost_cap)
  unfolding evaluate_minimum_value native_value
  evaluate_minimum_value-untrusted p asset source_value minimum maximum_cost {d} h t a =
      ground arith
