-- ===== src/Rescue/Fees.antt =====
-- The fee policy (internal/rescue/fees.go). A `*big.Int` is `none` for nil, a `uint256.Int` its
-- value, a `NetworkID` its 64-bit pattern, a `FeeAsset` its byte.
pub mod Quote
pub mod Value
use guard_daemon.Prelude.{
  ℕ, ℤ, pos, negsuc, ◌^◌, Bool, true, false, not, ◌&&◌, ◌||◌, Option, none, some, ltb, leb, ◌==◌,
  if◌then◌else◌,
}
pub use guard_daemon.Prelude.{
  Fallible, ok, err, ◌>>=◌, ◌>>◌, fail_if, or_else, is_err, >>=-eq-ok, ok_injective, fail_if-eq-ok,
  or_else-eq-ok, Fallible-cases,
}
use guard_daemon.External.{External}

pub data FeeError : Type 0 where
  invalid_policy invalid_input underpriced cost_overflow : FeeError
  invalid_minimum minimum_overflow trusted_value_needed : FeeError

abbrev pub Quoted {ℓ} : Type ℓ → Type ℓ
Quoted A = Fallible FeeError A

-- A pair of a value and a flag, read as `if !ok { return e }`.
abbrev pub need {ℓ} : {A : Type ℓ} → Option A → FeeError → Quoted A
need (some a) e = ok a
need none e = err e

abbrev pub asset_native : ℕ
asset_native = 1

abbrev pub asset_token : ℕ
asset_token = 2

abbrev pub asset_unknown_token : ℕ
asset_unknown_token = 3

pub record FeePolicy : Type 0 where
  pub network : ℕ
  pub max_fee_per_gas : ℕ
  pub max_priority_fee_per_gas : ℕ
  pub min_priority_fee_per_gas : ℕ
  pub token_gas_limit : ℕ
  pub native_gas_limit : ℕ
  pub overhead : ℕ
  pub unknown_token_cost_cap : ℕ
  pub transaction_cost_cap : ℕ
  pub unbounded_additional_fees : Bool
  pub estimated_base_fees : Bool

pub record FeeQuote : Type 0 where
  pub network : ℕ
  pub asset : ℕ
  pub tip_cap : ℕ
  pub fee_cap : ℕ
  pub gas_limit : ℕ
  pub maximum_cost : ℕ

unfoldable pub valid_fee_policy : FeePolicy → Bool
valid_fee_policy p =
    (ltb 0 p.network && ltb p.network (2 ^ 63))
    && not (p.max_fee_per_gas == 0)
    && not (p.max_priority_fee_per_gas == 0)
    && leb p.min_priority_fee_per_gas p.max_priority_fee_per_gas
    && not (p.transaction_cost_cap == 0)
    && leb p.max_priority_fee_per_gas p.max_fee_per_gas
    && ltb 0 p.token_gas_limit
    && ltb 0 p.native_gas_limit

unfoldable pub gas_limit : FeePolicy → ℕ → Option ℕ
gas_limit p asset =
    if asset == asset_native
    then some p.native_gas_limit
    else if asset == asset_token || asset == asset_unknown_token
    then some p.token_gas_limit
    else none

-- `max` and `min` as the code writes them: a value replaced when the other compares past it.
abbrev pub at_least : ℕ → ℕ → ℕ
at_least low v = if ltb v low then low else v

abbrev pub at_most : ℕ → ℕ → ℕ
at_most high v = if ltb high v then high else v

module _ ⦃x : External⦄ where
  unfoldable pub positive_uint256 : Option ℤ → Option ℕ
  positive_uint256 none = none
  positive_uint256 (some (negsuc n)) = none
  positive_uint256 (some (pos n)) =
      if n == 0 || (x.from_big (pos n)).1 then none else some (x.from_big (pos n)).0

  -- The tip that the suggested price leaves above the base fee, brought within the policy's bounds.
  unfoldable pub tip_of : FeePolicy → ℕ → ℕ → ℕ
  tip_of p base suggested =
      at_most p.max_priority_fee_per_gas (
        at_least p.min_priority_fee_per_gas
          (if ltb base suggested then x.sub suggested base else 0))

  -- Twice the base fee and the tip, if that is below the policy's maximum and does not overflow.
  unfoldable pub fee_cap_of : FeePolicy → ℕ → ℕ → ℕ
  fee_cap_of p base tip =
      let doubled = x.add_overflow base base in
      let target = x.add_overflow doubled.0 tip in
      if not doubled.1 && not target.1 && ltb target.0 p.max_fee_per_gas
      then target.0
      else p.max_fee_per_gas

  unfoldable pub maximum_fee_cost : ℕ → ℕ → ℕ → Quoted ℕ
  maximum_fee_cost gas fee_cap overhead = do
    let product = x.mul_overflow gas fee_cap
    fail_if product.1 cost_overflow
    let maximum = x.add_overflow product.0 overhead
    fail_if (maximum.1 || maximum.0 == 0) cost_overflow
    ok maximum.0

  unfoldable pub build_fee_quote : FeePolicy → ℕ → Option ℤ → Option ℤ → Quoted FeeQuote
  build_fee_quote p asset base_fee suggested_price = do
    fail_if (not (valid_fee_policy p)) invalid_policy
    gas ← need (gas_limit p asset) invalid_input
    base ← need (positive_uint256 base_fee) invalid_input
    suggested ← need (positive_uint256 suggested_price) invalid_input
    fail_if (leb suggested base && p.min_priority_fee_per_gas == 0) invalid_input
    let tip = tip_of p base suggested
    fail_if (x.add_overflow base tip).1 cost_overflow
    let fee_cap = fee_cap_of p base tip
    fail_if (ltb fee_cap (x.add_overflow base tip).0) underpriced
    maximum ← maximum_fee_cost gas fee_cap p.overhead
    ok (record {
      network = p.network;
      asset = asset;
      tip_cap = tip;
      fee_cap = fee_cap;
      gas_limit = gas;
      maximum_cost = maximum;
    })

pub record MinimumValueDecision : Type 0 where
  pub allowed : Bool
  pub trusted : Bool
  pub required : ℕ

module _ ⦃x : External⦄ where
  -- A value that is not negative and fits.
  pub source_of : Option ℤ → Option ℕ
  source_of none = none
  source_of (some (negsuc n)) = none
  source_of (some (pos n)) = if (x.from_big (pos n)).1 then none else some (x.from_big (pos n)).0

  pub native_value : Option ℤ → ℕ → ℕ → Quoted MinimumValueDecision
  native_value source_value minimum maximum_cost = do
    source ← need (source_of source_value) invalid_minimum
    let required = x.add_overflow maximum_cost minimum
    fail_if required.1 minimum_overflow
    ok (record { allowed = leb required.0 source; trusted = true; required = required.0 })

  unfoldable pub evaluate_minimum_value :
      FeePolicy → ℕ → Option ℤ → ℕ → ℕ → Quoted MinimumValueDecision
  evaluate_minimum_value p asset source_value minimum maximum_cost =
      fail_if (not (valid_fee_policy p) || maximum_cost == 0) invalid_minimum
      >> (if asset == asset_native
          then native_value source_value minimum maximum_cost
          else if asset == asset_unknown_token
          then ok (record {
            allowed = leb maximum_cost p.unknown_token_cost_cap;
            trusted = false;
            required = 0;
          })
          else if asset == asset_token
          then err trusted_value_needed
          else err invalid_minimum)
