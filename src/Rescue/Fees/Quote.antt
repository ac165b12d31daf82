-- ===== src/Rescue/Fees/Quote.antt =====
-- What `BuildFeeQuote` returns, in exact arithmetic, and its agreement with the budget's price.
use guard_daemon.Prelude.{
  ℕ, ℤ, pos, negsuc, ◌+◌, ◌-◌, ◌*◌, ◌^◌, ◌≤◌, ◌<◌, ◌≡◌, refl, ◌⊎◌, true, false, not, ◌&&◌, Option,
  none, some, arith, ltb, leb, ◌==◌,
}
use mathlib.Core.Path.{subst}
use guard_daemon.External.{External}
use guard_daemon.Budget.Cost.{maximum_cost}
use guard_daemon.Budget.Cost.Capacity.{maximum_cost_lem, mul_pos}
use guard_daemon.Rescue.Fees.{
  FeeError, Fallible, >>=-eq-ok, fail_if-eq-ok, ok_injective, ok, need, FeePolicy, FeeQuote,
  valid_fee_policy, gas_limit, positive_uint256, at_least, at_most, tip_of, fee_cap_of,
  maximum_fee_cost, build_fee_quote, invalid_input,
}

pub need-eq-ok {ℓ} :
    {A : Type ℓ} (o : Option A) (e : FeeError) {a : A} → need o e ≡ ok a → o ≡ some a
need-eq-ok (some b) e h = cc
need-eq-ok none e h = cc

-- The policy's amounts are `uint256`.
pub record PolicyFits (p : FeePolicy) : Type 0 where
  pub max_fee : p.max_fee_per_gas < 2 ^ 256
  pub max_priority : p.max_priority_fee_per_gas < 2 ^ 256

-- The tip and the fee cap by the arithmetic of numbers.
abbrev pub exact_tip : FeePolicy → ℕ → ℕ → ℕ
exact_tip p base suggested =
    at_most p.max_priority_fee_per_gas (at_least p.min_priority_fee_per_gas (suggested - base))

abbrev pub exact_fee_cap : FeePolicy → ℕ → ℕ → ℕ
exact_fee_cap p base tip = at_most p.max_fee_per_gas (base + base + tip)

-- A quote that fits its policy and the two prices.
pub record Priced (p : FeePolicy) (asset base suggested : ℕ) (q : FeeQuote) : Type 0 where
  pub valid : valid_fee_policy p ≡ true
  pub network : q.network ≡ p.network
  pub asset_kept : q.asset ≡ asset
  pub gas : gas_limit p asset ≡ some q.gas_limit
  pub tip : q.tip_cap ≡ exact_tip p base suggested
  pub tip_min : p.min_priority_fee_per_gas ≤ q.tip_cap
  pub tip_max : q.tip_cap ≤ p.max_priority_fee_per_gas
  pub tip_pos : 0 < q.tip_cap
  pub fee_cap : q.fee_cap ≡ exact_fee_cap p base q.tip_cap
  pub fee_cap_max : q.fee_cap ≤ p.max_fee_per_gas
  pub included : base + q.tip_cap ≤ q.fee_cap
  pub cost : q.maximum_cost ≡ q.gas_limit * q.fee_cap + p.overhead
  pub cost_fits : q.maximum_cost < 2 ^ 256
  pub cost_pos : 0 < q.maximum_cost

module _ ⦃x : External⦄ where
  pub positive_uint256-eq-some :
      (o : Option ℤ) {n : ℕ}
      → positive_uint256 o ≡ some n
      → (o ≡ some (pos n)) × (0 < n) × (n < 2 ^ 256)
  unfolding positive_uint256
  positive_uint256-eq-some none h = ground arith
  positive_uint256-eq-some (some (negsuc m)) h = ground arith
  positive_uint256-eq-some (some (pos m)) h = ground (arith, x.from_big_lem m)

  positive_uint256-pos : (n : ℕ) → 0 < n → n < 2 ^ 256 → positive_uint256 (some (pos n)) ≡ some n
  unfolding positive_uint256
  positive_uint256-pos n h k = ground (arith, x.from_big_lem n)

  tip_of_exact :
      (p : FeePolicy) (base suggested : ℕ)
      → suggested < 2 ^ 256
      → tip_of p base suggested ≡ exact_tip p base suggested
  unfolding tip_of
  tip_of_exact p base suggested h = ground (arith, x.sub_lem suggested base)

  fee_cap_of_exact :
      (p : FeePolicy) (base tip : ℕ)
      → p.max_fee_per_gas < 2 ^ 256
      → tip < 2 ^ 256
      → base < 2 ^ 256
      → fee_cap_of p base tip ≡ exact_fee_cap p base tip
  unfolding fee_cap_of
  fee_cap_of_exact p base tip h k b =
      ground
        (arith, x.add_overflow_lem base base, x.add_overflow_lem (x.add_overflow base base).0 tip)

  maximum_fee_cost_exact :
      (gas fee_cap overhead : ℕ) {n : ℕ}
      → 0 < gas * fee_cap
      → maximum_fee_cost gas fee_cap overhead ≡ ok n
      → (n ≡ gas * fee_cap + overhead) × (n < 2 ^ 256) × (0 < n)
  unfolding maximum_fee_cost
  maximum_fee_cost_exact gas fee_cap overhead k h = ground (
    arith,
    x.mul_overflow_lem gas fee_cap,
    x.add_overflow_lem (x.mul_overflow gas fee_cap).0 overhead,
  )

  maximum_fee_cost-eq-ok :
      (gas fee_cap overhead : ℕ)
      → 0 < gas * fee_cap
      → gas * fee_cap + overhead < 2 ^ 256
      → maximum_fee_cost gas fee_cap overhead ≡ ok (gas * fee_cap + overhead)
  unfolding maximum_fee_cost
  maximum_fee_cost-eq-ok gas fee_cap overhead k h = ground (
    arith,
    x.mul_overflow_lem gas fee_cap,
    x.add_overflow_lem (x.mul_overflow gas fee_cap).0 overhead,
  )

  gas_limit-pos :
      (p : FeePolicy) (asset : ℕ) {g : ℕ}
      → valid_fee_policy p ≡ true
      → gas_limit p asset ≡ some g
      → 0 < g
  unfolding valid_fee_policy gas_limit
  gas_limit-pos p asset h k = ground arith

  -- The checks that `BuildFeeQuote` has passed make its quote exact.
  checks-Priced :
      (p : FeePolicy) (asset base suggested gas maximum : ℕ)
      → PolicyFits p
      → valid_fee_policy p ≡ true
      → gas_limit p asset ≡ some gas
      → 0 < base
      → base < 2 ^ 256
      → suggested < 2 ^ 256
      → (leb suggested base && p.min_priority_fee_per_gas == 0) ≡ false
      → (x.add_overflow base (tip_of p base suggested)).1 ≡ false
      → ltb
          (fee_cap_of p base (tip_of p base suggested))
          (x.add_overflow base (tip_of p base suggested)).0
        ≡ false
      → maximum_fee_cost gas (fee_cap_of p base (tip_of p base suggested)) p.overhead ≡ ok maximum
      → Priced p asset base suggested (record {
        network = p.network;
        asset = asset;
        tip_cap = tip_of p base suggested;
        fee_cap = fee_cap_of p base (tip_of p base suggested);
        gas_limit = gas;
        maximum_cost = maximum;
      })
  unfolding valid_fee_policy
  checks-Priced p asset base suggested gas maximum f v eg b b_fits s_fits paid sums floor em =
      let tip = tip_of p base suggested in
      let tip_same = tip_of_exact p base suggested s_fits in
      let tip_fits : tip < 2 ^ 256 = ground (arith, f.max_priority, tip_same) in
      let cap_same = fee_cap_of_exact p base tip f.max_fee tip_fits b_fits in
      let included : base + tip ≤ fee_cap_of p base tip =
        ground (arith, x.add_overflow_lem base tip) in
      let gas_pos = gas_limit-pos p asset v eg in
      let (cost, cost_fits, cost_pos) =
        maximum_fee_cost_exact gas (fee_cap_of p base tip) p.overhead
          (mul_pos gas (fee_cap_of p base tip) (omega arith) (omega arith)) em in
      record {
        valid = v;
        network = refl;
        asset_kept = refl;
        gas = eg;
        tip = tip_same;
        tip_min = ground (arith, tip_same);
        tip_max = ground (arith, tip_same);
        tip_pos = ground (arith, tip_same);
        fee_cap = cap_same;
        fee_cap_max = ground (arith, cap_same);
        included = included;
        cost = cost;
        cost_fits = cost_fits;
        cost_pos = cost_pos;
      }

  -- From prices as `*big.Int` and a policy whose fee bounds fit 256 bits, a successful
  -- `BuildFeeQuote` has positive prices that fit 256 bits, and its quote has the exact tip, fee
  -- cap, gas and cost, within the policy's bounds.
  pub build_fee_quote-Priced :
      (p : FeePolicy) (asset : ℕ) (base_fee suggested_price : Option ℤ) {q : FeeQuote}
      → PolicyFits p
      → build_fee_quote p asset base_fee suggested_price ≡ ok q
      → (base suggested : ℕ) × (base_fee ≡ some (pos base))
        × (suggested_price ≡ some (pos suggested))
        × Priced p asset base suggested q
  unfolding build_fee_quote
  build_fee_quote-Priced p asset base_fee suggested_price {q} f h =
      let (v, h1) = fail_if-eq-ok (not (valid_fee_policy p)) _ _ h in
      let (gas, eg, h2) = >>=-eq-ok (need (gas_limit p asset) invalid_input) _ h1 in
      let (base, eb, h3) = >>=-eq-ok (need (positive_uint256 base_fee) invalid_input) _ h2 in
      let (suggested, es, h4) =
        >>=-eq-ok (need (positive_uint256 suggested_price) invalid_input) _ h3 in
      let (paid, h5) =
        fail_if-eq-ok (leb suggested base && p.min_priority_fee_per_gas == 0) _ _ h4 in
      let tip = tip_of p base suggested in
      let (sums, h6) = fail_if-eq-ok (x.add_overflow base tip).1 _ _ h5 in
      let cap = fee_cap_of p base tip in
      let (floor, h7) = fail_if-eq-ok (ltb cap (x.add_overflow base tip).0) _ _ h6 in
      let (maximum, em, h8) = >>=-eq-ok (maximum_fee_cost gas cap p.overhead) _ h7 in
      let (b, b_pos, b_fits) =
        positive_uint256-eq-some base_fee (need-eq-ok (positive_uint256 base_fee) _ eb) in
      let (s, s_pos, s_fits) =
        positive_uint256-eq-some suggested_price
          (need-eq-ok (positive_uint256 suggested_price) _ es) in
      (
        base,
        suggested,
        b,
        s,
        subst (Priced p asset base suggested) (ok_injective h8) (
            checks-Priced p asset base suggested gas maximum f (ground arith)
              (need-eq-ok (gas_limit p asset) _ eg) b_pos b_fits s_fits paid sums floor em),
      )

  -- Where the policy is valid and its fee bounds fit 256 bits, the asset is known, the prices are
  -- positive `uint256`s with a suggested price above the base fee or a positive minimal tip, the
  -- fee cap is at least the base fee and the tip, and the exact cost is below 2^256,
  -- `BuildFeeQuote` succeeds with the exact tip, fee cap and cost.
  pub build_fee_quote-succeeds :
      (p : FeePolicy) (asset base suggested gas : ℕ)
      → PolicyFits p
      → valid_fee_policy p ≡ true
      → gas_limit p asset ≡ some gas
      → 0 < base
      → base < 2 ^ 256
      → 0 < suggested
      → suggested < 2 ^ 256
      → (base < suggested) ⊎ (0 < p.min_priority_fee_per_gas)
      → base + exact_tip p base suggested ≤ exact_fee_cap p base (exact_tip p base suggested)
      → gas * exact_fee_cap p base (exact_tip p base suggested) + p.overhead < 2 ^ 256
      → build_fee_quote p asset (some (pos base)) (some (pos suggested))
        ≡ ok (record {
          network = p.network;
          asset = asset;
          tip_cap = exact_tip p base suggested;
          fee_cap = exact_fee_cap p base (exact_tip p base suggested);
          gas_limit = gas;
          maximum_cost = gas * exact_fee_cap p base (exact_tip p base suggested) + p.overhead;
        })
  unfolding build_fee_quote
  build_fee_quote-succeeds p asset base suggested gas f v eg b b_fits s s_fits paid included cost =
      let tip = exact_tip p base suggested in
      let tip_fits : tip < 2 ^ 256 = ground (arith, f.max_priority) in
      let cap_fits : exact_fee_cap p base tip < 2 ^ 256 = ground (arith, f.max_fee) in
      let tests : (leb suggested base && p.min_priority_fee_per_gas == 0) ≡ false = ground arith in
      let whole =
        maximum_fee_cost-eq-ok gas (exact_fee_cap p base tip) p.overhead
          (mul_pos gas (exact_fee_cap p base tip) (omega (arith, gas_limit-pos p asset v eg))
            (omega arith))
          cost in
      let over : (x.add_overflow base tip).1 ≡ false =
        ground (arith, x.add_overflow_lem base tip) in
      let floor : ltb (exact_fee_cap p base tip) (x.add_overflow base tip).0 ≡ false =
        ground (arith, x.add_overflow_lem base tip) in
      rw
        (
          build_fee_quote,
          v,
          eg,
          positive_uint256-pos base b b_fits,
          positive_uint256-pos suggested s s_fits,
          tests,
          tip_of_exact p base suggested s_fits,
          over,
          fee_cap_of_exact p base tip f.max_fee tip_fits b_fits,
          floor,
          whole,
        )
        refl

  -- Where the policy's fee bounds fit 256 bits, the budget prices a quote that `BuildFeeQuote`
  -- returned at the maximum cost that the quote states.
  pub build_fee_quote-maximum_cost :
      (p : FeePolicy) (asset : ℕ) (base_fee suggested_price : Option ℤ) {q : FeeQuote}
      → PolicyFits p
      → build_fee_quote p asset base_fee suggested_price ≡ ok q
      → maximum_cost
          (record {
            gas_limit = q.gas_limit;
            max_fee_per_gas = q.fee_cap;
            maximum_cost = q.maximum_cost;
          })
          p.overhead
        ≡ Fallible.ok q.maximum_cost
  build_fee_quote-maximum_cost p asset base_fee suggested_price {q} f h =
      let (base, suggested, b, s, priced) =
        build_fee_quote-Priced p asset base_fee suggested_price f h in
      ground (
        arith,
        maximum_cost_lem
            (record {
              gas_limit = q.gas_limit;
              max_fee_per_gas = q.fee_cap;
              maximum_cost = q.maximum_cost;
            })
            p.overhead,
        gas_limit-pos p asset priced.valid priced.gas,
        priced.tip_pos,
        priced.included,
        priced.cost,
        priced.cost_fits,
        priced.cost_pos,
      )
