-- ===== src/Budget/Cost/Capacity.antt =====
-- The capacity tests are exact: no subtraction in them wraps.
use guard_daemon.Prelude.{
  ℕ, ◌+◌, ◌*◌, ◌^◌, ◌≤◌, ◌<◌, ◌≡◌, ◌↔◌, ◌≢◌, true, some, ◌||◌, arith, ltb, leb, ◌==◌, if◌then◌else◌,
}
use guard_daemon.External.{External}
use guard_daemon.Budget.Types.{ok, err, invalid_request, arithmetic_overflow, CostQuote}
use guard_daemon.Budget.Cost.{
  maximum_cost, add_checked, fits_existing, has_capacity, sponsor_has_capacity, remaining_of,
}

pub mul_pos : (a b : ℕ) → a ≢ 0 → b ≢ 0 → 0 < a * b
mul_pos a b h k = grind arith

module _ ⦃x : External⦄ where
  pub add_checked-eq-ok : (a b : ℕ) → a + b < 2 ^ 256 → add_checked a b ≡ ok (a + b)
  unfolding add_checked
  add_checked-eq-ok a b h = ground (arith, x.add_overflow_lem a b)

  pub add_checked_exact :
      (a b : ℕ) {c : ℕ} → add_checked a b ≡ ok c → (c ≡ a + b) × (a + b < 2 ^ 256)
  unfolding add_checked
  add_checked_exact a b h = ground (arith, x.add_overflow_lem a b)

  pub fits_existing_exact :
      (limit spent reserved : ℕ)
      → limit < 2 ^ 256
      → (fits_existing limit spent reserved ≡ true) ↔ (spent + reserved ≤ limit)
  unfolding fits_existing
  fits_existing_exact limit spent reserved h = ground (arith, x.sub_lem limit spent)

  pub has_capacity_exact :
      (limit spent reserved requested : ℕ)
      → limit < 2 ^ 256
      → (has_capacity limit spent reserved requested ≡ true)
        ↔ (spent + reserved + requested ≤ limit)
  unfolding has_capacity
  has_capacity_exact limit spent reserved requested h =
      ground (arith, x.sub_lem limit spent, x.sub_lem (x.sub limit spent) reserved)

  -- For a balance that fits 256 bits, the test holds exactly if the balance covers the emergency
  -- reserve, what is reserved and the amount.
  pub sponsor_has_capacity_exact :
      (balance emergency reserved requested : ℕ)
      → balance < 2 ^ 256
      → (sponsor_has_capacity balance emergency reserved requested ≡ true)
        ↔ (emergency + reserved + requested ≤ balance)
  unfolding sponsor_has_capacity
  sponsor_has_capacity_exact balance emergency reserved requested h =
      ground (arith, x.sub_lem balance emergency, x.sub_lem (x.sub balance emergency) reserved)

  pub remaining_of_exact :
      (limit spent reserved : ℕ) {n : ℕ}
      → limit < 2 ^ 256
      → remaining_of limit spent reserved ≡ some n
      → spent + reserved + n ≡ limit
  unfolding remaining_of
  remaining_of_exact limit spent reserved h e =
      ground (arith, x.sub_lem limit spent, x.sub_lem (x.sub limit spent) reserved)

  -- The price of a quote on every branch: invalid without gas or fee, an overflow where gas times
  -- fee plus overhead does not fit 256 bits, that cost where no maximum is stated, invalid where the
  -- stated maximum is below it, and else the stated maximum.
  pub maximum_cost_lem :
      (q : CostQuote) (overhead : ℕ)
      → let cost = q.gas_limit * q.max_fee_per_gas + overhead in
        maximum_cost q overhead ≡ (
          if q.gas_limit == 0 || q.max_fee_per_gas == 0
          then err invalid_request
          else if leb (2 ^ 256) cost
          then err arithmetic_overflow
          else if q.maximum_cost == 0
          then ok cost
          else if ltb q.maximum_cost cost
          then err invalid_request
          else ok q.maximum_cost)
  unfolding maximum_cost
  maximum_cost_lem q overhead = ground (
    arith,
    mul_pos q.gas_limit q.max_fee_per_gas,
    x.mul_overflow_lem q.gas_limit q.max_fee_per_gas,
    x.add_overflow_lem (x.mul_overflow q.gas_limit q.max_fee_per_gas).0 overhead,
  )
