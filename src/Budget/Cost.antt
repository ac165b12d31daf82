-- ===== src/Budget/Cost.antt =====
-- Limits, capacity tests and the price of a quote (internal/budget/ledger.go from `addChecked` on,
-- `validateLimits`, and `CostQuote.Maximum` and `Blocked` of interfaces.go).
pub mod Capacity
pub mod Scope
use guard_daemon.Prelude.{
  ℕ, Bool, true, false, not, ◌&&◌, ◌||◌, Option, none, some, ltb, leb, ◌==◌, if◌then◌else◌,
}
use guard_daemon.External.{External}
use guard_daemon.Budget.Types.{
  Result, ok, err, ◌>>=◌, ◌>>◌, fail_if, invalid_options, invalid_request, arithmetic_overflow,
  budget_exceeded, corrupt, Limits, CostQuote, Totals, ScopeSnapshot,
}

-- `scopeUsage`; its zero value.
pub record ScopeUsage : Type 0 where
  pub fee_overrun : Bool
  pub reserved : ℕ
  pub hour_spent : ℕ
  pub day_spent : ℕ
  pub all_spent : ℕ

abbrev pub no_usage : ScopeUsage
no_usage = record {
  fee_overrun = false;
  reserved = 0;
  hour_spent = 0;
  day_spent = 0;
  all_spent = 0;
}

pub validate_limits : Limits → Result (Unit {0})
validate_limits l =
    fail_if
      (l.per_transaction == 0
        || l.per_hour == 0
        || l.per_day == 0
        || l.cumulative == 0
        || ltb l.per_hour l.per_transaction
        || ltb l.per_day l.per_hour
        || ltb l.cumulative l.per_day)
      invalid_options

abbrev no_totals : Totals
no_totals = record { per_hour = 0; per_day = 0; cumulative = 0 }

unfoldable pub blocked : ScopeSnapshot → Bool
blocked s = s.remaining.per_hour == 0 || s.remaining.per_day == 0 || s.remaining.cumulative == 0

module _ ⦃x : External⦄ where
  -- `CostQuote.Maximum`.
  unfoldable pub maximum_cost : CostQuote → ℕ → Result ℕ
  maximum_cost q overhead = do
    fail_if (q.gas_limit == 0 || q.max_fee_per_gas == 0) invalid_request
    let gas_cost = x.mul_overflow q.gas_limit q.max_fee_per_gas
    fail_if gas_cost.1 arithmetic_overflow
    let maximum = x.add_overflow gas_cost.0 overhead
    fail_if (maximum.1 || maximum.0 == 0) arithmetic_overflow
    if q.maximum_cost == 0
        then ok maximum.0
        else (fail_if (ltb q.maximum_cost maximum.0) invalid_request >> ok q.maximum_cost)

  unfoldable pub add_checked : ℕ → ℕ → Result ℕ
  add_checked target value =
      let sum = x.add_overflow target value in if sum.1 then err arithmetic_overflow else ok sum.0

  unfoldable pub fits_existing : ℕ → ℕ → ℕ → Bool
  fits_existing limit spent reserved =
      if ltb limit spent then false else not (ltb (x.sub limit spent) reserved)

  unfoldable pub scope_within_limits : Limits → ScopeUsage → Bool
  unfolding fits_existing
  scope_within_limits l u =
      if u.fee_overrun
      then true
      else fits_existing l.per_hour u.hour_spent u.reserved
        && fits_existing l.per_day u.day_spent u.reserved
        && fits_existing l.cumulative u.all_spent u.reserved

  unfoldable pub has_capacity : ℕ → ℕ → ℕ → ℕ → Bool
  has_capacity limit spent reserved requested =
      if ltb limit spent
      then false
      else let remaining = x.sub limit spent in
        if ltb remaining reserved then false else not (ltb (x.sub remaining reserved) requested)

  unfoldable pub check_scope_budget : Limits → ScopeUsage → ℕ → Result (Unit {0})
  check_scope_budget l u maximum =
      fail_if
        (u.fee_overrun
          || ltb l.per_transaction maximum
          || not (has_capacity l.per_hour u.hour_spent u.reserved maximum)
          || not (has_capacity l.per_day u.day_spent u.reserved maximum)
          || not (has_capacity l.cumulative u.all_spent u.reserved maximum))
        budget_exceeded

  unfoldable pub sponsor_has_capacity : ℕ → ℕ → ℕ → ℕ → Bool
  sponsor_has_capacity balance emergency reserved requested =
      if ltb balance emergency
      then false
      else let remaining = x.sub balance emergency in
        if ltb remaining reserved then false else not (ltb (x.sub remaining reserved) requested)

  -- `remaining`: `none` is the second result `false`.
  unfoldable pub remaining_of : ℕ → ℕ → ℕ → Option ℕ
  remaining_of limit spent reserved =
      if ltb limit spent
      then none
      else let result = x.sub limit spent in
        if ltb result reserved then none else some (x.sub result reserved)

  unfoldable pub or_corrupt : Option ℕ → Result ℕ
  or_corrupt none = err corrupt
  or_corrupt (some n) = ok n

  unfoldable pub make_scope_snapshot : Limits → ScopeUsage → Result ScopeSnapshot
  unfolding or_corrupt
  make_scope_snapshot l u =
      let spent : Totals = record {
        per_hour = u.hour_spent;
        per_day = u.day_spent;
        cumulative = u.all_spent;
      } in
      let reserved : Totals = record {
        per_hour = u.reserved;
        per_day = u.reserved;
        cumulative = u.reserved;
      } in
      let bounded : Result ScopeSnapshot = do
        hour ← or_corrupt (remaining_of l.per_hour u.hour_spent u.reserved)
        day ← or_corrupt (remaining_of l.per_day u.day_spent u.reserved)
        all ← or_corrupt (remaining_of l.cumulative u.all_spent u.reserved)
        ok (record {
          spent = spent;
          reserved = reserved;
          remaining = record { per_hour = hour; per_day = day; cumulative = all };
        })
      in if u.fee_overrun
        then ok (record { spent = spent; reserved = reserved; remaining = no_totals })
        else bounded
