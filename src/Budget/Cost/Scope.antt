-- ===== src/Budget/Cost/Scope.antt =====
-- What a passed budget check means for one scope (the global one or a network).
use guard_daemon.Prelude.{ℕ, ◌+◌, ◌^◌, ◌≤◌, ◌<◌, ◌≡◌, ◌↔◌, true, false, ◌⊎◌, arith}
use guard_daemon.External.{External}
use guard_daemon.Budget.Types.{ok, err, budget_exceeded, Limits, ScopeSnapshot}
use guard_daemon.Budget.Cost.{
  ScopeUsage, scope_within_limits, check_scope_budget, make_scope_snapshot, blocked,
  validate_limits,
}
use guard_daemon.Budget.Cost.Capacity.{fits_existing_exact, has_capacity_exact, remaining_of_exact}

pub record LimitsFit (l : Limits) : Type 0 where
  pub per_transaction : l.per_transaction < 2 ^ 256
  pub per_hour : l.per_hour < 2 ^ 256
  pub per_day : l.per_day < 2 ^ 256
  pub cumulative : l.cumulative < 2 ^ 256

-- Spent and reserved amounts stay within each limit.
pub record WithinLimits (l : Limits) (reserved hour day all : ℕ) : Type 0 where
  pub per_hour : hour + reserved ≤ l.per_hour
  pub per_day : day + reserved ≤ l.per_day
  pub cumulative : all + reserved ≤ l.cumulative

abbrev pub UsageWithin : Limits → ScopeUsage → Type 0
UsageWithin l u = WithinLimits l u.reserved u.hour_spent u.day_spent u.all_spent

-- A policy's limits are accepted exactly if none is 0 and they rise from the transaction on.
pub validate_limits_iff :
    (l : Limits)
    → (validate_limits l ≡ ok tt) ↔ (
        (0 < l.per_transaction)
        × (l.per_transaction ≤ l.per_hour)
        × (l.per_hour ≤ l.per_day)
        × (l.per_day ≤ l.cumulative))
unfolding validate_limits
validate_limits_iff l = ground arith

module _ ⦃x : External⦄ where
  pub scope_within_limits_exact :
      (l : Limits) (u : ScopeUsage)
      → LimitsFit l
      → (scope_within_limits l u ≡ true) ↔ ((u.fee_overrun ≡ true) ⊎ UsageWithin l u)
  unfolding scope_within_limits
  scope_within_limits_exact l u f = ground (
    arith,
    fits_existing_exact l.per_hour u.hour_spent u.reserved f.per_hour,
    fits_existing_exact l.per_day u.day_spent u.reserved f.per_day,
    fits_existing_exact l.cumulative u.all_spent u.reserved f.cumulative,
  )

  -- For limits that fit 256 bits, `checkScopeBudget` accepts an amount exactly if the scope has no
  -- overrun, the amount is within the limit of a transaction, and with it the rest is within limits.
  pub check_scope_budget_exact :
      (l : Limits) (u : ScopeUsage) (maximum : ℕ)
      → LimitsFit l
      → (check_scope_budget l u maximum ≡ ok tt) ↔ (
          (u.fee_overrun ≡ false)
          × (maximum ≤ l.per_transaction)
          × WithinLimits l (u.reserved + maximum) u.hour_spent u.day_spent u.all_spent)
  unfolding check_scope_budget
  check_scope_budget_exact l u maximum f = ground (
    arith,
    has_capacity_exact l.per_hour u.hour_spent u.reserved maximum f.per_hour,
    has_capacity_exact l.per_day u.day_spent u.reserved maximum f.per_day,
    has_capacity_exact l.cumulative u.all_spent u.reserved maximum f.cumulative,
  )

  pub check_scope_budget-fails :
      (l : Limits) (u : ScopeUsage) (maximum : ℕ)
      → (check_scope_budget l u maximum ≡ ok tt)
        ⊎ (check_scope_budget l u maximum ≡ err budget_exceeded)
  unfolding check_scope_budget
  check_scope_budget-fails l u maximum = ground arith

  -- For limits that fit 256 bits, a snapshot of a scope with no overrun adds up to each limit:
  -- spent, reserved and remaining.
  pub make_scope_snapshot_adds_up :
      (l : Limits) (u : ScopeUsage) {s : ScopeSnapshot}
      → LimitsFit l
      → u.fee_overrun ≡ false
      → make_scope_snapshot l u ≡ ok s
      → (s.spent.per_hour + s.reserved.per_hour + s.remaining.per_hour ≡ l.per_hour)
        × (s.spent.per_day + s.reserved.per_day + s.remaining.per_day ≡ l.per_day)
        × (s.spent.cumulative + s.reserved.cumulative + s.remaining.cumulative ≡ l.cumulative)
  unfolding make_scope_snapshot
  make_scope_snapshot_adds_up l u {s} f o e = ground (
    arith,
    remaining_of_exact l.per_hour u.hour_spent u.reserved {n = s.remaining.per_hour} f.per_hour,
    remaining_of_exact l.per_day u.day_spent u.reserved {n = s.remaining.per_day} f.per_day,
    remaining_of_exact l.cumulative u.all_spent u.reserved {n = s.remaining.cumulative}
        f.cumulative,
  )

  -- For limits that fit 256 bits, a scope whose snapshot reports `Blocked` refuses every positive
  -- amount as over budget.
  pub blocked_refuses :
      (l : Limits) (u : ScopeUsage) (maximum : ℕ) {s : ScopeSnapshot}
      → LimitsFit l
      → make_scope_snapshot l u ≡ ok s
      → blocked s ≡ true
      → 0 < maximum
      → check_scope_budget l u maximum ≡ err budget_exceeded
  unfolding make_scope_snapshot blocked
  blocked_refuses l u maximum {s} f e b p = ground (
    arith,
    remaining_of_exact l.per_hour u.hour_spent u.reserved {n = s.remaining.per_hour} f.per_hour,
    remaining_of_exact l.per_day u.day_spent u.reserved {n = s.remaining.per_day} f.per_day,
    remaining_of_exact l.cumulative u.all_spent u.reserved {n = s.remaining.cumulative}
        f.cumulative,
    check_scope_budget_exact l u maximum f,
    check_scope_budget-fails l u maximum,
  )
