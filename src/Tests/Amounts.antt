-- ===== src/Tests/Amounts.antt =====
-- Prices, limits, records and times at small numbers.
use guard_daemon.Prelude.{◌+◌, ◌<◌, ◌≤◌, ◌≡◌, ◌↔◌, refl, true, false, some, [], arith}
use guard_daemon.Budget.Types.{ok, err, CostQuote, ScopeSnapshot, budget_exceeded}
use guard_daemon.Budget.Cost.{
  ScopeUsage, validate_limits, maximum_cost, check_scope_budget, sponsor_has_capacity,
  make_scope_snapshot, blocked, remaining_of, or_corrupt,
}
use guard_daemon.Budget.Cost.Capacity.{maximum_cost_lem, sponsor_has_capacity_exact}
use guard_daemon.Budget.Cost.Scope.{
  WithinLimits, validate_limits_iff, check_scope_budget_exact, make_scope_snapshot_adds_up,
  blocked_refuses,
}
use guard_daemon.Budget.Codec.{
  append_time, decode_stored_time, valid_persistent_time, attempt_key, decode_attempt_key,
  encode_fields, encode_reservation, decode_reservation,
}
use guard_daemon.Budget.Codec.RoundTrip.{
  decode_reservation-encode_reservation, decode_attempt_key-attempt_key,
  decode_stored_time-append_time,
}
use guard_daemon.Budget.Operations.Lifecycle.{stay, Step-committed}
use guard_daemon.Tests.World.{world}
use guard_daemon.Tests.Budget.{
  start_time, small_limits, small_limits_fit, small_ledger, spent_record, spent_record_fits,
}

abbrev some_usage : ScopeUsage
some_usage = record {
  reserved = 300;
  hour_spent = 100;
  day_spent = 200;
  all_spent = 400;
  fee_overrun = false;
}

abbrev plain_quote : CostQuote
plain_quote = record { gas_limit = 10; max_fee_per_gas = 20; maximum_cost = 0 }

maximum_cost_lem_example : maximum_cost ⦃x = world⦄ plain_quote 50 ≡ ok 250
maximum_cost_lem_example = maximum_cost_lem ⦃x = world⦄ plain_quote 50

sponsor_has_capacity_exact_example :
    (sponsor_has_capacity ⦃x = world⦄ 5000 100 300 250 ≡ true) ↔ (100 + 300 + 250 ≤ 5000)
sponsor_has_capacity_exact_example =
    sponsor_has_capacity_exact ⦃x = world⦄ 5000 100 300 250 (omega arith)

validate_limits_iff_example :
    (validate_limits small_limits ≡ ok tt)
    ↔ ((0 < 1000) × (1000 ≤ 2000) × (2000 ≤ 3000) × (3000 ≤ 4000))
validate_limits_iff_example = validate_limits_iff small_limits

check_scope_budget_exact_example :
    (check_scope_budget ⦃x = world⦄ small_limits some_usage 250 ≡ ok tt)
    ↔ ((false ≡ false) × (250 ≤ 1000) × WithinLimits small_limits (300 + 250) 100 200 400)
check_scope_budget_exact_example =
    check_scope_budget_exact ⦃x = world⦄ small_limits some_usage 250 small_limits_fit

abbrev some_snapshot : ScopeSnapshot
some_snapshot = record {
  spent = record { per_hour = 100; per_day = 200; cumulative = 400 };
  reserved = record { per_hour = 300; per_day = 300; cumulative = 300 };
  remaining = record { per_hour = 1600; per_day = 2500; cumulative = 3300 };
}

some_snapshot_eq : make_scope_snapshot ⦃x = world⦄ small_limits some_usage ≡ ok some_snapshot
unfolding make_scope_snapshot remaining_of or_corrupt
some_snapshot_eq = refl

make_scope_snapshot_adds_up_example :
    (100 + 300 + 1600 ≡ 2000) × (200 + 300 + 2500 ≡ 3000) × (400 + 300 + 3300 ≡ 4000)
make_scope_snapshot_adds_up_example =
    make_scope_snapshot_adds_up ⦃x = world⦄ small_limits some_usage small_limits_fit refl
      some_snapshot_eq

abbrev full_usage : ScopeUsage
full_usage = record {
  reserved = 1000;
  hour_spent = 1000;
  day_spent = 1000;
  all_spent = 1000;
  fee_overrun = false;
}

abbrev full_snapshot : ScopeSnapshot
full_snapshot = record {
  spent = record { per_hour = 1000; per_day = 1000; cumulative = 1000 };
  reserved = record { per_hour = 1000; per_day = 1000; cumulative = 1000 };
  remaining = record { per_hour = 0; per_day = 1000; cumulative = 2000 };
}

full_snapshot_eq : make_scope_snapshot ⦃x = world⦄ small_limits full_usage ≡ ok full_snapshot
unfolding make_scope_snapshot remaining_of or_corrupt
full_snapshot_eq = refl

full_snapshot-blocked : blocked full_snapshot ≡ true
unfolding blocked
full_snapshot-blocked = refl

blocked_refuses_example :
    check_scope_budget ⦃x = world⦄ small_limits full_usage 1 ≡ err budget_exceeded
blocked_refuses_example =
    blocked_refuses ⦃x = world⦄ small_limits full_usage 1 small_limits_fit full_snapshot_eq
      full_snapshot-blocked (omega arith)

decode_attempt_key-attempt_key_example :
    decode_attempt_key (attempt_key (record { incident = 9; number = 1 }))
    ≡ some (record { incident = 9; number = 1 })
decode_attempt_key-attempt_key_example =
    decode_attempt_key-attempt_key (record { incident = 9; number = 1 }) (omega arith) (omega arith)

start_valid : valid_persistent_time start_time ≡ true
unfolding valid_persistent_time
start_valid = refl

decode_stored_time-append_time_example :
    decode_stored_time (some (append_time [] start_time)) ≡ ok start_time
decode_stored_time-append_time_example =
    decode_stored_time-append_time start_time (omega arith) start_valid

spent_record_written :
    encode_reservation ⦃x = world⦄ spent_record ≡ ok (encode_fields ⦃x = world⦄ spent_record)
unfolding encode_reservation valid_persistent_time
spent_record_written = refl

decode_reservation-encode_reservation_example :
    decode_reservation ⦃x = world⦄ (encode_fields ⦃x = world⦄ spent_record) ≡ some spent_record
decode_reservation-encode_reservation_example =
    decode_reservation-encode_reservation ⦃x = world⦄ spent_record spent_record_fits
      spent_record_written

Step-committed_example : spent_record ≡ spent_record
Step-committed_example = Step-committed small_ledger start_time {r = spent_record} stay refl
