-- ===== src/Tests/Budget.antt =====
-- A small ledger: one network, one reservation, and its life.
use guard_daemon.Prelude.{
  ℕ, ◌+◌, ◌*◌, ◌^◌, ◌<◌, ltb, ◌≤◌, ◌≡◌, ◌⊎◌, refl, Bool, true, false, some, [], ◌∷◌, arith,
  be_bytes, be_value, read_field, ℕ_discrete,
}
use guard_daemon.Instant.{second, zero_time}
use guard_daemon.Budget.Types.{
  Result, ok, err, Limits, NetworkPolicy, ReservationRequest, Reservation, committed, released,
  RequestFits, ReservationFits, Reservation-discrete, ReservationState-discrete,
}
use guard_daemon.Budget.Cost.{
  maximum_cost, add_checked, fits_existing, scope_within_limits, has_capacity, check_scope_budget,
  sponsor_has_capacity, or_corrupt,
}
use guard_daemon.Budget.Codec.{
  encode_uint32, id_key, valid_persistent_time, append_time, read_time, decode_stored_time,
  attempt_key, decode_attempt_key, same_reservation_request, append_uint256, read_uint256,
  new_reservation_id, encode_fields, encode_reservation, read_quote, read_request, read_reservation,
  decode_parts, decode_reservation,
}
use guard_daemon.Budget.State.{
  Ledger, State, Context, live, last_seen_key, context_error, public_error, public, begin,
  observed_now, within_observed_skew, find_network, network_of, valid_network_policy, valid_attempt,
  last_seen, effective_now, validate_request, valid_exposure, is_unexposed, valid_state,
  validate_reservation, reservation_by_id,
}
use guard_daemon.Budget.Usage.{
  AggregateUsage, empty_usage, add_if, tally_state, check_row, tally, collect_rows, check_attempt,
  check_attempts, networks_within, collect_usage,
}
use guard_daemon.Budget.Operations.{
  expose, settle, release, store_reservation, admit, reopen, reserve_existing, or_full, make_room,
  hold_new, reserve_new, reserve_tx, reserve, transition_now, write_back, transition_tx, transition,
  mark_exposed, commit_finalized, release_proven_unused,
}
use mathlib.Core.Path.{subst}
use mathlib.Core.Option.{some-injective}
use guard_daemon.Budget.Cost.Scope.{LimitsFit}
use guard_daemon.Budget.Usage.Sums.{
  Counter, counter, Scope, everything, only, usage_of, recorded, sponsor_recorded,
}
use guard_daemon.Budget.Usage.Collected.{
  LedgerFits, RecordedWithin, collect_usage-global, collect_usage-network, collect_usage-sums,
}
use guard_daemon.Budget.Usage.Overruns.{overruns}
use guard_daemon.Budget.Operations.Reserve.{Outcome}
use guard_daemon.Budget.Operations.Reserved.{reserve-Outcome}
use guard_daemon.Budget.Operations.Moves.{FileFits}
use guard_daemon.Tests.World.{world}

abbrev pub start_time : ℕ
start_time = (2 ^ 63 + 1_000_000) * second

abbrev pub small_limits : Limits
small_limits = record { per_transaction = 1000; per_hour = 2000; per_day = 3000; cumulative = 4000 }

abbrev pub main_network : NetworkPolicy
main_network = record {
  network = 1;
  sponsor = 77;
  limits = small_limits;
  transaction_overhead = 50;
  emergency_sponsor_reserve = 100;
  allow_fee_overrun = false;
}

abbrev pub small_ledger : Ledger
small_ledger = record {
  policy = record { global = small_limits; networks = main_network ∷ [] };
  networks = main_network ∷ [];
  max_records = 8;
}

abbrev pub live_context : Context
live_context = record { entry = live; inside = live }

abbrev pub first_request : ReservationRequest
first_request = record {
  network = 1;
  sponsor = 77;
  candidate = 5;
  attempt = record { incident = 9; number = 1 };
  quote = record { gas_limit = 10; max_fee_per_gas = 20; maximum_cost = 0 };
  sponsor_balance = 5000;
  observed_at = zero_time;
}

unfoldable pub empty_file : State
unfolding append_time be_bytes
empty_file = record {
  is_closed = false;
  meta = (last_seen_key, append_time [] start_time) ∷ [];
  reservations = [];
  attempts = [];
}

abbrev pub no_reservation : Reservation
no_reservation = record {
  id = 0;
  request = first_request;
  maximum = 0;
  state = released;
  tx_hash = 0;
  actual = 0;
  created_at = zero_time;
  exposed_at = zero_time;
  updated_at = zero_time;
}

-- The result of a call, or a dummy where it failed.
abbrev pub value_of : Result (Reservation × State) → Reservation × State
value_of (ok p) = p
value_of (err e) = (no_reservation, empty_file)

abbrev pub is_ok : Result (Reservation × State) → Bool
is_ok (ok p) = true
is_ok (err e) = false

pub is_ok-eq :
    (m : Result (Reservation × State)) → is_ok m ≡ true → m ≡ ok ((value_of m).0, (value_of m).1)
is_ok-eq (ok (r, st)) h = refl
is_ok-eq (err e) h = ground arith

unfoldable pub reserved : Result (Reservation × State)
reserved = reserve ⦃x = world⦄ small_ledger live_context start_time first_request empty_file

pub reserved_ok : is_ok reserved ≡ true
unfolding reserved empty_file be_bytes be_value read_field maximum_cost add_checked fits_existing
    scope_within_limits has_capacity check_scope_budget sponsor_has_capacity or_corrupt
    encode_uint32 id_key valid_persistent_time append_time read_time decode_stored_time attempt_key
    decode_attempt_key same_reservation_request append_uint256 read_uint256 new_reservation_id
    encode_fields encode_reservation read_quote read_request read_reservation decode_parts
    decode_reservation context_error public_error public begin observed_now within_observed_skew
    find_network network_of valid_network_policy valid_attempt last_seen effective_now
    validate_request valid_exposure is_unexposed valid_state validate_reservation reservation_by_id
    add_if tally_state check_row tally collect_rows check_attempt check_attempts networks_within
    collect_usage expose settle release store_reservation admit reopen reserve_existing or_full
    make_room hold_new reserve_new reserve_tx reserve transition_now write_back transition_tx
    transition mark_exposed commit_finalized release_proven_unused
reserved_ok = refl

pub small_limits_fit : LimitsFit small_limits
small_limits_fit = record {
  per_transaction = omega arith;
  per_hour = omega arith;
  per_day = omega arith;
  cumulative = omega arith;
}

pub main_limits :
    (id : ℕ) (n : NetworkPolicy)
    → find_network id small_ledger.networks ≡ some n
    → small_limits ≡ n.limits
unfolding find_network
main_limits id n e = ground arith

pub small_ledger_fits : LedgerFits small_ledger
small_ledger_fits = record {
  global = small_limits_fit;
  networks = λ id n e. subst LimitsFit (main_limits id n e) small_limits_fit;
}

pub first_request_fits : RequestFits first_request
first_request_fits = record {
  network = omega arith;
  sponsor = omega arith;
  candidate = omega arith;
  incident = omega arith;
  number = omega arith;
  quote = record {
    gas_limit = omega arith;
    max_fee_per_gas = omega arith;
    maximum_cost = omega arith;
  };
  sponsor_balance = omega arith;
  observed_at = (omega arith, omega arith);
}

abbrev pub held_state : State
held_state = (value_of reserved).1

abbrev pub held_reservation : Reservation
held_reservation = (value_of reserved).0

reserve-Outcome_example :
    (t : ℕ) × (start_time ≤ t)
    × Outcome ⦃x = world⦄ small_ledger first_request t empty_file held_reservation held_state
unfolding reserved
reserve-Outcome_example =
    reserve-Outcome ⦃x = world⦄ small_ledger live_context start_time first_request empty_file
      small_ledger_fits first_request_fits (omega arith) (is_ok-eq reserved reserved_ok)

pub held_reservation_fits : ReservationFits held_reservation
unfolding reserved empty_file be_bytes be_value read_field maximum_cost add_checked fits_existing
    scope_within_limits has_capacity check_scope_budget sponsor_has_capacity or_corrupt
    encode_uint32 id_key valid_persistent_time append_time read_time decode_stored_time attempt_key
    decode_attempt_key same_reservation_request append_uint256 read_uint256 new_reservation_id
    encode_fields encode_reservation read_quote read_request read_reservation decode_parts
    decode_reservation context_error public_error public begin observed_now within_observed_skew
    find_network network_of valid_network_policy valid_attempt last_seen effective_now
    validate_request valid_exposure is_unexposed valid_state validate_reservation reservation_by_id
    add_if tally_state check_row tally collect_rows check_attempt check_attempts networks_within
    collect_usage expose settle release store_reservation admit reopen reserve_existing or_full
    make_room hold_new reserve_new reserve_tx reserve transition_now write_back transition_tx
    transition mark_exposed commit_finalized release_proven_unused
held_reservation_fits = record {
  id = omega arith;
  request = first_request_fits;
  maximum = omega arith;
  state = (omega arith, refl);
  tx_hash = omega arith;
  actual = omega arith;
  created_at = (omega arith, omega arith);
  exposed_at = (omega arith, omega arith);
  updated_at = (omega arith, omega arith);
}

pub held_state_fits : FileFits ⦃x = world⦄ held_state
unfolding reserved empty_file be_bytes be_value read_field maximum_cost add_checked fits_existing
    scope_within_limits has_capacity check_scope_budget sponsor_has_capacity or_corrupt
    encode_uint32 id_key valid_persistent_time append_time read_time decode_stored_time attempt_key
    decode_attempt_key same_reservation_request append_uint256 read_uint256 new_reservation_id
    encode_fields encode_reservation read_quote read_request read_reservation decode_parts
    decode_reservation context_error public_error public begin observed_now within_observed_skew
    find_network network_of valid_network_policy valid_attempt last_seen effective_now
    validate_request valid_exposure is_unexposed valid_state validate_reservation reservation_by_id
    add_if tally_state check_row tally collect_rows check_attempt check_attempts networks_within
    collect_usage expose settle release store_reservation admit reopen reserve_existing or_full
    make_room hold_new reserve_new reserve_tx reserve transition_now write_back transition_tx
    transition mark_exposed commit_finalized release_proven_unused
held_state_fits = (λ r e. subst ReservationFits (some-injective _ r e) held_reservation_fits, tt)

abbrev pub held_id : ℕ
held_id = 38654705665

abbrev pub spent_record : Reservation
spent_record = record {
  id = held_id;
  request = first_request;
  maximum = 250;
  state = committed;
  tx_hash = 444;
  actual = 210;
  created_at = start_time;
  exposed_at = start_time + 5 * second;
  updated_at = start_time + 6 * second;
}

pub spent_record_fits : ReservationFits spent_record
spent_record_fits = record {
  id = omega arith;
  request = first_request_fits;
  maximum = omega arith;
  state = (omega arith, refl);
  tx_hash = omega arith;
  actual = omega arith;
  created_at = (omega arith, omega arith);
  exposed_at = (omega arith, omega arith);
  updated_at = (omega arith, omega arith);
}

usage_of_held : Result AggregateUsage
usage_of_held = collect_usage ⦃x = world⦄ small_ledger start_time held_state

abbrev usage_or_none : Result AggregateUsage → AggregateUsage
usage_or_none (ok u) = u
usage_or_none (err e) = empty_usage

abbrev has_usage : Result AggregateUsage → Bool
has_usage (ok u) = true
has_usage (err e) = false

has_usage-eq : (m : Result AggregateUsage) → has_usage m ≡ true → m ≡ ok (usage_or_none m)
has_usage-eq (ok u) h = refl
has_usage-eq (err e) h = ground arith

usage_of_held_ok : has_usage usage_of_held ≡ true
unfolding usage_of_held reserved empty_file be_bytes be_value read_field maximum_cost add_checked
    fits_existing scope_within_limits has_capacity check_scope_budget sponsor_has_capacity
    or_corrupt encode_uint32 id_key valid_persistent_time append_time read_time decode_stored_time
    attempt_key decode_attempt_key same_reservation_request append_uint256 read_uint256
    new_reservation_id encode_fields encode_reservation read_quote read_request read_reservation
    decode_parts decode_reservation context_error public_error public begin observed_now
    within_observed_skew find_network network_of valid_network_policy valid_attempt last_seen
    effective_now validate_request valid_exposure is_unexposed valid_state validate_reservation
    reservation_by_id add_if tally_state check_row tally collect_rows check_attempt check_attempts
    networks_within collect_usage expose settle release store_reservation admit reopen
    reserve_existing or_full make_room hold_new reserve_new reserve_tx reserve transition_now
    write_back transition_tx transition mark_exposed commit_finalized release_proven_unused
    Reservation-discrete ReservationState-discrete ℕ_discrete
usage_of_held_ok = refl

abbrev held_usage : AggregateUsage
held_usage = usage_or_none usage_of_held

collect_usage-global_example :
    (0 < overruns ⦃x = world⦄ everything held_state)
    ⊎ RecordedWithin ⦃x = world⦄ small_limits everything start_time held_state
unfolding usage_of_held
collect_usage-global_example =
    collect_usage-global ⦃x = world⦄ small_ledger start_time held_state small_ledger_fits
      (has_usage-eq usage_of_held usage_of_held_ok)

main_found : find_network 1 small_ledger.networks ≡ some main_network
unfolding find_network
main_found = refl

collect_usage-network_example :
    (0 < overruns ⦃x = world⦄ (only 1) held_state)
    ⊎ RecordedWithin ⦃x = world⦄ small_limits (only 1) start_time held_state
unfolding usage_of_held
collect_usage-network_example =
    collect_usage-network ⦃x = world⦄ small_ledger start_time 1 held_state {n = main_network}
      small_ledger_fits main_found (has_usage-eq usage_of_held usage_of_held_ok)

collect_usage-sums_example :
    ((sc : Scope) (c : Counter)
      → counter c (usage_of sc held_usage) ≡ recorded ⦃x = world⦄ sc c start_time held_state)
    × ((m t : ℕ) → held_usage.sponsors m t ≡ sponsor_recorded ⦃x = world⦄ m t held_state)
    × ((sc : Scope)
        → (usage_of sc held_usage).fee_overrun ≡ ltb 0 (overruns ⦃x = world⦄ sc held_state))
unfolding usage_of_held
collect_usage-sums_example =
    collect_usage-sums ⦃x = world⦄ small_ledger start_time held_state
      (has_usage-eq usage_of_held usage_of_held_ok)
