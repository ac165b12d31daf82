-- ===== src/Tests/Transitions.antt =====
-- The life of the reservation of the small ledger.
use guard_daemon.Prelude.{
  ℕ, ◌+◌, ◌*◌, ◌≤◌, ◌≡◌, refl, true, false, arith, be_bytes, be_value, read_field, ℕ_discrete,
}
use guard_daemon.Instant.{second}
use guard_daemon.Budget.Types.{
  Result, Reservation, committed, released, FinalizedCharge, Reservation-discrete,
  ReservationState-discrete,
}
use guard_daemon.Budget.Cost.{
  maximum_cost, add_checked, fits_existing, scope_within_limits, has_capacity, check_scope_budget,
  sponsor_has_capacity, or_corrupt,
}
use guard_daemon.Budget.Codec.{
  encode_uint32, id_key, valid_persistent_time, append_time, read_time, decode_stored_time,
  attempt_key, decode_attempt_key, same_reservation_request, append_uint256, read_uint256,
  new_reservation_id, encode_fields, encode_reservation, read_quote, read_request, read_reservation,
  decode_parts, decode_reservation,
}
use guard_daemon.Budget.State.{
  State, context_error, public_error, public, begin, observed_now, within_observed_skew,
  find_network, network_of, valid_network_policy, valid_attempt, last_seen, effective_now,
  validate_request, valid_exposure, is_unexposed, valid_state, validate_reservation,
  reservation_by_id,
}
use guard_daemon.Budget.Usage.{
  add_if, tally_state, check_row, tally, collect_rows, check_attempt, check_attempts,
  networks_within, collect_usage,
}
use guard_daemon.Budget.Operations.{
  expose, settle, release, store_reservation, admit, reopen, reserve_existing, or_full, make_room,
  hold_new, reserve_new, reserve_tx, reserve, transition_now, write_back, transition_tx, transition,
  mark_exposed, commit_finalized, release_proven_unused,
}
use guard_daemon.Budget.Usage.Sums.{Counter, all_spent, Scope, recorded}
use guard_daemon.Budget.Operations.Moves.{
  FileFits, Stepped, mark_exposed-Stepped, commit_finalized-Stepped, release_proven_unused-Stepped,
}
use guard_daemon.Budget.Operations.Sums.{marks, perform, perform-sums}
use guard_daemon.Tests.World.{world}
use guard_daemon.Tests.Budget.{
  start_time, small_ledger, live_context, empty_file, value_of, is_ok, is_ok-eq, held_state,
  held_state_fits, held_id, reserved,
}

exposed_result : Result (Reservation × State)
exposed_result =
    mark_exposed ⦃x = world⦄ small_ledger live_context (start_time + 5 * second) held_id 444
      held_state

exposed_ok : is_ok exposed_result ≡ true
unfolding exposed_result reserved empty_file be_bytes be_value read_field maximum_cost add_checked
    fits_existing scope_within_limits has_capacity check_scope_budget sponsor_has_capacity
    or_corrupt encode_uint32 id_key valid_persistent_time append_time read_time decode_stored_time
    attempt_key decode_attempt_key same_reservation_request append_uint256 read_uint256
    new_reservation_id encode_fields encode_reservation read_quote read_request read_reservation
    decode_parts decode_reservation context_error public_error public begin observed_now
    within_observed_skew find_network network_of valid_network_policy valid_attempt last_seen
    effective_now validate_request valid_exposure is_unexposed valid_state validate_reservation
    reservation_by_id add_if tally_state check_row tally collect_rows check_attempt check_attempts
    networks_within collect_usage expose settle release store_reservation admit reopen
    reserve_existing or_full make_room hold_new reserve_new reserve_tx reserve transition_now
    write_back transition_tx transition mark_exposed commit_finalized release_proven_unused
    Reservation-discrete ReservationState-discrete ℕ_discrete
exposed_ok = refl

abbrev exposed_state : State
exposed_state = (value_of exposed_result).1

abbrev charge : FinalizedCharge
charge = record {
  reservation_id = held_id;
  tx_hash = 444;
  actual = 210;
  observed_at = start_time + 6 * second;
}

settled_result : Result (Reservation × State)
settled_result =
    commit_finalized ⦃x = world⦄ small_ledger live_context (start_time + 6 * second) charge
      exposed_state

settled_ok : is_ok settled_result ≡ true
unfolding settled_result exposed_result reserved empty_file be_bytes be_value read_field
    maximum_cost add_checked fits_existing scope_within_limits has_capacity check_scope_budget
    sponsor_has_capacity or_corrupt encode_uint32 id_key valid_persistent_time append_time read_time
    decode_stored_time attempt_key decode_attempt_key same_reservation_request append_uint256
    read_uint256 new_reservation_id encode_fields encode_reservation read_quote read_request
    read_reservation decode_parts decode_reservation context_error public_error public begin
    observed_now within_observed_skew find_network network_of valid_network_policy valid_attempt
    last_seen effective_now validate_request valid_exposure is_unexposed valid_state
    validate_reservation reservation_by_id add_if tally_state check_row tally collect_rows
    check_attempt check_attempts networks_within collect_usage expose settle release
    store_reservation admit reopen reserve_existing or_full make_room hold_new reserve_new
    reserve_tx reserve transition_now write_back transition_tx transition mark_exposed
    commit_finalized release_proven_unused Reservation-discrete ReservationState-discrete ℕ_discrete
settled_ok = refl

freed_result : Result (Reservation × State)
freed_result =
    release_proven_unused ⦃x = world⦄ small_ledger live_context (start_time + 6 * second) held_id
      held_state

freed_ok : is_ok freed_result ≡ true
unfolding freed_result reserved empty_file be_bytes be_value read_field maximum_cost add_checked
    fits_existing scope_within_limits has_capacity check_scope_budget sponsor_has_capacity
    or_corrupt encode_uint32 id_key valid_persistent_time append_time read_time decode_stored_time
    attempt_key decode_attempt_key same_reservation_request append_uint256 read_uint256
    new_reservation_id encode_fields encode_reservation read_quote read_request read_reservation
    decode_parts decode_reservation context_error public_error public begin observed_now
    within_observed_skew find_network network_of valid_network_policy valid_attempt last_seen
    effective_now validate_request valid_exposure is_unexposed valid_state validate_reservation
    reservation_by_id add_if tally_state check_row tally collect_rows check_attempt check_attempts
    networks_within collect_usage expose settle release store_reservation admit reopen
    reserve_existing or_full make_room hold_new reserve_new reserve_tx reserve transition_now
    write_back transition_tx transition mark_exposed commit_finalized release_proven_unused
    Reservation-discrete ReservationState-discrete ℕ_discrete
freed_ok = refl

mark_exposed-Stepped_example :
    (t : ℕ) × (s : Stepped ⦃x = world⦄ small_ledger held_id t held_state
      (value_of exposed_result).0
      exposed_state)
    × ((value_of exposed_result).0.tx_hash ≡ 444)
    × ((value_of exposed_result).0.actual ≡ s.before.actual)
unfolding exposed_result
mark_exposed-Stepped_example =
    mark_exposed-Stepped ⦃x = world⦄ small_ledger live_context (start_time + 5 * second) held_id 444
      held_state (omega arith) (is_ok-eq exposed_result exposed_ok)

commit_finalized-Stepped_example :
    (t : ℕ) × Stepped ⦃x = world⦄ small_ledger held_id t exposed_state
      (value_of settled_result).0
      (value_of settled_result).1
    × ((value_of settled_result).0.state ≡ committed)
    × ((value_of settled_result).0.tx_hash ≡ 444)
    × ((value_of settled_result).0.actual ≡ 210)
unfolding settled_result
commit_finalized-Stepped_example =
    commit_finalized-Stepped ⦃x = world⦄ small_ledger live_context (start_time + 6 * second) charge
      exposed_state (omega arith) (is_ok-eq settled_result settled_ok)

release_proven_unused-Stepped_example :
    (t : ℕ) × (s : Stepped ⦃x = world⦄ small_ledger held_id t held_state
      (value_of freed_result).0
      (value_of freed_result).1)
    × ((value_of freed_result).0.state ≡ released)
    × ((value_of freed_result).0.tx_hash ≡ s.before.tx_hash)
    × ((value_of freed_result).0.actual ≡ s.before.actual)
unfolding freed_result
release_proven_unused-Stepped_example =
    release_proven_unused-Stepped ⦃x = world⦄ small_ledger live_context (start_time + 6 * second)
      held_id held_state (omega arith) (is_ok-eq freed_result freed_ok)

no_overrun :
    (network_of small_ledger (value_of exposed_result).0.request.network).allow_fee_overrun ≡ false
unfolding exposed_result reserved empty_file be_bytes be_value read_field maximum_cost add_checked
    fits_existing scope_within_limits has_capacity check_scope_budget sponsor_has_capacity
    or_corrupt encode_uint32 id_key valid_persistent_time append_time read_time decode_stored_time
    attempt_key decode_attempt_key same_reservation_request append_uint256 read_uint256
    new_reservation_id encode_fields encode_reservation read_quote read_request read_reservation
    decode_parts decode_reservation context_error public_error public begin observed_now
    within_observed_skew find_network network_of valid_network_policy valid_attempt last_seen
    effective_now validate_request valid_exposure is_unexposed valid_state validate_reservation
    reservation_by_id add_if tally_state check_row tally collect_rows check_attempt check_attempts
    networks_within collect_usage expose settle release store_reservation admit reopen
    reserve_existing or_full make_room hold_new reserve_new reserve_tx reserve transition_now
    write_back transition_tx transition mark_exposed commit_finalized release_proven_unused
    Reservation-discrete ReservationState-discrete ℕ_discrete
no_overrun = refl

perform-sums_example :
    FileFits ⦃x = world⦄ exposed_state
    × ((sc : Scope) (at : ℕ)
        → recorded ⦃x = world⦄ sc Counter.reserved at exposed_state
            + recorded ⦃x = world⦄ sc all_spent at exposed_state
          ≤ recorded ⦃x = world⦄ sc Counter.reserved at held_state
            + recorded ⦃x = world⦄ sc all_spent at held_state)
unfolding perform exposed_result
perform-sums_example =
    perform-sums ⦃x = world⦄ small_ledger live_context (start_time + 5 * second) (marks held_id 444)
      held_state held_state_fits (omega arith) (omega arith) (is_ok-eq exposed_result exposed_ok)
      no_overrun
