-- ===== src/Store/Incident/Transition.antt =====
-- The transitions of an incident (`validRescueTransition` of internal/store/rescue_state.go).
pub mod Edges
pub mod Evolution
use guard_daemon.Prelude.{
  ℕ, ◌+◌, Bool, true, false, not, ◌&&◌, ◌||◌, length, bytes_eq, ltb, leb, ◌==◌, if◌then◌else◌,
}
use guard_daemon.Instant.{is_zero}
use guard_daemon.Store.Incident.{
  RescueStatus, pending, prepared, signed, broadcast, retryable, ambiguous, exhausted, failed,
  RescueIncident, status_is, is_receipt_terminal_status, same_rescue_identity,
  same_rescue_preparation, same_signed_rescue_operation, elapsed,
}

unfoldable pub valid_receipt_terminal_transition : RescueIncident → RescueIncident → Bool
valid_receipt_terminal_transition current next =
    next.attempts == current.attempts
    && same_rescue_preparation current next
    && next.tx_hash == current.tx_hash
    && (if length next.signed_transaction == 0
        then is_zero next.reconcile_until
        else bytes_eq next.signed_transaction current.signed_transaction
          && (is_zero next.reconcile_until || next.reconcile_until == current.reconcile_until))

-- The receipt of a transaction that was sent, as the status says.
abbrev receipt_follows : RescueIncident → RescueIncident → Bool
receipt_follows current next =
    is_receipt_terminal_status next.status && valid_receipt_terminal_transition current next

-- Where a prepared incident may go.
unfoldable pub prepared_follows : RescueIncident → RescueIncident → Bool
prepared_follows current next =
    (status_is next.status signed
      && leb next.policy.finality_timeout (elapsed next.reconcile_until next.updated_at))
    || status_is next.status retryable
    || status_is next.status exhausted
    || (status_is next.status failed && next.tx_hash == 0)

-- Where a retryable incident may go once its time has come.
unfoldable pub retryable_follows : RescueIncident → RescueIncident → Bool
retryable_follows current next =
    if status_is next.status prepared || status_is next.status retryable
    then ltb current.attempts 4294967295 && next.attempts == current.attempts + 1
    else if status_is next.status exhausted
    then next.attempts == current.attempts && same_rescue_preparation current next
    else if status_is next.status failed
    then next.attempts == current.attempts
      && next.tx_hash == 0
      && same_rescue_preparation current next
    else false

-- The switch on the current status.
unfoldable pub status_follows : RescueStatus → RescueIncident → RescueIncident → Bool
unfolding valid_receipt_terminal_transition prepared_follows retryable_follows
status_follows pending current next =
    (status_is next.status prepared || status_is next.status retryable) && next.attempts == 1
status_follows prepared current next =
    next.attempts == current.attempts
    && same_rescue_preparation
        (if status_is next.status signed
          then record current { source_nonce = next.source_nonce }
          else current)
        next
    && prepared_follows current next
status_follows signed current next =
    (status_is next.status broadcast || status_is next.status ambiguous)
    && same_signed_rescue_operation current next
    && next.reconcile_until == current.reconcile_until
status_follows broadcast current next =
    if status_is next.status ambiguous
    then same_signed_rescue_operation current next
      && next.reconcile_until == current.reconcile_until
    else receipt_follows current next
status_follows retryable current next =
    not (is_zero current.retry_at)
    && not (ltb next.updated_at current.retry_at)
    && retryable_follows current next
status_follows ambiguous current next =
    if status_is next.status broadcast
    then same_signed_rescue_operation current next
      && next.reconcile_until == current.reconcile_until
    else if status_is next.status ambiguous
    then same_signed_rescue_operation current next
      && not (ltb next.reconcile_until current.reconcile_until)
      && leb (elapsed next.reconcile_until current.reconcile_until) current.policy.finality_timeout
    else receipt_follows current next
status_follows _ current next = false

unfoldable pub valid_rescue_transition : RescueIncident → RescueIncident → Bool
unfolding status_follows
valid_rescue_transition current next =
    same_rescue_identity current next
    && current.created_at == next.created_at
    && not (ltb next.updated_at current.updated_at)
    && status_follows current.status current next
