-- ===== src/Store/Incident/Valid.antt =====
-- What makes the record of an incident valid (`validateRescueIncident` of
-- internal/store/rescue_state.go), with the ids of internal/domain/model.go.
use guard_daemon.Prelude.{
  ℕ, ◌^◌, Bool, false, not, ◌&&◌, ◌||◌, none, some, List, [], ◌∷◌, ◌++◌, Bytes, length, be_bytes,
  ltb, leb, ◌==◌, if◌then◌else◌,
}
use guard_daemon.Instant.{is_zero}
use guard_daemon.External.{External}
use guard_daemon.Store.Types.{Result, ◌>>◌, fail_if, invalid_record}
use guard_daemon.Store.Lease.{valid_rescue_time}
use guard_daemon.Store.Incident.{
  RescueStatus, pending, prepared, signed, broadcast, retryable, ambiguous, exhausted, failed,
  trusted_success, token_reported, lost_race, other, RescueIncident, candidate_token,
  candidate_native, candidate_claim, status_is, valid_rescue_status, max_error_code_bytes,
  max_signed_transaction_len, max_configured_bound, elapsed,
}

-- The ASCII of "guard-daemon/incident/v1" and of "guard-daemon/asset-incident/v1".
abbrev incident_domain : Bytes
incident_domain =
    103 ∷ 117 ∷ 97 ∷ 114 ∷ 100 ∷ 45 ∷ 100 ∷ 97 ∷ 101 ∷ 109 ∷ 111 ∷ 110 ∷ 47 ∷ 105 ∷ 110 ∷ 99 ∷ 105
    ∷ 100 ∷ 101 ∷ 110 ∷ 116 ∷ 47 ∷ 118 ∷ 49 ∷ []

abbrev asset_incident_domain : Bytes
asset_incident_domain =
    103 ∷ 117 ∷ 97 ∷ 114 ∷ 100 ∷ 45 ∷ 100 ∷ 97 ∷ 101 ∷ 109 ∷ 111 ∷ 110 ∷ 47 ∷ 97 ∷ 115 ∷ 115 ∷ 101
    ∷ 116 ∷ 45 ∷ 105 ∷ 110 ∷ 99 ∷ 105 ∷ 100 ∷ 101 ∷ 110 ∷ 116 ∷ 47 ∷ 118 ∷ 49 ∷ []

-- `types.SetCodeTxType`.
abbrev pub set_code_tx_type : ℕ
set_code_tx_type = 4

unfoldable pub has_no_signed_transaction : RescueIncident → Bool
has_no_signed_transaction i =
    i.tx_hash == 0 && length i.signed_transaction == 0 && is_zero i.reconcile_until

-- A field that is 0 or a time.
abbrev pub optional_time : ℕ → Bool
optional_time t = is_zero t || valid_rescue_time t

-- The asset goes with the kind.
pub valid_asset : RescueIncident → Bool
valid_asset i =
    if i.kind == candidate_native
    then i.asset == 0
    else if i.kind == candidate_token || i.kind == candidate_claim
    then not (i.asset == 0)
    else false

-- The fields of a pending incident.
unfoldable pub is_untouched : RescueIncident → Bool
is_untouched i =
    i.attempts == 0
    && i.sponsor_nonce == 0
    && i.source_nonce == 0
    && i.tx_hash == 0
    && length i.signed_transaction == 0
    && i.snapshot_block_number == 0
    && i.snapshot_block_hash == 0
    && i.source_before == 0
    && i.destination_before == 0
    && is_zero i.retry_at
    && is_zero i.reconcile_until
    && length i.last_code == 0

-- The policy, the lengths and the times.
unfoldable pub valid_bounds : RescueIncident → Bool
valid_bounds i =
    not (i.policy.max_attempts == 0)
    && leb i.policy.max_attempts max_configured_bound
    && (ltb 0 i.policy.retry_delay && ltb i.policy.retry_delay (2 ^ 63))
    && (ltb 0 i.policy.finality_timeout && ltb i.policy.finality_timeout (2 ^ 63))
    && leb i.attempts i.policy.max_attempts
    && leb (length i.last_code) max_error_code_bytes
    && leb (length i.signed_transaction) max_signed_transaction_len
    && valid_rescue_time i.created_at
    && valid_rescue_time i.updated_at
    && not (ltb i.updated_at i.created_at)
    && optional_time i.retry_at
    && optional_time i.reconcile_until
    && valid_rescue_status i.status

-- The last two tests: a success is trusted and of no token, a report is of one.
unfoldable pub outcome_fits : RescueIncident → Bool
outcome_fits i =
    not (
      status_is i.status trusted_success
      && (not i.trusted || i.kind == candidate_token || i.kind == candidate_claim))
    && not (
        status_is i.status token_reported
        && not (i.kind == candidate_token)
        && not (i.kind == candidate_claim))

-- The one authorization of a list of nonces is of the nonce.
abbrev pub one_authorization : ℕ → List ℕ → Bool
one_authorization n (m ∷ []) = m == n
one_authorization n _ = false

module _ ⦃x : External⦄ where
  unfoldable pub new_incident_id : ℕ → ℕ
  new_incident_id candidate = x.sha256 (incident_domain ++ be_bytes 32 candidate)

  unfoldable pub new_asset_incident_id : ℕ → ℕ → ℕ → ℕ
  new_asset_incident_id candidate kind asset =
      x.sha256 (asset_incident_domain ++ be_bytes 32 candidate ++ (kind ∷ []) ++ be_bytes 20 asset)

  -- `validateSignedRescueTransaction(incident) == nil`.
  unfoldable pub valid_signed_rescue_transaction : RescueIncident → Bool
  valid_signed_rescue_transaction i =
      not (length i.signed_transaction == 0)
      && leb (length i.signed_transaction) max_signed_transaction_len
      && not (i.tx_hash == 0)
      && elim (x.unmarshal_transaction i.signed_transaction) [
        | none ↦ false
        | some t ↦
            t.kind == set_code_tx_type
            && t.hash == i.tx_hash
            && t.nonce == i.sponsor_nonce
            && not (length t.data_field == 0)
            && one_authorization i.source_nonce t.authorization_nonces
      ]

  unfoldable pub valid_terminal_signed_state : RescueIncident → Bool
  valid_terminal_signed_state i =
      let signed_state = valid_signed_rescue_transaction i in
      if i.tx_hash == 0 || length i.signed_transaction == 0
      then length i.signed_transaction == 0 && is_zero i.reconcile_until
      else signed_state

  -- The switch on the status, pending left aside.
  unfoldable pub valid_status_fields : RescueStatus → RescueIncident → Bool
  valid_status_fields prepared i = has_no_signed_transaction i && is_zero i.retry_at
  valid_status_fields exhausted i = has_no_signed_transaction i && is_zero i.retry_at
  valid_status_fields retryable i =
      has_no_signed_transaction i
      && not (length i.last_code == 0)
      && not (is_zero i.retry_at)
      && not (ltb i.retry_at i.updated_at)
      && not (ltb (elapsed i.retry_at i.updated_at) i.policy.retry_delay)
  valid_status_fields signed i =
      valid_signed_rescue_transaction i
      && is_zero i.retry_at
      && not (is_zero i.reconcile_until)
      && ltb i.updated_at i.reconcile_until
  valid_status_fields broadcast i =
      valid_signed_rescue_transaction i
      && is_zero i.retry_at
      && not (is_zero i.reconcile_until)
      && ltb i.updated_at i.reconcile_until
  valid_status_fields ambiguous i =
      valid_signed_rescue_transaction i
      && not (length i.last_code == 0)
      && not (is_zero i.reconcile_until)
      && ltb i.updated_at i.reconcile_until
      && (is_zero i.retry_at
          || (not (ltb i.retry_at i.updated_at) && not (ltb i.reconcile_until i.retry_at)))
  valid_status_fields failed i = is_zero i.retry_at && valid_terminal_signed_state i
  valid_status_fields trusted_success i =
      not (i.tx_hash == 0) && is_zero i.retry_at && valid_terminal_signed_state i
  valid_status_fields token_reported i =
      not (i.tx_hash == 0) && is_zero i.retry_at && valid_terminal_signed_state i
  valid_status_fields lost_race i =
      not (i.tx_hash == 0) && is_zero i.retry_at && valid_terminal_signed_state i
  valid_status_fields pending i = false
  valid_status_fields (other b) i = false

  -- The fields that name the incident.
  unfoldable pub valid_names : RescueIncident → Bool
  unfolding valid_asset
  valid_names i =
      (ltb 0 i.network && ltb i.network (2 ^ 63))
      && not (i.candidate == 0)
      && not (i.generation == 0)
      && i.id == new_asset_incident_id i.candidate i.kind i.asset
      && i.parent == new_incident_id i.candidate
      && valid_asset i

  unfoldable pub validate_rescue_incident : RescueIncident → Result (Unit {0})
  validate_rescue_incident i = do
    fail_if (not (valid_names i)) invalid_record
    fail_if (not (valid_bounds i)) invalid_record
    let started =
        not (i.attempts == 0)
        && not (i.snapshot_block_hash == 0)
        && valid_status_fields i.status i
        && outcome_fits i
    fail_if (not (if status_is i.status pending then is_untouched i else started)) invalid_record
