-- ===== src/Tests/Incidents.antt =====
-- The claim of an asset, from its preparation to a receipt.
use guard_daemon.Prelude.{
  ℕ, pos, ◌+◌, ◌*◌, ◌^◌, ◌≤◌, ◌≡◌, ◌⊎◌, refl, true, false, some, List, [], ◌∷◌, ◌++◌, arith,
  be_bytes, be_value, lookup, bytes_eq_refl,
}
use guard_daemon.Instant.{second, zero_time}
use guard_daemon.Budget.State.{Context, live}
use guard_daemon.Store.Types.{ok, err, conflict, context_error}
use guard_daemon.Store.Lease.{valid_rescue_time}
use guard_daemon.Store.Incident.{
  RescueStatus, pending, prepared, signed, broadcast, RescueIncident, candidate_claim,
  same_rescue_identity, same_rescue_preparation,
}
use guard_daemon.Store.Incident.Valid.{
  new_incident_id, new_asset_incident_id, validate_rescue_incident, valid_names, valid_bounds,
  is_untouched, valid_status_fields, outcome_fits, has_no_signed_transaction,
  valid_signed_rescue_transaction,
}
use guard_daemon.Store.Incident.Transition.{
  valid_rescue_transition, status_follows, prepared_follows,
}
use guard_daemon.Store.Incident.Transition.Edges.{
  ◌⟶◌, SameOperation, SameIncident, ◌⟶*◌, transition-⟶,
}
use guard_daemon.Store.Incident.Transition.Evolution.{
  ◌⇝*◌, stay, step, attempts_started, ⇝*-attempts,
}
use guard_daemon.Store.Incident.Codec.{
  rescue_fields, encode_rescue_incident, decode_rescue_incident,
}
use guard_daemon.Store.Incident.Codec.RoundTrip.{
  IncidentFits, decode_rescue_incident-encode_rescue_incident,
}
use guard_daemon.Store.Incident.Operations.{
  IncidentStore, incident_key, nonce_floor_key, update_rescue_incident, raise_nonce_floor, raise_tx,
  begin, decode_uint64, validate_rescue_state_bucket,
}
use guard_daemon.Store.Incident.Operations.Moves.{Recorded}
use guard_daemon.Store.Incident.Operations.Records.{WellFormed}
use guard_daemon.Store.Incident.Operations.Runs.{
  Call, update, raise, prune, AllFit, run, StillRecorded, Prunes, run-sent, run-claim,
}
use guard_daemon.Store.Incident.Operations.Floor.{HasFloor, run-raised}
use guard_daemon.Store.Incident.Operations.Reopening.{AllRows-validate, run-validate}
use guard_daemon.Store.Incident.Operations.Answers.{Permitted, update-Permitted}
use guard_daemon.Tests.World.{world}

abbrev noon : ℕ
noon = (2 ^ 63 + 1_000_000) * second

abbrev live_context : Context
live_context = record { entry = live; inside = live }

-- The digest of the concrete `External` is the last 32 bytes.
abbrev pending_claim : RescueIncident
pending_claim = record {
  id = (5 * 256 + 4) * 2 ^ 160 + 9;
  parent = 5;
  candidate = 5;
  network = 1;
  kind = candidate_claim;
  asset = 9;
  generation = 1;
  trusted = false;
  policy = record {
    latest_state = true;
    max_attempts = 3;
    retry_delay = second;
    finality_timeout = 60 * second;
  };
  status = pending;
  attempts = 0;
  sponsor_nonce = 0;
  source_nonce = 0;
  tx_hash = 0;
  signed_transaction = [];
  snapshot_block_number = 0;
  snapshot_block_hash = 0;
  source_before = 0;
  destination_before = 0;
  retry_at = zero_time;
  reconcile_until = zero_time;
  last_code = [];
  created_at = noon;
  updated_at = noon;
}

abbrev prepared_claim : RescueIncident
prepared_claim = record pending_claim {
  status = prepared;
  attempts = 1;
  sponsor_nonce = 3;
  source_nonce = 3;
  snapshot_block_number = 100;
  snapshot_block_hash = 8;
}

abbrev pub signed_claim : RescueIncident
signed_claim = record prepared_claim {
  status = signed;
  tx_hash = 7;
  signed_transaction = 7 ∷ 3 ∷ [];
  reconcile_until = noon + 60 * second;
}

pub signed_fits : (s : RescueStatus) → IncidentFits (record signed_claim { status = s })
signed_fits s = record {
  id = omega arith;
  parent = omega arith;
  candidate = omega arith;
  network = omega arith;
  asset = omega arith;
  generation = omega arith;
  max_attempts = omega arith;
  retry_delay = omega arith;
  finality_timeout = omega arith;
  attempts = omega arith;
  sponsor_nonce = omega arith;
  source_nonce = omega arith;
  tx_hash = omega arith;
  snapshot_block_number = omega arith;
  snapshot_block_hash = omega arith;
  source_before = omega arith;
  destination_before = omega arith;
  retry_at = omega arith;
  reconcile_until = omega arith;
  created_at = omega arith;
  updated_at = omega arith;
}

pending_valid : validate_rescue_incident ⦃x = world⦄ pending_claim ≡ ok tt
unfolding validate_rescue_incident valid_names new_incident_id new_asset_incident_id valid_bounds
    is_untouched valid_rescue_time be_bytes be_value valid_status_fields outcome_fits
pending_valid = refl

prepared_valid : validate_rescue_incident ⦃x = world⦄ prepared_claim ≡ ok tt
unfolding validate_rescue_incident valid_names new_incident_id new_asset_incident_id valid_bounds
    is_untouched valid_rescue_time be_bytes be_value valid_status_fields outcome_fits
    has_no_signed_transaction
prepared_valid = refl

signed_valid : validate_rescue_incident ⦃x = world⦄ signed_claim ≡ ok tt
unfolding validate_rescue_incident valid_names new_incident_id new_asset_incident_id valid_bounds
    is_untouched valid_rescue_time be_bytes be_value valid_status_fields outcome_fits
    valid_signed_rescue_transaction
signed_valid = refl

prepares : valid_rescue_transition pending_claim prepared_claim ≡ true
unfolding valid_rescue_transition same_rescue_identity status_follows
prepares = refl

signs : valid_rescue_transition prepared_claim signed_claim ≡ true
unfolding valid_rescue_transition same_rescue_identity status_follows prepared_follows
    same_rescue_preparation
signs = refl

transition-⟶_example : prepared ⟶ signed
transition-⟶_example = transition-⟶ prepared_claim signed_claim refl signs

signing : ◌⇝*◌ ⦃x = world⦄ pending_claim signed_claim
signing =
    step {j = prepared_claim} prepares prepared_valid
      (step {j = signed_claim} signs signed_valid stay)

⇝*-attempts_example :
    (1 ≡ attempts_started ⦃x = world⦄ signing + 0) × (attempts_started ⦃x = world⦄ signing + 0 ≤ 3)
⇝*-attempts_example = ⇝*-attempts ⦃x = world⦄ pending_claim signed_claim signing pending_valid

signed_encodes : encode_rescue_incident ⦃x = world⦄ signed_claim ≡ ok (rescue_fields signed_claim)
unfolding encode_rescue_incident validate_rescue_incident valid_names new_incident_id
    new_asset_incident_id valid_bounds is_untouched valid_rescue_time be_bytes be_value
    valid_status_fields outcome_fits valid_signed_rescue_transaction
signed_encodes = refl

decode_rescue_incident-encode_rescue_incident_example :
    decode_rescue_incident ⦃x = world⦄ (rescue_fields signed_claim) ≡ some signed_claim
decode_rescue_incident-encode_rescue_incident_example =
    decode_rescue_incident-encode_rescue_incident ⦃x = world⦄ signed_claim (signed_fits signed)
      signed_encodes

abbrev broadcast_claim : RescueIncident
broadcast_claim = record signed_claim { status = broadcast }

-- The record of the signed claim under its id, and the floor 0.
abbrev pub signed_store : IncidentStore
signed_store = record {
  is_closed = false;
  network = 1;
  incidents = (incident_key signed_claim.id, rescue_fields signed_claim) ∷ [];
  meta = (nonce_floor_key, be_bytes 8 0) ∷ [];
}

signed_decodes : decode_rescue_incident ⦃x = world⦄ (rescue_fields signed_claim) ≡ some signed_claim
signed_decodes =
    decode_rescue_incident-encode_rescue_incident ⦃x = world⦄ signed_claim (signed_fits signed)
      signed_encodes

signed-Recorded : Recorded ⦃x = world⦄ signed_claim signed_store.incidents
signed-Recorded = (rescue_fields signed_claim, found, signed_decodes)
  where
    found :
        lookup (incident_key signed_claim.id) signed_store.incidents
        ≡ some (rescue_fields signed_claim)
    found = rw (bytes_eq_refl (incident_key signed_claim.id)) refl

signed_store_formed : WellFormed ⦃x = world⦄ signed_store
signed_store_formed = record {
  unique = (refl, tt);
  rows = ((signed_claim, signed_decodes, refl, refl), tt);
}

abbrev pub sending : List Call
sending =
    update live_context broadcast_claim
    ∷ raise live_context 4
    ∷ prune live_context (λ n. live) (pos 0)
    ∷ []

pub sending_fits : AllFit sending
sending_fits = (signed_fits broadcast, (omega arith, (tt, tt)))

run-sent_example :
    StillRecorded ⦃x = world⦄ signed_claim (run ⦃x = world⦄ sending signed_store)
    ⊎ ((before : List Call) × (after : List Call) × (c : Call) × (sending ≡ before ++ c ∷ after)
        × ((k : RescueIncident) × Recorded ⦃x = world⦄ k
              (run ⦃x = world⦄ before signed_store).incidents
            × (signed_claim.id ≡ k.id)
            × SameOperation signed_claim k
            × Prunes ⦃x = world⦄ c k (run ⦃x = world⦄ before signed_store)))
run-sent_example =
    run-sent ⦃x = world⦄ sending signed_store signed_claim sending_fits signed_store_formed
      signed-Recorded refl

run-claim_example :
    (k : RescueIncident) × Recorded ⦃x = world⦄ k (run ⦃x = world⦄ sending signed_store).incidents
    × SameIncident signed_claim k
    × (signed ⟶* k.status)
run-claim_example =
    run-claim ⦃x = world⦄ sending signed_store signed_claim sending_fits signed_store_formed
      signed-Recorded refl

raised : (raise_nonce_floor ⦃x = world⦄ live_context 9 signed_store).0 ≡ ok tt
unfolding raise_nonce_floor raise_tx begin context_error decode_uint64 be_bytes be_value
raised = refl

run-raised_example :
    (k : ℕ) × HasFloor k
      (run ⦃x = world⦄ sending (raise_nonce_floor ⦃x = world⦄ live_context 9 signed_store).1).meta
    × (9 ≤ k)
run-raised_example =
    run-raised ⦃x = world⦄ live_context 9 sending signed_store (omega arith) sending_fits raised

run-validate_example :
    validate_rescue_state_bucket ⦃x = world⦄ 0 1 (run ⦃x = world⦄ sending signed_store).incidents 4
    ≡ ok tt
run-validate_example =
    run-validate ⦃x = world⦄ sending signed_store 4 sending_fits (refl, tt) refl
      (AllRows-validate ⦃x = world⦄ 1 4 signed_store.incidents refl signed_store_formed.rows)

update-Permitted_example :
    ((update_rescue_incident ⦃x = world⦄ live_context prepared_claim signed_store).0 ≡ ok tt)
      × Permitted ⦃x = world⦄ prepared_claim signed_store
    ⊎ (update_rescue_incident ⦃x = world⦄ live_context prepared_claim signed_store
        ≡ (err conflict, signed_store))
      × ¬ Permitted ⦃x = world⦄ prepared_claim signed_store
update-Permitted_example =
    update-Permitted ⦃x = world⦄ live_context prepared_claim signed_store refl refl refl
      prepared_valid refl signed_store_formed
