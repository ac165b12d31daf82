-- ===== src/Tests/Finished.antt =====
-- A claim whose operation has failed, and calls that leave it so.
use guard_daemon.Prelude.{◌≡◌, refl, some, [], ◌∷◌, be_bytes, be_value, lookup, bytes_eq_refl}
use guard_daemon.Store.Types.{ok}
use guard_daemon.Store.Lease.{valid_rescue_time}
use guard_daemon.Store.Incident.{failed, RescueIncident, is_terminal_rescue_status}
use guard_daemon.Store.Incident.Valid.{
  new_incident_id, new_asset_incident_id, validate_rescue_incident, valid_names, valid_bounds,
  is_untouched, valid_status_fields, outcome_fits, valid_signed_rescue_transaction,
  valid_terminal_signed_state,
}
use guard_daemon.Store.Incident.Codec.{
  rescue_fields, encode_rescue_incident, decode_rescue_incident,
}
use guard_daemon.Store.Incident.Codec.RoundTrip.{decode_rescue_incident-encode_rescue_incident}
use guard_daemon.Store.Incident.Operations.{IncidentStore, incident_key}
use guard_daemon.Store.Incident.Operations.Moves.{Recorded}
use guard_daemon.Store.Incident.Operations.Records.{WellFormed}
use guard_daemon.Store.Incident.Operations.Runs.{run, run-terminal_claim}
use guard_daemon.Tests.World.{world}
use guard_daemon.Tests.Incidents.{signed_claim, signed_fits, signed_store, sending, sending_fits}

abbrev failed_claim : RescueIncident
failed_claim = record signed_claim { status = failed }

failed_encodes : encode_rescue_incident ⦃x = world⦄ failed_claim ≡ ok (rescue_fields failed_claim)
unfolding encode_rescue_incident validate_rescue_incident valid_names new_incident_id
    new_asset_incident_id valid_bounds is_untouched valid_rescue_time be_bytes be_value
    valid_status_fields outcome_fits valid_signed_rescue_transaction valid_terminal_signed_state
failed_encodes = refl

abbrev failed_store : IncidentStore
failed_store = record signed_store {
  incidents = (incident_key failed_claim.id, rescue_fields failed_claim) ∷ [];
}

failed_decodes : decode_rescue_incident ⦃x = world⦄ (rescue_fields failed_claim) ≡ some failed_claim
failed_decodes =
    decode_rescue_incident-encode_rescue_incident ⦃x = world⦄ failed_claim (signed_fits failed)
      failed_encodes

failed-Recorded : Recorded ⦃x = world⦄ failed_claim failed_store.incidents
failed-Recorded = (rescue_fields failed_claim, found, failed_decodes)
  where
    found :
        lookup (incident_key failed_claim.id) failed_store.incidents
        ≡ some (rescue_fields failed_claim)
    found = rw (bytes_eq_refl (incident_key failed_claim.id)) refl

failed_store_formed : WellFormed ⦃x = world⦄ failed_store
failed_store_formed = record {
  unique = (refl, tt);
  rows = ((failed_claim, failed_decodes, refl, refl), tt);
}

run-terminal_claim_example :
    Recorded ⦃x = world⦄ failed_claim (run ⦃x = world⦄ sending failed_store).incidents
unfolding is_terminal_rescue_status
run-terminal_claim_example =
    run-terminal_claim ⦃x = world⦄ sending failed_store failed_claim sending_fits
      failed_store_formed failed-Recorded refl refl
