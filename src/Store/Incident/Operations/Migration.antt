-- ===== src/Store/Incident/Operations/Migration.antt =====
-- The rewriting of incidents when a file of the second schema is opened (`migrateV2TokenOutcomes`).
use guard_daemon.Prelude.{Bool, not, ◌&&◌, [], ◌∷◌, Bytes, Entries, bytes_eq, ◌==◌, if◌then◌else◌}
use guard_daemon.External.{External}
use guard_daemon.Store.Types.{Result, ok, ◌>>=◌, ◌>>◌, fail_if, or_else, need, corrupt}
use guard_daemon.Store.Incident.{
  RescueIncident, candidate_token, trusted_success, token_reported, status_is,
}
use guard_daemon.Store.Incident.Codec.{encode_rescue_incident, decode_rescue_incident_v2}
use guard_daemon.Store.Incident.Operations.{incident_key}

-- A success of a token, which the later schemas call a report.
abbrev is_legacy_success : RescueIncident → Bool
is_legacy_success i = i.kind == candidate_token && status_is i.status trusted_success

module _ ⦃x : External⦄ where
  -- The record of a row of the second schema.
  pub legacy_row : Bytes → Bytes → Result RescueIncident
  legacy_row key value = do
    incident ← or_else (need (decode_rescue_incident_v2 value)) corrupt
    fail_if (not (bytes_eq key (incident_key incident.id))) corrupt
    ok incident

  pub collect_updates : Entries → Result Entries
  unfolding legacy_row
  collect_updates [] = ok []
  collect_updates ((key, value) ∷ d) = do
    incident ← legacy_row key value
    update ←
        (if is_legacy_success incident
          then or_else (encode_rescue_incident (record incident { status = token_reported }))
              corrupt
          else ok value)
    rest ← collect_updates d
    ok (if is_legacy_success incident then (key, update) ∷ rest else rest)

  pub put_updates : Entries → Entries → Entries
  put_updates [] d = d
  put_updates ((key, value) ∷ updates) d = put_updates updates (x.put key value d)

  pub migrate_v2_token_outcomes : Entries → Result Entries
  unfolding collect_updates put_updates
  migrate_v2_token_outcomes d = do updates ← collect_updates d; ok (put_updates updates d)
