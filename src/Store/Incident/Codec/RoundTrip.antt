-- ===== src/Store/Incident/Codec/RoundTrip.antt =====
-- What is written of an incident is read back.
use guard_daemon.Prelude.{
  ◌^◌, ◌<◌, ◌≤◌, ◌≡◌, refl, ap, ◌∙◌, true, ◌&&◌, ◌||◌, some, arith, Bytes, length, length-append,
  length-be_bytes, leb, ◌==◌, Bool, false, Option, [], ◌∷◌, Option-cases, inl, inr,
}
use guard_daemon.Prelude.Options.{◌>>=◌, ◌>>◌}
use guard_daemon.External.{External}
use guard_daemon.Budget.Codec.RoundTrip.{length-time_bytes}
use guard_daemon.Store.Types.{ok}
use guard_daemon.Store.Incident.{
  RescueIncident, valid_rescue_status, max_error_code_bytes, max_signed_transaction_len,
}
use guard_daemon.Store.Incident.Valid.{
  new_asset_incident_id, valid_names, valid_bounds, validate_rescue_incident,
}
use guard_daemon.Store.Incident.Codec.{
  require, rescue_fields, read_incident, encode_rescue_incident, validated_for_schema,
  decode_for_schema, decode_rescue_incident,
}
pub use guard_daemon.Store.Incident.Codec.Fields.{IncidentFits}
use guard_daemon.Store.Incident.Codec.Fields.{
  mark_bytes, times_bytes, snapshot_bytes, operation_bytes, policy_bytes, names_bytes, body_bytes,
  version_of, rescue_fields-eq, read_names-append, read_policy-append, read_operation-append,
  read_snapshot-append, read_times-append, read_mark-flag,
}

-- What the check of an incident says of the fields whose reading is bounded.
pub record Readable (i : RescueIncident) : Type 0 where
  pub network : i.network < 2 ^ 63
  pub retry_delay : i.policy.retry_delay < 2 ^ 63
  pub finality_timeout : i.policy.finality_timeout < 2 ^ 63
  pub signed_transaction : length i.signed_transaction ≤ max_signed_transaction_len
  pub last_code : length i.last_code ≤ max_error_code_bytes
  pub status : valid_rescue_status i.status ≡ true

read_incident-body_bytes :
    (i : RescueIncident)
    → IncidentFits i
    → Readable i
    → read_incident (version_of i) (body_bytes i) ≡ some i
unfolding read_incident body_bytes mark_bytes version_of
read_incident-body_bytes i f r = rw (
  read_names-append i _ f r.network,
  read_policy-append _ i.policy _ f.max_attempts r.retry_delay r.finality_timeout,
  read_operation-append i _ _ f r.status r.signed_transaction,
  read_snapshot-append i _ _ f,
  read_times-append i _ _ f r.last_code,
  read_mark-flag i i.policy.latest_state,
)

length-body_bytes : (i : RescueIncident) → 365 ≤ length (body_bytes i)
unfolding body_bytes names_bytes policy_bytes operation_bytes snapshot_bytes times_bytes
length-body_bytes i = simp (length-append, length-be_bytes, length-time_bytes) (omega arith)

module _ ⦃x : External⦄ where
  pub validate-Readable : (i : RescueIncident) → validate_rescue_incident i ≡ ok tt → Readable i
  unfolding validate_rescue_incident valid_names valid_bounds
  validate-Readable i v = record {
    network = ground arith;
    retry_delay = ground arith;
    finality_timeout = ground arith;
    signed_transaction = ground arith;
    last_code = ground arith;
    status = ground arith;
  }

  pub encode_rescue_incident-eq-ok :
      (i : RescueIncident) {bs : Bytes}
      → encode_rescue_incident i ≡ ok bs
      → (validate_rescue_incident i ≡ ok tt) × (bs ≡ rescue_fields i)
  unfolding encode_rescue_incident
  encode_rescue_incident-eq-ok i e = ground arith

  decode-rescue_fields :
      (i : RescueIncident)
      → IncidentFits i
      → validate_rescue_incident i ≡ ok tt
      → decode_rescue_incident (rescue_fields i) ≡ some i
  unfolding decode_rescue_incident decode_for_schema validated_for_schema require version_of
  decode-rescue_fields i f v = rw (
    rescue_fields-eq i,
    long_enough,
    known_version,
    read_incident-body_bytes i f (validate-Readable i v),
    v,
  )
    where
      long_enough : leb 365 (length (body_bytes i)) ≡ true
      long_enough = ground (arith, length-body_bytes i)

      known_version : (version_of i == 2 || (version_of i == 3 && true)) ≡ true
      known_version = ground arith

  -- An incident that is valid and whose fields are in the ranges of their types is read back as it
  -- was written.
  pub decode_rescue_incident-encode_rescue_incident :
      (i : RescueIncident) {bs : Bytes}
      → IncidentFits i
      → encode_rescue_incident i ≡ ok bs
      → decode_rescue_incident bs ≡ some i
  decode_rescue_incident-encode_rescue_incident i f e =
      let (v, same) = encode_rescue_incident-eq-ok i e in
      ap decode_rescue_incident same ∙ decode-rescue_fields i f v

  require-eq-some :
      (b : Bool) {rest : Option RescueIncident} {i : RescueIncident}
      → (require b >> rest) ≡ some i
      → (b ≡ true) × (rest ≡ some i)
  unfolding require
  require-eq-some true h = (refl, h)
  require-eq-some false h = absurd (ground arith)

  validated_for_schema-eq-some :
      (j : RescueIncident) {i : RescueIncident}
      → validated_for_schema false j ≡ some i
      → validate_rescue_incident i ≡ ok tt
  unfolding validated_for_schema require
  validated_for_schema-eq-some j h = ground arith

  pub decode_rescue_incident-valid :
      (bs : Bytes) {i : RescueIncident}
      → decode_rescue_incident bs ≡ some i
      → validate_rescue_incident i ≡ ok tt
  unfolding decode_rescue_incident decode_for_schema
  decode_rescue_incident-valid [] h = absurd (ground arith)
  decode_rescue_incident-valid (version ∷ bs) {i} h =
      let (_, h1) = require-eq-some (leb 365 (length bs)) h in
      let (_, h2) =
        require-eq-some _ {rest = read_incident version bs >>= validated_for_schema false} h1 in
      elim (Option-cases (read_incident version bs)) [
        | inl e ↦ absurd (ground (arith, e))
        | inr (j, e) ↦ validated_for_schema-eq-some j (rw e at h2)
      ]

  pub validate-id : (i : RescueIncident) → validate_rescue_incident i ≡ ok tt → i.id < 2 ^ 256
  unfolding validate_rescue_incident valid_names new_asset_incident_id
  validate-id i v =
      let same : i.id ≡ new_asset_incident_id i.candidate i.kind i.asset = ground arith in
      omega (arith, same, x.sha256-lt _)
