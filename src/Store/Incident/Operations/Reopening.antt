-- ===== src/Store/Incident/Operations/Reopening.antt =====
-- The bucket that calls leave is accepted when the file is opened again
-- (`validateRescueStateBucket`).
use guard_daemon.Prelude.{
  ℕ, ◌≡◌, refl, true, false, some, List, [], ◌∷◌, arith, Bytes, Entries, bytes_eq, bytes_eq→eq,
  bytes_eq_refl, ◌==◌,
}
use mathlib.Core.Path.{subst}
use guard_daemon.Prelude.Rows.{UniqueKeys, AllRows}
use guard_daemon.External.{External}
use guard_daemon.Store.Types.{ok, >>=-eq-ok}
use guard_daemon.Store.Incident.{RescueIncident}
use guard_daemon.Store.Incident.Codec.{decode_rescue_incident}
use guard_daemon.Store.Incident.Operations.{
  IncidentStore, schema_version_v2, incident_key, row, check_rows, validate_rescue_state_bucket,
}
use guard_daemon.Store.Incident.Operations.Records.{IsRow}
use guard_daemon.Store.Incident.Operations.Runs.{Call, AllFit, run, run-WellFormed, run-network}

module _ ⦃x : External⦄ where
  row-eq-ok :
      (network : ℕ) (key value : Bytes) {i : RescueIncident}
      → row decode_rescue_incident network key value ≡ ok i
      → IsRow network key value
  unfolding row
  row-eq-ok network key value {i} h =
      let same : bytes_eq key (incident_key i.id) ≡ true = ground arith in
      (i, ground arith, bytes_eq→eq key (incident_key i.id) same, ground arith)

  IsRow-row :
      (network : ℕ) (key value : Bytes) (i : RescueIncident)
      → decode_rescue_incident value ≡ some i
      → key ≡ incident_key i.id
      → i.network ≡ network
      → row decode_rescue_incident network key value ≡ ok i
  unfolding row
  IsRow-row network key value i d k n =
      rw (row, d, k, n, bytes_eq_refl (incident_key i.id)) (ground arith)

  check_rows-AllRows :
      (network : ℕ) (d : Entries)
      → check_rows decode_rescue_incident network d ≡ ok tt
      → AllRows (IsRow network) d
  unfolding check_rows
  check_rows-AllRows network [] h = tt
  check_rows-AllRows network ((key, value) ∷ d) h =
      let (i, r, h1) = >>=-eq-ok (row decode_rescue_incident network key value) _ h in
      (row-eq-ok network key value r, check_rows-AllRows network d h1)

  AllRows-check_rows :
      (network : ℕ) (d : Entries)
      → AllRows (IsRow network) d
      → check_rows decode_rescue_incident network d ≡ ok tt
  unfolding check_rows
  AllRows-check_rows network [] a = refl
  AllRows-check_rows network ((key, value) ∷ d) a =
      let (i, decoded, k, n) = a.0 in
      rw (check_rows, IsRow-row network key value i decoded k n) (AllRows-check_rows network d a.1)

  validate-AllRows :
      (network schema : ℕ) (d : Entries)
      → (schema == schema_version_v2) ≡ false
      → validate_rescue_state_bucket 0 network d schema ≡ ok tt
      → AllRows (IsRow network) d
  unfolding validate_rescue_state_bucket
  validate-AllRows network schema d s h = check_rows-AllRows network d (rw s at h)

  pub AllRows-validate :
      (network schema : ℕ) (d : Entries)
      → (schema == schema_version_v2) ≡ false
      → AllRows (IsRow network) d
      → validate_rescue_state_bucket 0 network d schema ≡ ok tt
  unfolding validate_rescue_state_bucket
  AllRows-validate network schema d s a =
      rw (validate_rescue_state_bucket, s) (AllRows-check_rows network d a)

  -- A bucket that the store accepts when it opens is accepted after every sequence of calls.
  pub run-validate :
      (cs : List Call) (st : IncidentStore) (schema : ℕ)
      → AllFit cs
      → UniqueKeys st.incidents
      → (schema == schema_version_v2) ≡ false
      → validate_rescue_state_bucket 0 st.network st.incidents schema ≡ ok tt
      → validate_rescue_state_bucket 0 st.network (run cs st).incidents schema ≡ ok tt
  run-validate cs st schema f u s h =
      let w =
        run-WellFormed cs st f
          (record { unique = u; rows = validate-AllRows st.network schema st.incidents s h }) in
      AllRows-validate st.network schema (run cs st).incidents s
        (subst (λ n. AllRows (IsRow n) (run cs st).incidents) (run-network cs st) w.rows)
