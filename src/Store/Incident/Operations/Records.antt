-- ===== src/Store/Incident/Operations/Records.antt =====
-- The bucket of incidents stays well-formed, and what it records of an incident changes only by a
-- permitted transition.
use guard_daemon.Prelude.{
  ℕ, ◌≡◌, refl, sym, ap, ◌∙◌, ◌⊎◌, inl, inr, true, false, some, Bytes, Entries, lookup, insert,
  bytes_eq, bytes_eq→eq, Bool-cases, lookup-insert_self, lookup-insert_ne,
}
use guard_daemon.Prelude.Rows.{UniqueKeys, UniqueKeys-insert, AllRows, AllRows-insert}
use guard_daemon.External.{External}
use guard_daemon.Store.Types.{ok}
use guard_daemon.Store.Incident.{RescueIncident}
use guard_daemon.Store.Incident.Valid.{validate_rescue_incident}
use guard_daemon.Store.Incident.Transition.{valid_rescue_transition}
use guard_daemon.Store.Incident.Codec.{encode_rescue_incident, decode_rescue_incident}
use guard_daemon.Store.Incident.Codec.RoundTrip.{
  IncidentFits, encode_rescue_incident-eq-ok, decode_rescue_incident-encode_rescue_incident,
}
use guard_daemon.Store.Incident.Operations.{IncidentStore, incident_key}
use guard_daemon.Store.Incident.Operations.Moves.{
  Recorded, Written, unchanged, added, advanced, Wrote,
}

module _ ⦃x : External⦄ where
  -- A row of the bucket of a network.
  abbrev pub IsRow : ℕ → Bytes → Bytes → Type 0
  IsRow network key value =
      (i : RescueIncident) × (decode_rescue_incident value ≡ some i)
      × (key ≡ incident_key i.id)
      × (i.network ≡ network)

  -- The keys of the bucket are distinct, and every row is a record of the network under its id.
  pub record WellFormed (st : IncidentStore) : Type 0 where
    pub unique : UniqueKeys st.incidents
    pub rows : AllRows (IsRow st.network) st.incidents

  insert-WellFormed :
      (i : RescueIncident) (encoded : Bytes) (st : IncidentStore)
      → IncidentFits i
      → encode_rescue_incident i ≡ ok encoded
      → i.network ≡ st.network
      → WellFormed st
      → WellFormed (record st { incidents = insert (incident_key i.id) encoded st.incidents })
  insert-WellFormed i encoded st f e n w =
      let key = incident_key i.id in
      record {
        unique = UniqueKeys-insert key encoded st.incidents w.unique;
        rows =
            AllRows-insert (IsRow st.network) key encoded st.incidents
              (i, decode_rescue_incident-encode_rescue_incident i f e, refl, n) w.rows;
      }

  Written-WellFormed :
      (i : RescueIncident) (encoded : Bytes) (st : IncidentStore) (after : Entries)
      → IncidentFits i
      → encode_rescue_incident i ≡ ok encoded
      → i.network ≡ st.network
      → Written i encoded st.incidents after
      → WellFormed st
      → WellFormed (record st { incidents = after })
  Written-WellFormed i encoded st after f e n (unchanged same) w = rw same w
  Written-WellFormed i encoded st after f e n (added _ _ same) w =
      rw same (insert-WellFormed i encoded st f e n w)
  Written-WellFormed i encoded st after f e n (advanced _ _ _ _ same) w =
      rw same (insert-WellFormed i encoded st f e n w)

  pub Wrote-WellFormed :
      (i : RescueIncident) (before after : IncidentStore)
      → IncidentFits i
      → (after ≡ before) ⊎ Wrote i before after
      → WellFormed before
      → WellFormed after
  Wrote-WellFormed i before after f (inl same) w = rw same w
  Wrote-WellFormed i before after f (inr m) w =
      rw m.result
        (Written-WellFormed i m.encoded before m.incidents f m.encodes m.network m.written w)

  -- One step of the incident of a record: nothing, or a permitted transition to a valid incident.
  abbrev pub StepOf : RescueIncident → RescueIncident → Type 0
  StepOf i j =
      (i ≡ j) ⊎ ((valid_rescue_transition i j ≡ true) × (validate_rescue_incident j ≡ ok tt))

  insert-Recorded :
      (i j : RescueIncident) (encoded : Bytes) (d : Entries)
      → bytes_eq (incident_key i.id) (incident_key j.id) ≡ false
      → Recorded i d
      → Recorded i (insert (incident_key j.id) encoded d)
  insert-Recorded i j encoded d n (bytes, found, decoded) =
      (bytes, lookup-insert_ne (incident_key i.id) (incident_key j.id) encoded d n ∙ found, decoded)

  pub Recorded-unique :
      (i j : RescueIncident) (d : Entries)
      → incident_key i.id ≡ incident_key j.id
      → Recorded i d
      → Recorded j d
      → i ≡ j
  Recorded-unique i j d same (bytes, found, decoded) (others, found_j, decoded_j) =
      cc (found, found_j, decoded, decoded_j, ap (λ k. lookup k d) same)

  Written-Recorded :
      (i j : RescueIncident) (encoded : Bytes) (before after : Entries)
      → IncidentFits j
      → encode_rescue_incident j ≡ ok encoded
      → Written j encoded before after
      → Recorded i before
      → (k : RescueIncident) × Recorded k after × (k.id ≡ i.id) × StepOf i k
  Written-Recorded i j encoded before after f e (unchanged same) r = (i, rw same r, refl, inl refl)
  Written-Recorded i j encoded before after f e (added absent p same) r =
      elim (Bool-cases (bytes_eq (incident_key i.id) (incident_key j.id))) [
        | inl q ↦
            let keys = bytes_eq→eq (incident_key i.id) (incident_key j.id) q in
            absurd (cc (r.1, absent, ap (λ k. lookup k before) keys))
        | inr q ↦ (i, rw same (insert-Recorded i j encoded before q r), refl, inl refl)
      ]
  Written-Recorded i j encoded before after f e (advanced current c id t same) r =
      elim (Bool-cases (bytes_eq (incident_key i.id) (incident_key j.id))) [
        | inl q ↦
            let keys = bytes_eq→eq (incident_key i.id) (incident_key j.id) q in
            let is_current =
              Recorded-unique i current before (keys ∙ sym (ap incident_key id)) r c in
            (
              j,
              (
                encoded,
                ap (lookup (incident_key j.id)) same
                    ∙ lookup-insert_self (incident_key j.id) encoded before,
                decode_rescue_incident-encode_rescue_incident j f e,
              ),
              sym id ∙ sym (ap (λ (k : RescueIncident). k.id) is_current),
              inr (
                ap (λ k. valid_rescue_transition k j) is_current ∙ t,
                (encode_rescue_incident-eq-ok j e).0,
              ),
            )
        | inr q ↦ (i, rw same (insert-Recorded i j encoded before q r), refl, inl refl)
      ]

  pub Wrote-Recorded :
      (i j : RescueIncident) (before after : IncidentStore)
      → IncidentFits j
      → (after ≡ before) ⊎ Wrote j before after
      → Recorded i before.incidents
      → (k : RescueIncident) × Recorded k after.incidents × (k.id ≡ i.id) × StepOf i k
  Wrote-Recorded i j before after f (inl same) r = (i, rw same r, refl, inl refl)
  Wrote-Recorded i j before after f (inr m) r =
      rw m.result
        (Written-Recorded i j m.encoded before.incidents m.incidents f m.encodes m.written r)
