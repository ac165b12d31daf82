-- ===== src/Store/Incident/Operations/Moves.antt =====
-- What one call does to the bucket of incidents, whatever it returns.
use guard_daemon.Prelude.{
  ℕ, ◌^◌, ◌<◌, ◌≡◌, refl, ap, ◌∙◌, ◌⊎◌, inl, inr, true, not, none, some, arith, Bytes, Entries,
  lookup, insert, if◌then◌else◌, Bool-cases, Option-cases, be_bytes-injective,
}
use guard_daemon.External.{External}
use guard_daemon.Budget.State.{Context}
use guard_daemon.Store.Types.{
  Result, ok, ◌>>=◌, ◌>>◌, >>=-eq-ok, fail_if, Fallible-cases, context_error, conflict,
}
use guard_daemon.Store.Incident.{RescueIncident, pending, status_is, same_rescue_incident}
use guard_daemon.Store.Incident.Transition.{valid_rescue_transition}
use guard_daemon.Store.Incident.Codec.{encode_rescue_incident, decode_rescue_incident}
use guard_daemon.Store.Incident.Operations.{
  IncidentStore, incident_key, persisted, put_entry, put_tx, put_rescue_incident, update_entry,
  update_tx, update_rescue_incident,
}

pub incident_key-injective :
    (a b : ℕ) → a < 2 ^ 256 → b < 2 ^ 256 → incident_key a ≡ incident_key b → a ≡ b
unfolding incident_key
incident_key-injective a b ha hb e = be_bytes-injective 32 a b ha hb e

module _ ⦃x : External⦄ where
  -- The bucket holds the record of the incident.
  abbrev pub Recorded : RescueIncident → Entries → Type 0
  Recorded i d =
      (bytes : Bytes) × (lookup (incident_key i.id) d ≡ some bytes)
      × (decode_rescue_incident bytes ≡ some i)

  -- A call on an incident leaves the bucket, adds the incident as pending under a key that has no
  -- value, or puts it in the place of one that it may follow.
  pub data Written (i : RescueIncident) (encoded : Bytes) (before after : Entries) : Type 0 where
    unchanged : after ≡ before → Written i encoded before after
    added :
        lookup (incident_key i.id) before ≡ none
        → status_is i.status pending ≡ true
        → after ≡ insert (incident_key i.id) encoded before
        → Written i encoded before after
    advanced :
        (current : RescueIncident)
        → Recorded current before
        → current.id ≡ i.id
        → valid_rescue_transition current i ≡ true
        → after ≡ insert (incident_key i.id) encoded before
        → Written i encoded before after

  persisted-eq-ok :
      (network id : ℕ) (bytes : Bytes) {i : RescueIncident}
      → persisted network id bytes ≡ ok i
      → (decode_rescue_incident bytes ≡ some i) × (i.network ≡ network) × (i.id ≡ id)
  unfolding persisted
  persisted-eq-ok network id bytes {i} h = ground arith

  put_tx-Written :
      (ctx : Context) (i : RescueIncident) (encoded : Bytes) (st : IncidentStore)
      {stored : RescueIncident} {after : Entries}
      → status_is i.status pending ≡ true
      → put_tx ctx i encoded st ≡ ok (stored, after)
      → Written i encoded st.incidents after
  unfolding put_tx
  put_tx-Written ctx i encoded st p h =
      let key = incident_key i.id in
      elim (Option-cases (lookup key st.incidents)) [
        | inl e ↦
            added e p
              (ground (arith, x.get_lem key st.incidents, x.put_lem key encoded st.incidents, e))
        | inr (bytes, e) ↦ unchanged (ground (arith, x.get_lem key st.incidents, e))
      ]

  update_tx-Written :
      (ctx : Context) (i : RescueIncident) (encoded : Bytes) (st : IncidentStore) {after : Entries}
      → update_tx ctx i encoded st ≡ ok after
      → Written i encoded st.incidents after
  unfolding update_tx
  update_tx-Written ctx i encoded st {after} h =
      let key = incident_key i.id in
      let got = x.get_lem key st.incidents in
      elim (Option-cases (lookup key st.incidents)) [
        | inl e ↦ absurd (ground (arith, got, e))
        | inr (bytes, e) ↦
            let found : (context_error ctx.inside >> (persisted st.network i.id bytes >>= next))
                ≡ ok after =
              rw (update_tx, got, e) at h in
            let (_, _, h1) = >>=-eq-ok (context_error ctx.inside) _ found in
            let (current, c, h2) = >>=-eq-ok (persisted st.network i.id bytes) next h1 in
            let (decoded, _, same) = persisted-eq-ok st.network i.id bytes c in
            elim (Bool-cases (same_rescue_incident current i)) [
              | inl t ↦ unchanged (ground (arith, t))
              | inr t ↦
                  advanced current
                    (bytes, ap (λ n. lookup (incident_key n) st.incidents) same ∙ e, decoded) same
                    (ground (arith, t)) (ground (arith, t, x.put_lem key encoded st.incidents))
            ]
      ]
    where
      next : RescueIncident → Result Entries
      next current =
          if same_rescue_incident current i
          then ok st.incidents
          else fail_if (not (valid_rescue_transition current i)) conflict
            >> ok (x.put (incident_key i.id) encoded st.incidents)

  -- What a call on an incident does to the store.
  pub record Wrote (i : RescueIncident) (before after : IncidentStore) : Type 0 where
    pub encoded : Bytes
    pub incidents : Entries
    pub encodes : encode_rescue_incident i ≡ ok encoded
    pub network : i.network ≡ before.network
    pub written : Written i encoded before.incidents incidents
    pub result : after ≡ record before { incidents = incidents }

  put_entry-eq-ok :
      (ctx : Context) (i : RescueIncident) (st : IncidentStore) {encoded : Bytes}
      → put_entry ctx i st ≡ ok encoded
      → (encode_rescue_incident i ≡ ok encoded)
        × (i.network ≡ st.network)
        × (status_is i.status pending ≡ true)
  unfolding put_entry
  put_entry-eq-ok ctx i st h = ground arith

  update_entry-eq-ok :
      (ctx : Context) (i : RescueIncident) (st : IncidentStore) {encoded : Bytes}
      → update_entry ctx i st ≡ ok encoded
      → (encode_rescue_incident i ≡ ok encoded) × (i.network ≡ st.network)
  unfolding update_entry
  update_entry-eq-ok ctx i st h = ground arith

  pub put-Wrote :
      (ctx : Context) (i : RescueIncident) (st : IncidentStore)
      → ((put_rescue_incident ctx i st).1 ≡ st) ⊎ Wrote i st (put_rescue_incident ctx i st).1
  unfolding put_rescue_incident
  put-Wrote ctx i st = elim (Fallible-cases (put_entry ctx i st)) [
    | inl (e, q) ↦ inl (rw (put_rescue_incident, q) refl)
    | inr (encoded, q) ↦ elim (Fallible-cases (put_tx ctx i encoded st)) [
      | inl (e, r) ↦ inl (rw (put_rescue_incident, q, r) refl)
      | inr ((stored, after), r) ↦
          let (encodes, network, fresh) = put_entry-eq-ok ctx i st q in
          inr (record {
            encoded = encoded;
            incidents = after;
            encodes = encodes;
            network = network;
            written = put_tx-Written ctx i encoded st fresh r;
            result = rw (put_rescue_incident, q, r) refl;
          })
    ]
  ]

  pub update-Wrote :
      (ctx : Context) (i : RescueIncident) (st : IncidentStore)
      → ((update_rescue_incident ctx i st).1 ≡ st) ⊎ Wrote i st (update_rescue_incident ctx i st).1
  unfolding update_rescue_incident
  update-Wrote ctx i st = elim (Fallible-cases (update_entry ctx i st)) [
    | inl (e, q) ↦ inl (rw (update_rescue_incident, q) refl)
    | inr (encoded, q) ↦ elim (Fallible-cases (update_tx ctx i encoded st)) [
      | inl (e, r) ↦ inl (rw (update_rescue_incident, q, r) refl)
      | inr (after, r) ↦
          let (encodes, network) = update_entry-eq-ok ctx i st q in
          inr (record {
            encoded = encoded;
            incidents = after;
            encodes = encodes;
            network = network;
            written = update_tx-Written ctx i encoded st r;
            result = rw (update_rescue_incident, q, r) refl;
          })
    ]
  ]
