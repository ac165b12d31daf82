-- ===== src/Store/Incident/Operations/Answers.antt =====
-- What an update answers, and what it writes.
use guard_daemon.Prelude.{
  ℕ, ◌≡◌, refl, sym, ap, ◌∙◌, false, some, none, arith, Bytes, lookup, insert, if◌then◌else◌,
  Bool-cases, inl, inr, ◌⊎◌, true, Option, Option-cases,
}
use guard_daemon.Prelude.Rows.{AllRows-lookup}
use mathlib.Core.Path.{subst}
use guard_daemon.Store.Incident.Codec.RoundTrip.{decode_rescue_incident-valid, validate-id}
use guard_daemon.Store.Incident.Operations.Records.{IsRow, WellFormed, Recorded-unique}
use guard_daemon.External.{External}
use guard_daemon.Budget.State.{Context, live}
use guard_daemon.Store.Types.{ok, err, conflict, context_error, public_error}
use guard_daemon.Store.Incident.{RescueIncident, same_rescue_incident}
use guard_daemon.Store.Incident.Valid.{validate_rescue_incident}
use guard_daemon.Store.Incident.Transition.{valid_rescue_transition}
use guard_daemon.Store.Incident.Codec.{
  encode_rescue_incident, decode_rescue_incident, rescue_fields,
}
use guard_daemon.Store.Incident.Operations.{
  IncidentStore, incident_key, persisted, update_entry, update_tx, update_rescue_incident, begin,
}
use guard_daemon.Store.Incident.Operations.Moves.{Recorded, incident_key-injective}

module _ ⦃x : External⦄ where
  update_entry-eq :
      (ctx : Context) (i : RescueIncident) (st : IncidentStore)
      → ctx.entry ≡ live
      → st.is_closed ≡ false
      → validate_rescue_incident i ≡ ok tt
      → i.network ≡ st.network
      → update_entry ctx i st ≡ ok (rescue_fields i)
  unfolding update_entry encode_rescue_incident begin context_error
  update_entry-eq ctx i st c o v n =
      rw (update_entry, encode_rescue_incident, v, begin, c, o, n) (ground arith)

  -- An update of an incident that has no record is a conflict and writes nothing.
  update-missing :
      (ctx : Context) (i : RescueIncident) (st : IncidentStore)
      → ctx.entry ≡ live
      → ctx.inside ≡ live
      → st.is_closed ≡ false
      → validate_rescue_incident i ≡ ok tt
      → i.network ≡ st.network
      → lookup (incident_key i.id) st.incidents ≡ none
      → update_rescue_incident ctx i st ≡ (err conflict, st)
  unfolding update_rescue_incident update_tx context_error public_error
  update-missing ctx i st c d o v n absent =
      rw
        (
          update_rescue_incident,
          update_entry-eq ctx i st c o v n,
          update_tx,
          d,
          x.get_lem (incident_key i.id) st.incidents,
          absent,
        )
        refl

  persisted-eq :
      (network id : ℕ) (bytes : Bytes) (i : RescueIncident)
      → decode_rescue_incident bytes ≡ some i
      → i.network ≡ network
      → i.id ≡ id
      → persisted network id bytes ≡ ok i
  unfolding persisted
  persisted-eq network id bytes i d n e = ground (arith, d)

  -- An update of an incident that is recorded: the incident as it stands changes nothing, a permitted
  -- transition puts the new record in the place of the old, and any other is a conflict that writes
  -- nothing.
  update-Recorded :
      (ctx : Context) (i current : RescueIncident) (st : IncidentStore)
      → ctx.entry ≡ live
      → ctx.inside ≡ live
      → st.is_closed ≡ false
      → validate_rescue_incident i ≡ ok tt
      → i.network ≡ st.network
      → Recorded current st.incidents
      → current.id ≡ i.id
      → current.network ≡ st.network
      → update_rescue_incident ctx i st ≡ (
          if same_rescue_incident current i
          then (ok tt, st)
          else if valid_rescue_transition current i
          then (
            ok tt,
            record st { incidents = insert (incident_key i.id) (rescue_fields i) st.incidents },
          )
          else (err conflict, st))
  unfolding update_rescue_incident update_tx context_error public_error
  update-Recorded ctx i current st c d o v n (bytes, found, decoded) id m =
      rw
        (
          update_rescue_incident,
          update_entry-eq ctx i st c o v n,
          update_tx,
          d,
          x.get_lem (incident_key i.id) st.incidents,
          ap (λ k. lookup (incident_key k) st.incidents) (sym id) ∙ found,
          persisted-eq st.network i.id bytes current decoded m id,
        )
        (elim (Bool-cases (same_rescue_incident current i)) [
          | inl q ↦ rw q refl
          | inr q ↦ elim (Bool-cases (valid_rescue_transition current i)) [
            | inl r ↦ rw (q, r, x.put_lem (incident_key i.id) (rescue_fields i) st.incidents) refl
            | inr r ↦ rw (q, r) refl
          ]
        ])

  -- The incident is recorded as it stands, or as one that it may follow.
  pub Permitted : RescueIncident → IncidentStore → Type 0
  Permitted i st =
      (current : RescueIncident) × Recorded current st.incidents
      × (current.id ≡ i.id)
      × ((same_rescue_incident current i ≡ true) ⊎ (valid_rescue_transition current i ≡ true))

  lookup-Recorded :
      (i : RescueIncident) (st : IncidentStore) (bytes : Bytes)
      → WellFormed st
      → validate_rescue_incident i ≡ ok tt
      → lookup (incident_key i.id) st.incidents ≡ some bytes
      → (current : RescueIncident) × Recorded current st.incidents
        × (current.id ≡ i.id)
        × (current.network ≡ st.network)
  lookup-Recorded i st bytes w v found =
      let (current, decoded, key, network) =
        AllRows-lookup (IsRow st.network) (incident_key i.id) st.incidents w.rows found in
      let id =
        incident_key-injective current.id i.id
          (validate-id current (decode_rescue_incident-valid bytes decoded)) (validate-id i v)
          (sym key) in
      (
        current,
        (bytes, ap (λ n. lookup (incident_key n) st.incidents) id ∙ found, decoded),
        id,
        network,
      )

  update-permitted :
      (ctx : Context) (i current : RescueIncident) (st : IncidentStore)
      → update_rescue_incident ctx i st ≡ (
          if same_rescue_incident current i
          then (ok tt, st)
          else if valid_rescue_transition current i
          then (
            ok tt,
            record st { incidents = insert (incident_key i.id) (rescue_fields i) st.incidents },
          )
          else (err conflict, st))
      → ((update_rescue_incident ctx i st).0 ≡ ok tt)
          × ((same_rescue_incident current i ≡ true) ⊎ (valid_rescue_transition current i ≡ true))
        ⊎ (update_rescue_incident ctx i st ≡ (err conflict, st))
          × (same_rescue_incident current i ≡ false)
          × (valid_rescue_transition current i ≡ false)
  update-permitted ctx i current st e = elim (Bool-cases (same_rescue_incident current i)) [
    | inl q ↦ inl (rw e (rw q refl), inl q)
    | inr q ↦ elim (Bool-cases (valid_rescue_transition current i)) [
      | inl r ↦ inl (rw e (rw (q, r) refl), inr r)
      | inr r ↦ inr (e ∙ rw (q, r) refl, q, r)
    ]
  ]

  -- On an open store whose bucket is well-formed, in a live context, an update by a valid incident of
  -- the network succeeds exactly if the incident is recorded as it stands or as one that it may
  -- follow; else it is a conflict that writes nothing.
  pub update-Permitted :
      (ctx : Context) (i : RescueIncident) (st : IncidentStore)
      → ctx.entry ≡ live
      → ctx.inside ≡ live
      → st.is_closed ≡ false
      → validate_rescue_incident i ≡ ok tt
      → i.network ≡ st.network
      → WellFormed st
      → ((update_rescue_incident ctx i st).0 ≡ ok tt) × Permitted i st
        ⊎ (update_rescue_incident ctx i st ≡ (err conflict, st)) × ¬ Permitted i st
  unfolding Permitted
  update-Permitted ctx i st c d o v n w =
      elim (Option-cases (lookup (incident_key i.id) st.incidents)) [
        | inl absent ↦ inr (
          update-missing ctx i st c d o v n absent,
          λ (current, (bytes, found, _), id, _).
              none≢some
                (sym absent ∙ ap (λ n. lookup (incident_key n) st.incidents) (sym id) ∙ found),
        )
        | inr (bytes, found) ↦
            let (current, recorded, id, network) = lookup-Recorded i st bytes w v found in
            elim (update-permitted ctx i current st
              (update-Recorded ctx i current st c d o v n recorded id network)) [
                | inl (succeeds, allowed) ↦ inl (succeeds, (current, recorded, id, allowed))
                | inr (refused, differs, forbidden) ↦ inr (
                  refused,
                  λ (other, other_recorded, other_id, allowed).
                      let same =
                        Recorded-unique other current st.incidents
                          (ap incident_key (other_id ∙ sym id)) other_recorded recorded in
                      contradiction current i differs forbidden (
                        subst
                          (λ k.
                            (same_rescue_incident k i ≡ true)
                            ⊎ (valid_rescue_transition k i ≡ true))
                          same allowed),
                )
              ]
      ]
    where
      none≢some : {bs : Bytes} → ◌≡◌ {A = Option Bytes} none (some bs) → ⊥
      none≢some h = cc

      contradiction :
          (k i : RescueIncident)
          → same_rescue_incident k i ≡ false
          → valid_rescue_transition k i ≡ false
          → (same_rescue_incident k i ≡ true) ⊎ (valid_rescue_transition k i ≡ true)
          → ⊥
      contradiction k i differs forbidden (inl h) = cc
      contradiction k i differs forbidden (inr h) = cc
