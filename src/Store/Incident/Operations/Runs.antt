-- ===== src/Store/Incident/Operations/Runs.antt =====
-- What every sequence of calls on incidents keeps, failed calls included.
use guard_daemon.Prelude.{
  ℕ, ℤ, ◌^◌, ◌<◌, ◌≡◌, refl, sym, ap, ◌∙◌, ◌⊎◌, inl, inr, true, List, [], ◌∷◌, ◌++◌, arith,
}
use guard_daemon.External.{External}
use guard_daemon.Budget.State.{Context, ContextState}
use guard_daemon.Store.Types.{Fallible-cases}
use guard_daemon.Store.Incident.{RescueIncident, candidate_claim, is_terminal_rescue_status}
use guard_daemon.Store.Incident.Codec.RoundTrip.{IncidentFits}
use guard_daemon.Store.Incident.Transition.Edges.{is_sent, SameOperation, SameIncident, ◌⟶*◌}
use guard_daemon.Store.Incident.Transition.Evolution.{
  ◌⇝*◌, stay, step, ⇝*-sent, ⇝*-SameIncident, ⇝*-⟶*, ⇝*-terminal,
}
use guard_daemon.Store.Incident.Operations.{
  IncidentStore, is_prunable, put_rescue_incident, update_rescue_incident, begin, raise_tx,
  raise_nonce_floor, prune_rescue_incidents,
}
use guard_daemon.Store.Incident.Operations.Moves.{Recorded, Wrote, put-Wrote, update-Wrote}
use guard_daemon.Store.Incident.Operations.Records.{
  WellFormed, StepOf, Wrote-WellFormed, Wrote-Recorded,
}
use guard_daemon.Store.Incident.Operations.Prune.{
  Gone, prune-WellFormed, prune-Recorded, prune-rest,
}

-- The calls that write.
pub data Call : Type 0 where
  put : Context → RescueIncident → Call
  update : Context → RescueIncident → Call
  raise : Context → ℕ → Call
  prune : Context → (ℕ → ContextState) → ℤ → Call

-- The arguments are in the ranges of their types.
abbrev pub CallFits : Call → Type 0
CallFits (put ctx i) = IncidentFits i
CallFits (update ctx i) = IncidentFits i
CallFits (raise ctx n) = n < 2 ^ 64
CallFits (prune ctx during retain) = Unit {0}

abbrev pub AllFit : List Call → Type 0
AllFit [] = Unit {0}
AllFit (c ∷ cs) = CallFits c × AllFit cs

module _ ⦃x : External⦄ where
  unfoldable pub perform : Call → IncidentStore → IncidentStore
  perform (put ctx i) st = (put_rescue_incident ctx i st).1
  perform (update ctx i) st = (update_rescue_incident ctx i st).1
  perform (raise ctx n) st = (raise_nonce_floor ctx n st).1
  perform (prune ctx during retain) st = (prune_rescue_incidents ctx during retain st).1

  unfoldable pub run : List Call → IncidentStore → IncidentStore
  unfolding perform
  run [] st = st
  run (c ∷ cs) st = run cs (perform c st)

  -- A call of `RaiseNonceFloor` leaves the incidents alone.
  raise-incidents :
      (ctx : Context) (n : ℕ) (st : IncidentStore)
      → ((raise_nonce_floor ctx n st).1 ≡ record st { meta = (raise_nonce_floor ctx n st).1.meta })
  unfolding raise_nonce_floor
  raise-incidents ctx n st = elim (Fallible-cases (begin ctx.entry st)) [
    | inl (e, q) ↦ rw (raise_nonce_floor, q) refl
    | inr (_, q) ↦ elim (Fallible-cases (raise_tx ctx n st)) [
      | inl (e, r) ↦ rw (raise_nonce_floor, q, r) refl
      | inr (d, r) ↦ rw (raise_nonce_floor, q, r) refl
    ]
  ]

  pub perform-WellFormed :
      (c : Call) (st : IncidentStore) → CallFits c → WellFormed st → WellFormed (perform c st)
  unfolding perform
  perform-WellFormed (put ctx i) st f w = Wrote-WellFormed i st _ f (put-Wrote ctx i st) w
  perform-WellFormed (update ctx i) st f w = Wrote-WellFormed i st _ f (update-Wrote ctx i st) w
  perform-WellFormed (raise ctx n) st f w =
      rw (raise-incidents ctx n st) (record { unique = w.unique; rows = w.rows })
  perform-WellFormed (prune ctx during retain) st f w = prune-WellFormed ctx during retain st w

  Wrote-network :
      (i : RescueIncident) (before after : IncidentStore)
      → (after ≡ before) ⊎ Wrote i before after
      → after.network ≡ before.network
  Wrote-network i before after (inl same) = ap (λ (st : IncidentStore). st.network) same
  Wrote-network i before after (inr w) = ap (λ (st : IncidentStore). st.network) w.result

  perform-network : (c : Call) (st : IncidentStore) → (perform c st).network ≡ st.network
  unfolding perform
  perform-network (put ctx i) st = Wrote-network i st _ (put-Wrote ctx i st)
  perform-network (update ctx i) st = Wrote-network i st _ (update-Wrote ctx i st)
  perform-network (raise ctx n) st =
      ap (λ (st : IncidentStore). st.network) (raise-incidents ctx n st)
  perform-network (prune ctx during retain) st =
      ap (λ (st : IncidentStore). st.network) (prune-rest ctx during retain st)

  pub run-network : (cs : List Call) (st : IncidentStore) → (run cs st).network ≡ st.network
  unfolding run
  run-network [] st = refl
  run-network (c ∷ cs) st = run-network cs (perform c st) ∙ perform-network c st

  -- The keys of the bucket stay distinct and every row stays a valid record of the network under its
  -- id, through every sequence of calls.
  pub run-WellFormed :
      (cs : List Call) (st : IncidentStore) → AllFit cs → WellFormed st → WellFormed (run cs st)
  unfolding run
  run-WellFormed [] st f w = w
  run-WellFormed (c ∷ cs) st f w =
      run-WellFormed cs (perform c st) f.1 (perform-WellFormed c st f.0 w)

  -- A call of `PruneRescueIncidents` that removes the record of a finished operation.
  abbrev pub Prunes : Call → RescueIncident → IncidentStore → Type 0
  Prunes c i st =
      (ctx : Context) × (during : ℕ → ContextState) × (retain : ℤ) × (c ≡ prune ctx during retain)
      × Gone i (perform c st).incidents

  -- What a call leaves of a record: the record of a step of the incident, or it was pruned.
  perform-Recorded :
      (c : Call) (st : IncidentStore) (i : RescueIncident)
      → CallFits c
      → WellFormed st
      → Recorded i st.incidents
      → ((k : RescueIncident) × Recorded k (perform c st).incidents × (k.id ≡ i.id) × StepOf i k)
        ⊎ Prunes c i st
  unfolding perform
  perform-Recorded (put ctx j) st i f w r = inl (Wrote-Recorded i j st _ f (put-Wrote ctx j st) r)
  perform-Recorded (update ctx j) st i f w r =
      inl (Wrote-Recorded i j st _ f (update-Wrote ctx j st) r)
  perform-Recorded (raise ctx n) st i f w r =
      inl (i, rw (raise-incidents ctx n st) r, refl, inl refl)
  perform-Recorded (prune ctx during retain) st i f w r =
      elim (prune-Recorded ctx during retain st i w r) [
        | inl kept ↦ inl (i, kept, refl, inl refl)
        | inr gone ↦ inr (ctx, during, retain, refl, gone)
      ]

  -- One of the calls is a pruning that removes the record that the calls before it have left.
  pub record Dropped (i : RescueIncident) (cs : List Call) (st : IncidentStore) : Type 0 where
    pub before : List Call
    pub call : Call
    pub after : List Call
    pub last : RescueIncident
    pub calls : cs ≡ before ++ call ∷ after
    pub recorded : Recorded last (run before st).incidents
    pub evolved : i ⇝* last
    pub removed : Prunes call last (run before st)

  -- Where a sequence of calls leaves a record: the record of an incident that the first has become,
  -- or one of the calls has pruned that record.
  abbrev pub Traced : RescueIncident → List Call → IncidentStore → Type 0
  Traced i cs st =
      ((k : RescueIncident) × Recorded k (run cs st).incidents × (i ⇝* k)) ⊎ Dropped i cs st

  StepOf-⇝* : (i k j : RescueIncident) → StepOf i k → k ⇝* j → i ⇝* j
  StepOf-⇝* i k j (inl same) c = rw same c
  StepOf-⇝* i k j (inr (t, v)) c = step t v c

  Traced-StepOf :
      (i k : RescueIncident) (c : Call) (cs : List Call) (st : IncidentStore)
      → StepOf i k
      → Traced k cs (perform c st)
      → Traced i (c ∷ cs) st
  unfolding run
  Traced-StepOf i k c cs st s (inl (j, r, e)) = inl (j, r, StepOf-⇝* i k j s e)
  Traced-StepOf i k c cs st s (inr d) = inr (record {
    before = c ∷ d.before;
    call = d.call;
    after = d.after;
    last = d.last;
    calls = ap (λ (cs : List Call). c ∷ cs) d.calls;
    recorded = d.recorded;
    evolved = StepOf-⇝* i k d.last s d.evolved;
    removed = d.removed;
  })

  pub run-Traced :
      (cs : List Call) (st : IncidentStore) (i : RescueIncident)
      → AllFit cs
      → WellFormed st
      → Recorded i st.incidents
      → Traced i cs st
  unfolding run
  run-Traced [] st i f w r = inl (i, r, stay)
  run-Traced (c ∷ cs) st i f w r = elim (perform-Recorded c st i f.0 w r) [
    | inr p ↦ inr (record {
      before = [];
      call = c;
      after = cs;
      last = i;
      calls = refl;
      recorded = r;
      evolved = stay;
      removed = p;
    })
    | inl (k, recorded, _, s) ↦
        Traced-StepOf i k c cs st s
          (run-Traced cs (perform c st) k f.1 (perform-WellFormed c st f.0 w) recorded)
  ]

  -- The bucket records an incident with the id, the attempt, the nonces and the hash of the first, and
  -- with its bytes unless they were dropped.
  abbrev pub StillRecorded : RescueIncident → IncidentStore → Type 0
  StillRecorded i st =
      (k : RescueIncident) × Recorded k st.incidents × (i.id ≡ k.id) × SameOperation i k

  -- Once the store records an incident whose operation was sent, then after any calls with arguments
  -- in range it still records the id with that operation: the same attempt, nonces and hash, and the
  -- same bytes unless they were dropped. Or one of the calls is a pruning: the calls before it left
  -- the id recorded with that operation, it was finished and not on a claim, and the pruning removed
  -- the record.
  pub run-sent :
      (cs : List Call) (st : IncidentStore) (i : RescueIncident)
      → AllFit cs
      → WellFormed st
      → Recorded i st.incidents
      → is_sent i.status ≡ true
      → StillRecorded i (run cs st)
        ⊎ ((before : List Call) × (after : List Call) × (c : Call) × (cs ≡ before ++ c ∷ after)
            × ((k : RescueIncident) × Recorded k (run before st).incidents
                × (i.id ≡ k.id)
                × SameOperation i k
                × Prunes c k (run before st)))
  run-sent cs st i f w r s = elim (run-Traced cs st i f w r) [
    | inl (k, recorded, c) ↦ inl (k, recorded, (⇝*-SameIncident i k c).id, ⇝*-sent i k s c)
    | inr d ↦ inr (
      d.before,
      d.after,
      d.call,
      d.calls,
      (
        d.last,
        d.recorded,
        (⇝*-SameIncident i d.last d.evolved).id,
        ⇝*-sent i d.last s d.evolved,
        d.removed,
      ),
    )
  ]

  claim-kept : (k : RescueIncident) → k.kind ≡ candidate_claim → is_prunable k ≡ true → ⊥
  unfolding is_prunable
  claim-kept k e p = ground arith

  never-Dropped :
      (i : RescueIncident) (cs : List Call) (st : IncidentStore)
      → i.kind ≡ candidate_claim
      → Dropped i cs st
      → ⊥
  never-Dropped i cs st claim d =
      let (_, _, _, _, (finished, _)) = d.removed in
      claim-kept d.last (sym (⇝*-SameIncident i d.last d.evolved).kind ∙ claim) finished

  -- The record of an incident of a claim is never lost, and its status moves along the diagram.
  pub run-claim :
      (cs : List Call) (st : IncidentStore) (i : RescueIncident)
      → AllFit cs
      → WellFormed st
      → Recorded i st.incidents
      → i.kind ≡ candidate_claim
      → (k : RescueIncident) × Recorded k (run cs st).incidents
        × SameIncident i k
        × (i.status ⟶* k.status)
  run-claim cs st i f w r claim = elim (run-Traced cs st i f w r) [
    | inl (k, recorded, c) ↦ (k, recorded, ⇝*-SameIncident i k c, ⇝*-⟶* i k c)
    | inr d ↦ absurd (never-Dropped i cs st claim d)
  ]

  -- The record of an incident of a claim whose operation is finished is as it was after any calls with
  -- arguments in range: no update changes it and no pruning removes it.
  pub run-terminal_claim :
      (cs : List Call) (st : IncidentStore) (i : RescueIncident)
      → AllFit cs
      → WellFormed st
      → Recorded i st.incidents
      → i.kind ≡ candidate_claim
      → is_terminal_rescue_status i.status ≡ true
      → Recorded i (run cs st).incidents
  run-terminal_claim cs st i f w r claim t = elim (run-Traced cs st i f w r) [
    | inl (k, recorded, c) ↦ rw (⇝*-terminal i k t c) recorded
    | inr d ↦ absurd (never-Dropped i cs st claim d)
  ]
