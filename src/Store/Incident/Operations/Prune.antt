-- ===== src/Store/Incident/Operations/Prune.antt =====
-- Pruning removes records of finished operations only (`PruneRescueIncidents`).
use guard_daemon.Prelude.{
  ℕ, ℤ, pos, negsuc, zero, suc, ◌-◌, ◌≡◌, refl, sym, ap, ◌∙◌, ◌⊎◌, inl, inr, true, none, some,
  arith, List, [], ◌∷◌, Bytes, Entries, lookup, length, take, bytes_eq, bytes_eq→eq, Bool-cases,
  lookup-erase_ne, ltb,
}
use guard_daemon.Prelude.Rows.{
  UniqueKeys, UniqueKeys-erase, AllRows, AllRows-erase, bytes_eq_sym, lookup-erase-none,
  lookup-erase_self,
}
use guard_daemon.External.{External}
use guard_daemon.Budget.State.{Context, ContextState}
use guard_daemon.Store.Types.{
  ok, ◌>>◌, >>=-eq-ok, fail_if, ok_injective, Fallible-cases, context_error, invalid_input,
}
use guard_daemon.Store.Incident.{RescueIncident, max_configured_bound}
use guard_daemon.Store.Incident.Codec.{decode_rescue_incident}
use guard_daemon.Store.Incident.Operations.{
  IncidentStore, TerminalIncident, is_older, insert_terminal, sort_terminals, is_prunable,
  incident_key, row, collect_terminals, delete_terminals, prune_tx, prune_rescue_incidents, begin,
}
use guard_daemon.Store.Incident.Operations.Moves.{Recorded}
use guard_daemon.Store.Incident.Operations.Records.{IsRow, WellFormed, Recorded-unique}

-- A property of every terminal incident of a list.
abbrev AllTerminals : (TerminalIncident → Type 0) → List TerminalIncident → Type 0
AllTerminals P [] = Unit {0}
AllTerminals P (t ∷ ts) = P t × AllTerminals P ts

AllTerminals-insert :
    (P : TerminalIncident → Type 0) (t : TerminalIncident) (ts : List TerminalIncident)
    → P t
    → AllTerminals P ts
    → AllTerminals P (insert_terminal t ts)
unfolding insert_terminal
AllTerminals-insert P t [] p h = (p, tt)
AllTerminals-insert P t (u ∷ us) p h = elim (Bool-cases (is_older u t)) [
  | inl e ↦ rw e (h.0, AllTerminals-insert P t us p h.1)
  | inr e ↦ rw e (p, h)
]

AllTerminals-sort :
    (P : TerminalIncident → Type 0) (ts : List TerminalIncident)
    → AllTerminals P ts
    → AllTerminals P (sort_terminals ts)
unfolding sort_terminals
AllTerminals-sort P [] h = tt
AllTerminals-sort P (t ∷ ts) h =
    AllTerminals-insert P t (sort_terminals ts) h.0 (AllTerminals-sort P ts h.1)

AllTerminals-take :
    (P : TerminalIncident → Type 0) (n : ℕ) (ts : List TerminalIncident)
    → AllTerminals P ts
    → AllTerminals P (take n ts)
AllTerminals-take P zero ts h = tt
AllTerminals-take P (suc n) [] h = tt
AllTerminals-take P (suc n) (t ∷ ts) h = (h.0, AllTerminals-take P n ts h.1)

AllTerminals-map :
    (P Q : TerminalIncident → Type 0) (ts : List TerminalIncident)
    → ((t : TerminalIncident) → P t → Q t)
    → AllTerminals P ts
    → AllTerminals Q ts
AllTerminals-map P Q [] f h = tt
AllTerminals-map P Q (t ∷ ts) f h = (f t h.0, AllTerminals-map P Q ts f h.1)

module _ ⦃x : External⦄ where
  -- The bucket records a finished operation under the id.
  IsFinished : Entries → TerminalIncident → Type 0
  IsFinished d t = (i : RescueIncident) × Recorded i d × (i.id ≡ t.id) × (is_prunable i ≡ true)

  Recorded-cons :
      (key value : Bytes) (i : RescueIncident) (d : Entries)
      → lookup key d ≡ none
      → Recorded i d
      → Recorded i ((key, value) ∷ d)
  Recorded-cons key value i d absent (bytes, found, decoded) =
      elim (Bool-cases (bytes_eq (incident_key i.id) key)) [
        | inl e ↦
            let keys = bytes_eq→eq (incident_key i.id) key e in
            absurd (cc (found, absent, ap (λ k. lookup k d) keys))
        | inr e ↦ (bytes, rw e found, decoded)
      ]

  row-eq-ok :
      (network : ℕ) (key value : Bytes) {i : RescueIncident}
      → row decode_rescue_incident network key value ≡ ok i
      → (decode_rescue_incident value ≡ some i) × (bytes_eq key (incident_key i.id) ≡ true)
  unfolding row
  row-eq-ok network key value h = ground arith

  collect_terminals-IsFinished :
      (during : ℕ → ContextState) (n network : ℕ) (d : Entries) {ts : List TerminalIncident}
      → UniqueKeys d
      → collect_terminals during n network d ≡ ok ts
      → AllTerminals (IsFinished d) ts
  unfolding collect_terminals IsFinished
  collect_terminals-IsFinished during n network [] u h = rw (sym (ok_injective h)) tt
  collect_terminals-IsFinished during n network ((key, value) ∷ d) u h =
      let (_, _, h1) = >>=-eq-ok (context_error (during n)) _ h in
      let (i, r, h2) = >>=-eq-ok (row decode_rescue_incident network key value) _ h1 in
      let (rest, c, h3) = >>=-eq-ok (collect_terminals during (suc n) network d) _ h2 in
      let later =
        AllTerminals-map (IsFinished d) (IsFinished ((key, value) ∷ d)) rest
          (λ t (j, recorded, id, p). (j, Recorded-cons key value j d u.0 recorded, id, p))
          (collect_terminals-IsFinished during (suc n) network d u.1 c) in
      let (decoded, same) = row-eq-ok network key value r in
      elim (Bool-cases (is_prunable i)) [
        | inl p ↦
            rw (sym (ok_injective h3), p)
              (
                (
                  i,
                  (value, rw (bytes_eq_sym (incident_key i.id) key, same) refl, decoded),
                  refl,
                  p,
                ),
                later,
              )
        | inr p ↦ rw (sym (ok_injective h3), p) later
      ]

  -- A finished operation whose record is gone.
  abbrev pub Gone : RescueIncident → Entries → Type 0
  Gone i d = (is_prunable i ≡ true) × (lookup (incident_key i.id) d ≡ none)

  delete_terminals-none :
      (during : ℕ → ContextState) (n : ℕ) (ts : List TerminalIncident) (key : Bytes) (d : Entries)
      {after : Entries}
      → delete_terminals during n ts d ≡ ok after
      → lookup key d ≡ none
      → lookup key after ≡ none
  unfolding delete_terminals
  delete_terminals-none during n [] key d h q = rw (sym (ok_injective h)) q
  delete_terminals-none during n (t ∷ ts) key d h q =
      let (_, _, h1) = >>=-eq-ok (context_error (during n)) _ h in
      delete_terminals-none during (suc n) ts key (x.delete (incident_key t.id) d) h1
        (rw (x.delete_lem (incident_key t.id) d) (lookup-erase-none key (incident_key t.id) d q))

  delete_terminals-Recorded :
      (during : ℕ → ContextState) (n : ℕ) (ts : List TerminalIncident) (i : RescueIncident)
      (full d : Entries) {after : Entries}
      → UniqueKeys d
      → Recorded i full
      → AllTerminals (IsFinished full) ts
      → delete_terminals during n ts d ≡ ok after
      → Recorded i d
      → Recorded i after ⊎ Gone i after
  unfolding delete_terminals IsFinished
  delete_terminals-Recorded during n [] i full d u r a h q = inl (rw (sym (ok_injective h)) q)
  delete_terminals-Recorded during n (t ∷ ts) i full d u r a h (bytes, found, decoded) =
      let (_, _, h1) = >>=-eq-ok (context_error (during n)) _ h in
      let (j, recorded, id, p) = a.0 in
      let key = incident_key t.id in
      elim (Bool-cases (bytes_eq (incident_key i.id) key)) [
        | inl e ↦
            let keys = bytes_eq→eq (incident_key i.id) key e in
            let same = Recorded-unique i j full (keys ∙ sym (ap incident_key id)) r recorded in
            inr (
              ap is_prunable same ∙ p,
              delete_terminals-none during (suc n) ts (incident_key i.id) (x.delete key d) h1
                  (rw (x.delete_lem key d, keys) (lookup-erase_self key d u)),
            )
        | inr e ↦
            delete_terminals-Recorded during (suc n) ts i full (x.delete key d)
              (rw (x.delete_lem key d) (UniqueKeys-erase key d u)) r a.1 h1
              (
                bytes,
                ap (lookup (incident_key i.id)) (x.delete_lem key d)
                    ∙ lookup-erase_ne (incident_key i.id) key d e
                    ∙ found,
                decoded,
              )
      ]

  delete_terminals-WellFormed :
      (during : ℕ → ContextState) (n network : ℕ) (ts : List TerminalIncident) (d : Entries)
      {after : Entries}
      → UniqueKeys d
      → AllRows (IsRow network) d
      → delete_terminals during n ts d ≡ ok after
      → UniqueKeys after × AllRows (IsRow network) after
  unfolding delete_terminals
  delete_terminals-WellFormed during n network [] d u a h = rw (sym (ok_injective h)) (u, a)
  delete_terminals-WellFormed during n network (t ∷ ts) d u a h =
      let (_, _, h1) = >>=-eq-ok (context_error (during n)) _ h in
      let key = incident_key t.id in
      delete_terminals-WellFormed during (suc n) network ts (x.delete key d)
        (rw (x.delete_lem key d) (UniqueKeys-erase key d u))
        (rw (x.delete_lem key d) (AllRows-erase (IsRow network) key d a)) h1

  -- What a call of `PruneRescueIncidents` does: nothing, or the deletions of its transaction.
  Pruned : (ℕ → ContextState) → IncidentStore → IncidentStore → Type 0
  Pruned during before after =
      (n : ℕ) × (ts : List TerminalIncident) × (d : Entries) × AllTerminals
        (IsFinished before.incidents) ts
      × (delete_terminals during n ts before.incidents ≡ ok d)
      × (after ≡ record before { incidents = d })

  prune_tx-Pruned :
      (ctx : Context) (during : ℕ → ContextState) (retain : ℕ) (st : IncidentStore) {d : Entries}
      → WellFormed st
      → prune_tx ctx during retain st ≡ ok d
      → Pruned during st (record st { incidents = d })
  unfolding prune_tx Pruned
  prune_tx-Pruned ctx during retain st {d} w h =
      let (_, _, h1) = >>=-eq-ok (context_error ctx.inside) _ h in
      let (ts, c, h2) = >>=-eq-ok (collect_terminals during 0 st.network st.incidents) _ h1 in
      let finished = collect_terminals-IsFinished during 0 st.network st.incidents w.unique c in
      (
        length st.incidents,
        take (length ts - retain) (sort_terminals ts),
        d,
        AllTerminals-take (IsFinished st.incidents) (length ts - retain) (sort_terminals ts)
            (AllTerminals-sort (IsFinished st.incidents) ts finished),
        h2,
        refl,
      )

  prune-Pruned :
      (ctx : Context) (during : ℕ → ContextState) (retain : ℤ) (st : IncidentStore)
      → WellFormed st
      → ((prune_rescue_incidents ctx during retain st).1 ≡ st)
        ⊎ Pruned during st (prune_rescue_incidents ctx during retain st).1
  unfolding prune_rescue_incidents
  prune-Pruned ctx during (negsuc m) st w = inl refl
  prune-Pruned ctx during (pos retain) st w =
      elim (Fallible-cases
        (fail_if (ltb max_configured_bound retain) invalid_input >> begin ctx.entry st)) [
          | inl (e, q) ↦ inl (rw (prune_rescue_incidents, q) refl)
          | inr (_, q) ↦ elim (Fallible-cases (prune_tx ctx during retain st)) [
            | inl (e, r) ↦ inl (rw (prune_rescue_incidents, q, r) refl)
            | inr (d, r) ↦
                inr (rw (prune_rescue_incidents, q, r) (prune_tx-Pruned ctx during retain st w r))
          ]
        ]

  pub prune-WellFormed :
      (ctx : Context) (during : ℕ → ContextState) (retain : ℤ) (st : IncidentStore)
      → WellFormed st
      → WellFormed (prune_rescue_incidents ctx during retain st).1
  unfolding Pruned
  prune-WellFormed ctx during retain st w = elim (prune-Pruned ctx during retain st w) [
    | inl same ↦ rw same w
    | inr (n, ts, d, a, h, same) ↦
        let (u, rows) =
          delete_terminals-WellFormed during n st.network ts st.incidents w.unique w.rows h in
        rw same (record { unique = u; rows = rows })
  ]

  pub prune-Recorded :
      (ctx : Context) (during : ℕ → ContextState) (retain : ℤ) (st : IncidentStore)
      (i : RescueIncident)
      → WellFormed st
      → Recorded i st.incidents
      → Recorded i (prune_rescue_incidents ctx during retain st).1.incidents
        ⊎ Gone i (prune_rescue_incidents ctx during retain st).1.incidents
  unfolding Pruned
  prune-Recorded ctx during retain st i w r = elim (prune-Pruned ctx during retain st w) [
    | inl same ↦ inl (rw same r)
    | inr (n, ts, d, a, h, same) ↦
        rw same (delete_terminals-Recorded during n ts i st.incidents st.incidents w.unique r a h r)
  ]

  -- Pruning touches the incidents only.
  pub prune-rest :
      (ctx : Context) (during : ℕ → ContextState) (retain : ℤ) (st : IncidentStore)
      → (prune_rescue_incidents ctx during retain st).1
        ≡ record st { incidents = (prune_rescue_incidents ctx during retain st).1.incidents }
  unfolding prune_rescue_incidents
  prune-rest ctx during (negsuc m) st = refl
  prune-rest ctx during (pos retain) st =
      elim (Fallible-cases
        (fail_if (ltb max_configured_bound retain) invalid_input >> begin ctx.entry st)) [
          | inl (e, q) ↦ rw (prune_rescue_incidents, q) refl
          | inr (_, q) ↦ elim (Fallible-cases (prune_tx ctx during retain st)) [
            | inl (e, r) ↦ rw (prune_rescue_incidents, q, r) refl
            | inr (d, r) ↦ rw (prune_rescue_incidents, q, r) refl
          ]
        ]
