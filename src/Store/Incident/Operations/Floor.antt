-- ===== src/Store/Incident/Operations/Floor.antt =====
-- The floor of the sponsor's nonce only rises.
use guard_daemon.Prelude.{
  ℕ, ◌^◌, ◌<◌, ◌≤◌, ◌≡◌, refl, ap, sym, ◌∙◌, ◌⊎◌, inl, inr, some, List, [], ◌∷◌, arith, Entries,
  lookup, insert, be_bytes, length-be_bytes, be_value-be_bytes, lookup-insert_self, leb,
  Option-cases, Bool-cases,
}
use mathlib.Core.Option.{some-injective}
use guard_daemon.External.{External}
use guard_daemon.Budget.State.{Context}
use guard_daemon.Store.Types.{ok, Fallible-cases}
use guard_daemon.Store.Incident.{RescueIncident}
use guard_daemon.Store.Incident.Operations.{
  IncidentStore, nonce_floor_key, decode_uint64, begin, raise_tx, raise_nonce_floor,
}
use guard_daemon.Store.Incident.Operations.Moves.{Wrote, put-Wrote, update-Wrote}
use guard_daemon.Store.Incident.Operations.Prune.{prune-rest}
use guard_daemon.Store.Incident.Operations.Runs.{
  Call, put, update, raise, prune, CallFits, AllFit, perform, run,
}

-- The floor that is stored.
abbrev pub HasFloor : ℕ → Entries → Type 0
HasFloor n meta = decode_uint64 (lookup nonce_floor_key meta) ≡ some n

HasFloor-insert :
    (n : ℕ) (meta : Entries) → n < 2 ^ 64 → HasFloor n (insert nonce_floor_key (be_bytes 8 n) meta)
unfolding decode_uint64
HasFloor-insert n meta f =
    rw
      (
        lookup-insert_self nonce_floor_key (be_bytes 8 n) meta,
        length-be_bytes 8 n,
        be_value-be_bytes 8 n f,
      )
      refl

module _ ⦃x : External⦄ where
  raise_tx-floor :
      (ctx : Context) (n : ℕ) (st : IncidentStore) {d : Entries}
      → n < 2 ^ 64
      → raise_tx ctx n st ≡ ok d
      → (k : ℕ) × HasFloor k d × (n ≤ k) × ((m : ℕ) → HasFloor m st.meta → m ≤ k)
  unfolding raise_tx
  raise_tx-floor ctx n st {d} f h =
      let got = x.get_lem nonce_floor_key st.meta in
      let put_eq = x.put_lem nonce_floor_key (be_bytes 8 n) st.meta in
      elim (Option-cases (decode_uint64 (lookup nonce_floor_key st.meta))) [
        | inl e ↦ absurd (ground (arith, got, e))
        | inr (m, e) ↦
            let only = λ (l : ℕ) (q : HasFloor l st.meta). some-injective l m (sym q ∙ e) in
            elim (Bool-cases (leb n m)) [
              | inl q ↦
                  let same : d ≡ st.meta = ground (arith, got, e, q) in
                  (m, rw same e, ground arith, λ l r. omega (arith, only l r))
              | inr q ↦
                  let same : d ≡ insert nonce_floor_key (be_bytes 8 n) st.meta =
                    ground (arith, got, e, q, put_eq) in
                  (
                    n,
                    rw same (HasFloor-insert n st.meta f),
                    omega arith,
                    λ l r. let l_eq = only l r in ground arith,
                  )
            ]
      ]

  -- After a call of `RaiseNonceFloor` that succeeds the floor is at least its argument.
  pub raise-floor :
      (ctx : Context) (n : ℕ) (st : IncidentStore)
      → n < 2 ^ 64
      → (raise_nonce_floor ctx n st).0 ≡ ok tt
      → (k : ℕ) × HasFloor k (raise_nonce_floor ctx n st).1.meta × (n ≤ k)
  unfolding raise_nonce_floor
  raise-floor ctx n st f h = elim (Fallible-cases (begin ctx.entry st)) [
    | inl (e, q) ↦ absurd (ground (arith, q))
    | inr (_, q) ↦ elim (Fallible-cases (raise_tx ctx n st)) [
      | inl (e, r) ↦ absurd (ground (arith, q, r))
      | inr (d, r) ↦
          let (k, floor, le, _) = raise_tx-floor ctx n st f r in
          rw (raise_nonce_floor, q, r) (k, floor, le)
    ]
  ]

  raise-floor_le :
      (ctx : Context) (n m : ℕ) (st : IncidentStore)
      → n < 2 ^ 64
      → HasFloor m st.meta
      → (k : ℕ) × HasFloor k (raise_nonce_floor ctx n st).1.meta × (m ≤ k)
  unfolding raise_nonce_floor
  raise-floor_le ctx n m st f h = elim (Fallible-cases (begin ctx.entry st)) [
    | inl (e, q) ↦ rw (raise_nonce_floor, q) (m, h, omega arith)
    | inr (_, q) ↦ elim (Fallible-cases (raise_tx ctx n st)) [
      | inl (e, r) ↦ rw (raise_nonce_floor, q, r) (m, h, omega arith)
      | inr (d, r) ↦
          let (k, floor, _, above) = raise_tx-floor ctx n st f r in
          rw (raise_nonce_floor, q, r) (k, floor, above m h)
    ]
  ]

  Wrote-meta :
      (i : RescueIncident) (before after : IncidentStore)
      → (after ≡ before) ⊎ Wrote i before after
      → after.meta ≡ before.meta
  Wrote-meta i before after (inl same) = ap (λ (st : IncidentStore). st.meta) same
  Wrote-meta i before after (inr w) = ap (λ (st : IncidentStore). st.meta) w.result

  perform-floor :
      (c : Call) (m : ℕ) (st : IncidentStore)
      → CallFits c
      → HasFloor m st.meta
      → (k : ℕ) × HasFloor k (perform c st).meta × (m ≤ k)
  unfolding perform
  perform-floor (put ctx i) m st f h =
      (m, rw (Wrote-meta i st _ (put-Wrote ctx i st)) h, omega arith)
  perform-floor (update ctx i) m st f h =
      (m, rw (Wrote-meta i st _ (update-Wrote ctx i st)) h, omega arith)
  perform-floor (raise ctx n) m st f h = raise-floor_le ctx n m st f h
  perform-floor (prune ctx during retain) m st f h = (
    m,
    rw (ap (λ (st : IncidentStore). st.meta) (prune-rest ctx during retain st)) h,
    omega arith,
  )

  run-floor :
      (cs : List Call) (m : ℕ) (st : IncidentStore)
      → AllFit cs
      → HasFloor m st.meta
      → (k : ℕ) × HasFloor k (run cs st).meta × (m ≤ k)
  unfolding run
  run-floor [] m st f h = (m, h, omega arith)
  run-floor (c ∷ cs) m st f h =
      let (k, floor, le) = perform-floor c m st f.0 h in
      let (l, last, further) = run-floor cs k (perform c st) f.1 floor in
      (l, last, omega (arith, le, further))

  -- Once a call of `RaiseNonceFloor` has succeeded, the floor is at least its argument after any calls
  -- that follow.
  pub run-raised :
      (ctx : Context) (n : ℕ) (cs : List Call) (st : IncidentStore)
      → n < 2 ^ 64
      → AllFit cs
      → (raise_nonce_floor ctx n st).0 ≡ ok tt
      → (k : ℕ) × HasFloor k (run cs (raise_nonce_floor ctx n st).1).meta × (n ≤ k)
  run-raised ctx n cs st f fits h =
      let (m, floor, le) = raise-floor ctx n st f h in
      let (k, last, further) = run-floor cs m (raise_nonce_floor ctx n st).1 fits floor in
      (k, last, omega (arith, le, further))
