-- ===== src/Budget/Operations/Reserved.antt =====
-- `Reserve` from its first check to its last.
use guard_daemon.Prelude.{ℕ, ◌≤◌, ◌≡◌, ◌∙◌, not, ◌&&◌, none, some, arith, Option-cases, inl, inr}
use guard_daemon.Instant.{is_zero, IsInstant, IsStamp}
use guard_daemon.External.{External}
use guard_daemon.Budget.Types.{
  Result, ok, err, >>=-eq-ok, fail_if-eq-ok, ReservationRequest, Reservation, RequestFits,
}
use guard_daemon.Budget.Codec.{attempt_key}
use guard_daemon.Budget.State.{
  Ledger, State, Context, validate_request, observed_now, effective_now, context_error, begin,
  public,
}
use guard_daemon.Budget.State.Times.{
  IsPersistent, valid-IsPersistent, effective_now-Advance, observed_now-eq-ok,
}
use guard_daemon.Budget.Usage.{AggregateUsage, collect_usage}
use guard_daemon.Budget.Usage.Collected.{LedgerFits}
use guard_daemon.Budget.Operations.{reserve_existing, reserve_new, reserve_tx, reserve, close_to}
use guard_daemon.Budget.Operations.Reserve.{Outcome, found, admitted, reserve_new-Outcome}
use guard_daemon.Budget.Operations.Again.{reserve_existing-Outcome}

pub public-eq-ok {ℓ} : {A : Type ℓ} (m : Result A) {a : A} → public m ≡ ok a → m ≡ ok a
unfolding public
public-eq-ok (ok a) h = h
public-eq-ok (err e) h = cc

module _ ⦃x : External⦄ where
  Outcome-from :
      (l : Ledger) (request : ReservationRequest) (now : ℕ) (st before : State) {r : Reservation}
      {st' : State}
      → before.reservations ≡ st.reservations
      → before.attempts ≡ st.attempts
      → Outcome l request now before r st'
      → Outcome l request now st r st'
  Outcome-from l request now st before rows index (found a b c d e) =
      found (a ∙ rows) (b ∙ index) c d e
  Outcome-from l request now st before rows index (admitted a b c d e f) = admitted a b c d e f

  reserve_tx-Outcome :
      (l : Ledger) (ctx : Context) (observed : ℕ) (request : ReservationRequest) (st : State)
      {r : Reservation} {st' : State}
      → LedgerFits l
      → RequestFits request
      → IsPersistent observed
      → reserve_tx l ctx observed request st ≡ ok (r, st')
      → (now : ℕ) × (observed ≤ now) × Outcome l request now st r st'
  unfolding reserve_tx
  reserve_tx-Outcome l ctx observed request st {r} {st'} f g p h =
      let (_, _, h1) = >>=-eq-ok (context_error ctx.inside) _ h in
      let (at, e, h2) = >>=-eq-ok (effective_now observed st) _ h1 in
      let adv = effective_now-Advance observed st p e in
      let (u, c, h3) = >>=-eq-ok (collect_usage l at.0 at.1) _ h2 in
      (
        at.0,
        adv.after_observed,
        Outcome-from l request at.0 st at.1 adv.reservations adv.attempts
            (chosen at.0 at.1 adv.persistent.stamp u c h3),
      )
    where
      chosen :
          (now : ℕ) (before : State)
          → IsStamp now
          → (u : AggregateUsage) → collect_usage l now before ≡ ok u
          → (elim (x.get (attempt_key request.attempt) before.attempts) [
            | some id_bytes ↦ reserve_existing l request now u id_bytes before
            | none ↦ reserve_new l request now u before
          ])
            ≡ ok (r, st')
          → Outcome l request now before r st'
      chosen now before s u c k =
          elim (Option-cases (x.get (attempt_key request.attempt) before.attempts)) [
            | inl e ↦ reserve_new-Outcome l request now before f g s c (ground (arith, e))
            | inr (bytes, e) ↦
                reserve_existing-Outcome l request now bytes before f g s c e (ground (arith, e))
          ]

  -- For limits that fit 256 bits, a request in the ranges of its types and a clock's instant: a
  -- successful `Reserve` returns a reservation that the file then holds under its id, with the index
  -- pointing at it. Either it was in use for the attempt and no record was written; or it is held for
  -- the request, at a time not before the clock's and at the price of its quote. Then the price is
  -- within the limits of a transaction, globally and of the network; what the file records, this
  -- reservation included, is within the hourly, daily and cumulative limits of both; and the
  -- sponsor's balance covers its emergency reserve and all that is set aside.
  pub reserve-Outcome :
      (l : Ledger) (ctx : Context) (now : ℕ) (request : ReservationRequest) (st : State)
      {r : Reservation} {st' : State}
      → LedgerFits l
      → RequestFits request
      → IsInstant now
      → reserve l ctx now request st ≡ ok (r, st')
      → (t : ℕ) × (now ≤ t) × Outcome l request t st r st'
  unfolding reserve
  reserve-Outcome l ctx now request st {r} {st'} f g i h =
      let (_, _, h1) = >>=-eq-ok (validate_request l request) _ h in
      let (_, _, h2) = >>=-eq-ok (begin ctx.entry st) _ h1 in
      let (observed, o, h3) = >>=-eq-ok (observed_now now) _ h2 in
      let (_, h4) =
        fail_if-eq-ok
          (not (is_zero request.observed_at) && not (close_to request.observed_at observed)) _ _
          h3 in
      let (same, valid) = observed_now-eq-ok now o in
      let persistent : IsPersistent observed = rw same (valid-IsPersistent now valid i) in
      let (t, le, out) =
        reserve_tx-Outcome l ctx observed request st f g persistent
          (public-eq-ok (reserve_tx l ctx observed request st) h4) in
      (t, omega arith, out)
