-- ===== src/Budget/Operations/Transition.antt =====
-- `transition`: one reservation moves by a step, and nothing else in the file changes.
use guard_daemon.Prelude.{
  ℕ, ◌≡◌, refl, ap, not, ◌||◌, some, arith, Bytes, Bool-cases, inl, inr, ◌⊎◌,
}
use mathlib.Core.Logic.{if_pos, if_neg}
use guard_daemon.Instant.{is_zero, IsInstant}
use guard_daemon.Prelude.{Fallible}
use guard_daemon.External.{External}
use guard_daemon.Budget.Types.{
  Result, ok, ◌>>=◌, ◌>>◌, >>=-eq-ok, fail_if, fail_if-eq-ok, or_else, or_else-eq-ok, is_err,
  ok_injective, corrupt, invalid_request, ReservationState, Reservation, Reservation-discrete,
}
use guard_daemon.Budget.Codec.{encode_reservation, decode_reservation, id_key}
use guard_daemon.Budget.State.{
  Ledger, State, Context, context_error, begin, observed_now, effective_now, last_seen,
  reservation_by_id, validate_reservation,
}
use guard_daemon.Budget.State.Times.{
  IsPersistent, valid-IsPersistent, effective_now-Advance, observed_now-valid,
  last_seen-IsPersistent,
}
use guard_daemon.Budget.State.Valid.{IsValidReservation, reservation_by_id-eq-ok}
use guard_daemon.Budget.Usage.{AggregateUsage, collect_usage}
use guard_daemon.Budget.Operations.{transition_now, write_back, transition_tx, transition, close_to}
use guard_daemon.Budget.Operations.Reserved.{public-eq-ok}

module _ ⦃x : External⦄ where
  -- What was written, given what was there.
  pub record Written (id : ℕ) (before r : Reservation) (st st' : State) : Type 0 where
    pub index : st'.attempts ≡ st.attempts
    pub rows :
        ((r ≡ before) × (st'.reservations ≡ st.reservations))
        ⊎ ((bytes : Bytes) × (encode_reservation r ≡ ok bytes)
            × (st'.reservations ≡ x.put (id_key id) bytes st.reservations))

  -- What a successful transition has done: `start` is the state at the transition's time.
  pub record Moved (l : Ledger) (id now : ℕ)
      (update : ReservationState → Reservation → ℕ → Result Reservation) (st : State)
      (r : Reservation) (st' : State) : Type 0 where
    pub usage : AggregateUsage
    pub start : State
    pub same_rows : start.reservations ≡ st.reservations
    pub same_index : start.attempts ≡ st.attempts
    pub accepted : collect_usage l now start ≡ ok usage
    pub persistent : IsPersistent now
    pub before : Reservation
    pub bytes : Bytes
    pub stored : x.get (id_key id) start.reservations ≡ some bytes
    pub decoded : decode_reservation bytes ≡ some before
    pub before_id : before.id ≡ id
    pub before_valid : IsValidReservation l before
    pub updated : update before.state before now ≡ ok r
    pub written : Written id before r start st'

  record Started (st : State) (p : ℕ × State) : Type 0 where
    persistent : IsPersistent (p.0)
    reservations : (p.1).reservations ≡ st.reservations
    attempts : (p.1).attempts ≡ st.attempts

  transition_now-Started :
      (chain now : ℕ) (st : State) {p : ℕ × State}
      → IsInstant now
      → transition_now chain now st ≡ ok p
      → Started st p
  unfolding transition_now
  transition_now-Started chain now st {p} i h = elim (Bool-cases (is_zero chain)) [
    | inl e ↦
        let h1 : (last_seen st >>= λ seen. ok (seen, st)) ≡ ok p = rw (e, transition_now) at h in
        let (seen, s, h2) = >>=-eq-ok (last_seen st) _ h1 in
        rw (← ok_injective h2) (record {
          persistent = last_seen-IsPersistent st s;
          reservations = refl;
          attempts = refl;
        })
    | inr e ↦
        let h1 : (fail_if (is_err (observed_now now) || not (close_to chain now)) invalid_request
              >> effective_now now st)
            ≡ ok p =
          rw (e, transition_now) at h in
        let (t, h2) = fail_if-eq-ok _ _ _ h1 in
        let adv =
          effective_now-Advance now st
            (valid-IsPersistent now (observed_now-valid now (ground arith)) i) h2 in
        record {
          persistent = adv.persistent;
          reservations = adv.reservations;
          attempts = adv.attempts;
        }
  ]

  write_back-Written :
      (l : Ledger) (id : ℕ) (before r : Reservation) (st : State) {r' : Reservation} {st' : State}
      → write_back l id before r st ≡ ok (r', st')
      → (r ≡ r') × Written id before r st st'
  unfolding write_back
  write_back-Written l id before r st {r'} {st'} h = elim (Reservation-discrete r before) [
    | yes same ↦
        let h1 : Fallible.ok (r, st) ≡ ok (r', st') = rw (write_back, if_pos _ same) at h in
        let state = ap (λ (p : Reservation × State). p.1) (ok_injective h1) in
        (
          ap (λ (p : Reservation × State). p.0) (ok_injective h1),
          rw (← state) (record { index = refl; rows = inl (same, refl) }),
        )
    | no differ ↦
        let h1 : (or_else (validate_reservation l r) corrupt
              >> (or_else (encode_reservation r) corrupt >>= λ encoded.
                  ok (r, record st { reservations = x.put (id_key id) encoded st.reservations })))
            ≡ ok (r', st') =
          rw (write_back, if_neg _ differ) at h in
        let (_, _, h2) = >>=-eq-ok (or_else (validate_reservation l r) corrupt) _ h1 in
        let (bytes, e, h3) = >>=-eq-ok (or_else (encode_reservation r) corrupt) _ h2 in
        let state = ap (λ (p : Reservation × State). p.1) (ok_injective h3) in
        (
          ap (λ (p : Reservation × State). p.0) (ok_injective h3),
          rw (← state) (record {
            index = refl;
            rows = inr (bytes, or_else-eq-ok (encode_reservation r) corrupt e, refl);
          }),
        )
  ]

  transition_tx-Moved :
      (l : Ledger) (ctx : Context) (id chain now : ℕ)
      (update : ReservationState → Reservation → ℕ → Result Reservation) (st : State)
      {r : Reservation} {st' : State}
      → IsInstant now
      → transition_tx l ctx id chain now update st ≡ ok (r, st')
      → (t : ℕ) × Moved l id t update st r st'
  unfolding transition_tx
  transition_tx-Moved l ctx id chain now update st {r} {st'} i h =
      let (_, _, h1) = >>=-eq-ok (context_error ctx.inside) _ h in
      let (at, e, h2) = >>=-eq-ok (transition_now chain now st) _ h1 in
      let started = transition_now-Started chain now st i e in
      let (u, c, h3) = >>=-eq-ok (collect_usage l at.0 at.1) _ h2 in
      let (before, b, h4) = >>=-eq-ok (reservation_by_id l id at.1) _ h3 in
      let (r', moved, h5) = >>=-eq-ok (update before.state before at.0) _ h4 in
      (at.0, assemble at.0 at.1 started u c before b r' moved h5)
    where
      assemble :
          (t : ℕ) (start : State)
          → Started st (t, start)
          → (u : AggregateUsage) → collect_usage l t start ≡ ok u
          → (before : Reservation) → reservation_by_id l id start ≡ ok before
          → (r' : Reservation) → update before.state before t ≡ ok r'
          → write_back l id before r' start ≡ ok (r, st')
          → Moved l id t update st r st'
      assemble t start started u c before b r' moved w =
          let (same, written) = write_back-Written l id before r' start w in
          let (i, v, (bytes, stored, decoded)) = reservation_by_id-eq-ok l id start b in
          rw (← same) (record {
            usage = u;
            start = start;
            same_rows = started.reservations;
            same_index = started.attempts;
            accepted = c;
            persistent = started.persistent;
            before = before;
            bytes = bytes;
            stored = stored;
            decoded = decoded;
            before_id = i;
            before_valid = v;
            updated = moved;
            written = written;
          })

  -- A successful transition found a valid reservation under the id in a file that the ledger
  -- accepts, and wrote what the update returned, under the same id, if that is another record.
  pub transition-Moved :
      (l : Ledger) (ctx : Context) (id chain now : ℕ)
      (update : ReservationState → Reservation → ℕ → Result Reservation) (st : State)
      {r : Reservation} {st' : State}
      → IsInstant now
      → transition l ctx id chain now update st ≡ ok (r, st')
      → (t : ℕ) × Moved l id t update st r st'
  unfolding transition
  transition-Moved l ctx id chain now update st i h =
      let (_, _, h1) = >>=-eq-ok (begin ctx.entry st) _ h in
      transition_tx-Moved l ctx id chain now update st i
        (public-eq-ok (transition_tx l ctx id chain now update st) h1)
