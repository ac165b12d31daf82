-- ===== src/Budget/Operations/Moves.antt =====
-- `MarkExposed`, `CommitFinalized` and `ReleaseProvenUnused` as steps, and what they do to sums.
use guard_daemon.Prelude.{
  ℕ, ◌≡◌, refl, ap, ◌∙◌, ◌||◌, some, Bytes, AllValues, lookup, insert, ◌==◌, inl, inr, ◌⊎◌,
}
use guard_daemon.Instant.{zero_time, IsInstant}
use guard_daemon.External.{External}
use guard_daemon.Budget.Types.{
  Result, ok, fail_if-eq-ok, invalid_request, FinalizedCharge, ReservationState, committed,
  released, Reservation, ReservationFits,
}
use guard_daemon.Budget.Codec.{encode_reservation, decode_reservation, id_key}
use guard_daemon.Budget.State.{Ledger, State, Context}
use guard_daemon.Budget.State.Times.{IsPersistent}
use guard_daemon.Budget.Operations.{
  expose, settle, release, mark_exposed, commit_finalized, release_proven_unused,
}
use guard_daemon.Budget.Operations.Lifecycle.{Step, expose-Step, settle-Step, release-Step}
use guard_daemon.Budget.Operations.Transition.{Moved, transition-Moved}

module _ ⦃x : External⦄ where
  -- Every record that decodes has its fields in the ranges of their types.
  abbrev pub IsRecord : Bytes → Type 0
  IsRecord bytes = (r : Reservation) → decode_reservation bytes ≡ some r → ReservationFits r

  abbrev pub FileFits : State → Type 0
  FileFits st = AllValues IsRecord st.reservations

  -- A step of one reservation in the file.
  pub record Stepped (l : Ledger) (id now : ℕ) (st : State) (r : Reservation) (st' : State)
      : Type 0 where
    pub before : Reservation
    pub bytes : Bytes
    pub stored : lookup (id_key id) st.reservations ≡ some bytes
    pub decoded : decode_reservation bytes ≡ some before
    pub before_id : before.id ≡ id
    pub persistent : IsPersistent now
    pub step : Step l now before r
    pub rows :
        ((r ≡ before) × (st'.reservations ≡ st.reservations))
        ⊎ ((bytes : Bytes) × (encode_reservation r ≡ ok bytes)
            × (st'.reservations ≡ insert (id_key id) bytes st.reservations))

  Moved-Stepped :
      (l : Ledger) (id now : ℕ) (update : ReservationState → Reservation → ℕ → Result Reservation)
      (st : State) {r : Reservation} {st' : State}
      → (m : Moved l id now update st r st') → Step l now m.before r
      → Stepped l id now st r st'
  Moved-Stepped l id now update st {r} {st'} m step = record {
    before = m.before;
    bytes = m.bytes;
    stored = rw (← m.same_rows, ← x.get_lem (id_key id) (m.start).reservations) m.stored;
    decoded = m.decoded;
    before_id = m.before_id;
    persistent = m.persistent;
    step = step;
    rows = elim m.written.rows [
      | inl (same, kept) ↦ inl (same, kept ∙ m.same_rows)
      | inr (bytes, e, put) ↦ inr (
        bytes,
        e,
        put
            ∙ x.put_lem (id_key id) bytes (m.start).reservations
            ∙ ap (λ b. insert (id_key id) bytes b) m.same_rows,
      )
    ];
  }

  -- A successful `MarkExposed` at an instant has moved the reservation of the id, found in the file,
  -- by a step, and written it if that changed it; it has the hash given and the charge it had.
  pub mark_exposed-Stepped :
      (l : Ledger) (ctx : Context) (now id tx_hash : ℕ) (st : State) {r : Reservation} {st' : State}
      → IsInstant now
      → mark_exposed l ctx now id tx_hash st ≡ ok (r, st')
      → (t : ℕ) × (s : Stepped l id t st r st') × (r.tx_hash ≡ tx_hash)
        × (r.actual ≡ s.before.actual)
  unfolding mark_exposed Moved-Stepped
  mark_exposed-Stepped l ctx now id tx_hash st i h =
      let (_, h1) = fail_if-eq-ok (id == 0 || tx_hash == 0) invalid_request _ h in
      let (t, m) = transition-Moved l ctx id zero_time now (expose tx_hash) st i h1 in
      let (step, hash, actual) = expose-Step l tx_hash t m.before.state m.before refl m.updated in
      (t, Moved-Stepped l id t (expose tx_hash) st m step, hash, actual)

  -- A successful `CommitFinalized` at an instant has moved the reservation of the id, found in the
  -- file, by a step, and written it if that changed it; it is committed with the hash and the
  -- charge given.
  pub commit_finalized-Stepped :
      (l : Ledger) (ctx : Context) (now : ℕ) (charge : FinalizedCharge) (st : State)
      {r : Reservation} {st' : State}
      → IsInstant now
      → commit_finalized l ctx now charge st ≡ ok (r, st')
      → (t : ℕ) × Stepped l charge.reservation_id t st r st'
        × (r.state ≡ committed)
        × (r.tx_hash ≡ charge.tx_hash)
        × (r.actual ≡ charge.actual)
  unfolding commit_finalized
  commit_finalized-Stepped l ctx now charge st i h =
      let (_, h1) =
        fail_if-eq-ok (charge.reservation_id == 0 || charge.tx_hash == 0 || charge.actual == 0)
          invalid_request _ h in
      let (t, m) =
        transition-Moved l ctx charge.reservation_id charge.observed_at now (settle l charge) st i
          h1 in
      let s = settle-Step l charge t m.before.state m.before refl m.updated in
      (t, Moved-Stepped l charge.reservation_id t (settle l charge) st m s.0, s.1, s.2, s.3)

  -- A successful `ReleaseProvenUnused` at an instant has moved the reservation of the id, found in
  -- the file, by a step, and written it if that changed it; it is released, with the hash and the
  -- charge it had.
  pub release_proven_unused-Stepped :
      (l : Ledger) (ctx : Context) (now id : ℕ) (st : State) {r : Reservation} {st' : State}
      → IsInstant now
      → release_proven_unused l ctx now id st ≡ ok (r, st')
      → (t : ℕ) × (s : Stepped l id t st r st') × (r.state ≡ released)
        × (r.tx_hash ≡ s.before.tx_hash)
        × (r.actual ≡ s.before.actual)
  unfolding release_proven_unused Moved-Stepped
  release_proven_unused-Stepped l ctx now id st i h =
      let (_, h1) = fail_if-eq-ok (id == 0) invalid_request _ h in
      let (t, m) = transition-Moved l ctx id zero_time now release st i h1 in
      let (step, state, hash, actual) = release-Step l t m.before.state m.before refl m.updated in
      (t, Moved-Stepped l id t release st m step, state, hash, actual)
