-- ===== src/Budget/Operations.antt =====
-- The ledger's operations (internal/budget/ledger.go). A transaction that fails leaves the state
-- as it was: a result carries the new state only on success. `now` is what the clock reads.
pub mod Admission
pub mod Reserve
pub mod Again
pub mod Reserved
pub mod Lifecycle
pub mod Transition
pub mod Moves
pub mod Sums
use guard_daemon.Prelude.{
  ℕ, ◌+◌, ◌-◌, Bool, true, false, not, ◌&&◌, ◌||◌, Option, none, some, List, [], ◌∷◌, Bytes,
  Entries, length, be_value, ltb, leb, ◌==◌, if◌then◌else◌, ite,
}
use guard_daemon.Instant.{is_zero, zero_time}
use guard_daemon.External.{External}
use guard_daemon.Budget.Types.{
  Error, Result, ok, err, ◌>>=◌, ◌>>◌, fail_if, or_else, is_err, corrupt, invalid_request,
  state_conflict, sponsor_reserve, budget_exceeded, capacity, NetworkPolicy, Attempt,
  ReservationRequest, ReservationState, held, exposed, committed, released, other, Reservation,
  Reservation-discrete, FinalizedCharge, ScopeSnapshot, attempt_eq,
}
use guard_daemon.Budget.Cost.{
  maximum_cost, check_scope_budget, sponsor_has_capacity, make_scope_snapshot,
}
use guard_daemon.Budget.Codec.{
  encode_reservation, decode_reservation, id_key, attempt_key, new_reservation_id,
  same_reservation_request, valid_persistent_time,
}
use guard_daemon.Budget.State.{
  Ledger, State, Context, context_error, public, begin, observed_now, within_observed_skew,
  network_of, validate_request, valid_attempt, validate_reservation, reservation_by_id, last_seen,
  effective_now,
}
use guard_daemon.Budget.Usage.{AggregateUsage, collect_usage, or_corrupt, is_open}

-- A time is used if it is zero, or persistent and close to the local clock.
abbrev pub close_to : ℕ → ℕ → Bool
close_to chain local = valid_persistent_time chain && within_observed_skew chain local

-- `*selected` is kept unless the next released reservation is older, or as old with a smaller id.
older : Option Reservation → Reservation → Bool
older none r = true
older (some s) r = ltb r.updated_at s.updated_at || (r.updated_at == s.updated_at && ltb r.id s.id)

abbrev is_released : ReservationState → Bool
is_released held = false
is_released exposed = false
is_released committed = false
is_released released = true
is_released (other _) = false

-- The transition functions that `MarkExposed`, `CommitFinalized` and `ReleaseProvenUnused` hand
-- to `transition`: the reservation's state, the reservation and the time.
unfoldable pub expose : ℕ → ReservationState → Reservation → ℕ → Result Reservation
expose tx_hash held r now =
    ok (record r { state = exposed; tx_hash = tx_hash; exposed_at = now; updated_at = now })
expose tx_hash exposed r now = fail_if (not (r.tx_hash == tx_hash)) state_conflict >> ok r
expose tx_hash committed r now = fail_if (not (r.tx_hash == tx_hash)) state_conflict >> ok r
expose tx_hash released r now = err state_conflict
expose tx_hash (other _) r now = err corrupt

unfoldable pub settle :
    Ledger → FinalizedCharge → ReservationState → Reservation → ℕ → Result Reservation
settle l c exposed r now =
    fail_if
      (not (r.tx_hash == c.tx_hash)
        || (ltb r.maximum c.actual && not (network_of l r.request.network).allow_fee_overrun))
      state_conflict
    >> ok (record r { state = committed; actual = c.actual; updated_at = now })
settle l c committed r now =
    fail_if (not (r.tx_hash == c.tx_hash) || not (r.actual == c.actual)) state_conflict >> ok r
settle l c held r now = err state_conflict
settle l c released r now = err state_conflict
settle l c (other _) r now = err corrupt

unfoldable pub release : ReservationState → Reservation → ℕ → Result Reservation
release held r now = ok (record r { state = released; updated_at = now })
release released r now = ok r
release exposed r now = err state_conflict
release committed r now = err state_conflict
release (other _) r now = err corrupt

-- A reservation just held at `now`.
abbrev pub held_reservation : ℕ → ReservationRequest → ℕ → ℕ → Reservation
held_reservation id request maximum now = record {
  id = id;
  request = request;
  maximum = maximum;
  state = held;
  tx_hash = 0;
  actual = 0;
  created_at = now;
  exposed_at = zero_time;
  updated_at = now;
}

module _ ⦃x : External⦄ where
  -- `encodeReservation` and `Put` under the reservation's id.
  unfoldable pub store_reservation : Reservation → State → Result State
  store_reservation r st = do
    encoded ← or_else (encode_reservation r) corrupt
    ok (record st { reservations = x.put (id_key r.id) encoded st.reservations })

  pub select_oldest : Ledger → Entries → Option Reservation → Result (Option Reservation)
  unfolding older
  select_oldest l [] selected = ok selected
  select_oldest l ((_, value) ∷ rows) selected = do
    r ← or_corrupt (decode_reservation value)
    fail_if (is_err (validate_reservation l r)) corrupt
    select_oldest l rows (if is_released r.state && older selected r then some r else selected)

  pub remove_selected : State → Option Reservation → Option State
  remove_selected st none = none
  remove_selected st (some r) = some (record st {
    reservations = x.delete (id_key r.id) st.reservations;
    attempts = x.delete (attempt_key r.request.attempt) st.attempts;
  })

  -- `purgeOldestReleased`: `none` if there is nothing to remove.
  pub purge_oldest_released : Ledger → State → Result (Option State)
  purge_oldest_released l st = do
    selected ← select_oldest l st.reservations none
    ok (remove_selected st selected)

  -- The checks that let a reservation in, and its price.
  unfoldable pub admit : Ledger → ReservationRequest → AggregateUsage → Result ℕ
  admit l request usage = do
    let n = network_of l request.network
    maximum ← maximum_cost request.quote n.transaction_overhead
    check_scope_budget l.policy.global usage.global maximum
    check_scope_budget n.limits (usage.networks request.network) maximum
    fail_if
        (not (
          sponsor_has_capacity request.sponsor_balance n.emergency_sponsor_reserve
            (usage.sponsors request.network request.sponsor) maximum))
        sponsor_reserve
    ok maximum

  -- A released reservation is held again, under the checks of a new one.
  unfoldable pub reopen :
      Ledger
      → ReservationRequest
      → ℕ
      → AggregateUsage
      → Reservation
      → State
      → Result (Reservation × State)
  reopen l request now usage existing st = do
    _ ← admit l request usage
    let r = held_reservation existing.id request existing.maximum now
    st ← store_reservation r st
    ok (r, st)

  -- The branch for an attempt that has a reservation.
  unfoldable pub reserve_existing :
      Ledger
      → ReservationRequest
      → ℕ
      → AggregateUsage
      → Bytes
      → State
      → Result (Reservation × State)
  reserve_existing l request now usage id_bytes st = do
    fail_if (not (length id_bytes == 32)) corrupt
    existing ← or_else (reservation_by_id l (be_value id_bytes) st) corrupt
    fail_if (not (attempt_eq existing.request.attempt request.attempt)) corrupt
    fail_if (not (same_reservation_request existing.request request)) state_conflict
    let reopened = reopen l request now usage existing st
    if is_released existing.state then reopened else ok (existing, st)

  unfoldable pub or_full : Option State → Result State
  or_full none = err capacity
  or_full (some st) = ok st

  -- At the bound on records a released one has to go.
  unfoldable pub make_room : Ledger → State → Result State
  make_room l st =
      let purged = purge_oldest_released l st >>= or_full in
      if leb l.max_records (length st.reservations) then purged else ok st

  -- The new reservation and its entry in the index, under an id that must be free.
  unfoldable pub hold_new : ReservationRequest → ℕ → ℕ → State → Result (Reservation × State)
  hold_new request maximum now st =
      let id = new_reservation_id request.attempt in
      let r = held_reservation id request maximum now in
      elim (x.get (id_key id) st.reservations) [
        | some _ ↦ err corrupt
        | none ↦ do
          st ← store_reservation r st
          ok (
            r,
            record st { attempts = x.put (attempt_key request.attempt) (id_key id) st.attempts },
          )
      ]

  -- The branch for a new attempt.
  unfoldable pub reserve_new :
      Ledger → ReservationRequest → ℕ → AggregateUsage → State → Result (Reservation × State)
  reserve_new l request now usage st = do
    st ← make_room l st
    maximum ← admit l request usage
    hold_new request maximum now st

  unfoldable pub reserve_tx :
      Ledger → Context → ℕ → ReservationRequest → State → Result (Reservation × State)
  reserve_tx l ctx observed request st = do
    context_error ctx.inside
    (now, st) ← effective_now observed st
    usage ← collect_usage l now st
    elim (x.get (attempt_key request.attempt) st.attempts) [
      | some id_bytes ↦ reserve_existing l request now usage id_bytes st
      | none ↦ reserve_new l request now usage st
    ]

  -- `Reserve`.
  unfoldable pub reserve :
      Ledger → Context → ℕ → ReservationRequest → State → Result (Reservation × State)
  reserve l ctx now request st = do
    validate_request l request
    begin ctx.entry st
    observed ← observed_now now
    fail_if (not (is_zero request.observed_at) && not (close_to request.observed_at observed))
        invalid_request
    public (reserve_tx l ctx observed request st)

  -- The time of a transition: the last one seen, or the local clock once the chain's time is close.
  unfoldable pub transition_now : ℕ → ℕ → State → Result (ℕ × State)
  transition_now chain now st =
      let clocked =
        fail_if (is_err (observed_now now) || not (close_to chain now)) invalid_request
        >> effective_now now st in
      let kept : Result (ℕ × State) = last_seen st >>= λ seen. ok (seen, st) in
      if is_zero chain then kept else clocked

  -- The changed reservation is checked and written; one that did not change is not.
  unfoldable pub write_back :
      Ledger → ℕ → Reservation → Reservation → State → Result (Reservation × State)
  write_back l id before r st =
      let changed : Result (Reservation × State) = do
        or_else (validate_reservation l r) corrupt
        encoded ← or_else (encode_reservation r) corrupt
        ok (r, record st { reservations = x.put (id_key id) encoded st.reservations })
      in ite (Reservation-discrete r before) (ok (r, st)) changed

  unfoldable pub transition_tx :
      Ledger
      → Context
      → ℕ
      → ℕ
      → ℕ
      → (ReservationState → Reservation → ℕ → Result Reservation)
      → State
      → Result (Reservation × State)
  transition_tx l ctx id chain now update st = do
    context_error ctx.inside
    (now, st) ← transition_now chain now st
    _ ← collect_usage l now st
    before ← reservation_by_id l id st
    r ← update before.state before now
    write_back l id before r st

  -- `transition`: the chain's time (zero for none) and the local clock.
  unfoldable pub transition :
      Ledger
      → Context
      → ℕ
      → ℕ
      → ℕ
      → (ReservationState → Reservation → ℕ → Result Reservation)
      → State
      → Result (Reservation × State)
  transition l ctx id chain now update st =
      begin ctx.entry st >> public (transition_tx l ctx id chain now update st)

  unfoldable pub mark_exposed : Ledger → Context → ℕ → ℕ → ℕ → State → Result (Reservation × State)
  mark_exposed l ctx now id tx_hash st =
      fail_if (id == 0 || tx_hash == 0) invalid_request
      >> transition l ctx id zero_time now (expose tx_hash) st

  unfoldable pub commit_finalized :
      Ledger → Context → ℕ → FinalizedCharge → State → Result (Reservation × State)
  commit_finalized l ctx now c st =
      fail_if (c.reservation_id == 0 || c.tx_hash == 0 || c.actual == 0) invalid_request
      >> transition l ctx c.reservation_id c.observed_at now (settle l c) st

  unfoldable pub release_proven_unused :
      Ledger → Context → ℕ → ℕ → State → Result (Reservation × State)
  release_proven_unused l ctx now id st =
      fail_if (id == 0) invalid_request >> transition l ctx id zero_time now release st

  check_capacity_tx : Ledger → Context → ℕ → ℕ → State → Result State
  check_capacity_tx l ctx id balance st = do
    context_error ctx.inside
    r ← reservation_by_id l id st
    fail_if (not (is_open r.state)) state_conflict
    seen ← or_else (last_seen st) corrupt
    usage ← collect_usage l seen st
    fail_if usage.global.fee_overrun budget_exceeded
    fail_if
        (not (
          sponsor_has_capacity balance (network_of l r.request.network).emergency_sponsor_reserve
            (usage.sponsors r.request.network r.request.sponsor) 0))
        sponsor_reserve
    elim r.state [
      | held ↦
          store_reservation
            (record r { request = record (r.request) { sponsor_balance = balance } }) st
      | _ ↦ ok st
    ]

  -- `CheckSponsorCapacity`.
  check_sponsor_capacity : Ledger → Context → ℕ → ℕ → State → Result State
  unfolding check_capacity_tx
  check_sponsor_capacity l ctx id balance st = do
    fail_if (id == 0 || balance == 0) invalid_request
    begin ctx.entry st
    public (check_capacity_tx l ctx id balance st)
