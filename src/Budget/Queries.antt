-- ===== src/Budget/Queries.antt =====
-- The ledger's reads: `ReservationByAttempt`, `OpenReservations`, `Snapshot` (internal/budget).
use guard_daemon.Prelude.{
  ℕ, not, Option, none, some, List, [], ◌∷◌, Entries, length, be_value, ltb, ◌==◌, if◌then◌else◌,
}
use guard_daemon.External.{External}
use guard_daemon.Budget.Types.{
  Result, ok, ◌>>=◌, ◌>>◌, fail_if, or_else, corrupt, invalid_request, NetworkPolicy, Attempt,
  Reservation, ScopeSnapshot, attempt_eq,
}
use guard_daemon.Budget.Cost.{make_scope_snapshot}
use guard_daemon.Budget.Codec.{decode_reservation, attempt_key}
use guard_daemon.Budget.State.{
  Ledger, State, Context, context_error, public, begin, observed_now, valid_attempt,
  reservation_by_id, last_seen,
}
use guard_daemon.Budget.Usage.{AggregateUsage, collect_usage, or_corrupt, is_open}

-- `Snapshot`, its map in the order of the ledger's networks.
pub record Snapshot : Type 0 where
  pub at : ℕ
  pub global : ScopeSnapshot
  pub networks : List (ℕ × ScopeSnapshot)

-- `sortedReservations`.
insert_reservation : Reservation → List Reservation → List Reservation
insert_reservation r [] = r ∷ []
insert_reservation r (s ∷ rs) = if ltb r.id s.id then r ∷ s ∷ rs else s ∷ insert_reservation r rs

pub sorted_reservations : List Reservation → List Reservation
unfolding insert_reservation
sorted_reservations [] = []
sorted_reservations (r ∷ rs) = insert_reservation r (sorted_reservations rs)

module _ ⦃x : External⦄ where
  by_attempt_tx : Ledger → Context → Attempt → State → Result (Option Reservation)
  by_attempt_tx l ctx attempt st = do
    context_error ctx.inside
    elim (x.get (attempt_key attempt) st.attempts) [
      | none ↦ ok none
      | some value ↦ do
        fail_if (not (length value == 32)) corrupt
        r ← or_else (reservation_by_id l (be_value value) st) corrupt
        fail_if (not (attempt_eq r.request.attempt attempt)) corrupt
        ok (some r)
    ]

  pub reservation_by_attempt : Ledger → Context → Attempt → State → Result (Option Reservation)
  unfolding by_attempt_tx
  reservation_by_attempt l ctx attempt st = do
    fail_if (not (valid_attempt attempt)) invalid_request
    begin ctx.entry st
    public (by_attempt_tx l ctx attempt st)

  pub open_rows : Entries → Result (List Reservation)
  open_rows [] = ok []
  open_rows ((_, value) ∷ rows) = do
    r ← or_corrupt (decode_reservation value)
    rest ← open_rows rows
    ok (if is_open r.state then r ∷ rest else rest)

  open_tx : Ledger → Context → State → Result (List Reservation)
  open_tx l ctx st = do
    context_error ctx.inside
    seen ← or_else (last_seen st) corrupt
    _ ← collect_usage l seen st
    open_rows st.reservations

  pub open_reservations : Ledger → Context → State → Result (List Reservation)
  unfolding open_tx
  open_reservations l ctx st = do
    begin ctx.entry st
    rs ← public (open_tx l ctx st)
    ok (sorted_reservations rs)

  snapshot_networks : List NetworkPolicy → AggregateUsage → Result (List (ℕ × ScopeSnapshot))
  snapshot_networks [] usage = ok []
  snapshot_networks (n ∷ ns) usage = do
    s ← make_scope_snapshot n.limits (usage.networks n.network)
    rest ← snapshot_networks ns usage
    ok ((n.network, s) ∷ rest)

  snapshot_tx : Ledger → Context → ℕ → State → Result Snapshot
  unfolding snapshot_networks
  snapshot_tx l ctx observed st = do
    context_error ctx.inside
    seen ← last_seen st
    let now = if ltb seen observed then observed else seen
    usage ← collect_usage l now st
    global ← make_scope_snapshot l.policy.global usage.global
    networks ← snapshot_networks l.networks usage
    ok (record { at = now; global = global; networks = networks })

  pub snapshot : Ledger → Context → ℕ → State → Result Snapshot
  unfolding snapshot_tx
  snapshot l ctx now st = do
    begin ctx.entry st
    observed ← observed_now now
    public (snapshot_tx l ctx observed st)
