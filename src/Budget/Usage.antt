-- ===== src/Budget/Usage.antt =====
-- `collectUsage`: the file is checked as a whole, and what is reserved and spent is summed up
-- (internal/budget/ledger.go).
pub mod Sums
pub mod Overruns
pub mod Collected
pub mod Indexed
use guard_daemon.Prelude.{
  ℕ, ◌+◌, ◌-◌, Bool, true, false, not, ◌&&◌, ◌||◌, Option, none, some, List, [], ◌∷◌, Bytes,
  Entries, length, bytes_eq, ltb, leb, ◌==◌, if◌then◌else◌,
}
use guard_daemon.External.{External}
use guard_daemon.Budget.Types.{
  Result, ok, err, ◌>>=◌, ◌>>◌, fail_if, or_else, is_err, corrupt, NetworkPolicy, ReservationState,
  held, exposed, committed, released, other, Reservation, attempt_eq,
}
use guard_daemon.Budget.Cost.{ScopeUsage, no_usage, add_checked, scope_within_limits}
use guard_daemon.Budget.Codec.{decode_reservation, decode_attempt_key, id_key, attempt_key}
use guard_daemon.Budget.State.{Ledger, State, valid_attempt, validate_reservation, day, hour}

-- `aggregateUsage`; its maps are functions, with the zero value where nothing was added.
pub record AggregateUsage : Type 0 where
  pub global : ScopeUsage
  pub networks : ℕ → ScopeUsage
  pub sponsors : ℕ → ℕ → ℕ

abbrev pub empty_usage : AggregateUsage
empty_usage = record { global = no_usage; networks = λ _. no_usage; sponsors = λ _ _. 0 }

-- The sums with those of one network and of one sponsor replaced.
abbrev pub with_usage : ℕ → ℕ → ScopeUsage → ScopeUsage → ℕ → AggregateUsage → AggregateUsage
with_usage n s global network sponsor u = record {
  global = global;
  networks = λ m. if m == n then network else u.networks m;
  sponsors = λ m t. if m == n && t == s then sponsor else u.sponsors m t;
}

-- `bytes.Equal` with the value of a key, where a missing value is the empty slice.
abbrev pub value_is : Option Bytes → Bytes → Bool
value_is none bs = bytes_eq [] bs
value_is (some v) bs = bytes_eq v bs

abbrev pub or_corrupt {ℓ} : {A : Type ℓ} → Option A → Result A
or_corrupt none = err corrupt
or_corrupt (some a) = ok a

-- Held or exposed: the reservation's maximum is set aside.
abbrev pub is_open : ReservationState → Bool
is_open held = true
is_open exposed = true
is_open committed = false
is_open released = false
is_open (other _) = false

module _ ⦃x : External⦄ where
  -- `addChecked` on one counter, under a test.
  unfoldable pub add_if : Bool → ℕ → ℕ → Result ℕ
  add_if true target value = or_else (add_checked target value) corrupt
  add_if false target value = ok target

  -- What one reservation adds to a scope: the same for the global scope and the network's.
  unfoldable pub tally_state : ReservationState → ℕ → Reservation → ScopeUsage → Result ScopeUsage
  unfolding add_if
  tally_state held now r u = do
    reserved ← add_if true u.reserved r.maximum
    ok (record u { reserved = reserved })
  tally_state exposed now r u = do
    reserved ← add_if true u.reserved r.maximum
    ok (record u { reserved = reserved })
  tally_state committed now r u = do
    all_spent ← add_if true u.all_spent r.actual
    day_spent ← add_if (not (ltb r.updated_at (now - day))) u.day_spent r.actual
    hour_spent ← add_if (not (ltb r.updated_at (now - hour))) u.hour_spent r.actual
    ok (record {
      fee_overrun = u.fee_overrun || ltb r.maximum r.actual;
      reserved = u.reserved;
      hour_spent = hour_spent;
      day_spent = day_spent;
      all_spent = all_spent;
    })
  tally_state released now r u = ok u
  tally_state (other _) now r u = err corrupt

  -- The tests on one entry of the reservations.
  unfoldable pub check_row : Ledger → Entries → Bytes → Bytes → Result Reservation
  check_row l attempts key value = do
    fail_if (not (length key == 32)) corrupt
    r ← or_corrupt (decode_reservation value)
    fail_if
        (not (bytes_eq key (id_key r.id))
          || is_err (validate_reservation l r)
          || not (value_is (x.get (attempt_key r.request.attempt) attempts) (id_key r.id)))
        corrupt
    ok r

  unfoldable pub tally : ℕ → Reservation → AggregateUsage → Result AggregateUsage
  tally now r u = do
    let n = r.request.network
    let s = r.request.sponsor
    global ← tally_state r.state now r u.global
    network ← tally_state r.state now r (u.networks n)
    sponsor ← add_if (is_open r.state) (u.sponsors n s) r.maximum
    ok (with_usage n s global network sponsor u)

  -- The loop over the reservations; each round counts one.
  unfoldable pub collect_rows :
      Ledger → Entries → ℕ → Entries → AggregateUsage → Result AggregateUsage
  collect_rows l attempts now [] u = ok u
  collect_rows l attempts now ((key, value) ∷ rows) u = do
    r ← check_row l attempts key value
    u' ← tally now r u
    collect_rows l attempts now rows u'

  -- The tests on one entry of the attempts.
  unfoldable pub check_attempt : Entries → Bytes → Bytes → Result (Unit {0})
  check_attempt reservations key value = do
    attempt ← or_corrupt (decode_attempt_key key)
    fail_if (not (valid_attempt attempt) || not (length value == 32)) corrupt
    bytes ← or_corrupt (x.get value reservations)
    r ← or_corrupt (decode_reservation bytes)
    fail_if (not (attempt_eq r.request.attempt attempt) || not (bytes_eq value (id_key r.id)))
        corrupt

  unfoldable pub check_attempts : Entries → Entries → Result (Unit {0})
  check_attempts reservations [] = ok tt
  check_attempts reservations ((key, value) ∷ rows) = do
    check_attempt reservations key value
    check_attempts reservations rows

  unfoldable pub networks_within : List NetworkPolicy → AggregateUsage → Bool
  networks_within [] u = true
  networks_within (n ∷ ns) u =
      scope_within_limits n.limits (u.networks n.network) && networks_within ns u

  unfoldable pub collect_usage : Ledger → ℕ → State → Result AggregateUsage
  collect_usage l now st = do
    u ← collect_rows l st.attempts now st.reservations empty_usage
    check_attempts st.reservations st.attempts
    fail_if (not (length st.attempts == length st.reservations)) corrupt
    fail_if (ltb l.max_records (length st.reservations)) corrupt
    fail_if (not (scope_within_limits l.policy.global u.global)) corrupt
    fail_if (not (networks_within l.networks u)) corrupt
    ok u
