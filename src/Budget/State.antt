-- ===== src/Budget/State.antt =====
-- The ledger's state and the checks that every operation shares (internal/budget/ledger.go).
pub mod Times
pub mod Valid
use guard_daemon.Prelude.{
  ℕ, ◌+◌, ◌-◌, ◌*◌, ◌^◌, ◌<◌, ◌≡◌, Bool, true, false, not, ◌&&◌, ◌||◌, Option, none, some, List, [],
  ◌∷◌, Bytes, Entries, length, be_value, bytes_eq, ltb, leb, ◌==◌, if◌then◌else◌,
}
use guard_daemon.Instant.{second, is_zero, unix}
use guard_daemon.External.{External}
use guard_daemon.Budget.Types.{
  Error, Result, ok, err, ◌>>=◌, ◌>>◌, fail_if, or_else, is_err, invalid_options, policy_mismatch,
  corrupt, closed, invalid_request, arithmetic_overflow, budget_exceeded, sponsor_reserve,
  state_conflict, capacity, invalid_record, canceled, deadline_exceeded, open_failed, Limits,
  NetworkPolicy, Policy, Attempt, ReservationRequest, ReservationState, held, exposed, committed,
  released, other, Reservation, attempt_eq,
}
use guard_daemon.Budget.Cost.{maximum_cost, validate_limits}
use guard_daemon.Budget.Codec.{
  append_time, decode_stored_time, valid_persistent_time, decode_reservation, id_key, attempt_key,
  new_reservation_id, sort_networks,
}

-- `BudgetLedger`'s immutable part; `networks` stands for the map of the same name.
pub record Ledger : Type 0 where
  pub policy : Policy
  pub networks : List NetworkPolicy
  pub max_records : ℕ

-- The open file's three buckets, and `closed`.
pub record State : Type 0 where
  pub is_closed : Bool
  pub meta : Entries
  pub reservations : Entries
  pub attempts : Entries

-- A context at one moment: nil, or what `ctx.Err()` returns.
pub data ContextState : Type 0 where
  nil_context live canceled_context expired_context : ContextState

-- What the two checks of one call see: on entry, and inside the transaction.
pub record Context : Type 0 where
  pub entry : ContextState
  pub inside : ContextState

unfoldable pub context_error : ContextState → Result (Unit {0})
context_error nil_context = err invalid_request
context_error live = ok tt
context_error canceled_context = err canceled
context_error expired_context = err deadline_exceeded

-- `publicError` on an error.
unfoldable pub public_error : Error → Error
public_error invalid_options = corrupt
public_error open_failed = corrupt
public_error policy_mismatch = corrupt
public_error invalid_record = corrupt
public_error e = e

unfoldable pub public {ℓ} : {A : Type ℓ} → Result A → Result A
unfolding public_error
public (ok a) = ok a
public (err e) = err (public_error e)

unfoldable pub begin : ContextState → State → Result (Unit {0})
unfolding context_error
begin ctx st = context_error ctx >> fail_if st.is_closed closed

-- `Close`: what is under way is waited for, and a second call does nothing.
pub close : State → State
close st = record st { is_closed = true }

unfoldable pub observed_now : ℕ → Result ℕ
observed_now now = fail_if (not (valid_persistent_time now)) invalid_request >> ok now

-- Two minutes, a day and an hour.
abbrev pub maximum_observed_skew : ℕ
maximum_observed_skew = 120 * second

abbrev pub day : ℕ
day = 86400 * second

abbrev pub hour : ℕ
hour = 3600 * second

unfoldable pub within_observed_skew : ℕ → ℕ → Bool
within_observed_skew observed local =
    leb local (observed + maximum_observed_skew) && leb observed (local + maximum_observed_skew)

abbrev pub is_int64_positive : ℕ → Bool
is_int64_positive n = ltb 0 n && ltb n (2 ^ 63)

-- `ledger.networks[id]`, with the map's second result.
unfoldable pub find_network : ℕ → List NetworkPolicy → Option NetworkPolicy
find_network id [] = none
find_network id (n ∷ ns) = if n.network == id then some n else find_network id ns

abbrev no_limits : Limits
no_limits = record { per_transaction = 0; per_hour = 0; per_day = 0; cumulative = 0 }

abbrev no_network : NetworkPolicy
no_network = record {
  network = 0;
  sponsor = 0;
  limits = no_limits;
  transaction_overhead = 0;
  emergency_sponsor_reserve = 0;
  allow_fee_overrun = false;
}

-- `ledger.networks[id]` alone: the zero policy where there is none.
unfoldable pub network_of : Ledger → ℕ → NetworkPolicy
unfolding find_network
network_of l id = elim (find_network id l.networks) [ none ↦ no_network | some n ↦ n ]

unfoldable pub valid_network_policy : NetworkPolicy → Bool
valid_network_policy n =
    is_int64_positive n.network
    && not (n.sponsor == 0)
    && not (n.emergency_sponsor_reserve == 0)
    && not (is_err (validate_limits n.limits))

-- The loop of `validateAndNormalizePolicy`, on the networks that are already in the map.
add_networks : List NetworkPolicy → List NetworkPolicy → Result (List NetworkPolicy)
unfolding find_network valid_network_policy
add_networks [] done = ok done
add_networks (n ∷ ns) done = do
  fail_if (not (valid_network_policy n)) invalid_options
  elim (find_network n.network done) [
    | none ↦ add_networks ns (n ∷ done)
    | some _ ↦ err invalid_options
  ]

pub validate_and_normalize_policy : Policy → Result (Policy × List NetworkPolicy)
unfolding add_networks
validate_and_normalize_policy p = do
  fail_if
      (is_err (validate_limits p.global)
        || length p.networks == 0
        || leb (2 ^ 32) (length p.networks))
      invalid_options
  let sorted = sort_networks p.networks
  networks ← add_networks sorted []
  ok (record { global = p.global; networks = sorted }, networks)

unfoldable pub valid_attempt : Attempt → Bool
valid_attempt a = not (a.incident == 0) && ltb 0 a.number

-- "last-seen".
abbrev pub last_seen_key : Bytes
last_seen_key = 108 ∷ 97 ∷ 115 ∷ 116 ∷ 45 ∷ 115 ∷ 101 ∷ 101 ∷ 110 ∷ []

module _ ⦃x : External⦄ where
  unfoldable pub last_seen : State → Result ℕ
  last_seen st = decode_stored_time (x.get last_seen_key st.meta)

  unfoldable pub effective_now : ℕ → State → Result (ℕ × State)
  unfolding last_seen
  effective_now observed st = do
    seen ← or_else (last_seen st) corrupt
    ok (
        if ltb seen observed
        then (observed, record st { meta = x.put last_seen_key (append_time [] observed) st.meta })
        else (seen, st))

  unfoldable pub validate_request : Ledger → ReservationRequest → Result (Unit {0})
  validate_request l r = elim (find_network r.network l.networks) [
    | none ↦ err invalid_request
    | some n ↦
        fail_if
          (r.sponsor == 0
            || not (r.sponsor == n.sponsor)
            || r.candidate == 0
            || not (valid_attempt r.attempt)
            || r.quote.gas_limit == 0
            || r.quote.max_fee_per_gas == 0
            || r.sponsor_balance == 0)
          invalid_request
        >> (maximum_cost r.quote n.transaction_overhead >>= λ _. ok tt)
  ]

  -- The fields that each state wants set or clear.
  unfoldable pub valid_exposure : Reservation → Bool
  valid_exposure r =
      valid_persistent_time r.exposed_at
      && not (ltb r.exposed_at r.created_at)
      && not (ltb r.updated_at r.exposed_at)

  unfoldable pub is_unexposed : Reservation → Bool
  is_unexposed r = r.tx_hash == 0 && r.actual == 0 && is_zero r.exposed_at

  unfoldable pub valid_state : ReservationState → Reservation → Bool → Bool
  unfolding valid_exposure is_unexposed
  valid_state held r overrun = is_unexposed r
  valid_state exposed r overrun = not (r.tx_hash == 0) && r.actual == 0 && valid_exposure r
  valid_state committed r overrun =
      not (r.tx_hash == 0)
      && not (r.actual == 0)
      && not (ltb r.maximum r.actual && not overrun)
      && valid_exposure r
  valid_state released r overrun = is_unexposed r
  valid_state (other _) r overrun = false

  unfoldable pub validate_reservation : Ledger → Reservation → Result (Unit {0})
  validate_reservation l r = do
    fail_if
        (r.id == 0
          || not (r.id == new_reservation_id r.request.attempt)
          || is_err (validate_request l r.request)
          || not (valid_persistent_time r.created_at)
          || not (valid_persistent_time r.updated_at)
          || ltb r.updated_at r.created_at)
        corrupt
    let n = network_of l r.request.network
    maximum ← or_else (maximum_cost r.request.quote n.transaction_overhead) corrupt
    fail_if
        (not (maximum == r.maximum)
          || ltb l.policy.global.per_transaction r.maximum
          || ltb n.limits.per_transaction r.maximum)
        corrupt
    fail_if (not (valid_state r.state r n.allow_fee_overrun)) corrupt

  unfoldable pub reservation_by_id : Ledger → ℕ → State → Result Reservation
  reservation_by_id l id st = elim (x.get (id_key id) st.reservations) [
    | none ↦ err state_conflict
    | some bytes ↦ elim (decode_reservation bytes) [
      | none ↦ err corrupt
      | some r ↦ if not (r.id == id) || is_err (validate_reservation l r) then err corrupt else ok r
    ]
  ]
