-- ===== src/Budget/Types.antt =====
-- The data of internal/budget/interfaces.go. Byte arrays are big-endian numbers, a `NetworkID` is
-- its 64-bit pattern, a `time.Time` an instant.
pub use guard_daemon.Prelude.{
  Fallible, ok, err, ◌>>=◌, ◌>>◌, fail_if, or_else, is_err, >>=-eq-ok, ok_injective, fail_if-eq-ok,
  or_else-eq-ok, Fallible-cases,
}
use guard_daemon.Prelude.{
  ℕ, ◌^◌, ◌<◌, ◌≡◌, Bool, true, ◌&&◌, List, arith, ◌==◌, if◌then◌else◌, ℕ_discrete,
}
use guard_daemon.Instant.{IsStamp}

pub data Error : Type 0 where
  invalid_options open_failed policy_mismatch corrupt closed invalid_request : Error
  arithmetic_overflow budget_exceeded sponsor_reserve state_conflict capacity : Error
  -- `errInvalidRecord`, and the two errors of a context.
  invalid_record canceled deadline_exceeded : Error

abbrev pub Result {ℓ} : Type ℓ → Type ℓ
Result A = Fallible Error A

pub record Limits : Type 0 where
  pub per_transaction : ℕ
  pub per_hour : ℕ
  pub per_day : ℕ
  pub cumulative : ℕ

pub record NetworkPolicy : Type 0 where
  pub network : ℕ
  pub sponsor : ℕ
  pub limits : Limits
  pub transaction_overhead : ℕ
  pub emergency_sponsor_reserve : ℕ
  pub allow_fee_overrun : Bool

pub record Policy : Type 0 where
  pub global : Limits
  pub networks : List NetworkPolicy

pub record CostQuote : Type 0 where
  pub gas_limit : ℕ
  pub max_fee_per_gas : ℕ
  pub maximum_cost : ℕ

pub record Attempt : Type 0 where
  pub incident : ℕ
  pub number : ℕ

pub record ReservationRequest : Type 0 where
  pub network : ℕ
  pub sponsor : ℕ
  pub candidate : ℕ
  pub attempt : Attempt
  pub quote : CostQuote
  pub sponsor_balance : ℕ
  pub observed_at : ℕ

-- A `uint8`; `other` is a byte that no constant names.
pub data ReservationState : Type 0 where
  held exposed committed released : ReservationState
  other : ℕ → ReservationState

pub record Reservation : Type 0 where
  pub id : ℕ
  pub request : ReservationRequest
  pub maximum : ℕ
  pub state : ReservationState
  pub tx_hash : ℕ
  pub actual : ℕ
  pub created_at : ℕ
  pub exposed_at : ℕ
  pub updated_at : ℕ

pub record FinalizedCharge : Type 0 where
  pub reservation_id : ℕ
  pub tx_hash : ℕ
  pub actual : ℕ
  pub observed_at : ℕ

pub record Totals : Type 0 where
  pub per_hour : ℕ
  pub per_day : ℕ
  pub cumulative : ℕ

pub record ScopeSnapshot : Type 0 where
  pub spent : Totals
  pub reserved : Totals
  pub remaining : Totals

-- `==` on the comparable structs.
abbrev pub attempt_eq : Attempt → Attempt → Bool
attempt_eq a b = a.incident == b.incident && a.number == b.number

pub attempt_eq→eq : (a b : Attempt) → attempt_eq a b ≡ true → a ≡ b
attempt_eq→eq a b h = ground arith

unfoldable pub ReservationState-discrete : Discrete ReservationState
ReservationState-discrete = hlevel ℕ_discrete

unfoldable pub Reservation-discrete : Discrete Reservation
Reservation-discrete = hlevel ℕ_discrete

-- The byte of a state, and back.
abbrev pub state_byte : ReservationState → ℕ
state_byte held = 1
state_byte exposed = 2
state_byte committed = 3
state_byte released = 4
state_byte (other b) = b

abbrev pub state_of_byte : ℕ → ReservationState
state_of_byte b =
    if b == 1
    then held
    else if b == 2
    then exposed
    else if b == 3
    then committed
    else if b == 4
    then released
    else other b

-- A state whose byte is a `uint8` that no constant of another constructor names.
abbrev pub IsState : ReservationState → Type 0
IsState s = (state_byte s < 256) × (state_of_byte (state_byte s) ≡ s)

-- The ranges of the machine types.
pub record QuoteFits (q : CostQuote) : Type 0 where
  pub gas_limit : q.gas_limit < 2 ^ 64
  pub max_fee_per_gas : q.max_fee_per_gas < 2 ^ 256
  pub maximum_cost : q.maximum_cost < 2 ^ 256

pub record RequestFits (r : ReservationRequest) : Type 0 where
  pub network : r.network < 2 ^ 63
  pub sponsor : r.sponsor < 2 ^ 160
  pub candidate : r.candidate < 2 ^ 256
  pub incident : r.attempt.incident < 2 ^ 256
  pub number : r.attempt.number < 2 ^ 32
  pub quote : QuoteFits r.quote
  pub sponsor_balance : r.sponsor_balance < 2 ^ 256
  pub observed_at : IsStamp r.observed_at

pub record ReservationFits (r : Reservation) : Type 0 where
  pub id : r.id < 2 ^ 256
  pub request : RequestFits r.request
  pub maximum : r.maximum < 2 ^ 256
  pub state : IsState r.state
  pub tx_hash : r.tx_hash < 2 ^ 256
  pub actual : r.actual < 2 ^ 256
  pub created_at : IsStamp r.created_at
  pub exposed_at : IsStamp r.exposed_at
  pub updated_at : IsStamp r.updated_at
