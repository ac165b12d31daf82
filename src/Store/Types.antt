-- ===== src/Store/Types.antt =====
-- Errors and results of internal/store, with `contextError` and `publicError` of bolt_store.go.
use guard_daemon.Prelude.{Bool, true, false, Option, none, some}
pub use guard_daemon.Prelude.{
  Fallible, ok, err, ◌>>=◌, ◌>>◌, fail_if, or_else, is_err, >>=-eq-ok, ok_injective, fail_if-eq-ok,
  or_else-eq-ok, Fallible-cases,
}
use guard_daemon.Budget.State.{ContextState, nil_context, live, canceled_context, expired_context}

pub data StoreError : Type 0 where
  closed invalid_input conflict lease_held lease_lost corrupt : StoreError
  -- `errInvalidRecord`, and the two errors of a context.
  invalid_record canceled deadline_exceeded : StoreError

abbrev pub Result {ℓ} : Type ℓ → Type ℓ
Result A = Fallible StoreError A

-- `if !ok { return errInvalidRecord }`.
abbrev pub need {ℓ} : {A : Type ℓ} → Option A → Result A
need none = err invalid_record
need (some a) = ok a

unfoldable pub context_error : ContextState → Result (Unit {0})
context_error nil_context = err invalid_input
context_error live = ok tt
context_error canceled_context = err canceled
context_error expired_context = err deadline_exceeded

-- `publicError` on an error.
unfoldable pub public_error : StoreError → StoreError
public_error invalid_record = corrupt
public_error e = e

abbrev pub is_corrupt : StoreError → Bool
is_corrupt corrupt = true
is_corrupt _ = false

-- `leaseLossDetected`.
abbrev pub lease_loss_detected : StoreError → Bool
lease_loss_detected corrupt = true
lease_loss_detected lease_lost = true
lease_loss_detected _ = false
