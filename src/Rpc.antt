-- ===== src/Rpc.antt =====
-- The quorum of RPC providers (internal/rpc/quorum.go): a value is taken from the chain only if every
-- provider gives it. What the providers answer to one request is a round: the events that the
-- collecting loop receives, in order. A nil pointer or slice is `none`.
pub mod Collect
pub mod Agree
pub mod Headers
pub mod Logs
pub mod Receipts
pub mod Identities
use guard_daemon.Prelude.{ℕ, Bytes, Bool, true, false, Option, none, some}
pub use guard_daemon.Prelude.{Fallible, ok, err, ◌>>=◌, ◌>>◌, fail_if, >>=-eq-ok, ok_injective}

-- `ErrQuorumUnavailable`, alone and joined with the error of a context, and the other errors.
pub data QuorumError : Type 0 where
  unavailable unavailable_canceled unavailable_deadline : QuorumError
  quorum_mismatch malformed_response invalid_block_ref invalid_filter_query : QuorumError
  unfinalized_receipt invalid_providers invalid_timeout : QuorumError

abbrev pub Answer {ℓ} : Type ℓ → Type ℓ
Answer A = Fallible QuorumError A

-- `Err()` of a context that is done.
pub data ContextError : Type 0 where
  canceled deadline_exceeded : ContextError

-- An error of a provider, as `errors.Is` sees it.
pub record BackendError : Type 0 where
  pub is_deadline : Bool
  pub is_canceled : Bool

pub record BlockRef : Type 0 where
  pub number : ℕ
  pub hash : ℕ
  pub parent_hash : ℕ
  pub timestamp : ℕ

pub record ProviderIdentity : Type 0 where
  pub id : Bytes
  pub fingerprint : Bytes
  pub trust_domain : Bytes

abbrev pub max_logs_per_response : ℕ
max_logs_per_response = 20_000

abbrev pub max_topics_per_log : ℕ
max_topics_per_log = 4

abbrev pub max_log_data_bytes : ℕ
max_log_data_bytes = 1_048_576
