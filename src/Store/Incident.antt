-- ===== src/Store/Incident.antt =====
-- Rescue incidents (internal/store/model.go and rescue_state.go): what is durable of one operation on
-- an asset. Hashes and amounts are big-endian numbers, a `NetworkID` its 64-bit pattern, a duration
-- its int64 pattern, a `CandidateKind` its byte, a string its bytes.
pub mod Valid
pub mod Transition
pub mod Codec
pub mod Operations
use guard_daemon.Prelude.{
  ℕ, ◌-◌, ◌^◌, Bool, true, false, ◌&&◌, Bytes, bytes_eq, ltb, ◌==◌, if◌then◌else◌,
}

abbrev pub candidate_token : ℕ
candidate_token = 1

abbrev pub candidate_native : ℕ
candidate_native = 2

abbrev pub candidate_claim : ℕ
candidate_claim = 4

-- A `uint8`; `other` is a byte that no constant names.
pub data RescueStatus : Type 0 where
  pending prepared signed broadcast retryable ambiguous : RescueStatus
  exhausted failed trusted_success token_reported lost_race : RescueStatus
  other : ℕ → RescueStatus

abbrev pub status_byte : RescueStatus → ℕ
status_byte pending = 1
status_byte prepared = 2
status_byte signed = 3
status_byte broadcast = 4
status_byte retryable = 5
status_byte ambiguous = 6
status_byte exhausted = 7
status_byte failed = 8
status_byte trusted_success = 9
status_byte token_reported = 10
status_byte lost_race = 11
status_byte (other b) = b

abbrev pub status_of_byte : ℕ → RescueStatus
status_of_byte b =
    if b == 1
    then pending
    else if b == 2
    then prepared
    else if b == 3
    then signed
    else if b == 4
    then broadcast
    else if b == 5
    then retryable
    else if b == 6
    then ambiguous
    else if b == 7
    then exhausted
    else if b == 8
    then failed
    else if b == 9
    then trusted_success
    else if b == 10
    then token_reported
    else if b == 11
    then lost_race
    else other b

-- `status == Rescue...` for each status that the code asks for.
abbrev pub status_is : RescueStatus → RescueStatus → Bool
status_is a b = status_byte a == status_byte b

-- `validRescueStatus`.
abbrev pub valid_rescue_status : RescueStatus → Bool
valid_rescue_status (other b) = false
valid_rescue_status _ = true

unfoldable pub is_terminal_rescue_status : RescueStatus → Bool
is_terminal_rescue_status exhausted = true
is_terminal_rescue_status failed = true
is_terminal_rescue_status trusted_success = true
is_terminal_rescue_status token_reported = true
is_terminal_rescue_status lost_race = true
is_terminal_rescue_status _ = false

unfoldable pub is_receipt_terminal_status : RescueStatus → Bool
is_receipt_terminal_status failed = true
is_receipt_terminal_status trusted_success = true
is_receipt_terminal_status token_reported = true
is_receipt_terminal_status lost_race = true
is_receipt_terminal_status _ = false

pub record RescuePolicySnapshot : Type 0 where
  pub latest_state : Bool
  pub max_attempts : ℕ
  pub retry_delay : ℕ
  pub finality_timeout : ℕ

pub record RescueIncident : Type 0 where
  pub id : ℕ
  pub parent : ℕ
  pub candidate : ℕ
  pub network : ℕ
  pub kind : ℕ
  pub asset : ℕ
  pub generation : ℕ
  pub trusted : Bool
  pub policy : RescuePolicySnapshot
  pub status : RescueStatus
  pub attempts : ℕ
  pub sponsor_nonce : ℕ
  pub source_nonce : ℕ
  pub tx_hash : ℕ
  pub signed_transaction : Bytes
  pub snapshot_block_number : ℕ
  pub snapshot_block_hash : ℕ
  pub source_before : ℕ
  pub destination_before : ℕ
  pub retry_at : ℕ
  pub reconcile_until : ℕ
  pub last_code : Bytes
  pub created_at : ℕ
  pub updated_at : ℕ

abbrev pub max_error_code_bytes : ℕ
max_error_code_bytes = 128

abbrev pub max_signed_transaction_len : ℕ
max_signed_transaction_len = 131072

abbrev pub max_configured_bound : ℕ
max_configured_bound = 1_000_000

-- `a.Sub(b)` for comparison with a positive duration: at most the largest int64, and 0 for what is
-- negative.
abbrev pub elapsed : ℕ → ℕ → ℕ
elapsed a b = if ltb (2 ^ 63 - 1) (a - b) then 2 ^ 63 - 1 else a - b

abbrev pub bool_eq : Bool → Bool → Bool
bool_eq true b = b
bool_eq false true = false
bool_eq false false = true

abbrev pub policy_eq : RescuePolicySnapshot → RescuePolicySnapshot → Bool
policy_eq a b =
    bool_eq a.latest_state b.latest_state
    && a.max_attempts == b.max_attempts
    && a.retry_delay == b.retry_delay
    && a.finality_timeout == b.finality_timeout

unfoldable pub same_rescue_identity : RescueIncident → RescueIncident → Bool
same_rescue_identity l r =
    l.id == r.id
    && l.parent == r.parent
    && l.candidate == r.candidate
    && l.network == r.network
    && l.kind == r.kind
    && l.asset == r.asset
    && l.generation == r.generation
    && bool_eq l.trusted r.trusted
    && policy_eq l.policy r.policy

unfoldable pub same_rescue_preparation : RescueIncident → RescueIncident → Bool
same_rescue_preparation l r =
    l.sponsor_nonce == r.sponsor_nonce
    && l.source_nonce == r.source_nonce
    && l.snapshot_block_number == r.snapshot_block_number
    && l.snapshot_block_hash == r.snapshot_block_hash
    && l.source_before == r.source_before
    && l.destination_before == r.destination_before

unfoldable pub same_signed_rescue_operation : RescueIncident → RescueIncident → Bool
unfolding same_rescue_preparation
same_signed_rescue_operation l r =
    l.attempts == r.attempts
    && same_rescue_preparation l r
    && l.tx_hash == r.tx_hash
    && bytes_eq l.signed_transaction r.signed_transaction

unfoldable pub same_rescue_incident : RescueIncident → RescueIncident → Bool
unfolding same_rescue_identity
same_rescue_incident l r =
    same_rescue_identity l r
    && status_is l.status r.status
    && l.attempts == r.attempts
    && l.sponsor_nonce == r.sponsor_nonce
    && l.source_nonce == r.source_nonce
    && l.tx_hash == r.tx_hash
    && bytes_eq l.signed_transaction r.signed_transaction
    && l.snapshot_block_number == r.snapshot_block_number
    && l.snapshot_block_hash == r.snapshot_block_hash
    && l.source_before == r.source_before
    && l.destination_before == r.destination_before
    && l.retry_at == r.retry_at
    && l.reconcile_until == r.reconcile_until
    && bytes_eq l.last_code r.last_code
    && l.created_at == r.created_at
    && l.updated_at == r.updated_at
