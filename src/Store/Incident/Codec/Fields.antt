-- ===== src/Store/Incident/Codec/Fields.antt =====
-- The bytes of the fields of an incident, and that each part is read back.
use guard_daemon.Prelude.{
  ℕ, ◌^◌, ◌<◌, ◌≤◌, ◌≡◌, refl, Bool, true, false, some, [], ◌∷◌, ◌++◌, append_assoc, append-nil,
  arith, Bytes, length, be_bytes, read_field-append, read_byte, read_slice-append, ltb, leb,
  if◌then◌else◌, Bool-cases, inl, inr,
}
use guard_daemon.Instant.{IsStamp}
use guard_daemon.Budget.Codec.RoundTrip.{time_bytes, append_time-eq, read_time-append}
use guard_daemon.Store.Incident.{
  RescueIncident, RescuePolicySnapshot, status_byte, status_of_byte, valid_rescue_status,
  max_error_code_bytes, max_signed_transaction_len,
}
use guard_daemon.Store.Incident.Codec.{
  empty_incident, require, rescue_fields, read_names, read_policy, read_operation, read_snapshot,
  read_times, read_mark,
}

-- The ranges of the fields' types in Go, and times whose record form is their own.
pub record IncidentFits (i : RescueIncident) : Type 0 where
  pub id : i.id < 2 ^ 256
  pub parent : i.parent < 2 ^ 256
  pub candidate : i.candidate < 2 ^ 256
  pub network : i.network < 2 ^ 64
  pub asset : i.asset < 2 ^ 160
  pub generation : i.generation < 2 ^ 64
  pub max_attempts : i.policy.max_attempts < 2 ^ 32
  pub retry_delay : i.policy.retry_delay < 2 ^ 64
  pub finality_timeout : i.policy.finality_timeout < 2 ^ 64
  pub attempts : i.attempts < 2 ^ 32
  pub sponsor_nonce : i.sponsor_nonce < 2 ^ 64
  pub source_nonce : i.source_nonce < 2 ^ 64
  pub tx_hash : i.tx_hash < 2 ^ 256
  pub snapshot_block_number : i.snapshot_block_number < 2 ^ 64
  pub snapshot_block_hash : i.snapshot_block_hash < 2 ^ 256
  pub source_before : i.source_before < 2 ^ 256
  pub destination_before : i.destination_before < 2 ^ 256
  pub retry_at : IsStamp i.retry_at
  pub reconcile_until : IsStamp i.reconcile_until
  pub created_at : IsStamp i.created_at
  pub updated_at : IsStamp i.updated_at

unfoldable pub mark_bytes : RescueIncident → Bytes
mark_bytes i = if i.policy.latest_state then 1 ∷ [] else []

unfoldable pub times_bytes : RescueIncident → Bytes → Bytes
times_bytes i rest =
    time_bytes i.retry_at
    ++ (time_bytes i.reconcile_until
        ++ (be_bytes 2 (length i.last_code)
            ++ (i.last_code ++ (time_bytes i.created_at ++ (time_bytes i.updated_at ++ rest)))))

unfoldable pub snapshot_bytes : RescueIncident → Bytes → Bytes
snapshot_bytes i rest =
    be_bytes 8 i.snapshot_block_number
    ++ (be_bytes 32 i.snapshot_block_hash
        ++ (be_bytes 32 i.source_before ++ (be_bytes 32 i.destination_before ++ rest)))

unfoldable pub operation_bytes : RescueIncident → Bytes → Bytes
operation_bytes i rest =
    status_byte i.status
    ∷ (be_bytes 4 i.attempts
        ++ (be_bytes 8 i.sponsor_nonce
            ++ (be_bytes 8 i.source_nonce
                ++ (be_bytes 32 i.tx_hash
                    ++ (be_bytes 4 (length i.signed_transaction)
                        ++ (i.signed_transaction ++ rest))))))

unfoldable pub policy_bytes : RescuePolicySnapshot → Bytes → Bytes
policy_bytes p rest =
    be_bytes 4 p.max_attempts
    ++ (be_bytes 8 p.retry_delay ++ (be_bytes 8 p.finality_timeout ++ rest))

unfoldable pub names_bytes : RescueIncident → Bytes → Bytes
names_bytes i rest =
    be_bytes 32 i.id
    ++ (be_bytes 32 i.parent
        ++ (be_bytes 32 i.candidate
            ++ (be_bytes 8 i.network
                ++ (i.kind
                    ∷ (be_bytes 20 i.asset
                        ++ (be_bytes 8 i.generation ++ ((if i.trusted then 1 else 0) ∷ rest)))))))

unfoldable pub body_bytes : RescueIncident → Bytes
unfolding names_bytes policy_bytes operation_bytes snapshot_bytes times_bytes
body_bytes i =
    names_bytes i
      (policy_bytes i.policy (operation_bytes i (snapshot_bytes i (times_bytes i (mark_bytes i)))))

unfoldable pub version_of : RescueIncident → ℕ
version_of i = if i.policy.latest_state then 3 else 2

pub rescue_fields-eq : (i : RescueIncident) → rescue_fields i ≡ version_of i ∷ body_bytes i
unfolding rescue_fields body_bytes names_bytes policy_bytes operation_bytes snapshot_bytes
    times_bytes mark_bytes version_of
rescue_fields-eq i = elim (Bool-cases i.policy.latest_state) [
  | inl e ↦ rw e (simp (append_time-eq, append_assoc))
  | inr e ↦ rw e (simp (append_time-eq, append_assoc, append-nil))
]

pub read_names-append :
    (i : RescueIncident) (rest : Bytes)
    → IncidentFits i
    → i.network < 2 ^ 63
    → read_names (names_bytes i rest)
      ≡ some (
        record empty_incident {
          id = i.id;
          parent = i.parent;
          candidate = i.candidate;
          network = i.network;
          kind = i.kind;
          asset = i.asset;
          generation = i.generation;
          trusted = i.trusted;
        },
        rest,
      )
unfolding read_names names_bytes require read_byte
read_names-append i rest f n =
    rw
      (
        read_field-append 32 i.id _ f.id,
        read_field-append 32 i.parent _ f.parent,
        read_field-append 32 i.candidate _ f.candidate,
        read_field-append 8 i.network _ f.network,
        small_network,
        read_field-append 20 i.asset _ f.asset,
        read_field-append 8 i.generation _ f.generation,
      )
      (ground arith)
  where
    small_network : ltb i.network (2 ^ 63) ≡ true
    small_network = ground arith

pub read_policy-append :
    (i : RescueIncident) (p : RescuePolicySnapshot) (rest : Bytes)
    → p.max_attempts < 2 ^ 32
    → p.retry_delay < 2 ^ 63
    → p.finality_timeout < 2 ^ 63
    → read_policy i (policy_bytes p rest)
      ≡ some (record i { policy = record p { latest_state = false } }, rest)
unfolding read_policy policy_bytes require
read_policy-append i p rest m d t = rw (
  read_field-append 4 p.max_attempts _ m,
  read_field-append 8 p.retry_delay _ (omega arith),
  small_delay,
  read_field-append 8 p.finality_timeout _ (omega arith),
  small_timeout,
)
  where
    small_delay : ltb p.retry_delay (2 ^ 63) ≡ true
    small_delay = ground arith

    small_timeout : ltb p.finality_timeout (2 ^ 63) ≡ true
    small_timeout = ground arith

status_of_byte-status_byte :
    (i : RescueIncident)
    → valid_rescue_status i.status ≡ true
    → status_of_byte (status_byte i.status) ≡ i.status
status_of_byte-status_byte i v = ground arith

pub read_operation-append :
    (i k : RescueIncident) (rest : Bytes)
    → IncidentFits i
    → valid_rescue_status i.status ≡ true
    → length i.signed_transaction ≤ max_signed_transaction_len
    → read_operation k (operation_bytes i rest)
      ≡ some (
        record k {
          status = i.status;
          attempts = i.attempts;
          sponsor_nonce = i.sponsor_nonce;
          source_nonce = i.source_nonce;
          tx_hash = i.tx_hash;
          signed_transaction = i.signed_transaction;
        },
        rest,
      )
unfolding read_operation operation_bytes require read_byte
read_operation-append i k rest f v l = rw (
  read_field-append 4 i.attempts _ f.attempts,
  read_field-append 8 i.sponsor_nonce _ f.sponsor_nonce,
  read_field-append 8 i.source_nonce _ f.source_nonce,
  read_field-append 32 i.tx_hash _ f.tx_hash,
  read_field-append 4 (length i.signed_transaction) _ (omega arith),
  short,
  read_slice-append i.signed_transaction rest,
  status_of_byte-status_byte i v,
)
  where
    short : leb (length i.signed_transaction) max_signed_transaction_len ≡ true
    short = ground arith

pub read_snapshot-append :
    (i k : RescueIncident) (rest : Bytes)
    → IncidentFits i
    → read_snapshot k (snapshot_bytes i rest)
      ≡ some (
        record k {
          snapshot_block_number = i.snapshot_block_number;
          snapshot_block_hash = i.snapshot_block_hash;
          source_before = i.source_before;
          destination_before = i.destination_before;
        },
        rest,
      )
unfolding read_snapshot snapshot_bytes
read_snapshot-append i k rest f = rw (
  read_field-append 8 i.snapshot_block_number _ f.snapshot_block_number,
  read_field-append 32 i.snapshot_block_hash _ f.snapshot_block_hash,
  read_field-append 32 i.source_before _ f.source_before,
  read_field-append 32 i.destination_before _ f.destination_before,
)

pub read_times-append :
    (i k : RescueIncident) (rest : Bytes)
    → IncidentFits i
    → length i.last_code ≤ max_error_code_bytes
    → read_times k (times_bytes i rest)
      ≡ some (
        record k {
          retry_at = i.retry_at;
          reconcile_until = i.reconcile_until;
          last_code = i.last_code;
          created_at = i.created_at;
          updated_at = i.updated_at;
        },
        rest,
      )
unfolding read_times times_bytes require
read_times-append i k rest f l = rw (
  read_time-append i.retry_at _ f.retry_at,
  read_time-append i.reconcile_until _ f.reconcile_until,
  read_field-append 2 (length i.last_code) _ (omega arith),
  short,
  read_slice-append i.last_code _,
  read_time-append i.created_at _ f.created_at,
  read_time-append i.updated_at _ f.updated_at,
)
  where
    short : leb (length i.last_code) max_error_code_bytes ≡ true
    short = ground arith

pub read_mark-flag :
    (i : RescueIncident) (latest : Bool)
    → read_mark
        (if latest then 3 else 2)
        (record i { policy = record i.policy { latest_state = false } })
        (if latest then 1 ∷ [] else [])
      ≡ some (record i { policy = record i.policy { latest_state = latest } })
unfolding read_mark
read_mark-flag i true = refl
read_mark-flag i false = refl
