-- ===== src/Budget/Opening.antt =====
-- `initialize` and the transaction of `Open` (internal/budget/ledger.go). The file's name, mode
-- and lock are not modelled: `created` says whether `Open` made the file.
use guard_daemon.Prelude.{
  ℕ, Bool, true, false, not, ◌&&◌, ◌||◌, Option, none, some, List, [], ◌∷◌, map, Bytes, Entries,
  length, ◌==◌, if◌then◌else◌,
}
use guard_daemon.Instant.{unix}
use guard_daemon.External.{External}
use guard_daemon.Budget.Types.{
  Error, Result, ok, err, ◌>>=◌, ◌>>◌, fail_if, or_else, corrupt, policy_mismatch, invalid_options,
  NetworkPolicy, Policy,
}
use guard_daemon.Budget.Codec.{
  append_time, encode_uint32, encode_policy, id_key, decode_stored_time, valid_persistent_time,
}
use guard_daemon.Budget.State.{
  Ledger, State, last_seen, last_seen_key, validate_and_normalize_policy,
}
use guard_daemon.Budget.Usage.{collect_usage, value_is}

-- The buckets that a file has.
pub record File : Type 0 where
  pub meta : Option Entries
  pub reservations : Option Entries
  pub attempts : Option Entries

-- "schema", "policy", "policy-fingerprint", "max-records".
abbrev pub schema_key : Bytes
schema_key = 115 ∷ 99 ∷ 104 ∷ 101 ∷ 109 ∷ 97 ∷ []

abbrev pub policy_key : Bytes
policy_key = 112 ∷ 111 ∷ 108 ∷ 105 ∷ 99 ∷ 121 ∷ []

abbrev pub fingerprint_key : Bytes
fingerprint_key =
    112 ∷ 111 ∷ 108 ∷ 105 ∷ 99 ∷ 121 ∷ 45 ∷ 102 ∷ 105 ∷ 110 ∷ 103 ∷ 101 ∷ 114 ∷ 112 ∷ 114 ∷ 105
    ∷ 110 ∷ 116 ∷ []

abbrev pub max_records_key : Bytes
max_records_key = 109 ∷ 97 ∷ 120 ∷ 45 ∷ 114 ∷ 101 ∷ 99 ∷ 111 ∷ 114 ∷ 100 ∷ 115 ∷ []

abbrev pub ledger_schema_version : ℕ
ledger_schema_version = 1

abbrev default_max_records : ℕ
default_max_records = 100_000

abbrev is_empty : Option Entries → Bool
is_empty none = true
is_empty (some _) = false

-- The length of a value, where a missing value is the empty slice.
abbrev value_length : Option Bytes → ℕ
value_length none = 0
value_length (some v) = length v

abbrev has_value : Option Bytes → Bool
has_value none = false
has_value (some _) = true

-- The policy before Base (8453) went over to estimated fees, and whether any network did.
abbrev before_estimates : NetworkPolicy → NetworkPolicy
before_estimates n =
    if n.network == 8453 && n.allow_fee_overrun then record n { allow_fee_overrun = false } else n

pub previous_policy : Policy → Policy
previous_policy p = record { global = p.global; networks = map before_estimates p.networks }

pub uses_estimates : List NetworkPolicy → Bool
uses_estimates [] = false
uses_estimates (n ∷ ns) = n.network == 8453 && n.allow_fee_overrun || uses_estimates ns

module _ ⦃x : External⦄ where
  create_buckets : Ledger → ℕ → State
  create_buckets l fingerprint = record {
    is_closed = false;
    meta = x.put max_records_key (encode_uint32 l.max_records) (
        x.put last_seen_key (append_time [] (unix 1 0)) (
          x.put fingerprint_key (id_key fingerprint) (
            x.put policy_key (encode_policy l.policy)
              (x.put schema_key (encode_uint32 ledger_schema_version) []))));
    reservations = [];
    attempts = [];
  }

  -- The meta bucket with the policy that the ledger runs under, or the mismatch.
  pub rebind_policy : Ledger → Entries → Result Entries
  rebind_policy l meta =
      if value_is (x.get policy_key meta) (encode_policy l.policy)
      then ok meta
      else if uses_estimates l.policy.networks
          && value_is (x.get policy_key meta) (encode_policy (previous_policy l.policy))
      then ok (x.put policy_key (encode_policy l.policy) meta)
      else err policy_mismatch

  check_bindings : Ledger → ℕ → Entries → Result Entries
  unfolding rebind_policy
  check_bindings l fingerprint meta = do
    fail_if (not (value_length (x.get schema_key meta) == 4)) corrupt
    fail_if (not (value_is (x.get schema_key meta) (encode_uint32 ledger_schema_version)))
        policy_mismatch
    fail_if
        (not (value_length (x.get fingerprint_key meta) == 32)
          || not (has_value (x.get policy_key meta)))
        corrupt
    fail_if (not (value_is (x.get fingerprint_key meta) (id_key fingerprint))) policy_mismatch
    meta ← rebind_policy l meta
    fail_if (not (value_is (x.get max_records_key meta) (encode_uint32 l.max_records)))
        policy_mismatch
    or_else (decode_stored_time (x.get last_seen_key meta)) corrupt >>= λ _. ok meta

  initialize_empty : Ledger → ℕ → File → Bool → Result (Bool × State)
  unfolding create_buckets
  initialize_empty l fingerprint file allow = do
    fail_if (not allow) corrupt
    fail_if (not (is_empty file.reservations && is_empty file.attempts)) corrupt
    ok (true, create_buckets l fingerprint)

  initialize_bound : Ledger → ℕ → Entries → Option Entries → Option Entries → Result (Bool × State)
  unfolding check_bindings
  initialize_bound l fingerprint meta none attempts = err corrupt
  initialize_bound l fingerprint meta (some reservations) none = err corrupt
  initialize_bound l fingerprint meta (some reservations) (some attempts) = do
    meta ← check_bindings l fingerprint meta
    ok (
      false,
      record { is_closed = false; meta = meta; reservations = reservations; attempts = attempts },
    )

  pub initialize : Ledger → ℕ → File → Bool → Result (Bool × State)
  unfolding initialize_empty initialize_bound
  initialize l fingerprint file allow = elim file.meta [
    | none ↦ initialize_empty l fingerprint file allow
    | some meta ↦ initialize_bound l fingerprint meta file.reservations file.attempts
  ]

  open_tx : Ledger → ℕ → Bool → File → Result (Bool × State)
  open_tx l fingerprint created file = do
    (initialized, st) ← initialize l fingerprint file created
    seen ← last_seen st
    _ ← collect_usage l seen st
    ok (initialized, st)

  abbrev open_error : Error → Error
  open_error policy_mismatch = policy_mismatch
  open_error _ = corrupt

  -- The transaction of `Open`, the public errors, and the test of `initialized` behind it.
  pub open_file : Ledger → ℕ → Bool → File → Result State
  unfolding open_tx
  open_file l fingerprint created file = elim (open_tx l fingerprint created file) [
    | err e ↦ err (open_error e)
    | ok (initialized, st) ↦
        if (if initialized then created else not created) then ok st else err corrupt
  ]

-- The options of `Open`: the ledger that they describe.
pub configure : Policy → ℕ → ℕ → ℕ → Result Ledger
configure p fingerprint now max_records = do
  (policy, networks) ← validate_and_normalize_policy p
  fail_if (fingerprint == 0 || not (valid_persistent_time now)) invalid_options
  ok (record {
    policy = policy;
    networks = networks;
    max_records = if max_records == 0 then default_max_records else max_records;
  })
