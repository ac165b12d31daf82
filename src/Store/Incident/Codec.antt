-- ===== src/Store/Incident/Codec.antt =====
-- Records of incidents (`encodeRescueIncident` and `decodeRescueIncidentForSchema` of
-- internal/store/rescue_state.go). A slice with an offset is the rest of the slice; `none` is
-- `errInvalidRecord`. The fields are read into the incident in the order of the source, in the parts
-- before the policy, the policy, the operation, the balances and the times.
pub mod Fields
pub mod RoundTrip
use guard_daemon.Prelude.{
  ℕ, ◌^◌, Bool, true, false, not, ◌&&◌, ◌||◌, Option, none, some, List, [], ◌∷◌, ◌++◌, Bytes,
  length, be_bytes, read_field, read_byte, read_slice, ltb, leb, ◌==◌, if◌then◌else◌,
}
use guard_daemon.Prelude.Options.{◌>>=◌, ◌>>◌}
use guard_daemon.Instant.{zero_time}
use guard_daemon.External.{External}
use guard_daemon.Budget.Codec.{
  append_uint32, append_uint64, append_byte, append_hash, append_address, append_time, read_time,
}
use guard_daemon.Store.Types.{Result, ok, err, is_err}
use guard_daemon.Store.Incident.{
  RescueStatus, trusted_success, token_reported, RescueIncident, candidate_token, status_byte,
  status_of_byte, status_is, max_error_code_bytes, max_signed_transaction_len,
}
use guard_daemon.Store.Incident.Valid.{validate_rescue_incident}

abbrev rescue_record_version : ℕ
rescue_record_version = 2

abbrev latest_rescue_record_version : ℕ
latest_rescue_record_version = 3

abbrev append_uint16 : Bytes → ℕ → Bytes
append_uint16 target v = target ++ be_bytes 2 v

-- `var incident RescueIncident`.
abbrev pub empty_incident : RescueIncident
empty_incident = record {
  id = 0;
  parent = 0;
  candidate = 0;
  network = 0;
  kind = 0;
  asset = 0;
  generation = 0;
  trusted = false;
  policy = record { latest_state = false; max_attempts = 0; retry_delay = 0; finality_timeout = 0 };
  status = RescueStatus.other 0;
  attempts = 0;
  sponsor_nonce = 0;
  source_nonce = 0;
  tx_hash = 0;
  signed_transaction = [];
  snapshot_block_number = 0;
  snapshot_block_hash = 0;
  source_before = 0;
  destination_before = 0;
  retry_at = zero_time;
  reconcile_until = zero_time;
  last_code = [];
  created_at = zero_time;
  updated_at = zero_time;
}

unfoldable pub require : Bool → Option (Unit {0})
require true = some tt
require false = none

-- The body of `encodeRescueIncident`, behind its check.
unfoldable pub rescue_fields : RescueIncident → Bytes
rescue_fields i =
    let bs =
      (if i.policy.latest_state then latest_rescue_record_version else rescue_record_version)
      ∷ [] in
    let bs = append_hash bs i.id in
    let bs = append_hash bs i.parent in
    let bs = append_hash bs i.candidate in
    let bs = append_uint64 bs i.network in
    let bs = append_byte bs i.kind in
    let bs = append_address bs i.asset in
    let bs = append_uint64 bs i.generation in
    let bs = append_byte bs (if i.trusted then 1 else 0) in
    let bs = append_uint32 bs i.policy.max_attempts in
    let bs = append_uint64 bs i.policy.retry_delay in
    let bs = append_uint64 bs i.policy.finality_timeout in
    let bs = append_byte bs (status_byte i.status) in
    let bs = append_uint32 bs i.attempts in
    let bs = append_uint64 bs i.sponsor_nonce in
    let bs = append_uint64 bs i.source_nonce in
    let bs = append_hash bs i.tx_hash in
    let bs = append_uint32 bs (length i.signed_transaction) in
    let bs = bs ++ i.signed_transaction in
    let bs = append_uint64 bs i.snapshot_block_number in
    let bs = append_hash bs i.snapshot_block_hash in
    let bs = append_hash bs i.source_before in
    let bs = append_hash bs i.destination_before in
    let bs = append_time bs i.retry_at in
    let bs = append_time bs i.reconcile_until in
    let bs = append_uint16 bs (length i.last_code) in
    let bs = bs ++ i.last_code in
    let bs = append_time bs i.created_at in
    let bs = append_time bs i.updated_at in if i.policy.latest_state then append_byte bs 1 else bs

unfoldable pub read_names : Bytes → Option (RescueIncident × Bytes)
unfolding require
read_names bs = do
  (id, bs) ← read_field 32 bs
  (parent, bs) ← read_field 32 bs
  (candidate, bs) ← read_field 32 bs
  (network, bs) ← read_field 8 bs
  require (ltb network (2 ^ 63))
  (kind, bs) ← read_byte bs
  (asset, bs) ← read_field 20 bs
  (generation, bs) ← read_field 8 bs
  (trusted, bs) ← read_byte bs
  require (leb trusted 1)
  some (
    record empty_incident {
      id = id;
      parent = parent;
      candidate = candidate;
      network = network;
      kind = kind;
      asset = asset;
      generation = generation;
      trusted = trusted == 1;
    },
    bs,
  )

unfoldable pub read_policy : RescueIncident → Bytes → Option (RescueIncident × Bytes)
unfolding require
read_policy i bs = do
  (max_attempts, bs) ← read_field 4 bs
  (retry_delay, bs) ← read_field 8 bs
  require (ltb retry_delay (2 ^ 63))
  (finality_timeout, bs) ← read_field 8 bs
  require (ltb finality_timeout (2 ^ 63))
  some (
    record i {
      policy = record {
        latest_state = false;
        max_attempts = max_attempts;
        retry_delay = retry_delay;
        finality_timeout = finality_timeout;
      };
    },
    bs,
  )

unfoldable pub read_operation : RescueIncident → Bytes → Option (RescueIncident × Bytes)
unfolding require
read_operation i bs = do
  (status, bs) ← read_byte bs
  (attempts, bs) ← read_field 4 bs
  (sponsor_nonce, bs) ← read_field 8 bs
  (source_nonce, bs) ← read_field 8 bs
  (tx_hash, bs) ← read_field 32 bs
  (signed_length, bs) ← read_field 4 bs
  require (leb signed_length max_signed_transaction_len)
  (signed_transaction, bs) ← read_slice signed_length bs
  some (
    record i {
      status = status_of_byte status;
      attempts = attempts;
      sponsor_nonce = sponsor_nonce;
      source_nonce = source_nonce;
      tx_hash = tx_hash;
      signed_transaction = signed_transaction;
    },
    bs,
  )

unfoldable pub read_snapshot : RescueIncident → Bytes → Option (RescueIncident × Bytes)
read_snapshot i bs = do
  (snapshot_block_number, bs) ← read_field 8 bs
  (snapshot_block_hash, bs) ← read_field 32 bs
  (source_before, bs) ← read_field 32 bs
  (destination_before, bs) ← read_field 32 bs
  some (
    record i {
      snapshot_block_number = snapshot_block_number;
      snapshot_block_hash = snapshot_block_hash;
      source_before = source_before;
      destination_before = destination_before;
    },
    bs,
  )

unfoldable pub read_times : RescueIncident → Bytes → Option (RescueIncident × Bytes)
unfolding require
read_times i bs = do
  (retry_at, bs) ← read_time bs
  (reconcile_until, bs) ← read_time bs
  (code_length, bs) ← read_field 2 bs
  require (leb code_length max_error_code_bytes)
  (last_code, bs) ← read_slice code_length bs
  (created_at, bs) ← read_time bs
  (updated_at, bs) ← read_time bs
  some (
    record i {
      retry_at = retry_at;
      reconcile_until = reconcile_until;
      last_code = last_code;
      created_at = created_at;
      updated_at = updated_at;
    },
    bs,
  )

-- What follows the fields: the byte 1 behind a record of the latest version, and no more.
unfoldable pub read_mark : ℕ → RescueIncident → Bytes → Option RescueIncident
read_mark version i bs =
    if version == latest_rescue_record_version
    then elim bs [
      | b ∷ [] ↦
          if b == 1
          then some (record i { policy = record i.policy { latest_state = true } })
          else none
      | _ ↦ none
    ]
    else (if length bs == 0 then some i else none)

unfoldable pub read_incident : ℕ → Bytes → Option RescueIncident
unfolding read_names read_policy read_operation read_snapshot read_times read_mark
read_incident version bs = do
  (i, bs) ← read_names bs
  (i, bs) ← read_policy i bs
  (i, bs) ← read_operation i bs
  (i, bs) ← read_snapshot i bs
  (i, bs) ← read_times i bs
  read_mark version i bs

-- The incident that is validated in place of one of the second schema.
unfoldable pub legacy_view : RescueIncident → RescueIncident
legacy_view i =
    if i.kind == candidate_token && i.trusted && status_is i.status trusted_success
    then record i { status = token_reported }
    else i

module _ ⦃x : External⦄ where
  unfoldable pub encode_rescue_incident : RescueIncident → Result Bytes
  unfolding rescue_fields
  encode_rescue_incident i = elim (validate_rescue_incident i) [
    | err e ↦ err e
    | ok _ ↦ ok (rescue_fields i)
  ]

  unfoldable pub validated_for_schema : Bool → RescueIncident → Option RescueIncident
  unfolding require legacy_view
  validated_for_schema allow_legacy_token_success i = do
    require (not (allow_legacy_token_success && status_is i.status token_reported && i.trusted))
    let validated = (if allow_legacy_token_success then legacy_view i else i)
    require (not (is_err (validate_rescue_incident validated)))
    some i

  -- `decodeRescueIncidentForSchema`.
  unfoldable pub decode_for_schema : Bytes → Bool → Option RescueIncident
  unfolding require read_incident validated_for_schema
  decode_for_schema [] allow_legacy_token_success = none
  decode_for_schema (version ∷ bs) allow_legacy_token_success = do
    require (leb 365 (length bs))
    require (
        version == rescue_record_version
        || (version == latest_rescue_record_version && not allow_legacy_token_success))
    i ← read_incident version bs
    validated_for_schema allow_legacy_token_success i

  unfoldable pub decode_rescue_incident : Bytes → Option RescueIncident
  unfolding decode_for_schema
  decode_rescue_incident bs = decode_for_schema bs false

  pub decode_rescue_incident_v2 : Bytes → Option RescueIncident
  unfolding decode_for_schema
  decode_rescue_incident_v2 bs = decode_for_schema bs true
