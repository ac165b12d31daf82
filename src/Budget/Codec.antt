-- ===== src/Budget/Codec.antt =====
-- Records of the ledger's file (internal/budget/codec.go, `NewReservationID` of interfaces.go and
-- `decodeStoredTime` of ledger.go). A slice with an offset is the rest of the slice; a record's
-- fields are read in the order of the source.
pub mod RoundTrip
use guard_daemon.Prelude.{
  ℕ, ◌+◌, ◌%◌, ◌^◌, ◌<◌, ◌≡◌, Bool, true, false, not, ◌&&◌, ◌||◌, Option, none, some, List, [], ◌∷◌,
  ◌++◌, Bytes, length, take, drop, replicate, be_bytes, be_value, read_field, ltb, leb, ◌==◌,
  if◌then◌else◌,
}
use guard_daemon.Prelude.Options.{◌>>=◌}
use guard_daemon.Instant.{second, zero_time, is_zero, biased_unix, unix_word, nanosecond, unix}
use guard_daemon.External.{External}
use guard_daemon.Budget.Types.{
  Result, ok, err, invalid_record, corrupt, Limits, NetworkPolicy, Policy, Attempt, CostQuote,
  ReservationRequest, Reservation, state_byte, state_of_byte, attempt_eq,
}

abbrev pub reservation_record_version : ℕ
reservation_record_version = 1

abbrev pub append_uint32 : Bytes → ℕ → Bytes
append_uint32 target v = target ++ be_bytes 4 v

abbrev pub append_uint64 : Bytes → ℕ → Bytes
append_uint64 target v = target ++ be_bytes 8 v

-- `append(target, array[:]...)` for an array of 20 or of 32 bytes.
abbrev pub append_address : Bytes → ℕ → Bytes
append_address target v = target ++ be_bytes 20 v

abbrev pub append_hash : Bytes → ℕ → Bytes
append_hash target v = target ++ be_bytes 32 v

abbrev pub append_byte : Bytes → ℕ → Bytes
append_byte target b = target ++ (b ∷ [])

unfoldable pub encode_uint32 : ℕ → Bytes
encode_uint32 v = append_uint32 [] v

-- The slice of an id, `id[:]`.
unfoldable pub id_key : ℕ → Bytes
id_key id = be_bytes 32 id

unfoldable pub valid_persistent_time : ℕ → Bool
valid_persistent_time t =
    not (is_zero t)
    && leb (2 ^ 63) (biased_unix t)
    && (not (biased_unix t == 2 ^ 63) || not (nanosecond t == 0))

unfoldable pub append_time : Bytes → ℕ → Bytes
append_time target t =
    if is_zero t
    then target ++ replicate 12 0
    else append_uint32 (append_uint64 target (unix_word t)) (nanosecond t)

unfoldable pub read_time : Bytes → Option (ℕ × Bytes)
read_time bs = do
  (seconds, bs) ← read_field 8 bs
  (nanoseconds, bs) ← read_field 4 bs
  if leb second nanoseconds
      then none
      else some
          (if seconds == 0 && nanoseconds == 0 then zero_time else unix seconds nanoseconds, bs)

-- `decodeStoredTime`; a missing value is the empty slice.
unfoldable pub decode_stored_time : Option Bytes → Result ℕ
decode_stored_time none = err corrupt
decode_stored_time (some bs) =
    if length bs == 12
    then elim (read_time bs) [
      | none ↦ err corrupt
      | some (t, rest) ↦ if length rest == 0 && valid_persistent_time t then ok t else err corrupt
    ]
    else err corrupt

unfoldable pub attempt_key : Attempt → Bytes
attempt_key a = append_uint32 (append_hash [] a.incident) a.number

unfoldable pub decode_attempt_key : Bytes → Option Attempt
decode_attempt_key key =
    if length key == 36
    then some (record { incident = be_value (take 32 key); number = be_value (drop 32 key) })
    else none

-- `sameReservationRequest`: the balance and the time of observation may differ.
unfoldable pub same_reservation_request : ReservationRequest → ReservationRequest → Bool
same_reservation_request l r =
    l.network == r.network
    && l.sponsor == r.sponsor
    && l.candidate == r.candidate
    && attempt_eq l.attempt r.attempt
    && l.quote.gas_limit == r.quote.gas_limit
    && l.quote.max_fee_per_gas == r.quote.max_fee_per_gas
    && l.quote.maximum_cost == r.quote.maximum_cost

-- The ASCII of "guard-daemon/budget-reservation/v1" and of "estimated-fees/v1".
abbrev reservation_domain : Bytes
reservation_domain =
    103 ∷ 117 ∷ 97 ∷ 114 ∷ 100 ∷ 45 ∷ 100 ∷ 97 ∷ 101 ∷ 109 ∷ 111 ∷ 110 ∷ 47 ∷ 98 ∷ 117 ∷ 100 ∷ 103
    ∷ 101 ∷ 116 ∷ 45 ∷ 114 ∷ 101 ∷ 115 ∷ 101 ∷ 114 ∷ 118 ∷ 97 ∷ 116 ∷ 105 ∷ 111 ∷ 110 ∷ 47 ∷ 118
    ∷ 49 ∷ []

abbrev estimated_fees_mark : Bytes
estimated_fees_mark =
    101 ∷ 115 ∷ 116 ∷ 105 ∷ 109 ∷ 97 ∷ 116 ∷ 101 ∷ 100 ∷ 45 ∷ 102 ∷ 101 ∷ 101 ∷ 115 ∷ 47 ∷ 118 ∷ 49
    ∷ []

-- A list sorted by the signed value of the 64-bit network number (`sort.Slice`).
abbrev signed_key : ℕ → ℕ
signed_key n = (n + 2 ^ 63) % 2 ^ 64

insert_network : NetworkPolicy → List NetworkPolicy → List NetworkPolicy
insert_network n [] = n ∷ []
insert_network n (m ∷ ms) =
    if ltb (signed_key n.network) (signed_key m.network)
    then n ∷ m ∷ ms
    else m ∷ insert_network n ms

pub sort_networks : List NetworkPolicy → List NetworkPolicy
unfolding insert_network
sort_networks [] = []
sort_networks (n ∷ ns) = insert_network n (sort_networks ns)

module _ ⦃x : External⦄ where
  unfoldable pub append_uint256 : Bytes → ℕ → Bytes
  append_uint256 target v = target ++ x.bytes32 v

  -- `readUint256`.
  unfoldable pub read_uint256 : Bytes → Option (ℕ × Bytes)
  read_uint256 bs = if ltb (length bs) 32 then none else some (x.set_bytes (take 32 bs), drop 32 bs)

  unfoldable pub new_reservation_id : Attempt → ℕ
  new_reservation_id a =
      x.sha256 (reservation_domain ++ (be_bytes 32 a.incident ++ be_bytes 4 a.number))

  append_limits : Bytes → Limits → Bytes
  unfolding append_uint256
  append_limits target l =
      append_uint256
        (append_uint256 (append_uint256 (append_uint256 target l.per_transaction) l.per_hour)
          l.per_day)
        l.cumulative

  append_network : Bytes → NetworkPolicy → Bytes
  unfolding append_limits
  append_network target n =
      append_uint256
        (append_uint256
          (append_limits (append_address (append_uint64 target n.network) n.sponsor) n.limits)
          n.transaction_overhead)
        n.emergency_sponsor_reserve

  append_networks : Bytes → List NetworkPolicy → Bytes
  unfolding append_network
  append_networks target [] = target
  append_networks target (n ∷ ns) = append_networks (append_network target n) ns

  append_marks : Bytes → List NetworkPolicy → Bytes
  append_marks target [] = target
  append_marks target (n ∷ ns) =
      append_marks
        (if n.allow_fee_overrun
          then append_uint64 (target ++ estimated_fees_mark) n.network
          else target)
        ns

  pub encode_policy : Policy → Bytes
  unfolding sort_networks append_networks append_marks
  encode_policy p =
      let networks = sort_networks p.networks in
      append_marks
        (append_networks
          (append_uint32 (append_limits (reservation_record_version ∷ []) p.global)
            (length networks % 2 ^ 32))
          networks)
        networks

  -- The body of `encodeReservation`, behind its check of the two times.
  unfoldable pub encode_fields : Reservation → Bytes
  unfolding append_uint256
  encode_fields r =
      let bs = append_byte (append_byte [] reservation_record_version) (state_byte r.state) in
      let bs = append_hash bs r.id in
      let bs = append_uint64 bs r.request.network in
      let bs = append_address bs r.request.sponsor in
      let bs = append_hash bs r.request.candidate in
      let bs = append_hash bs r.request.attempt.incident in
      let bs = append_uint32 bs r.request.attempt.number in
      let bs = append_uint64 bs r.request.quote.gas_limit in
      let bs = append_uint256 bs r.request.quote.max_fee_per_gas in
      let bs = append_uint256 bs r.request.quote.maximum_cost in
      let bs = append_uint256 bs r.request.sponsor_balance in
      let bs = append_time bs r.request.observed_at in
      let bs = append_uint256 bs r.maximum in
      let bs = append_uint256 bs r.actual in
      let bs = append_hash bs r.tx_hash in
      let bs = append_time bs r.created_at in
      let bs = append_time bs r.exposed_at in append_time bs r.updated_at

  unfoldable pub encode_reservation : Reservation → Result Bytes
  unfolding encode_fields
  encode_reservation r =
      if valid_persistent_time r.created_at && valid_persistent_time r.updated_at
      then ok (encode_fields r)
      else err invalid_record

  unfoldable pub read_quote : Bytes → Option (CostQuote × Bytes)
  unfolding read_uint256
  read_quote bs = do
    (gas_limit, bs) ← read_field 8 bs
    (max_fee_per_gas, bs) ← read_uint256 bs
    (maximum_cost, bs) ← read_uint256 bs
    some (
      record {
        gas_limit = gas_limit;
        max_fee_per_gas = max_fee_per_gas;
        maximum_cost = maximum_cost;
      },
      bs,
    )

  unfoldable pub read_request : Bytes → Option (ReservationRequest × Bytes)
  unfolding read_quote read_time
  read_request bs = do
    (network, bs) ← read_field 8 bs
    (sponsor, bs) ← (if leb (2 ^ 63) network then none else read_field 20 bs)
    (candidate, bs) ← read_field 32 bs
    (incident, bs) ← read_field 32 bs
    (number, bs) ← read_field 4 bs
    (quote, bs) ← read_quote bs
    (sponsor_balance, bs) ← read_uint256 bs
    (observed_at, bs) ← read_time bs
    some (
      record {
        network = network;
        sponsor = sponsor;
        candidate = candidate;
        attempt = record { incident = incident; number = number };
        quote = quote;
        sponsor_balance = sponsor_balance;
        observed_at = observed_at;
      },
      bs,
    )

  -- The fields behind the version byte and the state's byte.
  unfoldable pub read_reservation : ℕ → Bytes → Option Reservation
  unfolding read_request
  read_reservation state bs = do
    (id, bs) ← read_field 32 bs
    (request, bs) ← read_request bs
    (maximum, bs) ← read_uint256 bs
    (actual, bs) ← read_uint256 bs
    (tx_hash, bs) ← read_field 32 bs
    (created_at, bs) ← read_time bs
    (exposed_at, bs) ← read_time bs
    (updated_at, bs) ← read_time bs
    if length bs == 0
        then some (record {
          id = id;
          request = request;
          maximum = maximum;
          state = state_of_byte state;
          tx_hash = tx_hash;
          actual = actual;
          created_at = created_at;
          exposed_at = exposed_at;
          updated_at = updated_at;
        })
        else none

  abbrev record_size : ℕ
  record_size = 378

  -- `decodeReservation`; `none` is `errInvalidRecord`.
  unfoldable pub decode_parts : Bytes → Option Reservation
  unfolding read_reservation
  decode_parts [] = none
  decode_parts (version ∷ []) = none
  decode_parts (version ∷ state ∷ bs) =
      if version == reservation_record_version then read_reservation state bs else none

  unfoldable pub decode_reservation : Bytes → Option Reservation
  unfolding decode_parts
  decode_reservation bs = if length bs == record_size then decode_parts bs else none
