-- ===== src/Budget/Codec/RoundTrip.antt =====
-- What is written is read back.
use guard_daemon.Prelude.{
  ℕ, ◌+◌, ◌^◌, ◌<◌, ◌≡◌, refl, ap, ◌∙◌, true, false, ◌&&◌, some, [], ◌∷◌, ◌++◌, append_assoc,
  append-nil, arith, Bytes, length, length-append, replicate, be_bytes, take-append, drop-append,
  length-be_bytes, be_value-be_bytes, read_field-append, leb, ◌==◌, if◌then◌else◌, Bool-cases, inl,
  inr,
}
use guard_daemon.Instant.{
  second, zero_time, is_zero, unix_word, nanosecond, unix, IsInstant, IsStamp,
}
use guard_daemon.External.{External}
use guard_daemon.Budget.Types.{
  ok, Attempt, CostQuote, ReservationRequest, Reservation, state_byte, state_of_byte, QuoteFits,
  RequestFits, ReservationFits,
}
use guard_daemon.Budget.Codec.{
  append_time, read_time, attempt_key, decode_attempt_key, append_uint256, read_uint256,
  encode_fields, encode_reservation, read_quote, read_request, read_reservation, decode_reservation,
  decode_stored_time, valid_persistent_time,
}

-- The bytes of a time, alone.
pub time_bytes : ℕ → Bytes
unfolding append_time
time_bytes t = append_time [] t

pub append_time-eq : (target : Bytes) (t : ℕ) → append_time target t ≡ target ++ time_bytes t
unfolding time_bytes
append_time-eq target t = elim (Bool-cases (is_zero t)) [
  | inl e ↦ rw e refl
  | inr e ↦ rw e (append_assoc target _ _)
]

zero_fields : (rest : Bytes) → replicate 12 0 ++ rest ≡ be_bytes 8 0 ++ (be_bytes 4 0 ++ rest)
unfolding be_bytes
zero_fields rest = refl

read_time-zero : (rest : Bytes) → read_time (replicate 12 0 ++ rest) ≡ some (zero_time, rest)
unfolding read_time
read_time-zero rest = rw (
  zero_fields rest,
  read_field-append 8 0 (be_bytes 4 0 ++ rest) (omega arith),
  read_field-append 4 0 rest (omega arith),
)

read_time-fields :
    (s n : ℕ) (rest : Bytes)
    → s < 2 ^ 64
    → n < second
    → read_time ((be_bytes 8 s ++ be_bytes 4 n) ++ rest)
      ≡ some (if s == 0 && n == 0 then zero_time else unix s n, rest)
unfolding read_time
read_time-fields s n rest hs hn =
    rw
      (
        append_assoc (be_bytes 8 s) (be_bytes 4 n) rest,
        read_field-append 8 s (be_bytes 4 n ++ rest) hs,
        read_field-append 4 n rest (omega arith),
      )
      (ground arith)

pub read_time-append :
    (t : ℕ) (rest : Bytes) → IsStamp t → read_time (time_bytes t ++ rest) ≡ some (t, rest)
unfolding time_bytes append_time
read_time-append t rest h = elim (Bool-cases (is_zero t)) [
  | inl e ↦ rw e (read_time-zero rest ∙ ground arith)
  | inr e ↦ rw e (
      read_time-fields (unix_word t) (nanosecond t) rest (omega arith) (omega arith) ∙ ground arith)
]

pub length-time_bytes : (t : ℕ) → length (time_bytes t) ≡ 12
unfolding time_bytes append_time
length-time_bytes t = ground (
  arith,
  length-append (be_bytes 8 (unix_word t)) (be_bytes 4 (nanosecond t)),
  length-be_bytes 8 (unix_word t),
  length-be_bytes 4 (nanosecond t),
)

-- The key of an attempt with a 32-byte incident and a 32-bit number is read back as the attempt.
pub decode_attempt_key-attempt_key :
    (a : Attempt)
    → a.incident < 2 ^ 256
    → a.number < 2 ^ 32
    → decode_attempt_key (attempt_key a) ≡ some a
unfolding decode_attempt_key attempt_key
decode_attempt_key-attempt_key a h k =
    let hash = be_bytes 32 a.incident in
    let number = be_bytes 4 a.number in
    rw
      (
        take-append 32 hash number (length-be_bytes 32 a.incident),
        drop-append 32 hash number (length-be_bytes 32 a.incident),
        be_value-be_bytes 32 a.incident h,
        be_value-be_bytes 4 a.number k,
      )
      (ground (
        arith,
        length-append hash number,
        length-be_bytes 32 a.incident,
        length-be_bytes 4 a.number,
      ))

-- A stored instant that the code accepts as persistent is read back.
pub decode_stored_time-append_time :
    (t : ℕ)
    → IsInstant t
    → valid_persistent_time t ≡ true
    → decode_stored_time (some (append_time [] t)) ≡ ok t
unfolding decode_stored_time valid_persistent_time
decode_stored_time-append_time t h v =
    rw (append_time-eq [] t, ← append-nil (time_bytes t))
      (rw (length_time, read_time-append t [] (omega (arith, stamp))) (ground arith))
  where
    length_time : length (time_bytes t ++ []) ≡ 12
    length_time = rw (append-nil (time_bytes t)) (length-time_bytes t)

    stamp : IsStamp t
    stamp = ground arith

module _ ⦃x : External⦄ where
  read_uint256-append :
      (v : ℕ) (rest : Bytes) → v < 2 ^ 256 → read_uint256 (x.bytes32 v ++ rest) ≡ some (v, rest)
  unfolding read_uint256
  read_uint256-append v rest h =
      rw
        (
          x.bytes32_lem v,
          take-append 32 (be_bytes 32 v) rest (length-be_bytes 32 v),
          drop-append 32 (be_bytes 32 v) rest (length-be_bytes 32 v),
          x.set_bytes_lem (be_bytes 32 v) (length-be_bytes 32 v),
          be_value-be_bytes 32 v h,
        )
        (ground (arith, length-append (be_bytes 32 v) rest, length-be_bytes 32 v))

  quote_bytes : CostQuote → Bytes → Bytes
  quote_bytes q rest =
      be_bytes 8 q.gas_limit ++ (x.bytes32 q.max_fee_per_gas ++ (x.bytes32 q.maximum_cost ++ rest))

  read_quote-append :
      (q : CostQuote) (rest : Bytes)
      → QuoteFits q
      → read_quote (quote_bytes q rest) ≡ some (q, rest)
  unfolding read_quote quote_bytes
  read_quote-append q rest f = rw (
    read_field-append 8 q.gas_limit _ f.gas_limit,
    read_uint256-append q.max_fee_per_gas (x.bytes32 q.maximum_cost ++ rest) f.max_fee_per_gas,
    read_uint256-append q.maximum_cost rest f.maximum_cost,
  )

  request_bytes : ReservationRequest → Bytes → Bytes
  request_bytes r rest =
      be_bytes 8 r.network
      ++ (be_bytes 20 r.sponsor
          ++ (be_bytes 32 r.candidate
              ++ (be_bytes 32 r.attempt.incident
                  ++ (be_bytes 4 r.attempt.number
                      ++ quote_bytes r.quote
                          (x.bytes32 r.sponsor_balance ++ (time_bytes r.observed_at ++ rest))))))

  read_request-append :
      (r : ReservationRequest) (rest : Bytes)
      → RequestFits r
      → read_request (request_bytes r rest) ≡ some (r, rest)
  unfolding read_request request_bytes
  read_request-append r rest f = rw (
    read_field-append 8 r.network _ (omega arith),
    small_network,
    read_field-append 20 r.sponsor _ f.sponsor,
    read_field-append 32 r.candidate _ f.candidate,
    read_field-append 32 r.attempt.incident _ f.incident,
    read_field-append 4 r.attempt.number _ f.number,
    read_quote-append r.quote _ f.quote,
    read_uint256-append r.sponsor_balance _ f.sponsor_balance,
    read_time-append r.observed_at _ f.observed_at,
  )
    where
      small_network : leb (2 ^ 63) r.network ≡ false
      small_network = ground arith

  tail_bytes : Reservation → Bytes
  tail_bytes r =
      be_bytes 32 r.id
      ++ request_bytes r.request (
          x.bytes32 r.maximum
          ++ (x.bytes32 r.actual
              ++ (be_bytes 32 r.tx_hash
                  ++ (time_bytes r.created_at
                      ++ (time_bytes r.exposed_at ++ time_bytes r.updated_at)))))

  encode_fields-eq : (r : Reservation) → encode_fields r ≡ 1 ∷ state_byte r.state ∷ tail_bytes r
  unfolding encode_fields append_uint256 tail_bytes request_bytes quote_bytes
  encode_fields-eq r = simp (append_time-eq, append_assoc)

  read_reservation-tail :
      (r : Reservation) (state : ℕ)
      → ReservationFits r
      → state_of_byte state ≡ r.state
      → read_reservation state (tail_bytes r) ≡ some r
  unfolding read_reservation tail_bytes
  read_reservation-tail r state f e =
      rw
        (
          read_field-append 32 r.id _ f.id,
          read_request-append r.request _ f.request,
          read_uint256-append r.maximum _ f.maximum,
          read_uint256-append r.actual _ f.actual,
          read_field-append 32 r.tx_hash _ f.tx_hash,
          read_time-append r.created_at _ f.created_at,
          read_time-append r.exposed_at _ f.exposed_at,
          ← append-nil (time_bytes r.updated_at),
          read_time-append r.updated_at [] f.updated_at,
        )
        (ap (λ s. some (record r { state = s })) e)

  length-bytes32 : (v : ℕ) → length (x.bytes32 v) ≡ 32
  length-bytes32 v = rw (x.bytes32_lem v) (length-be_bytes 32 v)

  length-quote_bytes :
      (q : CostQuote) (rest : Bytes) → length (quote_bytes q rest) ≡ 72 + length rest
  unfolding quote_bytes
  length-quote_bytes q rest = simp (length-append, length-be_bytes, length-bytes32) (omega arith)

  length-request_bytes :
      (r : ReservationRequest) (rest : Bytes) → length (request_bytes r rest) ≡ 212 + length rest
  unfolding request_bytes
  length-request_bytes r rest =
      simp (length-append, length-be_bytes, length-bytes32, length-time_bytes, length-quote_bytes)
        (omega arith)

  length-tail_bytes : (r : Reservation) → length (tail_bytes r) ≡ 376
  unfolding tail_bytes
  length-tail_bytes r =
      simp (length-append, length-be_bytes, length-bytes32, length-time_bytes, length-request_bytes)
        (omega arith)

  pub decode_reservation-encode_fields :
      (r : Reservation) → ReservationFits r → decode_reservation (encode_fields r) ≡ some r
  unfolding decode_reservation
  decode_reservation-encode_fields r f =
      rw (encode_fields-eq r, length-tail_bytes r)
        (read_reservation-tail r (state_byte r.state) f f.state.1)

  -- A reservation whose fields are in the ranges of their types is read back as it was written.
  pub decode_reservation-encode_reservation :
      (r : Reservation) {bs : Bytes}
      → ReservationFits r
      → encode_reservation r ≡ ok bs
      → decode_reservation bs ≡ some r
  unfolding encode_reservation
  decode_reservation-encode_reservation r f e = ground (arith, decode_reservation-encode_fields r f)

  -- Such a reservation is written exactly if its two times are persistent.
  pub encode_reservation-eq-ok :
      (r : Reservation)
      → valid_persistent_time r.created_at ≡ true
      → valid_persistent_time r.updated_at ≡ true
      → encode_reservation r ≡ ok (encode_fields r)
  unfolding encode_reservation
  encode_reservation-eq-ok r c u = ground arith
