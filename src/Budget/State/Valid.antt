-- ===== src/Budget/State/Valid.antt =====
-- What `validateRequest`, `validateReservation` and `reservationByID` guarantee.
use guard_daemon.Prelude.{
  ℕ, ◌^◌, ◌≤◌, ◌<◌, ◌≡◌, refl, true, false, some, arith, Bytes, Option-cases, inl, inr,
}
use guard_daemon.External.{External}
use guard_daemon.Budget.Types.{
  Result, ok, err, is_err, CostQuote, QuoteFits, ReservationRequest, Reservation,
}
use guard_daemon.Budget.Cost.{maximum_cost}
use guard_daemon.Budget.Cost.Capacity.{maximum_cost_lem, mul_pos}
use guard_daemon.Budget.Codec.{
  new_reservation_id, valid_persistent_time, decode_reservation, id_key,
}
use guard_daemon.Budget.State.{
  Ledger, State, find_network, network_of, valid_attempt, validate_request, validate_reservation,
  valid_state, reservation_by_id,
}

is_err-false : (m : Result (Unit {0})) → is_err m ≡ false → m ≡ ok tt
is_err-false (ok tt) h = refl
is_err-false (err e) h = cc

module _ ⦃x : External⦄ where
  -- A price is positive and fits 256 bits.
  pub maximum_cost_bounds :
      (q : CostQuote) (overhead : ℕ) {m : ℕ}
      → QuoteFits q
      → maximum_cost q overhead ≡ ok m
      → (0 < m) × (m < 2 ^ 256)
  maximum_cost_bounds q overhead {m} f h =
      ground (arith, maximum_cost_lem q overhead, mul_pos q.gas_limit q.max_fee_per_gas)

  -- A valid request names a network of the ledger and that network's sponsor.
  pub validate_request-network :
      (l : Ledger) (r : ReservationRequest)
      → validate_request l r ≡ ok tt
      → (find_network r.network l.networks ≡ some (network_of l r.network))
        × (r.sponsor ≡ (network_of l r.network).sponsor)
        × (valid_attempt r.attempt ≡ true)
  unfolding validate_request network_of
  validate_request-network l r h = elim (Option-cases (find_network r.network l.networks)) [
    | inl e ↦ absurd (ground (arith, e))
    | inr (n, e) ↦ rw (e, network_of) (refl, ground (arith, e), ground (arith, e))
  ]

  pub record IsValidReservation (l : Ledger) (r : Reservation) : Type 0 where
    pub id : r.id ≡ new_reservation_id r.request.attempt
    pub request : validate_request l r.request ≡ ok tt
    pub created_at : valid_persistent_time r.created_at ≡ true
    pub updated_at : valid_persistent_time r.updated_at ≡ true
    pub ordered : r.created_at ≤ r.updated_at
    pub price :
        maximum_cost r.request.quote (network_of l r.request.network).transaction_overhead
        ≡ ok r.maximum
    pub per_transaction : r.maximum ≤ l.policy.global.per_transaction
    pub per_network : r.maximum ≤ (network_of l r.request.network).limits.per_transaction
    pub state : valid_state r.state r (network_of l r.request.network).allow_fee_overrun ≡ true

  validate_reservation-price :
      (l : Ledger) (r : Reservation)
      → validate_reservation l r ≡ ok tt
      → maximum_cost r.request.quote (network_of l r.request.network).transaction_overhead
        ≡ ok r.maximum
  unfolding validate_reservation
  validate_reservation-price l r h = ground arith

  pub validate_reservation-IsValidReservation :
      (l : Ledger) (r : Reservation) → validate_reservation l r ≡ ok tt → IsValidReservation l r
  unfolding validate_reservation
  validate_reservation-IsValidReservation l r h = record {
    id = ground arith;
    request = is_err-false (validate_request l r.request) (ground arith);
    created_at = ground arith;
    updated_at = ground arith;
    ordered = ground arith;
    price = validate_reservation-price l r h;
    per_transaction = ground arith;
    per_network = ground arith;
    state = ground arith;
  }

  -- A reservation that is found under an id has that id and is valid.
  pub reservation_by_id-eq-ok :
      (l : Ledger) (id : ℕ) (st : State) {r : Reservation}
      → reservation_by_id l id st ≡ ok r
      → (r.id ≡ id)
        × IsValidReservation l r
        × ((bytes : Bytes) × (x.get (id_key id) st.reservations ≡ some bytes)
            × (decode_reservation bytes ≡ some r))
  unfolding reservation_by_id
  reservation_by_id-eq-ok l id st {r} h = elim (Option-cases (x.get (id_key id) st.reservations)) [
    | inl e ↦ absurd (ground (arith, e))
    | inr (bytes, e) ↦ elim (Option-cases (decode_reservation bytes)) [
      | inl d ↦ absurd (ground (arith, e, d))
      | inr (s, d) ↦
          found bytes s e d (ground (arith, e, d)) (ground (arith, e, d)) (ground (arith, e, d))
    ]
  ]
    where
      found :
          (bytes : Bytes) (s : Reservation)
          → x.get (id_key id) st.reservations ≡ some bytes
          → decode_reservation bytes ≡ some s
          → s ≡ r
          → s.id ≡ id
          → is_err (validate_reservation l s) ≡ false
          → (r.id ≡ id)
            × IsValidReservation l r
            × ((bytes : Bytes) × (x.get (id_key id) st.reservations ≡ some bytes)
                × (decode_reservation bytes ≡ some r))
      found bytes s e d same i v = rw (← same) (
        i,
        validate_reservation-IsValidReservation l s (is_err-false (validate_reservation l s) v),
        (bytes, e, d),
      )
