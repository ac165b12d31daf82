-- ===== src/Budget/Operations/Again.antt =====
-- `Reserve` for an attempt that has a reservation: in use, or released and held again.
use guard_daemon.Prelude.{
  ℕ, ◌≡◌, refl, sym, ap, ◌∙◌, true, not, some, arith, Bytes, lookup, length, be_value, ◌==◌,
  Bool-cases, inl, inr,
}
use guard_daemon.Instant.{IsStamp}
use guard_daemon.Budget.Types.{Error}
use guard_daemon.External.{External}
use guard_daemon.Budget.Types.{
  Result, ok, >>=-eq-ok, fail_if-eq-ok, or_else, or_else-eq-ok, ok_injective, corrupt,
  state_conflict, attempt_eq, attempt_eq→eq, ReservationRequest, Reservation, RequestFits,
  ReservationFits,
}
use guard_daemon.Budget.Codec.{
  decode_reservation, new_reservation_id, same_reservation_request, id_key, attempt_key,
}
use guard_daemon.Budget.State.{Ledger, State, reservation_by_id}
use guard_daemon.Budget.State.Valid.{
  IsValidReservation, maximum_cost_bounds, reservation_by_id-eq-ok,
}
use guard_daemon.Budget.Usage.{AggregateUsage, collect_usage}
use guard_daemon.Budget.Usage.Collected.{LedgerFits}
use guard_daemon.Budget.Usage.Indexed.{collect_usage-index}
use guard_daemon.Budget.Operations.{
  store_reservation, admit, held_reservation, reopen, reserve_existing, is_released,
}
use guard_daemon.Budget.Operations.Admission.{
  Stored, store_reservation-row, store_reservation-Adds, Admits, admit-Admits, Adds-Admitted,
}
use guard_daemon.Budget.Operations.Reserve.{Outcome, found, admitted, held_reservation-fits}

same_request-quote :
    (a b : ReservationRequest)
    → same_reservation_request a b ≡ true
    → (a.quote ≡ b.quote) × (a.network ≡ b.network) × (a.attempt ≡ b.attempt)
unfolding same_reservation_request
same_request-quote a b h = ground arith

module _ ⦃x : External⦄ where
  -- The price of a reservation that is asked for again is the one it has.
  again_price :
      (l : Ledger) (request : ReservationRequest) (existing : Reservation) (u : AggregateUsage)
      {m : ℕ}
      → IsValidReservation l existing
      → same_reservation_request existing.request request ≡ true
      → Admits l request u m
      → (m ≡ existing.maximum) × (existing.id ≡ new_reservation_id request.attempt)
  again_price l request existing u v same a =
      let (quote, network, attempt) = same_request-quote existing.request request same in
      (ok_injective {E = Error} (cc (v.price, a.price, quote, network)), cc (v.id, attempt))

  reopen-Outcome :
      (l : Ledger) (request : ReservationRequest) (now : ℕ) (st : State) (existing : Reservation)
      {u : AggregateUsage} {r : Reservation} {st' : State}
      → LedgerFits l
      → RequestFits request
      → IsStamp now
      → IsValidReservation l existing
      → same_reservation_request existing.request request ≡ true
      → Stored existing st
      → collect_usage l now st ≡ ok u
      → reopen l request now u existing st ≡ ok (r, st')
      → Outcome l request now st r st'
  unfolding reopen
  reopen-Outcome l request now st existing {u} {r} {st'} f g s v same held_before c h =
      let (maximum, a, h1) = >>=-eq-ok (admit l request u) _ h in
      let admits = admit-Admits l request u a in
      let (price, id) = again_price l request existing u v same admits in
      let again = held_reservation existing.id request existing.maximum now in
      let (stored, w, h2) = >>=-eq-ok (store_reservation again st) _ h1 in
      let kept = ap (λ (p : Reservation × State). p.0) (ok_injective h2) in
      let state = ap (λ (p : Reservation × State). p.1) (ok_injective h2) in
      let fits : ReservationFits again =
        rw (id, ← price)
          (held_reservation-fits request maximum now g
            (maximum_cost_bounds request.quote _ g.quote admits.price).1 s) in
      let (row, attempts) = store_reservation-row again st fits w in
      let attempt = (same_request-quote existing.request request same).2 in
      let index : lookup (attempt_key request.attempt) st.attempts ≡ some (id_key existing.id) =
        rw attempt at held_before.index in
      let written : Stored again stored = record {
        row = row;
        index = ap (lookup (attempt_key request.attempt)) attempts ∙ index;
      } in
      rw (← kept, ← state)
        (admitted refl refl id refl written (
          Adds-Admitted l again now st stored f g.sponsor_balance c (rw price at admits) refl
            (store_reservation-Adds again st fits w)))

  existing-Stored :
      (l : Ledger) (now : ℕ) (st : State) (r : Reservation) (id : ℕ) (entry : Bytes)
      {u : AggregateUsage}
      → collect_usage l now st ≡ ok u
      → r.id ≡ id
      → ((bytes : Bytes) × (x.get (id_key id) st.reservations ≡ some bytes)
          × (decode_reservation bytes ≡ some r))
      → x.get (attempt_key r.request.attempt) st.attempts ≡ some entry
      → Stored r st
  existing-Stored l now st r id entry c same (bytes, e, decoded) at =
      let found : lookup (id_key r.id) st.reservations ≡ some bytes =
        ap (λ n. lookup (id_key n) st.reservations) same
        ∙ sym (x.get_lem (id_key id) st.reservations)
        ∙ e in
      record {
        row = (bytes, found, decoded);
        index = collect_usage-index l now st r (id_key r.id) bytes entry c found decoded at;
      }

  pub reserve_existing-Outcome :
      (l : Ledger) (request : ReservationRequest) (now : ℕ) (bytes : Bytes) (st : State)
      {u : AggregateUsage} {r : Reservation} {st' : State}
      → LedgerFits l
      → RequestFits request
      → IsStamp now
      → collect_usage l now st ≡ ok u
      → x.get (attempt_key request.attempt) st.attempts ≡ some bytes
      → reserve_existing l request now u bytes st ≡ ok (r, st')
      → Outcome l request now st r st'
  unfolding reserve_existing
  reserve_existing-Outcome l request now bytes st {u} {r} {st'} f g s c entry h =
      let (_, h1) = fail_if-eq-ok (not (length bytes == 32)) corrupt _ h in
      let (existing, e, h2) =
        >>=-eq-ok (or_else (reservation_by_id l (be_value bytes) st) corrupt) _ h1 in
      let by_id = or_else-eq-ok (reservation_by_id l (be_value bytes) st) corrupt e in
      let (id, valid, row) = reservation_by_id-eq-ok l (be_value bytes) st by_id in
      let (attempt, h3) =
        fail_if-eq-ok (not (attempt_eq existing.request.attempt request.attempt)) corrupt _ h2 in
      let (same, h4) =
        fail_if-eq-ok (not (same_reservation_request existing.request request)) state_conflict _
          h3 in
      let attempts = attempt_eq→eq existing.request.attempt request.attempt (ground arith) in
      let stored =
        existing-Stored l now st existing (be_value bytes) bytes c id row
          (rw (sym attempts) at entry) in
      elim (Bool-cases (is_released existing.state)) [
        | inl again ↦
            reopen-Outcome l request now st existing f g s valid (ground arith) stored c
              (ground (arith, again))
        | inr in_use ↦
            let h5 : ◌≡◌ {A = Result (Reservation × State)} (ok (existing, st)) (ok (r, st')) =
              ground (arith, in_use) in
            let kept = ap (λ (p : Reservation × State). p.0) (ok_injective h5) in
            let state = ap (λ (p : Reservation × State). p.1) (ok_injective h5) in
            rw (← kept, ← state) (found refl refl in_use attempts stored)
      ]
