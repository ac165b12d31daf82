-- ===== src/Budget/Operations/Reserve.antt =====
-- `Reserve` for a new attempt, and what a successful call has done to the file.
use guard_daemon.Prelude.{
  ℕ, ◌^◌, ◌≤◌, ◌<◌, ◌≡◌, refl, ap, ◌∙◌, false, Option, none, some, arith, Bytes, Entries, lookup,
  lookup-insert_self, total, total-erase_le, length, leb, Bool-cases, Option-cases, inl, inr,
}
use guard_daemon.Instant.{IsStamp}
use guard_daemon.External.{External}
use guard_daemon.Budget.Types.{
  ok, ◌>>=◌, >>=-eq-ok, ok_injective, ReservationRequest, held, Reservation, RequestFits,
  ReservationFits,
}
use guard_daemon.Budget.Codec.{new_reservation_id, id_key, attempt_key}
use guard_daemon.Budget.State.{Ledger, State}
use guard_daemon.Budget.State.Valid.{maximum_cost_bounds}
use guard_daemon.Budget.Usage.{AggregateUsage, collect_usage}
use guard_daemon.Budget.Usage.Sums.{weight}
use guard_daemon.Budget.Usage.Collected.{LedgerFits}
use guard_daemon.Budget.Operations.{
  store_reservation, admit, held_reservation, make_room, purge_oldest_released, select_oldest,
  remove_selected, or_full, hold_new, reserve_new, is_released,
}
use guard_daemon.Budget.Operations.Admission.{
  Stored, store_reservation-row, store_reservation-Adds, Admits, admit-Admits, Admitted,
  Adds-Admitted,
}

module _ ⦃x : External⦄ where
  pub held_reservation-fits :
      (request : ReservationRequest) (maximum now : ℕ)
      → RequestFits request
      → maximum < 2 ^ 256
      → IsStamp now
      → ReservationFits (held_reservation (new_reservation_id request.attempt) request maximum now)
  unfolding new_reservation_id
  held_reservation-fits request maximum now f m s = record {
    id = x.sha256-lt _;
    request = f;
    maximum = m;
    state = ground arith;
    tx_hash = omega arith;
    actual = omega arith;
    created_at = s;
    exposed_at = omega arith;
    updated_at = s;
  }

  remove_selected-le :
      (st : State) (selected : Option Reservation) {st' : State} (f : Reservation → ℕ)
      → remove_selected st selected ≡ some st'
      → total (weight f) st'.reservations ≤ total (weight f) st.reservations
  unfolding remove_selected
  remove_selected-le st none f h = absurd (ground arith)
  remove_selected-le st (some r) {st'} f h =
      let same : x.delete (id_key r.id) st.reservations ≡ st'.reservations = ground arith in
      rw (← same, x.delete_lem (id_key r.id) st.reservations)
        (total-erase_le (weight f) (id_key r.id) st.reservations)

  or_full-eq-ok : (o : Option State) {st : State} → or_full o ≡ ok st → o ≡ some st
  unfolding or_full
  or_full-eq-ok none h = absurd (ground arith)
  or_full-eq-ok (some st) h = ap some (ok_injective h)

  indexed : (k v : Bytes) (d : Entries) → lookup k (x.put k v d) ≡ some v
  indexed k v d = ap (lookup k) (x.put_lem k v d) ∙ lookup-insert_self k v d

  -- Making room adds to no sum.
  make_room-le :
      (l : Ledger) (st : State) {st' : State} (f : Reservation → ℕ)
      → make_room l st ≡ ok st'
      → total (weight f) st'.reservations ≤ total (weight f) st.reservations
  unfolding make_room purge_oldest_released
  make_room-le l st {st'} f h = elim (Bool-cases (leb l.max_records (length st.reservations))) [
    | inl full ↦
        let h' : (purge_oldest_released l st >>= or_full) ≡ ok st' = rw (full, make_room) at h in
        let (o, purged, e) = >>=-eq-ok (purge_oldest_released l st) or_full h' in
        let (selected, _, e') = >>=-eq-ok (select_oldest l st.reservations none) _ purged in
        remove_selected-le st selected f (ok_injective e' ∙ or_full-eq-ok o e)
    | inr free ↦ ground (arith, free)
  ]

  -- A call that found the attempt's reservation in use returns what the file holds and writes nothing;
  -- one that held a reservation, new or released before, has stored it, with its price and all that
  -- is recorded within the limits.
  pub data Outcome (l : Ledger) (request : ReservationRequest) (now : ℕ) (st : State)
      (r : Reservation) (st' : State) : Type 0 where
    found :
        st'.reservations ≡ st.reservations
        → st'.attempts ≡ st.attempts
        → is_released r.state ≡ false
        → r.request.attempt ≡ request.attempt
        → Stored r st'
        → Outcome l request now st r st'
    admitted :
        r.state ≡ held
        → r.request ≡ request
        → r.id ≡ new_reservation_id request.attempt
        → r.updated_at ≡ now
        → Stored r st'
        → Admitted l r now st'
        → Outcome l request now st r st'

  hold_new-Outcome :
      (l : Ledger) (request : ReservationRequest) (maximum now : ℕ) (st room : State)
      {u : AggregateUsage} {r : Reservation} {st' : State}
      → LedgerFits l
      → RequestFits request
      → maximum < 2 ^ 256
      → IsStamp now
      → collect_usage l now st ≡ ok u
      → Admits l request u maximum
      → ((f : Reservation → ℕ)
          → total (weight f) room.reservations ≤ total (weight f) st.reservations)
      → hold_new request maximum now room ≡ ok (r, st')
      → Outcome l request now st r st'
  unfolding hold_new
  hold_new-Outcome l request maximum now st room {u} {r} {st'} f g m s c a le h =
      let id = new_reservation_id request.attempt in
      elim (Option-cases (x.get (id_key id) room.reservations)) [
        | inl e ↦
            let h1 : (store_reservation (held_reservation id request maximum now) room >>= λ st.
            ok (
              held_reservation id request maximum now,
              record st { attempts = x.put (attempt_key request.attempt) (id_key id) st.attempts },
            ))
                ≡ ok (r, st') =
              rw (e, hold_new) at h in
            let (stored, w, h2) =
              >>=-eq-ok (store_reservation (held_reservation id request maximum now) room) _ h1 in
            let same = ok_injective h2 in
            let kept = ap (λ (p : Reservation × State). p.0) same in
            let state = ap (λ (p : Reservation × State). p.1) same in
            let fits = held_reservation-fits request maximum now g m s in
            let (row, _) =
              store_reservation-row (held_reservation id request maximum now) room fits w in
            let written : Stored (held_reservation id request maximum now) (record stored {
              attempts = x.put (attempt_key request.attempt) (id_key id) stored.attempts;
            }) =
              record {
                row = row;
                index = indexed (attempt_key request.attempt) (id_key id) stored.attempts;
              } in
            rw (← kept, ← state)
              (admitted refl refl refl refl written (
                Adds-Admitted l (held_reservation id request maximum now) now st _ f
                  g.sponsor_balance c a refl
                  (λ weigh. omega (
                    arith,
                    store_reservation-Adds (held_reservation id request maximum now) room fits w
                        weigh,
                    le weigh,
                  ))))
        | inr (v, e) ↦ absurd (ground (arith, e))
      ]

  pub reserve_new-Outcome :
      (l : Ledger) (request : ReservationRequest) (now : ℕ) (st : State) {u : AggregateUsage}
      {r : Reservation} {st' : State}
      → LedgerFits l
      → RequestFits request
      → IsStamp now
      → collect_usage l now st ≡ ok u
      → reserve_new l request now u st ≡ ok (r, st')
      → Outcome l request now st r st'
  unfolding reserve_new
  reserve_new-Outcome l request now st {u} f g s c h =
      let (room, e, h1) = >>=-eq-ok (make_room l st) _ h in
      let (maximum, a, h2) = >>=-eq-ok (admit l request u) _ h1 in
      let admits = admit-Admits l request u a in
      hold_new-Outcome l request maximum now st room f g
        (maximum_cost_bounds request.quote _ g.quote admits.price).1 s c admits
        (λ weigh. make_room-le l st weigh e) h2
