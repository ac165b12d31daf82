-- ===== src/Budget/Operations/Admission.antt =====
-- A reservation that is let in keeps every limit and the sponsor's reserve (`Reserve`).
use guard_daemon.Prelude.{
  ℕ, ◌+◌, ◌^◌, ◌≤◌, ◌<◌, ◌≡◌, sym, ap, true, not, some, arith, Bytes, total, total-insert_le,
  lookup, lookup-insert_self, Option-cases, inl, inr,
}
use guard_daemon.External.{External}
use guard_daemon.Budget.Types.{
  ok, >>=-eq-ok, fail_if-eq-ok, or_else, or_else-eq-ok, ok_injective, corrupt, sponsor_reserve,
  Limits, ReservationRequest, held, Reservation, ReservationFits,
}
use guard_daemon.Budget.Cost.{maximum_cost, check_scope_budget, sponsor_has_capacity}
use guard_daemon.Budget.Cost.Capacity.{sponsor_has_capacity_exact}
use guard_daemon.Budget.Cost.Scope.{LimitsFit, check_scope_budget_exact}
use guard_daemon.Budget.Codec.{encode_reservation, decode_reservation, id_key, attempt_key}
use guard_daemon.Budget.Codec.RoundTrip.{decode_reservation-encode_reservation}
use guard_daemon.Budget.State.{Ledger, State, find_network, network_of}
use guard_daemon.Budget.Usage.{AggregateUsage, collect_usage}
use guard_daemon.Budget.Usage.Sums.{
  Counter, reserved, hour_spent, day_spent, all_spent, counter, Scope, everything, only, usage_of,
  amount_in, sponsor_amount, weight, recorded, sponsor_recorded,
}
use guard_daemon.Budget.Usage.Collected.{
  LedgerFits, RecordedWithin, collect_usage-counter, collect_usage-sponsor,
}
use guard_daemon.Budget.Operations.{store_reservation, admit}

-- The limits of any network are `uint256`s.
pub network_of-fits : (l : Ledger) (id : ℕ) → LedgerFits l → LimitsFit (network_of l id).limits
unfolding network_of
network_of-fits l id f = elim (Option-cases (find_network id l.networks)) [
  | inl e ↦ rw (e, network_of) (omega arith)
  | inr (n, e) ↦ rw (e, network_of) (f.networks id n e)
]

module _ ⦃x : External⦄ where
  sponsor_amount-le : (m t : ℕ) (r : Reservation) → sponsor_amount m t r ≤ r.maximum
  sponsor_amount-le m t r = ground arith

  -- The weight of every file entry grows by that of one reservation at most.
  abbrev pub Adds : Reservation → State → State → Type 0
  Adds r st st' =
      (f : Reservation → ℕ)
      → total (weight f) st'.reservations ≤ f r + total (weight f) st.reservations

  weight-encoded :
      (f : Reservation → ℕ) (key bytes : Bytes) (r : Reservation)
      → decode_reservation bytes ≡ some r
      → weight f key bytes ≡ f r
  unfolding weight
  weight-encoded f key bytes r e = rw (e, weight)

  pub store_reservation-Adds :
      (r : Reservation) (st : State) {st' : State}
      → ReservationFits r
      → store_reservation r st ≡ ok st'
      → Adds r st st'
  unfolding store_reservation
  store_reservation-Adds r st {st'} fits h f =
      let (bytes, e, h1) = >>=-eq-ok (or_else (encode_reservation r) corrupt) _ h in
      let written = or_else-eq-ok (encode_reservation r) corrupt e in
      let same = ap (λ (s : State). s.reservations) (ok_injective h1) in
      rw (← same, x.put_lem (id_key r.id) bytes st.reservations)
        (omega (
          arith,
          total-insert_le (weight f) (id_key r.id) bytes st.reservations,
          weight-encoded f (id_key r.id) bytes r
              (decode_reservation-encode_reservation r fits written),
        ))

  -- The file holds the reservation under its id, and the index points at it.
  pub record Stored (r : Reservation) (st : State) : Type 0 where
    pub row :
        (bytes : Bytes) × (lookup (id_key r.id) st.reservations ≡ some bytes)
        × (decode_reservation bytes ≡ some r)
    pub index : lookup (attempt_key r.request.attempt) st.attempts ≡ some (id_key r.id)

  pub store_reservation-row :
      (r : Reservation) (st : State) {st' : State}
      → ReservationFits r
      → store_reservation r st ≡ ok st'
      → ((bytes : Bytes) × (lookup (id_key r.id) st'.reservations ≡ some bytes)
          × (decode_reservation bytes ≡ some r))
        × (st'.attempts ≡ st.attempts)
  unfolding store_reservation
  store_reservation-row r st {st'} fits h =
      let (bytes, e, h1) = >>=-eq-ok (or_else (encode_reservation r) corrupt) _ h in
      let written = or_else-eq-ok (encode_reservation r) corrupt e in
      let same = ap (λ (s : State). s.reservations) (ok_injective h1) in
      (
        (
          bytes,
          rw (← same, x.put_lem (id_key r.id) bytes st.reservations)
              (lookup-insert_self (id_key r.id) bytes st.reservations),
          decode_reservation-encode_reservation r fits written,
        ),
        sym (ap (λ (s : State). s.attempts) (ok_injective h1)),
      )

  -- What the checks of an admission have found.
  pub record Admits (l : Ledger) (request : ReservationRequest) (usage : AggregateUsage) (m : ℕ)
      : Type 0 where
    pub price :
        maximum_cost request.quote (network_of l request.network).transaction_overhead ≡ ok m
    pub global : check_scope_budget l.policy.global usage.global m ≡ ok tt
    pub network :
        check_scope_budget (network_of l request.network).limits (usage.networks request.network) m
        ≡ ok tt
    pub sponsor :
        sponsor_has_capacity request.sponsor_balance
          (network_of l request.network).emergency_sponsor_reserve
          (usage.sponsors request.network request.sponsor)
          m
        ≡ true

  pub admit-Admits :
      (l : Ledger) (request : ReservationRequest) (usage : AggregateUsage) {m : ℕ}
      → admit l request usage ≡ ok m
      → Admits l request usage m
  unfolding admit
  admit-Admits l request usage {m} h =
      let n = network_of l request.network in
      let (price, e, h1) = >>=-eq-ok (maximum_cost request.quote n.transaction_overhead) _ h in
      let (_, global, h2) =
        >>=-eq-ok (check_scope_budget l.policy.global usage.global price) _ h1 in
      let (_, network, h3) =
        >>=-eq-ok (check_scope_budget n.limits (usage.networks request.network) price) _ h2 in
      let (sponsor, h4) =
        fail_if-eq-ok
          (not (
            sponsor_has_capacity request.sponsor_balance n.emergency_sponsor_reserve
              (usage.sponsors request.network request.sponsor) price))
          sponsor_reserve _ h3 in
      let found : Admits l request usage price = record {
        price = e;
        global = global;
        network = network;
        sponsor = ground arith;
      } in
      rw (ok_injective h4) at found

  -- The reservation has the price of its quote, which is within the limits of a transaction; every
  -- other limit holds for what is recorded; and the sponsor's balance covers its reserve and all that
  -- is set aside.
  pub record Admitted (l : Ledger) (r : Reservation) (now : ℕ) (st : State) : Type 0 where
    pub price :
        maximum_cost r.request.quote (network_of l r.request.network).transaction_overhead
        ≡ ok r.maximum
    pub per_transaction : r.maximum ≤ l.policy.global.per_transaction
    pub per_network : r.maximum ≤ (network_of l r.request.network).limits.per_transaction
    pub global : RecordedWithin l.policy.global everything now st
    pub network :
        RecordedWithin (network_of l r.request.network).limits (only r.request.network) now st
    pub sponsor :
        (network_of l r.request.network).emergency_sponsor_reserve
          + sponsor_recorded r.request.network r.request.sponsor st
        ≤ r.request.sponsor_balance

  abbrev held_room : Counter → ℕ → ℕ
  held_room reserved m = m
  held_room _ m = 0

  held_amount :
      (sc : Scope) (c : Counter) (now : ℕ) (r : Reservation)
      → r.state ≡ held
      → amount_in sc c now r ≤ held_room c r.maximum
  held_amount sc reserved now r e = ground arith
  held_amount sc hour_spent now r e = ground arith
  held_amount sc day_spent now r e = ground arith
  held_amount sc all_spent now r e = ground arith

  recorded-Adds :
      (l : Ledger) (r : Reservation) (now : ℕ) (st st' : State) (sc : Scope) (c : Counter)
      {u : AggregateUsage}
      → collect_usage l now st ≡ ok u
      → r.state ≡ held
      → Adds r st st'
      → recorded sc c now st' ≤ held_room c r.maximum + counter c (usage_of sc u)
  unfolding recorded
  recorded-Adds l r now st st' sc c h e adds = omega (
    arith,
    collect_usage-counter l now st sc c h,
    adds (amount_in sc c now),
    held_amount sc c now r e,
  )

  scope-Adds :
      (l : Ledger) (limits : Limits) (r : Reservation) (now : ℕ) (st st' : State) (sc : Scope)
      {u : AggregateUsage}
      → LimitsFit limits
      → collect_usage l now st ≡ ok u
      → check_scope_budget limits (usage_of sc u) r.maximum ≡ ok tt
      → r.state ≡ held
      → Adds r st st'
      → RecordedWithin limits sc now st'
  scope-Adds l limits r now st st' sc {u} f h c e adds = omega (
    arith,
    ((check_scope_budget_exact limits (usage_of sc u) r.maximum f).0 c).2,
    recorded-Adds l r now st st' sc reserved h e adds,
    recorded-Adds l r now st st' sc hour_spent h e adds,
    recorded-Adds l r now st st' sc day_spent h e adds,
    recorded-Adds l r now st st' sc all_spent h e adds,
  )

  sponsor-Adds :
      (l : Ledger) (r : Reservation) (now m t : ℕ) (st st' : State) {u : AggregateUsage}
      → collect_usage l now st ≡ ok u
      → r.state ≡ held
      → Adds r st st'
      → sponsor_recorded m t st' ≤ r.maximum + u.sponsors m t
  unfolding sponsor_recorded
  sponsor-Adds l r now m t st st' h e adds = omega (
    arith,
    collect_usage-sponsor l now st m t h,
    adds (sponsor_amount m t),
    sponsor_amount-le m t r,
  )

  -- The checks of an admission, and a state to which at most the admitted reservation was added.
  pub Adds-Admitted :
      (l : Ledger) (r : Reservation) (now : ℕ) (st st' : State) {u : AggregateUsage}
      → LedgerFits l
      → r.request.sponsor_balance < 2 ^ 256
      → collect_usage l now st ≡ ok u
      → Admits l r.request u r.maximum
      → r.state ≡ held
      → Adds r st st'
      → Admitted l r now st'
  Adds-Admitted l r now st st' {u} f b h a e adds =
      let n = network_of l r.request.network in
      let limits = network_of-fits l r.request.network f in
      let global =
        check_scope_budget_exact l.policy.global (usage_of everything u) r.maximum f.global in
      let network =
        check_scope_budget_exact n.limits (usage_of (only r.request.network) u) r.maximum limits in
      record {
        price = a.price;
        per_transaction = (global.0 a.global).1;
        per_network = (network.0 a.network).1;
        global = scope-Adds l l.policy.global r now st st' everything f.global h a.global e adds;
        network =
            scope-Adds l n.limits r now st st' (only r.request.network) limits h a.network e adds;
        sponsor = omega (
          arith,
          (sponsor_has_capacity_exact r.request.sponsor_balance n.emergency_sponsor_reserve
                (u.sponsors r.request.network r.request.sponsor) r.maximum b).0
              a.sponsor,
          sponsor-Adds l r now r.request.network r.request.sponsor st st' h e adds,
        );
      }
