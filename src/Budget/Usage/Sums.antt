-- ===== src/Budget/Usage/Sums.antt =====
-- What `collect_usage` returns, described by plain sums over the decoded records.
use guard_daemon.Prelude.{
  ℕ, ◌+◌, ◌-◌, ◌≡◌, refl, inl, inr, Bool, true, false, ◌&&◌, none, some, [], ◌∷◌, arith, Bytes,
  Entries, total, ltb, ◌==◌, if◌then◌else◌, Bool-cases, ==_iff,
}
use guard_daemon.External.{External}
use guard_daemon.Budget.Types.{
  ok, >>=-eq-ok, ok_injective, ReservationState, held, exposed, committed, released, other,
  Reservation,
}
use guard_daemon.Budget.Cost.{ScopeUsage}
use guard_daemon.Budget.Cost.Capacity.{add_checked_exact}
use guard_daemon.Budget.Codec.{decode_reservation}
use guard_daemon.Budget.State.{Ledger, State, day, hour}
use guard_daemon.Budget.Usage.{
  AggregateUsage, with_usage, add_if, tally_state, tally, is_open, check_row, collect_rows,
}

-- The four sums of a scope.
pub data Counter : Type 0 where
  reserved hour_spent day_spent all_spent : Counter

abbrev pub counter : Counter → ScopeUsage → ℕ
counter reserved u = u.reserved
counter hour_spent u = u.hour_spent
counter day_spent u = u.day_spent
counter all_spent u = u.all_spent

abbrev spent_since : ReservationState → ℕ → Reservation → ℕ
spent_since committed since r = if ltb r.updated_at since then 0 else r.actual
spent_since _ since r = 0

-- What one reservation counts for.
abbrev pub amount : Counter → ℕ → Reservation → ℕ
amount reserved now r = if is_open r.state then r.maximum else 0
amount hour_spent now r = spent_since r.state (now - hour) r
amount day_spent now r = spent_since r.state (now - day) r
amount all_spent now r = spent_since r.state 0 r

-- The global scope, or that of a network.
pub data Scope : Type 0 where
  everything : Scope
  only : ℕ → Scope

abbrev pub in_scope : Scope → Reservation → Bool
in_scope everything r = true
in_scope (only m) r = m == r.request.network

abbrev pub usage_of : Scope → AggregateUsage → ScopeUsage
usage_of everything u = u.global
usage_of (only m) u = u.networks m

abbrev pub amount_in : Scope → Counter → ℕ → Reservation → ℕ
amount_in sc c now r = if in_scope sc r then amount c now r else 0

-- The part of the open reservations that counts against a sponsor on a network.
abbrev pub sponsor_amount : ℕ → ℕ → Reservation → ℕ
sponsor_amount m t r =
    if m == r.request.network && t == r.request.sponsor then amount reserved 0 r else 0

module _ ⦃x : External⦄ where
  -- A weight of reservations on the bytes of a record.
  unfoldable pub weight : (Reservation → ℕ) → Bytes → Bytes → ℕ
  weight f key value = elim (decode_reservation value) [ none ↦ 0 | some r ↦ f r ]

  unfoldable pub recorded : Scope → Counter → ℕ → State → ℕ
  unfolding weight
  recorded sc c now st = total (weight (amount_in sc c now)) st.reservations

  unfoldable pub sponsor_recorded : ℕ → ℕ → State → ℕ
  unfolding weight
  sponsor_recorded m t st = total (weight (sponsor_amount m t)) st.reservations

  tally_state-counter :
      (c : Counter) (s : ReservationState) (now : ℕ) (r : Reservation) (u : ScopeUsage)
      {v : ScopeUsage}
      → r.state ≡ s
      → tally_state s now r u ≡ ok v
      → counter c v ≡ counter c u + amount c now r
  unfolding tally_state
  tally_state-counter c held now r u e h = grind (arith, add_checked_exact)
  tally_state-counter c exposed now r u e h = grind (arith, add_checked_exact)
  tally_state-counter reserved committed now r u e h = grind (arith, add_checked_exact)
  tally_state-counter hour_spent committed now r u e h = grind (arith, add_checked_exact)
  tally_state-counter day_spent committed now r u e h = grind (arith, add_checked_exact)
  tally_state-counter all_spent committed now r u e h = grind (arith, add_checked_exact)
  tally_state-counter c released now r u e h = grind arith
  tally_state-counter c (other b) now r u e h = ground arith

  add_if-open :
      (b : Bool) (target value : ℕ) {n : ℕ}
      → add_if b target value ≡ ok n
      → n ≡ target + (if b then value else 0)
  unfolding add_if
  add_if-open true target value {n} h = ground (arith, add_checked_exact target value {c = n})
  add_if-open false target value h = ground arith

  weight-decode :
      (f : Reservation → ℕ) (key value : Bytes) (r : Reservation)
      → decode_reservation value ≡ some r
      → weight f key value ≡ f r
  unfolding weight
  weight-decode f key value r e = rw (e, weight)

  pub check_row-weight :
      (l : Ledger) (attempts : Entries) (key value : Bytes) (f : Reservation → ℕ) {r : Reservation}
      → check_row l attempts key value ≡ ok r
      → weight f key value ≡ f r
  unfolding check_row
  check_row-weight l attempts key value f {r} h = weight-decode f key value r (ground arith)

  with_usage-counter :
      (sc : Scope) (c : Counter) (now : ℕ) (r : Reservation) (u : AggregateUsage) (g k : ScopeUsage)
      (s : ℕ)
      → counter c g ≡ counter c u.global + amount c now r
      → counter c k ≡ counter c (u.networks r.request.network) + amount c now r
      → counter c (usage_of sc (with_usage r.request.network r.request.sponsor g k s u))
        ≡ counter c (usage_of sc u) + amount_in sc c now r
  with_usage-counter everything c now r u g k s eg ek = eg
  with_usage-counter (only m) c now r u g k s eg ek = elim (Bool-cases (m == r.request.network)) [
    | inl e ↦ rw (e, (==_iff m r.request.network).0 e) ek
    | inr e ↦ rw e (omega arith)
  ]

  with_usage-sponsor :
      (m t : ℕ) (r : Reservation) (u : AggregateUsage) (g k : ScopeUsage) (s : ℕ)
      → s
        ≡ u.sponsors r.request.network r.request.sponsor
          + (if is_open r.state then r.maximum else 0)
      → (with_usage r.request.network r.request.sponsor g k s u).sponsors m t
        ≡ u.sponsors m t + sponsor_amount m t r
  with_usage-sponsor m t r u g k s e = ground arith

  tally-counter :
      (sc : Scope) (c : Counter) (now : ℕ) (r : Reservation) (u : AggregateUsage)
      {v : AggregateUsage}
      → tally now r u ≡ ok v
      → counter c (usage_of sc v) ≡ counter c (usage_of sc u) + amount_in sc c now r
  unfolding tally
  tally-counter sc c now r u h =
      let n = r.request.network in
      let (g, eg, h1) = >>=-eq-ok (tally_state r.state now r u.global) _ h in
      let (k, ek, h2) = >>=-eq-ok (tally_state r.state now r (u.networks n)) _ h1 in
      let (s, es, h3) =
        >>=-eq-ok (add_if (is_open r.state) (u.sponsors n r.request.sponsor) r.maximum) _ h2 in
      rw (← ok_injective h3) (
        with_usage-counter sc c now r u g k s (tally_state-counter c r.state now r u.global refl eg)
          (tally_state-counter c r.state now r (u.networks n) refl ek))

  tally-sponsor :
      (m t now : ℕ) (r : Reservation) (u : AggregateUsage) {v : AggregateUsage}
      → tally now r u ≡ ok v
      → v.sponsors m t ≡ u.sponsors m t + sponsor_amount m t r
  unfolding tally
  tally-sponsor m t now r u h =
      let n = r.request.network in
      let (g, eg, h1) = >>=-eq-ok (tally_state r.state now r u.global) _ h in
      let (k, ek, h2) = >>=-eq-ok (tally_state r.state now r (u.networks n)) _ h1 in
      let (s, es, h3) =
        >>=-eq-ok (add_if (is_open r.state) (u.sponsors n r.request.sponsor) r.maximum) _ h2 in
      rw (← ok_injective h3) (
        with_usage-sponsor m t r u g k s
          (add_if-open (is_open r.state) (u.sponsors n r.request.sponsor) r.maximum es))

  pub collect_rows-counter :
      (l : Ledger) (attempts : Entries) (sc : Scope) (c : Counter) (now : ℕ) (rows : Entries)
      (u : AggregateUsage) {v : AggregateUsage}
      → collect_rows l attempts now rows u ≡ ok v
      → counter c (usage_of sc v)
        ≡ counter c (usage_of sc u) + total (weight (amount_in sc c now)) rows
  unfolding collect_rows
  collect_rows-counter l attempts sc c now [] u h = rw (← ok_injective h) (omega arith)
  collect_rows-counter l attempts sc c now ((key, value) ∷ rows) u h =
      let (r, er, h1) = >>=-eq-ok (check_row l attempts key value) _ h in
      let (w, ew, h2) = >>=-eq-ok (tally now r u) _ h1 in
      omega (
        arith,
        collect_rows-counter l attempts sc c now rows w h2,
        tally-counter sc c now r u ew,
        check_row-weight l attempts key value (amount_in sc c now) er,
      )

  pub collect_rows-sponsor :
      (l : Ledger) (attempts : Entries) (m t now : ℕ) (rows : Entries) (u : AggregateUsage)
      {v : AggregateUsage}
      → collect_rows l attempts now rows u ≡ ok v
      → v.sponsors m t ≡ u.sponsors m t + total (weight (sponsor_amount m t)) rows
  unfolding collect_rows
  collect_rows-sponsor l attempts m t now [] u h = rw (← ok_injective h) (omega arith)
  collect_rows-sponsor l attempts m t now ((key, value) ∷ rows) u h =
      let (r, er, h1) = >>=-eq-ok (check_row l attempts key value) _ h in
      let (w, ew, h2) = >>=-eq-ok (tally now r u) _ h1 in
      omega (
        arith,
        collect_rows-sponsor l attempts m t now rows w h2,
        tally-sponsor m t now r u ew,
        check_row-weight l attempts key value (sponsor_amount m t) er,
      )
