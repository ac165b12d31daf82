-- ===== src/Budget/Usage/Collected.antt =====
-- A file that `collect_usage` accepts: its sums, its limits and its two buckets' agreement.
use guard_daemon.Prelude.{
  ℕ, ◌≤◌, ◌<◌, ◌≡◌, refl, ◌⊎◌, inl, inr, true, false, not, some, List, [], ◌∷◌, arith, length, ltb,
  ◌==◌,
}
use guard_daemon.External.{External}
use guard_daemon.Budget.Types.{ok, >>=-eq-ok, fail_if-eq-ok, ok_injective, NetworkPolicy, Limits}
use guard_daemon.Budget.Cost.{scope_within_limits}
use guard_daemon.Budget.Cost.Scope.{LimitsFit, WithinLimits, UsageWithin, scope_within_limits_exact}
use guard_daemon.Budget.State.{Ledger, State, find_network}
use guard_daemon.Budget.Usage.{
  AggregateUsage, empty_usage, collect_rows, check_attempts, networks_within, collect_usage,
}
use guard_daemon.Budget.Usage.Sums.{
  Counter, reserved, hour_spent, day_spent, all_spent, counter, Scope, everything, only, usage_of,
  recorded, sponsor_recorded, collect_rows-counter, collect_rows-sponsor,
}
use guard_daemon.Budget.Usage.Overruns.{overruns, collect_rows-overruns}

-- Every limit of the ledger is a `uint256`.
pub record LedgerFits (l : Ledger) : Type 0 where
  pub global : LimitsFit l.policy.global
  pub networks :
      (id : ℕ) (n : NetworkPolicy) → find_network id l.networks ≡ some n → LimitsFit n.limits

module _ ⦃x : External⦄ where
  -- What `collect_usage` has checked when it succeeds.
  pub record Collected (l : Ledger) (now : ℕ) (st : State) (u : AggregateUsage) : Type 0 where
    pub rows : collect_rows l st.attempts now st.reservations empty_usage ≡ ok u
    pub index : check_attempts st.reservations st.attempts ≡ ok tt
    pub counts : length st.attempts ≡ length st.reservations
    pub room : length st.reservations ≤ l.max_records
    pub global_within : scope_within_limits l.policy.global u.global ≡ true
    pub within : networks_within l.networks u ≡ true

  pub collect_usage-Collected :
      (l : Ledger) (now : ℕ) (st : State) {u : AggregateUsage}
      → collect_usage l now st ≡ ok u
      → Collected l now st u
  unfolding collect_usage
  collect_usage-Collected l now st h =
      let (v, rows, h1) =
        >>=-eq-ok (collect_rows l st.attempts now st.reservations empty_usage) _ h in
      let (_, index, h2) = >>=-eq-ok (check_attempts st.reservations st.attempts) _ h1 in
      let (counts, h3) =
        fail_if-eq-ok (not (length st.attempts == length st.reservations)) _ _ h2 in
      let (room, h4) = fail_if-eq-ok (ltb l.max_records (length st.reservations)) _ _ h3 in
      let (global, h5) =
        fail_if-eq-ok (not (scope_within_limits l.policy.global v.global)) _ _ h4 in
      let (networks, h6) = fail_if-eq-ok (not (networks_within l.networks v)) _ _ h5 in
      collected v rows index counts room global networks (ok_injective h6)
    where
      collected :
          {w : AggregateUsage} (v : AggregateUsage)
          → collect_rows l st.attempts now st.reservations empty_usage ≡ ok v
          → check_attempts st.reservations st.attempts ≡ ok tt
          → not (length st.attempts == length st.reservations) ≡ false
          → ltb l.max_records (length st.reservations) ≡ false
          → not (scope_within_limits l.policy.global v.global) ≡ false
          → not (networks_within l.networks v) ≡ false
          → v ≡ w
          → Collected l now st w
      collected v rows index counts room global networks e = rw (← e) (record {
        rows = rows;
        index = index;
        counts = ground arith;
        room = ground arith;
        global_within = ground arith;
        within = ground arith;
      })

  empty_counter : (sc : Scope) (c : Counter) → counter c (usage_of sc empty_usage) ≡ 0
  empty_counter everything reserved = refl
  empty_counter everything hour_spent = refl
  empty_counter everything day_spent = refl
  empty_counter everything all_spent = refl
  empty_counter (only m) reserved = refl
  empty_counter (only m) hour_spent = refl
  empty_counter (only m) day_spent = refl
  empty_counter (only m) all_spent = refl

  pub collect_usage-counter :
      (l : Ledger) (now : ℕ) (st : State) (sc : Scope) (c : Counter) {u : AggregateUsage}
      → collect_usage l now st ≡ ok u
      → counter c (usage_of sc u) ≡ recorded sc c now st
  unfolding recorded
  collect_usage-counter l now st sc c h = omega (
    arith,
    collect_rows-counter l st.attempts sc c now st.reservations empty_usage
        (collect_usage-Collected l now st h).rows,
    empty_counter sc c,
  )

  pub collect_usage-sponsor :
      (l : Ledger) (now : ℕ) (st : State) (m t : ℕ) {u : AggregateUsage}
      → collect_usage l now st ≡ ok u
      → u.sponsors m t ≡ sponsor_recorded m t st
  unfolding sponsor_recorded
  collect_usage-sponsor l now st m t h = omega (
    arith,
    collect_rows-sponsor l st.attempts m t now st.reservations empty_usage
        (collect_usage-Collected l now st h).rows,
  )

  empty_flag : (sc : Scope) → (usage_of sc empty_usage).fee_overrun ≡ false
  empty_flag everything = refl
  empty_flag (only m) = refl

  -- The flag of a scope tells whether an overrun of it is on record.
  pub collect_usage-overruns :
      (l : Ledger) (now : ℕ) (st : State) (sc : Scope) {u : AggregateUsage}
      → collect_usage l now st ≡ ok u
      → (usage_of sc u).fee_overrun ≡ ltb 0 (overruns sc st)
  unfolding overruns
  collect_usage-overruns l now st sc {u} h =
      let flag =
        collect_rows-overruns l st.attempts sc now st.reservations empty_usage {v = u}
          (collect_usage-Collected l now st h).rows in
      rw (empty_flag sc) at flag

  -- What a successful `collectUsage` returns is what the decoded records add up to: the four sums of
  -- every scope, what is open for every sponsor on every network, and for every scope whether it has
  -- a record charged above what was set aside.
  pub collect_usage-sums :
      (l : Ledger) (now : ℕ) (st : State) {u : AggregateUsage}
      → collect_usage l now st ≡ ok u
      → ((sc : Scope) (c : Counter) → counter c (usage_of sc u) ≡ recorded sc c now st)
        × ((m t : ℕ) → u.sponsors m t ≡ sponsor_recorded m t st)
        × ((sc : Scope) → (usage_of sc u).fee_overrun ≡ ltb 0 (overruns sc st))
  collect_usage-sums l now st h = (
    λ sc c. collect_usage-counter l now st sc c h,
    λ m t. collect_usage-sponsor l now st m t h,
    λ sc. collect_usage-overruns l now st sc h,
  )

  -- The recorded sums of a scope within limits.
  abbrev pub RecordedWithin : Limits → Scope → ℕ → State → Type 0
  RecordedWithin limits sc now st =
      WithinLimits limits (recorded sc reserved now st) (recorded sc hour_spent now st)
        (recorded sc day_spent now st) (recorded sc all_spent now st)

  networks_within-find :
      (ns : List NetworkPolicy) (u : AggregateUsage) (id : ℕ) {n : NetworkPolicy}
      → networks_within ns u ≡ true
      → find_network id ns ≡ some n
      → scope_within_limits n.limits (u.networks id) ≡ true
  unfolding networks_within find_network
  networks_within-find [] u id {n} h e = ground arith
  networks_within-find (m ∷ ns) u id {n} h e = ground (arith, networks_within-find ns u id {n = n})

  usage-RecordedWithin :
      (l : Ledger) (now : ℕ) (st : State) (sc : Scope) (limits : Limits) {u : AggregateUsage}
      → collect_usage l now st ≡ ok u
      → UsageWithin limits (usage_of sc u)
      → RecordedWithin limits sc now st
  usage-RecordedWithin l now st sc limits h w = omega (
    arith,
    collect_usage-counter l now st sc reserved h,
    collect_usage-counter l now st sc hour_spent h,
    collect_usage-counter l now st sc day_spent h,
    collect_usage-counter l now st sc all_spent h,
  )

  -- A file that `collectUsage` accepts keeps within the global limits, where those of the ledger fit
  -- 256 bits, unless the file has a record
  -- charged above what was set aside for it.
  pub collect_usage-global :
      (l : Ledger) (now : ℕ) (st : State) {u : AggregateUsage}
      → LedgerFits l
      → collect_usage l now st ≡ ok u
      → (0 < overruns everything st) ⊎ RecordedWithin l.policy.global everything now st
  collect_usage-global l now st {u} f h =
      elim ((scope_within_limits_exact l.policy.global u.global f.global).0
        (collect_usage-Collected l now st h).global_within) [
          | inl o ↦ inl (ground (arith, o, collect_usage-overruns l now st everything h))
          | inr w ↦ inr (usage-RecordedWithin l now st everything l.policy.global h w)
        ]

  -- A file that `collectUsage` accepts keeps within the limits of a network of the ledger, where the
  -- ledger's limits fit 256 bits, unless the file has a record of that
  -- network charged above what was set aside for it.
  pub collect_usage-network :
      (l : Ledger) (now id : ℕ) (st : State) {u : AggregateUsage} {n : NetworkPolicy}
      → LedgerFits l
      → find_network id l.networks ≡ some n
      → collect_usage l now st ≡ ok u
      → (0 < overruns (only id) st) ⊎ RecordedWithin n.limits (only id) now st
  collect_usage-network l now id st {u} {n} f e h =
      let within =
        networks_within-find l.networks u id (collect_usage-Collected l now st h).within e in
      elim ((scope_within_limits_exact n.limits (u.networks id) (f.networks id n e)).0 within) [
        | inl o ↦ inl (ground (arith, o, collect_usage-overruns l now st (only id) h))
        | inr w ↦ inr (usage-RecordedWithin l now st (only id) n.limits h w)
      ]
