-- ===== src/Budget/Usage/Overruns.antt =====
-- The overruns that `collectUsage` notes, described by a count over the decoded records.
use guard_daemon.Prelude.{
  ℕ, ◌+◌, ◌≡◌, refl, Bool, true, false, ◌&&◌, ◌||◌, inl, inr, [], ◌∷◌, arith, Entries, total, ltb,
  ◌==◌, if◌then◌else◌, Bool-cases, ==_iff,
}
use guard_daemon.External.{External}
use guard_daemon.Budget.Types.{
  ok, >>=-eq-ok, ok_injective, ReservationState, held, exposed, committed, released, other,
  Reservation,
}
use guard_daemon.Budget.Cost.{ScopeUsage}
use guard_daemon.Budget.State.{Ledger, State}
use guard_daemon.Budget.Usage.{
  AggregateUsage, with_usage, add_if, tally_state, tally, is_open, check_row, collect_rows,
}
use guard_daemon.Budget.Usage.Sums.{
  Scope, everything, only, in_scope, usage_of, weight, check_row-weight,
}

-- A charge above what was set aside for it.
abbrev pub overran : Reservation → Bool
overran r = elim r.state [ committed ↦ ltb r.maximum r.actual | _ ↦ false ]

-- One for a reservation of the scope that overran.
abbrev pub overrun_in : Scope → Reservation → ℕ
overrun_in sc r = if in_scope sc r && overran r then 1 else 0

module _ ⦃x : External⦄ where
  -- How many records of a scope have a charge above what was set aside.
  unfoldable pub overruns : Scope → State → ℕ
  unfolding weight
  overruns sc st = total (weight (overrun_in sc)) st.reservations

  tally_state-overran :
      (s : ReservationState) (now : ℕ) (r : Reservation) (u : ScopeUsage) {v : ScopeUsage}
      → r.state ≡ s
      → tally_state s now r u ≡ ok v
      → v.fee_overrun ≡ (u.fee_overrun || overran r)
  unfolding tally_state
  tally_state-overran held now r u e h = ground arith
  tally_state-overran exposed now r u e h = ground arith
  tally_state-overran committed now r u e h = ground arith
  tally_state-overran released now r u e h = ground arith
  tally_state-overran (other b) now r u e h = ground arith

  with_usage-overran :
      (sc : Scope) (r : Reservation) (u : AggregateUsage) (g k : ScopeUsage) (s : ℕ)
      → g.fee_overrun ≡ (u.global.fee_overrun || overran r)
      → k.fee_overrun ≡ ((u.networks r.request.network).fee_overrun || overran r)
      → (usage_of sc (with_usage r.request.network r.request.sponsor g k s u)).fee_overrun
        ≡ ((usage_of sc u).fee_overrun || (in_scope sc r && overran r))
  with_usage-overran everything r u g k s eg ek = eg
  with_usage-overran (only m) r u g k s eg ek = elim (Bool-cases (m == r.request.network)) [
    | inl e ↦ rw (e, (==_iff m r.request.network).0 e) ek
    | inr e ↦ rw e (ground arith)
  ]

  tally-overran :
      (sc : Scope) (now : ℕ) (r : Reservation) (u : AggregateUsage) {v : AggregateUsage}
      → tally now r u ≡ ok v
      → (usage_of sc v).fee_overrun ≡ ((usage_of sc u).fee_overrun || (in_scope sc r && overran r))
  unfolding tally
  tally-overran sc now r u h =
      let n = r.request.network in
      let (g, eg, h1) = >>=-eq-ok (tally_state r.state now r u.global) _ h in
      let (k, ek, h2) = >>=-eq-ok (tally_state r.state now r (u.networks n)) _ h1 in
      let (s, es, h3) =
        >>=-eq-ok (add_if (is_open r.state) (u.sponsors n r.request.sponsor) r.maximum) _ h2 in
      rw (← ok_injective h3) (
        with_usage-overran sc r u g k s (tally_state-overran r.state now r u.global refl eg)
          (tally_state-overran r.state now r (u.networks n) refl ek))

  -- The flag of a scope after the loop: it was set before, or one of the rows is an overrun.
  pub collect_rows-overruns :
      (l : Ledger) (attempts : Entries) (sc : Scope) (now : ℕ) (rows : Entries) (u : AggregateUsage)
      {v : AggregateUsage}
      → collect_rows l attempts now rows u ≡ ok v
      → (usage_of sc v).fee_overrun
        ≡ ((usage_of sc u).fee_overrun || ltb 0 (total (weight (overrun_in sc)) rows))
  unfolding collect_rows
  collect_rows-overruns l attempts sc now [] u h = rw (← ok_injective h) (ground arith)
  collect_rows-overruns l attempts sc now ((key, value) ∷ rows) u {v} h =
      let (r, er, h1) = >>=-eq-ok (check_row l attempts key value) _ h in
      let (w, ew, h2) = >>=-eq-ok (tally now r u) _ h1 in
      rw
        (
          collect_rows-overruns l attempts sc now rows w {v = v} h2,
          tally-overran sc now r u ew,
          check_row-weight l attempts key value (overrun_in sc) er,
        )
        (or_ltb (usage_of sc u).fee_overrun (in_scope sc r && overran r)
          (total (weight (overrun_in sc)) rows))
    where
      or_ltb :
          (a b : Bool) (n : ℕ) → ((a || b) || ltb 0 n) ≡ (a || ltb 0 ((if b then 1 else 0) + n))
      or_ltb true b n = refl
      or_ltb false true n = ground arith
      or_ltb false false n = ground arith
