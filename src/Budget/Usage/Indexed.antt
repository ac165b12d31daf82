-- ===== src/Budget/Usage/Indexed.antt =====
-- The index of attempts of a file that `collectUsage` accepts points at its reservations.
use guard_daemon.Prelude.{
  ℕ, ◌≡◌, ap, ◌∙◌, sym, true, some, [], ◌∷◌, arith, Bytes, Entries, Option, lookup, bytes_eq→eq,
}
use guard_daemon.Prelude.Rows.{AllRows, AllRows-lookup}
use guard_daemon.External.{External}
use guard_daemon.Budget.Types.{ok, >>=-eq-ok, Reservation}
use guard_daemon.Budget.Codec.{decode_reservation, id_key, attempt_key}
use guard_daemon.Budget.State.{Ledger, State}
use guard_daemon.Budget.Usage.{
  AggregateUsage, value_is, check_row, tally, collect_rows, collect_usage,
}
use guard_daemon.Budget.Usage.Collected.{collect_usage-Collected}

value_is-eq : (o : Option Bytes) (v bs : Bytes) → o ≡ some v → value_is o bs ≡ true → o ≡ some bs
value_is-eq o v bs e h =
    let same : v ≡ bs = bytes_eq→eq v bs (rw e at h) in e ∙ ap (λ (v : Bytes). some v) same

module _ ⦃x : External⦄ where
  IsChecked : Ledger → Entries → Bytes → Bytes → Type 0
  IsChecked l attempts key value = (r : Reservation) × (check_row l attempts key value ≡ ok r)

  collect_rows-IsChecked :
      (l : Ledger) (attempts : Entries) (now : ℕ) (rows : Entries) (u : AggregateUsage)
      {v : AggregateUsage}
      → collect_rows l attempts now rows u ≡ ok v
      → AllRows (IsChecked l attempts) rows
  unfolding collect_rows IsChecked
  collect_rows-IsChecked l attempts now [] u h = tt
  collect_rows-IsChecked l attempts now ((key, value) ∷ rows) u h =
      let (r, er, h1) = >>=-eq-ok (check_row l attempts key value) _ h in
      let (w, ew, h2) = >>=-eq-ok (tally now r u) _ h1 in
      ((r, er), collect_rows-IsChecked l attempts now rows w h2)

  check_row-index :
      (l : Ledger) (attempts : Entries) (key value : Bytes) {r : Reservation}
      → check_row l attempts key value ≡ ok r
      → (decode_reservation value ≡ some r)
        × (value_is (x.get (attempt_key r.request.attempt) attempts) (id_key r.id) ≡ true)
  unfolding check_row
  check_row-index l attempts key value {r} h = ground arith

  -- A reservation of an accepted file whose attempt has an entry is what that entry points at.
  pub collect_usage-index :
      (l : Ledger) (now : ℕ) (st : State) (r : Reservation) (key row entry : Bytes)
      {u : AggregateUsage}
      → collect_usage l now st ≡ ok u
      → lookup key st.reservations ≡ some row
      → decode_reservation row ≡ some r
      → x.get (attempt_key r.request.attempt) st.attempts ≡ some entry
      → lookup (attempt_key r.request.attempt) st.attempts ≡ some (id_key r.id)
  unfolding IsChecked
  collect_usage-index l now st r key row entry h found decoded e =
      let checked =
        collect_rows-IsChecked l st.attempts now st.reservations _
          (collect_usage-Collected l now st h).rows in
      let (s, c) = AllRows-lookup (IsChecked l st.attempts) key st.reservations checked found in
      let (decodes, index) = check_row-index l st.attempts key row c in
      let same : s ≡ r = cc in
      let points : value_is (x.get (attempt_key r.request.attempt) st.attempts) (id_key r.id)
          ≡ true =
        rw same at index in
      sym (x.get_lem (attempt_key r.request.attempt) st.attempts)
      ∙ value_is-eq (x.get (attempt_key r.request.attempt) st.attempts) entry (id_key r.id) e points
