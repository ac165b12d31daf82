-- ===== src/Budget/Operations/Sums.antt =====
-- What `MarkExposed`, `CommitFinalized` and `ReleaseProvenUnused` do to the sums of a scope.
use guard_daemon.Prelude.{
  ℕ, ◌+◌, ◌^◌, ◌≤◌, ◌<◌, ◌≡◌, refl, sym, ◌∙◌, false, some, arith, Bytes, AllValues,
  AllValues-insert, AllValues-lookup, total-insert, inl, inr,
}
use mathlib.Core.Path.{subst}
use mathlib.Core.Option.{some-injective}
use guard_daemon.Instant.{IsInstant}
use guard_daemon.External.{External}
use guard_daemon.Budget.Types.{Result, ok, FinalizedCharge, Reservation, ReservationFits}
use guard_daemon.Budget.Codec.{decode_reservation, id_key}
use guard_daemon.Budget.Codec.RoundTrip.{decode_reservation-encode_reservation}
use guard_daemon.Budget.State.{Ledger, State, Context, network_of}
use guard_daemon.Budget.State.Times.{IsPersistent}
use guard_daemon.Budget.Usage.Sums.{
  Counter, reserved, all_spent, Scope, everything, only, amount_in, weight, recorded,
}
use guard_daemon.Budget.Operations.{mark_exposed, commit_finalized, release_proven_unused}
use guard_daemon.Budget.Operations.Lifecycle.{Step, stay, exposes, commits, releases, Step-keeps}
use guard_daemon.Budget.Operations.Moves.{
  IsRecord, FileFits, Stepped, mark_exposed-Stepped, commit_finalized-Stepped,
  release_proven_unused-Stepped,
}

-- The methods that settle the fate of a reservation.
pub data Call : Type 0 where
  marks : (id tx_hash : ℕ) → Call
  finalizes : FinalizedCharge → Call
  frees : (id : ℕ) → Call

-- Its numbers are 32-byte words.
abbrev pub CallFits : Call → Type 0
CallFits (marks id tx_hash) = tx_hash < 2 ^ 256
CallFits (finalizes c) = (c.tx_hash < 2 ^ 256) × (c.actual < 2 ^ 256)
CallFits (frees id) = Unit

abbrev pub target : Call → ℕ
target (marks id tx_hash) = id
target (finalizes c) = c.reservation_id
target (frees id) = id

-- What a reservation holds of the cumulative limit of a scope.
abbrev commitment : Scope → ℕ → Reservation → ℕ
commitment sc now r = amount_in sc reserved now r + amount_in sc all_spent now r

-- A step that may not overrun leaves at most as much committed.
Step-commitment :
    (l : Ledger) (now at : ℕ) (sc : Scope) {r r' : Reservation}
    → (network_of l r.request.network).allow_fee_overrun ≡ false
    → Step l now r r'
    → commitment sc at r' ≤ commitment sc at r
Step-commitment l now at sc f stay = omega arith
Step-commitment l now at everything f (exposes h e) = ground (arith, e)
Step-commitment l now at (only m) f (exposes h e) = ground (arith, e)
Step-commitment l now at everything f (commits a e b) = ground (arith, e)
Step-commitment l now at (only m) f (commits a e b) = ground (arith, e)
Step-commitment l now at everything f (releases e) = ground (arith, e)
Step-commitment l now at (only m) f (releases e) = ground (arith, e)

Step-fits :
    (l : Ledger) (now : ℕ) {r r' : Reservation}
    → IsPersistent now
    → ReservationFits r
    → (r'.tx_hash < 2 ^ 256)
    → (r'.actual < 2 ^ 256)
    → Step l now r r'
    → ReservationFits r'
Step-fits l now p f t a stay = f
Step-fits l now p f t a (exposes h e) = record {
  id = f.id;
  request = f.request;
  maximum = f.maximum;
  state = (omega arith, refl);
  tx_hash = t;
  actual = f.actual;
  created_at = f.created_at;
  exposed_at = p.stamp;
  updated_at = p.stamp;
}
Step-fits l now p f t a (commits c e b) = record {
  id = f.id;
  request = f.request;
  maximum = f.maximum;
  state = (omega arith, refl);
  tx_hash = f.tx_hash;
  actual = a;
  created_at = f.created_at;
  exposed_at = f.exposed_at;
  updated_at = p.stamp;
}
Step-fits l now p f t a (releases e) = record {
  id = f.id;
  request = f.request;
  maximum = f.maximum;
  state = (omega arith, refl);
  tx_hash = f.tx_hash;
  actual = f.actual;
  created_at = f.created_at;
  exposed_at = f.exposed_at;
  updated_at = p.stamp;
}

module _ ⦃x : External⦄ where
  unfoldable pub perform : Ledger → Context → ℕ → Call → State → Result (Reservation × State)
  perform l ctx now (marks id tx_hash) st = mark_exposed l ctx now id tx_hash st
  perform l ctx now (finalizes c) st = commit_finalized l ctx now c st
  perform l ctx now (frees id) st = release_proven_unused l ctx now id st

  weight-decoded :
      (f : Reservation → ℕ) (key bytes : Bytes) (r : Reservation)
      → decode_reservation bytes ≡ some r
      → weight f key bytes ≡ f r
  unfolding weight
  weight-decoded f key bytes r e = rw (e, weight)

  -- What a step has done to the file.
  record Settled (l : Ledger) (st : State) (id : ℕ) (r : Reservation) (st' : State) : Type 0 where
    fits : FileFits st'
    sums :
        (sc : Scope) (at : ℕ)
        → recorded sc reserved at st' + recorded sc all_spent at st'
          ≤ recorded sc reserved at st + recorded sc all_spent at st

  Stepped-Settled :
      (l : Ledger) (id now : ℕ) (st : State) {r : Reservation} {st' : State}
      → FileFits st
      → (s : Stepped l id now st r st') → r.tx_hash < 2 ^ 256
      → r.actual < 2 ^ 256
      → (network_of l r.request.network).allow_fee_overrun ≡ false
      → Settled l st id r st'
  unfolding recorded
  Stepped-Settled l id now st {r} {st'} f s t a n =
      let kept = Step-keeps l now s.step in
      let old =
        AllValues-lookup IsRecord (id_key id) st.reservations f s.stored s.before s.decoded in
      let new = Step-fits l now s.persistent old t a s.step in
      elim s.rows [
        | inl (same, rows) ↦ rw rows (record { fits = f; sums = λ sc at. omega arith })
        | inr (bytes, e, rows) ↦
            let back = decode_reservation-encode_reservation r new e in
            record {
              fits = subst (AllValues IsRecord) (sym rows) (
                  AllValues-insert IsRecord (id_key id) bytes st.reservations
                    (λ q d. subst ReservationFits (some-injective r q (sym back ∙ d)) new) f);
              sums = λ sc at.
                  let changes = λ (c : Counter).
                    total-insert (weight (amount_in sc c at)) (id_key id) bytes s.bytes
                      st.reservations s.stored in
                  rw rows (
                    omega (
                      arith,
                      changes reserved,
                      changes all_spent,
                      weight-decoded (amount_in sc reserved at) (id_key id) s.bytes s.before
                          s.decoded,
                      weight-decoded (amount_in sc all_spent at) (id_key id) s.bytes s.before
                          s.decoded,
                      weight-decoded (amount_in sc reserved at) (id_key id) bytes r back,
                      weight-decoded (amount_in sc all_spent at) (id_key id) bytes r back,
                      Step-commitment l now at sc (rw (← kept.1) n) s.step,
                    ));
            }
      ]

  -- From a file whose records are in range, a successful `MarkExposed`, `CommitFinalized` or
  -- `ReleaseProvenUnused`, with numbers in range and at an instant, where the reservation's network
  -- allows no overrun, leaves such a file, and no more reserved and spent in any scope.
  pub perform-sums :
      (l : Ledger) (ctx : Context) (now : ℕ) (c : Call) (st : State) {r : Reservation} {st' : State}
      → FileFits st
      → CallFits c
      → IsInstant now
      → perform l ctx now c st ≡ ok (r, st')
      → (network_of l r.request.network).allow_fee_overrun ≡ false
      → FileFits st'
        × ((sc : Scope) (at : ℕ)
            → recorded sc reserved at st' + recorded sc all_spent at st'
              ≤ recorded sc reserved at st + recorded sc all_spent at st)
  unfolding perform
  perform-sums l ctx now (marks id tx_hash) st {r} f c i h n =
      let (t, s, hash, actual) = mark_exposed-Stepped l ctx now id tx_hash st i h in
      let old =
        AllValues-lookup IsRecord (id_key id) st.reservations f s.stored s.before s.decoded in
      let done = Stepped-Settled l id t st f s (rw hash c) (rw actual old.actual) n in
      (done.fits, done.sums)
  perform-sums l ctx now (finalizes charge) st f c i h n =
      let (t, s, state, hash, actual) = commit_finalized-Stepped l ctx now charge st i h in
      let done = Stepped-Settled l charge.reservation_id t st f s (rw hash c.0) (rw actual c.1) n in
      (done.fits, done.sums)
  perform-sums l ctx now (frees id) st f c i h n =
      let (t, s, state, hash, actual) = release_proven_unused-Stepped l ctx now id st i h in
      let old =
        AllValues-lookup IsRecord (id_key id) st.reservations f s.stored s.before s.decoded in
      let done = Stepped-Settled l id t st f s (rw hash old.tx_hash) (rw actual old.actual) n in
      (done.fits, done.sums)
