-- ===== src/Budget/State/Times.antt =====
-- The clock of the ledger: the time of an operation never runs behind the last one stored.
use guard_daemon.Prelude.{
  ℕ, ◌≤◌, ◌≡◌, refl, true, false, Option, none, some, ◌⊎◌, inl, inr, arith, [], Bytes, insert,
  lookup-insert_self, ltb, Bool-cases, Option-cases,
}
use guard_daemon.Instant.{IsInstant, IsStamp}
use guard_daemon.Prelude.{Fallible}
use guard_daemon.External.{External}
use guard_daemon.Budget.Types.{ok, >>=-eq-ok, ok_injective, or_else, or_else-eq-ok, is_err, corrupt}
use guard_daemon.Budget.Codec.{append_time, read_time, decode_stored_time, valid_persistent_time}
use guard_daemon.Budget.Codec.RoundTrip.{decode_stored_time-append_time}
use guard_daemon.Budget.State.{State, last_seen, last_seen_key, effective_now, observed_now}

-- A time that the code accepts as persistent.
pub record IsPersistent (t : ℕ) : Type 0 where
  pub valid : valid_persistent_time t ≡ true
  pub stamp : IsStamp t

read_time-IsInstant : (bs rest : Bytes) (t : ℕ) → read_time bs ≡ some (t, rest) → IsInstant t
unfolding read_time
read_time-IsInstant bs rest t h = ground arith

valid-IsStamp : (t : ℕ) → valid_persistent_time t ≡ true → IsInstant t → IsStamp t
unfolding valid_persistent_time
valid-IsStamp t v h = ground arith

pub valid-IsPersistent : (t : ℕ) → valid_persistent_time t ≡ true → IsInstant t → IsPersistent t
valid-IsPersistent t v h = record { valid = v; stamp = valid-IsStamp t v h }

pub decode_stored_time-IsPersistent :
    (b : Option Bytes) {t : ℕ} → decode_stored_time b ≡ ok t → IsPersistent t
unfolding decode_stored_time
decode_stored_time-IsPersistent none h = cc
decode_stored_time-IsPersistent (some bs) {t} h = elim (Option-cases (read_time bs)) [
  | inl e ↦ absurd (ground (arith, e))
  | inr ((s, rest), e) ↦
      valid-IsPersistent t (ground (arith, e)) (read_time-IsInstant bs rest t (ground (arith, e)))
]

module _ ⦃x : External⦄ where
  pub last_seen-IsPersistent : (st : State) {t : ℕ} → last_seen st ≡ ok t → IsPersistent t
  unfolding last_seen
  last_seen-IsPersistent st h = decode_stored_time-IsPersistent (x.get last_seen_key st.meta) h

  pub observed_now-eq-ok :
      (now : ℕ) {t : ℕ} → observed_now now ≡ ok t → (t ≡ now) × (valid_persistent_time now ≡ true)
  unfolding observed_now
  observed_now-eq-ok now h = ground arith

  pub observed_now-valid :
      (now : ℕ) → is_err (observed_now now) ≡ false → valid_persistent_time now ≡ true
  unfolding observed_now
  observed_now-valid now h = ground arith

  last_seen-put :
      (st : State) (t : ℕ)
      → IsPersistent t
      → last_seen (record st { meta = x.put last_seen_key (append_time [] t) st.meta }) ≡ ok t
  unfolding last_seen
  last_seen-put st t p =
      rw
        (
          x.put_lem last_seen_key (append_time [] t) st.meta,
          x.get_lem last_seen_key (insert last_seen_key (append_time [] t) st.meta),
          lookup-insert_self last_seen_key (append_time [] t) st.meta,
        )
        (decode_stored_time-append_time t p.stamp.0 p.valid)

  -- The time that an operation works with is the later of the clock and the last one stored, it
  -- is what the next operation finds stored, and nothing else changes.
  pub record Advance (observed : ℕ) (st : State) (p : ℕ × State) : Type 0 where
    pub seen : ℕ
    pub stored : last_seen st ≡ ok seen
    pub after_seen : seen ≤ p.0
    pub after_observed : observed ≤ p.0
    pub is_either : (p.0 ≡ seen) ⊎ (p.0 ≡ observed)
    pub stores : last_seen (p.1) ≡ ok (p.0)
    pub persistent : IsPersistent (p.0)
    pub is_closed : (p.1).is_closed ≡ st.is_closed
    pub reservations : (p.1).reservations ≡ st.reservations
    pub attempts : (p.1).attempts ≡ st.attempts

  pub effective_now-Advance :
      (observed : ℕ) (st : State) {p : ℕ × State}
      → IsPersistent observed
      → effective_now observed st ≡ ok p
      → Advance observed st p
  unfolding effective_now
  effective_now-Advance observed st {p} v h =
      let (seen, e, h1) = >>=-eq-ok (or_else (last_seen st) corrupt) _ h in
      let found = or_else-eq-ok (last_seen st) corrupt e in
      elim (Bool-cases (ltb seen observed)) [
        | inl later ↦
            let e' : Fallible.ok (
              observed,
              record st { meta = x.put last_seen_key (append_time [] observed) st.meta },
            )
                ≡ ok p =
              rw later at h1 in
            rw (← ok_injective e') (record {
              seen = seen;
              stored = found;
              after_seen = ground arith;
              after_observed = omega arith;
              is_either = inr refl;
              stores = last_seen-put st observed v;
              persistent = v;
              is_closed = refl;
              reservations = refl;
              attempts = refl;
            })
        | inr early ↦
            let e' : Fallible.ok (seen, st) ≡ ok p = rw early at h1 in
            rw (← ok_injective e') (record {
              seen = seen;
              stored = found;
              after_seen = omega arith;
              after_observed = ground arith;
              is_either = inl refl;
              stores = found;
              persistent = last_seen-IsPersistent st found;
              is_closed = refl;
              reservations = refl;
              attempts = refl;
            })
      ]
