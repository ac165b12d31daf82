-- ===== src/Store/Lease/Moves.antt =====
-- What the operations on leases do to the file of leases, whatever they return.
use guard_daemon.Prelude.{
  ℕ, ℤ, ◌<◌, ◌≡◌, refl, sym, ap, ◌∙◌, ◌⊎◌, inl, inr, Bool, true, not, ◌||◌, some, arith, Bytes,
  Entries, lookup, insert, erase, bytes_eq, bytes_eq→eq, bytes_eq_refl, ltb, ◌==◌, if◌then◌else◌,
  Bool-cases, Option-cases,
}
use guard_daemon.Prelude.{Fallible}
use guard_daemon.External.{External}
use guard_daemon.Budget.State.{Context}
use guard_daemon.Store.Types.{
  StoreError, Result, ok, err, ◌>>=◌, ◌>>◌, >>=-eq-ok, fail_if, fail_if-eq-ok, or_else,
  or_else-eq-ok, ok_injective, Fallible-cases, context_error, public_error, lease_held, lease_lost,
  corrupt, invalid_input, lease_loss_detected, is_corrupt,
}
use guard_daemon.Store.Lease.{
  LeaseKey, Lease, LeaseStore, key_eq, same_lease, lease_expiration, encode_lease_key, encode_lease,
  decode_lease, current_lease, owned, vacant, acquire_tx, acquire_entry, acquired, acquire,
  renew_tx, renewed, renew, lease_entry, validated, validate, release_tx, released, release,
  replace_lease_signal, close_lease_key_signals, close_lease_signal, close_signals, begin,
}

pub key_eq→eq : (a b : LeaseKey) → key_eq a b ≡ true → a ≡ b
key_eq→eq a b h =
    let network : a.network ≡ b.network = ground arith in
    let sponsor : a.sponsor ≡ b.sponsor = ground arith in
    λ i. record { network = network i; sponsor = sponsor i }

pub key_eq_refl : (a : LeaseKey) → key_eq a a ≡ true
key_eq_refl a = ground arith

pub same_lease→eq : (a b : Lease) → same_lease a b ≡ true → a ≡ b
unfolding same_lease
same_lease→eq a b h =
    let keys : key_eq a.key b.key ≡ true = ground arith in
    let owners : bytes_eq a.owner b.owner ≡ true = ground arith in
    let expiries : a.expires_at ≡ b.expires_at = ground arith in
    let key = key_eq→eq a.key b.key keys in
    let owner = bytes_eq→eq a.owner b.owner owners in
    λ i. record { key = key i; owner = owner i; expires_at = expiries i }

pub same_lease_refl : (a : Lease) → same_lease a a ≡ true
unfolding same_lease
same_lease_refl a = ground (arith, bytes_eq_refl a.owner)

-- The file records that the lease stands.
abbrev pub Records : Lease → LeaseStore → Type 0
Records l st =
    (bytes : Bytes) × (lookup (encode_lease_key l.key) st.leases ≡ some bytes)
    × (decode_lease bytes ≡ ok l)

module _ ⦃x : External⦄ where
  pub owned-eq-ok :
      (l : Lease) (now : ℕ) (st : LeaseStore)
      → owned l now st.leases ≡ ok tt
      → Records l st × (now < l.expires_at)
  unfolding owned current_lease
  owned-eq-ok l now st h = elim (Option-cases (lookup (encode_lease_key l.key) st.leases)) [
    | inl e ↦ absurd (ground (arith, x.get_lem (encode_lease_key l.key) st.leases, e))
    | inr (bytes, e) ↦
        let found : (current_lease l.key bytes >>= λ current.
        fail_if (not (same_lease current l) || not (ltb now current.expires_at)) lease_lost)
            ≡ ok tt =
          rw (owned, x.get_lem (encode_lease_key l.key) st.leases, e) at h in
        let (current, c, h1) = >>=-eq-ok (current_lease l.key bytes) _ found in
        let (decoded, d, h2) = >>=-eq-ok (or_else (decode_lease bytes) corrupt) _ c in
        let (_, h3) = fail_if-eq-ok (not (key_eq decoded.key l.key)) _ _ h2 in
        let same = same_lease→eq current l (ground arith) in
        (
          (
            bytes,
            e,
            or_else-eq-ok (decode_lease bytes) corrupt d
                ∙ ap (λ (l : Lease). ok l) (ok_injective h3 ∙ same),
          ),
          ground (arith, ap (λ (l : Lease). l.expires_at) same),
        )
  ]

  pub Records-owned :
      (l : Lease) (now : ℕ) (st : LeaseStore)
      → Records l st
      → owned l now st.leases ≡ (if ltb now l.expires_at then ok tt else err lease_lost)
  unfolding owned current_lease
  Records-owned l now st (bytes, e, d) =
      rw
        (
          owned,
          x.get_lem (encode_lease_key l.key) st.leases,
          e,
          d,
          key_eq_refl l.key,
          same_lease_refl l,
        )
        (ground arith)

  pub Records-vacant :
      (l : Lease) (now : ℕ) (st : LeaseStore)
      → Records l st
      → vacant l.key now st.leases ≡ (if ltb now l.expires_at then err lease_held else ok tt)
  unfolding vacant current_lease
  Records-vacant l now st (bytes, e, d) =
      rw (vacant, x.get_lem (encode_lease_key l.key) st.leases, e, d, key_eq_refl l.key)
        (ground arith)

  acquire_tx-eq-ok :
      (ctx : Context) (now : ℕ) (key : LeaseKey) (encoded : Bytes) (leases : Entries)
      {after : Entries}
      → acquire_tx ctx now key encoded leases ≡ ok after
      → (after ≡ insert (encode_lease_key key) encoded leases) × (vacant key now leases ≡ ok tt)
  unfolding acquire_tx
  acquire_tx-eq-ok ctx now key encoded leases h =
      let (_, _, h1) = >>=-eq-ok (context_error ctx.inside) _ h in
      let (_, free, h2) = >>=-eq-ok (vacant key now leases) _ h1 in
      (sym (ok_injective h2) ∙ x.put_lem (encode_lease_key key) encoded leases, free)

  err≢ok : (e : StoreError) (l : Lease) → Fallible.err e ≡ ok l → ⊥
  err≢ok e l h = cc

  -- What the calls do to the file: nothing, or what their transaction says.
  FileMove : Result Entries → Entries → Entries → Type 0
  FileMove m before after =
      (after ≡ before) ⊎ ((leases : Entries) × (m ≡ ok leases) × (after ≡ leases))

  acquired-FileMove :
      (l : Lease) (m : Result Entries) (st : LeaseStore)
      → FileMove m st.leases (acquired l m st).1.leases
  unfolding FileMove acquired replace_lease_signal close_lease_key_signals close_signals
  acquired-FileMove l (ok leases) st = inr (leases, refl, refl)
  acquired-FileMove l (err e) st =
      inl
        (elim (Bool-cases (is_corrupt (public_error e))) [ inl q ↦ rw q refl | inr q ↦ rw q refl ])

  renewed-FileMove :
      (old l : Lease) (m : Result Entries) (st : LeaseStore)
      → FileMove m st.leases (renewed old l m st).1.leases
  unfolding FileMove renewed replace_lease_signal close_lease_signal close_signals
  renewed-FileMove old l (ok leases) st =
      inr (
        leases,
        refl,
        elim (Bool-cases (same_lease l old)) [ inl q ↦ rw q refl | inr q ↦ rw q refl ],
      )
  renewed-FileMove old l (err e) st =
      inl (elim (Bool-cases (lease_loss_detected (public_error e))) [
        | inl q ↦ rw q refl
        | inr q ↦ rw q refl
      ])

  released-FileMove :
      (l : Lease) (m : Result Entries) (st : LeaseStore)
      → FileMove m st.leases (released l m st).1.leases
  unfolding FileMove released close_lease_signal close_signals
  released-FileMove l (ok leases) st = inr (leases, refl, refl)
  released-FileMove l (err e) st = inl (elim (Bool-cases (lease_loss_detected (public_error e))) [
    | inl q ↦ rw q refl
    | inr q ↦ rw q refl
  ])

  pub acquire-leases :
      (ctx : Context) (now : ℕ) (key : LeaseKey) (owner : Bytes) (ttl : ℤ) (st : LeaseStore)
      → let after = (acquire ctx now key owner ttl st).1.leases in
        (after ≡ st.leases)
        ⊎ ((bytes : Bytes) × (vacant key now st.leases ≡ ok tt)
            × (after ≡ insert (encode_lease_key key) bytes st.leases))
  unfolding acquire FileMove
  acquire-leases ctx now key owner ttl st =
      let expiration = lease_expiration now ttl in
      let asked : Lease = record { key = key; owner = owner; expires_at = expiration.0 } in
      elim (Fallible-cases (acquire_entry ctx now asked expiration.1 st)) [
        | inl (e, q) ↦ inl (rw (acquire, q) refl)
        | inr (bytes, q) ↦
            elim (acquired-FileMove asked (acquire_tx ctx now key bytes st.leases) st) [
              | inl same ↦ inl (rw (acquire, q) same)
              | inr (leases, t, moved) ↦
                  let (put, free) = acquire_tx-eq-ok ctx now key bytes st.leases t in
                  inr (bytes, free, rw (acquire, q) (moved ∙ put))
            ]
      ]

  renew_tx-eq-ok :
      (ctx : Context) (now : ℕ) (l : Lease) (encoded : Bytes) (leases : Entries) {after : Entries}
      → renew_tx ctx now l encoded leases ≡ ok after
      → (after ≡ insert (encode_lease_key l.key) encoded leases) × (owned l now leases ≡ ok tt)
  unfolding renew_tx
  renew_tx-eq-ok ctx now l encoded leases h =
      let (_, _, h1) = >>=-eq-ok (context_error ctx.inside) _ h in
      let (_, own, h2) = >>=-eq-ok (owned l now leases) _ h1 in
      (sym (ok_injective h2) ∙ x.put_lem (encode_lease_key l.key) encoded leases, own)

  pub renew-leases :
      (ctx : Context) (now : ℕ) (l : Lease) (ttl : ℤ) (st : LeaseStore)
      → let after = (renew ctx now l ttl st).1.leases in
        (after ≡ st.leases)
        ⊎ ((bytes : Bytes) × (owned l now st.leases ≡ ok tt)
            × (after ≡ insert (encode_lease_key l.key) bytes st.leases))
  unfolding renew FileMove
  renew-leases ctx now l ttl st =
      let expiration = lease_expiration now ttl in
      let asked : Lease = record l { expires_at = expiration.0 } in
      elim (Fallible-cases (acquire_entry ctx now asked expiration.1 st)) [
        | inl (e, q) ↦ inl (rw (renew, q) refl)
        | inr (bytes, q) ↦ elim (renewed-FileMove l asked (renew_tx ctx now l bytes st.leases) st) [
          | inl same ↦ inl (rw (renew, q) same)
          | inr (leases, t, moved) ↦
              let (put, own) = renew_tx-eq-ok ctx now l bytes st.leases t in
              inr (bytes, own, rw (renew, q) (moved ∙ put))
        ]
      ]

  release_tx-eq-ok :
      (ctx : Context) (now : ℕ) (l : Lease) (leases : Entries) {after : Entries}
      → release_tx ctx now l leases ≡ ok after
      → (after ≡ erase (encode_lease_key l.key) leases) × (owned l now leases ≡ ok tt)
  unfolding release_tx
  release_tx-eq-ok ctx now l leases h =
      let (_, _, h1) = >>=-eq-ok (context_error ctx.inside) _ h in
      let (_, own, h2) = >>=-eq-ok (owned l now leases) _ h1 in
      (sym (ok_injective h2) ∙ x.delete_lem (encode_lease_key l.key) leases, own)

  pub release-leases :
      (ctx : Context) (now : ℕ) (l : Lease) (st : LeaseStore)
      → let after = (release ctx now l st).1.leases in
        (after ≡ st.leases)
        ⊎ ((owned l now st.leases ≡ ok tt) × (after ≡ erase (encode_lease_key l.key) st.leases))
  unfolding release FileMove
  release-leases ctx now l st = elim (Fallible-cases (lease_entry ctx l st)) [
    | inl (e, q) ↦ inl (rw (release, q) refl)
    | inr (u, q) ↦ elim (released-FileMove l (release_tx ctx now l st.leases) st) [
      | inl same ↦ inl (rw (release, q) same)
      | inr (leases, t, moved) ↦
          let (cut, own) = release_tx-eq-ok ctx now l st.leases t in
          inr (own, rw (release, q) (moved ∙ cut))
    ]
  ]

  validated-leases :
      (l : Lease) (m : Result (Unit {0})) (st : LeaseStore)
      → (validated l m st).1.leases ≡ st.leases
  unfolding validated close_lease_signal close_signals
  validated-leases l (ok u) st = refl
  validated-leases l (err e) st = elim (Bool-cases (lease_loss_detected (public_error e))) [
    | inl q ↦ rw q refl
    | inr q ↦ rw q refl
  ]

  pub validate-leases :
      (ctx : Context) (now : ℕ) (l : Lease) (st : LeaseStore)
      → (validate ctx now l st).1.leases ≡ st.leases
  unfolding validate
  validate-leases ctx now l st = elim (Fallible-cases (lease_entry ctx l st)) [
    | inl (e, q) ↦ rw (validate, q) refl
    | inr (u, q) ↦
        rw (validate, q) (validated-leases l (context_error ctx.inside >> owned l now st.leases) st)
  ]

  acquired-eq-ok :
      (asked : Lease) (m : Result Entries) (st : LeaseStore) {l : Lease} {st' : LeaseStore}
      → acquired asked m st ≡ (ok l, st')
      → (leases : Entries) × (m ≡ ok leases)
        × (asked ≡ l)
        × (replace_lease_signal asked (record st { leases = leases }) ≡ st')
  unfolding acquired
  acquired-eq-ok asked (ok leases) st h = (
    leases,
    refl,
    ok_injective (ap (λ (p : Result Lease × LeaseStore). p.0) h),
    ap (λ (p : Result Lease × LeaseStore). p.1) h,
  )
  acquired-eq-ok asked (err e) st {l} h =
      absurd (err≢ok (public_error e) l (ap (λ (p : Result Lease × LeaseStore). p.0) h))

  -- What a successful `Acquire` has done.
  pub record Acquired (now : ℕ) (key : LeaseKey) (owner : Bytes) (ttl : ℤ) (st : LeaseStore)
      (l : Lease) (st' : LeaseStore) : Type 0 where
    pub lease : l ≡ record { key = key; owner = owner; expires_at = (lease_expiration now ttl).0 }
    pub bytes : Bytes
    pub encoded : encode_lease l ≡ ok bytes
    pub free : vacant key now st.leases ≡ ok tt
    pub state :
        st'
        ≡ replace_lease_signal l
            (record st { leases = insert (encode_lease_key key) bytes st.leases })

  acquire_entry-encoded :
      (ctx : Context) (now : ℕ) (asked : Lease) (in_time : Bool) (st : LeaseStore) {bytes : Bytes}
      → acquire_entry ctx now asked in_time st ≡ ok bytes
      → encode_lease asked ≡ ok bytes
  unfolding acquire_entry
  acquire_entry-encoded ctx now asked in_time st h =
      let (encoded, e, h1) = >>=-eq-ok (or_else (encode_lease asked) invalid_input) _ h in
      let (_, h2) = fail_if-eq-ok (not in_time || not (asked.key.network == st.network)) _ _ h1 in
      let (_, _, h3) = >>=-eq-ok (begin ctx.entry st) _ h2 in
      or_else-eq-ok (encode_lease asked) invalid_input e ∙ h3

  pub acquire-Acquired :
      (ctx : Context) (now : ℕ) (key : LeaseKey) (owner : Bytes) (ttl : ℤ) (st : LeaseStore)
      {l : Lease} {st' : LeaseStore}
      → acquire ctx now key owner ttl st ≡ (ok l, st')
      → Acquired now key owner ttl st l st'
  unfolding acquire
  acquire-Acquired ctx now key owner ttl st {l} {st'} h =
      let expiration = lease_expiration now ttl in
      let asked : Lease = record { key = key; owner = owner; expires_at = expiration.0 } in
      elim (Fallible-cases (acquire_entry ctx now asked expiration.1 st)) [
        | inl (e, q) ↦
            let failed : (Fallible.err e, st) ≡ (Fallible.ok l, st') = rw (acquire, q) at h in
            absurd (err≢ok e l (ap (λ (p : Result Lease × LeaseStore). p.0) failed))
        | inr (bytes, q) ↦
            let moved : acquired asked (acquire_tx ctx now key bytes st.leases) st ≡ (ok l, st') =
              rw (acquire, q) at h in
            let (leases, t, same, state) =
              acquired-eq-ok asked (acquire_tx ctx now key bytes st.leases) st moved in
            let (put, free) = acquire_tx-eq-ok ctx now key bytes st.leases t in
            record {
              lease = sym same;
              bytes = bytes;
              encoded = rw (← same) (acquire_entry-encoded ctx now asked expiration.1 st q);
              free = free;
              state = rw (← state, put, same) refl;
            }
      ]

  -- Whatever `Renew` returns, the file is as it was, or the lease presented was recorded and had not
  -- expired, and its record was replaced.
  pub renew_holder :
      (ctx : Context) (now : ℕ) (l : Lease) (ttl : ℤ) (st : LeaseStore)
      → let after = (renew ctx now l ttl st).1.leases in
        (after ≡ st.leases)
        ⊎ ((bytes : Bytes) × Records l st
            × (now < l.expires_at)
            × (after ≡ insert (encode_lease_key l.key) bytes st.leases))
  renew_holder ctx now l ttl st = elim (renew-leases ctx now l ttl st) [
    | inl same ↦ inl same
    | inr (bytes, own, put) ↦
        let (recorded, alive) = owned-eq-ok l now st own in inr (bytes, recorded, alive, put)
  ]

  -- Whatever `Release` returns, the file is as it was, or the lease presented was recorded and had
  -- not expired, and its record was deleted.
  pub release_holder :
      (ctx : Context) (now : ℕ) (l : Lease) (st : LeaseStore)
      → let after = (release ctx now l st).1.leases in
        (after ≡ st.leases)
        ⊎ (Records l st × (now < l.expires_at) × (after ≡ erase (encode_lease_key l.key) st.leases))
  release_holder ctx now l st = elim (release-leases ctx now l st) [
    | inl same ↦ inl same
    | inr (own, cut) ↦
        let (recorded, alive) = owned-eq-ok l now st own in inr (recorded, alive, cut)
  ]
