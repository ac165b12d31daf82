-- ===== src/Store/Lease/Exclusion.antt =====
-- A lease is held by one owner: no call of others touches it before it expires.
use guard_daemon.Prelude.{
  ℕ, ℤ, ◌^◌, ◌<◌, ◌≡◌, ◌≢◌, sym, ap, ◌∙◌, ◌⊎◌, inl, inr, false, some, List, [], ◌∷◌, arith, Bytes,
  lookup, lookup-insert_self, lookup-insert_ne, lookup-erase_ne, bytes_eq, bytes_eq→eq, be_bytes,
  be_bytes-injective, take-append, drop-append, length-be_bytes, Bool-cases, take, drop,
}
use guard_daemon.External.{External}
use guard_daemon.Budget.State.{Context}
use guard_daemon.Store.Types.{StoreError, ok, ok_injective}
use guard_daemon.Store.Lease.{
  LeaseKey, Lease, LeaseStore, encode_lease_key, owned, vacant, acquire, renew, validate, release,
  replace_lease_signal, close_signals,
}
use guard_daemon.Store.Lease.Codec.{LeaseFits, decode_lease-encode_lease}
use guard_daemon.Store.Lease.Moves.{
  Records, owned-eq-ok, Records-vacant, acquire-leases, renew-leases, release-leases,
  validate-leases, acquire-Acquired,
}

-- A call of the lease manager at a time.
pub data Call : Type 0 where
  acquires : LeaseKey → Bytes → ℤ → Call
  renews : Lease → ℤ → Call
  validates : Lease → Call
  releases : Lease → Call

abbrev pub key_of : Call → LeaseKey
key_of (acquires key owner ttl) = key
key_of (renews l ttl) = l.key
key_of (validates l) = l.key
key_of (releases l) = l.key

-- The call does not present the lease: an `Acquire`, a `Validate`, or another lease.
abbrev pub IsForeign : Lease → Call → Type 0
IsForeign l (acquires key owner ttl) = Unit
IsForeign l (renews k ttl) = k ≢ l
IsForeign l (validates k) = Unit
IsForeign l (releases k) = k ≢ l

-- A key whose network and sponsor fit 8 and 20 bytes.
pub record KeyFits (k : LeaseKey) : Type 0 where
  pub network : k.network < 2 ^ 64
  pub sponsor : k.sponsor < 2 ^ 160

encode_lease_key-injective :
    (a b : LeaseKey) → KeyFits a → KeyFits b → encode_lease_key a ≡ encode_lease_key b → a ≡ b
unfolding encode_lease_key
encode_lease_key-injective a b f g h =
    let heads = ap (take 8) h in
    let tails = ap (drop 8) h in
    let network = be_bytes-injective 8 a.network b.network f.network g.network (
      sym
        (take-append 8 (be_bytes 8 a.network) (be_bytes 20 a.sponsor) (length-be_bytes 8 a.network))
      ∙ heads
      ∙ take-append 8 (be_bytes 8 b.network) (be_bytes 20 b.sponsor)
          (length-be_bytes 8 b.network)) in
    let sponsor = be_bytes-injective 20 a.sponsor b.sponsor f.sponsor g.sponsor (
      sym
        (drop-append 8 (be_bytes 8 a.network) (be_bytes 20 a.sponsor) (length-be_bytes 8 a.network))
      ∙ tails
      ∙ drop-append 8 (be_bytes 8 b.network) (be_bytes 20 b.sponsor)
          (length-be_bytes 8 b.network)) in
    λ i. record { network = network i; sponsor = sponsor i }

-- Either the keys are equal or their encodings differ.
keys-cases :
    (a b : LeaseKey)
    → KeyFits a
    → KeyFits b
    → (a ≡ b) ⊎ (bytes_eq (encode_lease_key a) (encode_lease_key b) ≡ false)
keys-cases a b f g = elim (Bool-cases (bytes_eq (encode_lease_key a) (encode_lease_key b))) [
  | inl e ↦
      inl (
        encode_lease_key-injective a b f g
          (bytes_eq→eq (encode_lease_key a) (encode_lease_key b) e))
  | inr e ↦ inr e
]

module _ ⦃x : External⦄ where
  call : Context → ℕ → Call → LeaseStore → LeaseStore
  call ctx now (acquires key owner ttl) st = (acquire ctx now key owner ttl st).1
  call ctx now (renews l ttl) st = (renew ctx now l ttl st).1
  call ctx now (validates l) st = (validate ctx now l st).1
  call ctx now (releases l) st = (release ctx now l st).1

  Records-from :
      (l : Lease) (st st' : LeaseStore)
      → lookup (encode_lease_key l.key) st'.leases ≡ lookup (encode_lease_key l.key) st.leases
      → Records l st
      → Records l st'
  Records-from l st st' e (bytes, s, d) = (bytes, e ∙ s, d)

  -- Another lease under the key is not owned while this one stands.
  other-not_owned :
      (l k : Lease) (now : ℕ) (st : LeaseStore)
      → Records l st
      → k.key ≡ l.key
      → k ≢ l
      → owned k now st.leases ≡ ok tt
      → ⊥
  other-not_owned l k now st (bytes, s, d) e n o =
      let ((b, t, c), _) = owned-eq-ok k now st o in
      let found : lookup (encode_lease_key l.key) st.leases ≡ some b = rw e at t in
      n (ok_injective {E = StoreError} (cc (found, s, c, d)))

  held-not_vacant :
      (l : Lease) (now : ℕ) (st : LeaseStore)
      → Records l st
      → now < l.expires_at
      → vacant l.key now st.leases ≡ ok tt
      → ⊥
  held-not_vacant l now st r t v = ground (arith, Records-vacant l now st r)

  call-Records :
      (ctx : Context) (now : ℕ) (c : Call) (l : Lease) (st : LeaseStore)
      → KeyFits l.key
      → KeyFits (key_of c)
      → IsForeign l c
      → Records l st
      → now < l.expires_at
      → Records l (call ctx now c st)
  unfolding call
  call-Records ctx now (acquires key owner ttl) l st f g i r t =
      elim (acquire-leases ctx now key owner ttl st) [
        | inl same ↦
            Records-from l st (acquire ctx now key owner ttl st).1
              (ap (lookup (encode_lease_key l.key)) same) r
        | inr (bytes, free, put) ↦ elim (keys-cases l.key key f g) [
          | inl e ↦ absurd (held-not_vacant l now st r t (rw (← e) at free))
          | inr e ↦
              Records-from l st (acquire ctx now key owner ttl st).1
                (ap (lookup (encode_lease_key l.key)) put
                  ∙ lookup-insert_ne (encode_lease_key l.key) (encode_lease_key key) bytes st.leases
                      e)
                r
        ]
      ]
  call-Records ctx now (renews k ttl) l st f g i r t = elim (renew-leases ctx now k ttl st) [
    | inl same ↦
        Records-from l st (renew ctx now k ttl st).1 (ap (lookup (encode_lease_key l.key)) same) r
    | inr (bytes, own, put) ↦ elim (keys-cases l.key k.key f g) [
      | inl e ↦ absurd (other-not_owned l k now st r (sym e) i own)
      | inr e ↦
          Records-from l st (renew ctx now k ttl st).1
            (ap (lookup (encode_lease_key l.key)) put
              ∙ lookup-insert_ne (encode_lease_key l.key) (encode_lease_key k.key) bytes st.leases
                  e)
            r
    ]
  ]
  call-Records ctx now (validates k) l st f g i r t =
      Records-from l st (validate ctx now k st).1
        (ap (lookup (encode_lease_key l.key)) (validate-leases ctx now k st)) r
  call-Records ctx now (releases k) l st f g i r t = elim (release-leases ctx now k st) [
    | inl same ↦
        Records-from l st (release ctx now k st).1 (ap (lookup (encode_lease_key l.key)) same) r
    | inr (own, cut) ↦ elim (keys-cases l.key k.key f g) [
      | inl e ↦ absurd (other-not_owned l k now st r (sym e) i own)
      | inr e ↦
          Records-from l st (release ctx now k st).1
            (ap (lookup (encode_lease_key l.key)) cut
              ∙ lookup-erase_ne (encode_lease_key l.key) (encode_lease_key k.key) st.leases e)
            r
    ]
  ]

  -- Calls at their times, each from the state that the one before left, whatever it returned.
  pub run : List (Context × ℕ × Call) → LeaseStore → LeaseStore
  run [] st = st
  run ((ctx, now, c) ∷ calls) st = run calls (call ctx now c st)

  abbrev pub AllForeign : Lease → List (Context × ℕ × Call) → Type 0
  AllForeign l [] = Unit
  AllForeign l ((ctx, now, c) ∷ calls) =
      KeyFits (key_of c) × IsForeign l c × (now < l.expires_at) × AllForeign l calls

  run-Records :
      (calls : List (Context × ℕ × Call)) (l : Lease) (st : LeaseStore)
      → KeyFits l.key
      → AllForeign l calls
      → Records l st
      → Records l (run calls st)
  unfolding run
  run-Records [] l st f a r = r
  run-Records ((ctx, now, c) ∷ calls) l st f (k, i, t, a) r =
      run-Records calls l (call ctx now c st) f a (call-Records ctx now c l st f k i r t)

  acquire-Records :
      (ctx : Context) (now : ℕ) (key : LeaseKey) (owner : Bytes) (ttl : ℤ) (st : LeaseStore)
      {l : Lease} {st' : LeaseStore}
      → LeaseFits l
      → acquire ctx now key owner ttl st ≡ (ok l, st')
      → Records l st'
  unfolding replace_lease_signal close_signals
  acquire-Records ctx now key owner ttl st {l} {st'} f h =
      let a = acquire-Acquired ctx now key owner ttl st h in
      rw (a.state, a.lease)
        (
          a.bytes,
          lookup-insert_self (encode_lease_key key) a.bytes st.leases,
          rw (← a.lease) (decode_lease-encode_lease l f a.encoded),
        )

  -- Once `Acquire` has given a lease in range, then after any calls before its expiry that do not
  -- present it and whose keys are in range, failed ones included, the file records it still, and no
  -- `Acquire` of its key succeeds before then.
  pub acquire-excludes :
      (ctx : Context) (now : ℕ) (key : LeaseKey) (owner : Bytes) (ttl : ℤ) (st : LeaseStore)
      {l : Lease} {st' : LeaseStore} (calls : List (Context × ℕ × Call))
      → LeaseFits l
      → KeyFits l.key
      → acquire ctx now key owner ttl st ≡ (ok l, st')
      → AllForeign l calls
      → Records l (run calls st')
        × ((ctx' : Context) (t : ℕ) (rival : Bytes) (span : ℤ) (k : Lease) (after : LeaseStore)
            → t < l.expires_at
            → acquire ctx' t l.key rival span (run calls st') ≢ (ok k, after))
  acquire-excludes ctx now key owner ttl st {l} {st'} calls f g h a =
      let r = run-Records calls l st' g a (acquire-Records ctx now key owner ttl st f h) in
      (
        r,
        λ ctx' t rival span k after before won.
            held-not_vacant l t (run calls st') r before
              (acquire-Acquired ctx' t l.key rival span (run calls st') won).free,
      )
