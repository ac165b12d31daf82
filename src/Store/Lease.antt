-- ===== src/Store/Lease.antt =====
-- The leases of the store (internal/store/lease.go). `now` is what the clock reads. A channel is a
-- number: 0 is `closedLease`, `next_signal` the next one that is made; a channel is closed once it
-- is listed in `closed_signals`, and the map `leaseLoss` is the list `signals`.
pub mod Codec
pub mod Moves
pub mod Exclusion
pub mod Signals
use guard_daemon.Prelude.{
  ℕ, ℤ, pos, negsuc, ◌+◌, ◌-◌, ◌*◌, ◌%◌, ◌^◌, Bool, true, false, not, ◌&&◌, ◌||◌, Option, none,
  some, List, [], ◌∷◌, ◌++◌, Bytes, Entries, length, take, drop, bytes_eq, be_bytes, be_value,
  read_field, ltb, leb, ◌==◌, if◌then◌else◌,
}
use guard_daemon.Instant.{second, zero_time, is_zero, biased_unix, unix_word, nanosecond}
use guard_daemon.External.{External}
use guard_daemon.Budget.State.{ContextState, Context}
use guard_daemon.Budget.Codec.{append_time, read_time}
use guard_daemon.Store.Types.{
  StoreError, Result, ok, err, ◌>>=◌, ◌>>◌, fail_if, or_else, need, closed, invalid_input,
  lease_held, lease_lost, corrupt, invalid_record, context_error, public_error, is_corrupt,
  lease_loss_detected,
}

abbrev pub lease_record_version : ℕ
lease_record_version = 1

abbrev pub max_lease_owner_bytes : ℕ
max_lease_owner_bytes = 128

pub record LeaseKey : Type 0 where
  pub network : ℕ
  pub sponsor : ℕ

pub record Lease : Type 0 where
  pub key : LeaseKey
  pub owner : Bytes
  pub expires_at : ℕ

pub record LeaseIdentity : Type 0 where
  pub key : LeaseKey
  pub owner : Bytes
  pub expires_unix : ℕ
  pub expires_nano : ℕ

pub record LeaseStore : Type 0 where
  pub is_closed : Bool
  pub network : ℕ
  pub leases : Entries
  pub signals : List (LeaseIdentity × ℕ)
  pub closed_signals : List ℕ
  pub next_signal : ℕ

abbrev pub key_eq : LeaseKey → LeaseKey → Bool
key_eq a b = a.network == b.network && a.sponsor == b.sponsor

abbrev pub identity_eq : LeaseIdentity → LeaseIdentity → Bool
identity_eq a b =
    key_eq a.key b.key
    && bytes_eq a.owner b.owner
    && a.expires_unix == b.expires_unix
    && a.expires_nano == b.expires_nano

pub same_lease : Lease → Lease → Bool
same_lease a b = key_eq a.key b.key && bytes_eq a.owner b.owner && a.expires_at == b.expires_at

unfoldable pub valid_rescue_time : ℕ → Bool
valid_rescue_time t = not (is_zero t) && ltb (2 ^ 63) (biased_unix t) && ltb (nanosecond t) second

-- `now.Add(ttl)`: the second's number wraps as an int64.
abbrev pub add_time : ℕ → ℕ → ℕ
add_time t d = (t + d) % (2 ^ 64 * second)

unfoldable pub lease_expiration : ℕ → ℤ → ℕ × Bool
lease_expiration now (negsuc n) = (zero_time, false)
lease_expiration now (pos d) =
    if d == 0 || not (valid_rescue_time now)
    then (zero_time, false)
    else (add_time now d, valid_rescue_time (add_time now d) && ltb now (add_time now d))

unfoldable pub encode_lease_key : LeaseKey → Bytes
encode_lease_key k = be_bytes 8 k.network ++ be_bytes 20 k.sponsor

unfoldable pub validate_lease : Lease → Result (Unit {0})
validate_lease l =
    fail_if
      (not (ltb 0 l.key.network && ltb l.key.network (2 ^ 63))
        || l.key.sponsor == 0
        || length l.owner == 0
        || ltb max_lease_owner_bytes (length l.owner)
        || not (valid_rescue_time l.expires_at))
      invalid_record

unfoldable pub lease_bytes : Lease → Bytes
lease_bytes l =
    append_time
      (lease_record_version ∷ be_bytes 8 l.key.network
        ++ be_bytes 20 l.key.sponsor
        ++ be_bytes 2 (length l.owner)
        ++ l.owner)
      l.expires_at

unfoldable pub encode_lease : Lease → Result Bytes
encode_lease l = validate_lease l >> ok (lease_bytes l)

unfoldable pub decode_lease_fields : Bytes → Result Lease
decode_lease_fields bs = do
  (network, bs) ← need (read_field 8 bs)
  fail_if (leb (2 ^ 63) network) invalid_record
  (sponsor, bs) ← need (read_field 20 bs)
  (owner_length, bs) ← need (read_field 2 bs)
  fail_if
      (owner_length == 0 || ltb max_lease_owner_bytes owner_length || ltb (length bs) owner_length)
      invalid_record
  let owner = take owner_length bs
  (expires_at, bs) ← need (read_time (drop owner_length bs))
  fail_if (not (length bs == 0)) invalid_record
  let lease : Lease = record {
    key = record { network = network; sponsor = sponsor };
    owner = owner;
    expires_at = expires_at;
  }
  validate_lease lease
  ok lease

unfoldable pub decode_lease : Bytes → Result Lease
decode_lease [] = err invalid_record
decode_lease (version ∷ bs) =
    fail_if (ltb (length bs) 42 || not (version == lease_record_version)) invalid_record
    >> decode_lease_fields bs

unfoldable pub lease_signal_identity : Lease → LeaseIdentity
lease_signal_identity l = record {
  key = l.key;
  owner = l.owner;
  expires_unix = unix_word l.expires_at;
  expires_nano = nanosecond l.expires_at;
}

-- The channels that a loop over the map closes, and what it leaves in the map.
unfoldable pub closing : (LeaseIdentity → Bool) → List (LeaseIdentity × ℕ) → List ℕ
closing p [] = []
closing p ((id, c) ∷ s) = let rest = closing p s in if p id then c ∷ rest else rest

unfoldable pub keeping :
    (LeaseIdentity → Bool) → List (LeaseIdentity × ℕ) → List (LeaseIdentity × ℕ)
keeping p [] = []
keeping p ((id, c) ∷ s) = let rest = keeping p s in if p id then rest else (id, c) ∷ rest

unfoldable pub close_signals : (LeaseIdentity → Bool) → LeaseStore → LeaseStore
close_signals p st = record st {
  signals = keeping p st.signals;
  closed_signals = closing p st.signals ++ st.closed_signals;
}

pub close_lease_signal : Lease → LeaseStore → LeaseStore
close_lease_signal l st = close_signals (identity_eq (lease_signal_identity l)) st

pub close_lease_key_signals : LeaseKey → LeaseStore → LeaseStore
close_lease_key_signals key st = close_signals (λ id. key_eq id.key key) st

unfoldable pub replace_lease_signal : Lease → LeaseStore → LeaseStore
replace_lease_signal l st =
    let st = close_signals (λ id. key_eq id.key l.key) st in
    record st {
      signals = (lease_signal_identity l, st.next_signal) ∷ st.signals;
      next_signal = st.next_signal + 1;
    }

close_all_lease_signals : LeaseStore → LeaseStore
close_all_lease_signals st = close_signals (λ id. true) st

unfoldable pub begin : ContextState → LeaseStore → Result (Unit {0})
begin ctx st = context_error ctx >> fail_if st.is_closed closed

-- `Close`: a second call does nothing.
pub close : LeaseStore → LeaseStore
close st = if st.is_closed then st else close_all_lease_signals (record st { is_closed = true })

-- The map's channel for an identity.
pub find_signal : LeaseIdentity → List (LeaseIdentity × ℕ) → Option ℕ
find_signal id [] = none
find_signal id ((i, c) ∷ s) =
    let rest = find_signal id s in if identity_eq id i then some c else rest

abbrev pub is_ok {ℓ} : {A : Type ℓ} → Result A → Bool
is_ok (ok _) = true
is_ok (err _) = false

pub lost : Lease → LeaseStore → ℕ
lost l st =
    if not (is_ok (validate_lease l)) || not (l.key.network == st.network)
    then 0
    else elim (find_signal (lease_signal_identity l) st.signals) [ none ↦ 0 | some c ↦ c ]

module _ ⦃x : External⦄ where
  -- What the record under a key says of a lease that is claimed: it stands and has not expired.
  unfoldable pub current_lease : LeaseKey → Bytes → Result Lease
  current_lease key bytes = do
    current ← or_else (decode_lease bytes) corrupt
    fail_if (not (key_eq current.key key)) corrupt
    ok current

  pub owned : Lease → ℕ → Entries → Result (Unit {0})
  owned l now leases = elim (x.get (encode_lease_key l.key) leases) [
    | none ↦ err lease_lost
    | some bytes ↦ do
      current ← current_lease l.key bytes
      fail_if (not (same_lease current l) || not (ltb now current.expires_at)) lease_lost
  ]

  -- No lease under the key that has not expired.
  unfoldable pub vacant : LeaseKey → ℕ → Entries → Result (Unit {0})
  vacant key now leases = elim (x.get (encode_lease_key key) leases) [
    | none ↦ ok tt
    | some bytes ↦ do
      current ← current_lease key bytes
      fail_if (ltb now current.expires_at) lease_held
  ]

  unfoldable pub acquire_tx : Context → ℕ → LeaseKey → Bytes → Entries → Result Entries
  acquire_tx ctx now key encoded leases = do
    context_error ctx.inside
    vacant key now leases
    ok (x.put (encode_lease_key key) encoded leases)

  -- The checks before the transaction of `Acquire`, and the record to write.
  unfoldable pub acquire_entry : Context → ℕ → Lease → Bool → LeaseStore → Result Bytes
  acquire_entry ctx now requested in_time st = do
    encoded ← or_else (encode_lease requested) invalid_input
    fail_if (not in_time || not (requested.key.network == st.network)) invalid_input
    begin ctx.entry st
    ok encoded

  unfoldable pub acquired : Lease → Result Entries → LeaseStore → Result Lease × LeaseStore
  acquired l (ok leases) st = (ok l, replace_lease_signal l (record st { leases = leases }))
  acquired l (err e) st = (
    err (public_error e),
    if is_corrupt (public_error e) then close_lease_key_signals l.key st else st,
  )

  unfoldable pub acquire :
      Context → ℕ → LeaseKey → Bytes → ℤ → LeaseStore → Result Lease × LeaseStore
  acquire ctx now key owner ttl st =
      let expiration = lease_expiration now ttl in
      let requested : Lease = record { key = key; owner = owner; expires_at = expiration.0 } in
      elim (acquire_entry ctx now requested expiration.1 st) [
        | err e ↦ (err e, st)
        | ok encoded ↦ acquired requested (acquire_tx ctx now key encoded st.leases) st
      ]

  pub renew_tx : Context → ℕ → Lease → Bytes → Entries → Result Entries
  renew_tx ctx now l encoded leases = do
    context_error ctx.inside
    owned l now leases
    ok (x.put (encode_lease_key l.key) encoded leases)

  pub renewed : Lease → Lease → Result Entries → LeaseStore → Result Lease × LeaseStore
  renewed old l (ok leases) st =
      let st = record st { leases = leases } in
      if same_lease l old then (ok old, st) else (ok l, replace_lease_signal l st)
  renewed old l (err e) st = (
    err (public_error e),
    if lease_loss_detected (public_error e) then close_lease_signal old st else st,
  )

  pub renew : Context → ℕ → Lease → ℤ → LeaseStore → Result Lease × LeaseStore
  renew ctx now l ttl st =
      let expiration = lease_expiration now ttl in
      let requested : Lease = record l { expires_at = expiration.0 } in
      elim (acquire_entry ctx now requested expiration.1 st) [
        | err e ↦ (err e, st)
        | ok encoded ↦ renewed l requested (renew_tx ctx now l encoded st.leases) st
      ]

  -- The checks before the transaction of `Validate` and of `Release`.
  pub lease_entry : Context → Lease → LeaseStore → Result (Unit {0})
  lease_entry ctx l st = do
    or_else (validate_lease l) invalid_input
    fail_if (not (l.key.network == st.network)) invalid_input
    begin ctx.entry st

  pub validated : Lease → Result (Unit {0}) → LeaseStore → Result (Unit {0}) × LeaseStore
  validated l (ok u) st = (ok u, st)
  validated l (err e) st = (
    err (public_error e),
    if lease_loss_detected (public_error e) then close_lease_signal l st else st,
  )

  pub validate : Context → ℕ → Lease → LeaseStore → Result (Unit {0}) × LeaseStore
  validate ctx now l st = elim (lease_entry ctx l st) [
    | err e ↦ (err e, st)
    | ok _ ↦ validated l (context_error ctx.inside >> owned l now st.leases) st
  ]

  pub release_tx : Context → ℕ → Lease → Entries → Result Entries
  release_tx ctx now l leases = do
    context_error ctx.inside
    owned l now leases
    ok (x.delete (encode_lease_key l.key) leases)

  pub released : Lease → Result Entries → LeaseStore → Result (Unit {0}) × LeaseStore
  released l (ok leases) st = (ok tt, close_lease_signal l (record st { leases = leases }))
  released l (err e) st = (
    err (public_error e),
    if lease_loss_detected (public_error e) then close_lease_signal l st else st,
  )

  unfoldable pub release : Context → ℕ → Lease → LeaseStore → Result (Unit {0}) × LeaseStore
  release ctx now l st = elim (lease_entry ctx l st) [
    | err e ↦ (err e, st)
    | ok _ ↦ released l (release_tx ctx now l st.leases) st
  ]
