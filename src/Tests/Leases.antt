-- ===== src/Tests/Leases.antt =====
-- Two owners and one key.
use guard_daemon.Prelude.{
  ℕ, ℤ, pos, ◌+◌, ◌*◌, ◌^◌, ◌<◌, ◌≡◌, ◌≢◌, refl, true, false, List, [], ◌∷◌, Bytes, arith, be_bytes,
  be_value, read_field,
}
use guard_daemon.Instant.{second}
use guard_daemon.Budget.Codec.{append_time, read_time}
use guard_daemon.Budget.State.{Context, live}
use guard_daemon.Store.Types.{ok, context_error}
use guard_daemon.Prelude.{◌⊎◌, insert, erase}
use guard_daemon.Store.Lease.{
  renew, release, LeaseKey, Lease, LeaseStore, acquire, acquire_entry, acquire_tx, acquired, vacant,
  current_lease, lease_expiration, valid_rescue_time, encode_lease, validate_lease, lease_bytes,
  encode_lease_key, begin, decode_lease, decode_lease_fields, replace_lease_signal, close_signals,
  closing, keeping, lost, lease_signal_identity,
}
use guard_daemon.Store.Lease.Codec.{LeaseFits, decode_lease-encode_lease}
use guard_daemon.Store.Lease.Moves.{Records, renew_holder, release_holder}
use guard_daemon.Store.Lease.Exclusion.{Call, acquires, validates, KeyFits, run, acquire-excludes}
use guard_daemon.Store.Lease.Signals.{is_signaled, acquire-signals}
use guard_daemon.Tests.World.{world}

abbrev noon : ℕ
noon = (2 ^ 63 + 1_000_000) * second

abbrev live_context : Context
live_context = record { entry = live; inside = live }

abbrev key : LeaseKey
key = record { network = 1; sponsor = 77 }

abbrev first_owner : Bytes
first_owner = 97 ∷ 98 ∷ []

abbrev second_owner : Bytes
second_owner = 99 ∷ []

abbrev no_leases : LeaseStore
no_leases = record {
  is_closed = false;
  network = 1;
  leases = [];
  signals = [];
  closed_signals = [];
  next_signal = 1;
}

abbrev first_lease : Lease
first_lease = record { key = key; owner = first_owner; expires_at = noon + 60 * second }

first_lease_fits : LeaseFits first_lease
first_lease_fits = record { sponsor = omega arith; expires_at = omega arith }

key_fits : KeyFits key
key_fits = record { network = omega arith; sponsor = omega arith }

first_written : encode_lease first_lease ≡ ok (lease_bytes first_lease)
unfolding encode_lease validate_lease valid_rescue_time
first_written = refl

decode_lease-encode_lease_example : decode_lease (lease_bytes first_lease) ≡ ok first_lease
decode_lease-encode_lease_example =
    decode_lease-encode_lease first_lease first_lease_fits first_written

first_store : LeaseStore
first_store =
    (acquire ⦃x = world⦄ live_context noon key first_owner (pos (60 * second)) no_leases).1

first_acquired :
    acquire ⦃x = world⦄ live_context noon key first_owner (pos (60 * second)) no_leases
    ≡ (ok first_lease, first_store)
unfolding first_store acquire acquire_entry acquire_tx acquired vacant current_lease
    lease_expiration valid_rescue_time encode_lease validate_lease lease_bytes encode_lease_key
    begin context_error
first_acquired = refl

abbrev rival_calls : List (Context × ℕ × Call)
rival_calls =
    (live_context, noon + 5 * second, acquires key second_owner (pos second))
    ∷ (live_context, noon + 6 * second, validates first_lease)
    ∷ []

acquire-excludes_example :
    Records first_lease (run ⦃x = world⦄ rival_calls first_store)
    × ((ctx' : Context) (t : ℕ) (rival : Bytes) (span : ℤ) (k : Lease) (after : LeaseStore)
        → t < noon + 60 * second
        → acquire ⦃x = world⦄ ctx' t key rival span (run ⦃x = world⦄ rival_calls first_store)
          ≢ (ok k, after))
acquire-excludes_example =
    acquire-excludes ⦃x = world⦄ live_context noon key first_owner (pos (60 * second)) no_leases
      rival_calls first_lease_fits key_fits first_acquired
      (key_fits, tt, omega arith, (key_fits, tt, omega arith, tt))

second_store : LeaseStore
second_store =
    (acquire ⦃x = world⦄ live_context (noon + 90 * second) key second_owner (pos second)
      first_store).1

second_acquired :
    acquire ⦃x = world⦄ live_context (noon + 90 * second) key second_owner (pos second) first_store
    ≡ (
      ok (record { key = key; owner = second_owner; expires_at = noon + 91 * second }),
      second_store,
    )
unfolding second_store first_store acquire acquire_entry acquire_tx acquired vacant current_lease
    lease_expiration valid_rescue_time encode_lease validate_lease lease_bytes encode_lease_key
    begin context_error be_bytes be_value read_field append_time read_time decode_lease
    decode_lease_fields replace_lease_signal close_signals closing keeping lease_signal_identity
second_acquired = refl

acquire-signals_example : is_signaled (lost first_lease first_store) second_store ≡ true
acquire-signals_example =
    acquire-signals ⦃x = world⦄ live_context (noon + 90 * second) key second_owner (pos second)
      first_store first_lease refl second_acquired

renew_holder_example :
    ((renew ⦃x = world⦄ live_context
        (noon + 5 * second)
        first_lease
        (pos second)
        first_store).1.leases
      ≡ first_store.leases)
    ⊎ ((bytes : Bytes) × Records first_lease first_store
        × (noon + 5 * second < noon + 60 * second)
        × ((renew ⦃x = world⦄ live_context
              (noon + 5 * second)
              first_lease
              (pos second)
              first_store).1.leases
            ≡ insert (encode_lease_key key) bytes first_store.leases))
renew_holder_example =
    renew_holder ⦃x = world⦄ live_context (noon + 5 * second) first_lease (pos second) first_store

release_holder_example :
    ((release ⦃x = world⦄ live_context (noon + 5 * second) first_lease first_store).1.leases
      ≡ first_store.leases)
    ⊎ (Records first_lease first_store
        × (noon + 5 * second < noon + 60 * second)
        × ((release ⦃x = world⦄ live_context (noon + 5 * second) first_lease first_store).1.leases
            ≡ erase (encode_lease_key key) first_store.leases))
release_holder_example =
    release_holder ⦃x = world⦄ live_context (noon + 5 * second) first_lease first_store
