-- ===== src/Store/Lease/Signals.antt =====
-- The channels that tell of a lost lease.
use guard_daemon.Prelude.{
  ℕ, ℤ, ◌≡◌, inl, inr, Bool, true, false, ◌||◌, some, List, [], ◌∷◌, ◌++◌, arith, Bytes,
  bytes_eq_refl, ◌==◌, Bool-cases, Option-cases,
}
use guard_daemon.External.{External}
use guard_daemon.Budget.State.{Context}
use guard_daemon.Store.Types.{ok}
use guard_daemon.Store.Lease.{
  LeaseKey, Lease, LeaseIdentity, LeaseStore, key_eq, identity_eq, lease_signal_identity, closing,
  close_signals, replace_lease_signal, find_signal, lost, acquire,
}
use guard_daemon.Store.Lease.Moves.{acquire-Acquired}

abbrev pub contains : ℕ → List ℕ → Bool
contains c [] = false
contains c (d ∷ ds) = c == d || contains c ds

-- A channel is closed: `closedLease`, or one that was closed.
abbrev pub is_signaled : ℕ → LeaseStore → Bool
is_signaled c st = c == 0 || contains c st.closed_signals

contains-append_left :
    (c : ℕ) (xs ys : List ℕ) → contains c xs ≡ true → contains c (xs ++ ys) ≡ true
contains-append_left c [] ys h = ground arith
contains-append_left c (d ∷ xs) ys h = ground (arith, contains-append_left c xs ys)

-- A channel found for an identity is closed by a loop whose test the identity's equals pass.
closing-find :
    (p : LeaseIdentity → Bool) (id : LeaseIdentity) (s : List (LeaseIdentity × ℕ)) {c : ℕ}
    → ((i : LeaseIdentity) → identity_eq id i ≡ true → p i ≡ true)
    → find_signal id s ≡ some c
    → contains c (closing p s) ≡ true
unfolding closing find_signal
closing-find p id [] f h = ground arith
closing-find p id ((i, d) ∷ s) {c} f h = elim (Bool-cases (identity_eq id i)) [
  | inl e ↦ ground (arith, f i e, e)
  | inr e ↦ ground (arith, closing-find p id s {c = c} f (ground (arith, e)))
]

lost-signaled :
    (p : LeaseIdentity → Bool) (k : Lease) (st : LeaseStore)
    → ((i : LeaseIdentity) → identity_eq (lease_signal_identity k) i ≡ true → p i ≡ true)
    → is_signaled (lost k st) (close_signals p st) ≡ true
unfolding lost close_signals
lost-signaled p k st f = elim (Option-cases (find_signal (lease_signal_identity k) st.signals)) [
  | inl e ↦ ground (arith, e)
  | inr (c, e) ↦ ground (
    arith,
    e,
    closing-find p (lease_signal_identity k) st.signals {c = c} f e,
    contains-append_left c (closing p st.signals) st.closed_signals,
  )
]

key_eq_trans : (a b c : LeaseKey) → key_eq a b ≡ true → key_eq a c ≡ true → key_eq b c ≡ true
key_eq_trans a b c h k = ground arith

identity_eq_refl : (i : LeaseIdentity) → identity_eq i i ≡ true
identity_eq_refl i = ground (arith, bytes_eq_refl i.owner)

module _ ⦃x : External⦄ where
  -- A successful `Acquire` closes whatever channel `Lost` gave for a lease of the key.
  pub acquire-signals :
      (ctx : Context) (now : ℕ) (key : LeaseKey) (owner : Bytes) (ttl : ℤ) (st : LeaseStore)
      (k : Lease) {l : Lease} {st' : LeaseStore}
      → key_eq k.key key ≡ true
      → acquire ctx now key owner ttl st ≡ (ok l, st')
      → is_signaled (lost k st) st' ≡ true
  unfolding replace_lease_signal close_signals lost lease_signal_identity
  acquire-signals ctx now key owner ttl st k e h =
      let a = acquire-Acquired ctx now key owner ttl st h in
      rw (a.state, a.lease)
        (lost-signaled (λ id. key_eq id.key key) k st
          (λ i same. key_eq_trans k.key i.key key (ground (arith, same)) e))
