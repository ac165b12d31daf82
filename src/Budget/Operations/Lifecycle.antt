-- ===== src/Budget/Operations/Lifecycle.antt =====
-- The life of a reservation: the steps that `MarkExposed`, `CommitFinalized` and
-- `ReleaseProvenUnused` make, and what can never happen to it.
use guard_daemon.Prelude.{ℕ, ◌≤◌, ◌≡◌, refl, true, not, ◌&&◌, ◌||◌, arith, ltb, ◌==◌, ◌⊎◌}
use guard_daemon.Budget.Types.{
  ok, fail_if-eq-ok, ok_injective, state_conflict, FinalizedCharge, ReservationState, held, exposed,
  committed, released, other, Reservation,
}
use guard_daemon.Budget.State.{Ledger, network_of}
use guard_daemon.Budget.Operations.{expose, settle, release}

-- The steps of a reservation at a time.
pub data Step (l : Ledger) (now : ℕ) (r : Reservation) : Reservation → Type 0 where
  stay : Step l now r r
  exposes :
      (tx_hash : ℕ)
      → r.state ≡ held
      → Step l now r
          (record r { state = exposed; tx_hash = tx_hash; exposed_at = now; updated_at = now })
  commits :
      (actual : ℕ)
      → r.state ≡ exposed
      → (actual ≤ r.maximum) ⊎ ((network_of l r.request.network).allow_fee_overrun ≡ true)
      → Step l now r (record r { state = committed; actual = actual; updated_at = now })
  releases : r.state ≡ held → Step l now r (record r { state = released; updated_at = now })

pub expose-Step :
    (l : Ledger) (tx_hash now : ℕ) (s : ReservationState) (r : Reservation) {r' : Reservation}
    → r.state ≡ s
    → expose tx_hash s r now ≡ ok r'
    → Step l now r r' × (r'.tx_hash ≡ tx_hash) × (r'.actual ≡ r.actual)
unfolding expose
expose-Step l tx_hash now held r e h = rw (← ok_injective h) (exposes tx_hash e, refl, refl)
expose-Step l tx_hash now exposed r e h =
    let (same, k) = fail_if-eq-ok (not (r.tx_hash == tx_hash)) state_conflict _ h in
    rw (← ok_injective k) (stay, ground arith, refl)
expose-Step l tx_hash now committed r e h =
    let (same, k) = fail_if-eq-ok (not (r.tx_hash == tx_hash)) state_conflict _ h in
    rw (← ok_injective k) (stay, ground arith, refl)
expose-Step l tx_hash now released r e h = cc
expose-Step l tx_hash now (other b) r e h = cc

pub settle-Step :
    (l : Ledger) (c : FinalizedCharge) (now : ℕ) (s : ReservationState) (r : Reservation)
    {r' : Reservation}
    → r.state ≡ s
    → settle l c s r now ≡ ok r'
    → Step l now r r' × (r'.state ≡ committed) × (r'.tx_hash ≡ c.tx_hash) × (r'.actual ≡ c.actual)
unfolding settle
settle-Step l c now exposed r e h =
    let (t, k) =
      fail_if-eq-ok
        (not (r.tx_hash == c.tx_hash)
          || (ltb r.maximum c.actual && not (network_of l r.request.network).allow_fee_overrun))
        state_conflict _ h in
    rw (← ok_injective k) (commits c.actual e (ground arith), refl, ground arith, refl)
settle-Step l c now committed r e h =
    let (t, k) =
      fail_if-eq-ok (not (r.tx_hash == c.tx_hash) || not (r.actual == c.actual)) state_conflict _
        h in
    rw (← ok_injective k) (stay, e, ground arith, ground arith)
settle-Step l c now held r e h = cc
settle-Step l c now released r e h = cc
settle-Step l c now (other b) r e h = cc

pub release-Step :
    (l : Ledger) (now : ℕ) (s : ReservationState) (r : Reservation) {r' : Reservation}
    → r.state ≡ s
    → release s r now ≡ ok r'
    → Step l now r r' × (r'.state ≡ released) × (r'.tx_hash ≡ r.tx_hash) × (r'.actual ≡ r.actual)
unfolding release
release-Step l now held r e h = rw (← ok_injective h) (releases e, refl, refl, refl)
release-Step l now released r e h = rw (← ok_injective h) (stay, e, refl, refl)
release-Step l now exposed r e h = cc
release-Step l now committed r e h = cc
release-Step l now (other b) r e h = cc

-- A step keeps the id, the request and the price; a committed reservation does not change.
pub Step-keeps :
    (l : Ledger) (now : ℕ) {r r' : Reservation}
    → Step l now r r'
    → (r'.id ≡ r.id)
      × (r'.request ≡ r.request)
      × (r'.maximum ≡ r.maximum)
      × (r'.created_at ≡ r.created_at)
Step-keeps l now stay = (refl, refl, refl, refl)
Step-keeps l now (exposes h e) = (refl, refl, refl, refl)
Step-keeps l now (commits a e b) = (refl, refl, refl, refl)
Step-keeps l now (releases e) = (refl, refl, refl, refl)

pub Step-committed :
    (l : Ledger) (now : ℕ) {r r' : Reservation} → Step l now r r' → r.state ≡ committed → r' ≡ r
Step-committed l now stay c = refl
Step-committed l now (exposes h e) c = cc
Step-committed l now (commits a e b) c = cc
Step-committed l now (releases e) c = cc
