-- ===== src/Rpc/Collect.antt =====
-- The collection of the providers' answers (`collectProviders` and `redactedProviderError`).
use guard_daemon.Prelude.{
  ℕ, zero, suc, ◌+◌, ◌≡◌, refl, ap, sym, ◌∙◌, ◌⊎◌, inl, inr, Bool, true, false, ◌||◌, Option, none,
  some, List, [], ◌∷◌, length, arith, if◌then◌else◌,
}
use mathlib.Core.Option.{some-injective}
use guard_daemon.Rpc.{
  QuorumError, Answer, ok, err, unavailable, unavailable_canceled, unavailable_deadline,
  ContextError, canceled, deadline_exceeded, BackendError, ok_injective,
}

module _ {ℓ} {A : Type ℓ} where
  -- Writing and reading a slice at an index.
  unfoldable pub set_at : ℕ → A → List A → List A
  set_at i a [] = []
  set_at zero a (x ∷ xs) = a ∷ xs
  set_at (suc i) a (x ∷ xs) = x ∷ set_at i a xs

  unfoldable pub nth : ℕ → List A → Option A
  nth i [] = none
  nth zero (x ∷ xs) = some x
  nth (suc i) (x ∷ xs) = nth i xs

  unfoldable pub none_of : ℕ → List (Option A)
  none_of zero = []
  none_of (suc n) = none ∷ none_of n

module _ {ℓ} {A : Type ℓ} where
  nth-set_at :
      (i j : ℕ) (a : A) (xs : List A)
      → (nth j (set_at i a xs) ≡ nth j xs) ⊎ ((i ≡ j) × (nth j (set_at i a xs) ≡ some a))
  unfolding nth set_at
  nth-set_at i j a [] = inl refl
  nth-set_at zero zero a (x ∷ xs) = inr (refl, refl)
  nth-set_at zero (suc j) a (x ∷ xs) = inl refl
  nth-set_at (suc i) zero a (x ∷ xs) = inl refl
  nth-set_at (suc i) (suc j) a (x ∷ xs) = elim (nth-set_at i j a xs) [
    | inl e ↦ inl e
    | inr (same, e) ↦ inr (ap suc same, e)
  ]

  length-set_at : (i : ℕ) (a : A) (xs : List A) → length (set_at i a xs) ≡ length xs
  unfolding set_at
  length-set_at i a [] = refl
  length-set_at zero a (x ∷ xs) = refl
  length-set_at (suc i) a (x ∷ xs) = ap suc (length-set_at i a xs)

pub record ProviderResult {ℓ} (A : Type ℓ) : Type ℓ where
  pub index : ℕ
  pub value : Option A
  pub failure : Option BackendError
  pub context_failure : Option ContextError

-- What one turn of the loop receives: a result, the end of the caller's context, or the timer.
pub data Event {ℓ} (A : Type ℓ) : Type ℓ where
  arrived : ProviderResult A → Event A
  caller_done : ContextError → Event A
  phase_expired : Event A

-- The events of a round, and what `ctx.Err()` is when each is handled.
pub record Round {ℓ} (A : Type ℓ) : Type ℓ where
  pub event : ℕ → Event A
  pub parent : ℕ → Option ContextError

joined : ContextError → QuorumError
joined canceled = unavailable_canceled
joined deadline_exceeded = unavailable_deadline

is_deadline_error : Option ContextError → Bool
is_deadline_error (some deadline_exceeded) = true
is_deadline_error _ = false

is_canceled_error : Option ContextError → Bool
is_canceled_error (some canceled) = true
is_canceled_error _ = false

backend_deadline : Option BackendError → Bool
backend_deadline none = false
backend_deadline (some e) = e.is_deadline

backend_canceled : Option BackendError → Bool
backend_canceled none = false
backend_canceled (some e) = e.is_canceled

pub redacted_provider_error :
    Option ContextError → Option BackendError → Option ContextError → QuorumError
unfolding joined is_deadline_error is_canceled_error backend_deadline backend_canceled
redacted_provider_error (some parent) backend call = joined parent
redacted_provider_error none backend call =
    if is_deadline_error call || backend_deadline backend
    then unavailable_deadline
    else if is_canceled_error call || backend_canceled backend
    then unavailable_canceled
    else unavailable

is_some {ℓ} : {A : Type ℓ} → Option A → Bool
is_some none = false
is_some (some _) = true

module _ {ℓ} {A : Type ℓ} where
  -- `count` turns of the loop, from the `k`-th event on.
  unfoldable pub collect_from : Round A → ℕ → ℕ → List (Option A) → Answer (List (Option A))
  unfolding is_some redacted_provider_error
  collect_from round zero k values = ok values
  collect_from round (suc count) k values = elim (round.event k) [
    | arrived r ↦
        let rest = collect_from round count (k + 1) (set_at r.index r.value values) in
        if is_some r.failure || is_some r.context_failure
        then err (redacted_provider_error (round.parent k) r.failure r.context_failure)
        else rest
    | caller_done e ↦ err (redacted_provider_error (round.parent k) none (some e))
    | phase_expired ↦ err (redacted_provider_error (round.parent k) none (some deadline_exceeded))
  ]

  -- A round of a number of providers.
  unfoldable pub collect_providers : ℕ → Round A → Answer (List (Option A))
  collect_providers providers round = collect_from round providers 0 (none_of providers)

  -- The provider of an index answered with the value, with no error.
  pub record Answered (round : Round A) (index : ℕ) (value : A) : Type ℓ where
    pub turn : ℕ
    pub result : ProviderResult A
    pub received : round.event turn ≡ arrived result
    pub by : result.index ≡ index
    pub gave : result.value ≡ some value
    pub no_failure : result.failure ≡ none
    pub no_context_failure : result.context_failure ≡ none

  nth-none_of : (n j : ℕ) (v : Option A) → nth j (none_of n) ≡ some v → v ≡ none
  unfolding nth none_of
  nth-none_of zero j v h = absurd (ground arith)
  nth-none_of (suc n) zero v h = sym (some-injective none v h)
  nth-none_of (suc n) (suc j) v h = nth-none_of n j v h

  length-none_of : (n : ℕ) (values : List (Option A)) → values ≡ none_of n → length values ≡ n
  unfolding none_of
  length-none_of zero values e = rw e refl
  length-none_of (suc n) values e = rw e (ap suc (length-none_of n (none_of n) refl))

  Event-cases :
      (e : Event A)
      → ((r : ProviderResult A) × (e ≡ arrived r))
        ⊎ ((c : ContextError) × (e ≡ caller_done c))
        ⊎ (e ≡ phase_expired)
  Event-cases (arrived r) = inl (r, refl)
  Event-cases (caller_done c) = inr (inl (c, refl))
  Event-cases phase_expired = inr (inr refl)

  -- A turn that the loop passes is an answer without an error.
  collect_from-arrived :
      (round : Round A) (count k : ℕ) (values : List (Option A)) {after : List (Option A)}
      → collect_from round (suc count) k values ≡ ok after
      → (r : ProviderResult A) × (round.event k ≡ arrived r)
        × (r.failure ≡ none)
        × (r.context_failure ≡ none)
        × (collect_from round count (k + 1) (set_at r.index r.value values) ≡ ok after)
  unfolding collect_from is_some
  collect_from-arrived round count k values {after} h = elim (Event-cases (round.event k)) [
    | inl (r, q) ↦
        let turn : (if is_some r.failure || is_some r.context_failure
              then err (redacted_provider_error (round.parent k) r.failure r.context_failure)
              else collect_from round count (k + 1) (set_at r.index r.value values))
            ≡ ok after =
          rw (collect_from, q) at h in
        (r, q, ground arith, ground arith, ground arith)
    | inr (inl (c, q)) ↦ absurd (err≢ok (rw (collect_from, q) at h))
    | inr (inr q) ↦ absurd (err≢ok (rw (collect_from, q) at h))
  ]
    where
      err≢ok :
          {e : QuorumError} {xs : List (Option A)}
          → ◌≡◌ {A = Answer (List (Option A))} (err e) (ok xs)
          → ⊥
      err≢ok h = cc

  -- What a loop that ends without an error leaves: as many slots, each with what it held before or
  -- with what its provider answered.
  collect_from-Answered :
      (round : Round A) (count k : ℕ) (values : List (Option A)) {after : List (Option A)}
      → collect_from round count k values ≡ ok after
      → (length after ≡ length values)
        × ((j : ℕ) (v : A)
            → nth j after ≡ some (some v)
            → (nth j values ≡ some (some v)) ⊎ Answered round j v)
  unfolding collect_from
  collect_from-Answered round zero k values {after} h =
      let same : values ≡ after = ok_injective {E = QuorumError} h in
      (ap length (sym same), λ j v q. inl (ap (nth j) same ∙ q))
  collect_from-Answered round (suc count) k values {after} h =
      let (r, received, f, c, rest) = collect_from-arrived round count k values h in
      let (long, answers) =
        collect_from-Answered round count (k + 1) (set_at r.index r.value values) rest in
      (
        long ∙ length-set_at r.index r.value values,
        λ j v q. elim (answers j v q) [
          | inr answered ↦ inr answered
          | inl before ↦ elim (nth-set_at r.index j r.value values) [
            | inl unchanged ↦ inl (sym unchanged ∙ before)
            | inr (by, written) ↦ inr (record {
              turn = k;
              result = r;
              received = received;
              by = by;
              gave = some-injective r.value (some v) (sym written ∙ before);
              no_failure = f;
              no_context_failure = c;
            })
          ]
        ],
      )

  -- A round that ends without an error has a slot for each provider, and what is in it is what the
  -- provider answered.
  pub collect_providers-Answered :
      (providers : ℕ) (round : Round A) {values : List (Option A)}
      → collect_providers providers round ≡ ok values
      → (length values ≡ providers)
        × ((j : ℕ) (v : A) → nth j values ≡ some (some v) → Answered round j v)
  unfolding collect_providers
  collect_providers-Answered providers round h =
      let (long, answers) = collect_from-Answered round providers 0 (none_of providers) h in
      (
        long ∙ length-none_of providers (none_of providers) refl,
        λ j v q. elim (answers j v q) [
          | inr answered ↦ answered
          | inl before ↦ absurd (none≢some (sym (nth-none_of providers j (some v) before)))
        ],
      )
    where
      none≢some : {v : A} → ◌≡◌ {A = Option A} none (some v) → ⊥
      none≢some h = cc
