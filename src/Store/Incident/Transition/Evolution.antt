-- ===== src/Store/Incident/Transition/Evolution.antt =====
-- What a chain of permitted transitions keeps.
use guard_daemon.Prelude.{ℕ, ◌+◌, ◌≤◌, ◌≡◌, refl, sym, ap, ◌∙◌, inl, inr, true, arith, length}
use guard_daemon.External.{External}
use guard_daemon.Store.Types.{ok}
use guard_daemon.Store.Incident.{RescueIncident, pending, is_terminal_rescue_status}
use guard_daemon.Store.Incident.Valid.{validate_rescue_incident, valid_bounds, is_untouched}
use guard_daemon.Store.Incident.Codec.RoundTrip.{validate-Readable}
use guard_daemon.Store.Incident.Transition.{valid_rescue_transition}
use guard_daemon.Store.Incident.Transition.Edges.{
  ◌⟶*◌, arrived, along, SameIncident, SameIncident-trans, transition-SameIncident, transition-⟶,
  is_sent, SameOperation, transition-sent, transition-terminal, starts_attempt, transition-attempts,
  transition-updated_le,
}

module _ ⦃x : External⦄ where
  infix 40 ◌⇝*◌
  -- A chain of permitted transitions to incidents that are valid.
  pub data ◌⇝*◌ : RescueIncident → RescueIncident → Type 0 where
    stay : {i : RescueIncident} → i ⇝* i
    step :
        {i j k : RescueIncident}
        → valid_rescue_transition i j ≡ true
        → validate_rescue_incident j ≡ ok tt
        → j ⇝* k
        → i ⇝* k

  -- The attempts that a chain starts.
  unfoldable pub attempts_started : {i j : RescueIncident} → i ⇝* j → ℕ
  attempts_started stay = 0
  attempts_started {i} (step {j = j} t v c) = starts_attempt i j + attempts_started c

  pub ⇝*-⟶* : (i j : RescueIncident) → i ⇝* j → i.status ⟶* j.status
  ⇝*-⟶* i _ stay = arrived
  ⇝*-⟶* i k (step {j = j} t v c) =
      along (transition-⟶ i j (validate-Readable j v).status t) (⇝*-⟶* j k c)

  pub ⇝*-SameIncident : (i j : RescueIncident) → i ⇝* j → SameIncident i j
  ⇝*-SameIncident i _ stay = record {
    id = refl;
    candidate = refl;
    network = refl;
    kind = refl;
    asset = refl;
    max_attempts = refl;
    created_at = refl;
  }
  ⇝*-SameIncident i k (step {j = j} t v c) =
      SameIncident-trans (transition-SameIncident i j t) (⇝*-SameIncident j k c)

  pub ⇝*-updated_le : (i j : RescueIncident) → i ⇝* j → i.updated_at ≤ j.updated_at
  ⇝*-updated_le i _ stay = omega arith
  ⇝*-updated_le i k (step {j = j} t v c) =
      omega (arith, transition-updated_le i j t, ⇝*-updated_le j k c)

  -- A finished operation is left as it is.
  pub ⇝*-terminal :
      (i j : RescueIncident) → is_terminal_rescue_status i.status ≡ true → i ⇝* j → i ≡ j
  ⇝*-terminal i _ f stay = refl
  ⇝*-terminal i k f (step {j = j} t v c) = absurd (transition-terminal i j f t)

  SameOperation-refl : (i : RescueIncident) → SameOperation i i
  SameOperation-refl i = record {
    attempts = refl;
    sponsor_nonce = refl;
    source_nonce = refl;
    tx_hash = refl;
    transaction = inl refl;
  }

  SameOperation-trans :
      (i j k : RescueIncident) → SameOperation i j → SameOperation j k → SameOperation i k
  SameOperation-trans i j k a b = record {
    attempts = a.attempts ∙ b.attempts;
    sponsor_nonce = a.sponsor_nonce ∙ b.sponsor_nonce;
    source_nonce = a.source_nonce ∙ b.source_nonce;
    tx_hash = a.tx_hash ∙ b.tx_hash;
    transaction = elim b.transaction [
      | inr gone ↦ inr gone
      | inl kept ↦ elim a.transaction [
        | inl same ↦ inl (same ∙ kept)
        | inr gone ↦ inr (sym (ap length kept) ∙ gone)
      ]
    ];
  }

  -- The operation that was sent stays the operation of the incident.
  pub ⇝*-sent : (i j : RescueIncident) → is_sent i.status ≡ true → i ⇝* j → SameOperation i j
  ⇝*-sent i _ s stay = SameOperation-refl i
  ⇝*-sent i k s (step {j = j} t v c) =
      let (same, next) = transition-sent i j s (validate-Readable j v).status t in
      elim next [
        | inl sent ↦ SameOperation-trans i j k same (⇝*-sent j k sent c)
        | inr finished ↦
            SameOperation-trans i j k same (rw (⇝*-terminal j k finished c) (SameOperation-refl k))
      ]

  validate-pending :
      (i : RescueIncident)
      → validate_rescue_incident i ≡ ok tt
      → i.status ≡ pending
      → i.attempts ≡ 0
  unfolding validate_rescue_incident is_untouched
  validate-pending i v p = ground arith

  validate-attempts_le :
      (i : RescueIncident) → validate_rescue_incident i ≡ ok tt → i.attempts ≤ i.policy.max_attempts
  unfolding validate_rescue_incident valid_bounds
  validate-attempts_le i v = ground arith

  -- A chain counts the attempts that it starts, and starts no more than the policy allows.
  pub ⇝*-attempts :
      (i j : RescueIncident) (c : i ⇝* j)
      → validate_rescue_incident i ≡ ok tt
      → (j.attempts ≡ attempts_started c + i.attempts)
        × (attempts_started c + i.attempts ≤ i.policy.max_attempts)
  unfolding attempts_started
  ⇝*-attempts i _ stay v = (omega arith, omega (arith, validate-attempts_le i v))
  ⇝*-attempts i k (step {j = j} t w c) v =
      let (counted, bounded) = ⇝*-attempts j k c w in
      let next = transition-attempts i j (validate-pending i v) t in
      let same = (transition-SameIncident i j t).max_attempts in
      (omega (arith, counted, next), omega (arith, bounded, next, same))
