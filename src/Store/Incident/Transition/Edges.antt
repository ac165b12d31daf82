-- ===== src/Store/Incident/Transition/Edges.antt =====
-- What a permitted transition of an incident keeps, and the diagram of the statuses.
use guard_daemon.Prelude.{
  ℕ, ◌+◌, ◌≤◌, ◌≡◌, ◌⊎◌, inl, inr, Bool, true, false, ◌||◌, arith, length, bytes_eq→eq, ◌==◌,
  if◌then◌else◌, ◌∙◌, Bool-cases, sym,
}
use guard_daemon.Store.Incident.{
  RescueStatus, pending, prepared, signed, broadcast, retryable, ambiguous, exhausted, failed,
  RescueIncident, status_is, valid_rescue_status, is_terminal_rescue_status,
  is_receipt_terminal_status, same_rescue_identity, same_rescue_preparation,
  same_signed_rescue_operation,
}
use guard_daemon.Store.Incident.Transition.{
  valid_receipt_terminal_transition, prepared_follows, retryable_follows, status_follows,
  valid_rescue_transition,
}

-- The diagram of the statuses.
infix 40 ◌⟶◌ ◌⟶*◌
pub data ◌⟶◌ : RescueStatus → RescueStatus → Type 0 where
  prepare : pending ⟶ prepared
  postpone : pending ⟶ retryable
  sign : prepared ⟶ signed
  put_off : prepared ⟶ retryable
  exhaust : prepared ⟶ exhausted
  fail : prepared ⟶ failed
  send : signed ⟶ broadcast
  doubt_signed : signed ⟶ ambiguous
  doubt : broadcast ⟶ ambiguous
  retry : retryable ⟶ prepared
  put_off_again : retryable ⟶ retryable
  give_up : retryable ⟶ exhausted
  fail_retry : retryable ⟶ failed
  resend : ambiguous ⟶ broadcast
  still_doubt : ambiguous ⟶ ambiguous
  receipt_of_broadcast : {b : RescueStatus} → is_receipt_terminal_status b ≡ true → broadcast ⟶ b
  receipt_of_ambiguous : {b : RescueStatus} → is_receipt_terminal_status b ≡ true → ambiguous ⟶ b

pub data ◌⟶*◌ : RescueStatus → RescueStatus → Type 0 where
  arrived : {s : RescueStatus} → s ⟶* s
  along : {s t u : RescueStatus} → s ⟶ t → t ⟶* u → s ⟶* u

ruleset edges = (
  prepare, postpone, sign, put_off, exhaust, fail, send, doubt_signed, doubt, retry, put_off_again,
  give_up, fail_retry, resend, still_doubt, receipt_of_broadcast, receipt_of_ambiguous,
)

pub status_follows-⟶ :
    (current next : RescueIncident)
    → valid_rescue_status next.status ≡ true
    → status_follows current.status current next ≡ true
    → current.status ⟶ next.status
unfolding status_follows prepared_follows retryable_follows is_receipt_terminal_status
status_follows-⟶ current next v h = grind (arith, edges)

-- The fields that name an incident and its policy are those of the one before.
pub record SameIncident (i j : RescueIncident) : Type 0 where
  pub id : i.id ≡ j.id
  pub candidate : i.candidate ≡ j.candidate
  pub network : i.network ≡ j.network
  pub kind : i.kind ≡ j.kind
  pub asset : i.asset ≡ j.asset
  pub max_attempts : i.policy.max_attempts ≡ j.policy.max_attempts
  pub created_at : i.created_at ≡ j.created_at

pub SameIncident-trans :
    {i j k : RescueIncident} → SameIncident i j → SameIncident j k → SameIncident i k
SameIncident-trans a b = record {
  id = a.id ∙ b.id;
  candidate = a.candidate ∙ b.candidate;
  network = a.network ∙ b.network;
  kind = a.kind ∙ b.kind;
  asset = a.asset ∙ b.asset;
  max_attempts = a.max_attempts ∙ b.max_attempts;
  created_at = a.created_at ∙ b.created_at;
}

pub transition-SameIncident :
    (i j : RescueIncident) → valid_rescue_transition i j ≡ true → SameIncident i j
unfolding valid_rescue_transition same_rescue_identity
transition-SameIncident i j h = record {
  id = ground arith;
  candidate = ground arith;
  network = ground arith;
  kind = ground arith;
  asset = ground arith;
  max_attempts = ground arith;
  created_at = ground arith;
}

pub transition-updated_le :
    (i j : RescueIncident) → valid_rescue_transition i j ≡ true → i.updated_at ≤ j.updated_at
unfolding valid_rescue_transition
transition-updated_le i j h = ground arith

pub transition-⟶ :
    (i j : RescueIncident)
    → valid_rescue_status j.status ≡ true
    → valid_rescue_transition i j ≡ true
    → i.status ⟶ j.status
unfolding valid_rescue_transition
transition-⟶ i j v h = status_follows-⟶ i j v (ground arith)

-- The statuses of a transaction that may be on its way.
abbrev pub is_sent : RescueStatus → Bool
is_sent signed = true
is_sent broadcast = true
is_sent ambiguous = true
is_sent _ = false

-- The parts of an operation that its signature covers, and the bytes unless they are dropped.
pub record SameOperation (i j : RescueIncident) : Type 0 where
  pub attempts : i.attempts ≡ j.attempts
  pub sponsor_nonce : i.sponsor_nonce ≡ j.sponsor_nonce
  pub source_nonce : i.source_nonce ≡ j.source_nonce
  pub tx_hash : i.tx_hash ≡ j.tx_hash
  pub transaction :
      (i.signed_transaction ≡ j.signed_transaction) ⊎ (length j.signed_transaction ≡ 0)

signed_operation-SameOperation :
    (i j : RescueIncident) → same_signed_rescue_operation i j ≡ true → SameOperation i j
unfolding same_signed_rescue_operation same_rescue_preparation
signed_operation-SameOperation i j h = record {
  attempts = ground arith;
  sponsor_nonce = ground arith;
  source_nonce = ground arith;
  tx_hash = ground arith;
  transaction = inl (bytes_eq→eq i.signed_transaction j.signed_transaction (ground arith));
}

receipt-SameOperation :
    (i j : RescueIncident) → valid_receipt_terminal_transition i j ≡ true → SameOperation i j
unfolding valid_receipt_terminal_transition same_rescue_preparation
receipt-SameOperation i j h = record {
  attempts = ground arith;
  sponsor_nonce = ground arith;
  source_nonce = ground arith;
  tx_hash = ground arith;
  transaction = elim (Bool-cases (length j.signed_transaction == 0)) [
    | inl e ↦ inr (ground arith)
    | inr e ↦ inl (sym (bytes_eq→eq j.signed_transaction i.signed_transaction (ground arith)))
  ];
}

sent-cases :
    (i j : RescueIncident)
    → is_sent i.status ≡ true
    → status_follows i.status i j ≡ true
    → (same_signed_rescue_operation i j ≡ true) ⊎ (valid_receipt_terminal_transition i j ≡ true)
unfolding status_follows
sent-cases i j s h = ground arith

-- The status after a transition of an operation that was sent is sent or terminal.
pub transition-sent :
    (i j : RescueIncident)
    → is_sent i.status ≡ true
    → valid_rescue_status j.status ≡ true
    → valid_rescue_transition i j ≡ true
    → SameOperation i j × ((is_sent j.status ≡ true) ⊎ (is_terminal_rescue_status j.status ≡ true))
unfolding valid_rescue_transition status_follows is_receipt_terminal_status
    is_terminal_rescue_status
transition-sent i j s v h = (
  elim (sent-cases i j s (ground arith)) [
    | inl e ↦ signed_operation-SameOperation i j e
    | inr e ↦ receipt-SameOperation i j e
  ],
  grind arith,
)

pub transition-terminal :
    (i j : RescueIncident)
    → is_terminal_rescue_status i.status ≡ true
    → valid_rescue_transition i j ≡ true
    → ⊥
unfolding valid_rescue_transition status_follows is_terminal_rescue_status
transition-terminal i j t h = grind arith

-- Whether a transition starts an attempt: it ends in a preparation, or puts the operation off before
-- one.
abbrev pub starts_attempt : RescueIncident → RescueIncident → ℕ
starts_attempt i j =
    if status_is i.status pending || status_is i.status retryable
    then (if status_is j.status prepared || status_is j.status retryable then 1 else 0)
    else 0

pub transition-attempts :
    (i j : RescueIncident)
    → (i.status ≡ pending → i.attempts ≡ 0)
    → valid_rescue_transition i j ≡ true
    → j.attempts ≡ starts_attempt i j + i.attempts
unfolding valid_rescue_transition status_follows retryable_follows same_signed_rescue_operation
    valid_receipt_terminal_transition
transition-attempts i j p h = grind arith
