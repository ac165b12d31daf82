-- ===== src/Rpc/Receipts.antt =====
-- Receipts (`Receipt`, `MinedReceipt`, `receiptBelow` and `validateReceipt`).
pub mod Canonical
use guard_daemon.Prelude.{
  ℕ, ℤ, pos, ◌^◌, ◌-◌, ◌<◌, ◌≤◌, ◌≡◌, refl, sym, ap, ◌∙◌, ◌⊎◌, inl, inr, Bool, true, false, not,
  ◌&&◌, ◌||◌, Option, none, some, List, [], ◌∷◌, Bytes, length, bytes_eq, bytes_eq→eq, ltb, ◌==◌,
  if◌then◌else◌, arith, fail_if-eq-ok, Option-cases,
}
use guard_daemon.External.{External, Header, Log, Receipt}
use guard_daemon.Rpc.{
  QuorumError, BlockRef, Answer, ok, err, ◌>>=◌, ◌>>◌, fail_if, >>=-eq-ok, ok_injective,
  malformed_response, quorum_mismatch, unfinalized_receipt, max_logs_per_response,
}
use guard_daemon.Rpc.Collect.{Round, Answered}
use guard_daemon.Rpc.Agree.{agreed_value, agreed_value-Answered}
use guard_daemon.Rpc.Headers.{uint64_of, is_negative, header, finalized, block_ref_from_header}
use guard_daemon.Rpc.Headers.Heads.{block_ref-hash, header-Answered, common_head-Answered}
use guard_daemon.Rpc.Logs.{validate_log}

-- The loop over the logs of a receipt of a block's number.
unfoldable pub validate_logs : Receipt → ℕ → ℕ → List (Option Log) → Answer (Unit {0})
validate_logs receipt transaction number [] = ok tt
validate_logs receipt transaction number (none ∷ logs) = err malformed_response
validate_logs receipt transaction number (some log ∷ logs) = do
  fail_if
      (not (log.block_number == number)
        || not (log.block_hash == receipt.block_hash)
        || not (log.tx_hash == transaction)
        || not (log.tx_index == receipt.transaction_index))
      malformed_response
  validate_log log (record { from = number; to = number; block_hash = none })
  validate_logs receipt transaction number logs

-- The fields of a receipt beside its number and its logs.
unfoldable pub is_malformed : Receipt → ℕ → Bool
is_malformed r transaction =
    not (r.tx_hash == transaction)
    || r.block_hash == 0
    || ltb 1 r.status
    || (not (length r.post_state == 0) && not (length r.post_state == 32))
    || (not (length r.post_state == 0) && not (r.status == 0))
    || ltb r.cumulative_gas_used r.gas_used
    || is_negative r.effective_gas_price
    || is_negative r.blob_gas_price

module _ ⦃x : External⦄ where
  unfoldable pub validate_receipt : Receipt → ℕ → Answer (Unit {0})
  unfolding validate_logs
  validate_receipt r transaction = elim (uint64_of r.block_number) [
    | none ↦ err malformed_response
    | some number ↦ elim r.logs [
      | none ↦ err malformed_response
      | some logs ↦ do
        fail_if (is_malformed r transaction || ltb max_logs_per_response (length logs))
            malformed_response
        validate_logs r transaction number logs
        fail_if (not (r.bloom == x.create_bloom r)) malformed_response
    ]
  ]

  -- What is compared of an answer: the receipt and its JSON.
  unfoldable pub read_receipt : ℕ → Option Receipt → Answer (Receipt × Bytes)
  read_receipt transaction none = err malformed_response
  read_receipt transaction (some r) =
      validate_receipt r transaction
      >> elim (x.marshal_receipt r) [ none ↦ err malformed_response | some json ↦ ok (r, json) ]

  -- A receipt that was agreed on, against the block of its number; a reader has two providers or more,
  -- so the loop leaves a receipt.
  unfoldable pub canonical_receipt :
      ℕ → ℕ → (ℕ → Round Header) → Option (Receipt × Bytes) → Answer Receipt
  canonical_receipt providers ceiling request none = err malformed_response
  canonical_receipt providers ceiling request (some (r, json)) = elim (uint64_of r.block_number) [
    | none ↦ err malformed_response
    | some number ↦ do
      fail_if (ltb ceiling number) unfinalized_receipt
      canonical ← header providers number (request number)
      fail_if (not (r.block_hash == canonical.hash)) quorum_mismatch
      ok r
  ]

  unfoldable pub receipt_below : ℕ → ℕ → ℕ → Round Receipt → (ℕ → Round Header) → Answer Receipt
  receipt_below providers transaction ceiling round request = do
    agreed ← agreed_value (read_receipt transaction) (λ a b. bytes_eq a.1 b.1) providers round
    canonical_receipt providers ceiling request agreed

  -- `Receipt`, whose first round asks for the finalized heads.
  unfoldable pub receipt :
      ℕ
      → ℕ
      → Round Header
      → (ℕ → Round Header)
      → Round Receipt
      → (ℕ → Round Header)
      → Answer Receipt
  receipt providers transaction heads head_request round request = do
    fail_if (transaction == 0) malformed_response
    final ← finalized providers heads head_request
    receipt_below providers transaction final.number round request

  unfoldable pub mined_receipt : ℕ → ℕ → Round Receipt → (ℕ → Round Header) → Answer Receipt
  mined_receipt providers transaction round request =
      fail_if (transaction == 0) malformed_response
      >> receipt_below providers transaction (2 ^ 64 - 1) round request
