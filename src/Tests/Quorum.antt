-- ===== src/Tests/Quorum.antt =====
-- Two providers that agree.
use guard_daemon.Prelude.{
  ℕ, pos, ◌<◌, ◌≤◌, ◌≡◌, refl, ap, ◌∙◌, true, false, Option, none, some, List, [], ◌∷◌, arith,
  be_bytes,
}
use mathlib.Core.Path.{subst}
use guard_daemon.Rpc.Logs.Encoding.{InRange, AllLogs}
use mathlib.Core.Option.{some-injective}
use guard_daemon.External.{Header, Log, Receipt}
use guard_daemon.Rpc.{BlockRef, ok}
use guard_daemon.Rpc.Collect.{
  Event, arrived, caller_done, phase_expired, Round, Answered, collect_from, collect_providers,
  set_at, none_of,
}
use guard_daemon.Rpc.Agree.{agree, agreed_value}
use guard_daemon.Rpc.Headers.{uint64_of, block_ref_from_header, header, scan_heads, common_head}
use guard_daemon.Rpc.Headers.Heads.{header-Answered}
use guard_daemon.Rpc.Logs.Agreed.{Asks, filter_logs-Answered}
use guard_daemon.Rpc.Logs.Listed.{Listed}
use guard_daemon.Rpc.Logs.{
  LogFilterAnchor, FilterQuery, explicit_filter_anchor, encode_log, normalize_logs, equal_encoding,
  validate_log, keep_logs, sort_logs, insert_log, find_seen, filter_logs,
}
use guard_daemon.Rpc.Receipts.Canonical.{receipt-Answered}
use guard_daemon.Rpc.Receipts.{
  is_malformed, validate_logs, validate_receipt, read_receipt, canonical_receipt, receipt_below,
  receipt,
}
use guard_daemon.Rpc.Identities.{
  Provider, member, reader_member, check_identities, check_readers, validate_provider_identities,
  validate_providers, Distinct, new_quorum_reader, new_quorum_reader-Distinct,
}
use guard_daemon.Tests.World.{world}

-- The round in which each provider answers the value in its turn.
abbrev same_answers : {A : Type 0} → A → Round A
same_answers a = record {
  event =
      λ n. arrived (record { index = n; value = some a; failure = none; context_failure = none });
  parent = λ n. none;
}

abbrev head : Header
head = record {
  number = some (pos 100);
  difficulty = some (pos 0);
  has_extra = true;
  gas_used = 1;
  gas_limit = 2;
  base_fee = none;
  is_sane = true;
  hash = 8;
  parent_hash = 7;
  time = 6;
}

abbrev head_ref : BlockRef
head_ref = record { number = 100; hash = 8; parent_hash = 7; timestamp = 6 }

header_agreed : header 2 100 (same_answers head) ≡ ok head_ref
unfolding header agreed_value agree collect_providers collect_from set_at none_of
    block_ref_from_header
header_agreed = refl

header-Answered_example :
    (head_ref.number ≡ 100)
    × ((j : ℕ)
        → j < 2
        → (h : Header) × Answered (same_answers head) j h
          × (block_ref_from_header (some 100) (some h) ≡ ok head_ref))
header-Answered_example = header-Answered 2 100 (same_answers head) (omega arith) header_agreed

event_value : {A : Type 0} → Event A → Option A
event_value (arrived r) = r.value
event_value (caller_done e) = none
event_value phase_expired = none

heads_hashed : (j : ℕ) (h : Header) → Answered (same_answers head) j h → h.hash ≡ 0 → ⊥
unfolding event_value
heads_hashed j h a zero_hash =
    let same : head ≡ h = some-injective head h (ap event_value a.received ∙ a.gave) in
    let eight : 8 ≡ 0 = ap (λ (h : Header). h.hash) same ∙ zero_hash in omega (arith, eight)

abbrev mined : Receipt
mined = record {
  post_state = [];
  status = 1;
  cumulative_gas_used = 30000;
  bloom = 0;
  logs = some [];
  tx_hash = 7;
  gas_used = 21000;
  effective_gas_price = some (pos 3);
  blob_gas_price = none;
  block_hash = 8;
  block_number = some (pos 100);
  transaction_index = 0;
}

receipt_agreed :
    receipt ⦃x = world⦄ 2 7
      (same_answers head)
      (λ n. same_answers head)
      (same_answers mined)
      (λ n. same_answers head)
    ≡ ok mined
unfolding receipt receipt_below canonical_receipt read_receipt validate_receipt is_malformed
    validate_logs header common_head scan_heads agreed_value agree collect_providers collect_from
    set_at none_of block_ref_from_header
receipt_agreed = refl

receipt-Answered_example :
    (mined.tx_hash ≡ 7)
    × ((number : ℕ) × (uint64_of (some (pos 100)) ≡ some number)
        × ((j : ℕ)
            → j < 2
            → ((answer : Receipt) × Answered (same_answers mined) j answer
                × (world.marshal_receipt answer ≡ world.marshal_receipt mined))
              × ((h : Header) × Answered (same_answers head) j h × (h.hash ≡ 8))
              × ((head_of : Header) × Answered (same_answers head) j head_of
                  × ((ref : BlockRef) × (block_ref_from_header none (some head_of) ≡ ok ref)
                      × (number ≤ ref.number)))))
receipt-Answered_example =
    receipt-Answered ⦃x = world⦄ 2 7 (same_answers head) (λ n. same_answers head)
      (same_answers mined) (λ n. same_answers head) (omega arith) heads_hashed receipt_agreed

abbrev transfer : Log
transfer = record {
  address = 5;
  topics = some (1 ∷ []);
  data_field = some (2 ∷ []);
  block_number = 100;
  tx_hash = 7;
  tx_index = 0;
  block_hash = 8;
  block_timestamp = 6;
  index = 1;
  removed = false;
}

abbrev hundred : FilterQuery
hundred = record { block_hash = none; from_block = some (pos 100); to_block = some (pos 100) }

transfer-InRange : InRange transfer
transfer-InRange = record {
  address = omega arith;
  words_fit = (omega arith, tt);
  block_number = omega arith;
  tx_hash = omega arith;
  tx_index = omega arith;
  block_hash = omega arith;
  block_timestamp = omega arith;
  index = omega arith;
}

transfers-InRange :
    (j : ℕ) (answer : List Log)
    → Answered (same_answers (transfer ∷ transfer ∷ [])) j answer
    → AllLogs InRange answer
unfolding event_value
transfers-InRange j answer a =
    subst (AllLogs InRange)
      (some-injective (transfer ∷ transfer ∷ []) answer (ap event_value a.received ∙ a.gave))
      (transfer-InRange, (transfer-InRange, tt))

-- Each provider gives the log twice.
logs_agreed : filter_logs 2 hundred (same_answers (transfer ∷ transfer ∷ [])) ≡ ok (transfer ∷ [])
unfolding filter_logs explicit_filter_anchor normalize_logs keep_logs sort_logs insert_log find_seen
    validate_log encode_log equal_encoding agreed_value agree collect_providers collect_from set_at
    none_of be_bytes
logs_agreed = refl

filter_logs-Answered_example :
    (anchor : LogFilterAnchor) × Asks hundred anchor
    × ((j : ℕ)
        → j < 2
        → (answer : List Log) × Answered (same_answers (transfer ∷ transfer ∷ [])) j answer
          × Listed anchor answer (transfer ∷ []))
filter_logs-Answered_example =
    filter_logs-Answered 2 hundred (same_answers (transfer ∷ transfer ∷ [])) (omega arith)
      transfers-InRange logs_agreed

abbrev pair_of_providers : List Provider
pair_of_providers =
    record {
      identity = record { id = 1 ∷ []; fingerprint = 2 ∷ []; trust_domain = 3 ∷ [] };
      reader = some 10;
      has_close = true;
    }
    ∷ record {
      identity = record { id = 4 ∷ []; fingerprint = 5 ∷ []; trust_domain = 6 ∷ [] };
      reader = some 11;
      has_close = true;
    }
    ∷ []

reader_made :
    new_quorum_reader ⦃x = world⦄ pair_of_providers (pos 1)
    ≡ ok (record { providers = pair_of_providers; timeout = 1; is_closed = false })
unfolding new_quorum_reader validate_providers validate_provider_identities check_identities
    check_readers member reader_member
reader_made = refl

new_quorum_reader-Distinct_example :
    (pair_of_providers ≡ pair_of_providers)
    × (2 ≤ 2)
    × Distinct ((1 ∷ []) ∷ (4 ∷ []) ∷ [])
    × Distinct ((2 ∷ []) ∷ (5 ∷ []) ∷ [])
    × Distinct ((3 ∷ []) ∷ (6 ∷ []) ∷ [])
new_quorum_reader-Distinct_example =
    new_quorum_reader-Distinct ⦃x = world⦄ pair_of_providers (pos 1) reader_made
