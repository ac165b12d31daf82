-- ===== src/Rpc/Logs.antt =====
-- Logs (`FilterLogs`, `explicitFilterAnchor`, `normalizeLogs`, `validateLog`, `cloneLog`, `encodeLog`
-- and `equalEncoding`). What a query asks for beside its blocks goes to the providers as it is.
pub mod Encoding
pub mod Order
pub mod Contents
pub mod Listed
pub mod Agreed
use guard_daemon.Prelude.{
  ℕ, ℤ, ◌+◌, ◌<◌, ◌≡◌, refl, sym, ap, ◌∙◌, ◌⊎◌, inl, inr, Bool, true, false, not, ◌&&◌, ◌||◌,
  Option, none, some, List, [], ◌∷◌, ◌++◌, map, Bytes, length, be_bytes, bytes_eq, bytes_eq→eq,
  bytes_lt, ltb, ◌==◌, if◌then◌else◌, arith,
}
use guard_daemon.External.{Log}
use guard_daemon.Rpc.{
  QuorumError, Answer, ok, err, ◌>>=◌, ◌>>◌, fail_if, >>=-eq-ok, ok_injective, malformed_response,
  invalid_filter_query, max_logs_per_response, max_topics_per_log, max_log_data_bytes,
}
use guard_daemon.Rpc.Collect.{Round, Answered}
use guard_daemon.Rpc.Agree.{agreed_value, agreed_value-Answered}
use guard_daemon.Rpc.Headers.{uint64_of, value_or}

pub record LogFilterAnchor : Type 0 where
  pub from : ℕ
  pub to : ℕ
  pub block_hash : Option ℕ

-- The blocks of an `ethereum.FilterQuery`.
pub record FilterQuery : Type 0 where
  pub block_hash : Option ℕ
  pub from_block : Option ℤ
  pub to_block : Option ℤ

abbrev pub is_set {ℓ} : {A : Type ℓ} → Option A → Bool
is_set none = false
is_set (some _) = true

unfoldable pub explicit_filter_anchor : FilterQuery → Answer LogFilterAnchor
explicit_filter_anchor q = elim q.block_hash [
  | some hash ↦
      fail_if (is_set q.from_block || is_set q.to_block || hash == 0) invalid_filter_query
      >> ok (record { from = 0; to = 0; block_hash = some hash })
  | none ↦ elim (uint64_of q.from_block) [
    | none ↦ err invalid_filter_query
    | some from ↦ elim (uint64_of q.to_block) [
      | none ↦ err invalid_filter_query
      | some to ↦
          fail_if (ltb to from) invalid_filter_query
          >> ok (record { from = from; to = to; block_hash = none })
    ]
  ]
]

-- A slice that is nil, or longer than the bound.
abbrev exceeds {ℓ} : {A : Type ℓ} → ℕ → Option (List A) → Bool
exceeds bound none = true
exceeds bound (some xs) = ltb bound (length xs)

abbrev outside : LogFilterAnchor → Log → Bool
outside anchor log = elim anchor.block_hash [
  | some hash ↦ not (log.block_hash == hash)
  | none ↦ ltb log.block_number anchor.from || ltb anchor.to log.block_number
]

unfoldable pub validate_log : Log → LogFilterAnchor → Answer (Unit {0})
validate_log log anchor = do
  fail_if
      (log.removed
        || log.block_hash == 0
        || log.tx_hash == 0
        || exceeds max_topics_per_log log.topics
        || exceeds max_log_data_bytes log.data_field)
      malformed_response
  fail_if (outside anchor log) malformed_response

abbrev pub clone_log : Log → Log
clone_log log = record log {
  topics = some (value_or [] log.topics);
  data_field = some (value_or [] log.data_field);
}

-- The 32-byte words of a list, one after the other.
abbrev pub words : List ℕ → Bytes
words [] = []
words (t ∷ ts) = be_bytes 32 t ++ words ts

unfoldable pub encode_log : Log → Bytes
encode_log log =
    let topics = value_or [] log.topics in
    let data_field = value_or [] log.data_field in
    be_bytes 20 log.address
    ++ be_bytes 8 (length topics)
    ++ words topics
    ++ be_bytes 8 (length data_field)
    ++ data_field
    ++ be_bytes 8 log.block_number
    ++ be_bytes 32 log.tx_hash
    ++ be_bytes 8 log.tx_index
    ++ be_bytes 32 log.block_hash
    ++ be_bytes 8 log.block_timestamp
    ++ be_bytes 8 log.index
    ++ (0 ∷ [])

pub record LogIdentity : Type 0 where
  pub block_hash : ℕ
  pub transaction_hash : ℕ
  pub log_index : ℕ

abbrev pub log_identity : Log → LogIdentity
log_identity log = record {
  block_hash = log.block_hash;
  transaction_hash = log.tx_hash;
  log_index = log.index;
}

abbrev pub same_identity : LogIdentity → LogIdentity → Bool
same_identity a b =
    a.block_hash == b.block_hash
    && a.transaction_hash == b.transaction_hash
    && a.log_index == b.log_index

-- The map `seen`.
unfoldable pub find_seen : LogIdentity → List (LogIdentity × Bytes) → Option Bytes
find_seen id [] = none
find_seen id ((i, encoded) ∷ seen) =
    let rest = find_seen id seen in if same_identity id i then some encoded else rest

unfoldable pub keep_logs :
    LogFilterAnchor → List (LogIdentity × Bytes) → List Log → Answer (List Log)
unfolding validate_log encode_log find_seen
keep_logs anchor seen [] = ok []
keep_logs anchor seen (log ∷ logs) =
    validate_log log anchor >> elim (find_seen (log_identity log) seen) [
      | some previous ↦
          fail_if (not (bytes_eq previous (encode_log (clone_log log)))) malformed_response
          >> keep_logs anchor seen logs
      | none ↦
          keep_logs anchor ((log_identity log, encode_log (clone_log log)) ∷ seen) logs >>= λ kept.
          ok (clone_log log ∷ kept)
    ]

log_before : Log → Log → Bool
log_before a b =
    if not (a.block_number == b.block_number)
    then ltb a.block_number b.block_number
    else if not (a.tx_index == b.tx_index)
    then ltb a.tx_index b.tx_index
    else if not (a.index == b.index)
    then ltb a.index b.index
    else bytes_lt (encode_log a) (encode_log b)

unfoldable pub insert_log : Log → List Log → List Log
unfolding log_before
insert_log l [] = l ∷ []
insert_log l (m ∷ ms) =
    let rest = insert_log l ms in if log_before m l then m ∷ rest else l ∷ m ∷ ms

unfoldable pub sort_logs : List Log → List Log
unfolding insert_log
sort_logs [] = []
sort_logs (l ∷ ls) = insert_log l (sort_logs ls)

unfoldable pub normalize_logs : LogFilterAnchor → Option (List Log) → Answer (List Log × List Bytes)
unfolding keep_logs sort_logs
normalize_logs anchor none = err malformed_response
normalize_logs anchor (some logs) = do
  fail_if (ltb max_logs_per_response (length logs)) malformed_response
  kept ← keep_logs anchor [] logs
  ok (sort_logs kept, map encode_log (sort_logs kept))

unfoldable pub equal_encoding : List Bytes → List Bytes → Bool
equal_encoding [] [] = true
equal_encoding [] (y ∷ ys) = false
equal_encoding (x ∷ xs) [] = false
equal_encoding (x ∷ xs) (y ∷ ys) = bytes_eq x y && equal_encoding xs ys

abbrev pub logs_of : Option (List Log × List Bytes) → List Log
logs_of none = []
logs_of (some (logs, encoding)) = logs

unfoldable pub filter_logs : ℕ → FilterQuery → Round (List Log) → Answer (List Log)
unfolding explicit_filter_anchor
filter_logs providers query round = do
  anchor ← explicit_filter_anchor query
  agreed ← agreed_value (normalize_logs anchor) (λ a b. equal_encoding a.1 b.1) providers round
  ok (logs_of agreed)
