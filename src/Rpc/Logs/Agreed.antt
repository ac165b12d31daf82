-- ===== src/Rpc/Logs/Agreed.antt =====
-- Logs that are returned are the logs that every provider answered.
use guard_daemon.Prelude.{
  ℕ, ℤ, pos, negsuc, ◌<◌, ◌≡◌, refl, sym, ap, ◌∙◌, ◌⊎◌, inl, inr, true, false, ◌||◌, ◌==◌,
  fail_if-eq-ok, Option-cases, Option, none, some, List, [], ◌∷◌, map, Bytes, length, bytes_eq,
  bytes_eq→eq, ltb, arith,
}
use mathlib.Core.Path.{subst}
use guard_daemon.External.{Log}
use guard_daemon.Rpc.Logs.Listed.{Listed, normalize_logs-Listed}
use guard_daemon.Rpc.{
  QuorumError, ok, ◌>>◌, fail_if, invalid_filter_query, >>=-eq-ok, ok_injective, malformed_response,
  max_logs_per_response,
}
use guard_daemon.Rpc.Headers.{uint64_of}
use guard_daemon.Rpc.Collect.{Round, Answered}
use guard_daemon.Rpc.Agree.{agreed_value, agreed_value-Answered}
use guard_daemon.Rpc.Logs.Encoding.{
  InRange, AllLogs, IsKept, normalize_logs-AllLogs, map-encode_log-injective,
}
use guard_daemon.Rpc.Logs.{
  LogFilterAnchor, FilterQuery, explicit_filter_anchor, encode_log, keep_logs, normalize_logs,
  equal_encoding, filter_logs, logs_of, is_set,
}

equal_encoding→eq : (xs ys : List Bytes) → equal_encoding xs ys ≡ true → xs ≡ ys
unfolding equal_encoding
equal_encoding→eq [] [] h = refl
equal_encoding→eq [] (y ∷ ys) h = absurd (ground arith)
equal_encoding→eq (x ∷ xs) [] h = absurd (ground arith)
equal_encoding→eq (x ∷ xs) (y ∷ ys) h =
    let heads : bytes_eq x y ≡ true = ground arith in
    let tails : equal_encoding xs ys ≡ true = ground arith in
    cc (bytes_eq→eq x y heads, equal_encoding→eq xs ys tails)

normalize_logs-encodes :
    (anchor : LogFilterAnchor) (answer : Option (List Log)) {a : List Log × List Bytes}
    → normalize_logs anchor answer ≡ ok a
    → a.1 ≡ map encode_log a.0
unfolding normalize_logs
normalize_logs-encodes anchor none e = absurd (ground arith)
normalize_logs-encodes anchor (some logs) e =
    let (_, _, e1) =
      >>=-eq-ok (fail_if (ltb max_logs_per_response (length logs)) malformed_response) _ e in
    let (kept, _, e2) = >>=-eq-ok (keep_logs anchor [] logs) _ e1 in
    let same = ok_injective {E = QuorumError} e2 in
    cc (
      same,
      ap (λ (t : List Log × List Bytes). t.0) same,
      ap (λ (t : List Log × List Bytes). t.1) same,
    )

-- Every provider's answer is read as the logs that are returned.
filter_logs-normalized :
    (providers : ℕ) (query : FilterQuery) (round : Round (List Log)) {logs : List Log}
    → 0 < providers
    → ((j : ℕ) (answer : List Log) → Answered round j answer → AllLogs InRange answer)
    → filter_logs providers query round ≡ ok logs
    → (anchor : LogFilterAnchor) × (explicit_filter_anchor query ≡ ok anchor)
      × ((j : ℕ)
          → j < providers
          → (answer : List Log) × Answered round j answer
            × ((b : List Log × List Bytes) × (normalize_logs anchor (some answer) ≡ ok b)
                × (b.0 ≡ logs)))
unfolding filter_logs normalize_logs
filter_logs-normalized providers query round {logs} p in_range e =
    let (anchor, found, e1) = >>=-eq-ok (explicit_filter_anchor query) _ e in
    let (o, agreed, e2) =
      >>=-eq-ok
        (agreed_value (normalize_logs anchor) (λ a b. equal_encoding a.1 b.1) providers round) _
        e1 in
    let (a, o_eq, (w, w_answered, w_reads), all) =
      agreed_value-Answered (normalize_logs anchor) (λ a b. equal_encoding a.1 b.1) providers round
        p (nil_refused anchor) agreed in
    let same : a.0 ≡ logs = ap logs_of (sym o_eq) ∙ ok_injective {E = QuorumError} e2 in
    let kept = normalize_logs-AllLogs anchor w (in_range 0 w w_answered) w_reads in
    let encodes = normalize_logs-encodes anchor (some w) w_reads in
    (anchor, found, λ (j : ℕ) (q : j < providers). reads a anchor same kept encodes (all j q))
  where
    nil_refused :
        (anchor : LogFilterAnchor) (b : List Log × List Bytes)
        → normalize_logs anchor none ≡ ok b
        → ⊥
    nil_refused anchor b h = absurd (ground arith)

    reads :
        {j : ℕ} (a : List Log × List Bytes) (anchor : LogFilterAnchor)
        → a.0 ≡ logs
        → AllLogs IsKept a.0
        → a.1 ≡ map encode_log a.0
        → (answer : List Log) × Answered round j answer
          × ((b : List Log × List Bytes) × (normalize_logs anchor (some answer) ≡ ok b)
              × ((a ≡ b) ⊎ (equal_encoding a.1 b.1 ≡ true)))
        → (answer : List Log) × Answered round j answer
          × ((b : List Log × List Bytes) × (normalize_logs anchor (some answer) ≡ ok b)
              × (b.0 ≡ logs))
    reads a anchor same kept encodes (answer, answered, (b, reading, inl r)) =
        (answer, answered, (b, reading, ap (λ (t : List Log × List Bytes). t.0) (sym r) ∙ same))
    reads {j} a anchor same kept encodes (answer, answered, (b, reading, inr r)) =
        let b_kept = normalize_logs-AllLogs anchor answer (in_range j answer answered) reading in
        let encodings : map encode_log b.0 ≡ map encode_log a.0 =
          sym (normalize_logs-encodes anchor (some answer) reading)
          ∙ sym (equal_encoding→eq a.1 b.1 r)
          ∙ encodes in
        (
          answer,
          answered,
          (b, reading, map-encode_log-injective b.0 a.0 b_kept kept encodings ∙ same),
        )

-- The anchor says what the query asks for: one block by its hash, or the blocks from one number to
-- another.
abbrev pub Asks : FilterQuery → LogFilterAnchor → Type 0
Asks query anchor = (query.block_hash ≡ anchor.block_hash) × (elim anchor.block_hash [
  | some hash ↦ (query.from_block ≡ none) × (query.to_block ≡ none)
  | none ↦ (query.from_block ≡ some (pos anchor.from)) × (query.to_block ≡ some (pos anchor.to))
])

uint64_of-eq-some : (o : Option ℤ) {n : ℕ} → uint64_of o ≡ some n → o ≡ some (pos n)
uint64_of-eq-some none h = absurd (ground arith)
uint64_of-eq-some (some (negsuc m)) h = absurd (ground arith)
uint64_of-eq-some (some (pos m)) {n} h =
    let same : m ≡ n = ground arith in ap (λ (k : ℕ). some (pos k)) same

explicit_filter_anchor-Asks :
    (query : FilterQuery) {anchor : LogFilterAnchor}
    → explicit_filter_anchor query ≡ ok anchor
    → Asks query anchor
unfolding explicit_filter_anchor
explicit_filter_anchor-Asks query {anchor} e = elim (Option-cases query.block_hash) [
  | inr (hash, h) ↦
      let ill = is_set query.from_block || is_set query.to_block || hash == 0 in
      let e1 : (fail_if ill invalid_filter_query >> ok (by_hash hash)) ≡ ok anchor = rw h at e in
      let (unset, e2) = fail_if-eq-ok ill invalid_filter_query _ e1 in
      subst (Asks query) (ok_injective {E = QuorumError} e2) (
        h,
        (is_set-none query.from_block (ground arith), is_set-none query.to_block (ground arith)),
      )
  | inl h ↦ elim (Option-cases (uint64_of query.from_block)) [
    | inl f ↦ absurd (ground (arith, h, f))
    | inr (from, f) ↦ elim (Option-cases (uint64_of query.to_block)) [
      | inl t ↦ absurd (ground (arith, h, f, t))
      | inr (to, t) ↦
          let e1 : (fail_if (ltb to from) invalid_filter_query >> ok (by_numbers from to))
              ≡ ok anchor =
            rw (explicit_filter_anchor, h, f, t) at e in
          let (_, e2) = fail_if-eq-ok (ltb to from) invalid_filter_query _ e1 in
          subst (Asks query) (ok_injective {E = QuorumError} e2)
            (h, (uint64_of-eq-some query.from_block f, uint64_of-eq-some query.to_block t))
    ]
  ]
]
  where
    by_hash : ℕ → LogFilterAnchor
    by_hash hash = record { from = 0; to = 0; block_hash = some hash }

    by_numbers : ℕ → ℕ → LogFilterAnchor
    by_numbers from to = record { from = from; to = to; block_hash = none }

    is_set-none : {A : Type 0} (o : Option A) → is_set o ≡ false → o ≡ none
    is_set-none none h = refl
    is_set-none (some a) h = absurd (ground arith)

-- Where the logs answered are in the ranges of their types, `FilterLogs` with one provider or more
-- returns what each of them answered: the list is in order of block, transaction and index, has no
-- two logs of one block, transaction and index, has every log of the provider's answer, with nil
-- slices made empty, and no other, and all of them are not removed and in what was asked for: the
-- block of the query's hash, or the blocks between its two numbers.
pub filter_logs-Answered :
    (providers : ℕ) (query : FilterQuery) (round : Round (List Log)) {logs : List Log}
    → 0 < providers
    → ((j : ℕ) (answer : List Log) → Answered round j answer → AllLogs InRange answer)
    → filter_logs providers query round ≡ ok logs
    → (anchor : LogFilterAnchor) × Asks query anchor
      × ((j : ℕ)
          → j < providers
          → (answer : List Log) × Answered round j answer × Listed anchor answer logs)
filter_logs-Answered providers query round {logs} p in_range e =
    let (anchor, found, all) = filter_logs-normalized providers query round p in_range e in
    (
      anchor,
      explicit_filter_anchor-Asks query found,
      λ (j : ℕ) (q : j < providers). listed anchor (all j q),
    )
  where
    listed :
        {j : ℕ} (anchor : LogFilterAnchor)
        → (answer : List Log) × Answered round j answer
          × ((b : List Log × List Bytes) × (normalize_logs anchor (some answer) ≡ ok b)
              × (b.0 ≡ logs))
        → (answer : List Log) × Answered round j answer × Listed anchor answer logs
    listed {j} anchor (answer, answered, (b, reading, same)) = (
      answer,
      answered,
      subst (Listed anchor answer) same
          (normalize_logs-Listed anchor answer (in_range j answer answered) reading),
    )
