-- ===== src/Rpc/Logs/Contents.antt =====
-- Which logs of an answer are kept: each once, and none that was not answered.
use guard_daemon.Prelude.{
  ◌≤◌, ◌≡◌, refl, sym, ap, ◌∙◌, ◌⊎◌, inl, inr, false, not, none, some, List, [], ◌∷◌, arith, Bytes,
  bytes_eq, bytes_eq→eq, Option-cases, fail_if-eq-ok,
}
use guard_daemon.External.{Log}
use guard_daemon.Rpc.{
  QuorumError, ok, ◌>>=◌, ◌>>◌, fail_if, >>=-eq-ok, ok_injective, malformed_response,
}
use guard_daemon.Rpc.Logs.{
  encode_log, LogFilterAnchor, LogIdentity, log_identity, clone_log, validate_log, find_seen,
  keep_logs,
}
use guard_daemon.Rpc.Logs.Encoding.{AllLogs}

-- A property of some log of a list.
abbrev pub AnyLog : (Log → Type 0) → List Log → Type 0
AnyLog P [] = ⊥
AnyLog P (l ∷ ls) = P l ⊎ AnyLog P ls

-- The log is on the chain, and in the block or the blocks that were asked for.
abbrev pub Within : LogFilterAnchor → Log → Type 0
Within anchor l = (l.removed ≡ false) × (elim anchor.block_hash [
  | some hash ↦ l.block_hash ≡ hash
  | none ↦ (anchor.from ≤ l.block_number) × (l.block_number ≤ anchor.to)
])

pub AllLogs-map :
    (P Q : Log → Type 0) (ls : List Log) → ((l : Log) → P l → Q l) → AllLogs P ls → AllLogs Q ls
AllLogs-map P Q [] f h = tt
AllLogs-map P Q (l ∷ ls) f h = (f l h.0, AllLogs-map P Q ls f h.1)

validate_log-Within :
    (l : Log) (anchor : LogFilterAnchor)
    → validate_log l anchor ≡ ok tt
    → Within anchor (clone_log l)
unfolding validate_log
validate_log-Within l anchor v = elim (Option-cases anchor.block_hash) [
  | inl e ↦ rw e (ground (arith, e), (ground (arith, e), ground (arith, e)))
  | inr (hash, e) ↦ rw e (ground (arith, e), ground (arith, e))
]

-- One round of the loop: the log is valid; it is new and kept, or was seen with the same bytes.
pub data Kept (anchor : LogFilterAnchor) (seen : List (LogIdentity × Bytes)) (l : Log)
    (logs kept : List Log) : Type 0 where
  fresh :
      (rest : List Log)
      → find_seen (log_identity l) seen ≡ none
      → keep_logs anchor ((log_identity l, encode_log (clone_log l)) ∷ seen) logs ≡ ok rest
      → kept ≡ clone_log l ∷ rest
      → Kept anchor seen l logs kept
  again :
      find_seen (log_identity l) seen ≡ some (encode_log (clone_log l))
      → keep_logs anchor seen logs ≡ ok kept
      → Kept anchor seen l logs kept

pub keep_logs-Kept :
    (anchor : LogFilterAnchor) (seen : List (LogIdentity × Bytes)) (l : Log) (logs : List Log)
    {kept : List Log}
    → keep_logs anchor seen (l ∷ logs) ≡ ok kept
    → (validate_log l anchor ≡ ok tt) × Kept anchor seen l logs kept
unfolding keep_logs
keep_logs-Kept anchor seen l logs {kept} e =
    let (_, v, e1) = >>=-eq-ok (validate_log l anchor) _ e in
    elim (Option-cases (find_seen (log_identity l) seen)) [
      | inl unseen ↦
          let seen_now = (log_identity l, encode_log (clone_log l)) ∷ seen in
          let e2 : (keep_logs anchor seen_now logs >>= λ rest. ok (clone_log l ∷ rest)) ≡ ok kept =
            rw unseen at e1 in
          let (rest, k, e3) = >>=-eq-ok (keep_logs anchor seen_now logs) _ e2 in
          (v, fresh rest unseen k (sym (ok_injective {E = QuorumError} e3)))
      | inr (previous, was_seen) ↦
          let differs = not (bytes_eq previous (encode_log (clone_log l))) in
          let e2 : (fail_if differs malformed_response >> keep_logs anchor seen logs) ≡ ok kept =
            rw was_seen at e1 in
          let (same, e3) = fail_if-eq-ok differs malformed_response _ e2 in
          let bytes = bytes_eq→eq previous (encode_log (clone_log l)) (ground arith) in
          (v, again (was_seen ∙ ap (λ (bs : Bytes). some bs) bytes) e3)
    ]

-- A property of the copies of valid logs is one of the logs that are kept.
keep_logs-clones :
    (P : Log → Type 0) (anchor : LogFilterAnchor) (logs : List Log)
    (seen : List (LogIdentity × Bytes)) {kept : List Log}
    → AllLogs (λ l. validate_log l anchor ≡ ok tt → P (clone_log l)) logs
    → keep_logs anchor seen logs ≡ ok kept
    → AllLogs P kept
unfolding keep_logs
keep_logs-clones P anchor [] seen a e = rw (sym (ok_injective {E = QuorumError} e)) tt
keep_logs-clones P anchor (l ∷ logs) seen a e =
    let (v, kept_now) = keep_logs-Kept anchor seen l logs e in
    elim kept_now [
      | fresh rest _ k same ↦ rw same (a.0 v, keep_logs-clones P anchor logs _ a.1 k)
      | again _ k ↦ keep_logs-clones P anchor logs seen a.1 k
    ]

pub keep_logs-Within :
    (anchor : LogFilterAnchor) (seen : List (LogIdentity × Bytes)) (logs : List Log)
    {kept : List Log}
    → keep_logs anchor seen logs ≡ ok kept
    → AllLogs (Within anchor) kept
keep_logs-Within anchor seen logs e =
    keep_logs-clones (Within anchor) anchor logs seen
      (each (λ l. validate_log l anchor ≡ ok tt → Within anchor (clone_log l)) logs
        (λ l v. validate_log-Within l anchor v))
      e
  where
    each : (P : Log → Type 0) (ls : List Log) → ((l : Log) → P l) → AllLogs P ls
    each P [] f = tt
    each P (l ∷ ls) f = (f l, each P ls f)

pub keep_logs_sound :
    (anchor : LogFilterAnchor) (logs : List Log) {kept : List Log}
    → keep_logs anchor [] logs ≡ ok kept
    → AllLogs (λ m. AnyLog (λ l. m ≡ clone_log l) logs) kept
keep_logs_sound anchor logs e =
    keep_logs-clones (λ m. AnyLog (λ l. m ≡ clone_log l) logs) anchor logs []
      (AllLogs-map (λ l. AnyLog (λ k. clone_log l ≡ clone_log k) logs) _ logs (λ l h v. h)
        (answered logs))
      e
  where
    answered : (ls : List Log) → AllLogs (λ l. AnyLog (λ k. clone_log l ≡ clone_log k) ls) ls
    answered [] = tt
    answered (l ∷ ls) = (
      inl refl,
      AllLogs-map (λ m. AnyLog (λ k. clone_log m ≡ clone_log k) ls) _ ls (λ m h. inr h)
          (answered ls),
    )
