-- ===== src/Rpc/Logs/Listed.antt =====
-- What an answer is read as: its logs, in order and once each.
use guard_daemon.Prelude.{
  ◌≡◌, refl, sym, ap, ◌⊎◌, inl, inr, none, some, List, [], ◌∷◌, arith, Bytes, Bool-cases, length,
  ltb,
}
use mathlib.Core.Path.{subst}
use guard_daemon.External.{Log}
use guard_daemon.Rpc.{
  QuorumError, ok, fail_if, >>=-eq-ok, ok_injective, malformed_response, max_logs_per_response,
}
use guard_daemon.Rpc.Logs.{
  encode_log, LogFilterAnchor, LogIdentity, log_identity, same_identity, clone_log, find_seen,
  keep_logs, insert_log, sort_logs, log_before, normalize_logs,
}
use guard_daemon.Rpc.Logs.Encoding.{
  InRange, AllLogs, IsKept, clone_log-IsKept, encode_log-injective, sort_logs-AllLogs,
}
use guard_daemon.Rpc.Logs.Order.{
  IsSorted, Differ, AreDistinct, sort_logs-IsSorted, sort_logs-AreDistinct,
}
use guard_daemon.Rpc.Logs.Contents.{
  AnyLog, Within, AllLogs-map, fresh, again, keep_logs-Kept, keep_logs-Within, keep_logs_sound,
}

-- The list has, in order and once each, the logs of an answer, with nil slices made empty.
pub record Listed (anchor : LogFilterAnchor) (answer logs : List Log) : Type 0 where
  pub sorted : IsSorted logs
  pub distinct : AreDistinct logs
  pub within : AllLogs (Within anchor) logs
  pub complete : AllLogs (λ l. AnyLog (λ m. m ≡ clone_log l) logs) answer
  pub sound : AllLogs (λ m. AnyLog (λ l. m ≡ clone_log l) answer) logs

-- The identity of a log that is kept was not seen before.
Unseen : List (LogIdentity × Bytes) → Log → Type 0
Unseen seen m = find_seen (log_identity m) seen ≡ none

find_seen-Unseen :
    (l m : Log) (encoded : Bytes) (seen : List (LogIdentity × Bytes))
    → Unseen ((log_identity l, encoded) ∷ seen) m
    → Differ (clone_log l) m × Unseen seen m
unfolding find_seen Unseen
find_seen-Unseen l m encoded seen h =
    elim (Bool-cases (same_identity (log_identity m) (log_identity l))) [
      | inl e ↦ absurd (ground (arith, e))
      | inr e ↦ (λ (b, t, i). absurd (ground (arith, e, b, t, i)), ground (arith, e))
    ]

keep_logs-distinct :
    (anchor : LogFilterAnchor) (logs : List Log) (seen : List (LogIdentity × Bytes))
    {kept : List Log}
    → keep_logs anchor seen logs ≡ ok kept
    → AreDistinct kept × AllLogs (Unseen seen) kept
unfolding keep_logs Unseen
keep_logs-distinct anchor [] seen e = rw (sym (ok_injective {E = QuorumError} e)) (tt, tt)
keep_logs-distinct anchor (l ∷ logs) seen e = elim (keep_logs-Kept anchor seen l logs e).1 [
  | fresh rest unseen k same ↦
      let (distinct, later) = keep_logs-distinct anchor logs _ k in
      let encoded = encode_log (clone_log l) in
      let now = Unseen ((log_identity l, encoded) ∷ seen) in
      let other = λ (m : Log) (h : now m). (find_seen-Unseen l m encoded seen h).0 in
      let before = λ (m : Log) (h : now m). (find_seen-Unseen l m encoded seen h).1 in
      rw same (
        (AllLogs-map now (Differ (clone_log l)) rest other later, distinct),
        (unseen, AllLogs-map now (Unseen seen) rest before later),
      )
  | again _ k ↦ keep_logs-distinct anchor logs seen k
]

-- The log was answered before, in the same bytes.
Known : List (LogIdentity × Bytes) → Log → Type 0
Known seen l = find_seen (log_identity l) seen ≡ some (encode_log (clone_log l))

find_seen-Known :
    (k l : Log) (seen : List (LogIdentity × Bytes))
    → IsKept (clone_log k)
    → IsKept (clone_log l)
    → Known ((log_identity k, encode_log (clone_log k)) ∷ seen) l
    → (clone_log k ≡ clone_log l) ⊎ Known seen l
unfolding find_seen Known
find_seen-Known k l seen (ts, ds, f) (us, es, g) h =
    elim (Bool-cases (same_identity (log_identity l) (log_identity k))) [
      | inl e ↦
          let bytes : encode_log (clone_log k) ≡ encode_log (clone_log l) = ground (arith, e) in
          inl (encode_log-injective (clone_log k) (clone_log l) ts us ds es f g bytes)
      | inr e ↦ inr (ground (arith, e))
    ]

keep_logs-IsKept :
    (anchor : LogFilterAnchor) (logs : List Log) (seen : List (LogIdentity × Bytes))
    {kept : List Log}
    → AllLogs InRange logs
    → keep_logs anchor seen logs ≡ ok kept
    → AllLogs (λ l. IsKept (clone_log l)) logs
keep_logs-IsKept anchor [] seen r e = tt
keep_logs-IsKept anchor (l ∷ logs) seen r e =
    let (v, now) = keep_logs-Kept anchor seen l logs e in
    (
      clone_log-IsKept l anchor r.0 v,
      elim now [
        | fresh rest _ k _ ↦ keep_logs-IsKept anchor logs _ r.1 k
        | again _ k ↦ keep_logs-IsKept anchor logs seen r.1 k
      ],
    )

-- A log is kept, or it was seen before.
Covered : List (LogIdentity × Bytes) → List Log → Log → Type 0
Covered seen kept l = AnyLog (λ m. m ≡ clone_log l) kept ⊎ Known seen l

keep_logs-Covered :
    (anchor : LogFilterAnchor) (logs : List Log) (seen : List (LogIdentity × Bytes))
    {kept : List Log}
    → AllLogs (λ l. IsKept (clone_log l)) logs
    → keep_logs anchor seen logs ≡ ok kept
    → AllLogs (Covered seen kept) logs
unfolding keep_logs Covered Known
keep_logs-Covered anchor [] seen r e = tt
keep_logs-Covered anchor (l ∷ logs) seen {kept} r e = elim (keep_logs-Kept anchor seen l logs e).1 [
  | fresh rest _ k same ↦
      subst (λ kept. AllLogs (Covered seen kept) (l ∷ logs)) (sym same)
        (inl (inl refl), later logs rest r.1 (keep_logs-Covered anchor logs _ r.1 k))
  | again known k ↦ (inr known, keep_logs-Covered anchor logs seen r.1 k)
]
  where
    later :
        (ls rest : List Log)
        → AllLogs (λ l. IsKept (clone_log l)) ls
        → AllLogs (Covered ((log_identity l, encode_log (clone_log l)) ∷ seen) rest) ls
        → AllLogs (Covered seen (clone_log l ∷ rest)) ls
    later [] rest f h = tt
    later (m ∷ ms) rest f (inl there, h) = (inl (inr there), later ms rest f.1 h)
    later (m ∷ ms) rest f (inr known, h) = elim (find_seen-Known l m seen r.0 f.0 known) [
      | inl same ↦ (inl (inl same), later ms rest f.1 h)
      | inr before ↦ (inr before, later ms rest f.1 h)
    ]

AnyLog-insert :
    (P : Log → Type 0) (l : Log) (ls : List Log) → P l ⊎ AnyLog P ls → AnyLog P (insert_log l ls)
unfolding insert_log
AnyLog-insert P l [] h = h
AnyLog-insert P l (m ∷ ms) h = elim (Bool-cases (log_before m l)) [
  | inr e ↦ rw e h
  | inl e ↦ rw e (elim h [
    | inl p ↦ inr (AnyLog-insert P l ms (inl p))
    | inr (inl p) ↦ inl p
    | inr (inr q) ↦ inr (AnyLog-insert P l ms (inr q))
  ])
]

AnyLog-sort : (P : Log → Type 0) (ls : List Log) → AnyLog P ls → AnyLog P (sort_logs ls)
unfolding sort_logs
AnyLog-sort P [] h = absurd h
AnyLog-sort P (l ∷ ls) (inl p) = AnyLog-insert P l (sort_logs ls) (inl p)
AnyLog-sort P (l ∷ ls) (inr h) = AnyLog-insert P l (sort_logs ls) (inr (AnyLog-sort P ls h))

Covered-sort :
    (kept : List Log) (l : Log) → Covered [] kept l → AnyLog (λ m. m ≡ clone_log l) (sort_logs kept)
unfolding Covered Known find_seen
Covered-sort kept l (inl there) = AnyLog-sort (λ m. m ≡ clone_log l) kept there
Covered-sort kept l (inr known) = absurd (ground arith)

-- What `normalizeLogs` makes of an answer whose logs are in the ranges of their types.
pub normalize_logs-Listed :
    (anchor : LogFilterAnchor) (answer : List Log) {b : List Log × List Bytes}
    → AllLogs InRange answer
    → normalize_logs anchor (some answer) ≡ ok b
    → Listed anchor answer b.0
unfolding normalize_logs
normalize_logs-Listed anchor answer r e =
    let (_, _, e1) =
      >>=-eq-ok (fail_if (ltb max_logs_per_response (length answer)) malformed_response) _ e in
    let (kept, k, e2) = >>=-eq-ok (keep_logs anchor [] answer) _ e1 in
    let same = ap (λ (t : List Log × List Bytes). t.0) (ok_injective {E = QuorumError} e2) in
    let clones = keep_logs-IsKept anchor answer [] r k in
    rw (sym same) (record {
      sorted = sort_logs-IsSorted kept;
      distinct = sort_logs-AreDistinct kept (keep_logs-distinct anchor answer [] k).0;
      within = sort_logs-AllLogs (Within anchor) kept (keep_logs-Within anchor [] answer k);
      complete =
          AllLogs-map (Covered [] kept) (λ l. AnyLog (λ m. m ≡ clone_log l) (sort_logs kept)) answer
            (Covered-sort kept) (keep_logs-Covered anchor answer [] clones k);
      sound =
          sort_logs-AllLogs (λ m. AnyLog (λ l. m ≡ clone_log l) answer) kept
            (keep_logs_sound anchor answer k);
    })
