-- ===== src/Rpc/Logs/Encoding.antt =====
-- The encoding of a log tells the log.
use guard_daemon.Prelude.{
  ℕ, ◌^◌, ◌<◌, ◌≡◌, refl, sym, ap, ◌∙◌, false, some, List, [], ◌∷◌, ◌++◌, map, arith, Bytes, length,
  be_bytes, length-be_bytes, be_bytes-injective, append_assoc,
}
use guard_daemon.External.{Log}
use guard_daemon.Prelude.{inl, inr, Bool-cases, Option-cases, ltb, not, bytes_eq, fail_if-eq-ok}
use guard_daemon.Rpc.{
  QuorumError, ok, ◌>>=◌, ◌>>◌, fail_if, >>=-eq-ok, ok_injective, malformed_response,
  max_logs_per_response,
}
use guard_daemon.Rpc.Headers.{value_or}
use guard_daemon.Rpc.Logs.{
  words, encode_log, LogFilterAnchor, LogIdentity, log_identity, clone_log, validate_log, find_seen,
  keep_logs, log_before, insert_log, sort_logs, normalize_logs,
}

append-cancel :
    (xs ys zs ws : Bytes) → length xs ≡ length ys → xs ++ zs ≡ ys ++ ws → (xs ≡ ys) × (zs ≡ ws)
append-cancel [] [] zs ws l e = (refl, e)
append-cancel [] (y ∷ ys) zs ws l e = absurd (omega arith)
append-cancel (x ∷ xs) [] zs ws l e = absurd (omega arith)
append-cancel (x ∷ xs) (y ∷ ys) zs ws l e =
    let head : x ≡ y = cc in
    let rest : xs ++ zs ≡ ys ++ ws = cc in
    let (tail, same) = append-cancel xs ys zs ws (omega arith) rest in (cc (head, tail), same)

field-cancel :
    (n v w : ℕ) (zs ws : Bytes)
    → v < 256 ^ n
    → w < 256 ^ n
    → be_bytes n v ++ zs ≡ be_bytes n w ++ ws
    → (v ≡ w) × (zs ≡ ws)
field-cancel n v w zs ws hv hw e =
    let (same, rest) =
      append-cancel (be_bytes n v) (be_bytes n w) zs ws
        (length-be_bytes n v ∙ sym (length-be_bytes n w)) e in
    (be_bytes-injective n v w hv hw same, rest)

abbrev AllWords : List ℕ → Type 0
AllWords [] = Unit {0}
AllWords (t ∷ ts) = (t < 2 ^ 256) × AllWords ts

words-cancel :
    (ts us : List ℕ) (zs ws : Bytes)
    → AllWords ts
    → AllWords us
    → length ts ≡ length us
    → words ts ++ zs ≡ words us ++ ws
    → (ts ≡ us) × (zs ≡ ws)
words-cancel [] [] zs ws ht hu l e = (refl, e)
words-cancel [] (u ∷ us) zs ws ht hu l e = absurd (omega arith)
words-cancel (t ∷ ts) [] zs ws ht hu l e = absurd (omega arith)
words-cancel (t ∷ ts) (u ∷ us) zs ws ht hu l e =
    let (heads, e1) = field-cancel 32 t u (words ts ++ zs) (words us ++ ws) ht.0 hu.0 (
      sym (append_assoc (be_bytes 32 t) (words ts) zs)
      ∙ e
      ∙ append_assoc (be_bytes 32 u) (words us) ws) in
    let (tails, rest) = words-cancel ts us zs ws ht.1 hu.1 (omega arith) e1 in
    (cc (heads, tails), rest)

-- A log with its slices present, whose fields are in the ranges of their types.
pub record LogFits (l : Log) (topics : List ℕ) (data_field : Bytes) : Type 0 where
  pub topics_eq : l.topics ≡ some topics
  pub data_eq : l.data_field ≡ some data_field
  pub kept : l.removed ≡ false
  pub address : l.address < 2 ^ 160
  pub few_topics : length topics < 2 ^ 64
  pub words_fit : AllWords topics
  pub short : length data_field < 2 ^ 64
  pub block_number : l.block_number < 2 ^ 64
  pub tx_hash : l.tx_hash < 2 ^ 256
  pub tx_index : l.tx_index < 2 ^ 64
  pub block_hash : l.block_hash < 2 ^ 256
  pub block_timestamp : l.block_timestamp < 2 ^ 64
  pub index : l.index < 2 ^ 64

-- `encodeLog` of a log whose slices are these.
log_bytes : Log → List ℕ → Bytes → Bytes
log_bytes l topics data_field =
    be_bytes 20 l.address
    ++ (be_bytes 8 (length topics)
        ++ (words topics
            ++ (be_bytes 8 (length data_field)
                ++ (data_field
                    ++ (be_bytes 8 l.block_number
                        ++ (be_bytes 32 l.tx_hash
                            ++ (be_bytes 8 l.tx_index
                                ++ (be_bytes 32 l.block_hash
                                    ++ (be_bytes 8 l.block_timestamp
                                        ++ (be_bytes 8 l.index ++ (0 ∷ [])))))))))))

encode_log-eq :
    (l : Log) (topics : List ℕ) (data_field : Bytes)
    → LogFits l topics data_field
    → encode_log l ≡ log_bytes l topics data_field
unfolding encode_log log_bytes
encode_log-eq l topics data_field f = rw (encode_log, f.topics_eq, f.data_eq) (simp append_assoc)

pub encode_log-injective :
    (a b : Log) (ts us : List ℕ) (ds es : Bytes)
    → LogFits a ts ds
    → LogFits b us es
    → encode_log a ≡ encode_log b
    → a ≡ b
unfolding log_bytes
encode_log-injective a b ts us ds es f g e =
    let e0 : log_bytes a ts ds ≡ log_bytes b us es =
      sym (encode_log-eq a ts ds f) ∙ e ∙ encode_log-eq b us es g in
    let (address, e1) = field-cancel 20 a.address b.address _ _ f.address g.address e0 in
    let (count, e2) = field-cancel 8 (length ts) (length us) _ _ f.few_topics g.few_topics e1 in
    let (topics, e3) = words-cancel ts us _ _ f.words_fit g.words_fit count e2 in
    let (long, e4) = field-cancel 8 (length ds) (length es) _ _ f.short g.short e3 in
    let (data_same, e5) = append-cancel ds es _ _ long e4 in
    let (number, e6) =
      field-cancel 8 a.block_number b.block_number _ _ f.block_number g.block_number e5 in
    let (tx_hash, e7) = field-cancel 32 a.tx_hash b.tx_hash _ _ f.tx_hash g.tx_hash e6 in
    let (tx_index, e8) = field-cancel 8 a.tx_index b.tx_index _ _ f.tx_index g.tx_index e7 in
    let (hash, e9) = field-cancel 32 a.block_hash b.block_hash _ _ f.block_hash g.block_hash e8 in
    let (time, e10) =
      field-cancel 8 a.block_timestamp b.block_timestamp _ _ f.block_timestamp g.block_timestamp
        e9 in
    let (index, _) = field-cancel 8 a.index b.index _ _ f.index g.index e10 in
    let slots : a.topics ≡ b.topics =
      f.topics_eq ∙ ap (λ (ts : List ℕ). some ts) topics ∙ sym g.topics_eq in
    let fields : a.data_field ≡ b.data_field =
      f.data_eq ∙ ap (λ (ds : Bytes). some ds) data_same ∙ sym g.data_eq in
    let removed = f.kept ∙ sym g.kept in
    λ i. record {
      address = address i;
      topics = slots i;
      data_field = fields i;
      block_number = number i;
      tx_hash = tx_hash i;
      tx_index = tx_index i;
      block_hash = hash i;
      block_timestamp = time i;
      index = index i;
      removed = removed i;
    }

-- The fields of a log are in the ranges of their types, whatever slices it has.
pub record InRange (l : Log) : Type 0 where
  pub address : l.address < 2 ^ 160
  pub words_fit : AllWords (value_or [] l.topics)
  pub block_number : l.block_number < 2 ^ 64
  pub tx_hash : l.tx_hash < 2 ^ 256
  pub tx_index : l.tx_index < 2 ^ 64
  pub block_hash : l.block_hash < 2 ^ 256
  pub block_timestamp : l.block_timestamp < 2 ^ 64
  pub index : l.index < 2 ^ 64

abbrev pub AllLogs : (Log → Type 0) → List Log → Type 0
AllLogs P [] = Unit {0}
AllLogs P (l ∷ ls) = P l × AllLogs P ls

abbrev pub IsKept : Log → Type 0
IsKept l = (ts : List ℕ) × (ds : Bytes) × LogFits l ts ds

pub clone_log-IsKept :
    (l : Log) (anchor : LogFilterAnchor)
    → InRange l
    → validate_log l anchor ≡ ok tt
    → IsKept (clone_log l)
unfolding validate_log
clone_log-IsKept l anchor r v = (
  value_or [] l.topics,
  value_or [] l.data_field,
  record {
    topics_eq = refl;
    data_eq = refl;
    kept = ground arith;
    address = r.address;
    few_topics = ground arith;
    words_fit = r.words_fit;
    short = ground arith;
    block_number = r.block_number;
    tx_hash = r.tx_hash;
    tx_index = r.tx_index;
    block_hash = r.block_hash;
    block_timestamp = r.block_timestamp;
    index = r.index;
  },
)

keep_logs-AllLogs :
    (anchor : LogFilterAnchor) (seen : List (LogIdentity × Bytes)) (logs : List Log)
    {kept : List Log}
    → AllLogs InRange logs
    → keep_logs anchor seen logs ≡ ok kept
    → AllLogs IsKept kept
unfolding keep_logs
keep_logs-AllLogs anchor seen [] r e = rw (sym (ok_injective {E = QuorumError} e)) tt
keep_logs-AllLogs anchor seen (l ∷ logs) {kept} r e =
    let (_, v, e1) = >>=-eq-ok (validate_log l anchor) _ e in
    elim (Option-cases (find_seen (log_identity l) seen)) [
      | inl none_seen ↦
          let seen_now = (log_identity l, encode_log (clone_log l)) ∷ seen in
          let e2 : (keep_logs anchor seen_now logs >>= λ rest. ok (clone_log l ∷ rest)) ≡ ok kept =
            rw none_seen at e1 in
          let (rest, k, e3) = >>=-eq-ok (keep_logs anchor seen_now logs) _ e2 in
          rw (sym (ok_injective {E = QuorumError} e3))
            (clone_log-IsKept l anchor r.0 v, keep_logs-AllLogs anchor seen_now logs r.1 k)
      | inr (previous, was_seen) ↦
          let differs = not (bytes_eq previous (encode_log (clone_log l))) in
          let e2 : (fail_if differs malformed_response >> keep_logs anchor seen logs) ≡ ok kept =
            rw was_seen at e1 in
          let (_, e3) = fail_if-eq-ok differs malformed_response _ e2 in
          keep_logs-AllLogs anchor seen logs r.1 e3
    ]

pub insert_log-AllLogs :
    (P : Log → Type 0) (l : Log) (ls : List Log) → P l → AllLogs P ls → AllLogs P (insert_log l ls)
unfolding insert_log
insert_log-AllLogs P l [] p h = (p, tt)
insert_log-AllLogs P l (m ∷ ms) p h = elim (Bool-cases (log_before m l)) [
  | inl e ↦ rw e (h.0, insert_log-AllLogs P l ms p h.1)
  | inr e ↦ rw e (p, h)
]

pub sort_logs-AllLogs : (P : Log → Type 0) (ls : List Log) → AllLogs P ls → AllLogs P (sort_logs ls)
unfolding sort_logs
sort_logs-AllLogs P [] h = tt
sort_logs-AllLogs P (l ∷ ls) h =
    insert_log-AllLogs P l (sort_logs ls) h.0 (sort_logs-AllLogs P ls h.1)

pub normalize_logs-AllLogs :
    (anchor : LogFilterAnchor) (logs : List Log) {b : List Log × List Bytes}
    → AllLogs InRange logs
    → normalize_logs anchor (some logs) ≡ ok b
    → AllLogs IsKept b.0
unfolding normalize_logs
normalize_logs-AllLogs anchor logs r e =
    let (_, _, e1) =
      >>=-eq-ok (fail_if (ltb max_logs_per_response (length logs)) malformed_response) _ e in
    let (kept, k, e2) = >>=-eq-ok (keep_logs anchor [] logs) _ e1 in
    rw (sym (ok_injective {E = QuorumError} e2))
      (sort_logs-AllLogs IsKept kept (keep_logs-AllLogs anchor [] logs r k))

-- Lists of such logs with the same encodings are the same.
pub map-encode_log-injective :
    (ms ns : List Log)
    → AllLogs IsKept ms
    → AllLogs IsKept ns
    → map encode_log ms ≡ map encode_log ns
    → ms ≡ ns
map-encode_log-injective [] [] f g e = refl
map-encode_log-injective [] (b ∷ ns) f g e = absurd (ground arith)
map-encode_log-injective (a ∷ ms) [] f g e = absurd (ground arith)
map-encode_log-injective (a ∷ ms) (b ∷ ns) ((ts, ds, f), fs) ((us, es, g), gs) e =
    let head : encode_log a ≡ encode_log b = cc in
    let tail : map encode_log ms ≡ map encode_log ns = cc in
    cc (encode_log-injective a b ts us ds es f g head, map-encode_log-injective ms ns fs gs tail)
