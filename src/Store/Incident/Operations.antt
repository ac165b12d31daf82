-- ===== src/Store/Incident/Operations.antt =====
-- The store's operations on incidents and on the floor of the sponsor's nonce
-- (internal/store/rescue_state.go). A transaction that fails leaves the buckets as they were; `during n`
-- is what the n-th check of the context inside a loop sees.
pub mod Moves
pub mod Records
pub mod Runs
pub mod Prune
pub mod Floor
pub mod Reopening
pub mod Answers
pub mod Migration
use guard_daemon.Prelude.{
  ℕ, ℤ, pos, negsuc, zero, suc, ◌-◌, Bool, true, false, not, ◌&&◌, ◌||◌, Option, none, some, List,
  [], ◌∷◌, Bytes, Entries, length, take, bytes_eq, be_bytes, be_value, ltb, leb, ◌==◌,
  if◌then◌else◌,
}
use guard_daemon.External.{External}
use guard_daemon.Budget.State.{ContextState, Context}
use guard_daemon.Store.Types.{
  Result, ok, err, ◌>>=◌, ◌>>◌, fail_if, or_else, need, closed, invalid_input, conflict, corrupt,
  context_error, public_error,
}
use guard_daemon.Store.Incident.{
  RescueIncident, pending, token_reported, trusted_success, candidate_token, candidate_claim,
  max_configured_bound, status_is, is_terminal_rescue_status, same_rescue_identity,
  same_rescue_incident,
}
use guard_daemon.Store.Incident.Transition.{valid_rescue_transition}
use guard_daemon.Store.Incident.Codec.{
  encode_rescue_incident, decode_rescue_incident, decode_rescue_incident_v2,
}

pub record IncidentStore : Type 0 where
  pub is_closed : Bool
  pub network : ℕ
  pub incidents : Entries
  pub meta : Entries

-- The ASCII of "nonce-floor".
abbrev pub nonce_floor_key : Bytes
nonce_floor_key = 110 ∷ 111 ∷ 110 ∷ 99 ∷ 101 ∷ 45 ∷ 102 ∷ 108 ∷ 111 ∷ 111 ∷ 114 ∷ []

abbrev pub schema_version_v2 : ℕ
schema_version_v2 = 2

-- The slice of an id.
unfoldable pub incident_key : ℕ → Bytes
incident_key id = be_bytes 32 id

-- `decodeUint64`; a missing value is the empty slice.
unfoldable pub decode_uint64 : Option Bytes → Option ℕ
decode_uint64 none = none
decode_uint64 (some bs) = if length bs == 8 then some (be_value bs) else none

unfoldable pub begin : ContextState → IncidentStore → Result (Unit {0})
begin ctx st = context_error ctx >> fail_if st.is_closed closed

-- `publicError` on what a transaction returns.
unfoldable pub public {ℓ} : {A : Type ℓ} → Result A → Result A
public (err e) = err (public_error e)
public (ok a) = ok a

-- `sort.Slice` by the bytes of the ids.
unfoldable pub insert_by_id : RescueIncident → List RescueIncident → List RescueIncident
insert_by_id i [] = i ∷ []
insert_by_id i (j ∷ js) =
    let rest = insert_by_id i js in if ltb j.id i.id then j ∷ rest else i ∷ j ∷ js

unfoldable pub sort_by_id : List RescueIncident → List RescueIncident
sort_by_id [] = []
sort_by_id (i ∷ is) = insert_by_id i (sort_by_id is)

pub record TerminalIncident : Type 0 where
  pub id : ℕ
  pub updated_at : ℕ

-- The order of pruning: by age, then by id.
unfoldable pub is_older : TerminalIncident → TerminalIncident → Bool
is_older a b = if a.updated_at == b.updated_at then ltb a.id b.id else ltb a.updated_at b.updated_at

unfoldable pub insert_terminal : TerminalIncident → List TerminalIncident → List TerminalIncident
insert_terminal t [] = t ∷ []
insert_terminal t (u ∷ us) =
    let rest = insert_terminal t us in if is_older u t then u ∷ rest else t ∷ u ∷ us

unfoldable pub sort_terminals : List TerminalIncident → List TerminalIncident
sort_terminals [] = []
sort_terminals (t ∷ ts) = insert_terminal t (sort_terminals ts)

unfoldable pub is_prunable : RescueIncident → Bool
is_prunable i = is_terminal_rescue_status i.status && not (i.kind == candidate_claim)

module _ ⦃x : External⦄ where
  -- The record under an id.
  unfoldable pub persisted : ℕ → ℕ → Bytes → Result RescueIncident
  persisted network id bytes = do
    stored ← or_else (need (decode_rescue_incident bytes)) corrupt
    fail_if (not (stored.network == network) || not (stored.id == id)) corrupt
    ok stored

  -- The record of a row of `ForEach`, with the reader of its schema.
  unfoldable pub row : (Bytes → Option RescueIncident) → ℕ → Bytes → Bytes → Result RescueIncident
  unfolding incident_key
  row decode network key value = do
    incident ← or_else (need (decode value)) corrupt
    fail_if (not (bytes_eq key (incident_key incident.id)) || not (incident.network == network))
        corrupt
    ok incident

  unfoldable pub put_entry : Context → RescueIncident → IncidentStore → Result Bytes
  put_entry ctx i st = do
    encoded ← or_else (encode_rescue_incident i) invalid_input
    fail_if (not (i.network == st.network) || not (status_is i.status pending)) invalid_input
    begin ctx.entry st
    ok encoded

  unfoldable pub put_tx :
      Context → RescueIncident → Bytes → IncidentStore → Result (RescueIncident × Entries)
  put_tx ctx i encoded st =
      context_error ctx.inside >> elim (x.get (incident_key i.id) st.incidents) [
        | none ↦ ok (i, x.put (incident_key i.id) encoded st.incidents)
        | some bytes ↦ do
          stored ← persisted st.network i.id bytes
          fail_if (not (same_rescue_identity stored i)) conflict
          ok (stored, st.incidents)
      ]

  unfoldable pub put_rescue_incident :
      Context → RescueIncident → IncidentStore → Result RescueIncident × IncidentStore
  put_rescue_incident ctx i st = elim (put_entry ctx i st) [
    | err e ↦ (err e, st)
    | ok encoded ↦ elim (put_tx ctx i encoded st) [
      | err e ↦ (err (public_error e), st)
      | ok (stored, incidents) ↦ (ok stored, record st { incidents = incidents })
    ]
  ]

  unfoldable pub update_entry : Context → RescueIncident → IncidentStore → Result Bytes
  update_entry ctx i st = do
    encoded ← or_else (encode_rescue_incident i) invalid_input
    fail_if (not (i.network == st.network)) invalid_input
    begin ctx.entry st
    ok encoded

  unfoldable pub update_tx : Context → RescueIncident → Bytes → IncidentStore → Result Entries
  update_tx ctx i encoded st =
      context_error ctx.inside >> elim (x.get (incident_key i.id) st.incidents) [
        | none ↦ err conflict
        | some bytes ↦ do
          current ← persisted st.network i.id bytes
          if same_rescue_incident current i
              then ok st.incidents
              else fail_if (not (valid_rescue_transition current i)) conflict
                >> ok (x.put (incident_key i.id) encoded st.incidents)
      ]

  unfoldable pub update_rescue_incident :
      Context → RescueIncident → IncidentStore → Result (Unit {0}) × IncidentStore
  update_rescue_incident ctx i st = elim (update_entry ctx i st) [
    | err e ↦ (err e, st)
    | ok encoded ↦ elim (update_tx ctx i encoded st) [
      | err e ↦ (err (public_error e), st)
      | ok incidents ↦ (ok tt, record st { incidents = incidents })
    ]
  ]

  -- The incident under an id; `none` is a result that is not found.
  unfoldable pub rescue_incident : Context → ℕ → IncidentStore → Result (Option RescueIncident)
  rescue_incident ctx id st =
      begin ctx.entry st
      >> public (
          context_error ctx.inside >> elim (x.get (incident_key id) st.incidents) [
            | none ↦ ok none
            | some bytes ↦ do incident ← persisted st.network id bytes; ok (some incident)
          ])

  unfoldable pub read_rows : ℕ → Entries → Result (List RescueIncident)
  read_rows network [] = ok []
  read_rows network ((key, value) ∷ d) = do
    incident ← row decode_rescue_incident network key value
    rest ← read_rows network d
    ok (incident ∷ rest)

  unfoldable pub rescue_incidents : Context → ℕ → IncidentStore → Result (List RescueIncident)
  rescue_incidents ctx network st = do
    fail_if (not (network == st.network)) invalid_input
    begin ctx.entry st
    incidents ← public (context_error ctx.inside >> read_rows st.network st.incidents)
    ok (sort_by_id incidents)

  unfoldable pub nonce_floor : Context → IncidentStore → Result ℕ
  nonce_floor ctx st =
      begin ctx.entry st
      >> public (
          context_error ctx.inside >> elim (decode_uint64 (x.get nonce_floor_key st.meta)) [
            | none ↦ err corrupt
            | some floor ↦ ok floor
          ])

  unfoldable pub raise_tx : Context → ℕ → IncidentStore → Result Entries
  raise_tx ctx floor st =
      context_error ctx.inside >> elim (decode_uint64 (x.get nonce_floor_key st.meta)) [
        | none ↦ err corrupt
        | some current ↦
            if leb floor current
            then ok st.meta
            else ok (x.put nonce_floor_key (be_bytes 8 floor) st.meta)
      ]

  unfoldable pub raise_nonce_floor : Context → ℕ → IncidentStore → Result (Unit {0}) × IncidentStore
  raise_nonce_floor ctx floor st = elim (begin ctx.entry st) [
    | err e ↦ (err e, st)
    | ok _ ↦ elim (raise_tx ctx floor st) [
      | err e ↦ (err (public_error e), st)
      | ok meta ↦ (ok tt, record st { meta = meta })
    ]
  ]

  unfoldable pub collect_terminals :
      (ℕ → ContextState) → ℕ → ℕ → Entries → Result (List TerminalIncident)
  collect_terminals during n network [] = ok []
  collect_terminals during n network ((key, value) ∷ d) = do
    context_error (during n)
    i ← row decode_rescue_incident network key value
    rest ← collect_terminals during (suc n) network d
    ok (if is_prunable i then record { id = i.id; updated_at = i.updated_at } ∷ rest else rest)

  unfoldable pub delete_terminals :
      (ℕ → ContextState) → ℕ → List TerminalIncident → Entries → Result Entries
  delete_terminals during n [] d = ok d
  delete_terminals during n (t ∷ ts) d = do
    context_error (during n)
    delete_terminals during (suc n) ts (x.delete (incident_key t.id) d)

  unfoldable pub prune_tx : Context → (ℕ → ContextState) → ℕ → IncidentStore → Result Entries
  prune_tx ctx during retain st = do
    context_error ctx.inside
    terminals ← collect_terminals during 0 st.network st.incidents
    let doomed = take (length terminals - retain) (sort_terminals terminals)
    delete_terminals during (length st.incidents) doomed st.incidents

  -- `retain` is an int.
  unfoldable pub prune_rescue_incidents :
      Context → (ℕ → ContextState) → ℤ → IncidentStore → Result (Unit {0}) × IncidentStore
  prune_rescue_incidents ctx during (negsuc _) st = (err invalid_input, st)
  prune_rescue_incidents ctx during (pos retain) st =
      elim (fail_if (ltb max_configured_bound retain) invalid_input >> begin ctx.entry st) [
        | err e ↦ (err e, st)
        | ok _ ↦ elim (prune_tx ctx during retain st) [
          | err e ↦ (err (public_error e), st)
          | ok incidents ↦ (ok tt, record st { incidents = incidents })
        ]
      ]

  unfoldable pub check_rows : (Bytes → Option RescueIncident) → ℕ → Entries → Result (Unit {0})
  check_rows decode network [] = ok tt
  check_rows decode network ((key, value) ∷ d) = do
    _ ← row decode network key value
    check_rows decode network d

  -- `validateRescueStateBucket`, of a bucket and its sequence number.
  unfoldable pub validate_rescue_state_bucket : ℕ → ℕ → Entries → ℕ → Result (Unit {0})
  unfolding check_rows
  validate_rescue_state_bucket sequence network d schema = do
    fail_if (not (sequence == 0)) corrupt
    check_rows
        (if schema == schema_version_v2 then decode_rescue_incident_v2 else decode_rescue_incident)
        network d
