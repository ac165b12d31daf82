-- ===== src/Rpc/Headers.antt =====
-- Blocks (`Header`, `Finalized`, `Latest`, `commonHead`, `blockRefFromHeader` and
-- `requireCanonicalBlock`), and the values that are read at a block. `request n` is the round that asks
-- for the header of the number `n`.
pub mod Heads
use guard_daemon.Prelude.{
  ℕ, ℤ, pos, negsuc, ◌^◌, ◌-◌, Bool, true, false, not, ◌&&◌, ◌||◌, Option, none, some, List, [],
  ◌∷◌, Bytes, bytes_eq, ltb, leb, ◌==◌, if◌then◌else◌,
}
use guard_daemon.External.{Header}
use guard_daemon.Rpc.{
  BlockRef, Answer, ok, err, ◌>>=◌, ◌>>◌, fail_if, malformed_response, invalid_block_ref,
}
use guard_daemon.Rpc.Collect.{Round, collect_providers}
use guard_daemon.Rpc.Agree.{agreed_value}

-- `ref == other`.
abbrev pub ref_eq : BlockRef → BlockRef → Bool
ref_eq a b =
    a.number == b.number
    && a.hash == b.hash
    && a.parent_hash == b.parent_hash
    && a.timestamp == b.timestamp

abbrev pub zero_ref : BlockRef
zero_ref = record { number = 0; hash = 0; parent_hash = 0; timestamp = 0 }

-- `value.Uint64()` where `value` is not nil and `IsUint64` holds.
abbrev pub uint64_of : Option ℤ → Option ℕ
uint64_of (some (pos n)) = if ltb n (2 ^ 64) then some n else none
uint64_of _ = none

-- `value != nil && value.Sign() < 0`.
abbrev pub is_negative : Option ℤ → Bool
is_negative (some (negsuc _)) = true
is_negative _ = false

abbrev pub is_nil : Option ℤ → Bool
is_nil none = true
is_nil (some _) = false

-- `expected != nil && number != *expected`.
abbrev pub is_unexpected : Option ℕ → ℕ → Bool
is_unexpected none number = false
is_unexpected (some expected) number = not (number == expected)

unfoldable pub block_ref_from_header : Option ℕ → Option Header → Answer BlockRef
block_ref_from_header expected none = err malformed_response
block_ref_from_header expected (some h) = elim (uint64_of h.number) [
  | none ↦ err malformed_response
  | some number ↦ do
    fail_if
        (is_nil h.difficulty
          || is_negative h.difficulty
          || not h.has_extra
          || ltb h.gas_limit h.gas_used
          || is_negative h.base_fee
          || not h.is_sane)
        malformed_response
    fail_if (is_unexpected expected number) malformed_response
    ok (record { number = number; hash = h.hash; parent_hash = h.parent_hash; timestamp = h.time })
]

-- The value of a variable that the loop over no answers leaves alone.
abbrev pub value_or {ℓ} : {A : Type ℓ} → A → Option A → A
value_or a none = a
value_or _ (some a) = a

unfoldable pub header : ℕ → ℕ → Round Header → Answer BlockRef
header providers number round = do
  agreed ←
      agreed_value (block_ref_from_header (some number)) (λ agreed ref. ref_eq ref agreed) providers
        round
  ok (value_or zero_ref agreed)

-- The loop of `commonHead`: the smallest number, the first reference and whether the others are it.
unfoldable pub scan_heads :
    ℕ → BlockRef → Bool → List (Option Header) → Answer (ℕ × BlockRef × Bool)
scan_heads minimum first is_agreed [] = ok (minimum, first, is_agreed)
scan_heads minimum first is_agreed (h ∷ hs) = block_ref_from_header none h >>= λ ref.
    let minimum = (if ltb ref.number minimum then ref.number else minimum) in
    if first.hash == 0
    then scan_heads minimum ref is_agreed hs
    else scan_heads minimum first (if ref_eq first ref then is_agreed else false) hs

unfoldable pub common_head : ℕ → Round Header → (ℕ → Round Header) → Answer BlockRef
common_head providers round request = do
  headers ← collect_providers providers round
  (minimum, first, is_agreed) ← scan_heads (2 ^ 64 - 1) zero_ref true headers
  if is_agreed then ok first else header providers minimum (request minimum)

-- `Finalized` asks for the finalized block, `Latest` for the newest.
abbrev pub finalized : ℕ → Round Header → (ℕ → Round Header) → Answer BlockRef
finalized providers round request = common_head providers round request

abbrev pub latest : ℕ → Round Header → (ℕ → Round Header) → Answer BlockRef
latest providers round request = common_head providers round request

unfoldable pub require_canonical_block : ℕ → (ℕ → Round Header) → BlockRef → Answer (Unit {0})
require_canonical_block providers request block = do
  fail_if (block.hash == 0) invalid_block_ref
  canonical ← header providers block.number (request block.number)
  fail_if (not (ref_eq canonical block)) invalid_block_ref

unfoldable pub read_balance : Option ℤ → Answer ℕ
read_balance (some (pos n)) = ok n
read_balance _ = err malformed_response

unfoldable pub balance_at_hash : ℕ → Round ℤ → Answer ℕ
unfolding read_balance
balance_at_hash providers round = do
  agreed ← agreed_value read_balance (λ agreed balance. agreed == balance) providers round
  ok (value_or 0 agreed)

unfoldable pub balance_at : ℕ → (ℕ → Round Header) → BlockRef → Round ℤ → Answer ℕ
balance_at providers request block round = do
  require_canonical_block providers request block
  balance_at_hash providers round

unfoldable pub read_bytes : Option Bytes → Answer Bytes
read_bytes none = err malformed_response
read_bytes (some bytes) = ok bytes

unfoldable pub unanimous_bytes : ℕ → Round Bytes → Answer Bytes
unanimous_bytes providers round = do
  agreed ← agreed_value read_bytes bytes_eq providers round
  ok (value_or [] agreed)

unfoldable pub code_at : ℕ → (ℕ → Round Header) → BlockRef → Round Bytes → Answer Bytes
code_at providers request block round = do
  require_canonical_block providers request block
  unanimous_bytes providers round

unfoldable pub call_contract : ℕ → (ℕ → Round Header) → BlockRef → Round Bytes → Answer Bytes
call_contract providers request block round = do
  require_canonical_block providers request block
  unanimous_bytes providers round
