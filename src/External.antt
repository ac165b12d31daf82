-- ===== src/External.antt =====
-- Code outside the repository that the modelled packages call: parameters with their documented
-- behaviour. A `uint256.Int` is its value, a bucket is its entries in the order of `ForEach`.
use guard_daemon.Prelude.{
  ℕ, ℤ, pos, ◌+◌, ◌-◌, ◌*◌, ◌%◌, ◌^◌, ◌<◌, ◌≡◌, Bool, Option, List, Bytes, Entries, leb, lookup,
  insert, erase, be_bytes, be_value, length,
}

-- What `types.Transaction` of github.com/ethereum/go-ethereum tells of a transaction: `Type`, `Hash`,
-- `Nonce`, `Data` and the nonces of `SetCodeAuthorizations`.
pub record Transaction : Type 0 where
  pub kind : ℕ
  pub hash : ℕ
  pub nonce : ℕ
  pub data_field : Bytes
  pub authorization_nonces : List ℕ

-- What the code reads of a `types.Header`, a pointer or a slice that may be nil as an `Option`: `Hash()`
-- and `SanityCheck() == nil` are fields.
pub record Header : Type 0 where
  pub number : Option ℤ
  pub difficulty : Option ℤ
  pub has_extra : Bool
  pub gas_used : ℕ
  pub gas_limit : ℕ
  pub base_fee : Option ℤ
  pub is_sane : Bool
  pub hash : ℕ
  pub parent_hash : ℕ
  pub time : ℕ

-- `types.Log` and `types.Receipt`.
pub record Log : Type 0 where
  pub address : ℕ
  pub topics : Option (List ℕ)
  pub data_field : Option Bytes
  pub block_number : ℕ
  pub tx_hash : ℕ
  pub tx_index : ℕ
  pub block_hash : ℕ
  pub block_timestamp : ℕ
  pub index : ℕ
  pub removed : Bool

pub record Receipt : Type 0 where
  pub post_state : Bytes
  pub status : ℕ
  pub cumulative_gas_used : ℕ
  pub bloom : ℕ
  pub logs : Option (List (Option Log))
  pub tx_hash : ℕ
  pub gas_used : ℕ
  pub effective_gas_price : Option ℤ
  pub blob_gas_price : Option ℤ
  pub block_hash : ℕ
  pub block_number : Option ℤ
  pub transaction_index : ℕ

pub record External : Type 0 where
  -- github.com/holiman/uint256: value and overflow flag, value modulo 2 ^ 256.
  pub add_overflow : ℕ → ℕ → ℕ × Bool
  pub mul_overflow : ℕ → ℕ → ℕ × Bool
  pub sub : ℕ → ℕ → ℕ
  pub from_big : ℤ → ℕ × Bool
  pub bytes32 : ℕ → Bytes
  pub set_bytes : Bytes → ℕ
  -- go.etcd.io/bbolt: `Get`, `Put` and `Delete` of a bucket inside a transaction.
  pub get : Bytes → Entries → Option Bytes
  pub put : Bytes → Bytes → Entries → Entries
  pub delete : Bytes → Entries → Entries
  -- `UnmarshalBinary` of a transaction.
  pub unmarshal_transaction : Bytes → Option Transaction
  -- `types.CreateBloom` and `json.Marshal` of a receipt.
  pub create_bloom : Receipt → ℕ
  pub marshal_receipt : Receipt → Option Bytes
  -- `strings.ToLower` and `strings.TrimSpace`.
  pub to_lower : Bytes → Bytes
  pub trim_space : Bytes → Bytes
  -- SHA-256, as a big-endian number.
  pub sha256 : Bytes → ℕ
  pub add_overflow_lem : (a b : ℕ) → add_overflow a b ≡ ((a + b) % 2 ^ 256, leb (2 ^ 256) (a + b))
  pub mul_overflow_lem : (a b : ℕ) → mul_overflow a b ≡ ((a * b) % 2 ^ 256, leb (2 ^ 256) (a * b))
  pub from_big_lem : (v : ℕ) → from_big (pos v) ≡ (v % 2 ^ 256, leb (2 ^ 256) v)
  pub sub_lem : (a b : ℕ) → sub a b ≡ (a + 2 ^ 256 - b) % 2 ^ 256
  pub bytes32_lem : (v : ℕ) → bytes32 v ≡ be_bytes 32 v
  pub set_bytes_lem : (bs : Bytes) → length bs ≡ 32 → set_bytes bs ≡ be_value bs
  pub get_lem : (k : Bytes) (b : Entries) → get k b ≡ lookup k b
  pub put_lem : (k v : Bytes) (b : Entries) → put k v b ≡ insert k v b
  pub delete_lem : (k : Bytes) (b : Entries) → delete k b ≡ erase k b
  pub sha256-lt : (m : Bytes) → sha256 m < 2 ^ 256
