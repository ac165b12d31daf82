-- ===== src/Tests/World.antt =====
-- A concrete `External`: the documented arithmetic and buckets, with a digest that is easy to compute.
use guard_daemon.Prelude.{
  Option, none, some, [], ◌∷◌, Bytes, ℕ, ℤ, pos, negsuc, ◌+◌, ◌-◌, ◌*◌, ◌%◌, ◌^◌, refl, Bool, true,
  leb, lookup, insert, erase, be_bytes, be_value, arith,
}
use guard_daemon.External.{External, Transaction}

abbrev from_big : ℤ → ℕ × Bool
from_big (pos v) = (v % 2 ^ 256, leb (2 ^ 256) v)
from_big (negsuc v) = (0, true)

-- Two bytes read as the hash and the nonce of a transaction.
abbrev read_transaction : Bytes → Option Transaction
read_transaction (hash ∷ nonce ∷ []) = some (record {
  kind = 4;
  hash = hash;
  nonce = nonce;
  data_field = hash ∷ [];
  authorization_nonces = nonce ∷ [];
})
read_transaction _ = none

abbrev pub world : External
world = record {
  add_overflow = λ a b. ((a + b) % 2 ^ 256, leb (2 ^ 256) (a + b));
  mul_overflow = λ a b. ((a * b) % 2 ^ 256, leb (2 ^ 256) (a * b));
  sub = λ a b. (a + 2 ^ 256 - b) % 2 ^ 256;
  from_big = from_big;
  bytes32 = λ v. be_bytes 32 v;
  set_bytes = λ bs. be_value bs;
  get = λ k b. lookup k b;
  put = λ k v b. insert k v b;
  delete = λ k b. erase k b;
  unmarshal_transaction = read_transaction;
  create_bloom = λ r. 0;
  marshal_receipt = λ r. some (r.status ∷ r.gas_used ∷ []);
  to_lower = λ bs. bs;
  trim_space = λ bs. bs;
  sha256 = λ m. be_value m % 2 ^ 256;
  add_overflow_lem = λ a b. refl;
  mul_overflow_lem = λ a b. refl;
  from_big_lem = λ v. refl;
  sub_lem = λ a b. refl;
  bytes32_lem = λ v. refl;
  set_bytes_lem = λ bs h. refl;
  get_lem = λ k b. refl;
  put_lem = λ k v b. refl;
  delete_lem = λ k b. refl;
  sha256-lt = λ m. omega arith;
}
