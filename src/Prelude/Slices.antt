-- ===== src/Prelude/Slices.antt =====
-- Byte slices as lists of numbers: fixed-width big-endian fields (encoding/binary) and the
-- reading of such a field from the front of what is left of a slice.
use Prim.Native.Nat.{ℕ, zero, suc, ◌+◌, ◌*◌, ◌/◌, ◌%◌, ◌^◌, ◌<◌}
use mathlib.Core.Path.{◌≡◌, refl, ap}
use mathlib.Core.Bool.{Bool, true, false, ◌&&◌}
use mathlib.Core.List.{List, [], ◌∷◌, ◌++◌}
use mathlib.Core.Option.{Option, none, some}
use native.Mathlib.Omega.{arith}
use native.Mathlib.Nat.{pow-suc}
use guard_daemon.Prelude.Tests.{ltb, ◌==◌, if◌then◌else◌}

abbrev pub Bytes : Type 0
Bytes = List ℕ

module _ {ℓ} {A : Type ℓ} where
  abbrev pub length : List A → ℕ
  length [] = 0
  length (x ∷ xs) = suc (length xs)

  abbrev pub take : ℕ → List A → List A
  take zero xs = []
  take (suc n) [] = []
  take (suc n) (x ∷ xs) = x ∷ take n xs

  abbrev pub drop : ℕ → List A → List A
  drop zero xs = xs
  drop (suc n) [] = []
  drop (suc n) (x ∷ xs) = drop n xs

  pub length-append : (xs ys : List A) → length (xs ++ ys) ≡ length xs + length ys
  length-append [] ys = omega arith
  length-append (x ∷ xs) ys = omega (arith, length-append xs ys)

  pub take-append : (n : ℕ) (xs ys : List A) → length xs ≡ n → take n (xs ++ ys) ≡ xs
  take-append zero [] ys h = refl
  take-append zero (x ∷ xs) ys h = absurd (omega arith)
  take-append (suc n) [] ys h = absurd (omega arith)
  take-append (suc n) (x ∷ xs) ys h = ap (◌∷◌ x) (take-append n xs ys (omega arith))

  pub drop-append : (n : ℕ) (xs ys : List A) → length xs ≡ n → drop n (xs ++ ys) ≡ ys
  drop-append zero [] ys h = refl
  drop-append zero (x ∷ xs) ys h = absurd (omega arith)
  drop-append (suc n) [] ys h = absurd (omega arith)
  drop-append (suc n) (x ∷ xs) ys h = drop-append n xs ys (omega arith)

abbrev pub replicate : ℕ → ℕ → Bytes
replicate zero b = []
replicate (suc n) b = b ∷ replicate n b

-- `bytes.Equal`.
abbrev pub bytes_eq : Bytes → Bytes → Bool
bytes_eq [] [] = true
bytes_eq [] (y ∷ ys) = false
bytes_eq (x ∷ xs) [] = false
bytes_eq (x ∷ xs) (y ∷ ys) = x == y && bytes_eq xs ys

pub bytes_eq→eq : (xs ys : Bytes) → bytes_eq xs ys ≡ true → xs ≡ ys
bytes_eq→eq [] [] h = refl
bytes_eq→eq [] (y ∷ ys) h = ground arith
bytes_eq→eq (x ∷ xs) [] h = ground arith
bytes_eq→eq (x ∷ xs) (y ∷ ys) h = ground (arith, bytes_eq→eq xs ys)

pub bytes_eq_refl : (xs : Bytes) → bytes_eq xs xs ≡ true
bytes_eq_refl [] = refl
bytes_eq_refl (x ∷ xs) = ground (arith, bytes_eq_refl xs)

-- `bytes.Compare(a, b) < 0`.
abbrev pub bytes_lt : Bytes → Bytes → Bool
bytes_lt xs [] = false
bytes_lt [] (y ∷ ys) = true
bytes_lt (x ∷ xs) (y ∷ ys) = if x == y then bytes_lt xs ys else ltb x y

-- The `n` lowest bytes of `v`, highest first.
unfoldable pub be_bytes : ℕ → ℕ → Bytes
be_bytes zero v = []
be_bytes (suc n) v = be_bytes n (v / 256) ++ ((v % 256) ∷ [])

be_value_from : ℕ → Bytes → ℕ
be_value_from acc [] = acc
be_value_from acc (b ∷ bs) = be_value_from (acc * 256 + b) bs

-- The number that a slice spells, highest byte first.
unfoldable pub be_value : Bytes → ℕ
unfolding be_value_from
be_value bs = be_value_from 0 bs

be_value_from-snoc :
    (acc : ℕ) (bs : Bytes) (b : ℕ)
    → be_value_from acc (bs ++ (b ∷ [])) ≡ be_value_from acc bs * 256 + b
unfolding be_value_from
be_value_from-snoc acc [] b = refl
be_value_from-snoc acc (c ∷ bs) b = be_value_from-snoc (acc * 256 + c) bs b

pub length-be_bytes : (n v : ℕ) → length (be_bytes n v) ≡ n
unfolding be_bytes
length-be_bytes zero v = refl
length-be_bytes (suc n) v =
    omega
      (arith, length-append (be_bytes n (v / 256)) ((v % 256) ∷ []), length-be_bytes n (v / 256))

pub be_value-be_bytes : (n v : ℕ) → v < 256 ^ n → be_value (be_bytes n v) ≡ v
unfolding be_bytes be_value
be_value-be_bytes zero v h = omega arith
be_value-be_bytes (suc n) v h = omega (
  arith,
  be_value_from-snoc 0 (be_bytes n (v / 256)) (v % 256),
  be_value-be_bytes n (v / 256) (omega (arith, pow-suc 256 n)),
)

-- A field of `n` bytes and the rest of the slice, or `none` where fewer bytes are left.
unfoldable pub read_field : ℕ → Bytes → Option (ℕ × Bytes)
read_field n bs = if ltb (length bs) n then none else some (be_value (take n bs), drop n bs)

pub read_field-append :
    (n v : ℕ) (rest : Bytes) → v < 256 ^ n → read_field n (be_bytes n v ++ rest) ≡ some (v, rest)
unfolding read_field
read_field-append n v rest h =
    rw
      (
        take-append n (be_bytes n v) rest (length-be_bytes n v),
        drop-append n (be_bytes n v) rest (length-be_bytes n v),
        be_value-be_bytes n v h,
      )
      (ground (arith, length-append (be_bytes n v) rest, length-be_bytes n v))

pub be_bytes-injective :
    (n v w : ℕ) → v < 256 ^ n → w < 256 ^ n → be_bytes n v ≡ be_bytes n w → v ≡ w
be_bytes-injective n v w hv hw e =
    cc (be_value-be_bytes n v hv, be_value-be_bytes n w hw, ap be_value e)

-- One byte, and a slice of a length that was read before.
unfoldable pub read_byte : Bytes → Option (ℕ × Bytes)
read_byte [] = none
read_byte (b ∷ bs) = some (b, bs)

unfoldable pub read_slice : ℕ → Bytes → Option (Bytes × Bytes)
read_slice n bs = if ltb (length bs) n then none else some (take n bs, drop n bs)

pub read_slice-append : (xs rest : Bytes) → read_slice (length xs) (xs ++ rest) ≡ some (xs, rest)
unfolding read_slice
read_slice-append xs rest =
    rw (take-append (length xs) xs rest refl, drop-append (length xs) xs rest refl)
      (ground (arith, length-append xs rest))
