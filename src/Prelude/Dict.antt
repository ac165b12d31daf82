-- ===== src/Prelude/Dict.antt =====
-- Reference behaviour of a bucket: an association list in key order.
use Prim.Native.Nat.{ℕ, ◌+◌, ◌≤◌}
use mathlib.Core.Path.{◌≡◌, refl, subst}
use mathlib.Core.Logic.{inl, inr}
use mathlib.Core.Bool.{Bool, true, false}
use mathlib.Core.List.{List, [], ◌∷◌}
use mathlib.Core.Option.{Option, none, some}
use native.Mathlib.Omega.{arith}
use guard_daemon.Prelude.Tests.{if◌then◌else◌, Bool-cases, Option-cases}
use guard_daemon.Prelude.Slices.{Bytes, bytes_eq, bytes_eq→eq, bytes_eq_refl, bytes_lt}

abbrev pub Entries : Type 0
Entries = List (Bytes × Bytes)

abbrev pub lookup : Bytes → Entries → Option Bytes
lookup k [] = none
lookup k ((j, v) ∷ d) = if bytes_eq k j then some v else lookup k d

-- The first entry of the key gets the value; a new key goes before the first larger key.
abbrev pub place : Bytes → Bytes → Entries → Entries
place k v [] = (k, v) ∷ []
place k v ((j, w) ∷ d) = if bytes_lt k j then (k, v) ∷ (j, w) ∷ d else (j, w) ∷ place k v d

abbrev pub overwrite : Bytes → Bytes → Entries → Entries
overwrite k v [] = []
overwrite k v ((j, w) ∷ d) = if bytes_eq k j then (j, v) ∷ d else (j, w) ∷ overwrite k v d

abbrev pub insert : Bytes → Bytes → Entries → Entries
insert k v d = elim (lookup k d) [ none ↦ place k v d | some _ ↦ overwrite k v d ]

abbrev pub erase : Bytes → Entries → Entries
erase k [] = []
erase k ((j, w) ∷ d) = if bytes_eq k j then d else (j, w) ∷ erase k d

-- The sum of a weight over the entries.
abbrev pub total : (Bytes → Bytes → ℕ) → Entries → ℕ
total w [] = 0
total w ((k, v) ∷ d) = w k v + total w d

pub total-place :
    (w : Bytes → Bytes → ℕ) (k v : Bytes) (d : Entries) → total w (place k v d) ≡ w k v + total w d
total-place w k v [] = refl
total-place w k v ((j, u) ∷ d) = ground (arith, total-place w k v d)

pub total-overwrite :
    (w : Bytes → Bytes → ℕ) (k v old : Bytes) (d : Entries)
    → lookup k d ≡ some old
    → total w (overwrite k v d) + w k old ≡ total w d + w k v
total-overwrite w k v old [] e = ground arith
total-overwrite w k v old ((j, u) ∷ d) e =
    ground (arith, bytes_eq→eq k j, total-overwrite w k v old d)

pub total-insert_new :
    (w : Bytes → Bytes → ℕ) (k v : Bytes) (d : Entries)
    → lookup k d ≡ none
    → total w (insert k v d) ≡ w k v + total w d
total-insert_new w k v d e = ground (arith, total-place w k v d)

pub total-insert :
    (w : Bytes → Bytes → ℕ) (k v old : Bytes) (d : Entries)
    → lookup k d ≡ some old
    → total w (insert k v d) + w k old ≡ total w d + w k v
total-insert w k v old d e = ground (arith, total-overwrite w k v old d e)

pub total-erase :
    (w : Bytes → Bytes → ℕ) (k old : Bytes) (d : Entries)
    → lookup k d ≡ some old
    → total w (erase k d) + w k old ≡ total w d
total-erase w k old [] e = ground arith
total-erase w k old ((j, u) ∷ d) e = ground (arith, bytes_eq→eq k j, total-erase w k old d)

total-overwrite_le :
    (w : Bytes → Bytes → ℕ) (k v : Bytes) (d : Entries)
    → total w (overwrite k v d) ≤ w k v + total w d
total-overwrite_le w k v [] = omega arith
total-overwrite_le w k v ((j, u) ∷ d) = ground (arith, bytes_eq→eq k j, total-overwrite_le w k v d)

-- A write adds at most the new weight, and a removal adds nothing.
pub total-insert_le :
    (w : Bytes → Bytes → ℕ) (k v : Bytes) (d : Entries) → total w (insert k v d) ≤ w k v + total w d
total-insert_le w k v d = ground (arith, total-place w k v d, total-overwrite_le w k v d)

pub total-erase_le :
    (w : Bytes → Bytes → ℕ) (k : Bytes) (d : Entries) → total w (erase k d) ≤ total w d
total-erase_le w k [] = omega arith
total-erase_le w k ((j, u) ∷ d) = ground (arith, total-erase_le w k d)

lookup-place_ne :
    (j k v : Bytes) (d : Entries) → bytes_eq j k ≡ false → lookup j (place k v d) ≡ lookup j d
lookup-place_ne j k v [] h = ground arith
lookup-place_ne j k v ((i, u) ∷ d) h = ground (arith, lookup-place_ne j k v d h)

lookup-overwrite_ne :
    (j k v : Bytes) (d : Entries) → bytes_eq j k ≡ false → lookup j (overwrite k v d) ≡ lookup j d
lookup-overwrite_ne j k v [] h = refl
lookup-overwrite_ne j k v ((i, u) ∷ d) h =
    ground (arith, lookup-overwrite_ne j k v d h, bytes_eq→eq k i)

pub lookup-insert_ne :
    (j k v : Bytes) (d : Entries) → bytes_eq j k ≡ false → lookup j (insert k v d) ≡ lookup j d
lookup-insert_ne j k v d h =
    ground (arith, lookup-place_ne j k v d h, lookup-overwrite_ne j k v d h)

lookup-place_self :
    (k v : Bytes) (d : Entries) → lookup k d ≡ none → lookup k (place k v d) ≡ some v
lookup-place_self k v [] h = ground (arith, bytes_eq_refl k)
lookup-place_self k v ((i, u) ∷ d) h = ground (arith, bytes_eq_refl k, lookup-place_self k v d)

lookup-overwrite_self :
    (k v old : Bytes) (d : Entries) → lookup k d ≡ some old → lookup k (overwrite k v d) ≡ some v
lookup-overwrite_self k v old [] h = ground arith
lookup-overwrite_self k v old ((i, u) ∷ d) h = ground (arith, lookup-overwrite_self k v old d)

pub lookup-insert_self : (k v : Bytes) (d : Entries) → lookup k (insert k v d) ≡ some v
lookup-insert_self k v d = elim (Option-cases (lookup k d)) [
  | inl e ↦ ground (arith, lookup-place_self k v d e)
  | inr (old, e) ↦ ground (arith, lookup-overwrite_self k v old d e)
]

pub lookup-erase_ne :
    (j k : Bytes) (d : Entries) → bytes_eq j k ≡ false → lookup j (erase k d) ≡ lookup j d
lookup-erase_ne j k [] h = refl
lookup-erase_ne j k ((i, u) ∷ d) h = ground (arith, lookup-erase_ne j k d h, bytes_eq→eq k i)

-- A property of every value.
abbrev pub AllValues : (Bytes → Type 0) → Entries → Type 0
AllValues P [] = Unit {0}
AllValues P ((k, v) ∷ d) = P v × AllValues P d

AllValues-if :
    (P : Bytes → Type 0) (b : Bool) (d e : Entries)
    → AllValues P d
    → AllValues P e
    → AllValues P (if b then d else e)
AllValues-if P true d e h k = h
AllValues-if P false d e h k = k

AllValues-place :
    (P : Bytes → Type 0) (k v : Bytes) (d : Entries)
    → P v
    → AllValues P d
    → AllValues P (place k v d)
AllValues-place P k v [] p h = (p, tt)
AllValues-place P k v ((j, u) ∷ d) p h =
    AllValues-if P (bytes_lt k j) _ _ (p, h) (h.0, AllValues-place P k v d p h.1)

AllValues-overwrite :
    (P : Bytes → Type 0) (k v : Bytes) (d : Entries)
    → P v
    → AllValues P d
    → AllValues P (overwrite k v d)
AllValues-overwrite P k v [] p h = tt
AllValues-overwrite P k v ((j, u) ∷ d) p h =
    AllValues-if P (bytes_eq k j) _ _ (p, h.1) (h.0, AllValues-overwrite P k v d p h.1)

pub AllValues-insert :
    (P : Bytes → Type 0) (k v : Bytes) (d : Entries)
    → P v
    → AllValues P d
    → AllValues P (insert k v d)
AllValues-insert P k v d p h = split (lookup k d)
  where
    split :
        (o : Option Bytes) → AllValues P (elim o [ none ↦ place k v d | some _ ↦ overwrite k v d ])
    split none = AllValues-place P k v d p h
    split (some old) = AllValues-overwrite P k v d p h

pub AllValues-erase :
    (P : Bytes → Type 0) (k : Bytes) (d : Entries) → AllValues P d → AllValues P (erase k d)
AllValues-erase P k [] h = tt
AllValues-erase P k ((j, u) ∷ d) h =
    AllValues-if P (bytes_eq k j) _ _ h.1 (h.0, AllValues-erase P k d h.1)

pub AllValues-lookup :
    (P : Bytes → Type 0) (k : Bytes) (d : Entries) {v : Bytes}
    → AllValues P d
    → lookup k d ≡ some v
    → P v
AllValues-lookup P k [] {v} h e = absurd (ground arith)
AllValues-lookup P k ((j, u) ∷ d) {v} h e = elim (Bool-cases (bytes_eq k j)) [
  | inl same ↦ subst P (ground (arith, same)) h.0
  | inr other ↦ AllValues-lookup P k d {v = v} h.1 (ground (arith, other))
]
