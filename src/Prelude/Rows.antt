-- ===== src/Prelude/Rows.antt =====
-- A bucket has one value for a key: rows whose keys are distinct, and a property of every row.
use mathlib.Core.Path.{◌≡◌, refl, sym, subst}
use mathlib.Core.Logic.{inl, inr}
use mathlib.Core.Bool.{false}
use mathlib.Core.List.{[], ◌∷◌}
use mathlib.Core.Option.{none, some}
use native.Mathlib.Omega.{arith}
use guard_daemon.Prelude.Tests.{Bool-cases, Option-cases}
use guard_daemon.Prelude.Slices.{Bytes, bytes_eq, bytes_eq→eq, bytes_lt}
use guard_daemon.Prelude.Dict.{Entries, lookup, place, overwrite, insert, erase}

abbrev pub UniqueKeys : Entries → Type 0
UniqueKeys [] = Unit {0}
UniqueKeys ((k, v) ∷ d) = (lookup k d ≡ none) × UniqueKeys d

pub bytes_eq_sym : (a b : Bytes) → bytes_eq a b ≡ bytes_eq b a
bytes_eq_sym [] [] = refl
bytes_eq_sym [] (y ∷ ys) = refl
bytes_eq_sym (x ∷ xs) [] = refl
bytes_eq_sym (x ∷ xs) (y ∷ ys) = ground (arith, bytes_eq_sym xs ys)

lookup-place-none :
    (j k v : Bytes) (d : Entries)
    → bytes_eq j k ≡ false
    → lookup j d ≡ none
    → lookup j (place k v d) ≡ none
lookup-place-none j k v [] n h = ground arith
lookup-place-none j k v ((i, u) ∷ d) n h = ground (arith, lookup-place-none j k v d n)

lookup-overwrite-none :
    (j k v : Bytes) (d : Entries) → lookup j d ≡ none → lookup j (overwrite k v d) ≡ none
lookup-overwrite-none j k v [] h = refl
lookup-overwrite-none j k v ((i, u) ∷ d) h = ground (arith, lookup-overwrite-none j k v d)

pub lookup-erase-none :
    (j k : Bytes) (d : Entries) → lookup j d ≡ none → lookup j (erase k d) ≡ none
lookup-erase-none j k [] h = refl
lookup-erase-none j k ((i, u) ∷ d) h = ground (arith, lookup-erase-none j k d)

UniqueKeys-place :
    (k v : Bytes) (d : Entries) → lookup k d ≡ none → UniqueKeys d → UniqueKeys (place k v d)
UniqueKeys-place k v [] n h = (refl, tt)
UniqueKeys-place k v ((j, w) ∷ d) n h = elim (Bool-cases (bytes_lt k j)) [
  | inl e ↦ rw e (n, h)
  | inr e ↦ rw e (
    lookup-place-none j k v d (ground (arith, bytes_eq_sym j k)) h.0,
    UniqueKeys-place k v d (ground arith) h.1,
  )
]

UniqueKeys-overwrite : (k v : Bytes) (d : Entries) → UniqueKeys d → UniqueKeys (overwrite k v d)
UniqueKeys-overwrite k v [] h = tt
UniqueKeys-overwrite k v ((j, w) ∷ d) h = elim (Bool-cases (bytes_eq k j)) [
  | inl e ↦ rw e h
  | inr e ↦ rw e (lookup-overwrite-none j k v d h.0, UniqueKeys-overwrite k v d h.1)
]

pub UniqueKeys-insert : (k v : Bytes) (d : Entries) → UniqueKeys d → UniqueKeys (insert k v d)
UniqueKeys-insert k v d h = elim (Option-cases (lookup k d)) [
  | inl e ↦ rw (insert, e) (UniqueKeys-place k v d e h)
  | inr (old, e) ↦ rw (insert, e) (UniqueKeys-overwrite k v d h)
]

pub UniqueKeys-erase : (k : Bytes) (d : Entries) → UniqueKeys d → UniqueKeys (erase k d)
UniqueKeys-erase k [] h = tt
UniqueKeys-erase k ((j, w) ∷ d) h = elim (Bool-cases (bytes_eq k j)) [
  | inl e ↦ rw e h.1
  | inr e ↦ rw e (lookup-erase-none j k d h.0, UniqueKeys-erase k d h.1)
]

-- A property of every row.
abbrev pub AllRows : (Bytes → Bytes → Type 0) → Entries → Type 0
AllRows P [] = Unit {0}
AllRows P ((k, v) ∷ d) = P k v × AllRows P d

AllRows-place :
    (P : Bytes → Bytes → Type 0) (k v : Bytes) (d : Entries)
    → P k v
    → AllRows P d
    → AllRows P (place k v d)
AllRows-place P k v [] p h = (p, tt)
AllRows-place P k v ((j, w) ∷ d) p h = elim (Bool-cases (bytes_lt k j)) [
  | inl e ↦ rw e (p, h)
  | inr e ↦ rw e (h.0, AllRows-place P k v d p h.1)
]

AllRows-overwrite :
    (P : Bytes → Bytes → Type 0) (k v : Bytes) (d : Entries)
    → P k v
    → AllRows P d
    → AllRows P (overwrite k v d)
AllRows-overwrite P k v [] p h = tt
AllRows-overwrite P k v ((j, w) ∷ d) p h = elim (Bool-cases (bytes_eq k j)) [
  | inl e ↦ rw e (subst (λ j. P j v) (bytes_eq→eq k j e) p, h.1)
  | inr e ↦ rw e (h.0, AllRows-overwrite P k v d p h.1)
]

pub AllRows-insert :
    (P : Bytes → Bytes → Type 0) (k v : Bytes) (d : Entries)
    → P k v
    → AllRows P d
    → AllRows P (insert k v d)
AllRows-insert P k v d p h = elim (Option-cases (lookup k d)) [
  | inl e ↦ rw (insert, e) (AllRows-place P k v d p h)
  | inr (old, e) ↦ rw (insert, e) (AllRows-overwrite P k v d p h)
]

pub AllRows-erase :
    (P : Bytes → Bytes → Type 0) (k : Bytes) (d : Entries) → AllRows P d → AllRows P (erase k d)
AllRows-erase P k [] h = tt
AllRows-erase P k ((j, w) ∷ d) h = elim (Bool-cases (bytes_eq k j)) [
  | inl e ↦ rw e h.1
  | inr e ↦ rw e (h.0, AllRows-erase P k d h.1)
]

pub AllRows-lookup :
    (P : Bytes → Bytes → Type 0) (k : Bytes) (d : Entries) {v : Bytes}
    → AllRows P d
    → lookup k d ≡ some v
    → P k v
AllRows-lookup P k [] h e = absurd (ground arith)
AllRows-lookup P k ((j, w) ∷ d) {v} h e = elim (Bool-cases (bytes_eq k j)) [
  | inl same ↦
      let keys = bytes_eq→eq k j same in
      subst (λ k. P k v) (sym keys) (subst (P j) (ground (arith, same)) h.0)
  | inr other ↦ AllRows-lookup P k d {v = v} h.1 (ground (arith, other))
]

-- Where the keys are distinct, a key that was removed is gone.
pub lookup-erase_self : (k : Bytes) (d : Entries) → UniqueKeys d → lookup k (erase k d) ≡ none
lookup-erase_self k [] h = refl
lookup-erase_self k ((j, w) ∷ d) h = elim (Bool-cases (bytes_eq k j)) [
  | inl e ↦ rw (e, bytes_eq→eq k j e) h.0
  | inr e ↦ rw e (rw e (lookup-erase_self k d h.1))
]
