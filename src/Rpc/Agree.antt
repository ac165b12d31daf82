-- ===== src/Rpc/Agree.antt =====
-- The loop that compares the answers of a round: every answer is read, the first is kept, and each
-- other must be the same.
use guard_daemon.Prelude.{
  ℕ, zero, suc, ◌<◌, ◌≡◌, refl, sym, ◌⊎◌, inl, inr, Bool, true, not, Option, none, some, List, [],
  ◌∷◌, length, arith, fail_if-eq-ok,
}
use mathlib.Core.Path.{subst}
use mathlib.Core.Option.{some-injective}
use guard_daemon.Rpc.{
  QuorumError, Answer, ok, ◌>>=◌, ◌>>◌, fail_if, >>=-eq-ok, ok_injective, quorum_mismatch,
}
use guard_daemon.Rpc.Collect.{nth, Round, Answered, collect_providers, collect_providers-Answered}

pub nth-some {ℓ} :
    {A : Type ℓ} (j : ℕ) (xs : List A) → j < length xs → (x : A) × (nth j xs ≡ some x)
unfolding nth
nth-some j [] h = absurd (omega arith)
nth-some zero (x ∷ xs) h = (x, refl)
nth-some (suc j) (x ∷ xs) h = nth-some j xs (omega arith)

module _ {ℓ κ} {A : Type ℓ} {B : Type κ} (read : Option A → Answer B) (same : B → B → Bool) where
  unfoldable pub agree : Option B → List (Option A) → Answer (Option B)
  agree agreed [] = ok agreed
  agree agreed (v ∷ vs) = read v >>= λ b. elim agreed [
    | none ↦ agree (some b) vs
    | some a ↦ fail_if (not (same a b)) quorum_mismatch >> agree (some a) vs
  ]

  -- The answer reads as the value, or as one that is the same.
  abbrev pub ReadsAs : B → Option A → Type κ
  ReadsAs a v = (b : B) × (read v ≡ ok b) × ((a ≡ b) ⊎ (same a b ≡ true))

  agree-rest :
      (a : B) (vs : List (Option A)) {o : Option B}
      → agree (some a) vs ≡ ok o
      → (o ≡ some a) × ((j : ℕ) (v : Option A) → nth j vs ≡ some v → ReadsAs a v)
  unfolding agree nth
  agree-rest a [] h = (sym (ok_injective {E = QuorumError} h), λ j v q. absurd (ground arith))
  agree-rest a (w ∷ vs) h =
      let (b, r, h1) = >>=-eq-ok (read w) _ h in
      let (differs, h2) = fail_if-eq-ok (not (same a b)) _ _ h1 in
      let (o_eq, others) = agree-rest a vs h2 in
      let equal : same a b ≡ true = ground arith in
      (o_eq, λ (j : ℕ) (v : Option A) q. pick j v q (b, r, inr equal) others)
    where
      pick :
          (j : ℕ) (v : Option A)
          → nth j (w ∷ vs) ≡ some v
          → ReadsAs a w
          → ((j : ℕ) (v : Option A) → nth j vs ≡ some v → ReadsAs a v)
          → ReadsAs a v
      pick zero v q first others = subst (ReadsAs a) (some-injective w v q) first
      pick (suc j) v q first others = others j v q

  agree-all :
      (vs : List (Option A)) {o : Option B}
      → 0 < length vs
      → agree none vs ≡ ok o
      → (a : B) × (o ≡ some a)
        × ((w : Option A) × (nth 0 vs ≡ some w) × (read w ≡ ok a))
        × ((j : ℕ) (v : Option A) → nth j vs ≡ some v → ReadsAs a v)
  unfolding agree nth
  agree-all [] p h = absurd (omega arith)
  agree-all (w ∷ vs) p h =
      let (b, r, h1) = >>=-eq-ok (read w) _ h in
      let (o_eq, others) = agree-rest b vs h1 in
      (b, o_eq, (w, refl, r), λ (j : ℕ) (v : Option A) q. pick b j v q (b, r, inl refl) others)
    where
      pick :
          (a : B) (j : ℕ) (v : Option A)
          → nth j (w ∷ vs) ≡ some v
          → ReadsAs a w
          → ((j : ℕ) (v : Option A) → nth j vs ≡ some v → ReadsAs a v)
          → ReadsAs a v
      pick a zero v q first others = subst (ReadsAs a) (some-injective w v q) first
      pick a (suc j) v q first others = others j v q

  -- A round of answers that agree.
  unfoldable pub agreed_value : ℕ → Round A → Answer (Option B)
  agreed_value providers round = collect_providers providers round >>= λ values. agree none values

  -- What a round of one provider or more agrees on is what each of them answered.
  pub agreed_value-Answered :
      (providers : ℕ) (round : Round A) {o : Option B}
      → 0 < providers
      → ((b : B) → read none ≡ ok b → ⊥)
      → agreed_value providers round ≡ ok o
      → (a : B) × (o ≡ some a)
        × ((v : A) × Answered round 0 v × (read (some v) ≡ ok a))
        × ((j : ℕ) → j < providers → (v : A) × Answered round j v × ReadsAs a (some v))
  unfolding agreed_value
  agreed_value-Answered providers round p refused h =
      let (values, c, h1) = >>=-eq-ok (collect_providers providers round) _ h in
      let (long, answers) = collect_providers-Answered providers round c in
      let (a, o_eq, (w, w_found, w_reads), all) = agree-all values (omega (arith, long)) h1 in
      (
        a,
        o_eq,
        begun values w w_found (answers 0) w_reads,
        λ (j : ℕ) (q : j < providers).
            let (slot, found) = nth-some j values (omega (arith, long)) in
            given values slot found (answers j) (all j slot found),
      )
    where
      begun :
          {a : B} (values : List (Option A)) (slot : Option A)
          → nth 0 values ≡ some slot
          → ((v : A) → nth 0 values ≡ some (some v) → Answered round 0 v)
          → read slot ≡ ok a
          → (v : A) × Answered round 0 v × (read (some v) ≡ ok a)
      begun values none found answers reading = absurd (refused _ reading)
      begun values (some v) found answers reading = (v, answers v found, reading)

      given :
          {j : ℕ} {a : B} (values : List (Option A)) (slot : Option A)
          → nth j values ≡ some slot
          → ((v : A) → nth j values ≡ some (some v) → Answered round j v)
          → ReadsAs a slot
          → (v : A) × Answered round j v × ReadsAs a (some v)
      given values none found answers (b, r, _) = absurd (refused b r)
      given values (some v) found answers reads = (v, answers v found, reads)
