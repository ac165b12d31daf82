-- ===== src/Rpc/Identities.antt =====
-- The providers of a reader (`NewQuorumReader`, `validateProviders`, `validateProviderIdentities`).
-- A map's keys are a list; the reader of a provider is its pointer, `none` where `readerInstanceID`
-- finds none.
use guard_daemon.Prelude.{
  if◌then◌else◌, ap, ℕ, ℤ, pos, negsuc, ◌≤◌, ◌≡◌, refl, sym, ap, ◌∙◌, Bool, true, false, not, ◌||◌,
  Option, none, some, List, [], ◌∷◌, map, Bytes, length, bytes_eq, bytes_eq→eq, bytes_eq_refl, ltb,
  ◌==◌, arith, fail_if-eq-ok, Bool-cases, inl, inr,
}
use guard_daemon.External.{External}
use guard_daemon.Rpc.{
  QuorumError, Answer, ProviderIdentity, ok, err, ◌>>◌, fail_if, >>=-eq-ok, ok_injective,
  invalid_providers, invalid_timeout,
}

pub record Provider : Type 0 where
  pub identity : ProviderIdentity
  pub reader : Option ℕ
  pub has_close : Bool

-- A reader; `is_closed` is whether `closeOnce` has run.
pub record QuorumReader : Type 0 where
  pub providers : List Provider
  pub timeout : ℕ
  pub is_closed : Bool

-- The providers that a call of `Close` closes, and the reader after it.
pub close : QuorumReader → List Provider × QuorumReader
close reader =
    if reader.is_closed
    then ([], reader)
    else (reader.providers, record reader { is_closed = true })

-- `_, exists := seen[key]`.
unfoldable pub member : Bytes → List Bytes → Bool
member k [] = false
member k (j ∷ seen) = bytes_eq k j || member k seen

unfoldable pub reader_member : ℕ → List ℕ → Bool
reader_member k [] = false
reader_member k (j ∷ seen) = k == j || reader_member k seen

-- No key of a list occurs again in it.
abbrev pub Distinct : List Bytes → Type 0
Distinct [] = Unit {0}
Distinct (k ∷ ks) = (member k ks ≡ false) × Distinct ks

-- The keys are none of those seen, and distinct.
record IsFresh (seen ks : List Bytes) : Type 0 where
  distinct : Distinct ks
  unseen : (k : Bytes) → member k seen ≡ true → member k ks ≡ false

IsFresh-nil : (seen : List Bytes) → IsFresh seen []
unfolding member
IsFresh-nil seen = record { distinct = tt; unseen = λ k q. refl }

IsFresh-cons :
    (k : Bytes) (seen ks : List Bytes)
    → member k seen ≡ false
    → IsFresh (k ∷ seen) ks
    → IsFresh seen (k ∷ ks)
unfolding member
IsFresh-cons k seen ks absent f = record {
  distinct = (f.unseen k (ground (arith, bytes_eq_refl k)), f.distinct);
  unseen = λ (j : Bytes) (q : member j seen ≡ true). elim (Bool-cases (bytes_eq j k)) [
    | inl e ↦ absurd (true≢false (sym q ∙ ap (λ k. member k seen) (bytes_eq→eq j k e) ∙ absent))
    | inr e ↦ rw e (f.unseen j (rw e q))
  ];
}
  where
    true≢false : true ≡ false → ⊥
    true≢false h = cc

module _ ⦃x : External⦄ where
  abbrev pub normalized_identity : Bytes → Bytes
  normalized_identity value = x.to_lower (x.trim_space value)

  unfoldable pub check_identities :
      List Bytes → List Bytes → List Bytes → List ProviderIdentity → Answer (Unit {0})
  unfolding member
  check_identities ids fingerprints trust_domains [] = ok tt
  check_identities ids fingerprints trust_domains (i ∷ identities) =
      let id = normalized_identity i.id in
      let fingerprint = normalized_identity i.fingerprint in
      let trust_domain = normalized_identity i.trust_domain in
      do
        fail_if (length id == 0 || length fingerprint == 0 || length trust_domain == 0)
            invalid_providers
        fail_if (member id ids) invalid_providers
        fail_if (member fingerprint fingerprints) invalid_providers
        fail_if (member trust_domain trust_domains) invalid_providers
        check_identities (id ∷ ids) (fingerprint ∷ fingerprints) (trust_domain ∷ trust_domains)
            identities

  unfoldable pub validate_provider_identities : List ProviderIdentity → Answer (Unit {0})
  unfolding check_identities
  validate_provider_identities identities =
      fail_if (ltb (length identities) 2) invalid_providers >> check_identities [] [] [] identities

  unfoldable pub check_readers : List ℕ → List Provider → Answer (Unit {0})
  unfolding reader_member
  check_readers readers [] = ok tt
  check_readers readers (p ∷ providers) = elim p.reader [
    | none ↦ err invalid_providers
    | some reader ↦
        fail_if (not p.has_close) invalid_providers
        >> fail_if (reader_member reader readers) invalid_providers
        >> check_readers (reader ∷ readers) providers
  ]

  unfoldable pub validate_providers : List Provider → Answer (Unit {0})
  unfolding validate_provider_identities check_readers
  validate_providers providers = do
    fail_if (ltb (length providers) 2) invalid_providers
    check_readers [] providers
    validate_provider_identities (map (λ (p : Provider). p.identity) providers)

  -- The providers of the reader; the timeout is a duration.
  unfoldable pub new_quorum_reader : List Provider → ℤ → Answer QuorumReader
  unfolding validate_providers
  new_quorum_reader providers (negsuc _) = err invalid_timeout
  new_quorum_reader providers (pos timeout) = do
    fail_if (timeout == 0) invalid_timeout
    validate_providers providers
    ok (record { providers = providers; timeout = timeout; is_closed = false })

  check_identities-IsFresh :
      (ids fingerprints trust_domains : List Bytes) (identities : List ProviderIdentity)
      → check_identities ids fingerprints trust_domains identities ≡ ok tt
      → IsFresh ids (map (λ (i : ProviderIdentity). normalized_identity i.id) identities)
        × IsFresh fingerprints
            (map (λ (i : ProviderIdentity). normalized_identity i.fingerprint) identities)
        × IsFresh trust_domains
            (map (λ (i : ProviderIdentity). normalized_identity i.trust_domain) identities)
  unfolding check_identities
  check_identities-IsFresh ids fingerprints trust_domains [] e =
      (IsFresh-nil ids, IsFresh-nil fingerprints, IsFresh-nil trust_domains)
  check_identities-IsFresh ids fingerprints trust_domains (i ∷ identities) e =
      let id = normalized_identity i.id in
      let fingerprint = normalized_identity i.fingerprint in
      let trust_domain = normalized_identity i.trust_domain in
      let (_, e1) =
        fail_if-eq-ok (length id == 0 || length fingerprint == 0 || length trust_domain == 0)
          invalid_providers _ e in
      let (new_id, e2) = fail_if-eq-ok (member id ids) invalid_providers _ e1 in
      let (new_fingerprint, e3) =
        fail_if-eq-ok (member fingerprint fingerprints) invalid_providers _ e2 in
      let (new_domain, e4) =
        fail_if-eq-ok (member trust_domain trust_domains) invalid_providers _ e3 in
      let (a, b, c) =
        check_identities-IsFresh (id ∷ ids) (fingerprint ∷ fingerprints)
          (trust_domain ∷ trust_domains) identities e4 in
      (
        IsFresh-cons id ids _ new_id a,
        IsFresh-cons fingerprint fingerprints _ new_fingerprint b,
        IsFresh-cons trust_domain trust_domains _ new_domain c,
      )

  -- The providers of a reader that is made are two or more, and no two of them have an identifier, a
  -- fingerprint or a trust domain in common, as these are once normalized.
  pub new_quorum_reader-Distinct :
      (providers : List Provider) (timeout : ℤ) {made : QuorumReader}
      → new_quorum_reader providers timeout ≡ ok made
      → (made.providers ≡ providers)
        × (2 ≤ length providers)
        × Distinct (
            map
              (λ (i : ProviderIdentity). normalized_identity i.id)
              (map (λ (p : Provider). p.identity) providers))
        × Distinct (
            map
              (λ (i : ProviderIdentity). normalized_identity i.fingerprint)
              (map (λ (p : Provider). p.identity) providers))
        × Distinct (
            map
              (λ (i : ProviderIdentity). normalized_identity i.trust_domain)
              (map (λ (p : Provider). p.identity) providers))
  unfolding new_quorum_reader validate_providers validate_provider_identities
  new_quorum_reader-Distinct providers (negsuc n) e = absurd (ground arith)
  new_quorum_reader-Distinct providers (pos timeout) e =
      let identities = map (λ (p : Provider). p.identity) providers in
      let (_, e1) = fail_if-eq-ok (timeout == 0) invalid_timeout _ e in
      let (_, v, e2) = >>=-eq-ok (validate_providers providers) _ e1 in
      let (many, v1) = fail_if-eq-ok (ltb (length providers) 2) invalid_providers _ v in
      let (_, _, v2) = >>=-eq-ok (check_readers [] providers) _ v1 in
      let (_, v3) = fail_if-eq-ok (ltb (length identities) 2) invalid_providers _ v2 in
      let (ids, fingerprints, domains) = check_identities-IsFresh [] [] [] identities v3 in
      (
        sym (ap (λ (r : QuorumReader). r.providers) (ok_injective {E = QuorumError} e2)),
        ground arith,
        ids.distinct,
        fingerprints.distinct,
        domains.distinct,
      )
