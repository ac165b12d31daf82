-- ===== src/Rpc/Headers/Heads.antt =====
-- What the providers answered where a block is agreed on.
use guard_daemon.Prelude.{
  ℕ, zero, suc, ◌^◌, ◌-◌, ◌<◌, ◌≤◌, ◌≡◌, refl, ap, sym, ◌∙◌, ◌⊎◌, inl, inr, Bool, true, false,
  Option, none, some, List, [], ◌∷◌, arith, ltb, ◌==◌, if◌then◌else◌,
}
use mathlib.Core.Option.{some-injective}
use guard_daemon.External.{Header}
use guard_daemon.Rpc.{BlockRef, QuorumError, ok, >>=-eq-ok, ok_injective}
use guard_daemon.Rpc.Collect.{nth, Round, Answered, collect_providers, collect_providers-Answered}
use guard_daemon.Rpc.Agree.{nth-some, agreed_value, agreed_value-Answered}
use guard_daemon.Rpc.Headers.{
  ref_eq, block_ref_from_header, header, scan_heads, common_head, value_or, zero_ref,
}

pub ref_eq→eq : (a b : BlockRef) → ref_eq a b ≡ true → a ≡ b
ref_eq→eq a b h =
    let number : a.number ≡ b.number = ground arith in
    let hash : a.hash ≡ b.hash = ground arith in
    let parent : a.parent_hash ≡ b.parent_hash = ground arith in
    let time : a.timestamp ≡ b.timestamp = ground arith in
    λ i. record { number = number i; hash = hash i; parent_hash = parent i; timestamp = time i }

block_ref-number :
    (number : ℕ) (h : Header) {ref : BlockRef}
    → block_ref_from_header (some number) (some h) ≡ ok ref
    → ref.number ≡ number
unfolding block_ref_from_header
block_ref-number number h e = ground arith

pub block_ref-hash :
    (expected : Option ℕ) (h : Header) {ref : BlockRef}
    → block_ref_from_header expected (some h) ≡ ok ref
    → ref.hash ≡ h.hash
unfolding block_ref_from_header
block_ref-hash expected h e = ground arith

block_ref-none :
    (expected : Option ℕ) (ref : BlockRef) → block_ref_from_header expected none ≡ ok ref → ⊥
unfolding block_ref_from_header
block_ref-none expected ref h = cc

-- A header that is returned has the number that was asked for, and is the one that every provider
-- answered in the round.
pub header-Answered :
    (providers number : ℕ) (round : Round Header) {ref : BlockRef}
    → 0 < providers
    → header providers number round ≡ ok ref
    → (ref.number ≡ number)
      × ((j : ℕ)
          → j < providers
          → (h : Header) × Answered round j h
            × (block_ref_from_header (some number) (some h) ≡ ok ref))
unfolding header
header-Answered providers number round {ref} p e =
    let (o, a, e1) =
      >>=-eq-ok
        (agreed_value (block_ref_from_header (some number)) (λ agreed ref. ref_eq ref agreed)
          providers round)
        _ e in
    let (r, o_eq, _, all) =
      agreed_value-Answered (block_ref_from_header (some number)) (λ agreed ref. ref_eq ref agreed)
        providers round p (block_ref-none (some number)) a in
    let same : r ≡ ref = ap (value_or zero_ref) (sym o_eq) ∙ ok_injective {E = QuorumError} e1 in
    let each = λ (j : ℕ) (q : j < providers). reads same (all j q) in
    let (h, _, reading) = each 0 p in (block_ref-number number h reading, each)
  where
    reads :
        {j : ℕ} {r : BlockRef}
        → r ≡ ref
        → (h : Header) × Answered round j h
          × ((b : BlockRef) × (block_ref_from_header (some number) (some h) ≡ ok b)
              × ((r ≡ b) ⊎ (ref_eq b r ≡ true)))
        → (h : Header) × Answered round j h
          × (block_ref_from_header (some number) (some h) ≡ ok ref)
    reads same (h, answered, (b, reading, inl e)) =
        (h, answered, reading ∙ ap (λ (r : BlockRef). ok r) (sym e ∙ same))
    reads {r = r} same (h, answered, (b, reading, inr e)) =
        (h, answered, reading ∙ ap (λ (r : BlockRef). ok r) (ref_eq→eq b r e ∙ same))

smaller_le : (a m : ℕ) → ((if ltb a m then a else m) ≤ m) × ((if ltb a m then a else m) ≤ a)
smaller_le a m = (ground arith, ground arith)

both-true : (b c : Bool) → (if b then c else false) ≡ true → (b ≡ true) × (c ≡ true)
both-true true c h = (refl, h)
both-true false c h = absurd (ground arith)

nonzero : (n : ℕ) → (n ≡ 0 → ⊥) → (n == 0) ≡ false
nonzero n h = ground arith

-- What the loop over the heads finds, from a first reference on.
scan_heads-rest :
    (minimum : ℕ) (first : BlockRef) (is_agreed : Bool) (hs : List (Option Header)) {m : ℕ}
    {f : BlockRef} {g : Bool}
    → (first.hash ≡ 0 → ⊥)
    → scan_heads minimum first is_agreed hs ≡ ok (m, f, g)
    → (f ≡ first)
      × (m ≤ minimum)
      × (g ≡ true → is_agreed ≡ true)
      × ((j : ℕ) (v : Option Header)
          → nth j hs ≡ some v
          → (r : BlockRef) × (block_ref_from_header none v ≡ ok r)
            × (m ≤ r.number)
            × (g ≡ true → r ≡ first))
unfolding scan_heads nth
scan_heads-rest minimum first is_agreed [] n e =
    let same = ok_injective {E = QuorumError} e in
    (
      sym (ap (λ (t : ℕ × BlockRef × Bool). t.1) same),
      omega (arith, ap (λ (t : ℕ × BlockRef × Bool). t.0) same),
      λ t. ap (λ (t : ℕ × BlockRef × Bool). t.2) same ∙ t,
      λ j v q. absurd (ground arith),
    )
scan_heads-rest minimum first is_agreed (w ∷ hs) {m} {f} {g} n e =
    let (r, reading, e1) = >>=-eq-ok (block_ref_from_header none w) _ e in
    let smaller = (if ltb r.number minimum then r.number else minimum) in
    let agrees = (if ref_eq first r then is_agreed else false) in
    let e2 : scan_heads smaller first agrees hs ≡ ok (m, f, g) = rw (nonzero first.hash n) at e1 in
    let (below, under) = smaller_le r.number minimum in
    let (f_eq, least, agreed, others) = scan_heads-rest smaller first agrees hs n e2 in
    (
      f_eq,
      omega (arith, least, below),
      λ t. (both-true (ref_eq first r) is_agreed (agreed t)).1,
      λ (j : ℕ) (v : Option Header) q.
          pick j v q
            (
              r,
              reading,
              omega (arith, least, under),
              λ t. sym (ref_eq→eq first r (both-true (ref_eq first r) is_agreed (agreed t)).0),
            )
            others,
    )
  where
    pick :
        (j : ℕ) (v : Option Header)
        → nth j (w ∷ hs) ≡ some v
        → (r : BlockRef) × (block_ref_from_header none w ≡ ok r)
          × (m ≤ r.number)
          × (g ≡ true → r ≡ first)
        → ((j : ℕ) (v : Option Header)
            → nth j hs ≡ some v
            → (r : BlockRef) × (block_ref_from_header none v ≡ ok r)
              × (m ≤ r.number)
              × (g ≡ true → r ≡ first))
        → (r : BlockRef) × (block_ref_from_header none v ≡ ok r)
          × (m ≤ r.number)
          × (g ≡ true → r ≡ first)
    pick zero v q (r, reading, le, eq) others =
        (r, ap (block_ref_from_header none) (sym (some-injective w v q)) ∙ reading, le, eq)
    pick (suc j) v q found others = others j v q

scan_heads-all :
    (values : List (Option Header)) {m : ℕ} {f : BlockRef} {g : Bool}
    → ((v : Option Header) (r : BlockRef)
        → nth 0 values ≡ some v
        → block_ref_from_header none v ≡ ok r
        → r.hash ≡ 0
        → ⊥)
    → scan_heads (2 ^ 64 - 1) zero_ref true values ≡ ok (m, f, g)
    → (j : ℕ) (v : Option Header) → nth j values ≡ some v
    → (r : BlockRef) × (block_ref_from_header none v ≡ ok r) × (m ≤ r.number) × (g ≡ true → r ≡ f)
unfolding scan_heads nth
scan_heads-all [] hashed e j v q = absurd (ground arith)
scan_heads-all (w ∷ hs) {m} {f} {g} hashed e j v q =
    let (r, reading, e1) = >>=-eq-ok (block_ref_from_header none w) _ e in
    let (below, under) = smaller_le r.number (2 ^ 64 - 1) in
    let (f_eq, least, _, others) =
      scan_heads-rest (if ltb r.number (2 ^ 64 - 1) then r.number else 2 ^ 64 - 1) r true hs
        (hashed w r refl reading) e1 in
    pick j v q r reading (omega (arith, least, under)) f_eq others
  where
    pick :
        (j : ℕ) (v : Option Header)
        → nth j (w ∷ hs) ≡ some v
        → (r : BlockRef) → block_ref_from_header none w ≡ ok r
        → m ≤ r.number
        → f ≡ r
        → ((j : ℕ) (v : Option Header)
            → nth j hs ≡ some v
            → (b : BlockRef) × (block_ref_from_header none v ≡ ok b)
              × (m ≤ b.number)
              × (g ≡ true → b ≡ r))
        → (b : BlockRef) × (block_ref_from_header none v ≡ ok b)
          × (m ≤ b.number)
          × (g ≡ true → b ≡ f)
    pick zero v q r reading le f_eq others = (
      r,
      ap (block_ref_from_header none) (sym (some-injective w v q)) ∙ reading,
      le,
      λ t. sym f_eq,
    )
    pick (suc j) v q r reading le f_eq others =
        let (b, b_reads, b_le, b_eq) = others j v q in (b, b_reads, b_le, λ t. b_eq t ∙ sym f_eq)

-- Where the blocks have hashes, the block that is returned lies at or below the head that each
-- provider answered.
pub common_head-Answered :
    (providers : ℕ) (round : Round Header) (request : ℕ → Round Header) {ref : BlockRef}
    → 0 < providers
    → ((j : ℕ) (h : Header) → Answered round j h → h.hash ≡ 0 → ⊥)
    → common_head providers round request ≡ ok ref
    → (j : ℕ) → j < providers
    → (h : Header) × Answered round j h
      × ((r : BlockRef) × (block_ref_from_header none (some h) ≡ ok r) × (ref.number ≤ r.number))
unfolding common_head
common_head-Answered providers round request {ref} p hashes e j q =
    let (values, c, e1) = >>=-eq-ok (collect_providers providers round) _ e in
    let (long, answers) = collect_providers-Answered providers round c in
    let ((m, f, g), s, e2) = >>=-eq-ok (scan_heads (2 ^ 64 - 1) zero_ref true values) _ e1 in
    let (v, found) = nth-some j values (omega (arith, long)) in
    let all = scan_heads-all values (hashed values answers) s j v found in
    bounded values v found (answers j) all (lowest m f g e2)
  where
    hashed :
        (values : List (Option Header))
        → ((j : ℕ) (v : Header) → nth j values ≡ some (some v) → Answered round j v)
        → (v : Option Header) (r : BlockRef) → nth 0 values ≡ some v
        → block_ref_from_header none v ≡ ok r
        → r.hash ≡ 0
        → ⊥
    hashed values answers none r found reading zero_hash = block_ref-none none r reading
    hashed values answers (some h) r found reading zero_hash =
        hashes 0 h (answers 0 h found) (sym (block_ref-hash none h reading) ∙ zero_hash)

    lowest :
        (m : ℕ) (f : BlockRef) (g : Bool)
        → (if g then ok f else header providers m (request m)) ≡ ok ref
        → ((g ≡ true) × (f ≡ ref)) ⊎ (ref.number ≡ m)
    lowest m f true e = inl (refl, ok_injective {E = QuorumError} e)
    lowest m f false e = inr (header-Answered providers m (request m) p e).0

    bounded :
        {m : ℕ} {f : BlockRef} {g : Bool} (values : List (Option Header)) (v : Option Header)
        → nth j values ≡ some v
        → ((h : Header) → nth j values ≡ some (some h) → Answered round j h)
        → (r : BlockRef) × (block_ref_from_header none v ≡ ok r)
          × (m ≤ r.number)
          × (g ≡ true → r ≡ f)
        → ((g ≡ true) × (f ≡ ref)) ⊎ (ref.number ≡ m)
        → (h : Header) × Answered round j h
          × ((r : BlockRef) × (block_ref_from_header none (some h) ≡ ok r)
              × (ref.number ≤ r.number))
    bounded values none found answers (r, reading, le, eq) low =
        absurd (block_ref-none none r reading)
    bounded values (some h) found answers (r, reading, le, eq) (inl (t, same)) = (
      h,
      answers h found,
      (r, reading, omega (arith, ap (λ (r : BlockRef). r.number) (eq t ∙ same))),
    )
    bounded values (some h) found answers (r, reading, le, eq) (inr same) =
        (h, answers h found, (r, reading, omega (arith, le, same)))
