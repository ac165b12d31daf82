-- ===== src/Rpc/Receipts/Canonical.antt =====
-- A receipt that is returned is the one that every provider answered, of a block on their chain.
use guard_daemon.Prelude.{
  ℕ, ◌<◌, ◌≤◌, ◌≡◌, sym, ap, ◌∙◌, ◌⊎◌, inl, inr, true, not, none, some, Bytes, bytes_eq,
  bytes_eq→eq, ltb, ◌==◌, arith, fail_if-eq-ok, Option-cases,
}
use guard_daemon.External.{External, Header, Receipt}
use guard_daemon.Rpc.{
  QuorumError, BlockRef, Answer, ok, ◌>>=◌, ◌>>◌, fail_if, >>=-eq-ok, ok_injective,
  malformed_response, quorum_mismatch, unfinalized_receipt,
}
use guard_daemon.Rpc.Collect.{Round, Answered}
use guard_daemon.Rpc.Agree.{agreed_value, agreed_value-Answered}
use guard_daemon.Rpc.Headers.{uint64_of, header, finalized, block_ref_from_header}
use guard_daemon.Rpc.Headers.Heads.{block_ref-hash, header-Answered, common_head-Answered}
use guard_daemon.Rpc.Receipts.{
  is_malformed, validate_receipt, read_receipt, canonical_receipt, receipt_below, receipt,
}

module _ ⦃x : External⦄ where
  nil_refused : (transaction : ℕ) (b : Receipt × Bytes) → read_receipt transaction none ≡ ok b → ⊥
  unfolding read_receipt
  nil_refused transaction b h = absurd (ground arith)

  validate_receipt-tx_hash :
      (r : Receipt) (transaction : ℕ)
      → validate_receipt r transaction ≡ ok tt
      → r.tx_hash ≡ transaction
  unfolding validate_receipt is_malformed
  validate_receipt-tx_hash r transaction v = ground arith

  read_receipt-eq-ok :
      (transaction : ℕ) (r : Receipt) {a : Receipt × Bytes}
      → read_receipt transaction (some r) ≡ ok a
      → (a.0 ≡ r) × (x.marshal_receipt r ≡ some a.1) × (r.tx_hash ≡ transaction)
  unfolding read_receipt
  read_receipt-eq-ok transaction r {a} e =
      let (_, v, e1) = >>=-eq-ok (validate_receipt r transaction) _ e in
      elim (Option-cases (x.marshal_receipt r)) [
        | inl m ↦ absurd (ground (arith, m))
        | inr (json, m) ↦
            let same : ok (r, json) ≡ ok a = rw m at e1 in
            let pair = ok_injective {E = QuorumError} same in
            (
              sym (ap (λ (t : Receipt × Bytes). t.0) pair),
              m ∙ ap (λ (t : Receipt × Bytes). some t.1) pair,
              validate_receipt-tx_hash r transaction v,
            )
      ]

  canonical_receipt-eq-ok :
      (providers ceiling : ℕ) (request : ℕ → Round Header) (r : Receipt) (json : Bytes)
      {out : Receipt}
      → canonical_receipt providers ceiling request (some (r, json)) ≡ ok out
      → (out ≡ r)
        × ((number : ℕ) × (uint64_of r.block_number ≡ some number)
            × (number ≤ ceiling)
            × ((canonical : BlockRef) × (header providers number (request number) ≡ ok canonical)
                × (r.block_hash ≡ canonical.hash)))
  unfolding canonical_receipt
  canonical_receipt-eq-ok providers ceiling request r json {out} e =
      elim (Option-cases (uint64_of r.block_number)) [
        | inl m ↦ absurd (ground (arith, m))
        | inr (number, m) ↦
            let e1 : (fail_if (ltb ceiling number) unfinalized_receipt
                  >> (header providers number (request number) >>= rest))
                ≡ ok out =
              rw (canonical_receipt, m) at e in
            let (low, e2) = fail_if-eq-ok (ltb ceiling number) unfinalized_receipt _ e1 in
            let (canonical, h, e3) = >>=-eq-ok (header providers number (request number)) rest e2 in
            let (same_hash, e4) =
              fail_if-eq-ok (not (r.block_hash == canonical.hash)) quorum_mismatch (ok r) e3 in
            (
              sym (ok_injective {E = QuorumError} e4),
              (number, m, ground arith, (canonical, h, ground arith)),
            )
      ]
    where
      rest : BlockRef → Answer Receipt
      rest canonical = fail_if (not (r.block_hash == canonical.hash)) quorum_mismatch >> ok r

  -- A receipt that is agreed on below a ceiling, or with the largest number as the ceiling.
  receipt_below-Answered :
      (providers transaction ceiling : ℕ) (round : Round Receipt) (request : ℕ → Round Header)
      {r : Receipt}
      → 0 < providers
      → receipt_below providers transaction ceiling round request ≡ ok r
      → (r.tx_hash ≡ transaction)
        × ((number : ℕ) × (uint64_of r.block_number ≡ some number)
            × (number ≤ ceiling)
            × ((j : ℕ)
                → j < providers
                → (answer : Receipt) × Answered round j answer
                  × (x.marshal_receipt answer ≡ x.marshal_receipt r)
                  × ((h : Header) × Answered (request number) j h × (h.hash ≡ r.block_hash))))
  unfolding receipt_below
  receipt_below-Answered providers transaction ceiling round request {r} p e =
      let (o, agreed, e1) =
        >>=-eq-ok
          (agreed_value (read_receipt transaction) (λ a b. bytes_eq a.1 b.1) providers round) _ e in
      let (a, o_eq, (first_answer, _, read_first), all) =
        agreed_value-Answered (read_receipt transaction) (λ a b. bytes_eq a.1 b.1) providers round p
          (nil_refused transaction) agreed in
      let below : canonical_receipt providers ceiling request (some a) ≡ ok r =
        ap (canonical_receipt providers ceiling request) (sym o_eq) ∙ e1 in
      let (is_first, (number, numbered, low, (canonical, found, hash))) =
        canonical_receipt-eq-ok providers ceiling request a.0 a.1 below in
      let (encoded, of_transaction) = first_read first_answer read_first in
      let (_, headers) = header-Answered providers number (request number) p found in
      (
        ap (λ (r : Receipt). r.tx_hash) is_first ∙ of_transaction,
        (
          number,
          ap (λ (r : Receipt). uint64_of r.block_number) is_first ∙ numbered,
          low,
          λ (j : ℕ) (q : j < providers).
              let (answer, answered, reading) = all j q in
              let (h, h_answered, h_reading) = headers j q in
              (
                answer,
                answered,
                same_json answer a reading ∙ sym encoded ∙ sym (ap x.marshal_receipt is_first),
                (
                  h,
                  h_answered,
                  sym (block_ref-hash (some number) h h_reading)
                      ∙ sym hash
                      ∙ sym (ap (λ (r : Receipt). r.block_hash) is_first),
                ),
              ),
        ),
      )
    where
      first_read :
          (v : Receipt) {a : Receipt × Bytes}
          → read_receipt transaction (some v) ≡ ok a
          → (x.marshal_receipt a.0 ≡ some a.1) × (a.0.tx_hash ≡ transaction)
      first_read v h =
          let (same, json, tx) = read_receipt-eq-ok transaction v h in
          (ap x.marshal_receipt same ∙ json, ap (λ (r : Receipt). r.tx_hash) same ∙ tx)

      same_json :
          (answer : Receipt) (a : Receipt × Bytes)
          → (b : Receipt × Bytes) × (read_receipt transaction (some answer) ≡ ok b)
            × ((a ≡ b) ⊎ (bytes_eq a.1 b.1 ≡ true))
          → x.marshal_receipt answer ≡ some a.1
      same_json answer a (b, reading, inl same) =
          (read_receipt-eq-ok transaction answer reading).1
          ∙ ap (λ (t : Receipt × Bytes). some t.1) (sym same)
      same_json answer a (b, reading, inr same) =
          (read_receipt-eq-ok transaction answer reading).1
          ∙ ap (λ (json : Bytes). some json) (sym (bytes_eq→eq a.1 b.1 same))

  -- A receipt that `Receipt` returns is of the transaction and was answered, with the same JSON, by
  -- every provider; each named the block's hash for its number, and the finalized head that each
  -- answered lies at or above it.
  pub receipt-Answered :
      (providers transaction : ℕ) (heads : Round Header) (head_request : ℕ → Round Header)
      (round : Round Receipt) (request : ℕ → Round Header) {r : Receipt}
      → 0 < providers
      → ((j : ℕ) (h : Header) → Answered heads j h → h.hash ≡ 0 → ⊥)
      → receipt providers transaction heads head_request round request ≡ ok r
      → (r.tx_hash ≡ transaction)
        × ((number : ℕ) × (uint64_of r.block_number ≡ some number)
            × ((j : ℕ)
                → j < providers
                → ((answer : Receipt) × Answered round j answer
                    × (x.marshal_receipt answer ≡ x.marshal_receipt r))
                  × ((h : Header) × Answered (request number) j h × (h.hash ≡ r.block_hash))
                  × ((head : Header) × Answered heads j head
                      × ((ref : BlockRef) × (block_ref_from_header none (some head) ≡ ok ref)
                          × (number ≤ ref.number)))))
  unfolding receipt
  receipt-Answered providers transaction heads head_request round request p hashes e =
      let (_, e1) = fail_if-eq-ok (transaction == 0) malformed_response _ e in
      let (final, finalizes, e2) = >>=-eq-ok (finalized providers heads head_request) _ e1 in
      let (tx, (number, numbered, low, all)) =
        receipt_below-Answered providers transaction final.number round request p e2 in
      (
        tx,
        (
          number,
          numbered,
          λ (j : ℕ) (q : j < providers).
              let (answer, answered, json, canonical) = all j q in
              let (head, head_answered, (ref, reading, above)) =
                common_head-Answered providers heads head_request p hashes finalizes j q in
              (
                (answer, answered, json),
                canonical,
                (head, head_answered, (ref, reading, omega (arith, low, above))),
              ),
        ),
      )
