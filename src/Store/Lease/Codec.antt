-- ===== src/Store/Lease/Codec.antt =====
-- A lease that is written is read back (`encodeLease` and `decodeLease`).
use guard_daemon.Prelude.{
  ℕ, ◌^◌, ◌<◌, ◌≤◌, ◌≡◌, refl, sym, ap, ◌∙◌, true, false, ◌||◌, [], ◌∷◌, ◌++◌, append_assoc,
  append-nil, arith, Bytes, length, length-append, be_bytes, take-append, drop-append,
  length-be_bytes, read_field-append, ltb, leb, ◌==◌,
}
use guard_daemon.Instant.{IsInstant, IsStamp}
use guard_daemon.Budget.Codec.RoundTrip.{
  time_bytes, append_time-eq, read_time-append, length-time_bytes,
}
use guard_daemon.Store.Types.{ok, >>=-eq-ok, ok_injective}
use guard_daemon.Store.Lease.{
  Lease, validate_lease, valid_rescue_time, lease_bytes, encode_lease, decode_lease_fields,
  decode_lease, lease_record_version, max_lease_owner_bytes,
}

-- The sponsor is a 20-byte address and the expiry an instant.
pub record LeaseFits (l : Lease) : Type 0 where
  pub sponsor : l.key.sponsor < 2 ^ 160
  pub expires_at : IsInstant l.expires_at

valid_rescue_time-IsStamp : (t : ℕ) → valid_rescue_time t ≡ true → IsInstant t → IsStamp t
unfolding valid_rescue_time
valid_rescue_time-IsStamp t v i = (i, ground arith)

pub validate_lease-checks :
    (l : Lease)
    → validate_lease l ≡ ok tt
    → (0 < l.key.network)
      × (l.key.network < 2 ^ 63)
      × (0 < length l.owner)
      × (length l.owner ≤ 128)
      × (valid_rescue_time l.expires_at ≡ true)
unfolding validate_lease
validate_lease-checks l h = (ground arith, ground arith, ground arith, ground arith, ground arith)

-- The record as the fields that `decodeLease` reads.
fields : Lease → Bytes
fields l =
    be_bytes 8 l.key.network
    ++ (be_bytes 20 l.key.sponsor
        ++ (be_bytes 2 (length l.owner) ++ (l.owner ++ (time_bytes l.expires_at ++ []))))

lease_bytes-eq : (l : Lease) → lease_bytes l ≡ lease_record_version ∷ fields l
unfolding lease_bytes fields
lease_bytes-eq l =
    let head = lease_record_version ∷ be_bytes 8 l.key.network in
    let sponsor = be_bytes 20 l.key.sponsor in
    let size = be_bytes 2 (length l.owner) in
    let time = time_bytes l.expires_at in
    append_time-eq (head ++ sponsor ++ size ++ l.owner) l.expires_at
    ∙ append_assoc (head ++ sponsor ++ size) l.owner time
    ∙ append_assoc (head ++ sponsor) size (l.owner ++ time)
    ∙ append_assoc head sponsor (size ++ (l.owner ++ time))
    ∙ ap (λ t. head ++ (sponsor ++ (size ++ (l.owner ++ t)))) (sym (append-nil time))

length-fields : (l : Lease) → 42 ≤ length (fields l)
unfolding fields
length-fields l =
    let time = time_bytes l.expires_at ++ [] in
    let owner = l.owner ++ time in
    let size = be_bytes 2 (length l.owner) ++ owner in
    let sponsor = be_bytes 20 l.key.sponsor ++ size in
    omega (
      arith,
      length-append (be_bytes 8 l.key.network) sponsor,
      length-append (be_bytes 20 l.key.sponsor) size,
      length-append (be_bytes 2 (length l.owner)) owner,
      length-append l.owner time,
      length-append (time_bytes l.expires_at) [],
      length-be_bytes 8 l.key.network,
      length-be_bytes 20 l.key.sponsor,
      length-be_bytes 2 (length l.owner),
      length-time_bytes l.expires_at,
    )

decode_lease_fields-fields :
    (l : Lease) → LeaseFits l → validate_lease l ≡ ok tt → decode_lease_fields (fields l) ≡ ok l
unfolding decode_lease_fields fields
decode_lease_fields-fields l f v =
    let (n, m, o, p, t) = validate_lease-checks l v in
    let after = l.owner ++ (time_bytes l.expires_at ++ []) in
    let owner_fits : (length l.owner == 0
          || ltb max_lease_owner_bytes (length l.owner)
          || ltb (length after) (length l.owner))
        ≡ false =
      ground (arith, length-append l.owner (time_bytes l.expires_at ++ [])) in
    let small : leb (2 ^ 63) l.key.network ≡ false = ground arith in
    rw
      (
        read_field-append 8 l.key.network _ (omega arith),
        small,
        read_field-append 20 l.key.sponsor _ (omega (arith, f.sponsor)),
        read_field-append 2 (length l.owner) _ (omega arith),
        owner_fits,
        drop-append (length l.owner) l.owner (time_bytes l.expires_at ++ []) refl,
        take-append (length l.owner) l.owner (time_bytes l.expires_at ++ []) refl,
        read_time-append l.expires_at [] (valid_rescue_time-IsStamp l.expires_at t f.expires_at),
        v,
      )
      refl

-- A lease with a 20-byte sponsor and an instant as expiry that encodes is read back as it was.
pub decode_lease-encode_lease :
    (l : Lease) {bs : Bytes} → LeaseFits l → encode_lease l ≡ ok bs → decode_lease bs ≡ ok l
unfolding encode_lease decode_lease
decode_lease-encode_lease l {bs} f h =
    let (_, v, h1) = >>=-eq-ok (validate_lease l) _ h in
    let shape = ok_injective h1 in
    let long : ltb (length (fields l)) 42 ≡ false = ground (arith, length-fields l) in
    rw (← shape, lease_bytes-eq l, long) (decode_lease_fields-fields l f v)
