-- ===== src/Auth/Create/Tokens.antt =====
-- A token that CreateKey returns authenticates.
use kora_db.Base.{
  ℕ, ◌*◌, ◌/◌, ◌%◌, ◌<◌, ◌==◌, ◌≡◌, refl, sym, ap, ◌∙◌, true, false, not, ◌&&◌, Bytes, text, [],
  ◌∷◌, ◌++◌, Option, some, Result, ok, err, ◌>>=◌, >>=-elim, bytes_equal, bytes_equal_refl,
  pair_equal, length, if◌then◌else◌, has_prefix-append, IsByte, All, arith, checked-eq-ok,
  ok-injective,
}
use kora_db.Base.Int.{ℤ, ltb_ℤ}
use kora_db.Storage.{Bolt, put, get, view}
use kora_db.Storage.Laws.{IsBolt, get-put, get-eq-found, found, update-eq-ok}
use kora_db.Engine.Meta.{Codec}
use kora_db.Auth.{
  KeyRecord, keys_bucket, split, is_hex, check_parts, parse_token, has_expiry, find_record,
  authenticate_at,
}
use kora_db.Auth.Create.{
  Time, hex_digit, hex_encode, token_of, expires_unix_of, new_key, check_key, mint, store_key,
  create_key_with_expiry,
}

length-hex_encode : (s : Bytes) → length (hex_encode s) ≡ 2 * length s
unfolding hex_encode
length-hex_encode [] = refl
length-hex_encode (b ∷ s) = omega (arith, length-hex_encode s)

is_hex-hex_encode : (s : Bytes) → All IsByte s → is_hex (hex_encode s) ≡ true
unfolding is_hex hex_encode
is_hex-hex_encode [] h = refl
is_hex-hex_encode (b ∷ s) h = ground (arith, is_hex-hex_encode s h.1, h.0)

-- No hexadecimal digit is the separator of a token.
hex_digit-separator : (n : ℕ) → n < 16 → (hex_digit n == b'_') ≡ false
hex_digit-separator n h = ground (arith, h)

split-hex_encode : (s : Bytes) → All IsByte s → split b'_' (hex_encode s) ≡ hex_encode s ∷ []
unfolding split hex_encode
split-hex_encode [] h = refl
split-hex_encode (b ∷ s) h =
    rw
      (
        hex_digit-separator (b / 16) (omega (arith, h.0)),
        hex_digit-separator (b % 16) (omega arith),
        split-hex_encode s h.1,
      )
      refl

split-hex_encode_append :
    (s t : Bytes)
    → All IsByte s
    → split b'_' (hex_encode s ++ b'_' ∷ t) ≡ hex_encode s ∷ split b'_' t
unfolding split hex_encode
split-hex_encode_append [] t h = refl
split-hex_encode_append (b ∷ s) t h =
    rw
      (
        hex_digit-separator (b / 16) (omega (arith, h.0)),
        hex_digit-separator (b % 16) (omega arith),
        split-hex_encode_append s t h.1,
      )
      refl

checked_parts :
    (id secret : Bytes)
    → length id ≡ 16
    → length secret ≡ 64
    → is_hex id ≡ true
    → is_hex secret ≡ true
    → check_parts (id ∷ secret ∷ []) ≡ ok (id, secret)
unfolding check_parts
checked_parts id secret h k i j = rw (h, k, i, j) refl

parse_token-token_of :
    (ids secrets : Bytes)
    → All IsByte ids
    → All IsByte secrets
    → length ids ≡ 8
    → length secrets ≡ 32
    → parse_token (token_of (hex_encode ids) (hex_encode secrets))
      ≡ ok (hex_encode ids, hex_encode secrets)
unfolding parse_token token_of
parse_token-token_of ids secrets h k e e' =
    rw (has_prefix-append (text "kdb_") (hex_encode ids ++ (text "_" ++ hex_encode secrets))) (
      ap check_parts (
        split-hex_encode_append ids (hex_encode secrets) h
        ∙ ap (λ x. hex_encode ids ∷ x) (split-hex_encode secrets k))
      ∙ checked_parts (hex_encode ids) (hex_encode secrets)
          (length-hex_encode ids ∙ ap (λ n. 2 * n) e)
          (length-hex_encode secrets ∙ ap (λ n. 2 * n) e') (is_hex-hex_encode ids h)
          (is_hex-hex_encode secrets k))

-- What rand.Read fills a buffer of n bytes with.
pub record IsFilled (n : ℕ) (s : Bytes) : Type 0 where
  pub of_length : length s ≡ n
  pub of_bytes : All IsByte s

module _ (B : Bolt) (L : IsBolt B) (J : Codec KeyRecord) (hash_secret : Bytes → Bytes) where
  found_record :
      (t : B.Tx) (id b : Bytes) (rec : KeyRecord)
      → B.get t keys_bucket id ≡ some b
      → J.decode b ≡ ok rec
      → find_record B J id t ≡ ok (some rec)
  unfolding find_record
  found_record t id b rec h k =
      let e : get B t keys_bucket id ≡ ok b = get-eq-found B L t keys_bucket id ∙ ap found h in
      rw (e, find_record) (ap (λ r. r >>= (λ x. ok (some x))) k)

  authenticate_at-found :
      (t : B.Tx) (token id secret : Bytes) (rec : KeyRecord) (now : ℤ)
      → parse_token token ≡ ok (id, secret)
      → find_record B J id t ≡ ok (some rec)
      → bytes_equal (hash_secret secret) rec.secret_sha256 ≡ true
      → (has_expiry rec.expires_unix && not (ltb_ℤ now rec.expires_unix)) ≡ false
      → authenticate_at B J hash_secret t token now
        ≡ ok (record { key_id = rec.key_id; name = rec.name; role = rec.role })
  unfolding authenticate_at view
  authenticate_at-found t token id secret rec now p f q x = rw (p, f, q, x) refl

  record Minted (name : Bytes) (role : ℤ) (expires : Option Time) (now : Time) (ids secrets : Bytes)
      (key_id token b : Bytes) : Type 0 where
    of_id : key_id ≡ hex_encode ids
    of_token : token ≡ token_of (hex_encode ids) (hex_encode secrets)
    of_record :
        J.encode
          (new_key B J hash_secret name role expires now (hex_encode ids) (hex_encode secrets))
        ≡ ok b

  mint-Minted :
      (name : Bytes) (role : ℤ) (expires : Option Time) (now : Time)
      (ids secrets key_id token b : Bytes)
      → mint B J hash_secret name role expires now (ok ids) (ok secrets) ≡ ok (key_id, token, b)
      → Minted name role expires now ids secrets key_id token b
  unfolding mint
  mint-Minted name role expires now ids secrets key_id token b h =
      let (checked, h₁) = checked-eq-ok (check_key B J hash_secret name role expires now) _ h in
      >>=-elim
        (J.encode
          (new_key B J hash_secret name role expires now (hex_encode ids) (hex_encode secrets)))
        h₁
        λ c e h₂.
          let same = ok-injective h₂ in
          record {
            of_id = ap (λ x. x.0) (sym same);
            of_token = ap (λ x. x.1) (sym same);
            of_record = e ∙ ap (λ x. ok (x.2)) same;
          }

  stored_key :
      (t t' : B.Tx) (key_id token : Bytes) (minted : Result (Bytes × Bytes × Bytes))
      → store_key B J hash_secret t minted ≡ (ok (token, key_id), t')
      → (b : Bytes) × (minted ≡ ok (key_id, token, b)) × (B.get t' keys_bucket key_id ≡ some b)
  stored_key t t' key_id token (err e) h = absurd (cc)
  stored_key t t' key_id token (ok (i, k, b)) h =
      >>=-elim (put B t keys_bucket i b) (update-eq-ok B _ t h) λ u e h₁.
        let same = ok-injective h₁ in
        (
          b,
          ap (λ x. ok (x.0.1, x.0.0, b)) same,
          ap (λ x. B.get (x.1) keys_bucket (x.0.1)) (sym same)
              ∙ get-put B L t u keys_bucket i b keys_bucket i e
              ∙ ap (λ c. if c then some b else B.get t keys_bucket i) (pair_equal keys_bucket i),
        )

  -- Where the codec decodes what it encodes, and the two random buffers are filled with 8 and 32 bytes:
  -- the token that CreateKeyWithExpiry returns authenticates in the state that it leaves, at each time at
  -- which the key has not expired, as a principal with the key's id, name and role.
  pub create_key-authenticates :
      (t t' : B.Tx) (name : Bytes) (role : ℤ) (expires : Option Time) (now : Time)
      (ids secrets token key_id : Bytes) (later : ℤ)
      → ((rec : KeyRecord) (b : Bytes) → J.encode rec ≡ ok b → J.decode b ≡ ok rec)
      → IsFilled 8 ids
      → IsFilled 32 secrets
      → create_key_with_expiry B J hash_secret t name role expires now (ok ids) (ok secrets)
        ≡ (ok (token, key_id), t')
      → (has_expiry (expires_unix_of expires) && not (ltb_ℤ later (expires_unix_of expires)))
        ≡ false
      → authenticate_at B J hash_secret t' token later
        ≡ ok (record { key_id = key_id; name = name; role = role })
  unfolding create_key_with_expiry new_key
  create_key-authenticates t t' name role expires now ids secrets token key_id later J-decode i s h
        valid =
      let (b, e, there) =
        stored_key t t' key_id token
          (mint B J hash_secret name role expires now (ok ids) (ok secrets)) h in
      let m = mint-Minted name role expires now ids secrets key_id token b e in
      let parsed =
        ap parse_token m.of_token
        ∙ parse_token-token_of ids secrets i.of_bytes s.of_bytes i.of_length s.of_length in
      let rec =
        new_key B J hash_secret name role expires now (hex_encode ids) (hex_encode secrets) in
      let known = found_record t' key_id b rec there (J-decode rec b m.of_record) in
      authenticate_at-found t' token (hex_encode ids) (hex_encode secrets) rec later parsed
        (ap (λ x. find_record B J x t') (sym m.of_id) ∙ known)
        (bytes_equal_refl (hash_secret (hex_encode secrets))) valid
      ∙ ap (λ x. ok (record { key_id = x; name = name; role = role })) (sym m.of_id)
