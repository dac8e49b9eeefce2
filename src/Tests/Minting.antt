-- ===== src/Tests/Minting.antt =====
-- The theorem on new keys, on an empty database.
use kora_db.Base.{
  ℕ, zero, suc, ◌≡◌, refl, true, Bytes, IsByte, text, some, [], ◌∷◌, ◌++◌, Result, ok, err, syntax,
  bytes_equal, length, take, drop, take-append, drop-append, ok-injective, All, arith, ltb,
}
use kora_db.Base.Int.{ℤ, pos, negsuc}
use kora_db.Storage.{put, update}
use kora_db.Storage.Memory.{Memory, memory, IsBolt-memory, empty}
use kora_db.Strconv.Runes.{runes, runes_from, every}
use kora_db.Engine.Meta.{Codec}
use kora_db.Auth.{KeyRecord, keys_bucket, authenticate_at}
use kora_db.Auth.Create.{
  Time, hex_encode, token_of, new_key, check_key, mint, validate_principal_name,
  create_key_with_expiry,
}
use kora_db.Auth.Create.Tokens.{IsFilled, create_key-authenticates}

abbrev sign_of : ℤ → ℕ
sign_of (pos n) = 0
sign_of (negsuc n) = 1

abbrev size_of : ℤ → ℕ
size_of (pos n) = n
size_of (negsuc n) = n

abbrev int_of : ℕ → ℕ → ℤ
int_of zero n = pos n
int_of (suc s) n = negsuc n

int_of-sign_of : (z : ℤ) → int_of (sign_of z) (size_of z) ≡ z
int_of-sign_of (pos n) = refl
int_of-sign_of (negsuc n) = refl

abbrev encode_key_record : KeyRecord → Bytes
encode_key_record r =
    length r.key_id
    ∷ length r.name
    ∷ sign_of r.role
    ∷ size_of r.role
    ∷ sign_of r.created_unix
    ∷ size_of r.created_unix
    ∷ sign_of r.expires_unix
    ∷ size_of r.expires_unix
    ∷ (r.key_id ++ (r.name ++ r.secret_sha256))

abbrev decode_key_record : Bytes → Result KeyRecord
decode_key_record (i ∷ n ∷ rs ∷ r ∷ cs ∷ c ∷ es ∷ e ∷ rest) = ok (record {
  key_id = take i rest;
  name = take n (drop i rest);
  role = int_of rs r;
  secret_sha256 = drop n (drop i rest);
  created_unix = int_of cs c;
  expires_unix = int_of es e;
})
decode_key_record _ = err syntax

abbrev packed : Codec KeyRecord
packed = record { encode = λ r. ok (encode_key_record r); decode = decode_key_record }

decode-encode : (r : KeyRecord) → decode_key_record (encode_key_record r) ≡ ok r
decode-encode r =
    rw
      (
        int_of-sign_of r.role,
        int_of-sign_of r.created_unix,
        int_of-sign_of r.expires_unix,
        drop-append r.key_id (r.name ++ r.secret_sha256),
        take-append r.key_id (r.name ++ r.secret_sha256),
        take-append r.name r.secret_sha256,
        drop-append r.name r.secret_sha256,
      )
      refl

decode-encode-packed : (r : KeyRecord) (b : Bytes) → packed.encode r ≡ ok b → packed.decode b ≡ ok r
decode-encode-packed r b h = rw (← ok-injective h) (decode-encode r)

abbrev counted : ℕ → Bytes
counted zero = []
counted (suc n) = n ∷ counted n

abbrev ids : Bytes
ids = counted 8

abbrev secrets : Bytes
secrets = counted 32

counted-IsByte : (n : ℕ) → ltb n 257 ≡ true → All IsByte (counted n)
counted-IsByte zero h = tt
counted-IsByte (suc n) h = (ground (arith, h), counted-IsByte n (ground (arith, h)))

ids-IsFilled : IsFilled 8 ids
ids-IsFilled = record { of_length = refl; of_bytes = counted-IsByte 8 refl }

secrets-IsFilled : IsFilled 32 secrets
secrets-IsFilled = record { of_length = refl; of_bytes = counted-IsByte 32 refl }

abbrev now : Time
now = record { unix = pos 1000; nanoseconds = 5 }

abbrev digest : Bytes → Bytes
digest s = drop 8 s

abbrev minted : Memory
minted =
    (create_key_with_expiry memory packed digest empty (text "ann") (pos 3)
      (some (record { unix = pos 2000; nanoseconds = 0 })) now (ok ids) (ok secrets)).1

mint_run :
    create_key_with_expiry memory packed digest empty
      (text "ann")
      (pos 3)
      (some (record { unix = pos 2000; nanoseconds = 0 }))
      now
      (ok ids)
      (ok secrets)
    ≡ (ok (token_of (hex_encode ids) (hex_encode secrets), hex_encode ids), minted)
unfolding create_key_with_expiry mint check_key validate_principal_name runes runes_from every
    new_key hex_encode token_of update put keys_bucket bytes_equal
mint_run = refl

create_key-authenticates_example :
    authenticate_at memory packed digest minted
      (token_of (hex_encode ids) (hex_encode secrets))
      (pos 1999)
    ≡ ok (record { key_id = hex_encode ids; name = text "ann"; role = pos 3 })
create_key-authenticates_example =
    create_key-authenticates memory IsBolt-memory packed digest empty minted (text "ann") (pos 3)
      (some (record { unix = pos 2000; nanoseconds = 0 })) now ids secrets
      (token_of (hex_encode ids) (hex_encode secrets)) (hex_encode ids) (pos 1999)
      decode-encode-packed ids-IsFilled secrets-IsFilled mint_run refl
