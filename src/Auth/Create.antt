-- ===== src/Auth/Create.antt =====
-- internal/auth/auth.go: CreateKey, the names of principals and ParseRole.
pub mod Tokens
use kora_db.Base.{
  ℕ, ◌+◌, ◌-◌, ◌/◌, ◌%◌, Bool, true, false, not, ◌||◌, ◌&&◌, Bytes, text, List, [], ◌∷◌, ◌++◌,
  Option, none, some, Error, Result, ok, err, reject, ◌>>=◌, ◌>>◌, bytes_equal, length, ltb, leb,
  if◌then◌else◌, invalid_role, invalid_name, expiry_in_past, unknown_role,
}
use kora_db.Base.Int.{ℤ, pos, negsuc, ltb_ℤ}
use kora_db.Strconv.Runes.{runes, is_space, is_control, every, to_lower, trim_left, trim_right}
use kora_db.Storage.{Bolt, put, update}
use kora_db.Engine.Meta.{Codec, require}
use kora_db.Auth.{KeyRecord, keys_bucket, role_read_only, role_read_write, role_admin}

-- time.Time: seconds since 1970, and the nanoseconds within the second.
pub record Time : Type 0 where
  pub unix : ℤ
  pub nanoseconds : ℕ

-- t.After(u)
abbrev pub is_after : Time → Time → Bool
is_after t u = ltb_ℤ u.unix t.unix || (not (ltb_ℤ t.unix u.unix) && ltb u.nanoseconds t.nanoseconds)

-- ParseRole, on the runes of its argument
unfoldable pub role_named : List ℕ → Option ℤ
role_named name =
    if bytes_equal name (text "readonly") || bytes_equal name (text "ro")
    then some role_read_only
    else if bytes_equal name (text "readwrite") || bytes_equal name (text "rw")
    then some role_read_write
    else if bytes_equal name (text "admin")
    then some role_admin
    else none

abbrev lower : List ℕ → List ℕ
lower [] = []
lower (r ∷ rs) = to_lower r ∷ lower rs

unfoldable pub parse_role : Bytes → Result ℤ
parse_role s = do
  rs ← require (unknown_role s) (runes s)
  require (unknown_role s) (role_named (lower (trim_right (trim_left rs))))

-- validatePrincipalName
unfoldable pub validate_principal_name : Bytes → Result (Unit {0})
validate_principal_name name = do
  rs ← require invalid_name (runes name)
  reject (every is_space rs) invalid_name
  reject (ltb 128 (length name)) invalid_name
  reject (not (every (λ r. not (is_control r)) rs)) invalid_name

-- hex.EncodeToString
abbrev pub hex_digit : ℕ → ℕ
hex_digit n = if ltb n 10 then b'0' + n else b'a' + (n - 10)

unfoldable pub hex_encode : Bytes → Bytes
hex_encode [] = []
hex_encode (b ∷ s) = hex_digit (b / 16) ∷ hex_digit (b % 16) ∷ hex_encode s

-- `expiresAt` is `none` for Go's zero time.
abbrev pub in_past : Option Time → Time → Bool
in_past none now = false
in_past (some expires) now = not (is_after expires now)

abbrev pub expires_unix_of : Option Time → ℤ
expires_unix_of none = pos 0
expires_unix_of (some expires) = expires.unix

unfoldable pub token_of : Bytes → Bytes → Bytes
token_of key_id secret = text "kdb_" ++ (key_id ++ (text "_" ++ secret))

module _ (B : Bolt) (J : Codec KeyRecord) (hash_secret : Bytes → Bytes) where
  -- The record of a new key.
  unfoldable pub new_key : Bytes → ℤ → Option Time → Time → Bytes → Bytes → KeyRecord
  new_key name role expires now key_id secret = record {
    key_id = key_id;
    name = name;
    role = role;
    secret_sha256 = hash_secret secret;
    created_unix = now.unix;
    expires_unix = expires_unix_of expires;
  }

  unfoldable pub check_key : Bytes → ℤ → Option Time → Time → Result (Unit {0})
  check_key name role expires now = do
    reject (ltb_ℤ role role_read_only || ltb_ℤ role_admin role) invalid_role
    validate_principal_name name
    reject (in_past expires now) expiry_in_past

  -- CreateKeyWithExpiry up to the transaction; `id_bytes` and `secret_bytes` are what rand.Read fills in.
  unfoldable pub mint :
      Bytes → ℤ → Option Time → Time → Result Bytes → Result Bytes → Result (Bytes × Bytes × Bytes)
  mint name role expires now id_bytes secret_bytes = do
    check_key name role expires now
    ids ← id_bytes
    secrets ← secret_bytes
    let key_id = hex_encode ids
    let secret = hex_encode secrets
    b ← J.encode (new_key name role expires now key_id secret)
    ok (key_id, token_of key_id secret, b)

  abbrev pub store_key : B.Tx → Result (Bytes × Bytes × Bytes) → Result (Bytes × Bytes) × B.Tx
  store_key t (err e) = (err e, t)
  store_key t (ok (key_id, token, b)) =
      update B (λ x. do x' ← put B x keys_bucket key_id b; ok ((token, key_id), x')) t

  -- CreateKeyWithExpiry: the token and the key's id.
  unfoldable pub create_key_with_expiry :
      B.Tx
      → Bytes
      → ℤ
      → Option Time
      → Time
      → Result Bytes
      → Result Bytes
      → Result (Bytes × Bytes) × B.Tx
  create_key_with_expiry t name role expires now id_bytes secret_bytes =
      store_key t (mint name role expires now id_bytes secret_bytes)

  -- CreateKey
  unfoldable pub create_key :
      B.Tx → Bytes → ℤ → Time → Result Bytes → Result Bytes → Result (Bytes × Bytes) × B.Tx
  create_key t name role now id_bytes secret_bytes =
      create_key_with_expiry t name role none now id_bytes secret_bytes
