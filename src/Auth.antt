-- ===== src/Auth.antt =====
-- internal/auth/auth.go and internal/auth/rbac.go: tokens, authentication, revocation and the roles of
-- the methods.
pub mod Access
pub mod Admins
pub mod Create
use kora_db.Base.{
  ℕ, suc, zero, ◌==◌, Bool, true, false, not, ◌||◌, ◌&&◌, Bytes, text, List, [], ◌∷◌, ◌++◌, Option,
  none, some, Error, Result, ok, err, reject, or_error, ◌>>=◌, ◌>>◌, key_not_found, invalid_token,
  last_admin, corrupt_key, stop_scan, bytes_equal, has_prefix, length, drop, leb, if◌then◌else◌,
}
use kora_db.Base.Int.{ℤ, pos, negsuc, ltb_ℤ}
use kora_db.Storage.{Bolt, Callback, get, delete, scan, update, view}
use kora_db.Engine.Meta.{Codec, require}

-- keysBucket
unfoldable pub keys_bucket : Bytes
keys_bucket = text "__auth_keys__"

-- Role, an int of Go, with its constants.
abbrev pub role_read_only : ℤ
role_read_only = pos 1

abbrev pub role_read_write : ℤ
role_read_write = pos 2

abbrev pub role_admin : ℤ
role_admin = pos 3

-- `role == RoleAdmin`
abbrev pub is_admin : ℤ → Bool
is_admin (pos n) = n == 3
is_admin (negsuc n) = false

-- Role.String
unfoldable pub role_text : ℤ → Bytes
role_text (pos (suc zero)) = text "readonly"
role_text (pos (suc (suc zero))) = text "readwrite"
role_text (pos (suc (suc (suc zero)))) = text "admin"
role_text _ = text "none"

pub record Principal : Type 0 where
  pub key_id : Bytes
  pub name : Bytes
  pub role : ℤ

pub record KeyRecord : Type 0 where
  pub key_id : Bytes
  pub name : Bytes
  pub role : ℤ
  pub secret_sha256 : Bytes
  pub created_unix : ℤ
  pub expires_unix : ℤ

-- `rec.ExpiresUnix != 0`
abbrev pub has_expiry : ℤ → Bool
has_expiry (pos zero) = false
has_expiry _ = true

-- strings.Split by one byte.
abbrev put_first : ℕ → List Bytes → List Bytes
put_first b [] = (b ∷ []) ∷ []
put_first b (p ∷ ps) = (b ∷ p) ∷ ps

unfoldable pub split : ℕ → Bytes → List Bytes
split sep [] = [] ∷ []
split sep (b ∷ s) = let rest = split sep s in if b == sep then [] ∷ rest else put_first b rest

abbrev is_hex_digit : ℕ → Bool
is_hex_digit b =
    (leb b'0' b && leb b b'9') || (leb b'a' b && leb b b'f') || (leb b'A' b && leb b b'F')

-- hex.DecodeString without an error: pairs of hexadecimal digits.
unfoldable pub is_hex : Bytes → Bool
is_hex [] = true
is_hex (a ∷ []) = false
is_hex (a ∷ b ∷ s) = is_hex_digit a && is_hex_digit b && is_hex s

-- The test of parseToken on the parts.
unfoldable pub check_parts : List Bytes → Result (Bytes × Bytes)
check_parts (id ∷ secret ∷ []) = do
  reject (not (length id == 16) || not (length secret == 64)) invalid_token
  reject (not (is_hex id)) invalid_token
  reject (not (is_hex secret)) invalid_token
  ok (id, secret)
check_parts _ = err invalid_token

-- parseToken: the key's id and the secret.
unfoldable pub parse_token : Bytes → Result (Bytes × Bytes)
parse_token token = do
  reject (not (has_prefix token (text "kdb_"))) invalid_token
  check_parts (split b'_' (drop 4 token))

module _ (B : Bolt) (J : Codec KeyRecord) where
  abbrev missing_record : Error → Result (Option KeyRecord)
  missing_record key_not_found = ok none
  missing_record e = err e

  -- The read of authenticateAt.
  unfoldable pub find_record : Bytes → B.Tx → Result (Option KeyRecord)
  find_record id t = elim (get B t keys_bucket id) [
    | err e ↦ missing_record e
    | ok b ↦ do rec ← J.decode b; ok (some rec)
  ]

  -- authenticateAt, at a time in Unix seconds; `hash_secret` is the digest in hexadecimal.
  unfoldable pub authenticate_at :
      (hash_secret : Bytes → Bytes) → B.Tx → Bytes → ℤ → Result Principal
  authenticate_at hash_secret t token now = do
    (id, secret) ← parse_token token
    found ← view B (find_record id) t
    rec ← require invalid_token found
    reject (not (bytes_equal (hash_secret secret) rec.secret_sha256)) invalid_token
    reject (has_expiry rec.expires_unix && not (ltb_ℤ now rec.expires_unix)) invalid_token
    ok (record { key_id = rec.key_id; name = rec.name; role = rec.role })

  -- The callback that counts the administrators.
  unfoldable pub count_admin : Callback ℕ
  count_admin n k v = elim (J.decode v) [
    | err e ↦ (n, some corrupt_key)
    | ok rec ↦ (if is_admin rec.role then suc n else n, none)
  ]

  abbrev enough : ℕ × Option Error → Result (Unit {0})
  enough (n, some e) = err e
  enough (n, none) = reject (leb n 1) last_admin

  -- The test of Revoke that an administrator remains.
  unfoldable pub check_admins : B.Tx → ℤ → Result (Unit {0})
  check_admins t role = if is_admin role then enough (scan B t keys_bucket count_admin 0) else ok tt

  abbrev pub revoke_missing : Error → B.Tx → Result (Unit {0} × B.Tx)
  revoke_missing key_not_found t = ok (tt, t)
  revoke_missing e t = err e

  abbrev pub revoke_found : Bytes → Bytes → B.Tx → Result (Unit {0} × B.Tx)
  revoke_found id b t = do
    target ← or_error corrupt_key (J.decode b)
    check_admins t target.role
    t' ← delete B t keys_bucket id
    ok (tt, t')

  -- The function of Revoke's transaction.
  unfoldable pub revoke_key : Bytes → B.Tx → Result (Unit {0} × B.Tx)
  revoke_key id t = elim (get B t keys_bucket id) [
    | err e ↦ revoke_missing e t
    | ok b ↦ revoke_found id b t
  ]

  -- Revoke
  unfoldable pub revoke : Bytes → B.Tx → Result (Unit {0}) × B.Tx
  revoke id t = update B (revoke_key id) t

  -- The callback of List, which hides the digests.
  abbrev list_record : Callback (List KeyRecord)
  list_record out k v = elim (J.decode v) [
    | err e ↦ (out, some e)
    | ok rec ↦ (out ++ (record rec { secret_sha256 = [] } ∷ []), none)
  ]

  -- List: Go's slice and error.
  unfoldable pub list_keys : B.Tx → List KeyRecord × Option Error
  list_keys t = scan B t keys_bucket list_record []

  -- `if err == errStopScan { return true, nil }`
  abbrev stopped : Bool × Option Error → Result Bool
  stopped (b, none) = ok b
  stopped (b, some stop_scan) = ok true
  stopped (b, some e) = err e

  abbrev note_any : Callback Bool
  note_any b k v = (true, some stop_scan)

  -- HasAnyKey
  unfoldable pub has_any_key : B.Tx → Result Bool
  has_any_key t = stopped (scan B t keys_bucket note_any false)

  abbrev note_admin : Callback Bool
  note_admin b k v = elim (J.decode v) [
    | err e ↦ (b, some corrupt_key)
    | ok rec ↦ if is_admin rec.role then (true, some stop_scan) else (b, none)
  ]

  -- HasAdminKey
  unfoldable pub has_admin_key : B.Tx → Result Bool
  has_admin_key t = stopped (scan B t keys_bucket note_admin false)

-- methodMinRole: the methods of each role.
abbrev member : Bytes → List Bytes → Bool
member s [] = false
member s (x ∷ xs) = bytes_equal x s || member s xs

unfoldable pub method_min_role : Bytes → Option ℤ
method_min_role name =
    if member name (text "Get" ∷ text "Query" ∷ text "ListSchemas" ∷ text "ListCollections" ∷ [])
    then some role_read_only
    else if member name (text "Insert" ∷ text "Update" ∷ text "Delete" ∷ [])
    then some role_read_write
    else if member name (
        text "PutSchema"
        ∷ text "CreateCollection"
        ∷ text "CreateKey"
        ∷ text "ListKeys"
        ∷ text "RevokeKey"
        ∷ [])
    then some role_admin
    else none

-- What follows the last slash, or the whole name.
unfoldable pub after_slash : Bytes → Bytes → Bytes
after_slash name [] = name
after_slash name (b ∷ s) =
    let here = after_slash s s in let rest = after_slash name s in if b == b'/' then here else rest

-- RequiredRole
unfoldable pub required_role : Bytes → Option ℤ
required_role full_method = method_min_role (after_slash full_method full_method)

abbrev pub reaches : ℤ → Option ℤ → Bool
reaches role none = false
reaches role (some need) = not (ltb_ℤ role need)

-- Can; `none` is a nil principal.
unfoldable pub can : Option Principal → Bytes → Bool
can none full_method = false
can (some p) full_method = reaches p.role (required_role full_method)
