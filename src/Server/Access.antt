-- ===== src/Server/Access.antt =====
-- internal/server/interceptors.go and health.go: the interceptors for access and for the audit log.
pub mod Guarded
use kora_db.Base.{
  ℕ, Bytes, text, Bool, true, false, not, List, [], ◌∷◌, ◌++◌, Option, none, some, Result, ok, err,
  bytes_equal, has_prefix, drop, if◌then◌else◌,
}
use kora_db.Base.Int.{ℤ}
use kora_db.Strconv.Runes.{trim_space}
use kora_db.Storage.{Bolt}
use kora_db.Engine.Meta.{Codec}
use kora_db.Auth.{KeyRecord, Principal, authenticate_at, can, role_text, after_slash}
use kora_db.Server.{Code, code_unauthenticated, code_permission_denied, Response, served, refused}

-- healthCheckMethod
unfoldable pub health_check_method : Bytes
health_check_method = text "/grpc.health.v1.Health/Check"

-- isPublicHealthMethod
unfoldable pub is_public_health_method : Bytes → Bool
is_public_health_method full_method = bytes_equal full_method health_check_method

abbrev token_given : Bytes → Response Bytes
token_given [] = refused code_unauthenticated
token_given (b ∷ s) = served (b ∷ s)

abbrev after_scheme : Bytes → Response Bytes
after_scheme v =
    if not (has_prefix v (text "Bearer "))
    then refused code_unauthenticated
    else token_given (trim_space (drop 7 v))

-- bearerToken: the metadata of the request are missing, or hold a list of authorizations.
unfoldable pub bearer_token : Option (List Bytes) → Response Bytes
bearer_token none = refused code_unauthenticated
bearer_token (some (v ∷ [])) = after_scheme (trim_space v)
bearer_token (some vs) = refused code_unauthenticated

-- shortMethod
unfoldable pub short_method : Bytes → Bytes
short_method full = after_slash full full

-- What AuthInterceptor has decided when it calls the handler, or answers in its place.
pub data Decision : Type 0 where
  open_to_all : Decision
  admitted : Principal → Decision
  denied : Code → Option Principal → Decision

-- The audit log's record, without the time, the peer and the duration.
pub record AuditRecord : Type 0 where
  pub method : Bytes
  pub principal : Bytes
  pub failure : Option Code

abbrev principal_text : Option Principal → Bytes
principal_text none = text "anonymous"
principal_text (some p) = p.name ++ (text "/" ++ role_text p.role)

abbrev failure_of {ℓ} : {A : Type ℓ} → Response A → Option Code
failure_of (served a) = none
failure_of (refused c) = some c

module _ (B : Bolt) (J : Codec KeyRecord) (hash_secret : Bytes → Bytes) where
  abbrev pub decide_role : Bytes → Result Principal → Decision
  decide_role full_method (err e) = denied code_unauthenticated none
  decide_role full_method (ok p) =
      if not (can (some p) full_method) then denied code_permission_denied (some p) else admitted p

  abbrev pub decide_token : Bytes → ℤ → B.Tx → Response Bytes → Decision
  decide_token full_method now t (refused c) = denied code_unauthenticated none
  decide_token full_method now t (served token) =
      decide_role full_method (authenticate_at B J hash_secret t token now)

  -- The tests of AuthInterceptor.
  unfoldable pub decide : Bytes → Option (List Bytes) → ℤ → B.Tx → Decision
  decide full_method metadata now t =
      if is_public_health_method full_method
      then open_to_all
      else decide_token full_method now t (bearer_token metadata)

  module _ {A : Type 0} (handler : Option Principal → B.Tx → Response A × B.Tx) where
    -- The holder of the audit interceptor comes with the response.
    abbrev pub enforce : Decision → B.Tx → (Response A × B.Tx) × Option Principal
    enforce open_to_all t = (handler none t, none)
    enforce (admitted p) t = (handler (some p) t, some p)
    enforce (denied c holder) t = ((refused c, t), holder)

    -- AuthInterceptor, around a handler that gets the principal of its context.
    unfoldable pub auth_interceptor :
        Bytes → Option (List Bytes) → ℤ → B.Tx → (Response A × B.Tx) × Option Principal
    auth_interceptor full_method metadata now t = enforce (decide full_method metadata now t) t

    -- AuditInterceptor, around AuthInterceptor.
    unfoldable pub audited :
        Bytes → Option (List Bytes) → ℤ → B.Tx → (Response A × B.Tx) × AuditRecord
    audited full_method metadata now t =
        let ((r, t'), holder) = auth_interceptor full_method metadata now t in
        (
          (r, t'),
          record {
            method = short_method full_method;
            principal = principal_text holder;
            failure = failure_of r;
          },
        )
