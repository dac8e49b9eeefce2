-- ===== src/Server/Access/Guarded.antt =====
-- A handler runs for a caller with the role of the method, or for the health check.
use kora_db.Base.{
  ◌≡◌, ◌⊎◌, refl, Bytes, true, List, Option, none, some, Result, ok, err, inl, inr, Bool-cases,
}
use kora_db.Base.Int.{ℤ}
use kora_db.Storage.{Bolt}
use kora_db.Engine.Meta.{Codec}
use kora_db.Auth.{KeyRecord, Principal, authenticate_at, can}
use kora_db.Server.{Code, code_unauthenticated, code_permission_denied, Response, served, refused}
use kora_db.Server.Access.{
  is_public_health_method, bearer_token, Decision, open_to_all, admitted, denied, decide_role,
  decide_token, decide, enforce, auth_interceptor,
}

module _ (B : Bolt) (J : Codec KeyRecord) (hash_secret : Bytes → Bytes) (full_method : Bytes)
    (metadata : Option (List Bytes)) (now : ℤ) (t : B.Tx) where
  -- The caller whom a request admits.
  pub record Caller (p : Principal) : Type 0 where
    pub token : Bytes
    pub of_header : bearer_token metadata ≡ served token
    pub authentic : authenticate_at B J hash_secret t token now ≡ ok p
    pub allowed : can (some p) full_method ≡ true

  Decided : Decision → Type 0
  Decided open_to_all = is_public_health_method full_method ≡ true
  Decided (admitted p) = Caller p
  Decided (denied c holder) = (c ≡ code_unauthenticated) ⊎ (c ≡ code_permission_denied)

  role-Decided :
      (token : Bytes)
      → bearer_token metadata ≡ served token
      → (r : Result Principal) → authenticate_at B J hash_secret t token now ≡ r
      → Decided (decide_role B J hash_secret full_method r)
  unfolding Decided
  role-Decided token h (err e) q = inl refl
  role-Decided token h (ok p) q = elim (Bool-cases (can (some p) full_method)) [
    | inl c ↦ rw c (record { token = token; of_header = h; authentic = q; allowed = c })
    | inr c ↦ rw c (inr refl)
  ]

  token-Decided :
      (r : Response Bytes)
      → bearer_token metadata ≡ r
      → Decided (decide_token B J hash_secret full_method now t r)
  unfolding Decided
  token-Decided (refused c) h = inl refl
  token-Decided (served token) h =
      role-Decided token h (authenticate_at B J hash_secret t token now) refl

  decide-Decided : Decided (decide B J hash_secret full_method metadata now t)
  unfolding decide Decided
  decide-Decided = elim (Bool-cases (is_public_health_method full_method)) [
    | inl c ↦ rw (c, decide) c
    | inr c ↦ rw (c, decide) (token-Decided (bearer_token metadata) refl)
  ]

  module _ {A : Type 0} (handler : Option Principal → B.Tx → Response A × B.Tx) where
    -- What the interceptor has done: it called the handler, or refused the request.
    pub Guarded : Response A × B.Tx → Type 0
    Guarded out =
        ((is_public_health_method full_method ≡ true) × (out ≡ handler none t))
        ⊎ ((p : Principal) × Caller p × (out ≡ handler (some p) t))
        ⊎ ((c : Code) × (out ≡ (refused c, t))
            × ((c ≡ code_unauthenticated) ⊎ (c ≡ code_permission_denied)))

    enforce-Guarded : (d : Decision) → Decided d → Guarded (enforce B J hash_secret handler d t).0
    unfolding Decided Guarded
    enforce-Guarded open_to_all h = inl (h, refl)
    enforce-Guarded (admitted p) h = inr (inl (p, h, refl))
    enforce-Guarded (denied c holder) h = inr (inr (c, refl, h))

    -- AuthInterceptor calls the handler for the health check, without a principal, or for a principal whom
    -- the token of the header authenticates and whose role may call the method; otherwise it refuses the
    -- request as unauthenticated or as denied, and leaves the file as it was.
    pub auth_interceptor-Guarded :
        Guarded (auth_interceptor B J hash_secret handler full_method metadata now t).0
    unfolding auth_interceptor
    auth_interceptor-Guarded =
        enforce-Guarded (decide B J hash_secret full_method metadata now t) decide-Decided
