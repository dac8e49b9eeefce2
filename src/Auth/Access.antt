-- ===== src/Auth/Access.antt =====
-- What a token and a role give access to.
use kora_db.Base.{
  zero, suc, ◌≡◌, refl, sym, ap, ◌∙◌, Bool, true, false, not, ◌&&◌, ◌⊎◌, inl, inr, Bytes, Option,
  none, some, ok, reject, ◌>>◌, >>=-elim, ok-injective, reject-eq-ok, Result-cases, arith,
  bytes_equal, bytes_equal_iff, invalid_token, Error, key_not_found,
}
use kora_db.Base.Int.{ℤ, pos, negsuc, ltb_ℤ}
use kora_db.Storage.{Bolt, get, view}
use kora_db.Storage.Laws.{IsBolt, found_lem}
use kora_db.Engine.Meta.{Codec, require}
use kora_db.Auth.{
  KeyRecord, Principal, keys_bucket, parse_token, find_record, missing_record, has_expiry,
  authenticate_at,
}

module _ (B : Bolt) (L : IsBolt B) (J : Codec KeyRecord) (hash_secret : Bytes → Bytes) where
  -- The stored record behind a token that authenticates.
  pub record Accepted (t : B.Tx) (token : Bytes) (now : ℤ) (p : Principal) : Type 0 where
    pub id : Bytes
    pub secret : Bytes
    pub stored : Bytes
    pub rec : KeyRecord
    pub parsed : parse_token token ≡ ok (id, secret)
    pub of_key : B.get t keys_bucket id ≡ some stored
    pub decoded : J.decode stored ≡ ok rec
    pub of_secret : hash_secret secret ≡ rec.secret_sha256
    pub unexpired : (rec.expires_unix ≡ pos 0) ⊎ (ltb_ℤ now rec.expires_unix ≡ true)
    pub of_role : p.role ≡ rec.role
    pub of_name : p.name ≡ rec.name

  absent : (e : Error) (rec : KeyRecord) → missing_record B J e ≡ ok (some rec) → ⊥
  absent key_not_found rec h = cc
  absent e rec h = cc

  record_found :
      (t : B.Tx) (id : Bytes) (rec : KeyRecord)
      → find_record B J id t ≡ ok (some rec)
      → (b : Bytes) × (B.get t keys_bucket id ≡ some b) × (J.decode b ≡ ok rec)
  unfolding find_record
  record_found t id rec h = elim (Result-cases (get B t keys_bucket id)) [
    | inr (x, e) ↦ absurd (absent x rec (rw (e, find_record) at h))
    | inl (b, e) ↦
        >>=-elim (J.decode b) (rw (e, find_record) at h)
          λ r d h₁. (b, found_lem B L t keys_bucket id e, d ∙ ap ok (let q : r ≡ rec = cc in q))
  ]

  -- A token that authenticates parses into an id and a secret; a record is stored under that id, its
  -- digest is that of the secret, it has no expiry or one after the given time, and the principal has its
  -- role and its name.
  pub authenticate_at-Accepted :
      (t : B.Tx) (token : Bytes) (now : ℤ) (p : Principal)
      → authenticate_at B J hash_secret t token now ≡ ok p
      → Accepted t token now p
  unfolding authenticate_at view
  authenticate_at-Accepted t token now p h = >>=-elim (parse_token token) h λ (id, secret) e₁ h₁.
      >>=-elim (find_record B J id t) h₁ λ found e₂ h₂.
        >>=-elim (require invalid_token found) h₂ λ rec e₃ h₃.
          let (same, h₄) =
            reject-eq-ok (not (bytes_equal (hash_secret secret) rec.secret_sha256)) invalid_token
              (reject (expired rec) invalid_token >> ok (principal rec)) h₃ in
          let (fresh, h₅) = reject-eq-ok (expired rec) invalid_token (ok (principal rec)) h₄ in
          let q : principal rec ≡ p = ok-injective h₅ in
          let (b, there, d) = record_found t id rec (e₂ ∙ ap ok (required found rec e₃)) in
          record {
            id = id;
            secret = secret;
            stored = b;
            rec = rec;
            parsed = e₁;
            of_key = there;
            decoded = d;
            of_secret =
                ground (arith, bytes_equal_iff (hash_secret secret) rec.secret_sha256, same);
            unexpired = expiry rec.expires_unix fresh;
            of_role = sym (ap (λ x. x.role) q);
            of_name = sym (ap (λ x. x.name) q);
          }
    where
      expired : KeyRecord → Bool
      expired rec = has_expiry rec.expires_unix && not (ltb_ℤ now rec.expires_unix)

      principal : KeyRecord → Principal
      principal rec = record { key_id = rec.key_id; name = rec.name; role = rec.role }

      required :
          (o : Option KeyRecord) (rec : KeyRecord) → require invalid_token o ≡ ok rec → o ≡ some rec
      required none rec h = absurd (cc)
      required (some r) rec h = ap some (ok-injective h)

      expiry :
          (z : ℤ) → (has_expiry z && not (ltb_ℤ now z)) ≡ false → (z ≡ pos 0) ⊎ (ltb_ℤ now z ≡ true)
      expiry (pos zero) h = inl refl
      expiry (pos (suc n)) h = inr (ground arith)
      expiry (negsuc n) h = inr (ground arith)
