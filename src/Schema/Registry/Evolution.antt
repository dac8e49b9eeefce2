-- ===== src/Schema/Registry/Evolution.antt =====
-- A registration that succeeds: what the file then holds, and what the active schema keeps.
use kora_db.Base.{
  ℕ, ◌+◌, ◌⊎◌, inl, inr, Error, err, Result-cases, key_not_found, arith, ◌≡◌, refl, sym, ap, ◌∙◌,
  Bytes, Bool, true, false, ◌&&◌, Option, some, List, ok, >>=-elim, bytes_equal, pair_equal,
  or_error, or_error-eq-ok, if◌then◌else◌, ok-injective, unresolved_active, unresolved_candidate,
}
use kora_db.Base.Int.{ℤ}
use kora_db.Storage.{Bolt, put, get}
use kora_db.Storage.Laws.{IsBolt, lookup, get-put}
use kora_db.Proto.{Proto}
use kora_db.Schema.Compat.{File, Message, ensure_files_compatible}
use kora_db.Schema.Compat.Chain.{descend, Kept, files-keep}
use kora_db.Schema.Files.{is_present}
use kora_db.Schema.Registry.{
  Record, Compiler, Registry, schema_bucket, schema_history_bucket, schema_history_key,
  ensure_file_compatible, next_version, record_of, store_record, register,
}
use kora_db.Schema.Registry.Accepted.{register-Accepted, prepare-Checked}

buckets_differ : bytes_equal schema_history_bucket schema_bucket ≡ false
unfolding schema_bucket schema_history_bucket bytes_equal
buckets_differ = refl

module _ (B : Bolt) (P : Proto) (C : Compiler P) where
  -- The two entries that a registration writes, and nothing else.
  pub record Stored (t t' : B.Tx) (name : Bytes) (v : ℕ) (rec : Record) : Type 0 where
    pub bytes : Bytes
    pub encoded : C.codec.encode rec ≡ ok bytes
    pub current : B.get t' schema_bucket name ≡ some bytes
    pub history : B.get t' schema_history_bucket (schema_history_key name v) ≡ some bytes
    pub rest :
        (b k : Bytes)
        → (bytes_equal schema_bucket b && bytes_equal name k) ≡ false
        → (bytes_equal schema_history_bucket b && bytes_equal (schema_history_key name v) k) ≡ false
        → B.get t' b k ≡ B.get t b k

  -- The number of a new version: one more than that of the current record, or 1 where there is none, or
  -- none that decodes.
  abbrev pub IsNext : B.Tx → Bytes → ℕ → Type 0
  IsNext t name v =
      (get B t schema_bucket name ≡ err key_not_found) × (v ≡ 1)
      ⊎ ((bytes : Bytes) × (get B t schema_bucket name ≡ ok bytes)
          × (((prev : Record) × (C.codec.decode bytes ≡ ok prev) × (v ≡ prev.version + 1))
              ⊎ ((e : Error) × (C.codec.decode bytes ≡ err e) × (v ≡ 1))))

  missing_current : (t : B.Tx) (b k : Bytes) {e : Error} → get B t b k ≡ err e → e ≡ key_not_found
  unfolding get
  missing_current t b k h = ground arith

  next_version-IsNext :
      (t : B.Tx) (name : Bytes) (v : ℕ) → next_version B P C t name ≡ ok v → IsNext t name v
  unfolding next_version
  next_version-IsNext t name v h = elim (Result-cases (get B t schema_bucket name)) [
    | inr (x, e) ↦
        let e' : get B t schema_bucket name ≡ err key_not_found =
          e ∙ ap err (missing_current t schema_bucket name e) in
        inl (e', sym (ok-injective (rw (e', next_version) at h)))
    | inl (bytes, e) ↦ elim (Result-cases (C.codec.decode bytes)) [
      | inl (prev, d) ↦
          inr (bytes, e, inl (prev, d, sym (ok-injective (rw (e, d, next_version) at h))))
      | inr (x, d) ↦ inr (bytes, e, inr (x, d, sym (ok-injective (rw (e, d, next_version) at h))))
    ]
  ]

  store_record-Stored :
      (L : IsBolt B) (t t' : B.Tx) (name : Bytes) (v : ℕ) (rec : Record) (bytes : Bytes)
      → C.codec.encode rec ≡ ok bytes
      → store_record B P C name v bytes t ≡ ok (tt, t')
      → Stored t t' name v rec
  unfolding store_record
  store_record-Stored L t t' name v rec bytes e h =
      let or_old : B.Tx → Bytes → Bytes → Bool → Option Bytes =
        λ x b k c. if c then some bytes else B.get x b k in
      >>=-elim (put B t schema_bucket name bytes) h λ t₁ e₁ h₁.
        >>=-elim (put B t₁ schema_history_bucket (schema_history_key name v) bytes) h₁ λ t₂ e₂ h₂.
          let last = ap (λ x. x.1) (ok-injective h₂) in
          let written : (b k : Bytes)
              → B.get t' b k ≡ (
                  if bytes_equal schema_history_bucket b
                    && bytes_equal (schema_history_key name v) k
                  then some bytes
                  else B.get t₁ b k) =
            λ b k.
              ap (λ x. B.get x b k) (sym last)
              ∙ get-put B L t₁ t₂ schema_history_bucket (schema_history_key name v) bytes b k e₂ in
          let before : (b k : Bytes)
              → B.get t₁ b k ≡ (
                  if bytes_equal schema_bucket b && bytes_equal name k
                  then some bytes
                  else B.get t b k) =
            λ b k. get-put B L t t₁ schema_bucket name bytes b k e₁ in
          record {
            bytes = bytes;
            encoded = e;
            current =
                written schema_bucket name
                ∙ ap
                    (λ c.
                      or_old t₁ schema_bucket name
                        (c && bytes_equal (schema_history_key name v) name))
                    buckets_differ
                ∙ before schema_bucket name
                ∙ ap (or_old t schema_bucket name) (pair_equal schema_bucket name);
            history =
                written schema_history_bucket (schema_history_key name v)
                ∙ ap (or_old t₁ schema_history_bucket (schema_history_key name v))
                    (pair_equal schema_history_bucket (schema_history_key name v));
            rest = λ b k q p. written b k ∙ ap (or_old t₁ b k) p ∙ before b k ∙ ap (or_old t b k) q;
          }

  -- A Register that succeeds returns one more than the version of the name's current record, or 1 where
  -- the file has no current record of the name or one that does not decode; it stores a record of that
  -- version, with the name and the source, as the current one of the name and in the history under that
  -- version, and changes no other key.
  pub register-Stored :
      (L : IsBolt B) (r r' : Registry P) (t t' : B.Tx) (name source : Bytes) (now : ℤ) (v : ℕ)
      → register B P C r t name source now ≡ (ok v, r', t')
      → IsNext t name v
        × (rec : Record) × (rec.name ≡ name)
        × (rec.source ≡ source)
        × (rec.version ≡ v)
        × Stored t t' name v rec
  unfolding record_of
  register-Stored L r r' t t' name source now v h =
      let a = register-Accepted B P C r r' t t' name source now v h in
      let checked = prepare-Checked B P C r t name source a.candidate a.prepared in
      (
        next_version-IsNext t name v (checked.numbered ∙ ap ok a.returned),
        record_of B P C name source now a.candidate,
        refl,
        refl,
        a.returned,
        store_record-Stored L t t' name v (record_of B P C name source now a.candidate) a.bytes
            a.encoded (ap (λ x. store_record B P C name x a.bytes t) (sym a.returned) ∙ a.written),
      )

  -- Where the registry has active files and a file of the name: after a Register of the name that succeeds,
  -- the active files have a file of the name, and the message at each path of names in the old file is there
  -- in the new one, with the contract of its fields and the names of its enum values.
  pub register-keeps :
      (r r' : Registry P) (t t' : B.Tx) (name source : Bytes) (now : ℤ) (v : ℕ) (active : P.Files)
      (old : File) (top : Bytes) (path : List Bytes) (m : Message)
      → register B P C r t name source now ≡ (ok v, r', t')
      → is_present (lookup name r.file_protos) ≡ true
      → r.files ≡ some active
      → C.find_file active name ≡ ok old
      → descend old.messages top path ≡ some m
      → (active' : P.Files) × (r'.files ≡ some active')
        × (new : File) × (C.find_file active' name ≡ ok new)
        × (n : Message) × (descend new.messages top path ≡ some n)
        × Kept m n
  unfolding ensure_file_compatible
  register-keeps r r' t t' name source now v active old top path m h present there at_name at_path =
      let a = register-Accepted B P C r r' t t' name source now v h in
      let checked = prepare-Checked B P C r t name source a.candidate a.prepared in
      let files = a.candidate.candidate_files in
      let fit =
        ap (λ x. ensure_file_compatible B P C x files name) (sym there)
        ∙ checked.compatible present in
      >>=-elim (or_error (unresolved_active name) (C.find_file active name)) fit λ old' e₁ h₁.
        >>=-elim (or_error (unresolved_candidate name) (C.find_file files name)) h₁ λ new e₂ h₂.
          let same : old ≡ old' = ok-injective (sym at_name ∙ or_error-eq-ok _ _ e₁) in
          let (n, found, kept) =
            files-keep old new top path m (ap (λ x. ensure_files_compatible x new) same ∙ h₂)
              at_path in
          (
            files,
            ap (λ x. Registry.files x) a.activated,
            new,
            or_error-eq-ok _ _ e₂,
            n,
            found,
            kept,
          )
