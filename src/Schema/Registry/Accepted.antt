-- ===== src/Schema/Registry/Accepted.antt =====
-- What Register leaves behind, when it refuses a schema and when it accepts one.
use kora_db.Base.{
  compile_failed, no_files_produced, encode_descriptors, ℕ, ◌≡◌, refl, sym, ap, ◌∙◌, Bytes, Bool,
  true, false, some, [], Error, Result, ok, err, >>=-elim, checked-eq-ok, or_error, if◌then◌else◌,
  ok-injective,
}
use kora_db.Base.Int.{ℤ}
use kora_db.Storage.{Bolt, update}
use kora_db.Storage.Laws.{IsBolt, lookup, update-eq-ok, update-eq-err}
use kora_db.Proto.{Proto}
use kora_db.Schema.Files.{is_present, assign, collect_files}
use kora_db.Schema.Registry.{
  active_sources, first_of, ordered, build_files, copy_over, Compiler, Registry,
  ensure_file_compatible, next_version, Candidate, prepare, record_of, store_record, activate,
  commit_record, register_prepared, register,
}

module _ (B : Bolt) (P : Proto) (C : Compiler P) where
  -- What Register did where it returned a version.
  pub record Accepted (r r' : Registry P) (t t' : B.Tx) (name source : Bytes) (now : ℤ) (v : ℕ)
      : Type 0 where
    pub candidate : Candidate B P C
    pub bytes : Bytes
    pub prepared : prepare B P C r t name source ≡ ok candidate
    pub encoded : C.codec.encode (record_of B P C name source now candidate) ≡ ok bytes
    pub written : store_record B P C name candidate.version bytes t ≡ ok (tt, t')
    pub returned : candidate.version ≡ v
    pub activated : r' ≡ record {
      files = some candidate.candidate_files;
      file_protos = candidate.candidate_protos;
    }

  module _ (r r' : Registry P) (t t' : B.Tx) (name source : Bytes) (now : ℤ) where
    activate-error :
        (c : Candidate B P C) (o : Result (Unit {0})) (u : B.Tx) {e : Error}
        → activate B P C r c (o, u) ≡ (err e, r', t')
        → (r' ≡ r) × (t' ≡ u) × (x : Error) × (o ≡ err x)
    activate-error c (err x) u h = (ap (λ y. y.1) (sym h), ap (λ y. y.2) (sym h), x, refl)
    activate-error c (ok done) u h = absurd (cc)

    commit-error :
        (L : IsBolt B) (c : Candidate B P C) (o : Result Bytes) {e : Error}
        → commit_record B P C r t name c o ≡ (err e, r', t')
        → (r' ≡ r) × (t' ≡ t)
    commit-error L c (err x) h = (ap (λ y. y.1) (sym h), ap (λ y. y.2) (sym h))
    commit-error L c (ok bytes) h =
        let (same, last, x, failed) =
          activate-error c (update B (store_record B P C name c.version bytes) t).0
            (update B (store_record B P C name c.version bytes) t).1 h in
        (
          same,
          last
              ∙ update-eq-err B L (store_record B P C name c.version bytes) t x
                  (ap (λ y. (y, (update B (store_record B P C name c.version bytes) t).1)) failed),
        )

    prepared-error :
        (L : IsBolt B) (o : Result (Candidate B P C)) {e : Error}
        → register_prepared B P C r t name source now o ≡ (err e, r', t')
        → (r' ≡ r) × (t' ≡ t)
    prepared-error L (err x) h = (ap (λ y. y.1) (sym h), ap (λ y. y.2) (sym h))
    prepared-error L (ok c) h =
        commit-error L c (C.codec.encode (record_of B P C name source now c)) h

    -- Where bbolt rolls back as it documents: a Register that ends with an error leaves the registry and the
    -- file as they were.
    pub register-error :
        (L : IsBolt B) (e : Error)
        → register B P C r t name source now ≡ (err e, r', t')
        → (r' ≡ r) × (t' ≡ t)
    unfolding register
    register-error L e h = prepared-error L (prepare B P C r t name source) h

    activate-ok :
        (c : Candidate B P C) (o : Result (Unit {0})) (u : B.Tx) {v : ℕ}
        → activate B P C r c (o, u) ≡ (ok v, r', t')
        → (o ≡ ok tt)
          × (u ≡ t')
          × (c.version ≡ v)
          × (r' ≡ record { files = some c.candidate_files; file_protos = c.candidate_protos })
    activate-ok c (err x) u h = absurd (cc)
    activate-ok c (ok tt) u h =
        (refl, ap (λ y. y.2) h, ok-injective (ap (λ y. y.0) h), ap (λ y. y.1) (sym h))

    commit-ok :
        (c : Candidate B P C) (o : Result Bytes) {v : ℕ}
        → prepare B P C r t name source ≡ ok c
        → C.codec.encode (record_of B P C name source now c) ≡ o
        → commit_record B P C r t name c o ≡ (ok v, r', t')
        → Accepted r r' t t' name source now v
    commit-ok c (err x) p q h = absurd (cc)
    commit-ok c (ok bytes) p q h =
        let fn = store_record B P C name c.version bytes in
        let (good, last, version, active) = activate-ok c (update B fn t).0 (update B fn t).1 h in
        record {
          candidate = c;
          bytes = bytes;
          prepared = p;
          encoded = q;
          written =
              update-eq-ok B fn t
                (ap (λ x. (x, (update B fn t).1)) good ∙ ap (λ y. (ok tt, y)) last);
          returned = version;
          activated = active;
        }

    prepared-ok :
        (o : Result (Candidate B P C)) {v : ℕ}
        → prepare B P C r t name source ≡ o
        → register_prepared B P C r t name source now o ≡ (ok v, r', t')
        → Accepted r r' t t' name source now v
    prepared-ok (err x) p h = absurd (cc)
    prepared-ok (ok c) p h =
        commit-ok c (C.codec.encode (record_of B P C name source now c)) p refl h

    pub register-Accepted :
        (v : ℕ)
        → register B P C r t name source now ≡ (ok v, r', t')
        → Accepted r r' t t' name source now v
    unfolding register
    register-Accepted v h = prepared-ok (prepare B P C r t name source) refl h

  module _ (r : Registry P) (t : B.Tx) (name source : Bytes) where
    -- What Register has checked before it writes.
    pub record Checked (c : Candidate B P C) : Type 0 where
      pub numbered : next_version B P C t name ≡ ok c.version
      pub compatible :
          is_present (lookup name r.file_protos) ≡ true
          → ensure_file_compatible B P C r.files c.candidate_files name ≡ ok tt

    chosen :
        (b : Bool) (m : Result (Unit {0})) → (if b then m else ok tt) ≡ ok tt → b ≡ true → m ≡ ok tt
    chosen true m h e = h
    chosen false m h e = absurd (cc)

    pub prepare-Checked : (c : Candidate B P C) → prepare B P C r t name source ≡ ok c → Checked c
    unfolding prepare
    prepare-Checked c h = >>=-elim (active_sources B P C t) h λ sources e₁ h₁.
        >>=-elim (or_error (compile_failed name) (C.compile (assign name source sources) name)) h₁
          λ compiled e₂ h₂. >>=-elim (first_of (no_files_produced name) compiled) h₂ λ file e₃ h₃.
            >>=-elim (ordered (collect_files file [])) h₃ λ set e₄ h₄.
              >>=-elim (or_error (encode_descriptors name) (C.marshal_set set)) h₄ λ fd_set e₅ h₅.
                >>=-elim (build_files B P C (copy_over (collect_files file []) r.file_protos)) h₅
                  λ files e₆ h₆.
                    let (kept, h₇) =
                      checked-eq-ok
                        (if is_present (lookup name r.file_protos)
                          then ensure_file_compatible B P C r.files files name
                          else ok tt)
                        _ h₆ in
                    >>=-elim (next_version B P C t name) h₇ λ version e₈ h₈. record {
                      numbered = e₈ ∙ ap (λ x. ok (Candidate.version x)) (ok-injective h₈);
                      compatible = λ present.
                          ap
                            (λ x.
                              ensure_file_compatible B P C r.files (Candidate.candidate_files x)
                                name)
                            (sym (ok-injective h₈))
                          ∙ chosen _ _ kept present;
                    }
