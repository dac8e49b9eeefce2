-- ===== src/Engine/Documents/Delete.antt =====
-- Delete: what it did, and that it keeps the invariant of the indexes.
use kora_db.Base.{
  ℕ, ◌<◌, ◌^◌, ◌≡◌, sym, ap, ◌∙◌, ◌&&◌, true, false, Bytes, Option, none, some, ok, err, arith,
  bytes_equal, bytes_equal_refl, if◌then◌else◌, Result-cases, inl, inr, ◌⊎◌, >>=-elim, ok-injective,
  Error, key_not_found,
}
use kora_db.Storage.{Bolt, get, delete}
use kora_db.Storage.Laws.{IsBolt, get-delete, sequence-delete, found_lem}
use kora_db.Proto.{Proto}
use kora_db.Index.{bucket}
use kora_db.Engine.Meta.{auto, CollectionMeta, Codec, data_bucket, has_index, collections_bucket}
use kora_db.Engine.Meta.Buckets.{
  bucket-ne-data_bucket, data_bucket-ne-bucket, data_bucket-ne-collections, bucket-ne-collections,
}
use kora_db.Engine.Keys.{encode_uint, encode_key}
use kora_db.Engine.Indexing.{index_delete}
use kora_db.Engine.Indexing.Effect.{get-index_delete, get-index_delete_other, sequence-index_delete}
use kora_db.Engine.Documents.{decode, delete_document, delete_found, delete_missing}
use kora_db.Engine.Documents.Indexed.{IsIndexed, document}
use kora_db.Engine.Documents.Writes.{entry_of, Effect, Effect-IsIndexed}

module _ (B : Bolt) (P : Proto) (J : Codec CollectionMeta) (files : Option P.Files)
    (meta : CollectionMeta) (id : Bytes) where
  -- The values that the deletion of a stored document went through.
  pub record Deleted (t t' : B.Tx) : Type 0 where
    pub key : Bytes
    pub old : Bytes
    pub old_msg : P.Message
    pub cleared : B.Tx
    pub encoded : encode_key P files meta id ≡ ok key
    pub present : get B t (data_bucket meta.name) key ≡ ok old
    pub decoded_old : decode P files meta old ≡ ok old_msg
    pub deleted_entries : index_delete B P t meta key old_msg ≡ ok cleared
    pub deleted_wire : delete B cleared (data_bucket meta.name) key ≡ ok t'

  -- The values of a deletion that found no document.
  pub record Missing (t t' : B.Tx) : Type 0 where
    pub key : Bytes
    pub encoded : encode_key P files meta id ≡ ok key
    pub absent : get B t (data_bucket meta.name) key ≡ err key_not_found
    pub same : t' ≡ t

  absent_cases :
      (key : Bytes) (e : Error) (t t' : B.Tx)
      → encode_key P files meta id ≡ ok key
      → get B t (data_bucket meta.name) key ≡ err e
      → delete_missing B P J files e t ≡ ok (tt, t')
      → Missing t t'
  absent_cases key key_not_found t t' encoded absent h =
      let q : (tt, t) ≡ (tt, t') = ok-injective h in
      record { key = key; encoded = encoded; absent = absent; same = sym (ap (λ p. p.1) q) }
  absent_cases key e t t' encoded absent h = absurd (cc)

  -- Delete removes a document, or it finds none and changes nothing.
  pub removal_cases :
      (t t' : B.Tx)
      → delete_document B P J files meta meta.name id t ≡ ok (tt, t')
      → Deleted t t' ⊎ Missing t t'
  unfolding delete_document
  removal_cases t t' h = >>=-elim (encode_key P files meta id) h λ key e₁ h₁.
      elim (Result-cases (get B t (data_bucket meta.name) key)) [
        | inr (e, q) ↦ inr (absent_cases key e t t' e₁ q (rw q at h₁))
        | inl (old, q) ↦
            let h₂ : delete_found B P J files meta meta.name key old t ≡ ok (tt, t') = rw q at h₁ in
            >>=-elim (decode P files meta old) h₂ λ old_msg e₃ h₃.
              >>=-elim (index_delete B P t meta key old_msg) h₃ λ t₁ e₄ h₄.
                >>=-elim (delete B t₁ (data_bucket meta.name) key) h₄ λ t₂ e₅ h₅.
                  let q' : (tt, t₂) ≡ (tt, t') = ok-injective h₅ in
                  inl (record {
                    key = key;
                    old = old;
                    old_msg = old_msg;
                    cleared = t₁;
                    encoded = e₁;
                    present = q;
                    decoded_old = e₃;
                    deleted_entries = e₄;
                    deleted_wire = e₅ ∙ ap ok (ap (λ p. p.1) q');
                  })
      ]

module _ (B : Bolt) (L : IsBolt B) (P : Proto) (J : Codec CollectionMeta) where
  module _ (files : Option P.Files) (meta : CollectionMeta) (md : P.Descriptor) (id : Bytes)
      {t t' : B.Tx} (inv : IsIndexed B P J files meta md t)
      (s : Deleted B P J files meta id t t') where
    old_wire : B.get t (data_bucket meta.name) s.key ≡ some s.old
    old_wire = found_lem B L t (data_bucket meta.name) s.key s.present

    other_bucket :
        (c j : Bytes)
        → ((field : Bytes) → bytes_equal (bucket meta.name field) c ≡ false)
        → B.get t' c j ≡ (
            if bytes_equal (data_bucket meta.name) c && bytes_equal s.key j
            then none
            else B.get t c j)
    other_bucket c j other =
        get-delete B L s.cleared t' (data_bucket meta.name) s.key c j s.deleted_wire
        ∙ rw (
            get-index_delete_other B L P meta s.key s.old_msg t s.cleared s.deleted_entries c j
              other)

    index_bucket :
        (field x : Bytes)
        → has_index meta field ≡ true
        → B.get t' (bucket meta.name field) x ≡ (
            if entry_of P (some s.old_msg) field s.key x
            then none
            else B.get t (bucket meta.name field) x)
    index_bucket field x there = ground (
      arith,
      get-delete B L s.cleared t' (data_bucket meta.name) s.key (bucket meta.name field) x
          s.deleted_wire,
      data_bucket-ne-bucket meta.name field meta.name,
      get-index_delete B L P meta s.key s.old_msg t s.cleared s.deleted_entries field x,
    )

    pub delete_Effect : Effect B P files meta s.key t t' (document P files meta B t s.key) none
    delete_Effect = record {
      of_data = λ j. ground (
        arith,
        other_bucket (data_bucket meta.name) j (λ f. bucket-ne-data_bucket meta.name f meta.name),
        bytes_equal_refl (data_bucket meta.name),
      );
      of_indexes = λ field x there. rw (old_wire, s.decoded_old) (index_bucket field x there);
      of_catalog = λ c. ground (
        arith,
        other_bucket collections_bucket c (bucket-ne-collections meta.name),
        data_bucket-ne-collections meta.name,
      );
    }

    sequence_kept : B.sequence t' (data_bucket meta.name) ≡ B.sequence t (data_bucket meta.name)
    sequence_kept =
        sequence-delete B L s.cleared t' (data_bucket meta.name) s.key (data_bucket meta.name)
          s.deleted_wire
        ∙ sequence-index_delete B L P meta s.key s.old_msg t s.cleared s.deleted_entries
            (data_bucket meta.name)

    still_free :
        (n : ℕ)
        → meta.key_kind ≡ auto
        → B.sequence t' (data_bucket meta.name) < n
        → n < 2 ^ 64
        → B.get t' (data_bucket meta.name) (encode_uint n) ≡ none
    still_free n a after small =
        let free : B.get t (data_bucket meta.name) (encode_uint n) ≡ none =
          inv.fresh n a (omega (arith, sequence_kept)) small in
        ground (arith, delete_Effect.of_data (encode_uint n), free)

    -- A successful deletion keeps the entries of the indexes in step with the documents.
    pub delete-IsIndexed : IsIndexed B P J files meta md t'
    delete-IsIndexed = Effect-IsIndexed B L P J files meta md s.key inv delete_Effect tt still_free
