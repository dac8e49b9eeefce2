-- ===== src/Engine/Documents/Created.antt =====
-- CreateCollection starts a collection whose indexes are in step with its documents: it has none of either.
use kora_db.Base.{
  ◌≡◌, refl, sym, ◌∙◌, Bytes, Option, none, ok, arith, reject-eq-ok, >>=-elim, ok-injective,
  Result-cases, bytes_equal_iff, bytes_equal_refl, inl, inr, ap,
}
use kora_db.Storage.{Bolt, put}
use kora_db.Storage.Laws.{IsBolt, get-put, get-eq-found, update-eq-ok}
use kora_db.Proto.{Proto}
use kora_db.Schema.{message_descriptor}
use kora_db.Index.{bucket, entry_key}
use kora_db.Engine.Meta.{CollectionMeta, Codec, IsUtf8, IsCatalog, collections_bucket, data_bucket}
use kora_db.Engine.Meta.Buckets.{data_bucket-ne-collections, bucket-ne-collections}
use kora_db.Engine.Keys.{encode_uint}
use kora_db.Engine.Collections.{
  CollectionOptions, choose_key, check_indexes, new_meta, store_meta, create_collection, get_meta,
}
use kora_db.Engine.Documents.Indexed.{IsIndexed}

module _ (P : Proto) (files : Option P.Files) where
  -- The metadata has the name that was asked for, and a message type that the registry knows.
  new_meta-typed :
      (name message_type : Bytes) (opts : CollectionOptions) (meta : CollectionMeta)
      → new_meta P files name message_type opts ≡ ok meta
      → (meta.name ≡ name)
        × (md : P.Descriptor) × (message_descriptor P files meta.message_type ≡ ok md)
  unfolding new_meta
  new_meta-typed name message_type opts meta h =
      >>=-elim (message_descriptor P files message_type) h λ md typed h₁.
        >>=-elim (choose_key P md opts.key_field) h₁ λ kk _ h₂.
          >>=-elim (check_indexes P md opts.indexes) h₂
            λ _ _ h₃. let e = ok-injective h₃ in rw (sym e) (refl, md, typed)

module _ (B : Bolt) (L : IsBolt B) (J : Codec CollectionMeta) where
  stored :
      (meta : CollectionMeta) (t t' : B.Tx) (m : CollectionMeta)
      → store_meta B J meta t ≡ ok (m, t')
      → (m ≡ meta)
        × (b : Bytes) × (J.encode meta ≡ ok b)
        × (put B t collections_bucket meta.name b ≡ ok t')
  unfolding store_meta
  stored meta t t' m h =
      let (_, h₁) = reject-eq-ok _ _ _ h in
      >>=-elim (J.encode meta) h₁ λ b e h₂.
        >>=-elim (put B t collections_bucket meta.name b) h₂ λ u p h₃.
          let q = ok-injective h₃ in (sym (ap (λ x. x.0) q), b, e, p ∙ ap ok (ap (λ x. x.1) q))

-- A database that holds nothing under the names of the collection's buckets.
module _ (B : Bolt) where
  pub record IsVacant (name : Bytes) (t : B.Tx) : Type 0 where
    pub no_documents : (key : Bytes) → B.get t (data_bucket name) key ≡ none
    pub no_entries : (field key : Bytes) → B.get t (bucket name field) key ≡ none

module _ (B : Bolt) (L : IsBolt B) (P : Proto) (J : Codec CollectionMeta)
    (decode-encode : IsCatalog J) (files : Option P.Files) where
  put-IsIndexed :
      (meta : CollectionMeta) (md : P.Descriptor) (b : Bytes) (t t' : B.Tx)
      → message_descriptor P files meta.message_type ≡ ok md
      → IsUtf8 meta
      → J.encode meta ≡ ok b
      → put B t collections_bucket meta.name b ≡ ok t'
      → IsVacant B meta.name t
      → IsIndexed B P J files meta md t'
  unfolding get_meta
  put-IsIndexed meta md b t t' typed utf8 e p vacant =
      let no_data : (key : Bytes) → B.get t' (data_bucket meta.name) key ≡ none = λ key. ground (
        arith,
        get-put B L t t' collections_bucket meta.name b (data_bucket meta.name) key p,
        data_bucket-ne-collections meta.name,
        bytes_equal_iff collections_bucket (data_bucket meta.name),
        bytes_equal_iff (data_bucket meta.name) collections_bucket,
        vacant.no_documents key,
      ) in
      let no_entry : (field key : Bytes) → B.get t' (bucket meta.name field) key ≡ none =
        λ field key. ground (
          arith,
          get-put B L t t' collections_bucket meta.name b (bucket meta.name field) key p,
          bucket-ne-collections meta.name field,
          bytes_equal_iff collections_bucket (bucket meta.name field),
          bytes_equal_iff (bucket meta.name field) collections_bucket,
          vacant.no_entries field key,
        ) in
      record {
        catalog = ground (
          arith,
          get-eq-found B L t' collections_bucket meta.name,
          get-put B L t t' collections_bucket meta.name b collections_bucket meta.name p,
          bytes_equal_refl meta.name,
          bytes_equal_refl collections_bucket,
          decode-encode meta b utf8 e,
        );
        typed = typed;
        entries =
            λ field enc key there sep. rw (no_entry field (entry_key enc key), no_data key) refl;
        clean = λ key wire h. absurd (cc (rw (no_data key) at h));
        fresh = λ n k below wide. no_data (encode_uint n);
      }

  -- Where JSON reads back the catalog's records whose strings are UTF-8, and the database holds nothing
  -- under the buckets of the name: after a CreateCollection that succeeds with a metadata whose strings are
  -- UTF-8, the index entries of the collection mirror its documents.
  pub create_collection-IsIndexed :
      (name message_type : Bytes) (opts : CollectionOptions) (t t' : B.Tx) (meta : CollectionMeta)
      → create_collection B J P files name message_type opts t ≡ (ok meta, t')
      → IsUtf8 meta
      → IsVacant B name t
      → (md : P.Descriptor) × IsIndexed B P J files meta md t'
  unfolding create_collection
  create_collection-IsIndexed name message_type opts t t' meta h utf8 vacant =
      elim (Result-cases (new_meta P files name message_type opts)) [
        | inr (x, e) ↦ absurd (cc (rw (e, create_collection) at h))
        | inl (m, e) ↦
            let (named, md, typed) = new_meta-typed P files name message_type opts m e in
            let (same, b, enc, p) =
              stored B L J m t t' meta
                (update-eq-ok B (store_meta B J m) t (rw (e, create_collection) at h)) in
            (
              md,
              rw same (put-IsIndexed m md b t t' typed (rw (← same) utf8) enc p (rw named vacant)),
            )
      ]
