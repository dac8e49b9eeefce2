-- ===== src/Engine/Documents/Insert.antt =====
-- Insert: what a successful insertion did, and that it keeps the invariant of the indexes.
use kora_db.Base.{
  ℕ, ◌<◌, ◌^◌, ◌≡◌, ap, ◌∙◌, true, false, ◌&&◌, Bytes, Option, none, some, [], ok, arith,
  bytes_equal, bytes_equal_refl, if◌then◌else◌, inl, inr, >>=-elim, ok-injective, reject-eq-ok,
  or_error-eq-ok, or_error, marshal_document, duplicate_key,
}
use kora_db.Storage.{Bolt, put, has}
use kora_db.Storage.Laws.{
  IsBolt, has-eq-is_some, get-put, sequence-put, next_sequence-value, sequence-next_sequence,
}
use kora_db.Proto.{Proto, IsProto}
use kora_db.Index.{bucket}
use kora_db.Engine.Meta.{auto, CollectionMeta, Codec, data_bucket, has_index, collections_bucket}
use kora_db.Engine.Keys.{encode_uint, derive_key}
use kora_db.Engine.Keys.RoundTrip.{encode_uint-ne}
use kora_db.Engine.Keys.Derived.{derived_cases, get-derive_key}
use kora_db.Engine.Indexing.{index_insert}
use kora_db.Engine.Documents.{parse, decode, insert_document, is_by_field}
use kora_db.Engine.Documents.Indexed.{IsClean, IsIndexed, document}
use kora_db.Engine.Indexing.Effect.{get-index_insert, get-index_insert_other, sequence-index_insert}
use kora_db.Engine.Meta.Buckets.{
  bucket-ne-data_bucket, data_bucket-ne-bucket, data_bucket-ne-collections, bucket-ne-collections,
}
use kora_db.Engine.Documents.Writes.{decode-marshal, entry_of, Effect, Effect-IsIndexed}

module _ (B : Bolt) (P : Proto) (J : Codec CollectionMeta) (files : Option P.Files)
    (meta : CollectionMeta) (json : Bytes) where
  -- The values that a successful insertion went through.
  pub record Inserted (t t' : B.Tx) (id : Bytes) : Type 0 where
    pub msg : P.Message
    pub key : Bytes
    pub wire : Bytes
    pub minted : B.Tx
    pub stored : B.Tx
    pub parsed : parse P files meta json ≡ ok msg
    pub derived : derive_key P files B t meta msg ≡ ok ((key, id), minted)
    pub unused : (is_by_field meta.key_kind && has B minted (data_bucket meta.name) key) ≡ false
    pub marshaled : P.marshal msg ≡ ok wire
    pub put_wire : put B minted (data_bucket meta.name) key wire ≡ ok stored
    pub put_entries : index_insert B P stored meta key msg ≡ ok t'

  pub inserted :
      (t t' : B.Tx) (id : Bytes)
      → insert_document B P J files meta meta.name json t ≡ ok (id, t')
      → Inserted t t' id
  unfolding insert_document
  inserted t t' id h = >>=-elim (parse P files meta json) h λ msg e₁ h₁.
      >>=-elim (derive_key P files B t meta msg) h₁ λ ((key, id'), t₁) e₂ h₂.
        let (e₃, h₃) = reject-eq-ok _ (duplicate_key meta.name id') _ h₂ in
        >>=-elim (or_error marshal_document (P.marshal msg)) h₃ λ wire e₄ h₄.
          >>=-elim (put B t₁ (data_bucket meta.name) key wire) h₄ λ t₂ e₅ h₅.
            >>=-elim (index_insert B P t₂ meta key msg) h₅ λ t₃ e₆ h₆.
              let q : (id', t₃) ≡ (id, t') = ok-injective h₆ in
              record {
                msg = msg;
                key = key;
                wire = wire;
                minted = t₁;
                stored = t₂;
                parsed = e₁;
                derived = e₂ ∙ ap (λ i. ok ((key, i), t₁)) (ap (λ p. p.0) q);
                unused = e₃;
                marshaled = or_error-eq-ok marshal_document (P.marshal msg) e₄;
                put_wire = e₅;
                put_entries = e₆ ∙ ap ok (ap (λ p. p.1) q);
              }

module _ (B : Bolt) (L : IsBolt B) (P : Proto) (N : IsProto P) (J : Codec CollectionMeta) where
  module _ (files : Option P.Files) (meta : CollectionMeta) (md : P.Descriptor) (json : Bytes)
      {t t' : B.Tx} {id : Bytes} (inv : IsIndexed B P J files meta md t)
      (s : Inserted B P J files meta json t t' id) (clean : IsClean P md meta s.msg) where
    -- A new document takes the place of none.
    pub free_key : B.get t (data_bucket meta.name) s.key ≡ none
    free_key = elim (derived_cases B P files meta t s.minted s.msg s.key id s.derived) [
      | inl m ↦
          let (next, small) =
            next_sequence-value B L t s.minted (data_bucket meta.name) m.number m.minted in
          rw m.of_key (inv.fresh m.number m.is_auto (omega arith) small)
      | inr f ↦ ground (
        arith,
        f.is_by_field,
        f.same,
        s.unused,
        has-eq-is_some B L s.minted (data_bucket meta.name) s.key,
      )
    ]

    pub decode-wire : decode P files meta s.wire ≡ ok s.msg
    decode-wire = decode-marshal P N files meta md s.msg inv.typed clean.of_type s.marshaled

    minted_same : (c k : Bytes) → B.get s.minted c k ≡ B.get t c k
    minted_same = get-derive_key B P files meta L t s.minted s.msg s.key id s.derived

    -- A bucket that is no index of the collection: the document alone is written.
    other_bucket :
        (c j : Bytes)
        → ((field : Bytes) → bytes_equal (bucket meta.name field) c ≡ false)
        → B.get t' c j ≡ (
            if bytes_equal (data_bucket meta.name) c && bytes_equal s.key j
            then some s.wire
            else B.get t c j)
    other_bucket c j other =
        get-index_insert_other B L P meta s.key s.msg s.stored t' s.put_entries c j other
        ∙ get-put B L s.minted s.stored (data_bucket meta.name) s.key s.wire c j s.put_wire
        ∙ rw (minted_same c j)

    index_bucket :
        (field x : Bytes)
        → has_index meta field ≡ true
        → B.get t' (bucket meta.name field) x ≡ (
            if entry_of P (some s.msg) field s.key x
            then some []
            else B.get t (bucket meta.name field) x)
    index_bucket field x there = ground (
      arith,
      get-index_insert B L P meta s.key s.msg s.stored t' s.put_entries field x,
      get-put B L s.minted s.stored (data_bucket meta.name) s.key s.wire (bucket meta.name field) x
          s.put_wire,
      data_bucket-ne-bucket meta.name field meta.name,
      minted_same (bucket meta.name field) x,
    )

    pub insert_Effect :
        Effect B P files meta s.key t t' (document P files meta B t s.key) (some s.wire)
    insert_Effect = record {
      of_data = λ j. ground (
        arith,
        other_bucket (data_bucket meta.name) j (λ f. bucket-ne-data_bucket meta.name f meta.name),
        bytes_equal_refl (data_bucket meta.name),
      );
      of_indexes = λ field x there. rw (decode-wire, free_key) (index_bucket field x there);
      of_catalog = λ c. ground (
        arith,
        other_bucket collections_bucket c (bucket-ne-collections meta.name),
        data_bucket-ne-collections meta.name,
      );
    }

    sequence_minted :
        B.sequence t' (data_bucket meta.name) ≡ B.sequence s.minted (data_bucket meta.name)
    sequence_minted =
        sequence-index_insert B L P meta s.key s.msg s.stored t' s.put_entries
          (data_bucket meta.name)
        ∙ sequence-put B L s.minted s.stored (data_bucket meta.name) s.key s.wire
            (data_bucket meta.name) s.put_wire

    still_free :
        (n : ℕ)
        → meta.key_kind ≡ auto
        → B.sequence t' (data_bucket meta.name) < n
        → n < 2 ^ 64
        → B.get t' (data_bucket meta.name) (encode_uint n) ≡ none
    still_free n a after small =
        elim (derived_cases B P files meta t s.minted s.msg s.key id s.derived) [
          | inl m ↦
              let (next, wide) =
                next_sequence-value B L t s.minted (data_bucket meta.name) m.number m.minted in
              let now : B.sequence s.minted (data_bucket meta.name) ≡ m.number = ground (
                arith,
                sequence-next_sequence B L t s.minted (data_bucket meta.name) m.number m.minted
                    (data_bucket meta.name),
                bytes_equal_refl (data_bucket meta.name),
              ) in
              let differ : bytes_equal s.key (encode_uint n) ≡ false =
                rw m.of_key (encode_uint-ne m.number n (omega (arith, sequence_minted)) small) in
              insert_Effect.of_data (encode_uint n)
              ∙ rw differ (inv.fresh n a (omega (arith, sequence_minted)) small)
          | inr f ↦ absurd (cc (a, f.is_by_field))
        ]

    -- A successful insertion keeps the entries of the indexes in step with the documents.
    pub insert-IsIndexed : IsIndexed B P J files meta md t'
    insert-IsIndexed =
        Effect-IsIndexed B L P J files meta md s.key inv insert_Effect (s.msg, decode-wire, clean)
          still_free
