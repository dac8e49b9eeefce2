-- ===== src/Engine/Documents/Update.antt =====
-- Update: what a successful replacement did, and that it keeps the invariant of the indexes.
use kora_db.Base.{
  ℕ, ◌<◌, ◌^◌, ◌≡◌, ap, ◌∙◌, true, false, ◌&&◌, Bytes, Option, none, some, [], Result, ok, err,
  arith, bytes_equal, bytes_equal_iff, bytes_equal_refl, if◌then◌else◌, >>=-elim, ok-injective,
}
use kora_db.Storage.{Bolt, get, put}
use kora_db.Storage.Laws.{IsBolt, get-put, sequence-put, found_lem}
use kora_db.Proto.{Proto, IsProto}
use kora_db.Index.{bucket}
use kora_db.Engine.Meta.{auto, CollectionMeta, Codec, data_bucket, has_index, collections_bucket}
use kora_db.Engine.Meta.Buckets.{
  bucket-ne-data_bucket, data_bucket-ne-bucket, data_bucket-ne-collections, bucket-ne-collections,
}
use kora_db.Engine.Keys.{encode_uint, encode_key}
use kora_db.Engine.Indexing.{index_insert, index_delete}
use kora_db.Engine.Indexing.Effect.{
  get-index_insert, get-index_insert_other, sequence-index_insert, get-index_delete,
  get-index_delete_other, sequence-index_delete,
}
use kora_db.Engine.Documents.{parse, decode, update_document, get_or_not_found, same_key}
use kora_db.Engine.Documents.Indexed.{IsClean, IsIndexed, document}
use kora_db.Engine.Documents.Writes.{entry_of, Effect, Effect-IsIndexed, decode-marshal}

pub get_or_not_found-eq-ok :
    (coll id : Bytes) (r : Result Bytes) {w : Bytes} → get_or_not_found coll id r ≡ ok w → r ≡ ok w
get_or_not_found-eq-ok coll id (ok v) h = h
get_or_not_found-eq-ok coll id (err e) h = cc

module _ (B : Bolt) (P : Proto) (J : Codec CollectionMeta) (files : Option P.Files)
    (meta : CollectionMeta) (id json : Bytes) where
  -- The values that a successful replacement went through.
  pub record Updated (t t' : B.Tx) : Type 0 where
    pub key : Bytes
    pub old : Bytes
    pub wire : Bytes
    pub old_msg : P.Message
    pub new_msg : P.Message
    pub cleared : B.Tx
    pub stored : B.Tx
    pub encoded : encode_key P files meta id ≡ ok key
    pub present : get B t (data_bucket meta.name) key ≡ ok old
    pub decoded_old : decode P files meta old ≡ ok old_msg
    pub parsed : parse P files meta json ≡ ok new_msg
    pub kept_key : same_key B P J files meta key new_msg t ≡ ok tt
    pub marshaled : P.marshal new_msg ≡ ok wire
    pub deleted_entries : index_delete B P t meta key old_msg ≡ ok cleared
    pub put_wire : put B cleared (data_bucket meta.name) key wire ≡ ok stored
    pub put_entries : index_insert B P stored meta key new_msg ≡ ok t'

  pub updated :
      (t t' : B.Tx)
      → update_document B P J files meta meta.name id json t ≡ ok (tt, t')
      → Updated t t'
  unfolding update_document
  updated t t' h = >>=-elim (encode_key P files meta id) h λ key e₁ h₁.
      >>=-elim (get_or_not_found meta.name id (get B t (data_bucket meta.name) key)) h₁ λ old e₂ h₂.
        >>=-elim (decode P files meta old) h₂ λ old_msg e₃ h₃.
          >>=-elim (parse P files meta json) h₃ λ new_msg e₄ h₄.
            >>=-elim (same_key B P J files meta key new_msg t) h₄ λ _ e₅ h₅.
              >>=-elim (P.marshal new_msg) h₅ λ wire e₆ h₆.
                >>=-elim (index_delete B P t meta key old_msg) h₆ λ t₁ e₇ h₇.
                  >>=-elim (put B t₁ (data_bucket meta.name) key wire) h₇ λ t₂ e₈ h₈.
                    >>=-elim (index_insert B P t₂ meta key new_msg) h₈ λ t₃ e₉ h₉.
                      let q : (tt, t₃) ≡ (tt, t') = ok-injective h₉ in
                      record {
                        key = key;
                        old = old;
                        wire = wire;
                        old_msg = old_msg;
                        new_msg = new_msg;
                        cleared = t₁;
                        stored = t₂;
                        encoded = e₁;
                        present = get_or_not_found-eq-ok meta.name id _ e₂;
                        decoded_old = e₃;
                        parsed = e₄;
                        kept_key = e₅;
                        marshaled = e₆;
                        deleted_entries = e₇;
                        put_wire = e₈;
                        put_entries = e₉ ∙ ap ok (ap (λ p. p.1) q);
                      }

module _ (B : Bolt) (L : IsBolt B) (P : Proto) (N : IsProto P) (J : Codec CollectionMeta) where
  module _ (files : Option P.Files) (meta : CollectionMeta) (md : P.Descriptor) (id json : Bytes)
      {t t' : B.Tx} (inv : IsIndexed B P J files meta md t)
      (s : Updated B P J files meta id json t t') (clean : IsClean P md meta s.new_msg) where
    old_wire : B.get t (data_bucket meta.name) s.key ≡ some s.old
    old_wire = found_lem B L t (data_bucket meta.name) s.key s.present

    pub decode-wire : decode P files meta s.wire ≡ ok s.new_msg
    decode-wire = decode-marshal P N files meta md s.new_msg inv.typed clean.of_type s.marshaled

    other_bucket :
        (c j : Bytes)
        → ((field : Bytes) → bytes_equal (bucket meta.name field) c ≡ false)
        → B.get t' c j ≡ (
            if bytes_equal (data_bucket meta.name) c && bytes_equal s.key j
            then some s.wire
            else B.get t c j)
    other_bucket c j other =
        get-index_insert_other B L P meta s.key s.new_msg s.stored t' s.put_entries c j other
        ∙ get-put B L s.cleared s.stored (data_bucket meta.name) s.key s.wire c j s.put_wire
        ∙ rw (
            get-index_delete_other B L P meta s.key s.old_msg t s.cleared s.deleted_entries c j
              other)

    index_bucket :
        (field x : Bytes)
        → has_index meta field ≡ true
        → B.get t' (bucket meta.name field) x ≡ (
            if entry_of P (some s.new_msg) field s.key x
            then some []
            else if entry_of P (some s.old_msg) field s.key x
            then none
            else B.get t (bucket meta.name field) x)
    index_bucket field x there = ground (
      arith,
      get-index_insert B L P meta s.key s.new_msg s.stored t' s.put_entries field x,
      get-put B L s.cleared s.stored (data_bucket meta.name) s.key s.wire (bucket meta.name field) x
          s.put_wire,
      data_bucket-ne-bucket meta.name field meta.name,
      get-index_delete B L P meta s.key s.old_msg t s.cleared s.deleted_entries field x,
    )

    pub update_Effect :
        Effect B P files meta s.key t t' (document P files meta B t s.key) (some s.wire)
    update_Effect = record {
      of_data = λ j. ground (
        arith,
        other_bucket (data_bucket meta.name) j (λ f. bucket-ne-data_bucket meta.name f meta.name),
        bytes_equal_refl (data_bucket meta.name),
      );
      of_indexes =
          λ field x there. rw (decode-wire, old_wire, s.decoded_old) (index_bucket field x there);
      of_catalog = λ c. ground (
        arith,
        other_bucket collections_bucket c (bucket-ne-collections meta.name),
        data_bucket-ne-collections meta.name,
      );
    }

    sequence_kept : B.sequence t' (data_bucket meta.name) ≡ B.sequence t (data_bucket meta.name)
    sequence_kept =
        sequence-index_insert B L P meta s.key s.new_msg s.stored t' s.put_entries
          (data_bucket meta.name)
        ∙ sequence-put B L s.cleared s.stored (data_bucket meta.name) s.key s.wire
            (data_bucket meta.name) s.put_wire
        ∙ sequence-index_delete B L P meta s.key s.old_msg t s.cleared s.deleted_entries
            (data_bucket meta.name)

    still_free :
        (n : ℕ)
        → meta.key_kind ≡ auto
        → B.sequence t' (data_bucket meta.name) < n
        → n < 2 ^ 64
        → B.get t' (data_bucket meta.name) (encode_uint n) ≡ none
    still_free n a after small =
        let free : B.get t (data_bucket meta.name) (encode_uint n) ≡ none =
          inv.fresh n a (omega (arith, sequence_kept)) small in
        ground (
          arith,
          update_Effect.of_data (encode_uint n),
          bytes_equal_iff s.key (encode_uint n),
          free,
          old_wire,
        )

    -- A successful replacement keeps the entries of the indexes in step with the documents.
    pub update-IsIndexed : IsIndexed B P J files meta md t'
    update-IsIndexed =
        Effect-IsIndexed B L P J files meta md s.key inv update_Effect
          (s.new_msg, decode-wire, clean) still_free
