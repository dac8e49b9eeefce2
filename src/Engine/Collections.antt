-- ===== src/Engine/Collections.antt =====
-- internal/engine/engine.go: CreateCollection, getMeta, GetCollection and ListCollections.
use kora_db.Base.{
  not, Bytes, List, [], ◌∷◌, ◌++◌, Option, none, some, Error, Result, ok, err, reject, ◌>>=◌, ◌>>◌,
  key_not_found, collection_not_found, collection_exists, key_field_missing, key_field_not_scalar,
  key_kind_unsupported, index_field_missing, index_field_kind,
}
use kora_db.Storage.{Bolt, Callback, put, get, has, scan, update, view}
use kora_db.Proto.{Proto, class_of}
use kora_db.Schema.{message_descriptor}
use kora_db.Index.{is_composite, indexable}
use kora_db.Engine.Meta.{
  KeyKind, auto, by_field, CollectionMeta, collections_bucket, Codec, require,
}
use kora_db.Engine.Keys.{primary_key_class_supported}

-- CollectionOptions; the empty key field means automatic keys.
pub record CollectionOptions : Type 0 where
  pub key_field : Bytes
  pub indexes : List Bytes

module _ (P : Proto) where
  -- The tests of CreateCollection on the key field.
  unfoldable pub check_key_field : P.Descriptor → Bytes → Result (Unit {0})
  check_key_field md name = do
    fd ← require (key_field_missing name) (P.field md name)
    reject (is_composite fd) (key_field_not_scalar name)
    reject (not (primary_key_class_supported (class_of fd.kind))) (key_kind_unsupported name)

  -- The loop of CreateCollection over the requested indexes.
  unfoldable pub check_indexes : P.Descriptor → List Bytes → Result (Unit {0})
  check_indexes md [] = ok tt
  check_indexes md (name ∷ names) = do
    fd ← require (index_field_missing name) (P.field md name)
    reject (not (indexable P.Float fd)) (index_field_kind name)
    check_indexes md names

  -- The choice of CreateCollection between a key field and automatic keys.
  unfoldable pub choose_key : P.Descriptor → Bytes → Result (KeyKind × Bytes)
  choose_key md [] = ok (auto, [])
  choose_key md (c ∷ s) = do check_key_field md (c ∷ s); ok (by_field, c ∷ s)

  -- The metadata that CreateCollection builds and checks before its transaction.
  unfoldable pub new_meta :
      Option P.Files → Bytes → Bytes → CollectionOptions → Result CollectionMeta
  new_meta files name message_type opts = do
    md ← message_descriptor P files message_type
    (kind, key) ← choose_key md opts.key_field
    check_indexes md opts.indexes
    ok (record {
      name = name;
      message_type = message_type;
      key_kind = kind;
      key_field = key;
      indexes = opts.indexes;
    })

module _ (B : Bolt) (J : Codec CollectionMeta) where
  -- The transaction of CreateCollection.
  unfoldable pub store_meta : CollectionMeta → B.Tx → Result (CollectionMeta × B.Tx)
  store_meta meta t = do
    reject (has B t collections_bucket meta.name) collection_exists
    b ← J.encode meta
    t' ← put B t collections_bucket meta.name b
    ok (meta, t')

  -- CreateCollection
  unfoldable pub create_collection :
      (P : Proto)
      → Option P.Files
      → Bytes
      → Bytes
      → CollectionOptions
      → B.Tx
      → Result CollectionMeta × B.Tx
  create_collection P files name message_type opts t =
      elim (new_meta P files name message_type opts) [
        | err e ↦ (err e, t)
        | ok meta ↦ update B (store_meta meta) t
      ]

  abbrev collection_error : Bytes → Error → Error
  collection_error coll key_not_found = collection_not_found coll
  collection_error coll e = e

  -- getMeta
  unfoldable pub get_meta : B.Tx → Bytes → Result CollectionMeta
  get_meta t coll = elim (get B t collections_bucket coll) [
    | err e ↦ err (collection_error coll e)
    | ok b ↦ J.decode b
  ]

  -- GetCollection
  unfoldable pub get_collection : B.Tx → Bytes → Result CollectionMeta
  get_collection t coll = view B (λ u. get_meta u coll) t

  -- The callback of ListCollections.
  append_meta : Callback (List CollectionMeta)
  append_meta out k v = elim (J.decode v) [ err e ↦ (out, some e) | ok m ↦ (out ++ (m ∷ []), none) ]

  -- ListCollections: Go's slice and error.
  unfoldable pub list_collections : B.Tx → List CollectionMeta × Option Error
  unfolding append_meta
  list_collections t = scan B t collections_bucket append_meta []
