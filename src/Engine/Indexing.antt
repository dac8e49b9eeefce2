-- ===== src/Engine/Indexing.antt =====
-- internal/engine/index.go: the index entries of a document, and the lookup by an index.
pub mod Effect
use kora_db.Base.{
  Bytes, Option, none, List, [], ◌∷◌, ◌++◌, Error, Result, ok, err, index_field_missing, length,
  ◌>>=◌,
}
use kora_db.Storage.{Bolt, Callback, put, delete, prefix_scan}
use kora_db.Proto.{Proto, FieldDescriptor}
use kora_db.Schema.{message_descriptor}
use kora_db.Index.{bucket, entry_key, lookup_prefix, primary_key_from_entry, encode_value}
use kora_db.Engine.Values.{scalar_value_from_string}
use kora_db.Engine.Meta.{CollectionMeta, require}

module _ (P : Proto) where
  -- The encoded value of one indexed field of a document.
  unfoldable pub indexed_value : P.Message → Bytes → Result Bytes
  indexed_value msg field = do
    fd ← require (index_field_missing field) (P.field (P.descriptor msg) field)
    encode_value fd (P.value msg fd)

  -- eachIndexedValue: the loop over the indexed fields, whose callback changes the transaction.
  unfoldable pub each_indexed_value {ℓ} :
      {Tx : Type ℓ} → List Bytes → P.Message → (Bytes → Bytes → Tx → Result Tx) → Tx → Result Tx
  each_indexed_value [] msg fn t = ok t
  each_indexed_value (field ∷ fields) msg fn t = do
    enc ← indexed_value msg field
    t' ← fn field enc t
    each_indexed_value fields msg fn t'

module _ (B : Bolt) (P : Proto) where
  -- indexInsert
  unfoldable pub index_insert : B.Tx → CollectionMeta → Bytes → P.Message → Result B.Tx
  index_insert t meta key msg =
      each_indexed_value P meta.indexes msg
        (λ field enc u. put B u (bucket meta.name field) (entry_key enc key) []) t

  -- indexDelete
  unfoldable pub index_delete : B.Tx → CollectionMeta → Bytes → P.Message → Result B.Tx
  index_delete t meta key msg =
      each_indexed_value P meta.indexes msg
        (λ field enc u. delete B u (bucket meta.name field) (entry_key enc key)) t

  -- The callback of LookupByIndex.
  abbrev pub collect_key : Bytes → Callback (List Bytes)
  collect_key enc keys k v = (keys ++ (primary_key_from_entry k (length enc) ∷ []), none)

  -- LookupByIndex
  unfoldable pub lookup_by_index :
      Option P.Files → B.Tx → CollectionMeta → Bytes → Bytes → Result (List Bytes)
  lookup_by_index files t meta field value = do
    md ← message_descriptor P files meta.message_type
    fd ← require (index_field_missing field) (P.field md field)
    pv ← scalar_value_from_string P fd value
    enc ← encode_value fd pv
    ok (prefix_scan B t (bucket meta.name field) (lookup_prefix enc) (collect_key enc) []).0
