-- ===== src/Engine/Documents.antt =====
-- internal/engine/engine.go: Insert, Get, Update, Delete, Each and FetchByKey.
pub mod Indexed
pub mod Created
pub mod Writes
pub mod Insert
pub mod Update
pub mod Delete
pub mod History
pub mod Reads
use kora_db.Base.{
  Bool, true, false, not, ◌&&◌, Bytes, Option, some, Error, Result, ok, err, reject, ◌>>=◌, ◌>>◌,
  or_error, key_not_found, not_found, document_not_found, duplicate_key, invalid_document,
  decode_document, marshal_document, immutable_key, bytes_equal,
}
use kora_db.Storage.{Bolt, Callback, put, get, has, delete, scan, update, view}
use kora_db.Proto.{Proto}
use kora_db.Schema.{message_descriptor}
use kora_db.Engine.Meta.{KeyKind, auto, by_field, CollectionMeta, data_bucket, Codec}
use kora_db.Engine.Keys.{encode_key, derive_key}
use kora_db.Engine.Indexing.{index_insert, index_delete}
use kora_db.Engine.Collections.{get_meta}

module _ (P : Proto) (files : Option P.Files) where
  -- parse
  unfoldable pub parse : CollectionMeta → Bytes → Result P.Message
  parse meta json = do
    md ← message_descriptor P files meta.message_type
    or_error invalid_document (P.json_unmarshal md json)

  -- decode
  unfoldable pub decode : CollectionMeta → Bytes → Result P.Message
  decode meta wire = do
    md ← message_descriptor P files meta.message_type
    or_error decode_document (P.unmarshal md wire)

  -- render
  unfoldable pub render : CollectionMeta → Bytes → Result Bytes
  render meta wire = do msg ← decode meta wire; P.json_marshal msg

abbrev is_by_field : KeyKind → Bool
is_by_field auto = false
is_by_field by_field = true

-- Insert, Get, Update and Delete hand the error of Txn.Get on, but for a missing key.
abbrev pub document_error : Bytes → Bytes → Error → Error
document_error coll id key_not_found = document_not_found coll id
document_error coll id e = e

abbrev pub get_or_not_found : Bytes → Bytes → Result Bytes → Result Bytes
get_or_not_found coll id (ok wire) = ok wire
get_or_not_found coll id (err e) = err (document_error coll id e)

module _ (B : Bolt) (P : Proto) (J : Codec CollectionMeta) (files : Option P.Files) where
  -- Insert, from the metadata on.
  unfoldable pub insert_document : CollectionMeta → Bytes → Bytes → B.Tx → Result (Bytes × B.Tx)
  insert_document meta coll json t = do
    msg ← parse P files meta json
    ((key, id), t₁) ← derive_key P files B t meta msg
    reject (is_by_field meta.key_kind && has B t₁ (data_bucket coll) key) (duplicate_key coll id)
    wire ← or_error marshal_document (P.marshal msg)
    t₂ ← put B t₁ (data_bucket coll) key wire
    t₃ ← index_insert B P t₂ meta key msg
    ok (id, t₃)

  -- Insert
  unfoldable pub insert : Bytes → Bytes → B.Tx → Result Bytes × B.Tx
  insert coll json = update B λ t. do meta ← get_meta B J t coll; insert_document meta coll json t

  -- Get
  unfoldable pub get_document : Bytes → Bytes → B.Tx → Result Bytes
  get_document coll id = view B λ t. do
    meta ← get_meta B J t coll
    key ← encode_key P files meta id
    wire ← get_or_not_found coll id (get B t (data_bucket coll) key)
    render P files meta wire

  -- The test of Update that the new document has the same key.
  abbrev pub same_key : CollectionMeta → Bytes → P.Message → B.Tx → Result (Unit {0})
  same_key meta key msg t = elim meta.key_kind [
    | auto ↦ ok tt
    | by_field ↦ do
      ((new_key, id), t') ← derive_key P files B t meta msg
      reject (not (bytes_equal key new_key)) (immutable_key meta.key_field)
  ]

  -- Update, from the metadata on.
  unfoldable pub update_document :
      CollectionMeta → Bytes → Bytes → Bytes → B.Tx → Result (Unit {0} × B.Tx)
  update_document meta coll id json t = do
    key ← encode_key P files meta id
    old ← get_or_not_found coll id (get B t (data_bucket coll) key)
    old_msg ← decode P files meta old
    new_msg ← parse P files meta json
    same_key meta key new_msg t
    wire ← P.marshal new_msg
    t₁ ← index_delete B P t meta key old_msg
    t₂ ← put B t₁ (data_bucket coll) key wire
    t₃ ← index_insert B P t₂ meta key new_msg
    ok (tt, t₃)

  -- Update
  unfoldable pub update_by_id : Bytes → Bytes → Bytes → B.Tx → Result (Unit {0}) × B.Tx
  update_by_id coll id json =
      update B λ t. do meta ← get_meta B J t coll; update_document meta coll id json t

  -- Delete, of a document that is there.
  abbrev pub delete_found : CollectionMeta → Bytes → Bytes → Bytes → B.Tx → Result (Unit {0} × B.Tx)
  delete_found meta coll key old t = do
    old_msg ← decode P files meta old
    t₁ ← index_delete B P t meta key old_msg
    t₂ ← delete B t₁ (data_bucket coll) key
    ok (tt, t₂)

  -- A missing document ends Delete without an error, and any other error of Txn.Get with it.
  abbrev pub delete_missing : Error → B.Tx → Result (Unit {0} × B.Tx)
  delete_missing key_not_found t = ok (tt, t)
  delete_missing e t = err e

  -- Delete, from the metadata on.
  unfoldable pub delete_document : CollectionMeta → Bytes → Bytes → B.Tx → Result (Unit {0} × B.Tx)
  delete_document meta coll id t = do
    key ← encode_key P files meta id
    elim (get B t (data_bucket coll) key) [
      | err e ↦ delete_missing e t
      | ok old ↦ delete_found meta coll key old t
    ]

  -- Delete
  unfoldable pub delete_by_id : Bytes → Bytes → B.Tx → Result (Unit {0}) × B.Tx
  delete_by_id coll id = update B λ t. do meta ← get_meta B J t coll; delete_document meta coll id t

module _ (B : Bolt) (P : Proto) (files : Option P.Files) where
  -- The callback of Each around the caller's function.
  unfoldable pub each_item {ℓ} :
      {S : Type ℓ} → P.Descriptor → (S → Bytes → P.Message → S × Option Error) → Callback S
  each_item md fn s k v = elim (P.unmarshal md v) [
    | err e ↦ (s, some decode_document)
    | ok msg ↦ fn s k msg
  ]

  -- Each
  unfoldable pub each {ℓ} :
      {S : Type ℓ}
      → B.Tx
      → CollectionMeta
      → (S → Bytes → P.Message → S × Option Error)
      → S
      → S × Option Error
  unfolding each_item
  each t meta fn s = elim (message_descriptor P files meta.message_type) [
    | err e ↦ (s, some e)
    | ok md ↦ scan B t (data_bucket meta.name) (each_item md fn) s
  ]

  abbrev fetch_error : Error → Error
  fetch_error key_not_found = not_found
  fetch_error e = e

  -- FetchByKey
  unfoldable pub fetch_by_key : B.Tx → CollectionMeta → Bytes → Result P.Message
  fetch_by_key t meta key = elim (get B t (data_bucket meta.name) key) [
    | err e ↦ err (fetch_error e)
    | ok wire ↦ decode P files meta wire
  ]
