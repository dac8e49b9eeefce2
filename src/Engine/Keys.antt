-- ===== src/Engine/Keys.antt =====
-- internal/engine/engine.go: the keys under which documents are stored.
pub mod RoundTrip
pub mod Derived
use kora_db.Base.{
  ℕ, Bool, true, false, ◌==◌, not, Bytes, Option, Result, ok, err, invalid_id, invalid_key_length,
  key_field_missing, key_kind_unsupported, or_error, length, if◌then◌else◌, reject, ◌>>=◌, ◌>>◌,
}
use kora_db.Strconv.{
  BitSize, bits, parse_uint, parse_int, parse_bool, format_uint, format_int, format_bool,
  big_endian, from_big_endian, to_uint64, to_int64,
}
use kora_db.Storage.{Bolt, next_sequence}
use kora_db.Proto.{
  Proto, Kind, KindClass, string_class, bool_class, int_class, uint_class, float_class, other_class,
  class_of, FieldDescriptor,
}
use kora_db.Schema.{message_descriptor}
use kora_db.Engine.Values.{id_string_from_value}
use kora_db.Engine.Meta.{KeyKind, auto, by_field, CollectionMeta, data_bucket, require}

-- encodeUint
unfoldable pub encode_uint : ℕ → Bytes
encode_uint n = big_endian 8 n

-- primaryKeyKindSupported
unfoldable pub primary_key_class_supported : KindClass → Bool
primary_key_class_supported string_class = true
primary_key_class_supported bool_class = true
primary_key_class_supported (int_class _) = true
primary_key_class_supported (uint_class _) = true
primary_key_class_supported _ = false

-- The switch of encodeKey over the kind of the key field; the width is primaryKeyBitSize.
unfoldable pub encode_key_class : Bytes → KindClass → Bytes → Result Bytes
unfolding encode_uint
encode_key_class name string_class id = ok id
encode_key_class name bool_class id = do
  b ← or_error (invalid_id id) (parse_bool id)
  ok (format_bool b)
encode_key_class name (int_class size) id = do
  z ← or_error (invalid_id id) (parse_int (bits size) id)
  ok (encode_uint (to_uint64 z))
encode_key_class name (uint_class size) id = do
  n ← or_error (invalid_id id) (parse_uint (bits size) id)
  ok (encode_uint n)
encode_key_class name _ id = err (key_kind_unsupported name)

-- The switch of IDFromStorageKey.
unfoldable pub id_class : Bytes → KindClass → Bytes → Result Bytes
id_class name string_class key = ok key
id_class name bool_class key = ok key
id_class name (int_class size) key = do
  reject (not (length key == 8)) (invalid_key_length (length key))
  ok (format_int (to_int64 (from_big_endian 0 key)))
id_class name (uint_class size) key = do
  reject (not (length key == 8)) (invalid_key_length (length key))
  ok (format_uint (from_big_endian 0 key))
id_class name _ key = err (key_kind_unsupported name)

module _ (P : Proto) (files : Option P.Files) where
  -- The key field of the collection, as its message type declares it.
  unfoldable pub key_field_of : CollectionMeta → Result FieldDescriptor
  key_field_of meta = do
    md ← message_descriptor P files meta.message_type
    require (key_field_missing meta.key_field) (P.field md meta.key_field)

  encode_key_of : KeyKind → CollectionMeta → Bytes → Result Bytes
  encode_key_of auto meta id = do
    n ← or_error (invalid_id id) (parse_uint 64 id)
    ok (encode_uint n)
  encode_key_of by_field meta id = do
    fd ← key_field_of meta
    encode_key_class meta.key_field (class_of fd.kind) id

  -- encodeKey
  unfoldable pub encode_key : CollectionMeta → Bytes → Result Bytes
  unfolding encode_key_of encode_key_class
  encode_key meta id = encode_key_of meta.key_kind meta id

  id_of : KeyKind → CollectionMeta → Bytes → Result Bytes
  id_of auto meta key = do
    reject (not (length key == 8)) (invalid_key_length (length key))
    ok (format_uint (from_big_endian 0 key))
  id_of by_field meta key = do
    fd ← key_field_of meta
    id_class meta.key_field (class_of fd.kind) key

  -- IDFromStorageKey
  unfoldable pub id_from_storage_key : CollectionMeta → Bytes → Result Bytes
  unfolding id_of id_class
  id_from_storage_key meta key = id_of meta.key_kind meta key

  derive_key_of :
      KeyKind → (B : Bolt) → B.Tx → CollectionMeta → P.Message → Result ((Bytes × Bytes) × B.Tx)
  derive_key_of auto B t meta msg = do
    (seq, t') ← next_sequence B t (data_bucket meta.name)
    ok ((encode_uint seq, format_uint seq), t')
  derive_key_of by_field B t meta msg = do
    fd ← require (key_field_missing meta.key_field) (P.field (P.descriptor msg) meta.key_field)
    id ← id_string_from_value fd (P.value msg fd)
    key ← encode_key meta id
    ok ((key, id), t)

  -- deriveKey: the key and the id of a new document, and the state after NextSequence.
  unfoldable pub derive_key :
      (B : Bolt) → B.Tx → CollectionMeta → P.Message → Result ((Bytes × Bytes) × B.Tx)
  unfolding derive_key_of encode_uint
  derive_key B t meta msg = derive_key_of meta.key_kind B t meta msg
