-- ===== src/Index.antt =====
-- internal/index/index.go: the keys of the secondary indexes.
pub mod Entries
use kora_db.Base.{
  ℕ, suc, ◌+◌, ◌^◌, ◌%◌, ◌≡◌, refl, Bool, true, false, ◌||◌, Bytes, text, List, [], ◌∷◌, ◌++◌,
  Result, ok, err, unindexable, length, drop, ltb, if◌then◌else◌, ◌>>=◌,
}
use kora_db.Base.Int.{ℤ, pos, negsuc}
use kora_db.Strconv.{big_endian, to_uint64, BitSize}
use kora_db.Proto.{
  Kind, message_kind, group_kind, KindClass, string_class, bool_class, int_class, uint_class,
  float_class, other_class, class_of, FieldDescriptor, Value, string, bool, int, uint, other,
  as_string, as_bool, as_int, as_uint,
}

-- Bucket
unfoldable pub bucket : Bytes → Bytes → Bytes
bucket coll field = text "idx:" ++ (coll ++ (b':' ∷ field))

-- EntryKey; the separator is the byte 0.
unfoldable pub entry_key : Bytes → Bytes → Bytes
entry_key encoded_value primary_key = encoded_value ++ (0 ∷ primary_key)

-- LookupPrefix
unfoldable pub lookup_prefix : Bytes → Bytes
lookup_prefix encoded_value = encoded_value ++ (0 ∷ [])

-- PrimaryKeyFromEntry
unfoldable pub primary_key_from_entry : Bytes → ℕ → Bytes
primary_key_from_entry entry encoded_value_len =
    let start = encoded_value_len + 1 in if ltb (length entry) start then [] else drop start entry

-- The exclusive or of a uint64 with 1 << 63, which adds 2 ^ 63 or takes it away.
unfoldable pub flip_sign : ℕ → ℕ
flip_sign n = (n + 2 ^ 63) % 2 ^ 64

module _ {F : Type 0} where
  pub encode_class : Bytes → KindClass → Value F → Result Bytes
  encode_class name string_class v = as_string v
  encode_class name bool_class v = do b ← as_bool v; ok (if b then 1 ∷ [] else 0 ∷ [])
  encode_class name (uint_class _) v = do n ← as_uint v; ok (big_endian 8 n)
  encode_class name (int_class _) v = do z ← as_int v; ok (big_endian 8 (flip_sign (to_uint64 z)))
  encode_class name _ v = err (unindexable name)

  -- EncodeValue
  unfoldable pub encode_value : FieldDescriptor → Value F → Result Bytes
  unfolding encode_class as_string as_bool as_uint as_int
  encode_value fd v = encode_class fd.name (class_of fd.kind) v

  -- defaultValue
  unfoldable pub default_value : KindClass → Value F
  default_value string_class = string []
  default_value bool_class = bool false
  default_value (uint_class _) = uint 0
  default_value (int_class _) = int (pos 0)
  default_value _ = other

abbrev pub is_message : Kind → Bool
is_message message_kind = true
is_message group_kind = true
is_message _ = false

-- The test for repeated fields, maps and messages that the packages share.
abbrev pub is_composite : FieldDescriptor → Bool
is_composite fd = fd.is_list || fd.is_map || is_message fd.kind

abbrev succeeds {ℓ} : {A : Type ℓ} → Result A → Bool
succeeds (ok a) = true
succeeds (err e) = false

-- Indexable
unfoldable pub indexable : (F : Type 0) → FieldDescriptor → Bool
unfolding encode_value default_value
indexable F fd =
    if is_composite fd
    then false
    else succeeds (encode_value fd (default_value {F = F} (class_of fd.kind)))
