-- ===== src/Tests/Keys.antt =====
-- The theorems on storage keys and index entries, at concrete keys.
use kora_db.Base.{
  ◌<◌, ◌≡◌, refl, true, false, Bytes, text, [], ◌∷◌, ok, err, All, arith, bytes_equal, has_prefix,
  bytes_compare,
}
use kora_db.Strconv.{parse_uint, parse_digits, big_endian, digits, format_uint}
use kora_db.Storage.{next_sequence}
use kora_db.Storage.Memory.{Memory, memory, empty, IsBolt-memory}
use kora_db.Proto.{FieldDescriptor, uint32_kind, uint, string_class}
use kora_db.Proto.Sample.{sample, Item}
use kora_db.Engine.Meta.{data_bucket}
use kora_db.Index.{entry_key, lookup_prefix, encode_value}
use kora_db.Index.Entries.{entry_key_inj, has_prefix-entry_key}
use kora_db.Engine.Values.{compare_values}
use kora_db.Engine.Values.Order.{compare_values-encode_value}
use kora_db.Engine.Keys.{encode_key, derive_key, id_from_storage_key, encode_uint}
use kora_db.Engine.Keys.RoundTrip.{id_from_storage_key-encode_key, encode_key-derive_key}
use kora_db.Tests.Shop.{items, files}

abbrev key_7 : Bytes
key_7 = 0 ∷ 0 ∷ 0 ∷ 0 ∷ 0 ∷ 0 ∷ 0 ∷ 7 ∷ []

-- An id that is not canonical.
encode_007 : encode_key sample files items (text "007") ≡ ok key_7
unfolding encode_key parse_uint parse_digits big_endian
encode_007 = refl

id_from_storage_key-encode_key_example :
    (id' : Bytes) × (id_from_storage_key sample files items key_7 ≡ ok id')
    × (encode_key sample files items id' ≡ ok key_7)
id_from_storage_key-encode_key_example =
    id_from_storage_key-encode_key sample files items (text "007") key_7 encode_007

abbrev item : Item
item = record { name = text "ab"; quantity = 3; flag = true }

abbrev minted : Memory
minted = elim (derive_key sample files memory empty items item) [ ok r ↦ r.1 | err e ↦ empty ]

derive_run :
    derive_key sample files memory empty items item ≡ ok ((encode_uint 1, text "1"), minted)
unfolding derive_key next_sequence data_bucket bytes_equal format_uint digits
derive_run = refl

encode_key-derive_key_example : encode_key sample files items (text "1") ≡ ok (encode_uint 1)
encode_key-derive_key_example =
    encode_key-derive_key sample files memory IsBolt-memory items empty minted item (encode_uint 1)
      (text "1") derive_run

ab_positive : All (λ b. 0 < b) (text "ab")
ab_positive = (omega arith, (omega arith, tt))

entry_key_inj_example : (text "ab" ≡ text "ab") × (key_7 ≡ key_7)
entry_key_inj_example =
    entry_key_inj string_class (text "ab") (text "ab") key_7 key_7 ab_positive ab_positive refl

has_prefix-entry_key_example :
    has_prefix (entry_key (text "ab") key_7) (lookup_prefix (text "ab"))
    ≡ bytes_equal (text "ab") (text "ab")
has_prefix-entry_key_example =
    has_prefix-entry_key string_class (text "ab") (text "ab") key_7 ab_positive ab_positive

-- The quantities 2 and 300, whose decimal texts stand in the other order.
abbrev quantity_field : FieldDescriptor
quantity_field = record {
  name = text "quantity";
  kind = uint32_kind;
  is_list = false;
  is_map = false;
}

compare_values-encode_value_example :
    compare_values sample quantity_field (uint 2) (uint 300)
    ≡ ok (bytes_compare (big_endian 8 2) (big_endian 8 300))
unfolding encode_value
compare_values-encode_value_example =
    compare_values-encode_value sample quantity_field (uint 2) (uint 300) (big_endian 8 2)
      (big_endian 8 300) (omega arith) (omega arith) refl refl
