-- ===== src/Tests/Shop.antt =====
-- A database of one collection for the tests: items with automatic keys, indexed by name.
use kora_db.Base.{◌≡◌, refl, Bytes, text, Option, some, [], ◌∷◌, ok, bytes_equal}
use kora_db.Storage.Memory.{Memory, memory, empty}
use kora_db.Proto.Sample.{sample}
use kora_db.Engine.Meta.{CollectionMeta, auto}
use kora_db.Engine.Collections.{
  CollectionOptions, create_collection, new_meta, check_indexes, store_meta, choose_key, get_meta,
}
use kora_db.Schema.{message_descriptor}
use kora_db.Storage.{update, has, put, get, delete, next_sequence}
use kora_db.Index.{indexable, encode_value, bucket, entry_key}
use kora_db.Strconv.{digits, parse_digits, format_uint, parse_uint, big_endian}
use kora_db.Engine.Keys.{encode_uint, derive_key, encode_key}
use kora_db.Engine.Indexing.{index_insert, index_delete, each_indexed_value, indexed_value}
use kora_db.Engine.Meta.{collections_bucket, data_bucket}
use kora_db.Engine.Documents.{
  insert, update_by_id, delete_by_id, insert_document, update_document, delete_document, parse,
  decode,
}
use kora_db.Tests.Pack.{catalog}

abbrev pub items : CollectionMeta
items = record {
  name = text "items";
  message_type = text "shop.Item";
  key_kind = auto;
  key_field = [];
  indexes = text "name" ∷ [];
}

abbrev pub files : Option (Unit {0})
files = some tt

abbrev pub by_name : CollectionOptions
by_name = record { key_field = []; indexes = text "name" ∷ [] }

-- The JSON of an item with the quantity 7.
abbrev pub json_of : Bytes → Bytes
json_of name = 1 ∷ 7 ∷ name

-- The state after CreateCollection, on an empty database.
abbrev pub opened : Memory
opened =
    (create_collection memory catalog sample files (text "items") (text "shop.Item") by_name
      empty).1

pub created :
    create_collection memory catalog sample files (text "items") (text "shop.Item") by_name empty
    ≡ (ok items, opened)
unfolding create_collection new_meta check_indexes choose_key message_descriptor bytes_equal
    indexable update store_meta has put collections_bucket
created = refl

-- The state after the Insert of an item named ab.
abbrev pub stocked : Memory
stocked = (insert memory sample catalog files (text "items") (json_of (text "ab")) opened).1

pub insert_run :
    insert memory sample catalog files (text "items") (json_of (text "ab")) opened
    ≡ (ok (text "1"), stocked)
unfolding create_collection new_meta check_indexes choose_key message_descriptor bytes_equal
    indexable update store_meta has put get delete next_sequence get_meta collections_bucket
    data_bucket insert insert_document parse decode derive_key encode_uint format_uint big_endian
    digits parse_digits parse_uint encode_key index_insert index_delete each_indexed_value
    indexed_value encode_value bucket entry_key update_document delete_document update_by_id
    delete_by_id
insert_run = refl

abbrev pub renamed : Memory
renamed =
    (update_by_id memory sample catalog files (text "items") (text "1") (json_of (text "cd"))
      stocked).1

pub update_run :
    update_by_id memory sample catalog files (text "items") (text "1") (json_of (text "cd")) stocked
    ≡ (ok tt, renamed)
unfolding create_collection new_meta check_indexes choose_key message_descriptor bytes_equal
    indexable update store_meta has put get delete next_sequence get_meta collections_bucket
    data_bucket insert insert_document parse decode derive_key encode_uint format_uint big_endian
    digits parse_digits parse_uint encode_key index_insert index_delete each_indexed_value
    indexed_value encode_value bucket entry_key update_document delete_document update_by_id
    delete_by_id
update_run = refl

abbrev pub cleared : Memory
cleared = (delete_by_id memory sample catalog files (text "items") (text "1") stocked).1

pub delete_run :
    delete_by_id memory sample catalog files (text "items") (text "1") stocked ≡ (ok tt, cleared)
unfolding create_collection new_meta check_indexes choose_key message_descriptor bytes_equal
    indexable update store_meta has put get delete next_sequence get_meta collections_bucket
    data_bucket insert insert_document parse decode derive_key encode_uint format_uint big_endian
    digits parse_digits parse_uint encode_key index_insert index_delete each_indexed_value
    indexed_value encode_value bucket entry_key update_document delete_document update_by_id
    delete_by_id
delete_run = refl
