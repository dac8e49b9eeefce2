-- ===== src/Tests/Traversals.antt =====
-- The theorem on the pages of a query, on the items of the test database: two items, a page of one each.
use kora_db.Base.{
  ◌≡◌, ◌<◌, refl, Bytes, text, List, [], ok, err, bytes_equal, bytes_compare, has_prefix, arith,
  length,
}
use kora_db.Storage.Memory.{Memory, memory, IsBolt-memory, sort}
use kora_db.Proto.Sample.{sample}
use kora_db.Schema.{message_descriptor}
use kora_db.Storage.{update, has, put, get, delete, next_sequence, view}
use kora_db.Index.{indexable, encode_value, bucket, entry_key}
use kora_db.Strconv.{digits, parse_digits, format_uint, parse_uint, big_endian, from_big_endian}
use kora_db.Engine.Keys.{encode_uint, derive_key, encode_key, id_from_storage_key}
use kora_db.Engine.Indexing.{index_insert, index_delete, each_indexed_value, indexed_value}
use kora_db.Engine.Meta.{collections_bucket, data_bucket, has_index, has_field}
use kora_db.Engine.Collections.{
  create_collection, new_meta, check_indexes, store_meta, choose_key, get_meta, get_collection,
}
use kora_db.Engine.Documents.{
  insert, insert_document, update_document, delete_document, parse, decode, update_by_id,
  delete_by_id,
}
use kora_db.Query.Filter.{nil, eval, index_seed, candidates, seed_from}
use kora_db.Query.Page.{render_match}
use kora_db.Query.Page.Select.{Found, values, documents, select}
use kora_db.Query.Page.Traversal.{Answer, traverse, traverse-found}
use kora_db.Tests.Pack.{catalog}
use kora_db.Tests.Shop.{items, files, json_of, stocked}
use kora_db.Tests.Pages.{plain, IsTokens-plain, items_utf8}

-- A second item.
abbrev pub twice : Memory
twice = (insert memory sample catalog files (text "items") (json_of (text "cd")) stocked).1

abbrev docs : List (Bytes × sample.Message)
docs =
    elim (documents sample files items tt nil
      (memory.for_each twice (data_bucket (text "items")))) [ ok d ↦ d | err e ↦ [] ]

abbrev everything : List Found
everything = elim (select sample files items tt nil docs) [ ok f ↦ f | err e ↦ [] ]

answer : Answer memory sample catalog files nil twice (text "items") everything
unfolding create_collection new_meta check_indexes choose_key message_descriptor bytes_equal
    indexable update store_meta has put get delete next_sequence get_meta collections_bucket
    data_bucket insert insert_document parse decode derive_key encode_uint format_uint big_endian
    digits parse_digits parse_uint encode_key index_insert index_delete each_indexed_value
    indexed_value encode_value bucket entry_key update_document delete_document update_by_id
    delete_by_id get_collection view index_seed candidates seed_from documents select eval
    render_match id_from_storage_key from_big_endian sort bytes_compare has_index has_field
    has_prefix
answer = record {
  meta = items;
  md = tt;
  docs = docs;
  catalog = refl;
  typed = refl;
  unseeded = refl;
  no_blank = refl;
  decoded = refl;
  answered = refl;
}

one : 0 < 1
one = omega arith

enough : length everything < 3
unfolding create_collection new_meta check_indexes choose_key message_descriptor bytes_equal
    indexable update store_meta has put get delete next_sequence get_meta collections_bucket
    data_bucket insert insert_document parse decode derive_key encode_uint format_uint big_endian
    digits parse_digits parse_uint encode_key index_insert index_delete each_indexed_value
    indexed_value encode_value bucket entry_key update_document delete_document update_by_id
    delete_by_id documents select eval render_match id_from_storage_key from_big_endian sort
    bytes_compare
enough = omega arith

traverse-found_example :
    traverse memory sample catalog plain files (text "items") nil 1 twice 3 []
    ≡ ok (values everything)
traverse-found_example =
    traverse-found memory IsBolt-memory sample catalog plain IsTokens-plain files nil twice
      (text "items") everything answer 1 one items_utf8 3 enough

two_found : length everything ≡ 2
unfolding create_collection new_meta check_indexes choose_key message_descriptor bytes_equal
    indexable update store_meta has put get delete next_sequence get_meta collections_bucket
    data_bucket insert insert_document parse decode derive_key encode_uint format_uint big_endian
    digits parse_digits parse_uint encode_key index_insert index_delete each_indexed_value
    indexed_value encode_value bucket entry_key update_document delete_document update_by_id
    delete_by_id documents select eval render_match id_from_storage_key from_big_endian sort
    bytes_compare
two_found = refl
