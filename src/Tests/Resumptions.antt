-- ===== src/Tests/Resumptions.antt =====
-- The theorem on two successive pages: one item of two, and the next two items once a third one is stored.
use kora_db.Base.{
  ◌≡◌, refl, false, Bytes, text, [], ◌∷◌, ◌++◌, ok, bytes_equal, bytes_compare, has_prefix,
}
use kora_db.Storage.Memory.{Memory, memory, sort}
use kora_db.Proto.Sample.{sample}
use kora_db.Schema.{message_descriptor}
use kora_db.Storage.{update, has, put, get, delete, next_sequence, view, scan, scan_items}
use kora_db.Index.{indexable, encode_value, bucket, entry_key}
use kora_db.Strconv.{digits, parse_digits, format_uint, parse_uint, big_endian, from_big_endian}
use kora_db.Engine.Keys.{encode_uint, derive_key, encode_key, id_from_storage_key}
use kora_db.Engine.Indexing.{index_insert, index_delete, each_indexed_value, indexed_value}
use kora_db.Engine.Meta.{collections_bucket, data_bucket, has_index, has_field}
use kora_db.Engine.Collections.{
  create_collection, new_meta, check_indexes, store_meta, choose_key, get_meta, get_collection,
}
use kora_db.Engine.Documents.{
  insert, insert_document, update_document, delete_document, parse, decode, update_by_id,
  delete_by_id, each, each_item,
}
use kora_db.Query.Filter.{nil, eval, index_seed, candidates, seed_from, signature}
use kora_db.Query.Page.{
  Match, Page, background, is_blank, encode_page_token, parse_page_token, execute_page, check,
  filter_hash_of, run_scan, before_cursor, visit, append_result, append_checked, render_match,
  finish_page, scan_document,
}
use kora_db.Query.Page.Resume.{Resumed, execute_page-resumes}
use kora_db.Tests.Pack.{catalog}
use kora_db.Tests.Shop.{files, json_of}
use kora_db.Tests.Pages.{plain, IsTokens-plain, items_utf8}
use kora_db.Tests.Traversals.{twice}

abbrev thrice : Memory
thrice = (insert memory sample catalog files (text "items") (json_of (text "ef")) twice).1

abbrev shown : Bytes → Bytes → Match
shown id name = record { id = id; json = 1 ∷ 7 ∷ name }

-- The token holds version 1, the collection, the filter hash and the key of the item 1.
abbrev first : Page
first = record {
  results = shown (text "1") (text "ab") ∷ [];
  next_page_token =
      1 ∷ 5 ∷ (text "items" ++ (1 ∷ (text "h" ++ (8 ∷ 0 ∷ 0 ∷ 0 ∷ 0 ∷ 0 ∷ 0 ∷ 0 ∷ 1 ∷ []))));
}

abbrev second : Page
second = record {
  results = shown (text "2") (text "cd") ∷ shown (text "3") (text "ef") ∷ [];
  next_page_token = [];
}

first_run :
    execute_page memory sample catalog plain files background (text "items") nil 1 [] twice
    ≡ ok first
unfolding create_collection new_meta check_indexes choose_key message_descriptor bytes_equal
    indexable update store_meta has put get delete next_sequence get_meta collections_bucket
    data_bucket insert insert_document parse decode derive_key encode_uint format_uint big_endian
    digits parse_digits parse_uint encode_key index_insert index_delete each_indexed_value
    indexed_value encode_value bucket entry_key update_document delete_document update_by_id
    delete_by_id execute_page parse_page_token get_collection view check filter_hash_of signature
    index_seed seed_from candidates has_prefix bytes_compare run_scan before_cursor visit eval
    append_result append_checked render_match id_from_storage_key from_big_endian finish_page
    encode_page_token has_index has_field sort each each_item scan scan_items scan_document
first_run = refl

first_more : is_blank first.next_page_token ≡ false
first_more = refl

second_run :
    execute_page memory sample catalog plain files background
      (text "items")
      nil
      2
      first.next_page_token
      thrice
    ≡ ok second
unfolding create_collection new_meta check_indexes choose_key message_descriptor bytes_equal
    indexable update store_meta has put get delete next_sequence get_meta collections_bucket
    data_bucket insert insert_document parse decode derive_key encode_uint format_uint big_endian
    digits parse_digits parse_uint encode_key index_insert index_delete each_indexed_value
    indexed_value encode_value bucket entry_key update_document delete_document update_by_id
    delete_by_id execute_page parse_page_token get_collection view check filter_hash_of signature
    index_seed seed_from candidates has_prefix bytes_compare run_scan before_cursor visit eval
    append_result append_checked render_match id_from_storage_key from_big_endian finish_page
    encode_page_token has_index has_field sort each each_item scan scan_items scan_document
second_run = refl

execute_page-resumes_example :
    Resumed memory sample catalog plain files nil 1 2 twice thrice (text "items") [] first second
execute_page-resumes_example =
    execute_page-resumes memory sample catalog plain files nil 1 2 IsTokens-plain background
      background twice thrice (text "items") [] first second items_utf8 first_run first_more
      second_run
