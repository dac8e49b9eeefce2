-- ===== src/Tests/Pages.antt =====
-- The theorems on pages and page tokens, on a query of the test database.
use kora_db.Base.{
  ◌≡◌, refl, true, false, Bytes, text, [], ok, err, ok-injective, bytes_equal, bytes_compare,
  has_prefix,
}
use kora_db.Storage.Memory.{memory, sort}
use kora_db.Proto.Sample.{sample}
use kora_db.Query.Filter.{
  Filter, cmp, eq, signature, index_seed, seed_from, candidates, eval, eval_cmp, satisfies,
}
use kora_db.Strconv.{digits, parse_digits, format_uint, parse_uint, big_endian, from_big_endian}
use kora_db.Schema.{message_descriptor}
use kora_db.Storage.{
  update, view, has, put, get, delete, next_sequence, prefix_scan, prefix_scan_items,
}
use kora_db.Index.{
  indexable, encode_value, bucket, entry_key, lookup_prefix, primary_key_from_entry,
}
use kora_db.Engine.Values.{scalar_value_from_string, compare_values}
use kora_db.Engine.Keys.{encode_uint, derive_key, encode_key, id_from_storage_key}
use kora_db.Engine.Indexing.{
  index_insert, index_delete, each_indexed_value, indexed_value, lookup_by_index,
}
use kora_db.Engine.Meta.{collections_bucket, data_bucket, has_index, has_field}
use kora_db.Engine.Collections.{
  create_collection, new_meta, check_indexes, store_meta, choose_key, get_meta, get_collection,
}
use kora_db.Engine.Documents.{
  insert, update_by_id, delete_by_id, insert_document, update_document, delete_document, parse,
  decode, fetch_by_key,
}
use kora_db.Query.Page.{
  Page, PageCursor, background, Tokens, is_blank, encode_page_token, parse_page_token, execute_page,
  check, filter_hash_of, sort_keys, insert_key, run_scan, seed_loop, seed_document, before_cursor,
  visit, append_result, append_checked, render_match, finish_page,
}
use kora_db.Query.Page.Cursor.{IsTokens, IsCursorOf, parse_page_token-IsCursorOf}
use kora_db.Query.Page.Results.{Served, execute_page-Served}
use kora_db.Strconv.Runes.{is_utf8, runes, runes_from}
use kora_db.Tests.Pack.{catalog, cursors, decode-encode-cursors}
use kora_db.Tests.Shop.{files, stocked}

abbrev pub plain : Tokens
plain = record {
  cursor_codec = cursors;
  base64_encode = λ s. s;
  base64_decode = λ s. ok s;
  digest = λ s. text "h";
}

h_utf8 : is_utf8 (text "h") ≡ true
unfolding is_utf8 runes runes_from
h_utf8 = refl

pub items_utf8 : is_utf8 (text "items") ≡ true
unfolding is_utf8 runes runes_from
items_utf8 = refl

pub IsTokens-plain : IsTokens plain
IsTokens-plain = record {
  encodes = λ c. (_, refl);
  decode-encode = λ c raw v u w. decode-encode-cursors c raw;
  base64 = λ raw. refl;
  digest-utf8 = λ s. h_utf8;
  base64_blank = λ raw. refl;
  json_blank = λ c raw h. rw (← ok-injective h) refl;
}

abbrev named_ab : Filter
named_ab = cmp (record { field = text "name"; op = eq; value = text "ab" })

abbrev served : Page
served =
    elim (execute_page memory sample catalog plain files background (text "items") named_ab 1 []
      stocked) [ ok p ↦ p | err e ↦ record { results = []; next_page_token = [] } ]

query_run :
    execute_page memory sample catalog plain files background (text "items") named_ab 1 [] stocked
    ≡ ok served
unfolding create_collection new_meta check_indexes choose_key message_descriptor bytes_equal
    indexable update store_meta has put get delete next_sequence get_meta collections_bucket
    data_bucket insert insert_document parse decode derive_key encode_uint format_uint big_endian
    digits parse_digits parse_uint encode_key index_insert index_delete each_indexed_value
    indexed_value encode_value bucket entry_key update_document delete_document update_by_id
    delete_by_id execute_page parse_page_token get_collection view check filter_hash_of signature
    index_seed seed_from candidates lookup_by_index scalar_value_from_string prefix_scan
    prefix_scan_items lookup_prefix primary_key_from_entry has_prefix bytes_compare sort_keys
    insert_key run_scan seed_loop seed_document before_cursor fetch_by_key visit eval eval_cmp
    compare_values satisfies append_result append_checked render_match id_from_storage_key
    from_big_endian finish_page encode_page_token has_index has_field sort
query_run = refl

execute_page-Served_example :
    Served memory sample catalog plain files named_ab 1 stocked (text "items") [] served
execute_page-Served_example =
    execute_page-Served memory sample catalog plain files named_ab 1 background (text "items") []
      stocked served query_run

abbrev cursor : PageCursor
cursor = record {
  version = 1;
  collection = text "items";
  filter_hash = text "h";
  last_key = text "k";
}

cursor-IsCursorOf : IsCursorOf plain (text "items") (text "h") cursor
cursor-IsCursorOf = record {
  of_version = refl;
  of_key = refl;
  of_collection = refl;
  of_filter = refl;
}

abbrev token : Bytes
token = elim (encode_page_token plain cursor) [ ok s ↦ s | err e ↦ [] ]

token_run : encode_page_token plain cursor ≡ ok token
unfolding encode_page_token
token_run = refl

token_parsed : parse_page_token plain token (text "items") (text "h") ≡ ok cursor
unfolding encode_page_token parse_page_token bytes_equal
token_parsed = refl

token_full : is_blank token ≡ false
unfolding encode_page_token
token_full = refl

parse_page_token-IsCursorOf_example : IsCursorOf plain (text "items") (text "h") cursor
parse_page_token-IsCursorOf_example =
    parse_page_token-IsCursorOf plain token (text "items") (text "h") cursor token_full token_parsed
