-- ===== src/Tests/Documents.antt =====
-- The theorems on collections and documents, on the items of the test database.
use kora_db.Base.{
  ◌<◌, ◌≡◌, refl, true, Bytes, text, List, [], ◌∷◌, ok, err, All, arith, ok-injective, bytes_equal,
  if◌then◌else◌, document_not_found,
}
use kora_db.Storage.Memory.{memory, empty, IsBolt-memory}
use kora_db.Proto.{class_of}
use kora_db.Proto.Sample.{sample, Item, IsProto-sample, item_value_string}
use kora_db.Strconv.{parse_uint, parse_digits, big_endian}
use kora_db.Schema.{message_descriptor}
use kora_db.Engine.Keys.{encode_key}
use kora_db.Engine.Documents.{parse, get_document}
use kora_db.Engine.Documents.Indexed.{IsClean, IsIndexed}
use kora_db.Engine.Documents.Created.{IsVacant, create_collection-IsIndexed}
use kora_db.Engine.Documents.History.{
  Request, insert_request, update_request, delete_request, apply_all, apply_all-IsIndexed,
}
use kora_db.Engine.Documents.Reads.{get_document-insert, get_document-update, get_document-delete}
use kora_db.Strconv.Runes.{is_utf8, runes, runes_from}
use kora_db.Engine.Meta.{IsUtf8, IsCatalog}
use kora_db.Tests.Pack.{catalog, decode-encode-catalog}
use kora_db.Tests.Shop.{
  items, files, by_name, json_of, opened, created, stocked, insert_run, renamed, update_run,
  cleared, delete_run,
}

vacant : IsVacant memory (text "items") empty
vacant = record { no_documents = λ key. refl; no_entries = λ field key. refl }

items-IsUtf8 : IsUtf8 items
unfolding is_utf8 runes runes_from
items-IsUtf8 = (refl, refl, refl, (refl, tt))

IsCatalog-catalog : IsCatalog catalog
IsCatalog-catalog meta b u = decode-encode-catalog meta b

create_collection-IsIndexed_example :
    (md : Unit {0}) × IsIndexed memory sample catalog files items md opened
create_collection-IsIndexed_example =
    create_collection-IsIndexed memory IsBolt-memory sample catalog IsCatalog-catalog files
      (text "items") (text "shop.Item") by_name empty opened items created items-IsUtf8 vacant

opened-IsIndexed : IsIndexed memory sample catalog files items tt opened
opened-IsIndexed =
    (create_collection-IsIndexed memory IsBolt-memory sample catalog IsCatalog-catalog files
      (text "items") (text "shop.Item") by_name empty opened items created items-IsUtf8 vacant).1

-- An item whose name has no byte 0 is clean.
item-IsClean :
    (name : Bytes)
    → All (λ b. 0 < b) name
    → (msg : Item) → parse sample files items (json_of name) ≡ ok msg
    → IsClean sample tt items msg
unfolding parse message_descriptor
item-IsClean name pos msg h =
    let q : record { name = name; quantity = 7; flag = true } ≡ msg = ok-injective h in
    record {
      of_type = refl;
      positive =
          λ field s fd there f v. rw (← item_value_string msg (class_of fd.kind) s v, ← q) pos;
    }

ab_positive : All (λ b. 0 < b) (text "ab")
ab_positive = (omega arith, (omega arith, tt))

cd_positive : All (λ b. 0 < b) (text "cd")
cd_positive = (omega arith, (omega arith, tt))

-- A history of four requests, of which the third finds no document, and the fourth is the same again.
abbrev history : List Request
history =
    insert_request (json_of (text "ab"))
    ∷ update_request (text "1") (json_of (text "cd"))
    ∷ update_request (text "9") (json_of (text "ab"))
    ∷ delete_request (text "1")
    ∷ []

apply_all-IsIndexed_example :
    IsIndexed memory sample catalog files items tt
      (apply_all memory sample catalog files (text "items") history opened)
apply_all-IsIndexed_example =
    apply_all-IsIndexed memory IsBolt-memory sample IsProto-sample catalog files items tt history
      opened opened-IsIndexed
      (
        item-IsClean (text "ab") ab_positive,
        (item-IsClean (text "cd") cd_positive, (item-IsClean (text "ab") ab_positive, (tt, tt))),
      )

stocked-IsIndexed : IsIndexed memory sample catalog files items tt stocked
stocked-IsIndexed =
    apply_all-IsIndexed memory IsBolt-memory sample IsProto-sample catalog files items tt
      (insert_request (json_of (text "ab")) ∷ []) opened opened-IsIndexed
      (item-IsClean (text "ab") ab_positive, tt)

abbrev key_1 : Bytes
key_1 = 0 ∷ 0 ∷ 0 ∷ 0 ∷ 0 ∷ 0 ∷ 0 ∷ 1 ∷ []

encode_1 : encode_key sample files items (text "1") ≡ ok key_1
unfolding encode_key parse_uint parse_digits big_endian
encode_1 = refl

get_document-insert_example :
    (msg : Item) × (key : Bytes) × (parse sample files items (json_of (text "ab")) ≡ ok msg)
    × (encode_key sample files items (text "1") ≡ ok key)
    × (get_document memory sample catalog files (text "items") (text "1") stocked ≡ (
        if bytes_equal key key_1
        then sample.json_marshal msg
        else get_document memory sample catalog files (text "items") (text "1") opened))
get_document-insert_example =
    get_document-insert memory IsBolt-memory sample IsProto-sample catalog files items tt
      opened-IsIndexed (text "1") key_1 encode_1 (json_of (text "ab")) (text "1")
      (item-IsClean (text "ab") ab_positive) insert_run

get_document-update_example :
    (msg : Item) × (key : Bytes) × (parse sample files items (json_of (text "cd")) ≡ ok msg)
    × (encode_key sample files items (text "1") ≡ ok key)
    × (get_document memory sample catalog files (text "items") (text "1") renamed ≡ (
        if bytes_equal key key_1
        then sample.json_marshal msg
        else get_document memory sample catalog files (text "items") (text "1") stocked))
get_document-update_example =
    get_document-update memory IsBolt-memory sample IsProto-sample catalog files items tt
      stocked-IsIndexed (text "1") key_1 encode_1 (text "1") (json_of (text "cd"))
      (item-IsClean (text "cd") cd_positive) update_run

get_document-delete_example :
    (key : Bytes) × (encode_key sample files items (text "1") ≡ ok key)
    × (get_document memory sample catalog files (text "items") (text "1") cleared ≡ (
        if bytes_equal key key_1
        then err (document_not_found (text "items") (text "1"))
        else get_document memory sample catalog files (text "items") (text "1") stocked))
get_document-delete_example =
    get_document-delete memory IsBolt-memory sample IsProto-sample catalog files items tt
      stocked-IsIndexed (text "1") key_1 encode_1 (text "1") delete_run
