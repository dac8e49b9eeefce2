-- ===== src/Tests/Schemas.antt =====
-- The theorems on compatible schemas and on the order of files, on a message with one nested message.
use kora_db.Base.Int.{pos, negsuc}
use kora_db.Base.{
  ℕ, ◌<◌, ◌≡◌, refl, true, false, Bytes, text, none, some, List, [], ◌∷◌, ok, bytes_equal, arith,
  if◌then◌else◌, bytes_equal_iff, search-cases, inl, inr, All, bytes_compare,
}
use mathlib.Core.Path.{subst}
use kora_db.Proto.{string_kind}
use kora_db.Storage.Laws.{lookup}
use kora_db.Schema.Compat.{
  Field, optional, EnumValue, Enum, Message, message, no_messages, and_message, File, find_message,
  find_field, find_enum, find_enum_value, ensure_field_compatible, ensure_fields_compatible,
  ensure_enum_values_compatible, ensure_enums_compatible, ensure_message_compatible,
  ensure_messages_compatible, ensure_files_compatible,
}
use kora_db.Schema.Compat.Chain.{descend, Kept, files-keep, files_compatible_trans}
use kora_db.Schema.Files.{
  FileProto, FileProtos, insert_path, sorted_paths, visit, topo_sort, is_present,
}
use kora_db.Schema.Files.Order.{topo_sort-ends}
use kora_db.Schema.Files.Sorted.{InOrder, placed, topo_sort-InOrder}

abbrev field_of : ℕ → Bytes → Field
field_of n name = record {
  number = n;
  name = name;
  full_name = name;
  kind = string_kind;
  cardinality = optional;
  has_presence = false;
  is_map = false;
  oneof_name = [];
  message_name = [];
  enum_name = [];
}

abbrev colors : List EnumValue → Enum
colors vs = record { name = text "Color"; full_name = text "shop.Color"; enum_values = vs }

abbrev red : EnumValue
red = record { number = negsuc 0; name = text "RED"; full_name = text "shop.RED" }

abbrev blue : EnumValue
blue = record { number = pos 1; name = text "BLUE"; full_name = text "shop.BLUE" }

abbrev size : Message
size = message (text "Size") (text "shop.Item.Size") (field_of 1 (text "width") ∷ []) no_messages []

abbrev item_with : List Field → List EnumValue → File
item_with fields vs = record {
  messages =
      and_message
        (message (text "Item") (text "shop.Item") fields (and_message size no_messages) [])
        no_messages;
  enums = colors vs ∷ [];
}

abbrev first : File
first = item_with (field_of 1 (text "name") ∷ []) (red ∷ [])

abbrev second : File
second = item_with (field_of 1 (text "name") ∷ field_of 2 (text "brand") ∷ []) (red ∷ [])

abbrev third : File
third = item_with (field_of 2 (text "brand") ∷ field_of 1 (text "name") ∷ []) (red ∷ blue ∷ [])

pub first-second : ensure_files_compatible first second ≡ ok tt
unfolding ensure_field_compatible ensure_fields_compatible ensure_enum_values_compatible
    ensure_enums_compatible ensure_message_compatible ensure_messages_compatible
    ensure_files_compatible find_message find_field find_enum find_enum_value bytes_equal
first-second = refl

second-third : ensure_files_compatible second third ≡ ok tt
unfolding ensure_field_compatible ensure_fields_compatible ensure_enum_values_compatible
    ensure_enums_compatible ensure_message_compatible ensure_messages_compatible
    ensure_files_compatible find_message find_field find_enum find_enum_value bytes_equal
second-third = refl

size_there : descend first.messages (text "Item") (text "Size" ∷ []) ≡ some size
unfolding descend find_message bytes_equal
size_there = refl

files-keep_example :
    (n : Message) × (descend second.messages (text "Item") (text "Size" ∷ []) ≡ some n)
    × Kept size n
files-keep_example =
    files-keep first second (text "Item") (text "Size" ∷ []) size first-second size_there

files_compatible_trans_example : ensure_files_compatible first third ≡ ok tt
files_compatible_trans_example = files_compatible_trans first second third first-second second-third

-- A file, and one that it imports.
abbrev shop_file : FileProto
shop_file = record { path = text "a"; dependencies = text "b" ∷ text "timestamp" ∷ []; body = [] }

abbrev base_file : FileProto
base_file = record { path = text "b"; dependencies = []; body = [] }

abbrev two_files : FileProtos
two_files = (text "a", shop_file) ∷ (text "b", base_file) ∷ []

topo_sort-ends_example : (files : List FileProto) × (topo_sort two_files ≡ some files)
topo_sort-ends_example = topo_sort-ends two_files

abbrev rank : Bytes → ℕ
rank p = if bytes_equal p (text "a") then 1 else 0

abbrev IsRanked : Bytes → FileProto → Type 0
IsRanked p f = All (λ d. rank d < rank p) f.dependencies × (f.path ≡ p)

shop-IsRanked : IsRanked (text "a") shop_file
unfolding bytes_equal
shop-IsRanked = ((omega arith, (omega arith, tt)), refl)

base-IsRanked : IsRanked (text "b") base_file
base-IsRanked = (tt, refl)

here :
    (p q : Bytes) (f g : FileProto) → bytes_equal q p ≡ true → g ≡ f → IsRanked q g → IsRanked p f
here p q f g e i h = subst (λ x. IsRanked x f) ((bytes_equal_iff q p).0 e) (subst (IsRanked q) i h)

file_of : (p : Bytes) (f : FileProto) → lookup p two_files ≡ some f → IsRanked p f
file_of p f h =
    elim (search-cases (bytes_equal (text "a") p) shop_file (lookup p ((text "b", base_file) ∷ []))
      h) [
        | inl (e, i) ↦ here p (text "a") f shop_file e i shop-IsRanked
        | inr (e, r) ↦ elim (search-cases (bytes_equal (text "b") p) base_file none r) [
          | inl (e', i) ↦ here p (text "b") f base_file e' i base-IsRanked
          | inr (e', r') ↦ absurd (cc)
        ]
      ]

sorted_files : topo_sort two_files ≡ some (base_file ∷ shop_file ∷ [])
unfolding topo_sort visit sorted_paths insert_path bytes_equal bytes_compare
sorted_files = refl

base_there : is_present (lookup (text "b") two_files) ≡ true
unfolding bytes_equal
base_there = refl

topo_sort-InOrder_example :
    InOrder two_files [] (base_file ∷ shop_file ∷ [])
    × (placed (text "b") (base_file ∷ shop_file ∷ []) ≡ true)
topo_sort-InOrder_example =
    topo_sort-InOrder two_files rank (λ p f h. (file_of p f h).0) (λ p f h. (file_of p f h).1)
      (base_file ∷ shop_file ∷ []) (text "b") sorted_files base_there
