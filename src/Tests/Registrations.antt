-- ===== src/Tests/Registrations.antt =====
-- The theorems on registrations, on an empty database and a compiler of one file.
use kora_db.Base.{
  ℕ, ◌≡◌, refl, true, Bytes, text, Option, none, some, List, [], ◌∷◌, ◌++◌, Result, ok, err, syntax,
  external, bytes_equal, length, compile_failed, take, drop,
}
use kora_db.Base.Int.{pos}
use kora_db.Proto.Sample.{sample}
use kora_db.Strconv.{digits, format_uint}
use kora_db.Storage.{scan, scan_items, put, get, update}
use kora_db.Storage.Memory.{Memory, memory, IsBolt-memory, empty, sort}
use kora_db.Storage.Laws.{lookup}
use kora_db.Schema.Compat.{
  File, Message, and_message, no_messages, message, find_message, ensure_field_compatible,
  ensure_fields_compatible, ensure_enum_values_compatible, ensure_enums_compatible,
  ensure_message_compatible, ensure_messages_compatible, ensure_files_compatible,
}
use kora_db.Schema.Compat.Chain.{descend, Kept}
use kora_db.Schema.Files.{
  Linked, linked, no_imports, assign, collect_files, insert_path, sorted_paths, visit, topo_sort,
  is_present,
}
use kora_db.Schema.Registry.{
  Record, Compiler, Registry, schema_bucket, schema_history_bucket, schema_history_key, copy_over,
  build_files, active_sources, ensure_file_compatible, next_version, prepare, record_of,
  store_record, register,
}
use kora_db.Schema.Registry.Accepted.{register-error}
use kora_db.Schema.Registry.Evolution.{IsNext, Stored, register-Stored, register-keeps}

-- A record is stored as its version, the length of its name, its name and its source.
abbrev decode_record : Bytes → Result Record
decode_record (v ∷ n ∷ s) = ok (record {
  name = take n s;
  source = drop n s;
  version = v;
  fd_set = [];
  digest = [];
  created_unix = pos 0;
})
decode_record _ = err syntax

-- A source is the name of its file's only message.
abbrev compile_text : List (Bytes × Bytes) → Bytes → Option Bytes → Result (List Linked)
compile_text sources name none = err (external 9)
compile_text sources name (some []) = err (external 9)
compile_text sources name (some (c ∷ s)) =
    ok (linked (record { path = name; dependencies = []; body = c ∷ s }) no_imports ∷ [])

abbrev size : Message
size = message (text "Size") (text "shop.Size") [] no_messages []

abbrev compiler : Compiler sample
compiler = record {
  compile = λ sources name. compile_text sources name (lookup name sources);
  new_files = λ files. ok tt;
  no_files = tt;
  find_file = λ files path. ok (record { messages = and_message size no_messages; enums = [] });
  marshal_set = λ files. ok [];
  unmarshal_set = λ b. ok [];
  digest = λ b. b;
  codec = record {
    encode = λ r. ok (r.version ∷ length r.name ∷ (r.name ++ r.source));
    decode = decode_record;
  };
}

abbrev blank : Registry sample
blank = record { files = some tt; file_protos = [] }

abbrev name : Bytes
name = text "s"

abbrev first : Result ℕ × Registry sample × Memory
first = register memory sample compiler blank empty name (text "Size") (pos 1)

abbrev second : Result ℕ × Registry sample × Memory
second = register memory sample compiler first.1 first.2 name (text "Size") (pos 2)

first_run : first ≡ (ok 1, first.1, first.2)
unfolding register prepare active_sources scan topo_sort visit sorted_paths insert_path
    collect_files assign copy_over build_files next_version get put update store_record record_of
    schema_bucket schema_history_bucket schema_history_key format_uint digits bytes_equal sort
first_run = refl

second_run : second ≡ (ok 2, second.1, second.2)
unfolding register prepare active_sources scan scan_items topo_sort visit sorted_paths insert_path
    collect_files assign copy_over build_files next_version get put update store_record record_of
    schema_bucket schema_history_bucket schema_history_key format_uint digits bytes_equal sort
    ensure_file_compatible ensure_field_compatible ensure_fields_compatible
    ensure_enum_values_compatible ensure_enums_compatible ensure_message_compatible
    ensure_messages_compatible ensure_files_compatible find_message
second_run = refl

refused_run :
    register memory sample compiler first.1 first.2 name [] (pos 2)
    ≡ (err (compile_failed name), first.1, first.2)
unfolding register prepare active_sources scan scan_items topo_sort visit sorted_paths insert_path
    collect_files assign copy_over build_files next_version get put update store_record record_of
    schema_bucket schema_history_bucket schema_history_key format_uint digits bytes_equal sort
refused_run = refl

register-error_example : (first.1 ≡ first.1) × (first.2 ≡ first.2)
register-error_example =
    register-error memory sample compiler first.1 first.1 first.2 first.2 name [] (pos 2)
      IsBolt-memory (compile_failed name) refused_run

register-Stored_example :
    IsNext memory sample compiler first.2 name 2
    × (rec : Record) × (rec.name ≡ name)
    × (rec.source ≡ text "Size")
    × (rec.version ≡ 2)
    × Stored memory sample compiler first.2 second.2 name 2 rec
register-Stored_example =
    register-Stored memory sample compiler IsBolt-memory first.1 second.1 first.2 second.2 name
      (text "Size") (pos 2) 2 second_run

abbrev catalog_file : File
catalog_file = record { messages = and_message size no_messages; enums = [] }

active_files : first.1.files ≡ some tt
unfolding register prepare active_sources scan topo_sort visit sorted_paths insert_path
    collect_files assign copy_over build_files next_version get put update store_record record_of
    schema_bucket schema_history_bucket schema_history_key format_uint digits bytes_equal sort
active_files = refl

name_active : is_present (lookup name first.1.file_protos) ≡ true
unfolding register prepare active_sources scan topo_sort visit sorted_paths insert_path
    collect_files assign copy_over build_files next_version get put update store_record record_of
    schema_bucket schema_history_bucket schema_history_key format_uint digits bytes_equal sort
name_active = refl

size_there : descend catalog_file.messages (text "Size") [] ≡ some size
unfolding descend find_message bytes_equal
size_there = refl

register-keeps_example :
    (active' : Unit {0}) × (second.1.files ≡ some active')
    × (new : File) × (compiler.find_file active' name ≡ ok new)
    × (n : Message) × (descend new.messages (text "Size") [] ≡ some n)
    × Kept size n
register-keeps_example =
    register-keeps memory sample compiler first.1 second.1 first.2 second.2 name (text "Size")
      (pos 2) 2 tt catalog_file (text "Size") [] size second_run name_active active_files refl
      size_there
