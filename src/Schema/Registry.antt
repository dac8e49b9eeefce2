-- ===== src/Schema/Registry.antt =====
-- internal/schema/registry.go: registering a schema, opening a registry, and the catalog's reads.
-- The compiler (protocompile), protodesc, protoregistry, SHA-256 and JSON are outside the repository.
-- `mu` and `regMu` serialize the calls, so a call is one step on the registry and the file; no other
-- call writes the buckets of the schemas.
pub mod Accepted
pub mod Evolution
use kora_db.Base.{
  ℕ, zero, suc, ◌+◌, ◌-◌, Bytes, text, Bool, true, false, Option, none, some, List, [], ◌∷◌, ◌++◌,
  Error, Result, ok, err, ◌>>=◌, ◌>>◌, or_error, length, if◌then◌else◌, bytes_less, ltb,
  key_not_found, compile_failed, no_files_produced, encode_descriptors, decode_descriptors,
  rebuild_failed, corrupt_schema, corrupt_history, unresolved_active, unresolved_candidate,
  out_of_fuel,
}
use kora_db.Base.Int.{ℤ}
use kora_db.Strconv.{format_uint}
use kora_db.Storage.{Bolt, put, get, scan, prefix_scan, update, view}
use kora_db.Storage.Laws.{lookup}
use kora_db.Proto.{Proto}
use kora_db.Engine.Meta.{Codec, require}
use kora_db.Schema.Compat.{File, ensure_files_compatible}
use kora_db.Schema.Files.{
  FileProto, FileProtos, Linked, assign, collect_files, topo_sort, is_present,
}

-- record
pub record Record : Type 0 where
  pub name : Bytes
  pub source : Bytes
  pub version : ℕ
  pub fd_set : Bytes
  pub digest : Bytes
  pub created_unix : ℤ

-- SchemaInfo
pub record SchemaInfo : Type 0 where
  pub name : Bytes
  pub version : ℕ
  pub source : Bytes
  pub digest : Bytes
  pub created_unix : ℤ

-- schemaInfoFromRecord
abbrev info_of : Record → SchemaInfo
info_of rec = record {
  name = rec.name;
  version = rec.version;
  source = rec.source;
  digest = rec.digest;
  created_unix = rec.created_unix;
}

-- The calls of protocompile, protodesc, protoregistry, proto, SHA-256 and JSON. `compile` gets the
-- sources by name; `digest` is the hexadecimal text of the sum.
pub record Compiler (P : Proto) : Type 0 where
  pub compile : List (Bytes × Bytes) → Bytes → Result (List Linked)
  pub new_files : List FileProto → Result P.Files
  pub no_files : P.Files
  pub find_file : P.Files → Bytes → Result File
  pub marshal_set : List FileProto → Result Bytes
  pub unmarshal_set : Bytes → Result (List FileProto)
  pub digest : Bytes → Bytes
  pub codec : Codec Record

-- The fields of Registry behind `mu`; `none` is a nil `files`.
pub record Registry (P : Proto) : Type 0 where
  pub files : Option P.Files
  pub file_protos : FileProtos

-- schemaBucket and schemaHistoryBucket
unfoldable pub schema_bucket : Bytes
schema_bucket = text "__schemas__"

unfoldable pub schema_history_bucket : Bytes
schema_history_bucket = text "__schema_history__"

abbrev zeros : ℕ → Bytes
zeros zero = []
zeros (suc n) = b'0' ∷ zeros n

-- schemaHistoryPrefix
unfoldable pub schema_history_prefix : Bytes → Bytes
schema_history_prefix name = name ++ 0 ∷ []

-- schemaHistoryKey, which pads the version to twenty digits
unfoldable pub schema_history_key : Bytes → ℕ → Bytes
schema_history_key name version =
    let s = format_uint version in name ++ 0 ∷ zeros (20 - length s) ++ s

-- for path, fp := range files { out[path] = fp }
unfoldable pub copy_over : FileProtos → FileProtos → FileProtos
copy_over [] out = out
copy_over ((path, file) ∷ m) out = copy_over m (assign path file out)

-- The loop of loadFromStore over the files of one set.
unfoldable pub load_files : List FileProto → FileProtos → FileProtos
load_files [] out = out
load_files (file ∷ files) out = load_files files (assign file.path file out)

-- The variables that a callback captured, where the scan went through.
abbrev outcome {ℓ} : {S : Type ℓ} → S × Option Error → Result S
outcome (s, none) = ok s
outcome (s, some e) = err e

-- A callback on records: the error of a value that does not decode, or the record put to use.
abbrev on_record : {S : Type 0} → S → (Record → S × Option Error) → Result Record → S × Option Error
on_record s use_record (err e) = (s, some e)
on_record s use_record (ok rec) = use_record rec

-- sort.Slice by name, and by version; the order of equals, which sort.Slice leaves open, is kept.
abbrev insert_info :
    (SchemaInfo → SchemaInfo → Bool) → SchemaInfo → List SchemaInfo → List SchemaInfo
insert_info less i [] = i ∷ []
insert_info less i (j ∷ infos) =
    let rest = insert_info less i infos in if less j i then j ∷ rest else i ∷ j ∷ infos

unfoldable pub sort_infos : (SchemaInfo → SchemaInfo → Bool) → List SchemaInfo → List SchemaInfo
sort_infos less [] = []
sort_infos less (i ∷ infos) = insert_info less i (sort_infos less infos)

abbrev by_name : SchemaInfo → SchemaInfo → Bool
by_name i j = bytes_less i.name j.name

abbrev by_version : SchemaInfo → SchemaInfo → Bool
by_version i j = ltb i.version j.version

-- The files in the order of their imports; `topo_sort` always returns (Schema/Files/Order).
abbrev pub ordered : FileProtos → Result (List FileProto)
ordered m = require out_of_fuel (topo_sort m)

abbrev pub first_of : Error → List Linked → Result Linked
first_of e [] = err e
first_of e (file ∷ files) = ok file

module _ (B : Bolt) (P : Proto) (C : Compiler P) where
  -- buildFiles
  unfoldable pub build_files : FileProtos → Result P.Files
  build_files file_protos = do set ← ordered file_protos; or_error rebuild_failed (C.new_files set)

  -- activeSources
  unfoldable pub active_sources : B.Tx → Result (List (Bytes × Bytes))
  active_sources t = outcome (
      scan B t schema_bucket
        (λ sources key value.
          on_record sources (λ rec. (assign rec.name rec.source sources, none))
            (or_error corrupt_schema (C.codec.decode value)))
        [])

  -- ListSchemas
  unfoldable pub list_schemas : B.Tx → Result (List SchemaInfo)
  list_schemas t = do
    out ← outcome (
        scan B t schema_bucket
          (λ out key value.
            on_record out (λ rec. (out ++ info_of rec ∷ [], none)) (C.codec.decode value))
          [])
    ok (sort_infos by_name out)

  -- SchemaHistory
  unfoldable pub schema_history : B.Tx → Bytes → Result (List SchemaInfo)
  schema_history t name = do
    out ← outcome (
        prefix_scan B t schema_history_bucket (schema_history_prefix name)
          (λ out key value.
            on_record out (λ rec. (out ++ info_of rec ∷ [], none))
              (or_error corrupt_history (C.codec.decode value)))
          [])
    ok (sort_infos by_version out)

  abbrev load_set : FileProtos → Record → Result (List FileProto) → FileProtos × Option Error
  load_set out rec (err e) = (out, some (decode_descriptors rec.name))
  load_set out rec (ok files) = (load_files files out, none)

  -- rebuildLocked, where there is anything to rebuild
  abbrev rebuilt : FileProtos → Result (Registry P)
  rebuilt [] = ok (record { files = some C.no_files; file_protos = [] })
  rebuilt (f ∷ m) = do
    files ← build_files (f ∷ m)
    ok (record { files = some files; file_protos = f ∷ m })

  -- NewRegistry and loadFromStore
  unfoldable pub new_registry : B.Tx → Result (Registry P)
  new_registry t = do
    file_protos ← outcome (
        scan B t schema_bucket
          (λ out key value.
            on_record out (λ rec. load_set out rec (C.unmarshal_set rec.fd_set))
              (or_error corrupt_schema (C.codec.decode value)))
          [])
    rebuilt file_protos

  -- ensureFileCompatible
  unfoldable pub ensure_file_compatible : Option P.Files → P.Files → Bytes → Result (Unit {0})
  ensure_file_compatible none candidate path = ok tt
  ensure_file_compatible (some current) candidate path = do
    old ← or_error (unresolved_active path) (C.find_file current path)
    new ← or_error (unresolved_candidate path) (C.find_file candidate path)
    ensure_files_compatible old new

  abbrev version_after : Result Record → ℕ
  version_after (ok prev) = prev.version + 1
  version_after (err e) = 1

  abbrev version_of : Result Bytes → Result ℕ
  version_of (ok v) = ok (version_after (C.codec.decode v))
  version_of (err key_not_found) = ok 1
  version_of (err e) = err e

  -- The version that Register allocates.
  unfoldable pub next_version : B.Tx → Bytes → Result ℕ
  next_version t name = version_of (get B t schema_bucket name)

  -- What Register has built when it writes.
  pub record Candidate : Type 0 where
    pub candidate_protos : FileProtos
    pub candidate_files : P.Files
    pub version : ℕ
    pub fd_set : Bytes

  -- Register up to the allocation of the version.
  unfoldable pub prepare : Registry P → B.Tx → Bytes → Bytes → Result Candidate
  prepare r t name source = do
    sources ← active_sources t
    compiled ← or_error (compile_failed name) (C.compile (assign name source sources) name)
    file ← first_of (no_files_produced name) compiled
    let collected = collect_files file []
    set ← ordered collected
    fd_set ← or_error (encode_descriptors name) (C.marshal_set set)
    let candidate_protos = copy_over collected r.file_protos
    candidate_files ← build_files candidate_protos
    if is_present (lookup name r.file_protos)
        then ensure_file_compatible r.files candidate_files name
        else ok tt
    version ← next_version t name
    ok (record {
      candidate_protos = candidate_protos;
      candidate_files = candidate_files;
      version = version;
      fd_set = fd_set;
    })

  unfoldable pub record_of : Bytes → Bytes → ℤ → Candidate → Record
  record_of name source now c = record {
    name = name;
    source = source;
    version = c.version;
    fd_set = c.fd_set;
    digest = C.digest c.fd_set;
    created_unix = now;
  }

  -- The write transaction of Register.
  unfoldable pub store_record : Bytes → ℕ → Bytes → B.Tx → Result (Unit {0} × B.Tx)
  store_record name version bytes t = do
    t₁ ← put B t schema_bucket name bytes
    t₂ ← put B t₁ schema_history_bucket (schema_history_key name version) bytes
    ok (tt, t₂)

  -- The activation, which is the end of Register: only a committed record reaches the registry.
  abbrev activate : Registry P → Candidate → Result (Unit {0}) × B.Tx → Result ℕ × Registry P × B.Tx
  activate r c (err e, t) = (err e, r, t)
  activate r c (ok done, t) =
      (ok c.version, record { files = some c.candidate_files; file_protos = c.candidate_protos }, t)

  abbrev commit_record :
      Registry P → B.Tx → Bytes → Candidate → Result Bytes → Result ℕ × Registry P × B.Tx
  commit_record r t name c (err e) = (err e, r, t)
  commit_record r t name c (ok bytes) =
      activate r c (update B (store_record name c.version bytes) t)

  abbrev register_prepared :
      Registry P → B.Tx → Bytes → Bytes → ℤ → Result Candidate → Result ℕ × Registry P × B.Tx
  register_prepared r t name source now (err e) = (err e, r, t)
  register_prepared r t name source now (ok c) =
      commit_record r t name c (C.codec.encode (record_of name source now c))

  -- Register; `now` is the clock in seconds.
  unfoldable pub register : Registry P → B.Tx → Bytes → Bytes → ℤ → Result ℕ × Registry P × B.Tx
  register r t name source now = register_prepared r t name source now (prepare r t name source)
