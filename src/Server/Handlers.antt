-- ===== src/Server/Handlers.antt =====
-- internal/server/server.go and keys.go: the handlers of the service, as functions of the file.
pub mod Queries
use kora_db.Base.{
  ℕ, zero, suc, ◌+◌, ◌-◌, ◌%◌, ◌^◌, ◌==◌, Bytes, text, Bool, List, [], ◌∷◌, Option, none, some,
  Error, Result, ok, err, ltb, map, if◌then◌else◌,
}
use kora_db.Base.Int.{ℤ, pos, negsuc}
use kora_db.Storage.{Bolt}
use kora_db.Proto.{Proto}
use kora_db.Schema.Registry.{Compiler, Registry, SchemaInfo, register, list_schemas}
use kora_db.Engine.Meta.{CollectionMeta, Codec, KeyKind, auto, by_field}
use kora_db.Engine.Collections.{CollectionOptions, create_collection, list_collections}
use kora_db.Engine.Documents.{insert, get_document, update_by_id, delete_by_id}
use kora_db.Query.Filter.{Filter}
use kora_db.Query.Page.{Match, Page, Context, Tokens, execute_page, execute_with_limit}
use kora_db.Auth.{KeyRecord, list_keys, revoke}
use kora_db.Auth.Create.{Time, create_key_with_expiry}
use kora_db.Server.{
  PbFilter, PbRole, Code, code_invalid_argument, code_internal, Response, served, refused,
  to_filter, to_status, to_pb_role, from_pb_role, revoke_status,
}

-- `return nil, toStatus(err)`, or the response made of the result.
abbrev pub respond {ℓ κ} :
    {A : Type ℓ} {C : Type κ} → (Error → Code) → (A → C) → Result A → Response C
respond status make (ok a) = served (make a)
respond status make (err e) = refused (status e)

abbrev pub respond_at {ℓ κ} :
    {A : Type ℓ} {C : Type κ} {T : Type 0}
    → (Error → Code)
    → (A → C)
    → Result A × T
    → Response C × T
respond_at status make (r, t) = (respond status make r, t)

-- A slice with an error beside it.
abbrev pub listed :
    {A C : Type 0} → (Error → Code) → (A → C) → List A × Option Error → Response (List C)
listed status make (as_listed, none) = served (map make as_listed)
listed status make (as_listed, some e) = refused (status e)

-- int32(v)
abbrev pub to_int32 : ℕ → ℤ
to_int32 v = let r = v % 2 ^ 32 in if ltb r (2 ^ 31) then pos r else negsuc (2 ^ 32 - 1 - r)

-- query.DefaultResultLimit
abbrev pub default_result_limit : ℕ
default_result_limit = 1000

-- pb.CollectionInfo
pub record CollectionInfo : Type 0 where
  pub name : Bytes
  pub message_type : Bytes
  pub key_kind : Bytes
  pub key_field : Bytes
  pub indexes : List Bytes

abbrev key_kind_text : KeyKind → Bytes
key_kind_text auto = text "auto"
key_kind_text by_field = text "field"

abbrev collection_info : CollectionMeta → CollectionInfo
collection_info c = record {
  name = c.name;
  message_type = c.message_type;
  key_kind = key_kind_text c.key_kind;
  key_field = c.key_field;
  indexes = c.indexes;
}

-- pb.KeyInfo
pub record KeyInfo : Type 0 where
  pub key_id : Bytes
  pub name : Bytes
  pub role : PbRole
  pub created_at_unix : ℤ
  pub expires_at_unix : ℤ

abbrev key_info : KeyRecord → KeyInfo
key_info r = record {
  key_id = r.key_id;
  name = r.name;
  role = to_pb_role r.role;
  created_at_unix = r.created_unix;
  expires_at_unix = r.expires_unix;
}

-- pb.QueryResponse
pub record QueryResponse : Type 0 where
  pub documents : List Match
  pub next_page_token : Bytes

abbrev pub whole : List Match → QueryResponse
whole results = record { documents = results; next_page_token = [] }

abbrev pub one_page : Page → QueryResponse
one_page page = record { documents = page.results; next_page_token = page.next_page_token }

-- `if req.GetExpiresAtUnix() != 0 { expiresAt = time.Unix(…) }`. The Unix time -62135596800 is that of the zero Time, which stands for no expiry too.
abbrev expiry_of : ℤ → Option Time
expiry_of (pos zero) = none
expiry_of (pos (suc n)) = some (record { unix = pos (suc n); nanoseconds = 0 })
expiry_of (negsuc n) =
    if n == 62135596799 then none else some (record { unix = negsuc n; nanoseconds = 0 })

abbrev invalid : Error → Code
invalid e = code_invalid_argument

abbrev internal : Error → Code
internal e = code_internal

module _ (B : Bolt) (P : Proto) (J : Codec CollectionMeta) (files : Option P.Files) where
  unfoldable pub handle_create_collection :
      Bytes → Bytes → CollectionOptions → B.Tx → Response (Unit {0}) × B.Tx
  handle_create_collection name message_type options t =
      respond_at to_status (λ meta. tt) (create_collection B J P files name message_type options t)

  unfoldable pub handle_list_collections : B.Tx → Response (List CollectionInfo)
  handle_list_collections t = listed to_status collection_info (list_collections B J t)

  unfoldable pub handle_insert : Bytes → Bytes → B.Tx → Response Bytes × B.Tx
  handle_insert coll json t = respond_at to_status (λ id. id) (insert B P J files coll json t)

  unfoldable pub handle_get : Bytes → Bytes → B.Tx → Response Bytes
  handle_get coll id t = respond to_status (λ json. json) (get_document B P J files coll id t)

  unfoldable pub handle_update : Bytes → Bytes → Bytes → B.Tx → Response (Unit {0}) × B.Tx
  handle_update coll id json t =
      respond_at to_status (λ u. u) (update_by_id B P J files coll id json t)

  unfoldable pub handle_delete : Bytes → Bytes → B.Tx → Response (Unit {0}) × B.Tx
  handle_delete coll id t = respond_at to_status (λ u. u) (delete_by_id B P J files coll id t)

  module _ (K : Tokens) (ctx : Context) (coll : Bytes) (token : Bytes) (t : B.Tx) where
    -- The query itself, on a page size that is not negative.
    unfoldable pub answer_query : Filter → ℕ → Response QueryResponse
    answer_query filter zero =
        respond to_status whole
          (execute_with_limit B P J K files ctx coll filter default_result_limit t)
    answer_query filter (suc n) =
        if ltb default_result_limit (suc n)
        then refused code_invalid_argument
        else respond to_status one_page (execute_page B P J K files ctx coll filter (suc n) token t)

    abbrev pub handle_filtered : Result Filter → ℤ → Response QueryResponse
    handle_filtered (err e) page_size = refused code_invalid_argument
    handle_filtered (ok filter) (negsuc n) = refused code_invalid_argument
    handle_filtered (ok filter) (pos n) = answer_query filter n

    -- Query
    unfoldable pub handle_query : PbFilter → ℤ → Response QueryResponse
    handle_query f page_size = handle_filtered (to_filter f) page_size

module _ (B : Bolt) (P : Proto) (C : Compiler P) where
  abbrev named_version : SchemaInfo → Bytes × ℤ
  named_version s = (s.name, to_int32 s.version)

  -- PutSchema
  unfoldable pub handle_put_schema :
      Registry P → B.Tx → Bytes → Bytes → ℤ → Response ℤ × Registry P × B.Tx
  handle_put_schema r t name source now =
      let (v, r', t') = register B P C r t name source now in (respond to_status to_int32 v, r', t')

  -- ListSchemas
  unfoldable pub handle_list_schemas : B.Tx → Response (List (Bytes × ℤ))
  handle_list_schemas t = respond to_status (map named_version) (list_schemas B P C t)

module _ (B : Bolt) (J : Codec KeyRecord) (hash_secret : Bytes → Bytes) where
  abbrev create_for :
      Bytes
      → ℤ
      → Time
      → Result Bytes
      → Result Bytes
      → B.Tx
      → Result ℤ
      → Response (Bytes × Bytes) × B.Tx
  create_for name expires_at now ids secrets t (err e) = (refused code_invalid_argument, t)
  create_for name expires_at now ids secrets t (ok role) =
      respond_at invalid (λ x. x)
        (create_key_with_expiry B J hash_secret t name role (expiry_of expires_at) now ids secrets)

  -- CreateKey
  unfoldable pub handle_create_key :
      Bytes
      → PbRole
      → ℤ
      → Time
      → Result Bytes
      → Result Bytes
      → B.Tx
      → Response (Bytes × Bytes) × B.Tx
  handle_create_key name role expires_at now ids secrets t =
      create_for name expires_at now ids secrets t (from_pb_role role)

  -- ListKeys
  unfoldable pub handle_list_keys : B.Tx → Response (List KeyInfo)
  handle_list_keys t = listed internal key_info (list_keys B J t)

  -- RevokeKey
  unfoldable pub handle_revoke_key : Bytes → B.Tx → Response (Unit {0}) × B.Tx
  handle_revoke_key id t = respond_at revoke_status (λ u. u) (revoke B J id t)
