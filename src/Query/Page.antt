-- ===== src/Query/Page.antt =====
-- internal/query/query.go: the execution of a query, page by page.
pub mod Bounds
pub mod Cursor
pub mod Results
pub mod Select
pub mod Scan
pub mod Order
pub mod Cut
pub mod Traversal
pub mod Resume
use kora_db.Base.{
  ℕ, zero, suc, ◌==◌, Bool, true, false, not, ◌||◌, ◌&&◌, Bytes, text, Ordering, Option, none, some,
  List, [], ◌∷◌, ◌++◌, Error, Result, ok, err, reject, or_error, bytes_equal, bytes_compare,
  page_size_not_positive, invalid_page_token, page_complete, result_limit, not_found, length, leb,
  ◌>>=◌, ◌>>◌, if◌then◌else◌,
}
use kora_db.Storage.{Bolt, unless_error}
use kora_db.Proto.{Proto}
use kora_db.Schema.{message_descriptor}
use kora_db.Engine.Meta.{CollectionMeta, Codec}
use kora_db.Engine.Keys.{id_from_storage_key}
use kora_db.Engine.Collections.{get_collection}
use kora_db.Engine.Documents.{each, fetch_by_key}
use kora_db.Query.Filter.{Filter, eval, signature, index_seed}

-- Result
pub record Match : Type 0 where
  pub id : Bytes
  pub json : Bytes

pub record Page : Type 0 where
  pub results : List Match
  pub next_page_token : Bytes

-- pageCursor; the version 0 is that of the empty cursor.
pub record PageCursor : Type 0 where
  pub version : ℕ
  pub collection : Bytes
  pub filter_hash : Bytes
  pub last_key : Bytes

-- A context: it is never cancelled, or its Err answers with an error after some more calls.
pub data Context : Type 0 where
  background : Context
  cancel_after : ℕ → Error → Context

-- One call of ctx.Err.
unfoldable pub check : Context → Context × Option Error
check background = (background, none)
check (cancel_after zero e) = (cancel_after zero e, some e)
check (cancel_after (suc n) e) = (cancel_after n e, none)

-- The variables that ExecutePageContext's callbacks capture.
pub record Progress : Type 0 where
  pub context : Context
  pub results : List Match
  pub last_key : Bytes
  pub more : Bool

abbrev pub is_blank : Bytes → Bool
is_blank [] = true
is_blank (b ∷ s) = false

-- The test that skips what the pages before have shown.
unfoldable pub before_cursor : PageCursor → Bytes → Bool
before_cursor cursor key =
    not (is_blank cursor.last_key)
    && elim (bytes_compare key cursor.last_key) [ Ordering.gt ↦ false | _ ↦ true ]

abbrev pub go_on : {S : Type 0} → S → S × Option Error
go_on s = (s, none)

abbrev pub stop : {S : Type 0} → Error → S → S × Option Error
stop e s = (s, some e)

-- `if err := ctx.Err(); err != nil { return err }`
abbrev pub unless_cancelled :
    (Progress → Progress × Option Error) → Progress → Progress × Option Error
unless_cancelled rest s =
    let (context, e) = check s.context in
    let s' = record s { context = context } in let r = rest s' in unless_error e s' r

module _ (P : Proto) (files : Option P.Files) (meta : CollectionMeta) where
  -- The document as a result.
  unfoldable pub render_match : Bytes → P.Message → Result Match
  render_match key msg = do
    j ← P.json_marshal msg
    id ← id_from_storage_key P files meta key
    ok (record { id = id; json = j })

  abbrev pub add_match : Bytes → Result Match → Progress → Progress × Option Error
  add_match key (err e) s = stop e s
  add_match key (ok m) s = go_on (record s { results = s.results ++ (m ∷ []); last_key = key })

  -- appendResult, after its test of the context
  unfoldable pub append_checked : ℕ → Bytes → P.Message → Progress → Progress × Option Error
  append_checked page_size key msg s =
      if leb page_size (length s.results)
      then stop page_complete (record s { more = true })
      else add_match key (render_match key msg) s

  -- appendResult
  unfoldable pub append_result : ℕ → Bytes → P.Message → Progress → Progress × Option Error
  append_result page_size key msg = unless_cancelled (append_checked page_size key msg)

module _ (B : Bolt) (P : Proto) (files : Option P.Files) (meta : CollectionMeta) (md : P.Descriptor)
    (filter : Filter) (page_size : ℕ) (cursor : PageCursor) where
  abbrev pub visit_if : Result Bool → Bytes → P.Message → Progress → Progress × Option Error
  visit_if (err e) key msg s = stop e s
  visit_if (ok true) key msg s = append_result P files meta page_size key msg s
  visit_if (ok false) key msg s = go_on s

  -- What both loops do with a document that they have decoded.
  unfoldable pub visit : Bytes → P.Message → Progress → Progress × Option Error
  visit key msg s = visit_if (eval P md msg filter) key msg s

  abbrev pub scan_checked : Bytes → P.Message → Progress → Progress × Option Error
  scan_checked key msg s = if before_cursor cursor key then go_on s else visit key msg s

  -- The callback of the full scan.
  unfoldable pub scan_document : Progress → Bytes → P.Message → Progress × Option Error
  scan_document s key msg = unless_cancelled (scan_checked key msg) s

  -- A key whose document is gone is passed over.
  abbrev pub visit_fetched : Result P.Message → Bytes → Progress → Progress × Option Error
  visit_fetched (err not_found) key s = go_on s
  visit_fetched (err e) key s = stop e s
  visit_fetched (ok msg) key s = visit key msg s

  abbrev pub seed_checked : B.Tx → Bytes → Progress → Progress × Option Error
  seed_checked t key s =
      if before_cursor cursor key
      then go_on s
      else visit_fetched (fetch_by_key B P files t meta key) key s

  -- One candidate of the seeded loop.
  unfoldable pub seed_document : B.Tx → Bytes → Progress → Progress × Option Error
  seed_document t key = unless_cancelled (seed_checked t key)

  -- The loop over the sorted candidates.
  unfoldable pub seed_loop : B.Tx → List Bytes → Progress → Progress × Option Error
  seed_loop t [] s = go_on s
  seed_loop t (key ∷ keys) s =
      let (s', e) = seed_document t key s in
      let rest = seed_loop t keys s' in unless_error e s' rest

-- sort.Slice by bytes.Compare.
unfoldable pub insert_key : Bytes → List Bytes → List Bytes
insert_key k [] = k ∷ []
insert_key k (j ∷ keys) =
    let rest = insert_key k keys in
    elim (bytes_compare j k) [ Ordering.lt ↦ j ∷ rest | _ ↦ k ∷ j ∷ keys ]

unfoldable pub sort_keys : List Bytes → List Bytes
sort_keys [] = []
sort_keys (k ∷ keys) = insert_key k (sort_keys keys)

-- What the program uses of JSON, Base64 and SHA-256: the text of a cursor, and the text of a digest.
pub record Tokens : Type 0 where
  pub cursor_codec : Codec PageCursor
  pub base64_encode : Bytes → Bytes
  pub base64_decode : Bytes → Result Bytes
  pub digest : Bytes → Bytes

abbrev pub empty_cursor : PageCursor
empty_cursor = record { version = 0; collection = []; filter_hash = []; last_key = [] }

module _ (K : Tokens) where
  -- filterHash
  unfoldable pub filter_hash_of : Filter → Bytes
  filter_hash_of filter = K.base64_encode (K.digest (signature filter))

  -- encodePageToken
  unfoldable pub encode_page_token : PageCursor → Result Bytes
  encode_page_token cursor = do raw ← K.cursor_codec.encode cursor; ok (K.base64_encode raw)

  -- parsePageToken
  unfoldable pub parse_page_token : Bytes → Bytes → Bytes → Result PageCursor
  parse_page_token [] collection hash = ok empty_cursor
  parse_page_token (b ∷ token) collection hash = do
    raw ← or_error invalid_page_token (K.base64_decode (b ∷ token))
    cursor ← or_error invalid_page_token (K.cursor_codec.decode raw)
    reject
        (not (cursor.version == 1)
          || is_blank cursor.last_key
          || not (bytes_equal cursor.collection collection)
          || not (bytes_equal cursor.filter_hash hash))
        invalid_page_token
    ok cursor

-- `if err := ctx.Err(); err != nil { return Page{}, err }`
abbrev pub not_cancelled : Context → Result Context
not_cancelled ctx = let (ctx', e) = check ctx in elim e [ none ↦ ok ctx' | some x ↦ err x ]

abbrev pub start : Context → Progress
start ctx = record { context = ctx; results = []; last_key = []; more = false }

-- `err != nil && !errors.Is(err, errPageComplete)`
abbrev pub page_error : Option Error → Option Error
page_error (some page_complete) = none
page_error e = e

module _ (B : Bolt) (P : Proto) (J : Codec CollectionMeta) (K : Tokens)
    (files : Option P.Files) where
  -- The transaction of ExecutePageContext.
  unfoldable pub run_scan :
      CollectionMeta
      → P.Descriptor
      → Filter
      → ℕ
      → PageCursor
      → Progress
      → B.Tx
      → Progress × Option Error
  run_scan meta md filter page_size cursor s t = elim (index_seed B P files t meta filter) [
    | some keys ↦ seed_loop B P files meta md filter page_size cursor t (sort_keys keys) s
    | none ↦ each B P files t meta (scan_document B P files meta md filter page_size cursor) s
  ]

  -- The end of ExecutePageContext: the page, with a token where there are more results.
  unfoldable pub finish_page : Bytes → Bytes → Progress × Option Error → Result Page
  finish_page coll hash (s, e) = elim (page_error e) [
    | some x ↦ err x
    | none ↦
        if s.more
        then (do
          token ←
              encode_page_token K (record {
                version = 1;
                collection = coll;
                filter_hash = hash;
                last_key = s.last_key;
              })
          ok (record { results = s.results; next_page_token = token }))
        else ok (record { results = s.results; next_page_token = [] })
  ]

  -- ExecutePageContext. GetCollection reads in a transaction of its own, before that of the scan; the model
  -- takes one state for both, as where no write comes between them.
  unfoldable pub execute_page : Context → Bytes → Filter → ℕ → Bytes → B.Tx → Result Page
  unfolding check
  execute_page ctx coll filter page_size token t = do
    ctx' ← not_cancelled ctx
    reject (page_size == 0) page_size_not_positive
    let hash = filter_hash_of K filter
    cursor ← parse_page_token K token coll hash
    meta ← get_collection B J t coll
    md ← message_descriptor P files meta.message_type
    finish_page coll hash (run_scan meta md filter page_size cursor (start ctx') t)

  -- ExecuteWithLimitContext
  unfoldable pub execute_with_limit : Context → Bytes → Filter → ℕ → B.Tx → Result (List Match)
  execute_with_limit ctx coll filter limit t = do
    page ← execute_page ctx coll filter limit [] t
    if is_blank page.next_page_token then ok page.results else err (result_limit limit)

  -- ExecutePage
  unfoldable pub execute_page_now : Bytes → Filter → ℕ → Bytes → B.Tx → Result Page
  execute_page_now coll filter page_size token t =
      execute_page background coll filter page_size token t

  -- ExecuteWithLimit
  unfoldable pub execute_with_limit_now : Bytes → Filter → ℕ → B.Tx → Result (List Match)
  execute_with_limit_now coll filter limit t = execute_with_limit background coll filter limit t

  -- Execute, with DefaultResultLimit
  unfoldable pub execute : Bytes → Filter → B.Tx → Result (List Match)
  execute coll filter t = execute_with_limit_now coll filter 1000 t
