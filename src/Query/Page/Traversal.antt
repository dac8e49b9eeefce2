-- ===== src/Query/Page/Traversal.antt =====
-- The pages of a query, each asked for with the token of the one before, list the selected documents
-- once each, in the order of their keys, and come to an end.
use kora_db.Base.{
  ℕ, zero, suc, ◌<◌, ◌==◌, ◌≡◌, refl, sym, ap, ◌∙◌, true, false, inl, inr, Bytes, Option, none,
  some, List, [], ◌∷◌, ◌++◌, Result, ok, err, ◌>>=◌, bytes_equal_refl, arith, length, length-append,
  append_assoc, external, if◌then◌else◌, page_complete, Bool-cases,
}
use kora_db.Storage.{Bolt, scan, scan_items}
use kora_db.Storage.Laws.{IsBolt, lookup, IsSorted}
use kora_db.Proto.{Proto}
use kora_db.Schema.{message_descriptor}
use kora_db.Engine.Meta.{CollectionMeta, Codec, data_bucket}
use kora_db.Engine.Collections.{get_collection}
use kora_db.Engine.Documents.{each}
use kora_db.Query.Filter.{Filter, index_seed, signature}
use kora_db.Query.Page.{
  Match, PageCursor, background, check, Progress, Tokens, run_scan, finish_page, execute_page,
  start, is_blank, parse_page_token, filter_hash_of, encode_page_token, empty_cursor,
}
use kora_db.Strconv.Runes.{is_utf8}
use kora_db.Query.Page.Cursor.{IsTokens, parse_page_token-encode_page_token}
use kora_db.Query.Page.Select.{Found, values, fill, fill-cases, after, last_of, documents, select}
use kora_db.Query.Page.Scan.{scan_items-fill}
use kora_db.Query.Page.Order.{
  HasKeys, HasKeys-append, lookup-HasKeys, documents-IsSorted, documents-HasKeys, select-IsSorted,
  select-HasKeys,
}
use kora_db.Query.Page.Cut.{after-last_of, last_of-append, last_of-HasKeys}

-- A client that asks for page after page, on the same state; the fuel bounds the number of pages.
module _ (B : Bolt) (P : Proto) (J : Codec CollectionMeta) (K : Tokens) (files : Option P.Files)
    (coll : Bytes) (filter : Filter) (page_size : ℕ) (t : B.Tx) where
  unfoldable pub traverse : ℕ → Bytes → Result (List Match)
  traverse zero token = err (external 0)
  traverse (suc fuel) token = do
    page ← execute_page B P J K files background coll filter page_size token t
    if is_blank page.next_page_token
        then ok page.results
        else (do rest ← traverse fuel page.next_page_token; ok (page.results ++ rest))

-- A bucket that is not there has no items.
none_left {ℓ} :
    {V : Type ℓ} (items : List (Bytes × V)) → ((k : Bytes) → lookup k items ≡ none) → items ≡ []
none_left [] h = refl
none_left ((k, v) ∷ items) h = absurd (cc (bytes_equal_refl k, h k))

for_each-no_bucket :
    (B : Bolt) → IsBolt B → (t : B.Tx) (b : Bytes) → B.has_bucket t b ≡ false → B.for_each t b ≡ []
for_each-no_bucket B L t b h = none_left _ λ k. L.lookup-for_each t b k ∙ L.get-no_bucket t b k h

-- A query on a state, with the answer that it has in one piece.
module _ (B : Bolt) (P : Proto) (J : Codec CollectionMeta) (files : Option P.Files)
    (filter : Filter) (t : B.Tx) where
  pub record Answer (coll : Bytes) (found : List Found) : Type 0 where
    pub meta : CollectionMeta
    pub md : P.Descriptor
    pub docs : List (Bytes × P.Message)
    pub catalog : get_collection B J t coll ≡ ok meta
    pub typed : message_descriptor P files meta.message_type ≡ ok md
    -- no index is used
    pub unseeded : index_seed B P files t meta filter ≡ none
    -- bbolt has no empty key
    pub no_blank : B.get t (data_bucket meta.name) [] ≡ none
    pub decoded : documents P files meta md filter (B.for_each t (data_bucket meta.name)) ≡ ok docs
    pub answered : select P files meta md filter docs ≡ ok found

module _ (B : Bolt) (L : IsBolt B) (P : Proto) (J : Codec CollectionMeta) (K : Tokens)
    (T : IsTokens K) (files : Option P.Files) (filter : Filter) (t : B.Tx) (coll : Bytes)
    (found : List Found) (a : Answer B P J files filter t coll found) (page_size : ℕ)
    (positive : 0 < page_size) (utf8 : is_utf8 coll ≡ true) where
  sorted : IsSorted found
  sorted = select-IsSorted P files a.meta a.md filter a.docs found a.answered (
      documents-IsSorted P files a.meta a.md filter _ a.docs a.decoded
        (L.for_each-IsSorted t (data_bucket a.meta.name)))

  keyed : HasKeys found
  keyed = select-HasKeys P files a.meta a.md filter a.docs found a.answered (
      documents-HasKeys P files a.meta a.md filter _ a.docs a.decoded
        (lookup-HasKeys _ (L.lookup-for_each t (data_bucket a.meta.name) [] ∙ a.no_blank)))

  -- The scan of a page takes what lies behind its cursor.
  run_scan-fill :
      (cursor : PageCursor)
      → run_scan B P J K files a.meta a.md filter page_size cursor (start background) t
        ≡ fill page_size (after cursor found) (start background)
  unfolding run_scan each scan scan_items
  run_scan-fill cursor = elim (Bool-cases (B.has_bucket t (data_bucket a.meta.name))) [
    | inl there ↦
        rw (a.unseeded, a.typed, there, run_scan, each)
          (scan_items-fill B P files a.meta a.md filter page_size cursor _ a.docs false a.decoded
            found page_size [] [] a.answered (omega arith))
    | inr gone ↦
        rw (a.unseeded, a.typed, gone, run_scan, each)
          (nothing a.docs
            (rw (for_each-no_bucket B L t (data_bucket a.meta.name) gone) at a.decoded) a.answered)
  ]
    where
      nothing :
          (docs : List (Bytes × P.Message))
          → documents P files a.meta a.md filter [] ≡ ok docs
          → select P files a.meta a.md filter docs ≡ ok found
          → (start background, none) ≡ fill page_size (after cursor found) (start background)
      nothing docs d s =
          scan_items-fill B P files a.meta a.md filter page_size cursor [] docs false d found
            page_size [] [] s (omega arith)

  -- A page is what `fill` takes of the results behind the cursor.
  execute_page-fill :
      (token : Bytes) (cursor : PageCursor)
      → parse_page_token K token coll (filter_hash_of K filter) ≡ ok cursor
      → execute_page B P J K files background coll filter page_size token t
        ≡ finish_page B P J K files coll
            (filter_hash_of K filter)
            (fill page_size (after cursor found) (start background))
  unfolding execute_page check
  execute_page-fill token cursor h =
      let size : (page_size == 0) ≡ false = ground arith in
      rw (size, h, a.catalog, a.typed, run_scan-fill cursor) refl

  -- The cursor that a page hands out.
  abbrev next_cursor : Bytes → PageCursor
  next_cursor key = record {
    version = 1;
    collection = coll;
    filter_hash = filter_hash_of K filter;
    last_key = key;
  }

  page_token : (key : Bytes) → (token : Bytes) × (encode_page_token K (next_cursor key) ≡ ok token)
  unfolding encode_page_token
  page_token key = let (raw, e) = T.encodes (next_cursor key) in (K.base64_encode raw, rw e refl)

  page-last :
      (token : Bytes) (cursor : PageCursor) (s : Progress)
      → parse_page_token K token coll (filter_hash_of K filter) ≡ ok cursor
      → s.more ≡ false
      → fill page_size (after cursor found) (start background) ≡ (s, none)
      → execute_page B P J K files background coll filter page_size token t
        ≡ ok (record { results = s.results; next_page_token = [] })
  unfolding finish_page
  page-last token cursor s p m h =
      execute_page-fill token cursor p
      ∙ ap (finish_page B P J K files coll (filter_hash_of K filter)) h
      ∙ rw (m, finish_page) refl

  page-more :
      (token next : Bytes) (cursor : PageCursor) (s : Progress)
      → parse_page_token K token coll (filter_hash_of K filter) ≡ ok cursor
      → s.more ≡ true
      → encode_page_token K (next_cursor s.last_key) ≡ ok next
      → fill page_size (after cursor found) (start background) ≡ (s, some page_complete)
      → execute_page B P J K files background coll filter page_size token t
        ≡ ok (record { results = s.results; next_page_token = next })
  unfolding finish_page
  page-more token next cursor s p m e h =
      execute_page-fill token cursor p
      ∙ ap (finish_page B P J K files coll (filter_hash_of K filter)) h
      ∙ rw (m, e, finish_page) refl

  values-append : (xs ys : List Found) → values (xs ++ ys) ≡ values xs ++ values ys
  values-append [] ys = refl
  values-append ((k, m) ∷ xs) ys = ap (λ l. m ∷ l) (values-append xs ys)

  hash_utf8 : is_utf8 (filter_hash_of K filter) ≡ true
  unfolding filter_hash_of
  hash_utf8 = T.digest-utf8 (signature filter)

  -- The last key after some more results.
  next_key :
      (pre xs rest : List Found)
      → found ≡ pre ++ (xs ++ rest)
      → 0 < length xs
      → (last_of [] (pre ++ xs) ≡ last_of [] xs) × (is_blank (last_of [] xs) ≡ false)
  next_key pre [] rest e l = absurd (omega arith)
  next_key pre (x ∷ xs) rest e l = (
    last_of-append [] pre (x ∷ xs),
    last_of-HasKeys [] x xs rest (HasKeys-append pre ((x ∷ xs) ++ rest) (rw e at keyed)),
  )

  traverse-rest :
      (fuel : ℕ) (pre rest : List Found) (token : Bytes) (cursor : PageCursor)
      → found ≡ pre ++ rest
      → cursor.last_key ≡ last_of [] pre
      → parse_page_token K token coll (filter_hash_of K filter) ≡ ok cursor
      → length rest < fuel
      → traverse B P J K files coll filter page_size t fuel token ≡ ok (values rest)
  unfolding traverse
  traverse-rest zero pre rest token cursor e c p l = absurd (omega arith)
  traverse-rest (suc fuel) pre rest token cursor e c p l =
      let ahead : after cursor found ≡ rest =
        rw e (after-last_of cursor pre rest c (rw e at sorted) (rw e at keyed)) in
      elim (fill-cases page_size rest (start background)) [
        | inl h ↦
            rw
              (page-last token cursor
                (record (start background) { results = values rest; last_key = last_of [] rest }) p
                refl (ap (λ l. fill page_size l (start background)) ahead ∙ h))
              refl
        | inr (xs, rest', e', n, h) ↦
            let (key, full) =
              next_key pre xs rest' (e ∙ ap (λ l. pre ++ l) e') (omega (arith, n)) in
            let (next, q) = page_token (last_of [] xs) in
            let (blank, parsed) =
              parse_page_token-encode_page_token K T (next_cursor (last_of [] xs)) next coll
                (filter_hash_of K filter)
                (record {
                  of_version = refl;
                  of_key = full;
                  of_collection = refl;
                  of_filter = refl;
                })
                utf8 hash_utf8 q in
            let page =
              page-more token next cursor
                (record (start background) {
                  results = values xs;
                  last_key = last_of [] xs;
                  more = true;
                })
                p refl q (ap (λ l. fill page_size l (start background)) ahead ∙ h) in
            let others =
              traverse-rest fuel (pre ++ xs) rest' next (next_cursor (last_of [] xs))
                (e ∙ ap (λ l. pre ++ l) e' ∙ sym (append_assoc pre xs rest')) (sym key) parsed
                (omega (arith, l, n, positive, length-append xs rest', ap length e')) in
            rw (page, blank, others) (ap ok (sym (values-append xs rest') ∙ ap values (sym e')))
      ]

  -- On one state, a query on a collection with a name in UTF-8 that uses no index, whose filter and
  -- rendering have no error on a stored document, and whose page size is not 0: a client that asks for page
  -- after page, each with the token of the one before, has after at most as many pages as there are results
  -- and one more reached the last page, and the pages together list every selected document once, in the
  -- order of the keys.
  pub traverse-found :
      (fuel : ℕ)
      → length found < fuel
      → traverse B P J K files coll filter page_size t fuel [] ≡ ok (values found)
  unfolding parse_page_token
  traverse-found fuel l = traverse-rest fuel [] found [] empty_cursor refl refl refl l
