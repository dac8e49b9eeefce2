-- ===== src/Query/Page/Resume.antt =====
-- A page that is asked for with the token of the page before it, on the same file or on a later one.
use kora_db.Base.{
  ℕ, ◌≡◌, refl, ap, true, false, inl, inr, Bytes, Option, ok, All, All-map, Ordering, bytes_compare,
}
use kora_db.Strconv.Runes.{is_utf8}
use kora_db.Storage.{Bolt}
use kora_db.Proto.{Proto}
use kora_db.Engine.Meta.{CollectionMeta, Codec}
use kora_db.Query.Filter.{Filter, signature}
use kora_db.Query.Page.{Page, PageCursor, Context, Tokens, execute_page, is_blank, filter_hash_of}
use kora_db.Query.Page.Bounds.{Selected, IsPast, IsFrom, EndsAt}
use kora_db.Query.Page.Cursor.{IsTokens, encoded_cursor, parse_page_token-IsCursorOf}
use kora_db.Query.Page.Results.{Served, cursor_at, execute_page-Served}

module _ (B : Bolt) (P : Proto) (J : Codec CollectionMeta) (K : Tokens) (files : Option P.Files)
    (filter : Filter) (n n' : ℕ) where
  -- The last result of the first page is that of a document under a key, and each of the second page that
  -- of a document under a greater one.
  pub record Resumed (t t' : B.Tx) (coll token : Bytes) (page page' : Page) : Type 0 where
    pub first : Served B P J K files filter n t coll token page
    pub second : Served B P J K files filter n' t' coll page.next_page_token page'
    pub key : Bytes
    pub ends : EndsAt B P files first.meta first.md filter n first.cursor t key page.results
    pub beyond :
        All
          (λ m.
            (k : Bytes) × IsFrom B P files second.meta second.md filter n' second.cursor t' k m
            × (bytes_compare k key ≡ Ordering.gt))
          page'.results

  past :
      (cursor : PageCursor) (key k : Bytes)
      → cursor.last_key ≡ key
      → is_blank cursor.last_key ≡ false
      → IsPast cursor k
      → bytes_compare k key ≡ Ordering.gt
  past cursor key k e full (inl h) = absurd (cc)
  past cursor key k e full (inr h) = rw e at h

  -- Where the collection's name is UTF-8, and two pages of a filter are served, the second one with the
  -- token of the first, on any two states and with any two page sizes: the last result of the first page is
  -- that of a document under a key, and each result of the second page is that of a document of the second
  -- state under a greater key.
  pub execute_page-resumes :
      IsTokens K
      → (ctx ctx' : Context) (t t' : B.Tx) (coll token : Bytes) (page page' : Page)
      → is_utf8 coll ≡ true
      → execute_page B P J K files ctx coll filter n token t ≡ ok page
      → is_blank page.next_page_token ≡ false
      → execute_page B P J K files ctx' coll filter n' page.next_page_token t' ≡ ok page'
      → Resumed t t' coll token page page'
  unfolding filter_hash_of
  execute_page-resumes T ctx ctx' t t' coll token page page' utf8 h more h' =
      let s = execute_page-Served B P J K files filter n ctx coll token t page h in
      let s' =
        execute_page-Served B P J K files filter n' ctx' coll page.next_page_token t' page' h' in
      elim s.full [
        | inl blank ↦ absurd (cc (blank, more))
        | inr (whole, c) ↦
            let same =
              encoded_cursor K T
                (cursor_at B P J K files filter n coll (filter_hash_of K filter) c.last_key)
                s'.cursor page.next_page_token coll (filter_hash_of K filter) refl utf8
                (T.digest-utf8 (signature filter)) more c.encoded s'.parsed in
            let held =
              parse_page_token-IsCursorOf K page.next_page_token coll (filter_hash_of K filter)
                s'.cursor more s'.parsed in
            record {
              first = s;
              second = s';
              key = c.last_key;
              ends = c.ends;
              beyond =
                  All-map
                    (λ m (sel : Selected B P files s'.meta s'.md filter n' s'.cursor t' m). (
                      sel.key,
                      record { msg = sel.msg; source = sel.source; rendered = sel.rendered },
                      past s'.cursor c.last_key sel.key (ap (λ x. PageCursor.last_key x) same)
                          held.of_key sel.behind,
                    ))
                    page'.results s'.sound;
            }
      ]
