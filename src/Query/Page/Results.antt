-- ===== src/Query/Page/Results.antt =====
-- What ExecutePageContext answers with: pages that are full before they continue, of selected documents.
use kora_db.Base.{
  ℕ, ◌≤◌, ◌≡◌, ◌==◌, refl, sym, ap, [], true, false, not, ◌⊎◌, inl, inr, Bytes, Option, Error, ok,
  arith, length, All, Bool-cases, Result-cases, Option-cases, >>=-elim, ok-injective, reject-eq-ok,
}
use kora_db.Storage.{Bolt, scan}
use kora_db.Proto.{Proto}
use kora_db.Schema.{message_descriptor}
use kora_db.Engine.Meta.{CollectionMeta, Codec, data_bucket}
use kora_db.Engine.Collections.{get_collection}
use kora_db.Engine.Documents.{each, each_item}
use kora_db.Query.Filter.{Filter, index_seed}
use kora_db.Query.Page.{
  Page, PageCursor, Context, Progress, scan_document, sort_keys, Tokens, run_scan, finish_page,
  execute_page, start, is_blank, parse_page_token, filter_hash_of, encode_page_token, page_error,
  not_cancelled,
}
use kora_db.Query.Page.Bounds.{
  Among, Selected, IsPage, EndsAt, scan_items_keeps, scan_document-IsPage, seed_loop-IsPage,
}

module _ (B : Bolt) (P : Proto) (files : Option P.Files) where
  each_item_keeps {ℓ κ} :
      {S : Type ℓ} (Q : S → Type κ) (md : P.Descriptor)
      (fn : S → Bytes → P.Message → S × Option Error) (s : S) (k v : Bytes)
      → ((m : P.Message) → P.unmarshal md v ≡ ok m → Q (fn s k m).0)
      → Q s
      → Q (each_item B P files md fn s k v).0
  unfolding each_item
  each_item_keeps Q md fn s k v keep q = elim (Result-cases (P.unmarshal md v)) [
    | inl (m, e) ↦ rw (e, each_item) (keep m e)
    | inr (x, e) ↦ rw (e, each_item) q
  ]

  -- What the callback keeps at each document of the bucket, Each keeps.
  each_keeps {ℓ κ} :
      {S : Type ℓ} (Q : S → Type κ) (t : B.Tx) (meta : CollectionMeta) (md : P.Descriptor)
      (fn : S → Bytes → P.Message → S × Option Error)
      → message_descriptor P files meta.message_type ≡ ok md
      → ((s : S) (k v : Bytes) (m : P.Message)
          → Among k v (B.for_each t (data_bucket meta.name))
          → P.unmarshal md v ≡ ok m
          → Q s
          → Q (fn s k m).0)
      → (s : S) → Q s
      → Q (each B P files t meta fn s).0
  unfolding scan each
  each_keeps Q t meta md fn typed keep s q =
      elim (Bool-cases (not (B.has_bucket t (data_bucket meta.name)))) [
        | inl gone ↦ rw (typed, gone, each) q
        | inr there ↦
            rw (typed, there, each)
              (scan_items_keeps Q (each_item B P files md fn) (B.for_each t (data_bucket meta.name))
                (λ u k v here r. each_item_keeps Q md fn u k v (λ m e. keep u k v m here e r) r) s
                q)
      ]

module _ (B : Bolt) (P : Proto) (J : Codec CollectionMeta) (K : Tokens) (files : Option P.Files)
    (filter : Filter) (page_size : ℕ) where
  run_scan-IsPage :
      (meta : CollectionMeta) (md : P.Descriptor) (cursor : PageCursor) (s : Progress) (t : B.Tx)
      → message_descriptor P files meta.message_type ≡ ok md
      → IsPage B P files meta md filter page_size cursor t s
      → IsPage B P files meta md filter page_size cursor t
          (run_scan B P J K files meta md filter page_size cursor s t).0
  unfolding run_scan
  run_scan-IsPage meta md cursor s t typed p =
      elim (Option-cases (index_seed B P files t meta filter)) [
        | inl e ↦
            rw (e, run_scan)
              (each_keeps B P files (IsPage B P files meta md filter page_size cursor t) t meta md
                (scan_document B P files meta md filter page_size cursor) typed
                (λ u k v m here d r.
                  scan_document-IsPage B P files meta md filter page_size cursor t u k m
                    (record { wire = v; stored = inl here; decoded = d }) r)
                s p)
        | inr (keys, e) ↦
            rw (e, run_scan)
              (seed_loop-IsPage B P files meta md filter page_size cursor t typed (sort_keys keys) s
                p)
      ]

  -- The cursor of the token behind a key.
  abbrev pub cursor_at : Bytes → Bytes → Bytes → PageCursor
  cursor_at coll hash key = record {
    version = 1;
    collection = coll;
    filter_hash = hash;
    last_key = key;
  }

  -- A page holds the results of the scan, and continues only where the scan stopped early.
  finish_page-eq-ok :
      (coll hash : Bytes) (s : Progress) (e : Option Error) (page : Page)
      → finish_page B P J K files coll hash (s, e) ≡ ok page
      → (page.results ≡ s.results)
        × ((is_blank page.next_page_token ≡ true)
            ⊎ ((s.more ≡ true)
                × (encode_page_token K (cursor_at coll hash s.last_key) ≡ ok page.next_page_token)))
  unfolding finish_page
  finish_page-eq-ok coll hash s e page h = elim (Option-cases (page_error e)) [
    | inr (x, q) ↦ absurd (cc (rw (q, finish_page) at h))
    | inl q ↦ elim (Bool-cases s.more) [
      | inl m ↦
          >>=-elim (encode_page_token K _) (rw (q, m, finish_page) at h)
            λ token en h'. rw (sym (ok-injective h')) (refl, inr (m, en))
      | inr m ↦ rw (sym (ok-injective (rw (q, m, finish_page) at h))) (refl, inl refl)
    ]
  ]

  -- A page that continues ends with the document of its token's key.
  pub record Continues (t : B.Tx) (meta : CollectionMeta) (md : P.Descriptor) (cursor : PageCursor)
      (coll : Bytes) (page : Page) : Type 0 where
    pub last_key : Bytes
    pub ends : EndsAt B P files meta md filter page_size cursor t last_key page.results
    pub encoded :
        encode_page_token K (cursor_at coll (filter_hash_of K filter) last_key)
        ≡ ok page.next_page_token

  -- A full page has a last result.
  ends_full {ℓ} :
      {A : Type ℓ} (s : Progress)
      → (s.results ≡ []) ⊎ A
      → length s.results ≡ page_size
      → (page_size == 0) ≡ false
      → A
  ends_full s (inl none_) full positive = absurd (ground (arith, ap length none_, full, positive))
  ends_full s (inr a) full positive = a

  -- The state of the scan behind a page, with the metadata and the cursor that it ran with.
  pub record Served (t : B.Tx) (coll token : Bytes) (page : Page) : Type 0 where
    pub meta : CollectionMeta
    pub md : P.Descriptor
    pub cursor : PageCursor
    pub found : get_collection B J t coll ≡ ok meta
    pub typed : message_descriptor P files meta.message_type ≡ ok md
    pub parsed : parse_page_token K token coll (filter_hash_of K filter) ≡ ok cursor
    pub sound : All (Selected B P files meta md filter page_size cursor t) page.results
    pub within : length page.results ≤ page_size
    pub full :
        (is_blank page.next_page_token ≡ true)
        ⊎ ((length page.results ≡ page_size) × Continues t meta md cursor coll page)
    pub positive : (page_size == 0) ≡ false

  -- A page that ExecutePageContext returns comes from a known collection and an accepted token: it holds
  -- at most page_size results, page_size of them unless its token is empty, and each is the rendering of a
  -- document that the collection's bucket lists or answers with, that the filter selects, and whose key is
  -- greater than the cursor's, where there is one; a page with a token ends with the document whose key the
  -- token holds.
  pub execute_page-Served :
      (ctx : Context) (coll token : Bytes) (t : B.Tx) (page : Page)
      → execute_page B P J K files ctx coll filter page_size token t ≡ ok page
      → Served t coll token page
  unfolding execute_page
  execute_page-Served ctx coll token t page h = >>=-elim (not_cancelled ctx) h λ ctx' _ h₁.
      let (positive, h₂) = reject-eq-ok _ _ _ h₁ in
      >>=-elim (parse_page_token K token coll (filter_hash_of K filter)) h₂ λ cursor parsed h₃.
        >>=-elim (get_collection B J t coll) h₃ λ meta found h₄.
          >>=-elim (message_descriptor P files meta.message_type) h₄ λ md typed h₅.
            let r = run_scan B P J K files meta md filter page_size cursor (start ctx') t in
            let p = run_scan-IsPage meta md cursor (start ctx') t typed (record {
              within = ground arith;
              full = λ e. absurd (cc);
              sound = tt;
              ends = inl refl;
            }) in
            let (same, more) = finish_page-eq-ok coll (filter_hash_of K filter) r.0 r.1 page h₅ in
            record {
              meta = meta;
              md = md;
              cursor = cursor;
              found = found;
              typed = typed;
              parsed = parsed;
              sound = rw same p.sound;
              within = rw same p.within;
              full = elim more [
                | inl blank ↦ inl blank
                | inr (m, encoded) ↦ inr (
                  rw same (p.full m),
                  record {
                    last_key = r.0.last_key;
                    ends = rw same (ends_full r.0 p.ends (p.full m) positive);
                    encoded = encoded;
                  },
                )
              ];
              positive = positive;
            }
