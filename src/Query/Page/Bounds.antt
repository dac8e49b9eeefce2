-- ===== src/Query/Page/Bounds.antt =====
-- What every page holds: no more results than asked for, and only documents that the filter selects.
use kora_db.Base.{
  ℕ, ◌≤◌, ◌≡◌, ◌⊎◌, refl, Ordering, bytes_compare, Bool, true, false, inl, inr, Bytes, Option, none,
  some, List, [], ◌∷◌, ◌++◌, Error, Result, ok, err, arith, Result-cases, or_error-eq-ok,
  decode_document, length, length-append, All, All-append, Bool-cases, leb, not_found,
}
use kora_db.Storage.{Bolt, get, Callback, unless_error, scan_items}
use kora_db.Proto.{Proto}
use kora_db.Schema.{message_descriptor}
use kora_db.Engine.Meta.{CollectionMeta, data_bucket}
use kora_db.Engine.Documents.{fetch_by_key, decode}
use kora_db.Query.Filter.{Filter, eval}
use kora_db.Query.Page.{
  Match, PageCursor, Context, is_blank, check, Progress, unless_cancelled, before_cursor,
  render_match, append_checked, add_match, append_result, visit, visit_if, visit_fetched,
  scan_checked, seed_checked, scan_document, seed_document, seed_loop,
}

pub unless_error_keeps {ℓ κ} :
    {S : Type ℓ} (Q : S → Type κ) (o : Option Error) (s : S) (rest : S × Option Error)
    → Q s
    → Q rest.0
    → Q (unless_error o s rest).0
unless_error_keeps Q none s rest q r = r
unless_error_keeps Q (some x) s rest q r = q

-- A pair is among the items.
abbrev pub Among : Bytes → Bytes → List (Bytes × Bytes) → Type 0
Among k v [] = ⊥
Among k v ((j, w) ∷ items) = ((k ≡ j) × (v ≡ w)) ⊎ Among k v items

-- What the callback keeps at each item, the scan keeps.
pub scan_items_keeps {ℓ κ} :
    {S : Type ℓ} (Q : S → Type κ) (fn : Callback S)
    → (items : List (Bytes × Bytes))
    → ((s : S) (k v : Bytes) → Among k v items → Q s → Q (fn s k v).0)
    → (s : S) → Q s
    → Q (scan_items fn s items).0
unfolding scan_items
scan_items_keeps Q fn [] keep s q = q
scan_items_keeps Q fn ((k, v) ∷ items) keep s q =
    let q' = keep s k v (inl (refl, refl)) q in
    unless_error_keeps Q (fn s k v).1 _ _ q'
      (scan_items_keeps Q fn items (λ u j w here r. keep u j w (inr here) r) (fn s k v).0 q')

-- A key that the pages up to the cursor have not shown: there is no cursor, or the key is greater.
abbrev pub IsPast : PageCursor → Bytes → Type 0
IsPast cursor key =
    (is_blank cursor.last_key ≡ true) ⊎ (bytes_compare key cursor.last_key ≡ Ordering.gt)

before_cursor-IsPast :
    (cursor : PageCursor) (key : Bytes) → before_cursor cursor key ≡ false → IsPast cursor key
unfolding before_cursor
before_cursor-IsPast cursor key h = ground arith

-- The results so far: no more than a page, a full page where there are more, and each from a
-- stored document behind the cursor that the filter selects.
module _ (B : Bolt) (P : Proto) (files : Option P.Files) (meta : CollectionMeta) (md : P.Descriptor)
    (filter : Filter) (page_size : ℕ) (cursor : PageCursor) (t : B.Tx) where
  get-some : (u : B.Tx) (b k : Bytes) {v : Bytes} → get B u b k ≡ ok v → B.get u b k ≡ some v
  unfolding get
  get-some u b k h = ground arith

  -- The collection's bucket lists the document under the key, or answers with it.
  pub record Source (key : Bytes) (msg : P.Message) : Type 0 where
    pub wire : Bytes
    pub stored :
        Among key wire (B.for_each t (data_bucket meta.name))
        ⊎ (B.get t (data_bucket meta.name) key ≡ some wire)
    pub decoded : P.unmarshal md wire ≡ ok msg

  pub record Selected (m : Match) : Type 0 where
    pub key : Bytes
    pub msg : P.Message
    pub source : Source key msg
    pub selected : eval P md msg filter ≡ ok true
    pub rendered : render_match P files meta key msg ≡ ok m
    pub behind : IsPast cursor key

  -- The document that a result renders, under the key.
  pub record IsFrom (key : Bytes) (m : Match) : Type 0 where
    pub msg : P.Message
    pub source : Source key msg
    pub rendered : render_match P files meta key msg ≡ ok m

  -- The last result is that of the key.
  pub record EndsAt (key : Bytes) (results : List Match) : Type 0 where
    pub before : List Match
    pub last : Match
    pub split : results ≡ before ++ (last ∷ [])
    pub from : IsFrom key last

  pub record IsPage (s : Progress) : Type 0 where
    pub within : length s.results ≤ page_size
    pub full : s.more ≡ true → length s.results ≡ page_size
    pub sound : All Selected s.results
    pub ends : (s.results ≡ []) ⊎ EndsAt s.last_key s.results

  with_context : (s : Progress) (c : Context) → IsPage s → IsPage (record s { context = c })
  with_context s c p = record { within = p.within; full = p.full; sound = p.sound; ends = p.ends }

  -- An action that keeps the property keeps it behind a test of the context.
  checked :
      (rest : Progress → Progress × Option Error) (s : Progress)
      → ((u : Progress) → IsPage u → IsPage (rest u).0)
      → IsPage s
      → IsPage (unless_cancelled rest s).0
  checked rest s keep p =
      let p' = with_context s (check s.context).0 p in
      unless_error_keeps IsPage (check s.context).1 _ _ p' (keep _ p')

  append_checked-IsPage :
      (key : Bytes) (msg : P.Message)
      → Source key msg
      → eval P md msg filter ≡ ok true
      → before_cursor cursor key ≡ false
      → (s : Progress) → IsPage s
      → IsPage (append_checked P files meta page_size key msg s).0
  unfolding append_checked
  append_checked-IsPage key msg o e b s p = elim (Bool-cases (leb page_size (length s.results))) [
    | inl whole ↦
        rw whole
          (record { within = p.within; full = λ _. ground arith; sound = p.sound; ends = p.ends })
    | inr room ↦ rw room (added (render_match P files meta key msg) room refl)
  ]
    where
      added :
          (r : Result Match)
          → leb page_size (length s.results) ≡ false
          → render_match P files meta key msg ≡ r
          → IsPage (add_match P files meta key r s).0
      added (err x) room h = p
      added (ok m) room h = record {
        within = ground (arith, length-append s.results (m ∷ []));
        full = λ h'. ground (arith, length-append s.results (m ∷ []), p.full h', p.within);
        sound = All-append Selected s.results (m ∷ []) p.sound (
          record {
            key = key;
            msg = msg;
            source = o;
            selected = e;
            rendered = h;
            behind = before_cursor-IsPast cursor key b;
          },
          tt,
        );
        ends = inr (record {
          before = s.results;
          last = m;
          split = refl;
          from = record { msg = msg; source = o; rendered = h };
        });
      }

  visit_if-IsPage :
      (key : Bytes) (msg : P.Message) (r : Result Bool)
      → Source key msg
      → eval P md msg filter ≡ r
      → before_cursor cursor key ≡ false
      → (s : Progress) → IsPage s
      → IsPage (visit_if B P files meta md filter page_size cursor r key msg s).0
  unfolding append_result
  visit_if-IsPage key msg (err x) o e b s p = p
  visit_if-IsPage key msg (ok true) o e b s p =
      checked (append_checked P files meta page_size key msg) s
        (append_checked-IsPage key msg o e b) p
  visit_if-IsPage key msg (ok false) o e b s p = p

  visit-IsPage :
      (key : Bytes) (msg : P.Message)
      → Source key msg
      → before_cursor cursor key ≡ false
      → (s : Progress) → IsPage s
      → IsPage (visit B P files meta md filter page_size cursor key msg s).0
  unfolding visit
  visit-IsPage key msg o b s p = visit_if-IsPage key msg (eval P md msg filter) o refl b s p

  pub scan_document-IsPage :
      (s : Progress) (key : Bytes) (msg : P.Message)
      → Source key msg
      → IsPage s
      → IsPage (scan_document B P files meta md filter page_size cursor s key msg).0
  unfolding scan_document
  scan_document-IsPage s key msg o p =
      checked (scan_checked B P files meta md filter page_size cursor key msg) s
        (λ u q. elim (Bool-cases (before_cursor cursor key)) [
          | inl old ↦ rw old q
          | inr new ↦ rw new (visit-IsPage key msg o new u q)
        ])
        p

  fetched-IsPage :
      (key : Bytes) (r : Result P.Message)
      → ((msg : P.Message) → r ≡ ok msg → Source key msg)
      → before_cursor cursor key ≡ false
      → (s : Progress) → IsPage s
      → IsPage (visit_fetched B P files meta md filter page_size cursor r key s).0
  fetched-IsPage key (err not_found) o b s p = p
  fetched-IsPage key (err e) o b s p = p
  fetched-IsPage key (ok msg) o b s p = visit-IsPage key msg (o msg refl) b s p

  -- FetchByKey reads the collection's bucket.
  module _ (typed : message_descriptor P files meta.message_type ≡ ok md) where
    fetch_by_key-Source :
        (key : Bytes) (msg : P.Message)
        → fetch_by_key B P files t meta key ≡ ok msg
        → Source key msg
    unfolding fetch_by_key decode
    fetch_by_key-Source key msg h = elim (Result-cases (get B t (data_bucket meta.name) key)) [
      | inr (x, e) ↦ absurd (cc (rw (e, fetch_by_key) at h))
      | inl (wire, e) ↦ record {
        wire = wire;
        stored = inr (get-some t (data_bucket meta.name) key e);
        decoded =
            or_error-eq-ok decode_document (P.unmarshal md wire)
              (rw (e, typed, fetch_by_key, decode) at h);
      }
    ]

    seed_document-IsPage :
        (key : Bytes) (s : Progress)
        → IsPage s
        → IsPage (seed_document B P files meta md filter page_size cursor t key s).0
    unfolding seed_document
    seed_document-IsPage key s p =
        checked (seed_checked B P files meta md filter page_size cursor t key) s
          (λ u q. elim (Bool-cases (before_cursor cursor key)) [
            | inl old ↦ rw old q
            | inr new ↦ rw new (
                fetched-IsPage key (fetch_by_key B P files t meta key) (fetch_by_key-Source key) new
                  u q)
          ])
          p

    pub seed_loop-IsPage :
        (keys : List Bytes) (s : Progress)
        → IsPage s
        → IsPage (seed_loop B P files meta md filter page_size cursor t keys s).0
    unfolding seed_loop
    seed_loop-IsPage [] s p = p
    seed_loop-IsPage (key ∷ keys) s p =
        unless_error_keeps IsPage _ _ _ (seed_document-IsPage key s p)
          (seed_loop-IsPage keys _ (seed_document-IsPage key s p))
