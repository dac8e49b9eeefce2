-- ===== src/Query/Page/Scan.antt =====
-- Both loops of a page, over the index's keys and over the whole bucket, take the selected documents
-- in order, behind the cursor, as long as there is room.
use kora_db.Base.{
  ℕ, zero, suc, ◌+◌, ◌≡◌, refl, ap, ◌∙◌, Bool, true, false, inl, inr, Bytes, Option, none, some,
  List, [], ◌∷◌, ◌++◌, Error, ok, arith, length, leb, page_complete, or_error, decode_document,
  Bool-cases, >>=-elim, ok-injective, or_error-eq-ok, if◌then◌else◌, length-append,
}
use kora_db.Storage.{Bolt, scan_items, unless_error}
use kora_db.Proto.{Proto}
use kora_db.Engine.Meta.{CollectionMeta}
use kora_db.Engine.Documents.{each_item, fetch_by_key}
use kora_db.Query.Filter.{Filter, eval}
use kora_db.Query.Page.{
  Match, PageCursor, background, check, Progress, before_cursor, render_match, append_checked,
  append_result, scan_document, scan_checked, seed_document, seed_loop, visit,
}
use kora_db.Query.Page.Select.{Found, fill, after, documents, select, Selection, select-cons}

-- A state whose context is not cancelled.
abbrev pub state : List Match → Bytes → Bool → Progress
state results last_key more = record {
  context = background;
  results = results;
  last_key = last_key;
  more = more;
}

module _ (B : Bolt) (P : Proto) (files : Option P.Files) (meta : CollectionMeta) (md : P.Descriptor)
    (filter : Filter) (page_size : ℕ) (cursor : PageCursor) where
  visit-unselected :
      (k : Bytes) (msg : P.Message) (s : Progress)
      → eval P md msg filter ≡ ok false
      → visit B P files meta md filter page_size cursor k msg s ≡ (s, none)
  unfolding visit
  visit-unselected k msg s e = rw (e, visit) refl

  visit-selected :
      (k : Bytes) (msg : P.Message) (m : Match) (rs : List Match) (lk : Bytes) (mo : Bool)
      → eval P md msg filter ≡ ok true
      → render_match P files meta k msg ≡ ok m
      → visit B P files meta md filter page_size cursor k msg (state rs lk mo) ≡ (
          if leb page_size (length rs)
          then (state rs lk true, some page_complete)
          else (state (rs ++ (m ∷ [])) k mo, none))
  unfolding visit append_result append_checked check
  visit-selected k msg m rs lk mo e r = elim (Bool-cases (leb page_size (length rs))) [
    | inl full ↦ rw (e, full, visit) refl
    | inr room ↦ rw (e, r, room, visit) refl
  ]

  -- The rest of a loop, which goes on as `fill` does.
  abbrev Goes : (Progress → Progress × Option Error) → List (Bytes × P.Message) → Bool → Type 0
  Goes next docs mo =
      (rest : List Found) (room : ℕ) (rs : List Match) (lk : Bytes)
      → select P files meta md filter docs ≡ ok rest
      → length rs + room ≡ page_size
      → next (state rs lk mo) ≡ fill room (after cursor rest) (state rs lk mo)

  abbrev then_next :
      (Progress → Progress × Option Error) → Progress × Option Error → Progress × Option Error
  then_next next r = unless_error r.1 r.0 (next r.0)

  -- A selected document takes a place, or stops the loop where there is none.
  placed :
      (k : Bytes) (msg : P.Message) (m : Match) (docs : List (Bytes × P.Message))
      (rest : List Found) (room : ℕ) (rs : List Match) (lk : Bytes) (mo : Bool)
      (next : Progress → Progress × Option Error)
      → length rs + room ≡ page_size
      → eval P md msg filter ≡ ok true
      → render_match P files meta k msg ≡ ok m
      → select P files meta md filter docs ≡ ok rest
      → Goes next docs mo
      → then_next next (visit B P files meta md filter page_size cursor k msg (state rs lk mo))
        ≡ fill room ((k, m) ∷ after cursor rest) (state rs lk mo)
  unfolding fill
  placed k msg m docs rest zero rs lk mo next fits e r c go =
      let full : leb page_size (length rs) ≡ true = ground arith in
      rw (visit-selected k msg m rs lk mo e r, full) refl
  placed k msg m docs rest (suc room) rs lk mo next fits e r c go =
      let free : leb page_size (length rs) ≡ false = ground arith in
      rw (visit-selected k msg m rs lk mo e r, free)
        (go rest room (rs ++ (m ∷ [])) k c (omega (arith, length-append rs (m ∷ []))))

  -- One document behind the cursor.
  visited :
      (k : Bytes) (msg : P.Message) (docs : List (Bytes × P.Message)) (found : List Found)
      (room : ℕ) (rs : List Match) (lk : Bytes) (mo : Bool)
      (next : Progress → Progress × Option Error)
      → before_cursor cursor k ≡ false
      → length rs + room ≡ page_size
      → Selection P files meta md filter k msg docs found
      → Goes next docs mo
      → then_next next (visit B P files meta md filter page_size cursor k msg (state rs lk mo))
        ≡ fill room (after cursor found) (state rs lk mo)
  unfolding after
  visited k msg docs found room rs lk mo next new fits s go = elim s.placed [
    | inl (c, e) ↦
        rw (visit-unselected k msg (state rs lk mo) (s.evaluated ∙ ap ok c), e)
          (go s.rest room rs lk s.selected fits)
    | inr (m, c, r, e) ↦
        rw (e, new)
          (placed k msg m docs s.rest room rs lk mo next fits (s.evaluated ∙ ap ok c) r s.selected
            go)
  ]

  -- One document, behind the cursor or not, of either loop.
  stepped :
      (k : Bytes) (msg : P.Message) (docs : List (Bytes × P.Message)) (found : List Found)
      (room : ℕ) (rs : List Match) (lk : Bytes) (mo : Bool)
      (next : Progress → Progress × Option Error)
      → length rs + room ≡ page_size
      → Selection P files meta md filter k msg docs found
      → Goes next docs mo
      → then_next next
          (scan_checked B P files meta md filter page_size cursor k msg (state rs lk mo))
        ≡ fill room (after cursor found) (state rs lk mo)
  unfolding after
  stepped k msg docs found room rs lk mo next fits s go =
      elim (Bool-cases (before_cursor cursor k)) [
        | inr new ↦ rw new (visited k msg docs found room rs lk mo next new fits s go)
        | inl old ↦ elim s.placed [
          | inl (c, e) ↦ rw (old, e) (go s.rest room rs lk s.selected fits)
          | inr (m, c, r, e) ↦ rw (e, old) (go s.rest room rs lk s.selected fits)
        ]
      ]

  -- The scan of a bucket whose documents all decode.
  pub scan_items-fill :
      (items : List (Bytes × Bytes)) (docs : List (Bytes × P.Message)) (mo : Bool)
      → documents P files meta md filter items ≡ ok docs
      → Goes
          (λ s.
            scan_items
              (each_item B P files md (scan_document B P files meta md filter page_size cursor))
              s
              items)
          docs
          mo
  unfolding documents scan_items each_item scan_document check select after fill
  scan_items-fill [] docs mo h rest room rs lk c fits =
      let none_ : [] ≡ docs = ok-injective h in
      let none_found : [] ≡ rest = ok-injective (rw (← none_) at c) in rw (← none_found) refl
  scan_items-fill ((k, v) ∷ items) docs mo h rest room rs lk c fits =
      >>=-elim (or_error decode_document (P.unmarshal md v)) h λ msg e h₁.
        >>=-elim (documents P files meta md filter items) h₁ λ docs' d h₂.
          let same : (k, msg) ∷ docs' ≡ docs = ok-injective h₂ in
          rw (or_error-eq-ok decode_document (P.unmarshal md v) e, scan_items, each_item)
            (stepped k msg docs' rest room rs lk mo
              (λ u.
                scan_items
                  (each_item B P files md (scan_document B P files meta md filter page_size cursor))
                  u items)
              fits (select-cons P files meta md filter k msg docs' rest (rw (← same) at c))
              (scan_items-fill items docs' mo d))

  -- The documents of a list of keys.
  abbrev pub Fetched : B.Tx → List Bytes → List (Bytes × P.Message) → Type 0
  Fetched t [] [] = Unit {0}
  Fetched t (k ∷ keys) ((j, msg) ∷ docs) =
      (k ≡ j) × (fetch_by_key B P files t meta k ≡ ok msg) × Fetched t keys docs
  Fetched t _ _ = ⊥

  -- The loop over keys whose documents are there.
  pub seed_loop-fill :
      (t : B.Tx) (keys : List Bytes) (docs : List (Bytes × P.Message)) (mo : Bool)
      → Fetched t keys docs
      → Goes (seed_loop B P files meta md filter page_size cursor t keys) docs mo
  unfolding seed_loop seed_document check select after fill
  seed_loop-fill t [] [] mo f rest room rs lk c fits =
      let none_found : [] ≡ rest = ok-injective c in rw (← none_found) refl
  seed_loop-fill t [] (d ∷ docs) mo f rest room rs lk c fits = elim f [ ]
  seed_loop-fill t (k ∷ keys) [] mo f rest room rs lk c fits = elim f [ ]
  seed_loop-fill t (k ∷ keys) ((j, msg) ∷ docs) mo f rest room rs lk c fits =
      rw (seed_loop, f.1)
        (stepped k msg docs rest room rs lk mo
          (seed_loop B P files meta md filter page_size cursor t keys) fits
          (select-cons P files meta md filter k msg docs rest (rw (← f.0) at c))
          (seed_loop-fill t keys docs mo f.2))
