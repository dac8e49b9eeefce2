-- ===== src/Query/Page/Select.antt =====
-- The documents of a collection that a filter selects, without pages: what the scan of a page goes
-- through, and what it takes of it.
use kora_db.Base.{
  ℕ, zero, suc, ◌≡◌, refl, sym, ap, Bool, true, false, ◌⊎◌, inl, inr, Bytes, Option, none, some,
  List, [], ◌∷◌, ◌++◌, Error, Result, ok, ◌>>=◌, length, page_complete, or_error, decode_document,
  Bool-cases, >>=-elim, ok-injective, if◌then◌else◌, append-nil, append_assoc,
}
use kora_db.Proto.{Proto}
use kora_db.Engine.Meta.{CollectionMeta}
use kora_db.Query.Filter.{Filter, eval}
use kora_db.Query.Page.{Match, PageCursor, Progress, before_cursor, render_match}

-- A result with the key that it is stored under.
abbrev pub Found : Type 0
Found = Bytes × Match

abbrev pub values : List Found → List Match
values [] = []
values ((k, m) ∷ found) = m ∷ values found

-- What a page takes of the results ahead of it: as many as there is room for, and a stop at the next.
unfoldable pub fill : ℕ → List Found → Progress → Progress × Option Error
fill room [] s = (s, none)
fill zero (x ∷ found) s = (record s { more = true }, some page_complete)
fill (suc room) ((k, m) ∷ found) s =
    fill room found (record s { results = s.results ++ (m ∷ []); last_key = k })

-- The last key of a list, or the one before it.
abbrev pub last_of : Bytes → List Found → Bytes
last_of k [] = k
last_of k ((j, m) ∷ found) = last_of j found

-- The results whose key the cursor has not passed.
unfoldable pub after : PageCursor → List Found → List Found
after cursor [] = []
after cursor ((k, m) ∷ found) =
    let rest = after cursor found in if before_cursor cursor k then rest else (k, m) ∷ rest

module _ (P : Proto) (files : Option P.Files) (meta : CollectionMeta) (md : P.Descriptor)
    (filter : Filter) where
  -- The documents of a bucket.
  unfoldable pub documents : List (Bytes × Bytes) → Result (List (Bytes × P.Message))
  documents [] = ok []
  documents ((k, v) ∷ items) = do
    msg ← or_error decode_document (P.unmarshal md v)
    rest ← documents items
    ok ((k, msg) ∷ rest)

  -- The results among documents.
  unfoldable pub select : List (Bytes × P.Message) → Result (List Found)
  select [] = ok []
  select ((k, msg) ∷ docs) = do
    chosen ← eval P md msg filter
    rest ← select docs
    if chosen then (do m ← render_match P files meta k msg; ok ((k, m) ∷ rest)) else ok rest

  -- The parts of a selection that succeeds.
  pub record Selection (k : Bytes) (msg : P.Message) (docs : List (Bytes × P.Message))
      (found : List Found) : Type 0 where
    pub chosen : Bool
    pub rest : List Found
    pub evaluated : eval P md msg filter ≡ ok chosen
    pub selected : select docs ≡ ok rest
    pub placed :
        ((chosen ≡ false) × (found ≡ rest))
        ⊎ ((m : Match) × (chosen ≡ true)
            × (render_match P files meta k msg ≡ ok m)
            × (found ≡ (k, m) ∷ rest))

  pub select-cons :
      (k : Bytes) (msg : P.Message) (docs : List (Bytes × P.Message)) (found : List Found)
      → select ((k, msg) ∷ docs) ≡ ok found
      → Selection k msg docs found
  unfolding select
  select-cons k msg docs found h = >>=-elim (eval P md msg filter) h λ chosen e h₁.
      >>=-elim (select docs) h₁ λ rest r h₂. record {
        chosen = chosen;
        rest = rest;
        evaluated = e;
        selected = r;
        placed = elim (Bool-cases chosen) [
          | inl yes_ ↦
              >>=-elim (render_match P files meta k msg) (rw yes_ at h₂)
                λ m q h₃. inr (m, yes_, q, sym (ok-injective h₃))
          | inr no_ ↦ inl (no_, sym (ok-injective (rw no_ at h₂)))
        ];
      }

-- What is left in the room: all of it, or a stop at the first result that has none.
pub fill-cases :
    (room : ℕ) (found : List Found) (s : Progress)
    → (fill room found s ≡ (
      record s { results = s.results ++ values found; last_key = last_of s.last_key found },
      none,
    ))
      ⊎ ((pre : List Found) × (rest : List Found) × (found ≡ pre ++ rest)
          × (length pre ≡ room)
          × (fill room found s ≡ (
            record s {
              results = s.results ++ values pre;
              last_key = last_of s.last_key pre;
              more = true;
            },
            some page_complete,
          )))
unfolding fill
fill-cases room [] s = inl (rw (append-nil s.results) refl)
fill-cases zero (x ∷ found) s = inr ([], x ∷ found, refl, refl, rw (append-nil s.results) refl)
fill-cases (suc room) ((k, m) ∷ found) s =
    elim (fill-cases room found (record s { results = s.results ++ (m ∷ []); last_key = k })) [
      | inl h ↦ inl (rw (append_assoc s.results (m ∷ []) (values found)) at h)
      | inr (pre, rest, e, l, h) ↦ inr (
        (k, m) ∷ pre,
        rest,
        ap (λ l. (k, m) ∷ l) e,
        ap suc l,
        rw (append_assoc s.results (m ∷ []) (values pre)) at h,
      )
    ]
