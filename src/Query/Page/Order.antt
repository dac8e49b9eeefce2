-- ===== src/Query/Page/Order.antt =====
-- Selections are in key order, so that a cursor cuts one in two at the last key of a page.
use kora_db.Base.{
  ◌≡◌, refl, false, inl, inr, Bytes, Option, none, List, [], ◌∷◌, ◌++◌, ok, or_error,
  decode_document, >>=-elim, ok-injective, bytes_equal,
}
use kora_db.Storage.Laws.{lookup, IsBelow, IsSorted}
use kora_db.Proto.{Proto}
use kora_db.Engine.Meta.{CollectionMeta}
use kora_db.Query.Filter.{Filter}
use kora_db.Query.Page.{is_blank}
use kora_db.Query.Page.Select.{Found, documents, select, select-cons}

-- No key is blank.
abbrev pub HasKeys {ℓ} : {V : Type ℓ} → List (Bytes × V) → Type 0
HasKeys [] = Unit {0}
HasKeys ((k, v) ∷ items) = (is_blank k ≡ false) × HasKeys items

pub lookup-HasKeys {ℓ} :
    {V : Type ℓ} (items : List (Bytes × V)) → lookup [] items ≡ none → HasKeys items
unfolding bytes_equal
lookup-HasKeys [] h = tt
lookup-HasKeys (([], v) ∷ items) h = absurd (cc)
lookup-HasKeys ((b ∷ k, v) ∷ items) h = (refl, lookup-HasKeys items h)

pub HasKeys-append {ℓ} : {V : Type ℓ} (xs ys : List (Bytes × V)) → HasKeys (xs ++ ys) → HasKeys ys
HasKeys-append [] ys h = h
HasKeys-append ((k, v) ∷ xs) ys h = HasKeys-append xs ys h.1

module _ (P : Proto) (files : Option P.Files) (meta : CollectionMeta) (md : P.Descriptor)
    (filter : Filter) where
  documents-IsBelow :
      (k : Bytes) (items : List (Bytes × Bytes)) (docs : List (Bytes × P.Message))
      → documents P files meta md filter items ≡ ok docs
      → IsBelow k items
      → IsBelow k docs
  unfolding documents
  documents-IsBelow k [] docs h b = let e : [] ≡ docs = ok-injective h in rw (← e) tt
  documents-IsBelow k ((j, v) ∷ items) docs h b =
      >>=-elim (or_error decode_document (P.unmarshal md v)) h λ msg _ h₁.
        >>=-elim (documents P files meta md filter items) h₁ λ rest d h₂.
          let e : (j, msg) ∷ rest ≡ docs = ok-injective h₂ in
          rw (← e) (b.0, documents-IsBelow k items rest d b.1)

  pub documents-IsSorted :
      (items : List (Bytes × Bytes)) (docs : List (Bytes × P.Message))
      → documents P files meta md filter items ≡ ok docs
      → IsSorted items
      → IsSorted docs
  unfolding documents
  documents-IsSorted [] docs h s = let e : [] ≡ docs = ok-injective h in rw (← e) tt
  documents-IsSorted ((j, v) ∷ items) docs h s =
      >>=-elim (or_error decode_document (P.unmarshal md v)) h λ msg _ h₁.
        >>=-elim (documents P files meta md filter items) h₁ λ rest d h₂.
          let e : (j, msg) ∷ rest ≡ docs = ok-injective h₂ in
          rw (← e) (documents-IsBelow j items rest d s.0, documents-IsSorted items rest d s.1)

  pub documents-HasKeys :
      (items : List (Bytes × Bytes)) (docs : List (Bytes × P.Message))
      → documents P files meta md filter items ≡ ok docs
      → HasKeys items
      → HasKeys docs
  unfolding documents
  documents-HasKeys [] docs h s = let e : [] ≡ docs = ok-injective h in rw (← e) tt
  documents-HasKeys ((j, v) ∷ items) docs h s =
      >>=-elim (or_error decode_document (P.unmarshal md v)) h λ msg _ h₁.
        >>=-elim (documents P files meta md filter items) h₁ λ rest d h₂.
          let e : (j, msg) ∷ rest ≡ docs = ok-injective h₂ in
          rw (← e) (s.0, documents-HasKeys items rest d s.1)

  select-IsBelow :
      (k : Bytes) (docs : List (Bytes × P.Message)) (found : List Found)
      → select P files meta md filter docs ≡ ok found
      → IsBelow k docs
      → IsBelow k found
  unfolding select
  select-IsBelow k [] found h b = let e : [] ≡ found = ok-injective h in rw (← e) tt
  select-IsBelow k ((j, msg) ∷ docs) found h b =
      let s = select-cons P files meta md filter j msg docs found h in
      let below = select-IsBelow k docs s.rest s.selected b.1 in
      elim s.placed [ inl (c, e) ↦ rw e below | inr (m, c, r, e) ↦ rw e (b.0, below) ]

  pub select-IsSorted :
      (docs : List (Bytes × P.Message)) (found : List Found)
      → select P files meta md filter docs ≡ ok found
      → IsSorted docs
      → IsSorted found
  unfolding select
  select-IsSorted [] found h b = let e : [] ≡ found = ok-injective h in rw (← e) tt
  select-IsSorted ((j, msg) ∷ docs) found h b =
      let s = select-cons P files meta md filter j msg docs found h in
      let sorted = select-IsSorted docs s.rest s.selected b.1 in
      elim s.placed [
        | inl (c, e) ↦ rw e sorted
        | inr (m, c, r, e) ↦ rw e (select-IsBelow j docs s.rest s.selected b.0, sorted)
      ]

  pub select-HasKeys :
      (docs : List (Bytes × P.Message)) (found : List Found)
      → select P files meta md filter docs ≡ ok found
      → HasKeys docs
      → HasKeys found
  unfolding select
  select-HasKeys [] found h b = let e : [] ≡ found = ok-injective h in rw (← e) tt
  select-HasKeys ((j, msg) ∷ docs) found h b =
      let s = select-cons P files meta md filter j msg docs found h in
      let keys = select-HasKeys docs s.rest s.selected b.1 in
      elim s.placed [ inl (c, e) ↦ rw e keys | inr (m, c, r, e) ↦ rw e (b.0, keys) ]
