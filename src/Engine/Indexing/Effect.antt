-- ===== src/Engine/Indexing/Effect.antt =====
-- What indexInsert and indexDelete do to the buckets.
use kora_db.Base.{
  ◌≡◌, ◌∙◌, false, ◌&&◌, Bool, Bytes, none, some, List, [], ◌∷◌, Result, ok, err, arith,
  bytes_equal, bytes_equal_iff, if◌then◌else◌, Result-cases, inl, inr,
}
use kora_db.Storage.{Bolt, put, delete}
use kora_db.Storage.Laws.{IsBolt, get-put, get-delete, sequence-put, sequence-delete}
use kora_db.Proto.{Proto}
use kora_db.Index.{bucket, entry_key}
use kora_db.Engine.Meta.{CollectionMeta, has_field, has_index}
use kora_db.Engine.Meta.Buckets.{bucket_equal}
use kora_db.Engine.Indexing.{indexed_value, each_indexed_value, index_insert, index_delete}

-- `x` is the entry of a document with this indexed value.
abbrev pub is_entry : Result Bytes → Bytes → Bytes → Bool
is_entry (ok enc) key x = bytes_equal (entry_key enc key) x
is_entry (err e) key x = false

module _ (B : Bolt) (L : IsBolt B) (P : Proto) (coll key : Bytes) (msg : P.Message) where
  abbrev inserts : Bytes → Bytes → B.Tx → Result B.Tx
  inserts field enc u = put B u (bucket coll field) (entry_key enc key) []

  abbrev deletes : Bytes → Bytes → B.Tx → Result B.Tx
  deletes field enc u = delete B u (bucket coll field) (entry_key enc key)

  -- What every call of the callback leaves alone, the loop leaves alone.
  loop_keeps {ℓ} :
      {A : Type ℓ} (look : B.Tx → A) (fn : Bytes → Bytes → B.Tx → Result B.Tx)
      → ((field enc : Bytes) (u u' : B.Tx) → fn field enc u ≡ ok u' → look u' ≡ look u)
      → (fields : List Bytes) (t t' : B.Tx) → each_indexed_value P fields msg fn t ≡ ok t'
      → look t' ≡ look t
  unfolding each_indexed_value
  loop_keeps look fn keep [] t t' h = cc
  loop_keeps look fn keep (f ∷ fields) t t' h = elim (Result-cases (indexed_value P msg f)) [
    | inr (e, q) ↦ absurd (cc (rw q at h))
    | inl (enc, q) ↦ elim (Result-cases (fn f enc t)) [
      | inr (e, r) ↦ absurd (cc (rw (q, r) at h))
      | inl (u, r) ↦ loop_keeps look fn keep fields u t' (rw (q, r) at h) ∙ keep f enc t u r
    ]
  ]

  insert_loop :
      (fields : List Bytes) (t t' : B.Tx) (field x : Bytes)
      → each_indexed_value P fields msg inserts t ≡ ok t'
      → B.get t' (bucket coll field) x ≡ (
          if has_field fields field && is_entry (indexed_value P msg field) key x
          then some []
          else B.get t (bucket coll field) x)
  unfolding each_indexed_value has_field
  insert_loop [] t t' field x h = ground arith
  insert_loop (f ∷ fields) t t' field x h = elim (Result-cases (indexed_value P msg f)) [
    | inr (e, q) ↦ absurd (cc (rw q at h))
    | inl (enc, q) ↦ elim (Result-cases (put B t (bucket coll f) (entry_key enc key) [])) [
      | inr (e, r) ↦ absurd (cc (rw (q, r) at h))
      | inl (u, r) ↦ ground (
        arith,
        insert_loop fields u t' field x (rw (q, r) at h),
        get-put B L t u (bucket coll f) (entry_key enc key) [] (bucket coll field) x r,
        bucket_equal coll f field,
        bytes_equal_iff f field,
        q,
      )
    ]
  ]

  delete_loop :
      (fields : List Bytes) (t t' : B.Tx) (field x : Bytes)
      → each_indexed_value P fields msg deletes t ≡ ok t'
      → B.get t' (bucket coll field) x ≡ (
          if has_field fields field && is_entry (indexed_value P msg field) key x
          then none
          else B.get t (bucket coll field) x)
  unfolding each_indexed_value has_field
  delete_loop [] t t' field x h = ground arith
  delete_loop (f ∷ fields) t t' field x h = elim (Result-cases (indexed_value P msg f)) [
    | inr (e, q) ↦ absurd (cc (rw q at h))
    | inl (enc, q) ↦ elim (Result-cases (delete B t (bucket coll f) (entry_key enc key))) [
      | inr (e, r) ↦ absurd (cc (rw (q, r) at h))
      | inl (u, r) ↦ ground (
        arith,
        delete_loop fields u t' field x (rw (q, r) at h),
        get-delete B L t u (bucket coll f) (entry_key enc key) (bucket coll field) x r,
        bucket_equal coll f field,
        bytes_equal_iff f field,
        q,
      )
    ]
  ]

-- The effects on one collection, for the two operations as the engine calls them.
module _ (B : Bolt) (L : IsBolt B) (P : Proto) (meta : CollectionMeta) (key : Bytes) where
  module _ (msg : P.Message) (t t' : B.Tx) (done : index_insert B P t meta key msg ≡ ok t') where
    pub get-index_insert :
        (field x : Bytes)
        → B.get t' (bucket meta.name field) x ≡ (
            if has_index meta field && is_entry (indexed_value P msg field) key x
            then some []
            else B.get t (bucket meta.name field) x)
    unfolding index_insert has_index
    get-index_insert field x = insert_loop B L P meta.name key msg meta.indexes t t' field x done

    pub get-index_insert_other :
        (c x : Bytes)
        → ((field : Bytes) → bytes_equal (bucket meta.name field) c ≡ false)
        → B.get t' c x ≡ B.get t c x
    unfolding index_insert
    get-index_insert_other c x other =
        loop_keeps B L P meta.name key msg (λ u. B.get u c x) _
          (λ f enc u u' h. get-put B L u u' _ _ [] c x h ∙ rw (other f)) meta.indexes t t' done

    pub sequence-index_insert : (c : Bytes) → B.sequence t' c ≡ B.sequence t c
    unfolding index_insert
    sequence-index_insert c =
        loop_keeps B L P meta.name key msg (λ u. B.sequence u c) _
          (λ f enc u u' h. sequence-put B L u u' _ _ [] c h) meta.indexes t t' done

  module _ (msg : P.Message) (t t' : B.Tx) (done : index_delete B P t meta key msg ≡ ok t') where
    pub get-index_delete :
        (field x : Bytes)
        → B.get t' (bucket meta.name field) x ≡ (
            if has_index meta field && is_entry (indexed_value P msg field) key x
            then none
            else B.get t (bucket meta.name field) x)
    unfolding index_delete has_index
    get-index_delete field x = delete_loop B L P meta.name key msg meta.indexes t t' field x done

    pub get-index_delete_other :
        (c x : Bytes)
        → ((field : Bytes) → bytes_equal (bucket meta.name field) c ≡ false)
        → B.get t' c x ≡ B.get t c x
    unfolding index_delete
    get-index_delete_other c x other =
        loop_keeps B L P meta.name key msg (λ u. B.get u c x) _
          (λ f enc u u' h. get-delete B L u u' _ _ c x h ∙ rw (other f)) meta.indexes t t' done

    pub sequence-index_delete : (c : Bytes) → B.sequence t' c ≡ B.sequence t c
    unfolding index_delete
    sequence-index_delete c =
        loop_keeps B L P meta.name key msg (λ u. B.sequence u c) _
          (λ f enc u u' h. sequence-delete B L u u' _ _ c h) meta.indexes t t' done
