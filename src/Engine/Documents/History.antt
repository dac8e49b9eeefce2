-- ===== src/Engine/Documents/History.antt =====
-- Any sequence of Insert, Update and Delete on a collection, each of which may fail, keeps the
-- entries of the indexes in step with the documents.
use kora_db.Base.{◌≡◌, Bytes, Option, List, [], ◌∷◌, ok, All, inl, inr}
use kora_db.Storage.{Bolt}
use kora_db.Storage.Laws.{IsBolt, update_keeps}
use kora_db.Proto.{Proto, IsProto}
use kora_db.Engine.Meta.{CollectionMeta, Codec}
use kora_db.Engine.Documents.{
  parse, insert, update_by_id, delete_by_id, insert_document, update_document, delete_document,
}
use kora_db.Engine.Documents.Writes.{after_meta}
use kora_db.Engine.Documents.Indexed.{IsClean, IsIndexed}
use kora_db.Engine.Documents.Insert.{inserted, insert-IsIndexed}
use kora_db.Engine.Documents.Update.{updated, update-IsIndexed}
use kora_db.Engine.Documents.Delete.{removal_cases, delete-IsIndexed}

-- A write that a client asks for.
pub data Request : Type 0 where
  insert_request : Bytes → Request
  update_request : Bytes → Bytes → Request
  delete_request : Bytes → Request

module _ (B : Bolt) (P : Proto) (J : Codec CollectionMeta) (files : Option P.Files) where
  -- The state after a request, which the server answers with a result or an error.
  abbrev pub apply : Bytes → Request → B.Tx → B.Tx
  apply coll (insert_request json) t = (insert B P J files coll json t).1
  apply coll (update_request id json) t = (update_by_id B P J files coll id json t).1
  apply coll (delete_request id) t = (delete_by_id B P J files coll id t).1

  abbrev pub apply_all : Bytes → List Request → B.Tx → B.Tx
  apply_all coll [] t = t
  apply_all coll (r ∷ rs) t = apply_all coll rs (apply coll r t)

-- The document of a request, if it parses, holds no byte 0 in an indexed string.
module _ (P : Proto) (files : Option P.Files) (meta : CollectionMeta) (md : P.Descriptor) where
  abbrev CleanJson : Bytes → Type 0
  CleanJson json = (msg : P.Message) → parse P files meta json ≡ ok msg → IsClean P md meta msg

  abbrev pub CleanRequest : Request → Type 0
  CleanRequest (insert_request json) = CleanJson json
  CleanRequest (update_request id json) = CleanJson json
  CleanRequest (delete_request id) = Unit {0}

module _ (B : Bolt) (L : IsBolt B) (P : Proto) (N : IsProto P) (J : Codec CollectionMeta)
    (files : Option P.Files) (meta : CollectionMeta) (md : P.Descriptor) where
  pub apply-IsIndexed :
      (r : Request) (t : B.Tx)
      → IsIndexed B P J files meta md t
      → CleanRequest P files meta md r
      → IsIndexed B P J files meta md (apply B P J files meta.name r t)
  unfolding insert update_by_id delete_by_id
  apply-IsIndexed (insert_request json) t inv clean =
      update_keeps B L (IsIndexed B P J files meta md) _ t inv λ id t' h.
        let s =
          inserted B P J files meta json t t' id (
            after_meta B J t (λ m. insert_document B P J files m meta.name json t) inv.catalog h) in
        insert-IsIndexed B L P N J files meta md json inv s (clean s.msg s.parsed)
  apply-IsIndexed (update_request id json) t inv clean =
      update_keeps B L (IsIndexed B P J files meta md) _ t inv λ _ t' h.
        let s = updated B P J files meta id json t t' (
          after_meta B J t (λ m. update_document B P J files m meta.name id json t) inv.catalog
            h) in
        update-IsIndexed B L P N J files meta md id json inv s (clean s.new_msg s.parsed)
  apply-IsIndexed (delete_request id) t inv clean =
      update_keeps B L (IsIndexed B P J files meta md) _ t inv λ _ t' h.
        elim (removal_cases B P J files meta id t t'
          (after_meta B J t (λ m. delete_document B P J files m meta.name id t) inv.catalog h)) [
            | inl s ↦ delete-IsIndexed B L P J files meta md id inv s
            | inr m ↦ rw m.same inv
          ]

  -- In a database whose registry knows the collection's message type, where the index entries of the
  -- collection mirror its documents: after any requests to insert, update and delete, failed or not, whose
  -- documents hold no byte 0 in an indexed string, they still do.
  pub apply_all-IsIndexed :
      (rs : List Request) (t : B.Tx)
      → IsIndexed B P J files meta md t
      → All (CleanRequest P files meta md) rs
      → IsIndexed B P J files meta md (apply_all B P J files meta.name rs t)
  apply_all-IsIndexed [] t inv clean = inv
  apply_all-IsIndexed (r ∷ rs) t inv clean =
      apply_all-IsIndexed rs (apply B P J files meta.name r t) (apply-IsIndexed r t inv clean.0)
        clean.1
