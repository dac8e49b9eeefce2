-- ===== src/Engine/Documents/Reads.antt =====
-- What Get answers after Insert, Update and Delete.
use kora_db.Base.{
  ◌≡◌, refl, sym, ap, ◌∙◌, Bytes, Option, none, some, Result, ok, err, arith, inl, inr, ◌>>=◌,
  bytes_equal, bytes_equal_iff, if◌then◌else◌, document_not_found, Bool-cases,
}
use kora_db.Storage.{Bolt, view}
use kora_db.Storage.Laws.{IsBolt, get-eq-found, found, update-eq-ok}
use kora_db.Proto.{Proto, IsProto}
use kora_db.Engine.Meta.{CollectionMeta, Codec, data_bucket}
use kora_db.Engine.Keys.{encode_key}
use kora_db.Engine.Keys.RoundTrip.{encode_key-derive_key}
use kora_db.Engine.Collections.{get_meta}
use kora_db.Engine.Documents.{
  parse, decode, render, insert, get_document, get_or_not_found, update_by_id, delete_by_id,
  insert_document, update_document, delete_document,
}
use kora_db.Engine.Documents.Indexed.{IsClean, IsIndexed}
use kora_db.Engine.Documents.Insert.{inserted, insert_Effect, decode-wire}
use kora_db.Engine.Documents.Update.{updated, update_Effect, decode-wire as decode-new_wire}
use kora_db.Engine.Documents.Delete.{removal_cases, delete_Effect}
use kora_db.Engine.Documents.Writes.{after_meta, get_meta_eq}

module _ (B : Bolt) (L : IsBolt B) (P : Proto) (J : Codec CollectionMeta) (files : Option P.Files)
    (meta : CollectionMeta) where
  -- Get by what is stored under the key.
  answer : Bytes → Option Bytes → Result Bytes
  answer id none = err (document_not_found meta.name id)
  answer id (some wire) = render P files meta wire

  answered :
      (id : Bytes) (o : Option Bytes)
      → (get_or_not_found meta.name id (found o) >>= render P files meta) ≡ answer id o
  unfolding answer
  answered id none = refl
  answered id (some wire) = refl

  get_document-eq :
      (id key : Bytes) (t : B.Tx)
      → get_meta B J t meta.name ≡ ok meta
      → encode_key P files meta id ≡ ok key
      → get_document B P J files meta.name id t ≡ answer id (B.get t (data_bucket meta.name) key)
  unfolding get_document view answer
  get_document-eq id key t c e =
      rw (c, e, get-eq-found B L t (data_bucket meta.name) key, get_document)
        (answered id (B.get t (data_bucket meta.name) key))

  answer-wire :
      (id wire : Bytes) (msg : P.Message)
      → decode P files meta wire ≡ ok msg
      → answer id (some wire) ≡ P.json_marshal msg
  unfolding answer render
  answer-wire id wire msg h = rw h

module _ (B : Bolt) (L : IsBolt B) (P : Proto) (N : IsProto P) (J : Codec CollectionMeta)
    (files : Option P.Files) (meta : CollectionMeta) (md : P.Descriptor) {t t' : B.Tx}
    (inv : IsIndexed B P J files meta md t) (id₂ key₂ : Bytes)
    (read : encode_key P files meta id₂ ≡ ok key₂) where
  -- Two states that agree under a key answer alike.
  same_answer :
      get_meta B J t' meta.name ≡ ok meta
      → B.get t' (data_bucket meta.name) key₂ ≡ B.get t (data_bucket meta.name) key₂
      → get_document B P J files meta.name id₂ t' ≡ get_document B P J files meta.name id₂ t
  same_answer c h =
      get_document-eq B L P J files meta id₂ key₂ t' c read
      ∙ rw h (sym (get_document-eq B L P J files meta id₂ key₂ t inv.catalog read))

  new_answer :
      (wire : Bytes) (msg : P.Message)
      → get_meta B J t' meta.name ≡ ok meta
      → B.get t' (data_bucket meta.name) key₂ ≡ some wire
      → decode P files meta wire ≡ ok msg
      → get_document B P J files meta.name id₂ t' ≡ P.json_marshal msg
  new_answer wire msg c h d =
      get_document-eq B L P J files meta id₂ key₂ t' c read
      ∙ rw h (answer-wire B L P J files meta id₂ wire msg d)

  no_answer :
      get_meta B J t' meta.name ≡ ok meta
      → B.get t' (data_bucket meta.name) key₂ ≡ none
      → get_document B P J files meta.name id₂ t' ≡ err (document_not_found meta.name id₂)
  unfolding answer
  no_answer c h = get_document-eq B L P J files meta id₂ key₂ t' c read ∙ rw h refl

  -- Where the index entries mirror the documents, and the JSON holds no byte 0 in an indexed string:
  -- after an Insert that succeeds, its id has a key, and Get of any id that has a key answers with the new
  -- document if the two keys are equal, and as before if they are not.
  pub get_document-insert :
      (json id : Bytes)
      → ((msg : P.Message) → parse P files meta json ≡ ok msg → IsClean P md meta msg)
      → insert B P J files meta.name json t ≡ (ok id, t')
      → (msg : P.Message) × (key : Bytes) × (parse P files meta json ≡ ok msg)
        × (encode_key P files meta id ≡ ok key)
        × (get_document B P J files meta.name id₂ t' ≡ (
            if bytes_equal key key₂
            then P.json_marshal msg
            else get_document B P J files meta.name id₂ t))
  unfolding insert
  get_document-insert json id clean h =
      let s = inserted B P J files meta json t t' id (
        after_meta B J t (λ m. insert_document B P J files m meta.name json t) inv.catalog
          (update-eq-ok B _ t h)) in
      let c = clean s.msg s.parsed in
      let done = insert_Effect B L P N J files meta md json inv s c in
      let catalog = get_meta_eq B L J t t' meta.name (done.of_catalog meta.name) ∙ inv.catalog in
      (
        s.msg,
        s.key,
        s.parsed,
        encode_key-derive_key P files B L meta t s.minted s.msg s.key id s.derived,
        elim (Bool-cases (bytes_equal s.key key₂)) [
          | inl same ↦ rw same (
              new_answer s.wire s.msg catalog (rw same at (done.of_data key₂))
                (decode-wire B L P N J files meta md json inv s c))
          | inr other ↦ rw other (same_answer catalog (rw other at (done.of_data key₂)))
        ],
      )

  -- Where the index entries mirror the documents, and the JSON holds no byte 0 in an indexed string:
  -- after an Update that succeeds, its id has a key, and Get of any id that has a key answers with the new
  -- document if the two keys are equal, and as before if they are not.
  pub get_document-update :
      (id json : Bytes)
      → ((msg : P.Message) → parse P files meta json ≡ ok msg → IsClean P md meta msg)
      → update_by_id B P J files meta.name id json t ≡ (ok tt, t')
      → (msg : P.Message) × (key : Bytes) × (parse P files meta json ≡ ok msg)
        × (encode_key P files meta id ≡ ok key)
        × (get_document B P J files meta.name id₂ t' ≡ (
            if bytes_equal key key₂
            then P.json_marshal msg
            else get_document B P J files meta.name id₂ t))
  unfolding update_by_id
  get_document-update id json clean h =
      let s = updated B P J files meta id json t t' (
        after_meta B J t (λ m. update_document B P J files m meta.name id json t) inv.catalog
          (update-eq-ok B _ t h)) in
      let c = clean s.new_msg s.parsed in
      let done = update_Effect B L P N J files meta md id json inv s c in
      let catalog = get_meta_eq B L J t t' meta.name (done.of_catalog meta.name) ∙ inv.catalog in
      (
        s.new_msg,
        s.key,
        s.parsed,
        s.encoded,
        elim (Bool-cases (bytes_equal s.key key₂)) [
          | inl same ↦ rw same (
              new_answer s.wire s.new_msg catalog (rw same at (done.of_data key₂))
                (decode-new_wire B L P N J files meta md id json inv s c))
          | inr other ↦ rw other (same_answer catalog (rw other at (done.of_data key₂)))
        ],
      )

  -- Where the index entries mirror the documents: after a Delete without an error, its id has a key, and
  -- Get of any id that has a key finds no document if the two keys are equal, and answers as before if they
  -- are not.
  pub get_document-delete :
      (id : Bytes)
      → delete_by_id B P J files meta.name id t ≡ (ok tt, t')
      → (key : Bytes) × (encode_key P files meta id ≡ ok key)
        × (get_document B P J files meta.name id₂ t' ≡ (
            if bytes_equal key key₂
            then err (document_not_found meta.name id₂)
            else get_document B P J files meta.name id₂ t))
  unfolding delete_by_id
  get_document-delete id h =
      elim (removal_cases B P J files meta id t t' (
        after_meta B J t (λ m. delete_document B P J files m meta.name id t) inv.catalog
          (update-eq-ok B _ t h))) [
            | inl s ↦
                let done = delete_Effect B L P J files meta md id inv s in
                let catalog =
                  get_meta_eq B L J t t' meta.name (done.of_catalog meta.name) ∙ inv.catalog in
                (
                  s.key,
                  s.encoded,
                  elim (Bool-cases (bytes_equal s.key key₂)) [
                    | inl same ↦ rw same (no_answer catalog (rw same at (done.of_data key₂)))
                    | inr other ↦ rw other (same_answer catalog (rw other at (done.of_data key₂)))
                  ],
                )
            | inr m ↦ (
              m.key,
              m.encoded,
              elim (Bool-cases (bytes_equal m.key key₂)) [
                | inl same ↦ rw same (
                    no_answer (rw m.same inv.catalog) (
                      rw m.same (
                        ground (
                          arith,
                          get-eq-found B L t (data_bucket meta.name) m.key,
                          m.absent,
                          bytes_equal_iff m.key key₂,
                          same,
                        ))))
                | inr other ↦ rw other (ap (get_document B P J files meta.name id₂) m.same)
              ],
            )
          ]
