-- ===== src/Engine/Documents/Writes.antt =====
-- The effect of a write on a collection, and that the invariant of the indexes outlives it.
use kora_db.Base.{
  ℕ, ◌<◌, ◌^◌, ◌≡◌, refl, sym, ap, ◌∙◌, true, false, ◌&&◌, Bool, Bytes, Option, none, some, [],
  Result, ok, arith, bytes_equal, bytes_equal_iff, if◌then◌else◌, Bool-cases, inl, inr, ◌>>=◌,
  or_error, decode_document,
}
use kora_db.Storage.{Bolt, get}
use kora_db.Storage.Laws.{IsBolt, is_some, get-eq-found}
use kora_db.Proto.{Proto, IsProto}
use kora_db.Schema.{message_descriptor}
use kora_db.Index.{bucket, entry_key}
use kora_db.Index.Entries.{IsSeparable}
use kora_db.Engine.Meta.{auto, CollectionMeta, Codec, collections_bucket, data_bucket, has_index}
use kora_db.Engine.Keys.{encode_uint}
use kora_db.Engine.Indexing.{indexed_value}
use kora_db.Engine.Indexing.Effect.{is_entry}
use kora_db.Engine.Collections.{get_meta}
use kora_db.Engine.Documents.{decode}
use kora_db.Engine.Documents.Indexed.{
  IsClean, IsIndexed, class_of_field, holds, is_entry-entry_key, document, decoded,
}

module _ (B : Bolt) (L : IsBolt B) (J : Codec CollectionMeta) where
  pub get_meta_eq :
      (t t' : B.Tx) (coll : Bytes)
      → B.get t' collections_bucket coll ≡ B.get t collections_bucket coll
      → get_meta B J t' coll ≡ get_meta B J t coll
  unfolding get_meta
  get_meta_eq t t' coll h =
      let same : get B t' collections_bucket coll ≡ get B t collections_bucket coll =
        cc (
          get-eq-found B L t' collections_bucket coll,
          get-eq-found B L t collections_bucket coll,
        ) in
      rw (same, get_meta)

-- After the metadata is read, what follows runs with the collection's.
pub after_meta {ℓ} :
    {A : Type ℓ} (B : Bolt) (J : Codec CollectionMeta) {meta : CollectionMeta} (t : B.Tx)
    (f : CollectionMeta → Result A) {r : Result A}
    → get_meta B J t meta.name ≡ ok meta
    → (get_meta B J t meta.name >>= f) ≡ r
    → f meta ≡ r
after_meta B J t f e h = rw e at h

-- What was marshalled under the collection's type is decoded under it.
pub decode-marshal :
    (P : Proto)
    → IsProto P
    → (files : Option P.Files) (meta : CollectionMeta) (md : P.Descriptor) (msg : P.Message)
      {wire : Bytes}
    → message_descriptor P files meta.message_type ≡ ok md
    → P.descriptor msg ≡ md
    → P.marshal msg ≡ ok wire
    → decode P files meta wire ≡ ok msg
unfolding decode
decode-marshal P N files meta md msg {wire} typed d m =
    rw typed (ap (or_error decode_document) (rw d at (N.unmarshal-marshal msg wire m)))

module _ (P : Proto) where
  abbrev pub entry_of : Option P.Message → Bytes → Bytes → Bytes → Bool
  entry_of none field key x = false
  entry_of (some msg) field key x = is_entry (indexed_value P msg field) key x

  abbrev pub Clean : P.Descriptor → CollectionMeta → Option P.Message → Type 0
  Clean md meta none = Unit {0}
  Clean md meta (some msg) = IsClean P md meta msg

  entry_of-entry_key :
      (md : P.Descriptor) (meta : CollectionMeta) (o : Option P.Message) (field enc key j : Bytes)
      → Clean md meta o
      → has_index meta field ≡ true
      → IsSeparable (class_of_field P md meta field) enc
      → entry_of o field key (entry_key enc j) ≡ (bytes_equal key j && holds P md meta o field enc)
  entry_of-entry_key md meta none field enc key j c h s = ground arith
  entry_of-entry_key md meta (some msg) field enc key j c h s =
      is_entry-entry_key P md meta msg field enc key j c h s

module _ (B : Bolt) (P : Proto) (files : Option P.Files) (meta : CollectionMeta) (key : Bytes) where
  -- Under `key` the message `old` gives way to what `wire` holds, with their index entries.
  pub record Effect (t t' : B.Tx) (old : Option P.Message) (wire : Option Bytes) : Type 0 where
    pub of_data :
        (j : Bytes)
        → B.get t' (data_bucket meta.name) j
          ≡ (if bytes_equal key j then wire else B.get t (data_bucket meta.name) j)
    pub of_indexes :
        (field x : Bytes)
        → has_index meta field ≡ true
        → B.get t' (bucket meta.name field) x ≡ (
            if entry_of P (decoded P files meta wire) field key x
            then some []
            else if entry_of P old field key x
            then none
            else B.get t (bucket meta.name field) x)
    pub of_catalog : (c : Bytes) → B.get t' collections_bucket c ≡ B.get t collections_bucket c

-- The wire of a write holds a clean message.
abbrev CleanWire :
    (P : Proto) → Option P.Files → CollectionMeta → P.Descriptor → Option Bytes → Type 0
CleanWire P files meta md none = Unit {0}
CleanWire P files meta md (some wire) =
    (msg : P.Message) × (decode P files meta wire ≡ ok msg) × IsClean P md meta msg

module _ (B : Bolt) (L : IsBolt B) (P : Proto) (J : Codec CollectionMeta) (files : Option P.Files)
    (meta : CollectionMeta) (md : P.Descriptor) (key : Bytes) {t t' : B.Tx} {wire : Option Bytes}
    (inv : IsIndexed B P J files meta md t)
    (done : Effect B P files meta key t t' (document P files meta B t key) wire)
    (good : CleanWire P files meta md wire) where
  Clean-document :
      (j : Bytes) (w : Option Bytes)
      → B.get t (data_bucket meta.name) j ≡ w
      → Clean P md meta (decoded P files meta w)
  Clean-document j none h = tt
  Clean-document j (some w) h = let (msg, d, c) = inv.clean j w h in rw d c

  Clean-wire :
      (w : Option Bytes) → CleanWire P files meta md w → Clean P md meta (decoded P files meta w)
  Clean-wire none g = tt
  Clean-wire (some w) g = rw g.1 g.2

  entries_kept :
      (field enc j : Bytes)
      → has_index meta field ≡ true
      → IsSeparable (class_of_field P md meta field) enc
      → is_some (B.get t' (bucket meta.name field) (entry_key enc j))
        ≡ holds P md meta (document P files meta B t' j) field enc
  entries_kept field enc j there sep = ground (
    arith,
    done.of_indexes field (entry_key enc j) there,
    done.of_data j,
    inv.entries field enc j there sep,
    entry_of-entry_key P md meta (decoded P files meta wire) field enc key j (Clean-wire wire good)
        there sep,
    entry_of-entry_key P md meta (document P files meta B t key) field enc key j
        (Clean-document key _ refl) there sep,
    bytes_equal_iff key j,
  )

  documents_kept :
      (j w : Bytes)
      → B.get t' (data_bucket meta.name) j ≡ some w
      → (msg : P.Message) × (decode P files meta w ≡ ok msg) × IsClean P md meta msg
  documents_kept j w h = elim (Bool-cases (bytes_equal key j)) [
    | inl same ↦ written wire good (sym (rw same at (done.of_data j)) ∙ h)
    | inr other ↦ inv.clean j w (sym (rw other at (done.of_data j)) ∙ h)
  ]
    where
      written :
          (o : Option Bytes)
          → CleanWire P files meta md o
          → o ≡ some w
          → (msg : P.Message) × (decode P files meta w ≡ ok msg) × IsClean P md meta msg
      written none g e = absurd (cc)
      written (some v) g e = let q : v ≡ w = cc in rw (← q) g

  -- A write whose effect is known keeps the invariant, if no key that is still to mint is taken.
  pub Effect-IsIndexed :
      ((n : ℕ)
        → meta.key_kind ≡ auto
        → B.sequence t' (data_bucket meta.name) < n
        → n < 2 ^ 64
        → B.get t' (data_bucket meta.name) (encode_uint n) ≡ none)
      → IsIndexed B P J files meta md t'
  Effect-IsIndexed free = record {
    catalog = get_meta_eq B L J t t' meta.name (done.of_catalog meta.name) ∙ inv.catalog;
    typed = inv.typed;
    entries = entries_kept;
    clean = documents_kept;
    fresh = free;
  }
