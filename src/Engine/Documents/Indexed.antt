-- ===== src/Engine/Documents/Indexed.antt =====
-- The index entries of a collection mirror its documents: the invariant, and the three steps that
-- keep it.
use kora_db.Base.{
  ℕ, ◌<◌, ◌^◌, ◌≡◌, true, false, ◌&&◌, Bool, Bytes, Option, none, some, Result, ok, err, arith, All,
  bytes_equal, Result-cases, Option-cases, inl, inr,
}
use kora_db.Storage.{Bolt}
use kora_db.Storage.Laws.{is_some}
use kora_db.Proto.{Proto, KindClass, other_class, class_of, FieldDescriptor, string}
use kora_db.Schema.{message_descriptor}
use kora_db.Index.{bucket, entry_key, encode_value}
use kora_db.Index.Entries.{
  IsSeparable, encode_value-IsSeparable, encode_value_string, entry_key_equal,
}
use kora_db.Engine.Meta.{auto, CollectionMeta, Codec, data_bucket, has_index}
use kora_db.Engine.Keys.{encode_uint}
use kora_db.Engine.Indexing.{indexed_value}
use kora_db.Engine.Indexing.Effect.{is_entry}
use kora_db.Engine.Collections.{get_meta}
use kora_db.Engine.Documents.{decode}

abbrev pub is_value : Result Bytes → Bytes → Bool
is_value (ok e) enc = bytes_equal e enc
is_value (err x) enc = false

abbrev pub ok_or_none {ℓ} : {A : Type ℓ} → Result A → Option A
ok_or_none (ok a) = some a
ok_or_none (err e) = none

module _ (P : Proto) (md : P.Descriptor) (meta : CollectionMeta) where
  abbrev field_class : Option FieldDescriptor → KindClass
  field_class none = other_class
  field_class (some fd) = class_of fd.kind

  -- The class of an indexed field.
  abbrev pub class_of_field : Bytes → KindClass
  class_of_field field = field_class (P.field md field)

  -- A message of the collection's type whose indexed strings do not hold the byte 0.
  pub record IsClean (msg : P.Message) : Type 0 where
    pub of_type : P.descriptor msg ≡ md
    pub positive :
        (field s : Bytes) (fd : FieldDescriptor)
        → has_index meta field ≡ true
        → P.field md field ≡ some fd
        → P.value msg fd ≡ string s
        → All (λ b. 0 < b) s

  -- The entry of a message is found at its value and its key only.
  abbrev pub holds : Option P.Message → Bytes → Bytes → Bool
  holds none field enc = false
  holds (some msg) field enc = is_value (indexed_value P msg field) enc

  IsClean-IsSeparable :
      (msg : P.Message) (field enc : Bytes)
      → IsClean msg
      → has_index meta field ≡ true
      → indexed_value P msg field ≡ ok enc
      → IsSeparable (class_of_field field) enc
  unfolding indexed_value
  IsClean-IsSeparable msg field enc clean there h = elim (Option-cases (P.field md field)) [
    | inl e ↦ absurd (cc (rw (clean.of_type, e) at h))
    | inr (fd, e) ↦
        let h' : encode_value fd (P.value msg fd) ≡ ok enc = rw (clean.of_type, e) at h in
        rw e (
          encode_value-IsSeparable fd (P.value msg fd) enc h' λ c.
            clean.positive field enc fd there e (encode_value_string fd (P.value msg fd) enc c h'))
  ]

  -- Of all the entries of a field, a message's own is that of its value and its key.
  pub is_entry-entry_key :
      (msg : P.Message) (field enc key j : Bytes)
      → IsClean msg
      → has_index meta field ≡ true
      → IsSeparable (class_of_field field) enc
      → is_entry (indexed_value P msg field) key (entry_key enc j)
        ≡ (bytes_equal key j && is_value (indexed_value P msg field) enc)
  is_entry-entry_key msg field enc key j clean there sep =
      elim (Result-cases (indexed_value P msg field)) [
        | inr (e, q) ↦ rw q (ground arith)
        | inl (v, q) ↦
            rw q (entry_key_equal _ v enc key j (IsClean-IsSeparable msg field v clean there q) sep)
      ]

module _ (P : Proto) (files : Option P.Files) (meta : CollectionMeta) where
  abbrev pub decoded : Option Bytes → Option P.Message
  decoded none = none
  decoded (some wire) = ok_or_none (decode P files meta wire)

  -- The document under a storage key.
  abbrev pub document : (B : Bolt) → B.Tx → Bytes → Option P.Message
  document B t key = decoded (B.get t (data_bucket meta.name) key)

module _ (B : Bolt) (P : Proto) (J : Codec CollectionMeta) (files : Option P.Files) where
  -- A collection in a database whose registry gives `md` for its message type.
  pub record IsIndexed (meta : CollectionMeta) (md : P.Descriptor) (t : B.Tx) : Type 0 where
    -- its definition is in the catalog
    pub catalog : get_meta B J t meta.name ≡ ok meta
    pub typed : message_descriptor P files meta.message_type ≡ ok md
    -- the entries of an index are those of the stored documents, no more and no fewer
    pub entries :
        (field enc key : Bytes)
        → has_index meta field ≡ true
        → IsSeparable (class_of_field P md meta field) enc
        → is_some (B.get t (bucket meta.name field) (entry_key enc key))
          ≡ holds P md meta (document P files meta B t key) field enc
    -- every stored document decodes to a clean message
    pub clean :
        (key wire : Bytes)
        → B.get t (data_bucket meta.name) key ≡ some wire
        → (msg : P.Message) × (decode P files meta wire ≡ ok msg) × IsClean P md meta msg
    -- automatic keys that the sequence has yet to mint are free
    pub fresh :
        (n : ℕ)
        → meta.key_kind ≡ auto
        → B.sequence t (data_bucket meta.name) < n
        → n < 2 ^ 64
        → B.get t (data_bucket meta.name) (encode_uint n) ≡ none
