-- ===== src/Engine/Meta.antt =====
-- internal/engine/engine.go and index.go: the persisted definition of a collection, and the names of
-- the buckets.
pub mod Buckets
use kora_db.Strconv.Runes.{is_utf8}
use kora_db.Base.{
  Bool, true, false, All, ◌||◌, Bytes, text, List, [], ◌∷◌, ◌++◌, Option, none, some, Error, Result,
  ok, err, bytes_equal, ◌≡◌, refl, ap, ◌∙◌, ◌>>=◌,
}

-- KeyKind
pub data KeyKind : Type 0 where
  auto by_field : KeyKind

pub record CollectionMeta : Type 0 where
  pub name : Bytes
  pub message_type : Bytes
  pub key_kind : KeyKind
  pub key_field : Bytes
  pub indexes : List Bytes

-- collectionsBucket and dataBucket
unfoldable pub collections_bucket : Bytes
collections_bucket = text "__collections__"

unfoldable pub data_bucket : Bytes → Bytes
data_bucket coll = text "data:" ++ coll

unfoldable pub has_field : List Bytes → Bytes → Bool
has_field [] field = false
has_field (f ∷ fs) field = bytes_equal f field || has_field fs field

-- CollectionMeta.HasIndex
unfoldable pub has_index : CollectionMeta → Bytes → Bool
has_index meta field = has_field meta.indexes field

-- json.Marshal and json.Unmarshal at one type of records.
pub record Codec {ℓ} (A : Type ℓ) : Type ℓ where
  pub encode : A → Result Bytes
  pub decode : Bytes → Result A

-- The strings of the metadata are UTF-8.
abbrev pub IsUtf8 : CollectionMeta → Type 0
IsUtf8 meta =
    (is_utf8 meta.name ≡ true)
    × (is_utf8 meta.message_type ≡ true)
    × (is_utf8 meta.key_field ≡ true)
    × All (λ field. is_utf8 field ≡ true) meta.indexes

-- What encoding/json says of the catalog's records: they are read back as they were written, where their
-- strings are UTF-8; other strings are not.
abbrev pub IsCatalog : Codec CollectionMeta → Type 0
IsCatalog J =
    (meta : CollectionMeta) (b : Bytes) → IsUtf8 meta → J.encode meta ≡ ok b → J.decode b ≡ ok meta

-- A nil pointer, as an error.
abbrev pub require {ℓ} : {A : Type ℓ} → Error → Option A → Result A
require e none = err e
require e (some a) = ok a

pub require-eq-ok {ℓ κ} :
    {A : Type ℓ} {C : Type κ} (e : Error) (o : Option A) {f : A → Result C} {c : C}
    → (require e o >>= f) ≡ ok c
    → (a : A) × (o ≡ some a) × (f a ≡ ok c)
require-eq-ok e none h = absurd (cc)
require-eq-ok e (some a) h = (a, refl, h)

pub require-ok {ℓ κ} :
    {A : Type ℓ} {C : Type κ} (e : Error) {o : Option A} {a : A} (f : A → Result C) {c : C}
    → o ≡ some a
    → f a ≡ ok c
    → (require e o >>= f) ≡ ok c
require-ok e f h k = ap (λ x. require e x >>= f) h ∙ k
