-- ===== src/Engine/Meta/Buckets.antt =====
-- The names of the buckets keep a collection's documents, its indexes and the catalog apart.
use kora_db.Base.{◌≡◌, refl, ◌∙◌, false, Bytes, text, [], ◌∷◌, ◌++◌, arith, bytes_equal}
use kora_db.Index.{bucket}
use kora_db.Engine.Meta.{collections_bucket, data_bucket}

bytes_equal-append : (p s t : Bytes) → bytes_equal (p ++ s) (p ++ t) ≡ bytes_equal s t
unfolding bytes_equal
bytes_equal-append [] s t = refl
bytes_equal-append (a ∷ p) s t = ground (arith, bytes_equal-append p s t)

-- One collection's indexes have one bucket for each field.
pub bucket_equal :
    (coll f g : Bytes) → bytes_equal (bucket coll f) (bucket coll g) ≡ bytes_equal f g
unfolding bucket
bucket_equal coll f g =
    bytes_equal-append (text "idx:") _ _
    ∙ bytes_equal-append coll (b':' ∷ f) (b':' ∷ g)
    ∙ bytes_equal-append (b':' ∷ []) f g

pub bucket-ne-data_bucket : (coll f c : Bytes) → bytes_equal (bucket coll f) (data_bucket c) ≡ false
unfolding bucket data_bucket bytes_equal
bucket-ne-data_bucket coll f c = refl

pub data_bucket-ne-bucket : (coll f c : Bytes) → bytes_equal (data_bucket c) (bucket coll f) ≡ false
unfolding bucket data_bucket bytes_equal
data_bucket-ne-bucket coll f c = refl

pub data_bucket-ne-collections :
    (c : Bytes) → bytes_equal (data_bucket c) collections_bucket ≡ false
unfolding data_bucket collections_bucket bytes_equal
data_bucket-ne-collections c = refl

pub bucket-ne-collections :
    (coll f : Bytes) → bytes_equal (bucket coll f) collections_bucket ≡ false
unfolding bucket collections_bucket bytes_equal
bucket-ne-collections coll f = refl
