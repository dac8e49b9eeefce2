-- ===== src/Tests/Pack.antt =====
-- Encoders in the place of encoding/json, for the tests: lists of texts, each behind its length. They show
-- that the laws that the theorems ask of JSON can hold, and model no code of the repository.
use kora_db.Base.{
  ℕ, zero, suc, ◌≡◌, refl, Bytes, List, [], ◌∷◌, ◌++◌, Result, ok, err, syntax, length, take, drop,
  take-append, drop-append, ok-injective,
}
use kora_db.Engine.Meta.{CollectionMeta, KeyKind, auto, by_field, Codec}
use kora_db.Query.Page.{PageCursor}

abbrev pack : List Bytes → Bytes
pack [] = []
pack (s ∷ ss) = length s ∷ (s ++ pack ss)

-- The first texts, of as many as the number says.
abbrev unpack : ℕ → Bytes → List Bytes
unpack zero b = []
unpack (suc n) [] = []
unpack (suc n) (k ∷ b) = take k b ∷ unpack n (drop k b)

unpack-pack : (ss : List Bytes) → unpack (length ss) (pack ss) ≡ ss
unpack-pack [] = refl
unpack-pack (s ∷ ss) = rw (take-append s (pack ss), drop-append s (pack ss), unpack-pack ss) refl

abbrev kind_number : KeyKind → ℕ
kind_number auto = 0
kind_number by_field = 1

abbrev kind_of : ℕ → KeyKind
kind_of zero = auto
kind_of (suc n) = by_field

kind_of-kind_number : (k : KeyKind) → kind_of (kind_number k) ≡ k
kind_of-kind_number auto = refl
kind_of-kind_number by_field = refl

abbrev meta_bytes : CollectionMeta → Bytes
meta_bytes m =
    kind_number m.key_kind
    ∷ length m.indexes
    ∷ pack (m.name ∷ m.message_type ∷ m.key_field ∷ m.indexes)

abbrev meta_of : KeyKind → List Bytes → Result CollectionMeta
meta_of k (n ∷ t ∷ f ∷ is) =
    ok (record { name = n; message_type = t; key_kind = k; key_field = f; indexes = is })
meta_of k _ = err syntax

abbrev decode_meta : Bytes → Result CollectionMeta
decode_meta (k ∷ n ∷ b) = meta_of (kind_of k) (unpack (suc (suc (suc n))) b)
decode_meta _ = err syntax

abbrev pub catalog : Codec CollectionMeta
catalog = record { encode = λ m. ok (meta_bytes m); decode = decode_meta }

pub decode-encode-catalog :
    (m : CollectionMeta) (b : Bytes) → catalog.encode m ≡ ok b → catalog.decode b ≡ ok m
decode-encode-catalog m b h =
    rw
      (
        ← ok-injective h,
        kind_of-kind_number m.key_kind,
        unpack-pack (m.name ∷ m.message_type ∷ m.key_field ∷ m.indexes),
      )
      refl

abbrev cursor_of : ℕ → List Bytes → Result PageCursor
cursor_of v (c ∷ f ∷ k ∷ []) =
    ok (record { version = v; collection = c; filter_hash = f; last_key = k })
cursor_of v _ = err syntax

abbrev decode_cursor : Bytes → Result PageCursor
decode_cursor (v ∷ b) = cursor_of v (unpack 3 b)
decode_cursor [] = err syntax

abbrev pub cursors : Codec PageCursor
cursors = record {
  encode = λ c. ok (c.version ∷ pack (c.collection ∷ c.filter_hash ∷ c.last_key ∷ []));
  decode = decode_cursor;
}

pub decode-encode-cursors :
    (c : PageCursor) (b : Bytes) → cursors.encode c ≡ ok b → cursors.decode b ≡ ok c
decode-encode-cursors c b h =
    rw (← ok-injective h, unpack-pack (c.collection ∷ c.filter_hash ∷ c.last_key ∷ [])) refl
