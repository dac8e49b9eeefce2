-- ===== src/Engine/Keys/RoundTrip.antt =====
-- Ids and storage keys: what one conversion makes, the other takes back.
use kora_db.Base.{
  ℕ, ◌<◌, ◌^◌, ◌≡◌, refl, sym, ap, true, false, Bytes, Option, Result, ok, arith, length,
  Result-cases, Bool-cases, bytes_equal, bytes_equal_iff, inl, inr, ok-injective, ◌==◌,
}
use kora_db.Base.Int.{ℤ}
use kora_db.Strconv.{
  BitSize, bits_32, bits_64, bits, IsInt, IsUint, parse_uint, parse_int, parse_bool, format_uint,
  format_int, format_bool, big_endian, from_big_endian, to_uint64,
}
use kora_db.Strconv.Decimal.{
  parse_uint-format_uint, parse_int-format_int, parse_bool-format_bool, parse_uint-IsUint,
  parse_int-IsInt,
}
use kora_db.Strconv.BigEndian.{
  length-big_endian, big_endian_inj, from_big_endian-big_endian, to_int64-to_uint64, to_uint64-lt,
}
use kora_db.Storage.{Bolt, next_sequence}
use kora_db.Storage.Laws.{IsBolt, next_sequence-value}
use kora_db.Proto.{
  Proto, KindClass, string_class, bool_class, int_class, uint_class, float_class, other_class,
  class_of,
}
use kora_db.Engine.Meta.{KeyKind, auto, by_field, CollectionMeta, data_bucket}
use kora_db.Engine.Keys.{
  encode_uint, encode_key_class, id_class, encode_key_of, id_of, derive_key_of, key_field_of,
  encode_key, id_from_storage_key, derive_key,
}

length-encode_uint : (n : ℕ) → length (encode_uint n) == 8 ≡ true
unfolding encode_uint
length-encode_uint n = ground (arith, length-big_endian 8 n)

from_encode_uint : (n : ℕ) → n < 2 ^ 64 → from_big_endian 0 (encode_uint n) ≡ n
unfolding encode_uint
from_encode_uint n h = from_big_endian-big_endian 8 n h

-- Different numbers have different keys.
pub encode_uint-ne :
    (n m : ℕ) → n < m → m < 2 ^ 64 → bytes_equal (encode_uint n) (encode_uint m) ≡ false
unfolding encode_uint
encode_uint-ne n m h k = elim (Bool-cases (bytes_equal (big_endian 8 n) (big_endian 8 m))) [
  | inl same ↦
      let e : n ≡ m =
        big_endian_inj 8 n m (omega arith) (omega arith) ((bytes_equal_iff _ _).0 same) in
      absurd (omega arith)
  | inr other ↦ other
]

IsInt-64 : (b : BitSize) (z : ℤ) → IsInt b z → IsInt bits_64 z
IsInt-64 bits_32 z h = ground arith
IsInt-64 bits_64 z h = h

IsUint-64 : (b : BitSize) (n : ℕ) → IsUint b n → n < 2 ^ 64
IsUint-64 bits_32 n h = omega arith
IsUint-64 bits_64 n h = h

-- The id of a key that `encode_key_class` made, which makes that key again.
abbrev CanonicalId : (Bytes → Result Bytes) → (Bytes → Result Bytes) → Bytes → Type 0
CanonicalId to_id to_key key = (id : Bytes) × (to_id key ≡ ok id) × (to_key id ≡ ok key)

uint_key :
    (b : BitSize) (name id : Bytes) (n : ℕ)
    → parse_uint (bits b) id ≡ ok n
    → CanonicalId
        (id_class name (uint_class b))
        (encode_key_class name (uint_class b))
        (encode_uint n)
unfolding id_class encode_key_class
uint_key b name id n h =
    let small : IsUint b n = parse_uint-IsUint b n id h in
    let wide : n < 2 ^ 64 = IsUint-64 b n small in
    (
      format_uint n,
      ground (arith, length-encode_uint n, from_encode_uint n wide),
      rw (parse_uint-format_uint (bits b) n wide small),
    )

int_key :
    (b : BitSize) (name id : Bytes) (z : ℤ)
    → parse_int (bits b) id ≡ ok z
    → CanonicalId
        (id_class name (int_class b))
        (encode_key_class name (int_class b))
        (encode_uint (to_uint64 z))
unfolding id_class encode_key_class
int_key b name id z h =
    let small : IsInt b z = parse_int-IsInt b z id h in
    let wide : IsInt bits_64 z = IsInt-64 b z small in
    (
      format_int z,
      ground (
        arith,
        length-encode_uint (to_uint64 z),
        from_encode_uint (to_uint64 z) (to_uint64-lt z wide),
        to_int64-to_uint64 z wide,
      ),
      rw (parse_int-format_int b z small),
    )

-- A key that the switch of encodeKey made has an id in the switch of IDFromStorageKey.
class_key :
    (name : Bytes) (c : KindClass) (id key : Bytes)
    → encode_key_class name c id ≡ ok key
    → CanonicalId (id_class name c) (encode_key_class name c) key
unfolding encode_key_class id_class
class_key name string_class id key h = (id, sym h, h)
class_key name bool_class id key h = elim (Result-cases (parse_bool id)) [
  | inl (b, e) ↦
      let same : format_bool b ≡ key = ok-injective (rw e at h) in
      (format_bool b, ap ok (sym same), rw (parse_bool-format_bool b) (ap ok same))
  | inr (x, e) ↦ absurd (cc (rw e at h))
]
class_key name (int_class b) id key h = elim (Result-cases (parse_int (bits b) id)) [
  | inl (z, e) ↦
      let same : encode_uint (to_uint64 z) ≡ key = ok-injective (rw e at h) in
      rw (← same) (int_key b name id z e)
  | inr (x, e) ↦ absurd (cc (rw e at h))
]
class_key name (uint_class b) id key h = elim (Result-cases (parse_uint (bits b) id)) [
  | inl (n, e) ↦
      let same : encode_uint n ≡ key = ok-injective (rw e at h) in
      rw (← same) (uint_key b name id n e)
  | inr (x, e) ↦ absurd (cc (rw e at h))
]
class_key name (float_class b) id key h = absurd (cc)
class_key name other_class id key h = absurd (cc)

module _ (P : Proto) (files : Option P.Files) where
  kind_key :
      (kind : KeyKind) (meta : CollectionMeta) (id key : Bytes)
      → encode_key_of P files kind meta id ≡ ok key
      → CanonicalId (id_of P files kind meta) (encode_key_of P files kind meta) key
  unfolding encode_key id_from_storage_key
  kind_key auto meta id key h = class_key meta.key_field (uint_class bits_64) id key h
  kind_key by_field meta id key h = elim (Result-cases (key_field_of P files meta)) [
    | inl (fd, e) ↦ rw e (class_key meta.key_field (class_of fd.kind) id key (rw e at h))
    | inr (x, e) ↦ absurd (cc (rw e at h))
  ]

  -- Every key that an id encodes to has a canonical id, which encodes to that key again: the ids in
  -- query results can be handed to Get, Update and Delete.
  pub id_from_storage_key-encode_key :
      (meta : CollectionMeta) (id key : Bytes)
      → encode_key P files meta id ≡ ok key
      → (id' : Bytes) × (id_from_storage_key P files meta key ≡ ok id')
        × (encode_key P files meta id' ≡ ok key)
  unfolding encode_key id_from_storage_key
  id_from_storage_key-encode_key meta id key h = kind_key meta.key_kind meta id key h

  module _ (B : Bolt) (L : IsBolt B) where
    kind_derived :
        (kind : KeyKind) (meta : CollectionMeta) (t t' : B.Tx) (msg : P.Message) (key id : Bytes)
        → kind ≡ meta.key_kind
        → derive_key_of P files kind B t meta msg ≡ ok ((key, id), t')
        → encode_key_of P files kind meta id ≡ ok key
    unfolding derive_key encode_key
    kind_derived auto meta t t' msg key id q h =
        elim (Result-cases (next_sequence B t (data_bucket meta.name))) [
          | inl ((n, u), e) ↦
              let (_, wide) = next_sequence-value B L t u (data_bucket meta.name) n e in
              ground (arith, rw e at h, parse_uint-format_uint 64 n wide wide)
          | inr (x, e) ↦ absurd (cc (rw e at h))
        ]
    kind_derived by_field meta t t' msg key id q h = ground arith

    -- The id that a new document gets encodes to the key under which it is stored.
    pub encode_key-derive_key :
        (meta : CollectionMeta) (t t' : B.Tx) (msg : P.Message) (key id : Bytes)
        → derive_key P files B t meta msg ≡ ok ((key, id), t')
        → encode_key P files meta id ≡ ok key
    unfolding derive_key encode_key
    encode_key-derive_key meta t t' msg key id h =
        kind_derived meta.key_kind meta t t' msg key id refl h
