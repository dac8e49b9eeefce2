-- ===== src/Engine/Values/Order.antt =====
-- The byte order of index values is the order in which CompareValues puts the fields' values.
use kora_db.Base.{
  ℕ, ◌+◌, ◌<◌, ◌^◌, ◌≡◌, refl, sym, ap, ◌∙◌, Bool, true, false, Bytes, [], ◌∷◌, ok, arith, ◌-◌,
  bytes_compare, if◌then◌else◌, ok-injective, if◌then◌else◌,
}
use kora_db.Base.Int.{ℤ, pos, negsuc}
use kora_db.Strconv.{BitSize, bits_32, bits_64, IsInt, IsUint, big_endian, to_uint64}
use kora_db.Strconv.BigEndian.{order, bytes_compare-big_endian}
use kora_db.Proto.{
  Proto, KindClass, string_class, bool_class, int_class, uint_class, class_of, FieldDescriptor,
  Value, string, bool, int, uint, HasClass, as_string, as_bool, as_int, as_uint,
}
use kora_db.Index.{encode_value, encode_class, flip_sign}
use kora_db.Engine.Values.{compare_values, compare_class, cmp_uint64, cmp_int64, bool_to_int}

order-cmp_uint64 : (n m : ℕ) → cmp_uint64 n m ≡ order n m
unfolding cmp_uint64
order-cmp_uint64 n m = refl

-- The value that EncodeValue writes for an integer: 2 ^ 63 more.
shifted : ℤ → ℕ
shifted (pos n) = n + 2 ^ 63
shifted (negsuc n) = 2 ^ 63 - 1 - n

flip_sign-to_uint64 : (z : ℤ) → IsInt bits_64 z → flip_sign (to_uint64 z) ≡ shifted z
unfolding flip_sign to_uint64 shifted
flip_sign-to_uint64 (pos n) h = omega arith
flip_sign-to_uint64 (negsuc n) h = omega arith

shifted-lt : (z : ℤ) → IsInt bits_64 z → shifted z < 2 ^ 64
unfolding shifted
shifted-lt (pos n) h = omega arith
shifted-lt (negsuc n) h = omega arith

order-shifted :
    (x y : ℤ) → IsInt bits_64 x → IsInt bits_64 y → order (shifted x) (shifted y) ≡ cmp_int64 x y
unfolding cmp_int64 shifted
order-shifted (pos n) (pos m) h j = ground arith
order-shifted (pos n) (negsuc m) h j = ground arith
order-shifted (negsuc n) (pos m) h j = ground arith
order-shifted (negsuc n) (negsuc m) h j = ground arith

IsInt-widen : (b : BitSize) (z : ℤ) → IsInt b z → IsInt bits_64 z
IsInt-widen bits_32 (pos n) h = omega arith
IsInt-widen bits_32 (negsuc n) h = omega arith
IsInt-widen bits_64 z h = h

IsUint-widen : (b : BitSize) (n : ℕ) → IsUint b n → n < 256 ^ 8
IsUint-widen bits_32 n h = omega arith
IsUint-widen bits_64 n h = omega arith

int_order :
    (x y : ℤ)
    → IsInt bits_64 x
    → IsInt bits_64 y
    → bytes_compare
        (big_endian 8 (flip_sign (to_uint64 x)))
        (big_endian 8 (flip_sign (to_uint64 y)))
      ≡ cmp_int64 x y
int_order x y h j =
    rw (flip_sign-to_uint64 x h, flip_sign-to_uint64 y j)
      (bytes_compare-big_endian 8 (shifted x) (shifted y) (omega (arith, shifted-lt x h))
          (omega (arith, shifted-lt y j))
        ∙ order-shifted x y h j)

bool_order :
    (s t : Bool)
    → bytes_compare (if s then 1 ∷ [] else 0 ∷ []) (if t then 1 ∷ [] else 0 ∷ [])
      ≡ cmp_uint64 (bool_to_int s) (bool_to_int t)
unfolding bytes_compare cmp_uint64 bool_to_int
bool_order true true = refl
bool_order true false = refl
bool_order false true = refl
bool_order false false = refl

module _ (P : Proto) where
  class_order :
      (name : Bytes) (c : KindClass) (a b : Value P.Float) (e e' : Bytes)
      → HasClass c a
      → HasClass c b
      → encode_class name c a ≡ ok e
      → encode_class name c b ≡ ok e'
      → compare_class P c a b ≡ ok (bytes_compare e e')
  unfolding encode_value compare_values as_string as_bool as_int as_uint
  class_order name string_class (string s) (string t) e e' h j p q = cc
  class_order name bool_class (bool s) (bool t) e e' h j p q =
      rw (← ok-injective p, ← ok-injective q) (ap ok (sym (bool_order s t)))
  class_order name (int_class w) (int x) (int y) e e' h j p q =
      rw (← ok-injective p, ← ok-injective q)
        (ap ok (sym (int_order x y (IsInt-widen w x h) (IsInt-widen w y j))))
  class_order name (uint_class w) (uint n) (uint m) e e' h j p q =
      rw (← ok-injective p, ← ok-injective q)
        (ap ok (
          order-cmp_uint64 n m
          ∙ sym (bytes_compare-big_endian 8 n m (IsUint-widen w n h) (IsUint-widen w m j))))
  class_order name _ a b e e' h j p q = absurd (cc)

  -- Two values of a field's type that EncodeValue can encode are in the order of CompareValues in which
  -- bytes.Compare puts their encodings.
  pub compare_values-encode_value :
      (fd : FieldDescriptor) (a b : Value P.Float) (e e' : Bytes)
      → HasClass (class_of fd.kind) a
      → HasClass (class_of fd.kind) b
      → encode_value fd a ≡ ok e
      → encode_value fd b ≡ ok e'
      → compare_values P fd a b ≡ ok (bytes_compare e e')
  unfolding encode_value compare_values
  compare_values-encode_value fd a b e e' h j p q =
      class_order fd.name (class_of fd.kind) a b e e' h j p q
