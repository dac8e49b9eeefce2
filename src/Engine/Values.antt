-- ===== src/Engine/Values.antt =====
-- internal/engine/values.go: ids, literals of queries and the order of values.
pub mod Order
use kora_db.Base.{
  ℕ, Bool, true, false, Bytes, Ordering, Result, ok, err, not_comparable, key_kind_unsupported,
  bytes_compare, ltb, if◌then◌else◌, ◌>>=◌,
}
use kora_db.Base.Int.{ℤ, ltb_ℤ}
use kora_db.Strconv.{bits, parse_uint, parse_int, parse_bool, format_uint, format_int, format_bool}
use kora_db.Proto.{
  Proto, KindClass, string_class, bool_class, int_class, uint_class, float_class, other_class,
  class_of, FieldDescriptor, Value, string, bool, int, uint, float, as_string, as_bool, as_int,
  as_uint, as_float,
}

module _ {F : Type 0} where
  -- idStringFromValue, by the class of the field's kind
  unfoldable pub id_string_from_value : FieldDescriptor → Value F → Result Bytes
  unfolding as_string as_bool as_int as_uint
  id_string_from_value fd v = elim (class_of fd.kind) [
    | string_class ↦ as_string v
    | bool_class ↦ do b ← as_bool v; ok (format_bool b)
    | int_class _ ↦ do z ← as_int v; ok (format_int z)
    | uint_class _ ↦ do n ← as_uint v; ok (format_uint n)
    | _ ↦ err (key_kind_unsupported fd.name)
  ]

-- boolToInt, cmpInt64 and cmpUint64; the order of Go is -1, 0 or 1 for `lt`, `eq` and `gt`.
unfoldable pub bool_to_int : Bool → ℕ
bool_to_int true = 1
bool_to_int false = 0

unfoldable pub cmp_int64 : ℤ → ℤ → Ordering
cmp_int64 a b = if ltb_ℤ a b then Ordering.lt else if ltb_ℤ b a then Ordering.gt else Ordering.eq

unfoldable pub cmp_uint64 : ℕ → ℕ → Ordering
cmp_uint64 a b = if ltb a b then Ordering.lt else if ltb b a then Ordering.gt else Ordering.eq

module _ (P : Proto) where
  unfoldable pub cmp_float64 : P.Float → P.Float → Ordering
  cmp_float64 a b =
      if P.float_less a b
      then Ordering.lt
      else if P.float_less b a
      then Ordering.gt
      else Ordering.eq

  -- scalarValueFromString
  unfoldable pub scalar_value_from_string : FieldDescriptor → Bytes → Result (Value P.Float)
  scalar_value_from_string fd s = elim (class_of fd.kind) [
    | string_class ↦ ok (string s)
    | bool_class ↦ do b ← parse_bool s; ok (bool b)
    | int_class size ↦ do z ← parse_int (bits size) s; ok (int z)
    | uint_class size ↦ do n ← parse_uint (bits size) s; ok (uint n)
    | float_class size ↦ do x ← P.parse_float size s; ok (float x)
    | other_class ↦ err (not_comparable fd.name)
  ]

  -- CompareValues, by the class of the field's kind
  unfoldable pub compare_class : KindClass → Value P.Float → Value P.Float → Result Ordering
  unfolding as_string as_bool as_int as_uint as_float
  compare_class string_class a b = do x ← as_string a; y ← as_string b; ok (bytes_compare x y)
  compare_class bool_class a b = do
    x ← as_bool a
    y ← as_bool b
    ok (cmp_uint64 (bool_to_int x) (bool_to_int y))
  compare_class (int_class _) a b = do x ← as_int a; y ← as_int b; ok (cmp_int64 x y)
  compare_class (uint_class _) a b = do x ← as_uint a; y ← as_uint b; ok (cmp_uint64 x y)
  compare_class (float_class _) a b = do x ← as_float a; y ← as_float b; ok (cmp_float64 x y)
  compare_class other_class a b = ok Ordering.eq

  unfoldable pub compare_values : FieldDescriptor → Value P.Float → Value P.Float → Result Ordering
  unfolding compare_class
  compare_values fd a b = compare_class (class_of fd.kind) a b
