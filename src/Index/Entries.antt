-- ===== src/Index/Entries.antt =====
-- Which entries a lookup selects, and the primary keys that it recovers from them.
use kora_db.Base.{
  suc, ◌+◌, ◌<◌, ◌≡◌, refl, sym, ◌∙◌, ◌&&◌, true, false, Bytes, [], ◌∷◌, ◌++◌, ok, arith, length,
  length-append, drop, All, bytes_equal, bytes_equal_iff, has_prefix, has_prefix-append,
}
use kora_db.Strconv.BigEndian.{length-big_endian}
use kora_db.Proto.{
  KindClass, string_class, bool_class, int_class, uint_class, float_class, other_class, class_of,
  FieldDescriptor, Value, string, bool, int, uint,
}
use kora_db.Index.{
  entry_key, lookup_prefix, primary_key_from_entry, encode_value, encode_class, flip_sign,
}
use kora_db.Strconv.{to_uint64}
use mathlib.Core.List.{append_assoc}

-- An encoding that the separator marks off: a string without the byte 0, or a fixed width.
abbrev pub IsSeparable : KindClass → Bytes → Type 0
IsSeparable string_class e = All (λ b. 0 < b) e
IsSeparable bool_class e = length e ≡ 1
IsSeparable (int_class b) e = length e ≡ 8
IsSeparable (uint_class b) e = length e ≡ 8
IsSeparable _ e = ⊥

drop_entry : (e p : Bytes) → drop (length e + 1) (e ++ 0 ∷ p) ≡ p
drop_entry [] p = refl
drop_entry (a ∷ e) p =
    let h : suc (length e) + 1 ≡ suc (length e + 1) = omega arith in rw h (drop_entry e p)

-- The primary key comes back from the entry that it was put into.
pub primary_key_from_entry-entry_key :
    (e p : Bytes) → primary_key_from_entry (entry_key e p) (length e) ≡ p
unfolding primary_key_from_entry entry_key
primary_key_from_entry-entry_key e p = ground (arith, length-append e (0 ∷ p), drop_entry e p)

prefix_of_length :
    (e e' p : Bytes)
    → length e ≡ length e'
    → has_prefix (e ++ 0 ∷ p) (e' ++ 0 ∷ []) ≡ bytes_equal e e'
unfolding has_prefix bytes_equal
prefix_of_length [] [] p h = refl
prefix_of_length [] (b ∷ e') p h = absurd (omega arith)
prefix_of_length (a ∷ e) [] p h = absurd (omega arith)
prefix_of_length (a ∷ e) (b ∷ e') p h = ground (arith, prefix_of_length e e' p (omega arith))

prefix_of_positive :
    (e e' p : Bytes)
    → All (λ b. 0 < b) e
    → All (λ b. 0 < b) e'
    → has_prefix (e ++ 0 ∷ p) (e' ++ 0 ∷ []) ≡ bytes_equal e e'
unfolding has_prefix bytes_equal
prefix_of_positive [] [] p h h' = refl
prefix_of_positive [] (b ∷ e') p h h' = ground arith
prefix_of_positive (a ∷ e) [] p h h' = ground arith
prefix_of_positive (a ∷ e) (b ∷ e') p h h' = ground (arith, prefix_of_positive e e' p h.1 h'.1)

-- Where the encoded values are separable, an entry has the lookup prefix of a value if and only if it
-- is an entry of that value.
pub has_prefix-entry_key :
    (c : KindClass) (e e' p : Bytes)
    → IsSeparable c e
    → IsSeparable c e'
    → has_prefix (entry_key e p) (lookup_prefix e') ≡ bytes_equal e e'
unfolding entry_key lookup_prefix
has_prefix-entry_key string_class e e' p h h' = prefix_of_positive e e' p h h'
has_prefix-entry_key bool_class e e' p h h' = prefix_of_length e e' p (omega arith)
has_prefix-entry_key (int_class b) e e' p h h' = prefix_of_length e e' p (omega arith)
has_prefix-entry_key (uint_class b) e e' p h h' = prefix_of_length e e' p (omega arith)
has_prefix-entry_key (float_class b) e e' p h h' = elim h [ ]
has_prefix-entry_key other_class e e' p h h' = elim h [ ]

entry_key_prefix : (e p : Bytes) → has_prefix (entry_key e p) (lookup_prefix e) ≡ true
unfolding entry_key lookup_prefix
entry_key_prefix e p = ground (arith, append_assoc e (0 ∷ []) p, has_prefix-append (e ++ 0 ∷ []) p)

-- Where the encoded values are separable (strings without the byte 0, or of the fixed length of the
-- class), two entries are equal only if both the values and the primary keys are.
pub entry_key_inj :
    (c : KindClass) (e e' p p' : Bytes)
    → IsSeparable c e
    → IsSeparable c e'
    → entry_key e p ≡ entry_key e' p'
    → (e ≡ e') × (p ≡ p')
entry_key_inj c e e' p p' h h' q = (
  same,
  (sym (primary_key_from_entry-entry_key e p)
      ∙ rw (q, same) (primary_key_from_entry-entry_key e' p')),
)
  where
    same : e ≡ e'
    same =
        (bytes_equal_iff e e').0
          (sym (has_prefix-entry_key c e e' p h h') ∙ rw q (entry_key_prefix e' p'))

encode_class-IsSeparable :
    {F : Type 0} (name : Bytes) (c : KindClass) (v : Value F) (e : Bytes)
    → encode_class name c v ≡ ok e
    → (c ≡ string_class → All (λ b. 0 < b) e)
    → IsSeparable c e
unfolding encode_value
encode_class-IsSeparable name string_class v e h s = s refl
encode_class-IsSeparable name bool_class (bool true) e h s = ground arith
encode_class-IsSeparable name bool_class (bool false) e h s = ground arith
encode_class-IsSeparable name bool_class v e h s = cc
encode_class-IsSeparable name (int_class b) (int z) e h s =
    ground (arith, length-big_endian 8 (flip_sign (to_uint64 z)))
encode_class-IsSeparable name (int_class b) v e h s = cc
encode_class-IsSeparable name (uint_class b) (uint n) e h s = ground (arith, length-big_endian 8 n)
encode_class-IsSeparable name (uint_class b) v e h s = cc
encode_class-IsSeparable name (float_class b) v e h s = cc
encode_class-IsSeparable name other_class v e h s = cc

-- What EncodeValue gives for a field is separable, if it holds no byte 0 where the field is a string.
pub encode_value-IsSeparable :
    {F : Type 0} (fd : FieldDescriptor) (v : Value F) (e : Bytes)
    → encode_value fd v ≡ ok e
    → (class_of fd.kind ≡ string_class → All (λ b. 0 < b) e)
    → IsSeparable (class_of fd.kind) e
unfolding encode_value
encode_value-IsSeparable fd v e h s = encode_class-IsSeparable fd.name (class_of fd.kind) v e h s

encode_class_string :
    {F : Type 0} (name : Bytes) (c : KindClass) (v : Value F) (e : Bytes)
    → c ≡ string_class
    → encode_class name c v ≡ ok e
    → v ≡ string e
unfolding encode_value
encode_class_string name string_class v e q h = ground arith
encode_class_string name c v e q h = cc

-- The encoding of a string field is the string.
pub encode_value_string :
    {F : Type 0} (fd : FieldDescriptor) (v : Value F) (e : Bytes)
    → class_of fd.kind ≡ string_class
    → encode_value fd v ≡ ok e
    → v ≡ string e
unfolding encode_value
encode_value_string fd v e q h = encode_class_string fd.name (class_of fd.kind) v e q h

-- The test for equal entries is the test for equal values and equal primary keys.
pub entry_key_equal :
    (c : KindClass) (e e' p p' : Bytes)
    → IsSeparable c e
    → IsSeparable c e'
    → bytes_equal (entry_key e p) (entry_key e' p') ≡ (bytes_equal p p' && bytes_equal e e')
entry_key_equal c e e' p p' h h' = ground (
  arith,
  bytes_equal_iff (entry_key e p) (entry_key e' p'),
  bytes_equal_iff p p',
  bytes_equal_iff e e',
  entry_key_inj c e e' p p' h h',
)
