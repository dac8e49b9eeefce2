-- ===== src/Strconv/Decimal.antt =====
-- What the decimal functions print, they parse.
use kora_db.Base.{
  ℕ, zero, suc, ◌+◌, ◌*◌, ◌/◌, ◌%◌, ◌^◌, ◌<◌, ◌≤◌, ◌≡◌, refl, ◌∙◌, ap, Bool, true, false, Bytes, [],
  ◌∷◌, ◌++◌, ok, arith, Bool-cases, inl, inr, ltb, ◌-◌, Result, err, ◌>>=◌, ◌==◌,
}
use kora_db.Base.Int.{ℤ, pos, negsuc}
use kora_db.Strconv.{
  digits, format_uint, format_int, parse_digits, parse_uint, parse_int, parse_bool, format_bool,
  BitSize, bits_32, bits_64, bits, IsInt, IsUint, signed,
}
use mathlib.Core.List.{append-nil, append_assoc}
use native.Mathlib.Nat.{pow-suc}

parse_digits-digit :
    (bound m d n : ℕ) (rest : Bytes)
    → d < 10
    → n ≡ m * 10 + d
    → n < bound
    → parse_digits bound m ((b'0' + d) ∷ rest) ≡ parse_digits bound n rest
unfolding parse_digits
parse_digits-digit bound m d n rest h e k =
    let e' : m * 10 + (b'0' + d - b'0') ≡ n = omega arith in rw e' (ground arith)

parse_digits-digits :
    (f n bound : ℕ) (rest : Bytes)
    → n < 10 ^ f
    → n < bound
    → 0 < f
    → parse_digits bound 0 (digits f n ++ rest) ≡ parse_digits bound n rest
unfolding digits
parse_digits-digits zero n bound rest h k p = elim p [ ]
parse_digits-digits (suc zero) n bound rest h k p =
    let e : ltb n 10 ≡ true = ground arith in
    rw e (parse_digits-digit bound 0 n n rest (omega arith) (omega arith) k)
parse_digits-digits (suc (suc f)) n bound rest h k p = elim (Bool-cases (ltb n 10)) [
  | inl small ↦ rw small (parse_digits-digit bound 0 n n rest (ground arith) (omega arith) k)
  | inr large ↦ rw large (
      rw append_assoc (
        parse_digits-digits (suc f) (n / 10) bound ((b'0' + n % 10) ∷ rest)
          (omega (arith, pow-suc 10 (suc f))) (omega arith) (omega arith)
        ∙ parse_digits-digit bound (n / 10) (n % 10) n rest (omega arith) (omega arith) k))
]

-- The first character of a decimal is a digit.
abbrev HeadIsDigit : Bytes → Type 0
HeadIsDigit [] = ⊥
HeadIsDigit (c ∷ s) = (b'0' ≤ c) × (c ≤ b'9')

HeadIsDigit-append : (s t : Bytes) → HeadIsDigit s → HeadIsDigit (s ++ t)
HeadIsDigit-append [] t h = elim h [ ]
HeadIsDigit-append (c ∷ s) t h = h

digits-HeadIsDigit : (f n : ℕ) → HeadIsDigit (digits (suc f) n)
unfolding digits
digits-HeadIsDigit zero n = ground arith
digits-HeadIsDigit (suc f) n = elim (Bool-cases (ltb n 10)) [
  | inl small ↦ rw small (ground arith)
  | inr large ↦ rw large (HeadIsDigit-append _ _ (digits-HeadIsDigit f (n / 10)))
]

parse_uint-HeadIsDigit :
    (bits : ℕ) (s : Bytes) → HeadIsDigit s → parse_uint bits s ≡ parse_digits (2 ^ bits) 0 s
unfolding parse_uint
parse_uint-HeadIsDigit bits [] h = elim h [ ]
parse_uint-HeadIsDigit bits (c ∷ s) h = refl

parse_uint_step : (bits n : ℕ) → n < 2 ^ 64 → n < 2 ^ bits → parse_uint bits (digits 20 n) ≡ ok n
unfolding parse_digits
parse_uint_step bits n h k =
    rw (parse_uint-HeadIsDigit bits _ (digits-HeadIsDigit 19 n))
      (rw append-nil at (parse_digits-digits 20 n (2 ^ bits) [] (omega arith) k (omega arith)))

-- ParseUint reads back what FormatUint printed, in any width that holds the number.
pub parse_uint-format_uint :
    (bits n : ℕ) → n < 2 ^ 64 → n < 2 ^ bits → parse_uint bits (format_uint n) ≡ ok n
unfolding format_uint
parse_uint-format_uint bits n h k = parse_uint_step bits n h k

parse_int_digit :
    (bits : ℕ) (s : Bytes) (n : ℕ)
    → HeadIsDigit s
    → parse_uint bits s ≡ ok n
    → n < 2 ^ (bits - 1)
    → parse_int bits s ≡ ok (pos n)
unfolding parse_int
parse_int_digit bits [] n h e k = elim h [ ]
parse_int_digit bits (c ∷ s) n h e k = ground arith

parse_int-minus :
    (bits n : ℕ) (s : Bytes)
    → parse_uint bits s ≡ ok (n + 1)
    → n < 2 ^ (bits - 1)
    → parse_int bits (b'-' ∷ s) ≡ ok (negsuc n)
unfolding parse_int
parse_int-minus bits n s e k =
    let e' : parse_uint bits s ≡ ok (suc n) = rw e (ap ok (omega arith)) in rw e' (ground arith)

-- ParseInt reads back what FormatInt printed, in a width that holds the integer.
pub parse_int-format_int :
    (b : BitSize) (z : ℤ) → IsInt b z → parse_int (bits b) (format_int z) ≡ ok z
unfolding format_int format_uint
parse_int-format_int bits_32 (pos n) h =
    parse_int_digit 32 _ n (digits-HeadIsDigit 19 n)
      (parse_uint_step 32 n (omega arith) (omega arith)) h
parse_int-format_int bits_64 (pos n) h =
    parse_int_digit 64 _ n (digits-HeadIsDigit 19 n)
      (parse_uint_step 64 n (omega arith) (omega arith)) h
parse_int-format_int bits_32 (negsuc n) h =
    parse_int-minus 32 n _ (parse_uint_step 32 (n + 1) (omega arith) (omega arith)) h
parse_int-format_int bits_64 (negsuc n) h =
    parse_int-minus 64 n _ (parse_uint_step 64 (n + 1) (omega arith) (omega arith)) h

pub parse_bool-format_bool : (b : Bool) → parse_bool (format_bool b) ≡ ok b
unfolding parse_bool format_bool
parse_bool-format_bool true = refl
parse_bool-format_bool false = refl

parse_digits-lt :
    (bound n m : ℕ) (s : Bytes) → parse_digits bound n s ≡ ok m → n < bound → m < bound
unfolding parse_digits
parse_digits-lt bound n m [] h k = ground arith
parse_digits-lt bound n m (c ∷ s) h k =
    ground (arith, parse_digits-lt bound (n * 10 + (c - b'0')) m s)

-- What ParseUint accepts is in the range of its width.
pub parse_uint-IsUint :
    (b : BitSize) (n : ℕ) (s : Bytes) → parse_uint (bits b) s ≡ ok n → IsUint b n
unfolding parse_uint
parse_uint-IsUint b n [] h = cc
parse_uint-IsUint bits_32 n (c ∷ s) h = parse_digits-lt _ 0 n (c ∷ s) h (omega arith)
parse_uint-IsUint bits_64 n (c ∷ s) h = parse_digits-lt _ 0 n (c ∷ s) h (omega arith)

signed-IsInt :
    (minus : Bool) (b : BitSize) (n : ℕ) (z : ℤ)
    → signed minus (2 ^ (bits b - 1)) n ≡ ok z
    → IsInt b z
signed-IsInt true bits_32 zero z h = ground arith
signed-IsInt true bits_32 (suc n) z h = ground arith
signed-IsInt true bits_64 zero z h = ground arith
signed-IsInt true bits_64 (suc n) z h = ground arith
signed-IsInt false bits_32 n z h = ground arith
signed-IsInt false bits_64 n z h = ground arith

signed_bind_IsInt :
    (minus : Bool) (b : BitSize) (r : Result ℕ) (z : ℤ)
    → (r >>= λ n. signed minus (2 ^ (bits b - 1)) n) ≡ ok z
    → IsInt b z
signed_bind_IsInt minus b (ok n) z h = signed-IsInt minus b n z h
signed_bind_IsInt minus b (err e) z h = cc

-- What ParseInt accepts is in the range of its width.
pub parse_int-IsInt : (b : BitSize) (z : ℤ) (s : Bytes) → parse_int (bits b) s ≡ ok z → IsInt b z
unfolding parse_int
parse_int-IsInt b z [] h = cc
parse_int-IsInt b z (c ∷ s) h = elim (Bool-cases (c == b'+')) [
  | inl plus ↦ signed_bind_IsInt false b (parse_uint (bits b) s) z (rw plus at h)
  | inr e ↦ elim (Bool-cases (c == b'-')) [
    | inl minus ↦ signed_bind_IsInt true b (parse_uint (bits b) s) z (rw (e, minus) at h)
    | inr e' ↦ signed_bind_IsInt false b (parse_uint (bits b) (c ∷ s)) z (rw (e, e') at h)
  ]
]
