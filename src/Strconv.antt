-- ===== src/Strconv.antt =====
-- The calls of strconv and encoding/binary that the program makes, in base 10 and big endian.
pub mod Decimal
pub mod BigEndian
pub mod Runes
use kora_db.Base.{
  ℕ, zero, suc, ◌+◌, ◌-◌, ◌*◌, ◌/◌, ◌%◌, ◌^◌, ◌<◌, Bool, true, false, ◌||◌, Bytes, text,
  bytes_equal, List, [], ◌∷◌, ◌++◌, Result, ok, err, syntax, out_of_range, ltb, leb, ◌==◌,
  if◌then◌else◌, ◌>>=◌,
}
use kora_db.Base.Int.{ℤ, pos, negsuc}

-- The two sizes of integers that the program parses.
pub data BitSize : Type 0 where
  bits_32 bits_64 : BitSize

abbrev pub bits : BitSize → ℕ
bits bits_32 = 32
bits bits_64 = 64

abbrev pub IsInt : BitSize → ℤ → Type 0
IsInt b (pos n) = n < 2 ^ (bits b - 1)
IsInt b (negsuc n) = n < 2 ^ (bits b - 1)

abbrev pub IsUint : BitSize → ℕ → Type 0
IsUint b n = n < 2 ^ bits b

-- Twenty digits are enough for a uint64.
unfoldable pub digits : ℕ → ℕ → Bytes
digits zero n = []
digits (suc f) n =
    let more = digits f (n / 10) in
    if ltb n 10 then (b'0' + n) ∷ [] else more ++ (b'0' + n % 10) ∷ []

-- strconv.FormatUint(n, 10)
unfoldable pub format_uint : ℕ → Bytes
format_uint n = digits 20 n

-- strconv.FormatInt(n, 10)
unfoldable pub format_int : ℤ → Bytes
format_int (pos n) = format_uint n
format_int (negsuc n) = b'-' ∷ format_uint (n + 1)

-- The loop of ParseUint: the first character that is no digit, or that passes the greatest value,
-- ends it.
unfoldable pub parse_digits : ℕ → ℕ → Bytes → Result ℕ
parse_digits bound n [] = ok n
parse_digits bound n (c ∷ s) =
    let n' = n * 10 + (c - b'0') in
    let rest = parse_digits bound n' s in
    if ltb c b'0' || ltb b'9' c then err syntax else if ltb n' bound then rest else err out_of_range

-- strconv.ParseUint(s, 10, bits)
unfoldable pub parse_uint : ℕ → Bytes → Result ℕ
parse_uint bits [] = err syntax
parse_uint bits (c ∷ s) = parse_digits (2 ^ bits) 0 (c ∷ s)

abbrev negate : ℕ → ℤ
negate zero = pos 0
negate (suc n) = negsuc n

-- The range test of ParseInt, with half the range of the unsigned integers.
abbrev signed : Bool → ℕ → ℕ → Result ℤ
signed true half n = if ltb half n then err out_of_range else ok (negate n)
signed false half n = if leb half n then err out_of_range else ok (pos n)

-- strconv.ParseInt(s, 10, bits)
unfoldable pub parse_int : ℕ → Bytes → Result ℤ
parse_int bits [] = err syntax
parse_int bits (c ∷ s) =
    if c == b'+'
    then (do n ← parse_uint bits s; signed false (2 ^ (bits - 1)) n)
    else if c == b'-'
    then (do n ← parse_uint bits s; signed true (2 ^ (bits - 1)) n)
    else (do n ← parse_uint bits (c ∷ s); signed false (2 ^ (bits - 1)) n)

abbrev is_one_of : Bytes → List Bytes → Bool
is_one_of s [] = false
is_one_of s (t ∷ ts) = bytes_equal s t || is_one_of s ts

-- strconv.ParseBool
unfoldable pub parse_bool : Bytes → Result Bool
unfolding bytes_equal
parse_bool s =
    if is_one_of s (text "1" ∷ text "t" ∷ text "T" ∷ text "true" ∷ text "TRUE" ∷ text "True" ∷ [])
    then ok true
    else if is_one_of s
        (text "0" ∷ text "f" ∷ text "F" ∷ text "false" ∷ text "FALSE" ∷ text "False" ∷ [])
    then ok false
    else err syntax

-- strconv.FormatBool
unfoldable pub format_bool : Bool → Bytes
format_bool true = text "true"
format_bool false = text "false"

-- The `k` low bytes of a number, the greatest first: binary.BigEndian.PutUint64 for `k` = 8.
unfoldable pub big_endian : ℕ → ℕ → Bytes
big_endian zero n = []
big_endian (suc k) n = big_endian k (n / 256) ++ (n % 256) ∷ []

-- binary.BigEndian.Uint64, on the eight bytes that the callers have tested for.
unfoldable pub from_big_endian : ℕ → Bytes → ℕ
from_big_endian n [] = n
from_big_endian n (b ∷ s) = from_big_endian (n * 256 + b) s

-- uint64(n) of an int64, and int64(n) of a uint64
unfoldable pub to_uint64 : ℤ → ℕ
to_uint64 (pos n) = n
to_uint64 (negsuc n) = 2 ^ 64 - 1 - n

unfoldable pub to_int64 : ℕ → ℤ
to_int64 n = if ltb n (2 ^ 63) then pos n else negsuc (2 ^ 64 - 1 - n)
