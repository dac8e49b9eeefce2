-- ===== src/Strconv/BigEndian.antt =====
-- The big-endian bytes keep the order of the numbers, and give them back.
use kora_db.Base.{
  ℕ, zero, suc, ◌+◌, ◌*◌, ◌/◌, ◌%◌, ◌^◌, ◌<◌, ◌≡◌, refl, sym, ◌∙◌, ap, Bytes, IsByte, [], ◌∷◌, ◌++◌,
  arith, length, length-append, All, All-append, bytes_compare, Ordering, ltb, if◌then◌else◌,
}
use kora_db.Base.Int.{ℤ, pos, negsuc}
use kora_db.Strconv.{big_endian, from_big_endian, to_uint64, to_int64, IsInt, bits_64}
use native.Mathlib.Nat.{pow-suc}

pub length-big_endian : (k n : ℕ) → length (big_endian k n) ≡ k
unfolding big_endian
length-big_endian zero n = refl
length-big_endian (suc k) n =
    length-append (big_endian k (n / 256)) _ ∙ omega (arith, length-big_endian k (n / 256))

pub big_endian-IsByte : (k n : ℕ) → All IsByte (big_endian k n)
unfolding big_endian
big_endian-IsByte zero n = tt
big_endian-IsByte (suc k) n =
    All-append IsByte (big_endian k (n / 256)) _ (big_endian-IsByte k (n / 256)) (omega arith, tt)

from_big_endian-append :
    (s t : Bytes) (n : ℕ) → from_big_endian n (s ++ t) ≡ from_big_endian (from_big_endian n s) t
unfolding from_big_endian
from_big_endian-append [] t n = refl
from_big_endian-append (b ∷ s) t n = from_big_endian-append s t (n * 256 + b)

-- Uint64 reads back what PutUint64 wrote.
pub from_big_endian-big_endian : (k n : ℕ) → n < 256 ^ k → from_big_endian 0 (big_endian k n) ≡ n
unfolding big_endian from_big_endian
from_big_endian-big_endian zero n h = omega arith
from_big_endian-big_endian (suc k) n h =
    from_big_endian-append (big_endian k (n / 256)) _ 0
    ∙ omega (arith, from_big_endian-big_endian k (n / 256) (omega (arith, pow-suc 256 k)))

-- The order of two numbers by their leading parts, and then by what follows.
abbrev then_by : Ordering → Ordering → Ordering
then_by Ordering.lt o = Ordering.lt
then_by Ordering.eq o = o
then_by Ordering.gt o = Ordering.gt

abbrev pub order : ℕ → ℕ → Ordering
order a b = if ltb a b then Ordering.lt else if ltb b a then Ordering.gt else Ordering.eq

bytes_compare-append :
    (s t : Bytes) (a b : ℕ)
    → length s ≡ length t
    → bytes_compare (s ++ a ∷ []) (t ++ b ∷ []) ≡ then_by (bytes_compare s t) (order a b)
unfolding bytes_compare
bytes_compare-append [] [] a b h = refl
bytes_compare-append [] (y ∷ t) a b h = absurd (omega arith)
bytes_compare-append (x ∷ s) [] a b h = absurd (omega arith)
bytes_compare-append (x ∷ s) (y ∷ t) a b h =
    ground (arith, bytes_compare-append s t a b (omega arith))

order_split :
    (n m : ℕ) → then_by (order (n / 256) (m / 256)) (order (n % 256) (m % 256)) ≡ order n m
order_split n m = ground arith

-- Byte strings of one length compare as the numbers that they stand for.
pub bytes_compare-big_endian :
    (k n m : ℕ)
    → n < 256 ^ k
    → m < 256 ^ k
    → bytes_compare (big_endian k n) (big_endian k m) ≡ order n m
unfolding big_endian
bytes_compare-big_endian zero n m h j = unfold bytes_compare in ground arith
bytes_compare-big_endian (suc k) n m h j =
    bytes_compare-append (big_endian k (n / 256)) (big_endian k (m / 256)) (n % 256) (m % 256)
      (length-big_endian k (n / 256) ∙ sym (length-big_endian k (m / 256)))
    ∙ rw
        (bytes_compare-big_endian k (n / 256) (m / 256) (omega (arith, pow-suc 256 k))
          (omega (arith, pow-suc 256 k)))
        (order_split n m)

pub big_endian_inj :
    (k n m : ℕ) → n < 256 ^ k → m < 256 ^ k → big_endian k n ≡ big_endian k m → n ≡ m
big_endian_inj k n m h j e =
    sym (from_big_endian-big_endian k n h)
    ∙ ap (from_big_endian 0) e
    ∙ from_big_endian-big_endian k m j

pub to_int64-to_uint64 : (z : ℤ) → IsInt bits_64 z → to_int64 (to_uint64 z) ≡ z
unfolding to_int64 to_uint64
to_int64-to_uint64 (pos n) h = ground arith
to_int64-to_uint64 (negsuc n) h = ground arith

pub to_uint64-lt : (z : ℤ) → IsInt bits_64 z → to_uint64 z < 2 ^ 64
unfolding to_uint64
to_uint64-lt (pos n) h = omega arith
to_uint64-lt (negsuc n) h = omega arith
