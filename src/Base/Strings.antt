-- ===== src/Base/Strings.antt =====
-- Go's strings and byte slices: both are sequences of bytes, so both are lists of numbers.
-- `bytes_equal`, `bytes_compare` and `has_prefix` are bytes.Equal, bytes.Compare and
-- bytes.HasPrefix of the standard library.
use Prim.Native.Nat.{ℕ, ◌<◌, Ordering}
use Prim.Native.Char.{code}
use Prim.Native.String.{String}
use mathlib.Core.Path.{◌≡◌, refl}
use mathlib.Core.Logic.{◌↔◌}
use mathlib.Core.Bool.{Bool, true, false, ◌&&◌}
use mathlib.Core.List.{List, [], ◌∷◌, ◌++◌}
use native.Mathlib.Omega.{arith}
use kora_db.Base.Tests.{◌==◌, ltb, if◌then◌else◌}

abbrev pub Bytes : Type 0
Bytes = List ℕ

abbrev pub IsByte : ℕ → Type 0
IsByte b = b < 256

-- The bytes of an ASCII literal.
abbrev pub text : String → Bytes
text String.[] = []
text (String.◌∷◌ c s) = code c ∷ text s

unfoldable pub bytes_equal : Bytes → Bytes → Bool
bytes_equal [] [] = true
bytes_equal (a ∷ s) (b ∷ t) = a == b && bytes_equal s t
bytes_equal _ _ = false

pub bytes_equal_iff : (s t : Bytes) → (bytes_equal s t ≡ true) ↔ (s ≡ t)
unfolding bytes_equal
bytes_equal_iff [] [] = (λ h. refl, λ h. refl)
bytes_equal_iff [] (b ∷ t) = ground arith
bytes_equal_iff (a ∷ s) [] = ground arith
bytes_equal_iff (a ∷ s) (b ∷ t) = ground (arith, bytes_equal_iff s t)

pub bytes_equal_refl : (s : Bytes) → bytes_equal s s ≡ true
bytes_equal_refl s = (bytes_equal_iff s s).1 refl

pub pair_equal : (b k : Bytes) → (bytes_equal b b && bytes_equal k k) ≡ true
pair_equal b k = ground (arith, bytes_equal_refl b, bytes_equal_refl k)

unfoldable pub bytes_compare : Bytes → Bytes → Ordering
bytes_compare [] [] = Ordering.eq
bytes_compare [] (b ∷ t) = Ordering.lt
bytes_compare (a ∷ s) [] = Ordering.gt
bytes_compare (a ∷ s) (b ∷ t) =
    if ltb a b then Ordering.lt else if ltb b a then Ordering.gt else bytes_compare s t

abbrev pub bytes_less : Bytes → Bytes → Bool
bytes_less s t = elim (bytes_compare s t) [ Ordering.lt ↦ true | _ ↦ false ]

pub bytes_compare_refl : (s : Bytes) → bytes_compare s s ≡ Ordering.eq
unfolding bytes_compare
bytes_compare_refl [] = refl
bytes_compare_refl (a ∷ s) = ground (arith, bytes_compare_refl s)

pub bytes_compare_eq : (s t : Bytes) → bytes_compare s t ≡ Ordering.eq → s ≡ t
unfolding bytes_compare
bytes_compare_eq [] [] h = refl
bytes_compare_eq [] (b ∷ t) h = ground arith
bytes_compare_eq (a ∷ s) [] h = ground arith
bytes_compare_eq (a ∷ s) (b ∷ t) h = ground (arith, bytes_compare_eq s t)

abbrev flip : Ordering → Ordering
flip Ordering.lt = Ordering.gt
flip Ordering.eq = Ordering.eq
flip Ordering.gt = Ordering.lt

pub bytes_compare-flip : (s t : Bytes) → bytes_compare t s ≡ flip (bytes_compare s t)
unfolding bytes_compare
bytes_compare-flip [] [] = refl
bytes_compare-flip [] (b ∷ t) = refl
bytes_compare-flip (a ∷ s) [] = refl
bytes_compare-flip (a ∷ s) (b ∷ t) = ground (arith, bytes_compare-flip s t)

pub bytes_compare_trans :
    (s t u : Bytes)
    → bytes_compare s t ≡ Ordering.lt
    → bytes_compare t u ≡ Ordering.lt
    → bytes_compare s u ≡ Ordering.lt
unfolding bytes_compare
bytes_compare_trans [] [] u h k = ground arith
bytes_compare_trans [] (b ∷ t) [] h k = ground arith
bytes_compare_trans [] (b ∷ t) (c ∷ u) h k = refl
bytes_compare_trans (a ∷ s) [] u h k = ground arith
bytes_compare_trans (a ∷ s) (b ∷ t) [] h k = ground arith
bytes_compare_trans (a ∷ s) (b ∷ t) (c ∷ u) h k = ground (arith, bytes_compare_trans s t u)

unfoldable pub has_prefix : Bytes → Bytes → Bool
has_prefix s [] = true
has_prefix [] (p ∷ ps) = false
has_prefix (a ∷ s) (p ∷ ps) = a == p && has_prefix s ps

pub has_prefix-append : (p s : Bytes) → has_prefix (p ++ s) p ≡ true
unfolding has_prefix
has_prefix-append [] s = refl
has_prefix-append (a ∷ p) s = ground (arith, has_prefix-append p s)
