-- ===== src/Strconv/Runes.antt =====
-- What the program uses of unicode/utf8, unicode and strings: UTF-8 text as a list of runes, and the
-- classes of runes.
use kora_db.Base.{
  ℕ, zero, suc, ◌+◌, ◌-◌, ◌*◌, Bool, true, false, ◌&&◌, ◌||◌, Bytes, Option, none, some, List, [],
  ◌∷◌, ltb, leb, ◌==◌, if◌then◌else◌,
}

-- The first byte of a rune: the rune itself, or the number of bytes that follow, the bounds of the next
-- one and the first bits.
pub data Lead : Type 0 where
  ascii : Lead
  lead : ℕ → ℕ → ℕ → ℕ → Lead
  invalid : Lead

abbrev lead_of : ℕ → Lead
lead_of b =
    if ltb b 128
    then ascii
    else if ltb b 194
    then invalid
    else if ltb b 224
    then lead 1 128 191 (b - 192)
    else if b == 224
    then lead 2 160 191 0
    else if b == 237
    then lead 2 128 159 13
    else if ltb b 240
    then lead 2 128 191 (b - 224)
    else if b == 240
    then lead 3 144 191 0
    else if ltb b 244
    then lead 3 128 191 (b - 240)
    else if b == 244
    then lead 3 128 143 4
    else invalid

abbrev and_rune : ℕ → Option (List ℕ) → Option (List ℕ)
and_rune r none = none
and_rune r (some rs) = some (r ∷ rs)

-- The runes of a text, with the state within one rune; `none` where the text is not UTF-8.
unfoldable pub runes_from : ℕ → ℕ → ℕ → ℕ → Bytes → Option (List ℕ)
runes_from zero low high bits [] = some []
runes_from (suc more) low high bits [] = none
runes_from zero low high bits (b ∷ s) =
    let next : ℕ → ℕ → ℕ → ℕ → Option (List ℕ) =
      λ more low' high' bits'. runes_from more low' high' bits' s in
    elim (lead_of b) [
      | ascii ↦ and_rune b (next 0 0 0 0)
      | lead more low' high' bits' ↦ next more low' high' bits'
      | invalid ↦ none
    ]
runes_from (suc more) low high bits (b ∷ s) =
    let bits' = bits * 64 + (b - 128) in
    let next : ℕ → Option (List ℕ) = λ bits''. runes_from more 128 191 bits'' s in
    if leb low b && leb b high
    then elim more [ zero ↦ and_rune bits' (next 0) | suc n ↦ next bits' ]
    else none

unfoldable pub runes : Bytes → Option (List ℕ)
runes s = runes_from 0 0 0 0 s

-- utf8.ValidString
unfoldable pub is_utf8 : Bytes → Bool
is_utf8 s = elim (runes s) [ none ↦ false | some rs ↦ true ]

-- unicode.IsSpace
abbrev pub is_space : ℕ → Bool
is_space r =
    (leb 9 r && leb r 13)
    || r == 32
    || r == 133
    || r == 160
    || r == 5760
    || (leb 8192 r && leb r 8202)
    || r == 8232
    || r == 8233
    || r == 8239
    || r == 8287
    || r == 12288

-- unicode.IsControl
abbrev pub is_control : ℕ → Bool
is_control r = ltb r 32 || (leb 127 r && leb r 159)

unfoldable pub every : (ℕ → Bool) → List ℕ → Bool
every test [] = true
every test (r ∷ rs) = test r && every test rs

-- unicode.ToLower, as far as its result is ASCII: the Latin capitals, the capital I with a dot, and the
-- sign of the kelvin.
abbrev pub to_lower : ℕ → ℕ
to_lower r =
    if leb b'A' r && leb r b'Z'
    then r + 32
    else if r == 304
    then b'i'
    else if r == 8490
    then b'k'
    else r

-- strings.TrimSpace on runes
unfoldable pub trim_left : List ℕ → List ℕ
trim_left [] = []
trim_left (r ∷ rs) = let rest = trim_left rs in if is_space r then rest else r ∷ rs

unfoldable pub trim_right : List ℕ → List ℕ
trim_right [] = []
trim_right (r ∷ rs) =
    let rest = trim_right rs in
    elim rest [ [] ↦ (if is_space r then [] else r ∷ []) | x ∷ xs ↦ r ∷ x ∷ xs ]

-- The number of bytes of the white space at the head of a text, 0 where there is none.
unfoldable pub space_width : Bytes → ℕ
space_width [] = 0
space_width (a ∷ []) = if is_space a && ltb a 128 then 1 else 0
space_width (a ∷ b ∷ []) =
    if is_space a && ltb a 128 then 1 else if a == 194 && (b == 133 || b == 160) then 2 else 0
space_width (a ∷ b ∷ c ∷ s) =
    if is_space a && ltb a 128
    then 1
    else if a == 194 && (b == 133 || b == 160)
    then 2
    else if a == 225 && b == 154 && c == 128
    then 3
    else if a == 226 && b == 128 && ((leb 128 c && leb c 138) || c == 168 || c == 169 || c == 175)
    then 3
    else if a == 226 && b == 129 && c == 159
    then 3
    else if a == 227 && b == 128 && c == 128
    then 3
    else 0

-- strings.TrimSpace on bytes: the first number is what is left of a space at the head.
unfoldable pub trim_head : ℕ → Bytes → Bytes
trim_head skip [] = []
trim_head zero (b ∷ s) =
    let next : ℕ → Bytes = λ n. trim_head n s in
    elim (space_width (b ∷ s)) [ zero ↦ b ∷ s | suc n ↦ next n ]
trim_head (suc skip) (b ∷ s) = trim_head skip s

unfoldable pub trim_tail : Bytes → Bytes
trim_tail [] = []
trim_tail (b ∷ s) =
    let rest = trim_tail s in elim (trim_head 0 (b ∷ s)) [ [] ↦ [] | x ∷ xs ↦ b ∷ rest ]

unfoldable pub trim_space : Bytes → Bytes
trim_space s = trim_tail (trim_head 0 s)
