-- ===== src/Prelude/Decimal.antt =====
-- strconv.Atoi and strconv.ParseUint in base 10, for ASCII texts; `none` is an error, of the syntax or
-- of the range.
use Prim.Native.Nat.{ℕ, ◌+◌, ◌-◌, ◌*◌, ◌^◌}
use mathlib.Core.Path.{◌≡◌, refl}
use mathlib.Core.Bool.{◌&&◌}
use mathlib.Core.Option.{Option, none, some}
use mathlib.Core.List.{[], ◌∷◌}
use nanolink.Prelude.Bytes.{Str, codes}
use nanolink.Prelude.Tests.{ltb, leb, ◌==◌, if◌then◌else◌}
use nanolink.Prelude.Int.{ℤ, pos, negsuc}

abbrev digit : ℕ → Option ℕ
digit c = if leb b'0' c && leb c b'9' then some (c - b'0') else none

-- the value of the digits, read from the left behind those of `acc`
unfoldable pub digits_from : ℕ → Str → Option ℕ
digits_from acc [] = some acc
digits_from acc (c ∷ str) = elim (digit c) [ none ↦ none | some d ↦ digits_from (acc * 10 + d) str ]

-- at least one digit
abbrev magnitude : Str → Option ℕ
magnitude [] = none
magnitude (c ∷ str) = digits_from 0 (c ∷ str)

abbrev below : ℕ → Option ℕ → Option ℕ
below bound none = none
below bound (some n) = if ltb n bound then some n else none

unfoldable pub parse_uint : Str → Option ℕ
unfolding digits_from
parse_uint str = below (2 ^ 64) (magnitude str)

abbrev positive : Option ℕ → Option ℤ
positive none = none
positive (some n) = if ltb n (2 ^ 63) then some (pos n) else none

-- -n
abbrev negated : ℕ → ℤ
negated n = if n == 0 then pos 0 else negsuc (n - 1)

abbrev negative : Option ℕ → Option ℤ
negative none = none
negative (some n) = if leb n (2 ^ 63) then some (negated n) else none

unfoldable pub atoi : Str → Option ℤ
unfolding digits_from
atoi [] = none
atoi (c ∷ str) =
    if c == b'-'
    then negative (magnitude str)
    else if c == b'+'
    then positive (magnitude str)
    else positive (magnitude (c ∷ str))

atoi_minus : atoi (codes "-17") ≡ some (negsuc 16)
unfolding atoi
atoi_minus = refl

atoi_large : atoi (codes "9223372036854775808") ≡ none
unfolding atoi
atoi_large = refl

atoi_word : atoi (codes "12x") ≡ none
unfolding atoi
atoi_word = refl

parse_uint_sign : parse_uint (codes "+1") ≡ none
unfolding parse_uint
parse_uint_sign = refl
