-- ===== src/Base62.antt =====
-- internal/pkg/base62/base62.go. A string is the list of its code points.
pub mod Reversal
pub mod RoundTrip
pub mod Size
use nanolink.Prelude.{
  ℕ, zero, suc, ◌+◌, ◌-◌, ◌*◌, ◌/◌, ◌%◌, ◌^◌, ◌≡◌, refl, Option, none, some, List, [], ◌∷◌, ◌++◌,
  Str, length, set, codes, get_or, ltb, ◌==◌, if◌then◌else◌,
}
use nanolink.Prelude.Result.{Result, ok, err}
use mathlib.Core.Option

abbrev pub alphabet : Str
alphabet = codes "0123456789abcdefghijklmnopqrstuvwxyzABCDEFGHIJKLMNOPQRSTUVWXYZ"

abbrev pub base : ℕ
base = 62

-- `alphabet[rem]`; a remainder by 62 is always in range
unfoldable pub symbol : ℕ → ℕ
symbol rem = get_or alphabet rem 0

-- `for num > 0 { … }`: what the builder holds at the end. The fuel is the number itself, which
-- each round makes smaller, so the loop ends by its test.
unfoldable pub emit : ℕ → ℕ → Str → Str
emit zero num sb = sb
emit (suc fuel) num sb =
    let rest = emit fuel (num / base) (sb ++ symbol (num % base) ∷ []) in
    if ltb 0 num then rest else sb

-- `runes[i], runes[j] = runes[j], runes[i]`
abbrev pub swap : ℕ → ℕ → Str → Str
swap i j runes = set (set runes i (get_or runes j 0)) j (get_or runes i 0)

-- `for i, j := …; i < j; i, j = i+1, j-1 { … }`. The number of runes is fuel enough.
unfoldable pub swap_from : ℕ → ℕ → ℕ → Str → Str
swap_from zero i j runes = runes
swap_from (suc fuel) i j runes =
    let rest = swap_from fuel (i + 1) (j - 1) (swap i j runes) in if ltb i j then rest else runes

abbrev pub reversed : Str → Str
reversed runes = swap_from (length runes) 0 (length runes - 1) runes

unfoldable pub encode : ℕ → Str
encode num = if num == 0 then symbol 0 ∷ [] else reversed (emit num num [])

-- strings.IndexRune; `none` is the -1
unfoldable pub index_rune : Str → ℕ → Option ℕ
index_rune [] c = none
index_rune (x ∷ xs) c = if x == c then some 0 else Option.map suc (index_rune xs c)

abbrev pub invalid_character : Str
invalid_character = codes "invalid base62 character"

-- the loop of `Base62Decode`, from the number read so far, in uint64 arithmetic
unfoldable pub decode_from : ℕ → Str → Result ℕ
decode_from num [] = ok num
decode_from num (c ∷ str) = elim (index_rune alphabet c) [
  | none ↦ err invalid_character
  | some idx ↦ decode_from ((num * base + idx) % 2 ^ 64) str
]

unfoldable pub decode : Str → Result ℕ
decode str = decode_from 0 str

encode_max : encode 18446744073709551615 ≡ codes "lYGhA16ahyf"
unfolding encode emit symbol swap_from
encode_max = refl

decode_max : decode (codes "lYGhA16ahyf") ≡ ok 18446744073709551615
unfolding decode decode_from index_rune
decode_max = refl
