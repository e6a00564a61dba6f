-- ===== src/Base62/RoundTrip.antt =====
-- What `Base62Decode` reads, and that it inverts `Base62Encode`.
use mathlib.Core.List.{reverse-append}
use mathlib.Core.Option
use nanolink.Prelude.{
  ℕ, zero, suc, ◌+◌, ◌*◌, ◌/◌, ◌%◌, ◌^◌, ◌≤◌, ◌<◌, ◌≡◌, refl, inl, inr, Bool, true, false, ◌&&◌,
  Option, none, some, arith, List, [], ◌∷◌, ◌++◌, reverse, Str, ◌==◌, Bool-cases, Option-cases, ltb,
  ◌∙◌, sym, ap,
}
use nanolink.Prelude.Result.{Result, ok, err}
use nanolink.Base62.Reversal.{encode_lem}
use nanolink.Base62.{
  alphabet, base, symbol, emit, encode, index_rune, invalid_character, decode_from, decode,
}

-- Over the digits, check every value by evaluation.
is_index : Option ℕ → ℕ → Bool
is_index none n = false
is_index (some i) n = i == n

all_digits : ℕ → Bool
all_digits zero = true
all_digits (suc n) = is_index (index_rune alphabet (symbol n)) n && all_digits n

all_digits_sound :
    (k n : ℕ) → all_digits k ≡ true → n < k → is_index (index_rune alphabet (symbol n)) n ≡ true
unfolding all_digits
all_digits_sound zero n h lt = absurd (omega arith)
all_digits_sound (suc k) n h lt = ground (arith, all_digits_sound k n)

is_index_sound : (o : Option ℕ) (n : ℕ) → is_index o n ≡ true → o ≡ some n
unfolding is_index
is_index_sound none n h = ground arith
is_index_sound (some i) n h = ground arith

digits_table : all_digits 62 ≡ true
unfolding all_digits is_index index_rune symbol
digits_table = refl

pub index_rune-symbol : (n : ℕ) → n < 62 → index_rune alphabet (symbol n) ≡ some n
index_rune-symbol n h = is_index_sound _ n (all_digits_sound 62 n digits_table h)

decode_from-symbol :
    (n : ℕ) (str : Str)
    → n < 2 ^ 64
    → decode_from (n / base) (symbol (n % base) ∷ str) ≡ decode_from n str
unfolding decode_from
decode_from-symbol n str h =
    rw (index_rune-symbol (n % 62) (omega arith), decode_from)
      (let e : (n / 62 * 62 + n % 62) % 2 ^ 64 ≡ n = omega arith in rw e)

-- What the builder adds is read back, from any digits written before.
decode_from-emit :
    (fuel n : ℕ) (sb : Str)
    → n ≤ fuel
    → n < 2 ^ 64
    → decode_from 0 (reverse (emit fuel n sb)) ≡ decode_from n (reverse sb)
unfolding emit
decode_from-emit zero n sb h lt = let e : n ≡ 0 = omega arith in rw e
decode_from-emit (suc fuel) n sb h lt = elim (Bool-cases (ltb 0 n)) [
  | inl more ↦ rw more (
      decode_from-emit fuel (n / 62) (sb ++ symbol (n % 62) ∷ []) (ground arith) (omega arith)
      ∙ rw (reverse-append sb (symbol (n % 62) ∷ [])) (decode_from-symbol n (reverse sb) lt))
  | inr done ↦ rw done (let e : n ≡ 0 = ground arith in rw e)
]

-- For every uint64, decoding its code succeeds and gives the number back.
pub decode-encode : (n : ℕ) → n < 2 ^ 64 → decode (encode n) ≡ ok n
unfolding decode decode_from
decode-encode n h = elim (Bool-cases (n == 0)) [
  | inl e ↦
      rw (encode_lem n, e)
        (decode_from-symbol 0 [] (omega arith) ∙ (let z : n ≡ 0 = ground arith in rw z))
  | inr e ↦ rw (encode_lem n, e) (decode_from-emit n n [] (omega arith) h)
]

-- What the loop computes, as a value of its digits: the positional value, to the base 62.
pub digits_of : Str → Option (List ℕ)
digits_of [] = some []
digits_of (c ∷ str) = elim (index_rune alphabet c) [
  | none ↦ none
  | some idx ↦ Option.map (◌∷◌ idx) (digits_of str)
]

pub value_from : ℕ → List ℕ → ℕ
value_from num [] = num
value_from num (d ∷ ds) = value_from (num * base + d) ds

-- The digits' value, reduced to a uint64; an error if some character is no digit.
abbrev pub reading : Option (List ℕ) → ℕ → Result ℕ
reading none num = err invalid_character
reading (some ds) num = ok (value_from num ds % 2 ^ 64)

value_from-mod :
    (num : ℕ) (ds : List ℕ) → value_from (num % 2 ^ 64) ds % 2 ^ 64 ≡ value_from num ds % 2 ^ 64
unfolding value_from
value_from-mod num [] = omega arith
value_from-mod num (d ∷ ds) =
    let e : (num % 2 ^ 64 * 62 + d) % 2 ^ 64 ≡ (num * 62 + d) % 2 ^ 64 = omega arith in
    sym (value_from-mod (num % 2 ^ 64 * 62 + d) ds)
    ∙ ap (λ t. value_from t ds % 2 ^ 64) e
    ∙ value_from-mod (num * 62 + d) ds

reading-cons :
    (num idx : ℕ) (o : Option (List ℕ))
    → reading o ((num * base + idx) % 2 ^ 64) ≡ reading (Option.map (◌∷◌ idx) o) num
unfolding value_from
reading-cons num idx none = refl
reading-cons num idx (some ds) = ap ok (value_from-mod (num * 62 + idx) ds)

decode_from-reading :
    (num : ℕ) (str : Str) → num < 2 ^ 64 → decode_from num str ≡ reading (digits_of str) num
unfolding decode_from digits_of value_from
decode_from-reading num [] h = let e : num % 2 ^ 64 ≡ num = omega arith in rw e
decode_from-reading num (c ∷ str) h = elim (Option-cases (index_rune alphabet c)) [
  | inl e ↦ rw (e, decode_from, digits_of)
  | inr (idx, e) ↦
      rw (e, decode_from, digits_of)
        (decode_from-reading ((num * 62 + idx) % 2 ^ 64) str (omega arith)
          ∙ reading-cons num idx (digits_of str))
]

-- On every string: decoding fails exactly on a character outside the alphabet, and otherwise
-- returns the positional value of the digits modulo 2 ^ 64, so a value that is too large wraps.
pub decode-eq-reading : (str : Str) → decode str ≡ reading (digits_of str) 0
unfolding decode
decode-eq-reading str = decode_from-reading 0 str (omega arith)
