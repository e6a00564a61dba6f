-- ===== src/Base62/Size.antt =====
-- How long the codes of `Base62Encode` are.
use nanolink.Prelude.{
  ℕ, zero, suc, ◌+◌, ◌/◌, ◌%◌, ◌^◌, ◌≤◌, ◌<◌, ◌≡◌, ◌↔◌, arith, [], ◌∷◌, ◌++◌, Str, length,
  length-append, length-reverse,
}
use nanolink.Base62.Reversal.{encode_lem}
use nanolink.Base62.{symbol, emit, encode}
use native.Mathlib.Nat.{pow-suc}
use native.Mathlib.Decide.{dec_lt}

length-emit-ge : (fuel n : ℕ) (sb : Str) → length sb ≤ length (emit fuel n sb)
unfolding emit
length-emit-ge zero n sb = omega arith
length-emit-ge (suc fuel) n sb = ground (
  arith,
  length-emit-ge fuel (n / 62) (sb ++ symbol (n % 62) ∷ []),
  length-append sb (symbol (n % 62) ∷ []),
)

pow62_pos : (k : ℕ) → 0 < 62 ^ k
pow62_pos zero = omega arith
pow62_pos (suc k) = omega (arith, pow-suc 62 k, pow62_pos k)

length-emit-le :
    (fuel n k : ℕ) (sb : Str) → n ≤ fuel → n < 62 ^ k → length (emit fuel n sb) ≤ length sb + k
unfolding emit
length-emit-le zero n k sb h lt = omega arith
length-emit-le (suc fuel) n zero sb h lt = let e : n ≡ 0 = omega arith in rw e (omega arith)
length-emit-le (suc fuel) n (suc k) sb h lt = ground (
  arith,
  length-emit-le fuel (n / 62) k (sb ++ symbol (n % 62) ∷ []) (omega arith)
      (omega (arith, pow-suc 62 k)),
  length-append sb (symbol (n % 62) ∷ []),
)

length-emit-gt :
    (fuel n k : ℕ) (sb : Str) → n ≤ fuel → 62 ^ k ≤ n → length sb + k < length (emit fuel n sb)
unfolding emit
length-emit-gt zero n k sb h lt = omega (arith, pow62_pos k)
length-emit-gt (suc fuel) n zero sb h lt = ground (
  arith,
  length-emit-ge fuel (n / 62) (sb ++ symbol (n % 62) ∷ []),
  length-append sb (symbol (n % 62) ∷ []),
)
length-emit-gt (suc fuel) n (suc k) sb h lt = ground (
  arith,
  pow62_pos (suc k),
  length-emit-gt fuel (n / 62) k (sb ++ symbol (n % 62) ∷ []) (omega arith)
      (omega (arith, pow-suc 62 k)),
  length-append sb (symbol (n % 62) ∷ []),
)

length-encode-le : (n k : ℕ) → n < 62 ^ suc k → length (encode n) ≤ suc k
length-encode-le n k h = ground (
  arith,
  encode_lem n,
  length-reverse (emit n n []),
  length-emit-le n n (suc k) [] (omega arith) h,
)

length-encode-gt : (n k : ℕ) → 62 ^ suc k ≤ n → suc k < length (encode n)
length-encode-gt n k h = ground (
  arith,
  encode_lem n,
  pow62_pos (suc k),
  length-reverse (emit n n []),
  length-emit-gt n n (suc k) [] (omega arith) h,
)

lt_of_length-encode-le : (n k : ℕ) → length (encode n) ≤ suc k → n < 62 ^ suc k
lt_of_length-encode-le n k h = elim (dec_lt n (62 ^ suc k)) [
  | yes p ↦ p
  | no p ↦ absurd (omega (arith, length-encode-gt n k (omega arith)))
]

-- A code has at most k + 1 characters exactly when the number is below 62 ^ (k + 1).
pub length-encode-le_iff : (n k : ℕ) → (length (encode n) ≤ suc k) ↔ (n < 62 ^ suc k)
length-encode-le_iff n k = (lt_of_length-encode-le n k, length-encode-le n k)
