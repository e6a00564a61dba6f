-- ===== src/Bloom.antt =====
-- internal/pkg/bloom/bloom.go. The lock makes each method atomic, so a method is a function from the
-- filter to the filter; `none` is a panic (a remainder by zero, or an index out of range).
pub mod Words
pub mod Add
pub mod Members
pub mod New
use Prim.Native.Nat.{bit_and, bit_or, bit_xor}
use nanolink.Prelude.{
  ℕ, zero, suc, ◌+◌, ◌*◌, ◌/◌, ◌%◌, ◌^◌, ◌≡◌, refl, Bool, true, false, Option, none, some, List, [],
  ◌∷◌, Str, codes, replicate, get_elem?, set, ◌==◌, if◌then◌else◌,
}
use nanolink.Prelude.Float.{Floats}

pub record BloomFilter : Type 0 where
  pub bitset : List ℕ
  pub m : ℕ
  pub k : ℕ
  pub count : ℕ

-- hash/fnv, New64a: the offset basis, and for each byte an exclusive or and a product
abbrev pub fnv_offset : ℕ
fnv_offset = 14695981039346656037

abbrev pub fnv_prime : ℕ
fnv_prime = 1099511628211

unfoldable pub fnv64a : ℕ → Str → ℕ
fnv64a h [] = h
fnv64a h (b ∷ str) = fnv64a (bit_xor h b * fnv_prime % 2 ^ 64) str

-- the value that `hash` reduces modulo m
unfoldable pub mixed : Str → ℕ → ℕ
mixed element seed = bit_xor (fnv64a fnv_offset element) (seed * 0x5bd1e9955bd1e995 % 2 ^ 64)

unfoldable pub hash : BloomFilter → Str → ℕ → Option ℕ
hash bf element seed = if bf.m == 0 then none else some (mixed element seed % bf.m)

-- `bf.bitset[word] |= (1 << bit)`
unfoldable pub set_bit : BloomFilter → ℕ → Option BloomFilter
set_bit bf idx = elim (get_elem? bf.bitset (idx / 64)) [
  | none ↦ none
  | some w ↦ some (record bf { bitset = set bf.bitset (idx / 64) (bit_or w (2 ^ (idx % 64))) })
]

-- the rounds of `Add` that are left, from round i on
unfoldable pub add_from : ℕ → ℕ → Str → BloomFilter → Option BloomFilter
add_from zero i element bf = some bf
add_from (suc rounds) i element bf = elim (hash bf element i) [
  | none ↦ none
  | some idx ↦ elim (set_bit bf idx) [
    | none ↦ none
    | some bf' ↦ add_from rounds (suc i) element bf'
  ]
]

-- `bf.count++`
unfoldable pub counted : Option BloomFilter → Option BloomFilter
counted none = none
counted (some bf) = some (record bf { count = (bf.count + 1) % 2 ^ 64 })

unfoldable pub add : BloomFilter → Str → Option BloomFilter
unfolding counted
add bf element = counted (add_from bf.k 0 element bf)

-- the rounds of `Contains` that are left, from round i on
unfoldable pub contains_from : ℕ → ℕ → Str → BloomFilter → Option Bool
contains_from zero i element bf = some true
contains_from (suc rounds) i element bf = elim (hash bf element i) [
  | none ↦ none
  | some idx ↦ elim (get_elem? bf.bitset (idx / 64)) [
    | none ↦ none
    | some w ↦
        let rest = contains_from rounds (suc i) element bf in
        if bit_and w (2 ^ (idx % 64)) == 0 then some false else rest
  ]
]

unfoldable pub contains : BloomFilter → Str → Option Bool
contains bf element = contains_from bf.k 0 element bf

-- the defaults at the head of `NewBloomFilter`
unfoldable pub expected_or_default : ℕ → ℕ
expected_or_default expected = if expected == 0 then 1000000 else expected

module _ (fl : Floats) where
  open fl use {F, ratio, of_nat, le, mul, div, neg, log, pow, ceil, round, to_uint}

  unfoldable pub rate_or_default : F → F
  rate_or_default rate = if le rate (of_nat 0) then ratio 1 100 else rate

  -- `math.Ceil(-1 * n * ln(p) / ln(2)^2)`
  unfoldable pub bits_for : ℕ → F → ℕ
  bits_for n p =
      to_uint (
        ceil
          (div (mul (mul (neg (of_nat 1)) (of_nat n)) (log p)) (pow (log (of_nat 2)) (of_nat 2))))

  -- `math.Round((m / n) * ln(2))`
  unfoldable pub hashes_for : ℕ → ℕ → ℕ
  hashes_for m n = to_uint (round (mul (div (of_nat m) (of_nat n)) (log (of_nat 2))))

  unfoldable pub new_bloom_filter : ℕ → F → BloomFilter
  new_bloom_filter expected rate =
      let n = expected_or_default expected in
      let m = bits_for n (rate_or_default rate) in
      let k = hashes_for m n in
      record {
        bitset = replicate ((m + 63) % 2 ^ 64 / 64) 0;
        m = m;
        k = if k == 0 then 1 else k;
        count = 0;
      }

abbrev small : BloomFilter
small = record { bitset = replicate 2 0; m = 100; k = 3; count = 0 }

-- The published test value of FNV-1a for "a".
fnv64a_a : fnv64a fnv_offset (codes "a") ≡ 0xaf63dc4c8601ec8c
unfolding fnv64a
fnv64a_a = refl

contains-small : contains small (codes "abc") ≡ some false
unfolding contains contains_from hash mixed fnv64a
contains-small = refl
