-- ===== src/Bloom/Words.antt =====
-- The words of the filter as a set of bit numbers.
use Prim.Native.Nat.{bit_and, bit_or}
use native.Mathlib.Decide.{ℕ_discrete}
use nanolink.Prelude.{
  ℕ, ◌*◌, ◌/◌, ◌%◌, ◌^◌, ◌≤◌, ◌<◌, ◌≡◌, ◌≢◌, ap, some, arith, length, length-set, get_or, get_elem?,
  set, get_elem?-eq-get_or, get_or-set_self, get_or-set_ne, ◌==◌,
}
use nanolink.Prelude.Bits.{
  bit, bit-bit_or, bit_and-two_pow, bit-two_pow_self, bit-two_pow_ne, pow_pos,
}
use nanolink.Bloom.{BloomFilter, set_bit}

-- Some bit can be addressed, and every bit number below m has a word.
pub record IsValid (bf : BloomFilter) : Type 0 where
  pub positive : 0 < bf.m
  pub room : bf.m ≤ 64 * length bf.bitset

-- the word of a bit number
abbrev pub word : BloomFilter → ℕ → ℕ
word bf idx = get_or bf.bitset (idx / 64) 0

-- 1 if the bit number is in the set, and 0 if not
unfoldable pub has : BloomFilter → ℕ → ℕ
has bf idx = bit (word bf idx) (idx % 64)

unfoldable pub with_bit : BloomFilter → ℕ → BloomFilter
with_bit bf idx = record bf {
  bitset = set bf.bitset (idx / 64) (bit_or (word bf idx) (2 ^ (idx % 64)));
}

module _ (bf : BloomFilter) (v : IsValid bf) (idx : ℕ) (lt : idx < bf.m) where
  pub word-get_elem? : get_elem? bf.bitset (idx / 64) ≡ some (word bf idx)
  word-get_elem? = get_elem?-eq-get_or bf.bitset (idx / 64) 0 (omega arith)

  pub set_bit-with_bit : set_bit bf idx ≡ some (with_bit bf idx)
  unfolding set_bit with_bit
  set_bit-with_bit = rw (word-get_elem?, set_bit)

  pub with_bit-IsValid : IsValid (with_bit bf idx)
  unfolding with_bit
  with_bit-IsValid = record {
    positive = v.positive;
    room = rw (length-set bf.bitset (idx / 64) (bit_or (word bf idx) (2 ^ (idx % 64)))) v.room;
  }

  pub has-with_bit_self : has (with_bit bf idx) idx ≡ 1
  unfolding has with_bit
  has-with_bit_self =
      rw
        (get_or-set_self bf.bitset (idx / 64) (bit_or (word bf idx) (2 ^ (idx % 64))) 0
          (omega arith))
        (omega (
          arith,
          bit-bit_or (idx % 64) (word bf idx) (2 ^ (idx % 64)),
          bit-two_pow_self (idx % 64),
        ))

  -- Setting a bit changes no other one.
  pub has-with_bit_ne : (j : ℕ) → idx ≢ j → has (with_bit bf idx) j ≡ has bf j
  unfolding has with_bit
  has-with_bit_ne j ne = elim (ℕ_discrete (idx / 64) (j / 64)) [
    | no p ↦ rw (get_or-set_ne bf.bitset (idx / 64) (j / 64) _ 0 p)
    | yes p ↦
        let other : idx % 64 ≢ j % 64 = omega arith in
        let same : word bf idx ≡ word bf j = ap (λ (w : ℕ). get_or bf.bitset w 0) p in
        rw (← p) (
          rw
            (get_or-set_self bf.bitset (idx / 64) (bit_or (word bf idx) (2 ^ (idx % 64))) 0
              (omega arith))
            (omega (
              arith,
              bit-bit_or (j % 64) (word bf idx) (2 ^ (idx % 64)),
              bit-two_pow_ne (idx % 64) (j % 64) other,
            )))
  ]

  -- `word & (1 << bit) == 0` tests the bit.
  pub has-test : (bit_and (word bf idx) (2 ^ (idx % 64)) == 0) ≡ (has bf idx == 0)
  unfolding has
  has-test = rw (bit_and-two_pow (idx % 64) (word bf idx)) (ground (arith, pow_pos (idx % 64)))
