-- ===== src/Bloom/New.antt =====
-- `NewBloomFilter`: when the filter that it makes can be used.
use nanolink.Prelude.{
  ℕ, zero, suc, ◌+◌, ◌/◌, ◌%◌, ◌^◌, ◌<◌, ◌≡◌, ◌∙◌, refl, ap, Bool, false, some, none, arith, Str,
  length-replicate, get_or-replicate,
}
use nanolink.Prelude.Float.{Floats}
use nanolink.Bloom.{
  BloomFilter, hash, add_from, counted, add, contains_from, contains, rate_or_default,
  expected_or_default, bits_for, new_bloom_filter,
}
use nanolink.Prelude.Bits.{zero-bit}
use nanolink.Bloom.Words.{IsValid, has}
use nanolink.Bloom.Add.{index, covered, ones}
use nanolink.Bloom.Members.{contains-covered}

add_from-panics :
    (rounds i : ℕ) (element : Str) (bf : BloomFilter)
    → 0 < rounds
    → bf.m ≡ 0
    → (add_from rounds i element bf ≡ none) × (contains_from rounds i element bf ≡ none)
unfolding add_from contains_from hash
add_from-panics zero i element bf h e = absurd (omega arith)
add_from-panics (suc rounds) i element bf h e = (ground arith, ground arith)

-- Bits that are all 0 cover no element.
covered_zeros :
    (rounds : ℕ) (element : Str) (m : ℕ) (s : ℕ → Bool)
    → 0 < rounds
    → ((j : ℕ) → s j ≡ false)
    → covered rounds 0 element m s ≡ false
unfolding covered
covered_zeros zero element m s h zeros = absurd (omega arith)
covered_zeros (suc rounds) element m s h zeros = rw (zeros (index m element 0)) refl

module _ (fl : Floats) (expected : ℕ) (rate : fl.F) where
  -- the number of bits that `NewBloomFilter` computes
  abbrev pub size : ℕ
  size = bits_for fl (expected_or_default expected) (rate_or_default fl rate)

  -- A filter whose computed size is at least one bit and can be rounded up to a whole word is
  -- valid: every index has a word. It holds nothing, and every element is looked for in at least
  -- one place.
  pub new_bloom_filter-IsValid :
      0 < size
      → size + 63 < 2 ^ 64
      → IsValid (new_bloom_filter fl expected rate)
        × ((j : ℕ) → ones (new_bloom_filter fl expected rate) j ≡ false)
        × (0 < (new_bloom_filter fl expected rate).k)
  unfolding new_bloom_filter has
  new_bloom_filter-IsValid lo hi = (
    record {
      positive = lo;
      room = omega (arith, length-replicate {A = ℕ} ((size + 63) % 2 ^ 64 / 64) 0);
    },
    λ j. rw (get_or-replicate {A = ℕ} ((size + 63) % 2 ^ 64 / 64) (j / 64) 0, zero-bit (j % 64)),
    ground arith,
  )

  -- A new filter contains nothing.
  pub new_bloom_filter-contains :
      0 < size
      → size + 63 < 2 ^ 64
      → (element : Str) → contains (new_bloom_filter fl expected rate) element ≡ some false
  new_bloom_filter-contains lo hi element =
      let bf = new_bloom_filter fl expected rate in
      let (v, zeros, rounds) = new_bloom_filter-IsValid lo hi in
      contains-covered bf element v
      ∙ ap some (covered_zeros bf.k element bf.m (ones bf) rounds zeros)

  -- Where the size comes out as 0, every later `Add` and `Contains` panics: a remainder by zero.
  pub new_bloom_filter-panics :
      (element : Str)
      → size ≡ 0
      → (add (new_bloom_filter fl expected rate) element ≡ none)
        × (contains (new_bloom_filter fl expected rate) element ≡ none)
  unfolding new_bloom_filter add counted contains
  new_bloom_filter-panics element zero_size =
      let bf = new_bloom_filter fl expected rate in
      let (p, q) = add_from-panics bf.k 0 element bf (ground arith) zero_size in (rw p, q)
