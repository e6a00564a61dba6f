-- ===== src/Bloom/Add.antt =====
-- `Add` and `Contains` against sets of bit numbers.
use nanolink.Prelude.{
  ℕ, zero, suc, ◌%◌, ◌≤◌, ◌<◌, ◌≡◌, refl, Bool, true, false, ◌&&◌, ◌||◌, some, arith, Str, ◌==◌,
  ◌∙◌,
}
use native.Mathlib.Decide.{ℕ_discrete}
use nanolink.Bloom.{BloomFilter, mixed, hash, add_from, contains_from}
use nanolink.Bloom.Words.{
  IsValid, has, with_bit, word-get_elem?, set_bit-with_bit, with_bit-IsValid, has-with_bit_self,
  has-with_bit_ne, has-test,
}

-- The bit number of round i.
abbrev pub index : ℕ → Str → ℕ → ℕ
index m element i = mixed element i % m

-- Bit j is the index of one of the rounds.
unfoldable pub hits : ℕ → ℕ → Str → ℕ → ℕ → Bool
hits zero i element m j = false
hits (suc rounds) i element m j = index m element i == j || hits rounds (suc i) element m j

-- The index of every round is in the set.
unfoldable pub covered : ℕ → ℕ → Str → ℕ → (ℕ → Bool) → Bool
covered zero i element m s = true
covered (suc rounds) i element m s = s (index m element i) && covered rounds (suc i) element m s

-- the set of the bits that are 1
abbrev pub ones : BloomFilter → ℕ → Bool
ones bf j = has bf j == 1

hash-index :
    (bf : BloomFilter) (element : Str) (i : ℕ)
    → IsValid bf
    → hash bf element i ≡ some (index bf.m element i)
unfolding hash
hash-index bf element i v = ground (arith, v.positive)

-- What a run of rounds does: the bits of the element are set, all else is as before.
pub record Adds (rounds i : ℕ) (element : Str) (bf bf' : BloomFilter) : Type 0 where
  pub valid : IsValid bf'
  pub m_kept : bf'.m ≡ bf.m
  pub k_kept : bf'.k ≡ bf.k
  pub count_kept : bf'.count ≡ bf.count
  pub bits : (j : ℕ) → ones bf' j ≡ (hits rounds i element bf.m j || ones bf j)

has-le : (bf : BloomFilter) (j : ℕ) → has bf j ≤ 1
unfolding has
has-le bf j = omega arith

has-with_bit :
    (bf : BloomFilter)
    → IsValid bf
    → (idx : ℕ) → idx < bf.m
    → (j : ℕ) → ones (with_bit bf idx) j ≡ (idx == j || ones bf j)
has-with_bit bf v idx lt j = elim (ℕ_discrete idx j) [
  | yes p ↦ rw (← p) (ground (arith, has-with_bit_self bf v idx lt))
  | no p ↦ ground (arith, has-with_bit_ne bf v idx lt j p)
]

pub add_from-Adds :
    (rounds i : ℕ) (element : Str) (bf : BloomFilter)
    → IsValid bf
    → (bf' : BloomFilter) × (add_from rounds i element bf ≡ some bf') × Adds rounds i element bf bf'
unfolding add_from hits with_bit
add_from-Adds zero i element bf v = (
  bf,
  refl,
  record { valid = v; m_kept = refl; k_kept = refl; count_kept = refl; bits = λ j. refl },
)
add_from-Adds (suc rounds) i element bf v =
    let idx : ℕ = index bf.m element i in
    let lt : idx < bf.m = omega (arith, v.positive) in
    let w : IsValid (with_bit bf idx) = with_bit-IsValid bf v idx lt in
    let (bf', ran, a) = add_from-Adds rounds (suc i) element (with_bit bf idx) w in
    (
      bf',
      rw (hash-index bf element i v, add_from, set_bit-with_bit bf v idx lt) ran,
      record {
        valid = a.valid;
        m_kept = a.m_kept;
        k_kept = a.k_kept;
        count_kept = a.count_kept;
        bits = λ j. a.bits j ∙ ground (arith, has-with_bit bf v idx lt j);
      },
    )

pub contains_from-covered :
    (rounds i : ℕ) (element : Str) (bf : BloomFilter)
    → IsValid bf
    → contains_from rounds i element bf ≡ some (covered rounds i element bf.m (ones bf))
unfolding contains_from covered
contains_from-covered zero i element bf v = refl
contains_from-covered (suc rounds) i element bf v =
    let lt : index bf.m element i < bf.m = omega (arith, v.positive) in
    rw
      (
        hash-index bf element i v,
        contains_from,
        word-get_elem? bf v (index bf.m element i) lt,
        contains_from-covered rounds (suc i) element bf v,
      )
      (ground (arith, has-test bf v (index bf.m element i) lt, has-le bf (index bf.m element i)))
