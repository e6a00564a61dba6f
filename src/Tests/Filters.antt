-- ===== src/Tests/Filters.antt =====
-- Bloom filters.
use nanolink.Prelude.{
  ◌^◌, ◌+◌, ◌<◌, ◌≡◌, refl, inl, true, some, arith, [], ◌∷◌, Str, codes, replicate,
}
use nanolink.Bloom.{
  BloomFilter, add, add_from, counted, set_bit, hash, mixed, fnv64a, contains, bits_for,
  rate_or_default, expected_or_default,
}
use nanolink.Bloom.Words.{IsValid}
use nanolink.Bloom.Add.{ones, covered}
use nanolink.Bloom.Members.{
  Added, add-Added, add_all, marks, contains-add_all, add_all-no_false_negative,
}
use nanolink.Bloom.New.{size}
use nanolink.Tests.Numbers.{wholes}

abbrev empty : BloomFilter
empty = record { bitset = replicate 2 0; m = 100; k = 3; count = 0 }

empty-IsValid : IsValid empty
empty-IsValid = record { positive = omega arith; room = omega arith }

seeded-Added :
    (bf : BloomFilter) × (add empty (codes "abc") ≡ some bf) × Added (codes "abc") empty bf
seeded-Added = add-Added empty (codes "abc") empty-IsValid

contains-add_all_example :
    (bf : BloomFilter) × (add_all empty (codes "abc" ∷ codes "xyz" ∷ []) ≡ some bf)
    × ((y : Str)
        → contains bf y
          ≡ some (covered 3 0 y 100 (marks 3 100 (codes "abc" ∷ codes "xyz" ∷ []) (ones empty))))
contains-add_all_example =
    contains-add_all empty (codes "abc" ∷ codes "xyz" ∷ []) (ones empty) empty-IsValid (λ j. refl)

abbrev one : BloomFilter
one = record { bitset = 2147483648 ∷ 1073741826 ∷ []; m = 100; k = 3; count = 1 }

add_one : add_all empty (codes "abc" ∷ []) ≡ some one
unfolding add_all add add_from counted set_bit hash mixed fnv64a
add_one = refl

add_all-no_false_negative_example : contains one (codes "abc") ≡ some true
add_all-no_false_negative_example =
    add_all-no_false_negative empty (codes "abc" ∷ []) (codes "abc") empty-IsValid add_one
      (inl (inl refl))

size_lo : 0 < size wholes 100 4
unfolding bits_for rate_or_default expected_or_default
size_lo = omega arith

size_hi : size wholes 100 4 + 63 < 2 ^ 64
unfolding bits_for rate_or_default expected_or_default
size_hi = omega arith

-- a rate of 1
size_zero : size wholes 3 1 ≡ 0
unfolding bits_for rate_or_default expected_or_default
size_zero = refl
