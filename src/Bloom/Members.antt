-- ===== src/Bloom/Members.antt =====
-- What `Contains` answers after calls of `Add`.
use nanolink.Prelude.{
  ℕ, zero, suc, ◌+◌, ◌%◌, ◌^◌, ◌≡◌, refl, ap, Bool, true, ◌||◌, Option, none, some, arith, List, [],
  ◌∷◌, Str, ◌==◌, ◌∙◌, sym, inl, inr, ◌⊎◌,
}
use mathlib.Core.Path.{fun_ext, subst₂}
use nanolink.Bloom.{BloomFilter, add, contains}
use nanolink.Bloom.Words.{IsValid, has}
use nanolink.Bloom.Add.{index, hits, covered, ones, add_from-Adds, contains_from-covered}

-- calls of `Add`, in order
unfoldable pub add_all : BloomFilter → List Str → Option BloomFilter
add_all bf [] = some bf
add_all bf (x ∷ xs) = elim (add bf x) [ none ↦ none | some bf' ↦ add_all bf' xs ]

-- The abstract filter: a set of bit numbers, to which an element adds its indices.
unfoldable pub marks : ℕ → ℕ → List Str → (ℕ → Bool) → ℕ → Bool
marks k m [] s j = s j
marks k m (x ∷ xs) s j = marks k m xs (λ i. hits k 0 x m i || s i) j

abbrev pub Subset : (ℕ → Bool) → (ℕ → Bool) → Type 0
Subset s t = (j : ℕ) → s j ≡ true → t j ≡ true

covered_mono :
    (rounds i : ℕ) (e : Str) (m : ℕ) (s t : ℕ → Bool)
    → Subset s t
    → covered rounds i e m s ≡ true
    → covered rounds i e m t ≡ true
unfolding covered
covered_mono zero i e m s t sub h = refl
covered_mono (suc rounds) i e m s t sub h =
    ground (arith, sub (index m e i), covered_mono rounds (suc i) e m s t sub)

-- An element's own indices cover it.
covered-hits : (rounds i : ℕ) (e : Str) (m : ℕ) → covered rounds i e m (hits rounds i e m) ≡ true
unfolding covered hits
covered-hits zero i e m = refl
covered-hits (suc rounds) i e m = ground (
  arith,
  covered_mono rounds (suc i) e m (hits rounds (suc i) e m)
      (λ j. index m e i == j || hits rounds (suc i) e m j) (λ j h. ground arith)
      (covered-hits rounds (suc i) e m),
)

-- What one call of `Add` does: it never panics, keeps the size, counts the element, and the bits
-- that are 1 afterwards are those of the element and those that were 1 before.
pub record Added (element : Str) (bf bf' : BloomFilter) : Type 0 where
  pub valid : IsValid bf'
  pub m_kept : bf'.m ≡ bf.m
  pub k_kept : bf'.k ≡ bf.k
  pub count : bf'.count ≡ (bf.count + 1) % 2 ^ 64
  pub bits : (j : ℕ) → ones bf' j ≡ (hits bf.k 0 element bf.m j || ones bf j)

-- On a valid filter `Add` never panics, and leaves a valid filter of the same size and number of
-- rounds, with the element counted, in which the bits that are 1 are those of the element and
-- those that were 1 before.
pub add-Added :
    (bf : BloomFilter) (element : Str)
    → IsValid bf
    → (bf' : BloomFilter) × (add bf element ≡ some bf') × Added element bf bf'
unfolding add has
add-Added bf element v =
    let (mid, ran, a) = add_from-Adds bf.k 0 element bf v in
    (
      record mid { count = (mid.count + 1) % 2 ^ 64 },
      rw ran,
      record {
        valid = record { positive = a.valid.positive; room = a.valid.room };
        m_kept = a.m_kept;
        k_kept = a.k_kept;
        count = ap (λ c. (c + 1) % 2 ^ 64) a.count_kept;
        bits = a.bits;
      },
    )

-- On a valid filter `Contains` returns, and says whether all bits of the element are 1.
pub contains-covered :
    (bf : BloomFilter) (element : Str)
    → IsValid bf
    → contains bf element ≡ some (covered bf.k 0 element bf.m (ones bf))
unfolding contains
contains-covered bf element v = contains_from-covered bf.k 0 element bf v

covers :
    (bf bf' : BloomFilter) (x y : Str)
    → Added x bf bf'
    → covered bf.k 0 y bf.m (ones bf') ≡ true
    → contains bf' y ≡ some true
covers bf bf' x y a h =
    contains-covered bf' y a.valid
    ∙ ap some (subst₂ (λ k m. covered k 0 y m (ones bf') ≡ true) (sym a.k_kept) (sym a.m_kept) h)

pub Added-contains : (bf bf' : BloomFilter) (x : Str) → Added x bf bf' → contains bf' x ≡ some true
Added-contains bf bf' x a = covers bf bf' x x a (
    covered_mono bf.k 0 x bf.m (hits bf.k 0 x bf.m) (ones bf') (λ j h. ground (arith, a.bits j))
      (covered-hits bf.k 0 x bf.m))

pub Added-keeps :
    (bf bf' : BloomFilter) (x y : Str)
    → IsValid bf
    → Added x bf bf'
    → contains bf y ≡ some true
    → contains bf' y ≡ some true
Added-keeps bf bf' x y v a h = covers bf bf' x y a (
    covered_mono bf.k 0 y bf.m (ones bf) (ones bf') (λ j e. ground (arith, a.bits j))
      (ground (arith, contains-covered bf y v)))

-- Calls of `Add` on a valid filter implement the abstract filter: from a set that agrees with the
-- filter's bits, they all return, and afterwards `Contains` answers true exactly for the elements
-- whose indices the resulting set covers.
pub contains-add_all :
    (bf : BloomFilter) (xs : List Str) (s : ℕ → Bool)
    → IsValid bf
    → ((j : ℕ) → ones bf j ≡ s j)
    → (bf' : BloomFilter) × (add_all bf xs ≡ some bf')
      × ((y : Str) → contains bf' y ≡ some (covered bf.k 0 y bf.m (marks bf.k bf.m xs s)))
unfolding add_all marks
contains-add_all bf [] s v same = (
  bf,
  refl,
  λ y. contains-covered bf y v ∙ ap (λ t. some (covered bf.k 0 y bf.m t)) (fun_ext same),
)
contains-add_all bf (x ∷ xs) s v same =
    let (one, ran, a) = add-Added bf x v in
    let (bf', all, answers) =
      contains-add_all one xs (λ j. hits bf.k 0 x bf.m j || s j) a.valid
        (λ j. a.bits j ∙ ap (λ b. hits bf.k 0 x bf.m j || b) (same j)) in
    (
      bf',
      rw (ran, add_all) all,
      λ y.
          subst₂
            (λ k m.
              contains bf' y
              ≡ some (covered k 0 y m (marks k m xs (λ j. hits bf.k 0 x bf.m j || s j))))
            a.k_kept a.m_kept (answers y),
    )

-- every element of the list satisfies the predicate
abbrev pub All : (Str → Type 0) → List Str → Type 0
All P [] = Unit {0}
All P (x ∷ xs) = P x × All P xs

add_all-All :
    (bf : BloomFilter) (xs : List Str)
    → IsValid bf
    → (bf' : BloomFilter) × (add_all bf xs ≡ some bf')
      × All (λ x. contains bf' x ≡ some true) xs
      × ((y : Str) → contains bf y ≡ some true → contains bf' y ≡ some true)
unfolding add_all
add_all-All bf [] v = (bf, refl, tt, λ y h. h)
add_all-All bf (x ∷ xs) v =
    let (one, ran, a) = add-Added bf x v in
    let (bf', all, rest, kept) = add_all-All one xs a.valid in
    (
      bf',
      rw (ran, add_all) all,
      (kept x (Added-contains bf one x a), rest),
      λ y h. kept y (Added-keeps bf one x y v a h),
    )

-- the element is in the list
abbrev pub Among : Str → List Str → Type 0
Among y [] = ⊥
Among y (x ∷ xs) = (y ≡ x) ⊎ Among y xs

All-Among : (P : Str → Type 0) (xs : List Str) (y : Str) → All P xs → Among y xs → P y
All-Among P [] y h m = absurd m
All-Among P (x ∷ xs) y h (inl e) = rw e h.0
All-Among P (x ∷ xs) y h (inr m) = All-Among P xs y h.1 m

-- No false negatives: after calls of `Add` on a valid filter, `Contains` answers true for each
-- element that was added and for each one for which it answered true before.
pub add_all-no_false_negative :
    (bf : BloomFilter) (xs : List Str) (y : Str) {bf' : BloomFilter}
    → IsValid bf
    → add_all bf xs ≡ some bf'
    → Among y xs ⊎ (contains bf y ≡ some true)
    → contains bf' y ≡ some true
add_all-no_false_negative bf xs y {bf' = r} v e m =
    let (end, ran, all, kept) = add_all-All bf xs v in
    let found : some end ≡ some r = sym ran ∙ e in
    let same : end ≡ r = cc in rw (← same) (answer end all kept m)
  where
    answer :
        (f : BloomFilter)
        → All (λ x. contains f x ≡ some true) xs
        → ((z : Str) → contains bf z ≡ some true → contains f z ≡ some true)
        → Among y xs ⊎ (contains bf y ≡ some true)
        → contains f y ≡ some true
    answer f all kept (inl m) = All-Among (λ x. contains f x ≡ some true) xs y all m
    answer f all kept (inr h) = kept y h
