-- ===== src/Base62/Reversal.antt =====
-- The reversal in place at the end of Base62Encode in internal/pkg/base62/base62.go.
use mathlib.Core.Path.{subst}
use nanolink.Prelude.{
  true, false, ◌==◌, ℕ, zero, suc, ◌+◌, ◌-◌, ◌≤◌, arith, ◌≡◌, refl, sym, ap, ◌∙◌, ◌⊎◌, inl, inr, [],
  ◌∷◌, ◌++◌, Str, length, get_or, set, reverse, ltb, if◌then◌else◌, length-append,
}
use nanolink.Base62.{symbol, emit, swap, swap_from, encode}
use mathlib.Core.List.{append_assoc, append-nil, reverse-append}

set_at : (pre : Str) (x v : ℕ) (post : Str) → set (pre ++ x ∷ post) (length pre) v ≡ pre ++ v ∷ post
set_at [] x v post = refl
set_at (p ∷ pre) x v post = ap (λ r. p ∷ r) (set_at pre x v post)

get_at : (pre : Str) (x : ℕ) (post : Str) → get_or (pre ++ x ∷ post) (length pre) 0 ≡ x
get_at [] x post = refl
get_at (p ∷ pre) x post = get_at pre x post

-- a list is empty or ends in an element
snoc : (l : Str) → (l ≡ []) ⊎ ((mid : Str) × (y : ℕ) × (l ≡ mid ++ y ∷ []))
snoc [] = inl refl
snoc (y ∷ l) = elim (snoc l) [
  | inl e ↦ inr ([], y, ap (λ r. y ∷ r) e)
  | inr (mid, z, e) ↦ inr (y ∷ mid, z, ap (λ r. y ∷ r) e)
]

swap-append :
    (pre mid post : Str) (x y : ℕ) (j : ℕ)
    → j ≡ length pre + 1 + length mid
    → swap (length pre) j (pre ++ (x ∷ (mid ++ y ∷ post))) ≡ pre ++ (y ∷ (mid ++ x ∷ post))
swap-append [] mid post x y j e =
    let p : j ≡ suc (length mid) = omega arith in
    subst (λ (k : ℕ). swap 0 k (x ∷ (mid ++ y ∷ post)) ≡ y ∷ (mid ++ x ∷ post)) (sym p)
      (ap (λ h. h ∷ set (mid ++ y ∷ post) (length mid) x) (get_at mid y post)
        ∙ ap (λ r. y ∷ r) (set_at mid y x post))
swap-append (q ∷ pre) mid post x y j e =
    let p : j ≡ suc (length pre + 1 + length mid) = omega arith in
    subst
      (λ (k : ℕ).
        swap (suc (length pre)) k (q ∷ (pre ++ (x ∷ (mid ++ y ∷ post))))
        ≡ q ∷ (pre ++ (y ∷ (mid ++ x ∷ post))))
      (sym p) (ap (λ r. q ∷ r) (swap-append pre mid post x y (length pre + 1 + length mid) refl))

reverse-snoc : (x y : ℕ) (mid : Str) → reverse (x ∷ (mid ++ y ∷ [])) ≡ y ∷ (reverse mid ++ x ∷ [])
reverse-snoc x y mid =
    reverse-append (x ∷ []) (mid ++ y ∷ []) ∙ ap (λ r. r ++ x ∷ []) (reverse-append mid (y ∷ []))

-- the loop ends by its test
swap_from_stop : (fuel i j : ℕ) (runes : Str) → ltb i j ≡ false → swap_from fuel i j runes ≡ runes
unfolding swap_from
swap_from_stop zero i j runes t = refl
swap_from_stop (suc fuel) i j runes t = rw t refl

swap_from_step :
    (fuel i j : ℕ) (runes : Str)
    → ltb i j ≡ true
    → swap_from (suc fuel) i j runes ≡ swap_from fuel (i + 1) (j - 1) (swap i j runes)
unfolding swap_from
swap_from_step fuel i j runes t = rw t refl

swap_from_between :
    (fuel i j : ℕ) (pre mid post : Str)
    → i ≡ length pre
    → j ≡ length pre + length mid - 1
    → length mid ≤ fuel
    → swap_from fuel i j (pre ++ (mid ++ post)) ≡ pre ++ (reverse mid ++ post)
swap_from_between fuel i j pre [] post pi pj h =
    swap_from_stop fuel i j (pre ++ post) (ground arith)
swap_from_between zero i j pre (x ∷ mid) post pi pj h = absurd (omega arith)
swap_from_between (suc fuel) i j pre (x ∷ l) post pi pj h = elim (snoc l) [
  | inl empty ↦
      subst
        (λ (r : Str).
          swap_from (suc fuel) i j (pre ++ (x ∷ (r ++ post))) ≡ pre ++ (reverse (x ∷ r) ++ post))
        (sym empty)
        (swap_from_stop (suc fuel) i j (pre ++ (x ∷ post))
          (let n : length l ≡ 0 = ap (λ (r : Str). length r) empty in ground arith))
  | inr (m, y, ends) ↦
      let n : length l ≡ length m + 1 =
        ap (λ (r : Str). length r) ends ∙ length-append m (y ∷ []) in
      let w : j ≡ length pre + 1 + length m = omega arith in
      subst
        (λ (r : Str).
          swap_from (suc fuel) i j (pre ++ (x ∷ (r ++ post))) ≡ pre ++ (reverse (x ∷ r) ++ post))
        (sym ends)
        (ap (λ r. swap_from (suc fuel) i j (pre ++ (x ∷ r))) (append_assoc m (y ∷ []) post)
          ∙ swap_from_step fuel i j (pre ++ (x ∷ (m ++ y ∷ post))) (ground arith)
          ∙ ap (swap_from fuel (i + 1) (j - 1)) (
              ap (λ k. swap k j (pre ++ (x ∷ (m ++ y ∷ post)))) pi
              ∙ swap-append pre m post x y j w
              ∙ sym (append_assoc pre (y ∷ []) (m ++ x ∷ post)))
          ∙ swap_from_between fuel (i + 1) (j - 1) (pre ++ y ∷ []) m (x ∷ post)
              (omega (arith, length-append pre (y ∷ [])))
              (omega (arith, length-append pre (y ∷ []))) (omega arith)
          ∙ append_assoc pre (y ∷ []) (reverse m ++ x ∷ post)
          ∙ ap (λ r. pre ++ r)
              (ap (λ r. y ∷ r) (sym (append_assoc (reverse m) (x ∷ []) post))
                ∙ ap (λ r. r ++ post) (sym (reverse-snoc x y m))))
]

-- The loop turns the runes round.
pub swap_from-reverse :
    (runes : Str) → swap_from (length runes) 0 (length runes - 1) runes ≡ reverse runes
swap_from-reverse runes =
    ap (swap_from (length runes) 0 (length runes - 1)) (sym (append-nil runes))
    ∙ swap_from_between (length runes) 0 (length runes - 1) [] runes [] refl (omega arith)
        (omega arith)
    ∙ append-nil (reverse runes)

-- The code is the loop's text, turned round.
pub encode_lem :
    (num : ℕ) → encode num ≡ (if num == 0 then symbol 0 ∷ [] else reverse (emit num num []))
unfolding encode
encode_lem num =
    ap (λ r. if num == 0 then symbol 0 ∷ [] else r) (swap_from-reverse (emit num num []))
