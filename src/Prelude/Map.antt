-- ===== src/Prelude/Map.antt =====
-- Go maps with string keys as association lists. The program never iterates over such a map.
use mathlib.Core.Path.{◌≡◌, refl, sym, ◌∙◌}
use mathlib.Core.Logic.{inl, inr}
use mathlib.Core.Bool.{false, ◌&&◌, false≢true}
use mathlib.Core.Option.{Option, none, some}
use mathlib.Core.List.{List, [], ◌∷◌}
use native.Mathlib.Omega.{arith}
use nanolink.Prelude.Tests.{if◌then◌else◌, Bool-cases}
use nanolink.Prelude.Bytes.{Str, str_eq, str_eq_sound, str_eq_refl}

-- A text cannot be equal to two different ones.
apart : (k i j : Str) → str_eq j k ≡ false → (str_eq j i && str_eq k i) ≡ false
apart k i j h = elim (Bool-cases (str_eq j i && str_eq k i)) [
  | inr no' ↦ no'
  | inl both ↦
      let p : j ≡ i = str_eq_sound j i (ground arith) in
      let q : k ≡ i = str_eq_sound k i (ground arith) in
      absurd (false≢true (sym (rw (p, q) at h) ∙ str_eq_refl i))
]

module _ {ℓ} {V : Type ℓ} where
  unfoldable pub find : Str → List (Str × V) → Option V
  find k [] = none
  find k ((j, v) ∷ m) = if str_eq j k then some v else find k m

  unfoldable pub put : Str → V → List (Str × V) → List (Str × V)
  put k v [] = (k, v) ∷ []
  put k v ((j, w) ∷ m) = if str_eq j k then (k, v) ∷ m else (j, w) ∷ put k v m

  find-put_same :
      (k i j : Str) (v w : V) (m : List (Str × V))
      → j ≡ k
      → (if str_eq k i then some v else find i m)
        ≡ (if str_eq k i then some v else if str_eq j i then some w else find i m)
  find-put_same k i j v w m e = rw e (ground arith)

  pub find-put :
      (k i : Str) (v : V) (m : List (Str × V))
      → find i (put k v m) ≡ (if str_eq k i then some v else find i m)
  unfolding find put
  find-put k i v [] = refl
  find-put k i v ((j, w) ∷ m) = elim (Bool-cases (str_eq j k)) [
    | inl same ↦ rw same (find-put_same k i j v w m (str_eq_sound j k same))
    | inr other ↦ rw other (rw (find-put k i v m) (ground (arith, apart k i j other)))
  ]
