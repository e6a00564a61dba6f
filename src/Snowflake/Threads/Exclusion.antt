-- ===== src/Snowflake/Threads/Exclusion.antt =====
-- What a goroutine does to the node while it has the mutex of Generate: internal/pkg/snowflake/snowflake.go.
use Prim.Native.Nat.{bit_and}
use mathlib.Core.Logic.{if_pos, if_neg}
use native.Mathlib.Decide.{ℕ_discrete}
use nanolink.Prelude.{
  ℕ, ◌+◌, ◌≤◌, ◌<◌, ◌≡◌, ◌≢◌, refl, sym, ap, ◌∙◌, ◌⊎◌, inl, inr, false, Option, none, some, List,
  [], ◌∷◌, ◌==◌, arith, if◌then◌else◌, Bool-cases,
}
use nanolink.Prelude.Int.{ℤ, negsuc, ltb_ℤ, leb_ℤ, eqb_ℤ, ◌<ℤ◌}
use nanolink.Snowflake.{Node, max_sequence, compose}
use nanolink.Snowflake.Fields.{IsValid, InSpan}
use nanolink.Snowflake.Step.{Advances, next_sequence, first, first-later}
use nanolink.Snowflake.Run.{compose-lt}
use nanolink.Snowflake.Threads.{
  Pc, outside, entered, spinning, settled, update, sequenced, read, spin, finished,
}

-- Strictly decreasing numbers, all below `high`.
abbrev pub Falling : ℕ → List ℕ → Type 0
Falling high [] = Unit {0}
Falling high (x ∷ xs) = (x < high) × Falling x xs

Falling-le : (a b : ℕ) (ids : List ℕ) → a ≤ b → Falling a ids → Falling b ids
Falling-le a b [] h f = tt
Falling-le a b (x ∷ ids) h f = (omega arith, f.1)

-- What has been handed out by a node: nothing yet, or identifiers up to its own.
abbrev pub Past : Node → List ℕ → Type 0
Past b given =
    ((given ≡ []) × (b.last_stamp ≡ negsuc 0))
    ⊎ (InSpan b.last_stamp × Falling (compose b + 1) given)

-- What the goroutine in Generate has made of the node `b` that it found.
abbrev pub Inside : Node → Node → Pc → Type 0
Inside b n outside = ⊥
Inside b n entered = n ≡ b
Inside b n (spinning now) = (n ≡ record b { sequence = 0 }) × ((now ≡ b.last_stamp) ⊎ InSpan now)
Inside b n (settled now) = Advances b (finished n now) (compose (finished n now)) × InSpan now

-- Nobody is in Generate without the mutex.
abbrev pub Held : Node → Node → (ℕ → Pc) → Option ℕ → Type 0
Held b n pc none = (n ≡ b) × ((j : ℕ) → pc j ≡ outside)
Held b n pc (some i) = Inside b n (pc i) × ((j : ℕ) → j ≢ i → pc j ≡ outside)

-- The reading is not before the last stamp.
first-InSpan :
    (b : Node) (given : List ℕ) (t : ℤ)
    → Past b given
    → InSpan t
    → InSpan (if ltb_ℤ t b.last_stamp then b.last_stamp else t)
first-InSpan b given t (inl (e, new)) s = rw new (ground arith)
first-InSpan b given t (inr (old, f)) s = elim (Bool-cases (ltb_ℤ t b.last_stamp)) [
  | inl before ↦ rw before old
  | inr after ↦ rw after s
]

sequenced-Inside :
    (b : Node) (now : ℤ)
    → IsValid b
    → InSpan now
    → (eqb_ℤ now b.last_stamp ≡ false → b.last_stamp <ℤ now)
    → Inside b (sequenced b now).0 (sequenced b now).1
unfolding sequenced
sequenced-Inside b now v s later = elim (Bool-cases (eqb_ℤ now b.last_stamp)) [
  | inr after ↦ rw after (
    record {
      base = refl;
      node = refl;
      fits = omega arith;
      later = inl (later after);
      composed = refl;
    },
    s,
  )
  | inl same ↦
      let e : now ≡ b.last_stamp = ground arith in
      elim (Bool-cases (bit_and (b.sequence + 1) max_sequence == 0)) [
        | inl full ↦
            let z : bit_and (b.sequence + 1) max_sequence ≡ 0 = ground arith in
            rw (same, full) (ap (λ k. record b { sequence = k }) z, inl e)
        | inr more ↦
            rw (same, more)
              (
                record {
                  base = refl;
                  node = refl;
                  fits = omega (arith, next_sequence b.sequence);
                  later = inr (e, ground (arith, next_sequence b.sequence, v.fits));
                  composed = refl;
                },
                s,
              )
      ]
]

pub read-Inside :
    (b : Node) (given : List ℕ) (t : ℤ)
    → IsValid b
    → Past b given
    → InSpan t
    → Inside b (read b t).0 (read b t).1
unfolding read
read-Inside b given t v p s =
    sequenced-Inside b (first t b.last_stamp) v (first-InSpan b given t p s)
      (first-later t b.last_stamp)

pub spin-Inside :
    (b n : Node) (now t : ℤ) → InSpan t → Inside b n (spinning now) → Inside b n (spin n now t)
unfolding spin
spin-Inside b n now t s (e, old) = elim (Bool-cases (leb_ℤ now n.last_stamp)) [
  | inl early ↦ rw early (e, inr s)
  | inr late ↦
      let stamp : n.last_stamp ≡ b.last_stamp = ap (λ (m : Node). m.last_stamp) e in
      let after : b.last_stamp <ℤ now = rw (← stamp) (ground arith) in
      rw (late, e)
        (
          record {
            base = refl;
            node = refl;
            fits = omega arith;
            later = inl after;
            composed = refl;
          },
          in_span after old,
        )
]
  where
    in_span : b.last_stamp <ℤ now → (now ≡ b.last_stamp) ⊎ InSpan now → InSpan now
    in_span after (inl same) = absurd (ground arith)
    in_span after (inr s') = s'

pub leave-Past :
    (b n : Node) (given : List ℕ) (now : ℤ)
    → IsValid b
    → Past b given
    → Inside b n (settled now)
    → Past (finished n now) (compose (finished n now) ∷ given)
leave-Past b n given now v (inl (e, new)) (a, s) = inr (s, (omega arith, rw e tt))
leave-Past b n given now v (inr (old, f)) (a, s) = inr (
  s,
  (
    omega arith,
    Falling-le (compose b + 1) (compose (finished n now)) given
        (omega (arith, compose-lt b (finished n now) v a old s)) f,
  ),
)

-- The goroutine that is in Generate has the mutex.
pub holder :
    (b n : Node) (pc : ℕ → Pc) (mu : Option ℕ) (i : ℕ) {p : Pc}
    → Held b n pc mu
    → pc i ≡ p
    → p ≢ outside
    → (mu ≡ some i) × Inside b n p × ((j : ℕ) → j ≢ i → pc j ≡ outside)
holder b n pc none i h e in_it = absurd (in_it (sym e ∙ h.1 i))
holder b n pc (some k) i h e in_it = elim (ℕ_discrete i k) [
  | yes same ↦ let there = rw (← same) at h in (ap some (sym same), rw e at there.0, there.1)
  | no other ↦ absurd (in_it (sym e ∙ h.1 i other))
]

-- Another turn of the goroutine in Generate.
pub stays :
    (b n : Node) (pc : ℕ → Pc) (i : ℕ) (p : Pc)
    → Inside b n p
    → ((j : ℕ) → j ≢ i → pc j ≡ outside)
    → Held b n (update pc i p) (some i)
stays b n pc i p h others = (
  rw (if_pos (ℕ_discrete i i) refl) h,
  λ j other. if_neg (ℕ_discrete i j) (λ e. other (sym e)) _ _ ∙ others j other,
)

-- Nobody is left in Generate.
pub empties :
    (n : Node) (pc : ℕ → Pc) (i : ℕ)
    → ((j : ℕ) → j ≢ i → pc j ≡ outside)
    → Held n n (update pc i outside) none
empties n pc i others = (
  refl,
  λ j. elim (ℕ_discrete i j) [
    | yes same ↦ if_pos (ℕ_discrete i j) same _ _
    | no other ↦ if_neg (ℕ_discrete i j) other _ _ ∙ others j (λ e. other (sym e))
  ],
)
