-- ===== src/Snowflake/Step.antt =====
-- What one call of `Generate` does to the node.
use Prim.Native.Nat.{bit_and}
use nanolink.Prelude.{
  ℕ, zero, suc, ◌+◌, ◌%◌, ◌^◌, ◌≤◌, ◌≡◌, refl, ◌⊎◌, inl, inr, true, false, some, arith, Bool-cases,
  Option-cases, ◌==◌, if◌then◌else◌,
}
use mathlib.Core.Path.{subst}
use nanolink.Prelude.Bits.{bit_and_mask}
use nanolink.Prelude.Int.{ℤ, ltb_ℤ, eqb_ℤ, ◌≤ℤ◌, ◌<ℤ◌}
use nanolink.Snowflake.{Node, max_sequence, compose, wait, stamp, generate}

-- `m` comes after `n`: a later stamp, or the same one with the next sequence number.
abbrev pub Later : Node → Node → Type 0
Later n m =
    (n.last_stamp <ℤ m.last_stamp) ⊎ ((m.last_stamp ≡ n.last_stamp) × (m.sequence ≡ n.sequence + 1))

pub record Advances (n m : Node) (id : ℕ) : Type 0 where
  pub base : m.epoch ≡ n.epoch
  pub node : m.node ≡ n.node
  pub fits : m.sequence ≤ max_sequence
  pub later : Later n m
  pub composed : id ≡ compose m

-- The loop ends with a reading after the last stamp.
wait-later :
    (fuel : ℕ) (clock : ℕ → ℤ) (at : ℕ) (last now : ℤ) {now' : ℤ} {at' : ℕ}
    → wait fuel clock at last now ≡ some (now', at')
    → last <ℤ now'
unfolding wait
wait-later zero clock at last now e = cc
wait-later (suc fuel) clock at last now {now' = t} {at' = a} e =
    ground (arith, wait-later fuel clock (suc at) last (clock at) {now' = t} {at' = a})

pub next_sequence : (s : ℕ) → bit_and (s + 1) max_sequence ≡ (s + 1) % 2 ^ 12
next_sequence s = bit_and_mask 12 (s + 1)

stamp-Advances :
    (n : Node) (sequence : ℕ) (now : ℤ) (at : ℕ) {id : ℕ} {m : Node} {at' : ℕ}
    → sequence ≤ max_sequence
    → Later n (record n { sequence = sequence; last_stamp = now })
    → stamp n sequence (some (now, at)) ≡ some (id, m, at')
    → Advances n m id × (m.last_stamp ≡ now)
unfolding stamp
stamp-Advances n sequence now at {id = i} {m = m} fits h e =
    let n' : Node = record n { sequence = sequence; last_stamp = now } in
    let p : n' ≡ m = cc in
    let q : i ≡ compose n' = cc in
    subst (λ x. Advances n x i × (x.last_stamp ≡ now)) p
      (record { base = refl; node = refl; fits = fits; later = h; composed = q }, refl)

-- the reading that a call starts from
abbrev pub first : ℤ → ℤ → ℤ
first now last = if ltb_ℤ now last then last else now

pub first-later : (now last : ℤ) → eqb_ℤ (first now last) last ≡ false → last <ℤ first now last
first-later now last h = ground arith

first-same : (now last : ℤ) → eqb_ℤ (first now last) last ≡ true → first now last ≡ last
first-same now last h = ground arith

-- Whatever the clock shows, also when it runs backwards, a call that returns, on a node whose
-- sequence fits its mask, leaves the node with a later stamp, or with the same stamp and the next
-- sequence number; the stamp is not before the call's first reading, and the identifier is
-- composed of the new state.
pub generate-Advances :
    (fuel : ℕ) (clock : ℕ → ℤ) (at : ℕ) (n : Node) {id : ℕ} {m : Node} {at' : ℕ}
    → n.sequence ≤ max_sequence
    → generate fuel clock at n ≡ some (id, m, at')
    → Advances n m id × (clock at ≤ℤ m.last_stamp)
unfolding generate
generate-Advances fuel clock at n fits e = elim (Bool-cases (eqb_ℤ now last)) [
  | inr moved ↦
      let (adv, p) =
        stamp-Advances n 0 now (suc at) (omega arith) (inl (first-later (clock at) last moved))
          (rw moved at e) in
      (adv, rw p (ground arith))
  | inl same ↦ elim (Bool-cases (next == 0)) [
    | inl full ↦ elim (Option-cases (wait fuel clock (suc at) last now)) [
      | inl stuck ↦ absurd (cc (rw (same, full, stuck, stamp) at e))
      | inr ((t, a), ended) ↦
          let late : last <ℤ t = wait-later fuel clock (suc at) last now ended in
          let (adv, p) =
            stamp-Advances n next t a (omega (arith, next_sequence n.sequence)) (inl late)
              (rw (same, full, ended) at e) in
          (adv, rw p (ground arith))
    ]
    | inr room ↦
        let (adv, p) =
          stamp-Advances n next now (suc at) (omega (arith, next_sequence n.sequence))
            (inr (first-same (clock at) last same, ground (arith, next_sequence n.sequence)))
            (rw (same, room) at e) in
        (adv, rw p (ground arith))
  ]
]
  where
    open n use {last_stamp as last}

    now : ℤ
    now = first (clock at) last

    next : ℕ
    next = bit_and (n.sequence + 1) max_sequence
