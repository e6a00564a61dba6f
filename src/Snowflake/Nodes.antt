-- ===== src/Snowflake/Nodes.antt =====
-- Nodes with different numbers, and the loop that waits for the clock.
use Prim.Native.Nat.{bit_and}
use nanolink.Prelude.{
  ℕ, zero, suc, ◌+◌, ◌/◌, ◌%◌, ◌^◌, ◌<◌, ◌≡◌, ◌≢◌, ap, some, arith, inl, inr, Bool-cases, ◌==◌,
  if◌then◌else◌,
}
use native.Mathlib.Nat.{add-zero}
use nanolink.Prelude.Int.{ℤ, pos, negsuc, pos_part, ltb_ℤ, leb_ℤ, eqb_ℤ, ◌<ℤ◌, ◌≤ℤ◌}
use nanolink.Snowflake.{Node, max_sequence, compose, wait, stamp, generate}
use nanolink.Snowflake.Fields.{IsValid, InSpan, compose_read_back}

-- Two valid nodes with different numbers never compose the same identifier, at whatever times and
-- sequence numbers, as long as both stamps are in the 2 ^ 42 ms from the start of 2024.
pub compose_ne :
    (n m : Node)
    → IsValid n
    → IsValid m
    → InSpan n.last_stamp
    → InSpan m.last_stamp
    → n.node ≢ m.node
    → compose n ≢ compose m
compose_ne n m vn vm sn sm ne e = ne (
    same n.node m.node vn.lower vm.lower (
      omega (
        arith,
        ap (λ (x : ℕ). x / 2 ^ 12 % 2 ^ 10) e,
        (compose_read_back n vn sn).1,
        (compose_read_back m vm sm).1,
      )))
  where
    same : (a b : ℤ) → pos 0 ≤ℤ a → pos 0 ≤ℤ b → pos_part a ≡ pos_part b → a ≡ b
    same (pos a) (pos b) p q e = ap pos e
    same (pos a) (negsuc b) p q e = absurd (omega arith)
    same (negsuc a) b p q e = absurd (omega arith)

wait_stop :
    (fuel : ℕ) (clock : ℕ → ℤ) (at : ℕ) (last now : ℤ)
    → last <ℤ now
    → wait (suc fuel) clock at last now ≡ some (now, at)
unfolding wait
wait_stop fuel clock at last now h = ground arith

wait-total :
    (fuel : ℕ) (clock : ℕ → ℤ) (at : ℕ) (last now : ℤ) (j : ℕ)
    → suc j < fuel
    → last <ℤ clock (at + j)
    → (r : ℤ × ℕ) × (wait fuel clock at last now ≡ some r)
unfolding wait
wait-total zero clock at last now j f h = absurd (omega arith)
wait-total (suc zero) clock at last now j f h = absurd (omega arith)
wait-total (suc (suc fuel)) clock at last now zero f h = elim (Bool-cases (leb_ℤ now last)) [
  | inr ended ↦ ((now, at), rw ended)
  | inl more ↦
      let late : last <ℤ clock at = rw add-zero at h in
      ((clock at, suc at), rw (more, wait_stop fuel clock (suc at) last (clock at) late))
]
wait-total (suc (suc fuel)) clock at last now (suc j) f h = elim (Bool-cases (leb_ℤ now last)) [
  | inr ended ↦ ((now, at), rw ended)
  | inl more ↦
      let e : at + suc j ≡ suc at + j = omega arith in
      rw more (wait-total (suc fuel) clock (suc at) last (clock at) j (omega arith) (rw e at h))
]

-- A call ends as soon as the clock shows a time after the last stamp: if reading j after the first
-- one does, fuel above j + 1 is enough, and the call returns an identifier.
pub generate-total :
    (fuel : ℕ) (clock : ℕ → ℤ) (at : ℕ) (n : Node) (j : ℕ)
    → suc j < fuel
    → n.last_stamp <ℤ clock (suc at + j)
    → (r : ℕ × Node × ℕ) × (generate fuel clock at n ≡ some r)
unfolding generate
generate-total fuel clock at n j f h =
    let (r, ended) = wait-total fuel clock (suc at) n.last_stamp now j f h in
    elim (Bool-cases (eqb_ℤ now n.last_stamp)) [
      | inr moved ↦ (done 0 now (suc at), rw (moved, stamp))
      | inl same ↦ elim (Bool-cases (next == 0)) [
        | inl full ↦ (done next r.0 r.1, rw (same, full, ended, stamp))
        | inr room ↦ (done next now (suc at), rw (same, room, stamp))
      ]
    ]
  where
    now : ℤ
    now = if ltb_ℤ (clock at) n.last_stamp then n.last_stamp else clock at

    next : ℕ
    next = bit_and (n.sequence + 1) max_sequence

    done : ℕ → ℤ → ℕ → ℕ × Node × ℕ
    done s t a = let n' : Node = record n { sequence = s; last_stamp = t } in (compose n', n', a)
