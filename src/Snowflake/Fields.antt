-- ===== src/Snowflake/Fields.antt =====
-- The layout of an identifier: 42 bits of time, 10 of node, 12 of sequence.
use Prim.Native.Nat.{bit_or}
use nanolink.Prelude.{
  ℕ, ◌+◌, ◌-◌, ◌*◌, ◌/◌, ◌%◌, ◌^◌, ◌≤◌, ◌<◌, ◌≡◌, refl, ◌⊎◌, inl, inr, ◌∙◌, arith,
}
use nanolink.Prelude.Bits.{bit_or_fields}
use nanolink.Prelude.Int.{ℤ, pos, negsuc, pos_part, neg_part, ◌≤ℤ◌, ◌<ℤ◌, ◌-ℤ◌, word64, -ℤ_parts}
use nanolink.Snowflake.{Node, epoch, max_node, max_sequence, compose}

pub record IsValid (n : Node) : Type 0 where
  pub base : n.epoch ≡ epoch
  pub lower : pos 0 ≤ℤ n.node
  pub upper : n.node ≤ℤ pos max_node
  pub fits : n.sequence ≤ max_sequence

-- From 2024 on, for 2 ^ 42 milliseconds (139 years).
pub record InSpan (now : ℤ) : Type 0 where
  pub since : epoch ≤ℤ now
  pub until : now <ℤ pos (1704067200000 + 2 ^ 42)

-- milliseconds since the epoch
abbrev pub age : Node → ℕ
age n = pos_part n.last_stamp - 1704067200000

neg_or_pos : (a : ℤ) → (neg_part a ≡ 0) ⊎ (pos_part a ≡ 0)
neg_or_pos (pos n) = inl refl
neg_or_pos (negsuc n) = inr refl

word64-eq : (a : ℤ) (t : ℕ) → pos_part a ≡ t + neg_part a → t < 2 ^ 42 → word64 a ≡ t
word64-eq a t e lt = ground arith

join :
    (t d s : ℕ)
    → t < 2 ^ 42
    → d < 2 ^ 10
    → s < 2 ^ 12
    → bit_or (bit_or (t * 2 ^ 22 % 2 ^ 64) (d * 2 ^ 12 % 2 ^ 64)) s ≡ t * 2 ^ 22 + d * 2 ^ 12 + s
join t d s ht hd hs =
    let e : t * 2 ^ 22 % 2 ^ 64 ≡ t * 2 ^ 22 = omega arith in
    let f : d * 2 ^ 12 % 2 ^ 64 ≡ d * 2 ^ 12 = omega arith in
    let g : bit_or (t * 2 ^ 22) (d * 2 ^ 12) ≡ (t * 2 ^ 10 + d) * 2 ^ 12 =
      bit_or_fields 22 t (d * 2 ^ 12) (omega arith) ∙ omega arith in
    rw (e, f, g) (bit_or_fields 12 (t * 2 ^ 10 + d) s (omega arith) ∙ omega arith)

-- In range, the three fields do not overlap and none is cut off.
pub compose-fields :
    (n : Node)
    → IsValid n
    → InSpan n.last_stamp
    → compose n ≡ age n * 2 ^ 22 + pos_part n.node * 2 ^ 12 + n.sequence
unfolding compose
compose-fields n v s =
    let diff : pos_part (n.last_stamp -ℤ n.epoch) ≡ age n + neg_part (n.last_stamp -ℤ n.epoch) =
      rw v.base (omega (arith, -ℤ_parts n.last_stamp epoch, neg_or_pos n.last_stamp)) in
    let number : pos_part n.node ≡ pos_part n.node + neg_part n.node =
      omega (arith, neg_or_pos n.node) in
    rw
      (
        word64-eq (n.last_stamp -ℤ n.epoch) (age n) diff (omega (arith, neg_or_pos n.last_stamp)),
        word64-eq n.node (pos_part n.node) number (omega (arith, neg_or_pos n.node)),
      )
      (join (age n) (pos_part n.node) n.sequence (omega (arith, neg_or_pos n.last_stamp))
        (omega (arith, neg_or_pos n.node)) (omega arith))

-- For a valid node whose stamp is in the 2 ^ 42 ms from the start of 2024, the identifier fits 64
-- bits, and its time, node and sequence are read back by division.
pub compose_read_back :
    (n : Node)
    → IsValid n
    → InSpan n.last_stamp
    → (compose n / 2 ^ 22 ≡ age n)
      × (compose n / 2 ^ 12 % 2 ^ 10 ≡ pos_part n.node)
      × (compose n % 2 ^ 12 ≡ n.sequence)
      × (compose n < 2 ^ 64)
compose_read_back n v s =
    let h : compose n ≡ age n * 2 ^ 22 + pos_part n.node * 2 ^ 12 + n.sequence =
      compose-fields n v s in
    let lo : pos_part n.node < 2 ^ 10 = omega (arith, neg_or_pos n.node) in
    let t : age n < 2 ^ 42 = omega (arith, neg_or_pos n.last_stamp) in
    rw h (omega arith, omega arith, omega arith, omega arith)
