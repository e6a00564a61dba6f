-- ===== src/Snowflake.antt =====
-- internal/pkg/snowflake/snowflake.go. An int64 is an integer; its 64-bit patterns are written out
-- where the identifier is put together. `clock i` is the i-th reading of the wall clock, in
-- milliseconds; a call takes the position of its first reading and returns that of the next one.
pub mod Fields
pub mod Step
pub mod Run
pub mod Nodes
pub mod Threads
use Prim.Native.Nat.{bit_and, bit_or}
use nanolink.Prelude.{
  ℕ, zero, suc, ◌+◌, ◌-◌, ◌*◌, ◌%◌, ◌^◌, ◌≡◌, refl, Bool, true, false, ◌||◌, Option, none, some,
  List, [], ◌∷◌, Str, codes, ◌==◌, if◌then◌else◌,
}
use nanolink.Prelude.Int.{ℤ, pos, negsuc, ltb_ℤ, leb_ℤ, eqb_ℤ, word64, ◌-ℤ◌}
use nanolink.Prelude.Result.{Result, ok, err}

abbrev pub epoch : ℤ
epoch = pos 1704067200000

abbrev pub node_bits : ℕ
node_bits = 10

abbrev pub sequence_bits : ℕ
sequence_bits = 12

-- `-1 ^ (-1 << n)` is a mask of n ones
abbrev pub max_node : ℕ
max_node = 2 ^ node_bits - 1

abbrev pub max_sequence : ℕ
max_sequence = 2 ^ sequence_bits - 1

abbrev pub node_shift : ℕ
node_shift = sequence_bits

abbrev pub timestamp_shift : ℕ
timestamp_shift = sequence_bits + node_bits

-- The sequence is masked whenever it changes, so it is never negative.
pub record Node : Type 0 where
  pub epoch : ℤ
  pub node : ℤ
  pub sequence : ℕ
  pub last_stamp : ℤ

abbrev pub node_out_of_range : Str
node_out_of_range = codes "node ID out of valid range (0-1023)"

unfoldable pub new_node : ℤ → Result Node
new_node node_id =
    if ltb_ℤ node_id (pos 0) || ltb_ℤ (pos max_node) node_id
    then err node_out_of_range
    else ok (record { epoch = epoch; node = node_id; sequence = 0; last_stamp = negsuc 0 })

-- `uint64((now-n.epoch)<<timestampShift | (n.node << nodeShift) | n.sequence)`, for the stamp that
-- the node has just taken
unfoldable pub compose : Node → ℕ
compose n =
    bit_or
      (bit_or (word64 (n.last_stamp -ℤ n.epoch) * 2 ^ timestamp_shift % 2 ^ 64)
        (word64 n.node * 2 ^ node_shift % 2 ^ 64))
      n.sequence

-- `for now <= n.lastStamp { now = time.Now().UnixMilli() }`; `none` if the loop has not ended
-- within the fuel
unfoldable pub wait : ℕ → (ℕ → ℤ) → ℕ → ℤ → ℤ → Option (ℤ × ℕ)
wait zero clock at last now = none
wait (suc fuel) clock at last now =
    let rest = wait fuel clock (suc at) last (clock at) in
    if leb_ℤ now last then rest else some (now, at)

-- the last three lines of `Generate`
unfoldable pub stamp : Node → ℕ → Option (ℤ × ℕ) → Option (ℕ × Node × ℕ)
stamp n sequence none = none
stamp n sequence (some (now, at)) =
    let n' : Node = record n { sequence = sequence; last_stamp = now } in some (compose n', n', at)

unfoldable pub generate : ℕ → (ℕ → ℤ) → ℕ → Node → Option (ℕ × Node × ℕ)
unfolding stamp
generate fuel clock at n =
    let now : ℤ = if ltb_ℤ (clock at) n.last_stamp then n.last_stamp else clock at in
    let next : ℕ = bit_and (n.sequence + 1) max_sequence in
    if eqb_ℤ now n.last_stamp
    then if next == 0
      then stamp n next (wait fuel clock (suc at) n.last_stamp now)
      else stamp n next (some (now, suc at))
    else stamp n 0 (some (now, suc at))

-- k calls in a row
unfoldable pub run : ℕ → (ℕ → ℤ) → ℕ → ℕ → Node → Option (List ℕ × Node)
run fuel clock at zero n = some ([], n)
run fuel clock at (suc k) n = elim (generate fuel clock at n) [
  | none ↦ none
  | some (id, n', at') ↦ elim (run fuel clock at' k n') [
    | none ↦ none
    | some (ids, last) ↦ some (id ∷ ids, last)
  ]
]
