-- ===== src/Snowflake/Threads.antt =====
-- Concurrent calls of Generate, internal/pkg/snowflake/snowflake.go: any number of goroutines, which
-- take the mutex in any order and are interleaved at every reading of the clock.
pub mod Alone
pub mod Exclusion
pub mod Runs
use Prim.Native.Nat.{bit_and}
use mathlib.Core.Logic.{ite}
use native.Mathlib.Decide.{ℕ_discrete}
use nanolink.Prelude.{
  ℕ, ◌+◌, ◌≡◌, true, false, Option, none, some, List, [], ◌∷◌, ◌==◌, if◌then◌else◌,
}
use nanolink.Prelude.Int.{ℤ, ltb_ℤ, leb_ℤ, eqb_ℤ}
use nanolink.Snowflake.{Node, max_sequence, compose}
use nanolink.Snowflake.Fields.{InSpan}

-- Where a goroutine stands in Generate: outside; at the reading of the clock; at the test of the waiting
-- loop; before the last three lines, each with its `now`.
pub data Pc : Type 0 where
  outside : Pc
  entered : Pc
  spinning : ℤ → Pc
  settled : ℤ → Pc

-- The node with its mutex, the goroutines, and the identifiers returned, newest first.
pub record Threads : Type 0 where
  pub node : Node
  pub mu : Option ℕ
  pub pc : ℕ → Pc
  pub given : List ℕ

abbrev pub update : (ℕ → Pc) → ℕ → Pc → ℕ → Pc
update f i p j = ite (ℕ_discrete i j) p (f j)

-- the test of `now` against the last stamp
unfoldable pub sequenced : Node → ℤ → Node × Pc
sequenced n now =
    let next : ℕ = bit_and (n.sequence + 1) max_sequence in
    if eqb_ℤ now n.last_stamp
    then (record n { sequence = next }, if next == 0 then spinning now else settled now)
    else (record n { sequence = 0 }, settled now)

-- from the first reading of the clock to the loop or past it
unfoldable pub read : Node → ℤ → Node × Pc
read n t = sequenced n (if ltb_ℤ t n.last_stamp then n.last_stamp else t)

-- one test of the loop, and the reading in its body
unfoldable pub spin : Node → ℤ → ℤ → Pc
spin n now t = if leb_ℤ now n.last_stamp then spinning t else settled now

-- `n.lastStamp = now`
abbrev pub finished : Node → ℤ → Node
finished n now = record n { last_stamp = now }

-- A turn of goroutine i; the clock shows any time of the 2 ^ 42 ms from the start of 2024.
pub data Turn (s u : Threads) : Type 0 where
  lock :
      (i : ℕ)
      → s.pc i ≡ outside
      → s.mu ≡ none
      → u ≡ record s { mu = some i; pc = update s.pc i entered }
      → Turn s u
  look :
      (i : ℕ) (t : ℤ)
      → s.pc i ≡ entered
      → InSpan t
      → u ≡ record s { node = (read s.node t).0; pc = update s.pc i (read s.node t).1 }
      → Turn s u
  wait :
      (i : ℕ) (now t : ℤ)
      → s.pc i ≡ spinning now
      → InSpan t
      → u ≡ record s { pc = update s.pc i (spin s.node now t) }
      → Turn s u
  -- the identifier is returned, and the mutex is unlocked
  leave :
      (i : ℕ) (now : ℤ)
      → s.pc i ≡ settled now
      → u ≡ record {
        node = finished s.node now;
        mu = none;
        pc = update s.pc i outside;
        given = compose (finished s.node now) ∷ s.given;
      }
      → Turn s u

pub data Turns (s : Threads) : Threads → Type 0 where
  here : Turns s s
  next : {t u : Threads} → Turns s t → Turn t u → Turns s u

-- a node that NewNode has made, and nobody in Generate
abbrev pub fresh : Node → Threads
fresh n = record { node = n; mu = none; pc = λ _. outside; given = [] }
