-- ===== src/Tests/Goroutines.antt =====
-- Two goroutines in Generate.
use nanolink.Prelude.{ℕ, ◌≡◌, ◌≢◌, refl, some, none, ◌∷◌, arith}
use native.Mathlib.Decide.{ℕ_discrete}
use nanolink.Prelude.Int.{ℤ, pos, negsuc}
use nanolink.Prelude.Result.{ok}
use nanolink.Snowflake.{Node, epoch, new_node, compose, stamp, generate}
use nanolink.Snowflake.Fields.{InSpan}
use nanolink.Snowflake.Threads.{
  outside, entered, Threads, update, sequenced, read, finished, lock, look, leave, Turns, here,
  next, fresh,
}
use nanolink.Snowflake.Threads.Alone.{Returns, generate-Returns}
use nanolink.Snowflake.Threads.Runs.{Descending, Turns-Descending}

abbrev five : Node
five = record { epoch = epoch; node = pos 5; sequence = 0; last_stamp = negsuc 0 }

abbrev locked : ℕ → Threads → Threads
locked i s = record s { mu = some i; pc = update s.pc i entered }

abbrev looked : ℕ → ℤ → Threads → Threads
looked i t s = record s { node = (read s.node t).0; pc = update s.pc i (read s.node t).1 }

abbrev left : ℕ → ℤ → Threads → Threads
left i now s = record {
  node = finished s.node now;
  mu = none;
  pc = update s.pc i outside;
  given = compose (finished s.node now) ∷ s.given;
}

abbrev noon : ℤ
noon = pos 1704110400000

-- the second goroutine's clock shows a second less
abbrev before : ℤ
before = pos 1704110399000

noon-InSpan : InSpan noon
noon-InSpan = record { since = omega arith; until = omega arith }

before-InSpan : InSpan before
before-InSpan = record { since = omega arith; until = omega arith }

abbrev first_back : Threads
first_back = left 0 noon (looked 0 noon (locked 0 (fresh five)))

abbrev second_inside : Threads
second_inside = looked 1 before (locked 1 first_back)

both_turn : Turns (fresh five) second_inside
unfolding read sequenced ℕ_discrete
both_turn =
    next
      (next
        (next (next (next here (lock 0 refl refl refl)) (look 0 noon refl noon-InSpan refl))
          (leave 0 noon refl refl))
        (lock 1 refl refl refl))
      (look 1 before refl before-InSpan refl)

two_ids : Turns (fresh five) (left 1 noon second_inside)
unfolding read sequenced ℕ_discrete
two_ids = next both_turn (leave 1 noon refl refl)

new_five : new_node (pos 5) ≡ ok five
unfolding new_node
new_five = refl

Turns-Descending_example :
    Descending (left 1 noon second_inside).given
    × ((i j : ℕ)
        → (left 1 noon second_inside).pc i ≢ outside
        → (left 1 noon second_inside).pc j ≢ outside
        → i ≡ j)
Turns-Descending_example = Turns-Descending (pos 5) new_five two_ids

steady : (k : ℕ) → InSpan noon
steady k = noon-InSpan

called : generate 3 (λ k. noon) 0 five ≡ some (compose (finished five noon), finished five noon, 1)
unfolding generate stamp
called = refl

generate-Returns_example :
    Returns 0 (fresh five) (compose (finished five noon)) (finished five noon)
generate-Returns_example = generate-Returns 3 (λ k. noon) 0 0 (fresh five) steady refl refl called
