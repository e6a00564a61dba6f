-- ===== src/Tests/Codes.antt =====
-- Base62 codes and Snowflake identifiers.
use nanolink.Prelude.{
  ℕ, ◌+◌, ◌/◌, ◌%◌, ◌^◌, ◌≤◌, ◌<◌, ◌≡◌, ◌≢◌, refl, some, arith, List, [], ◌∷◌, codes, length,
}
use mathlib.Core.Logic.{◌↔◌}
use nanolink.Prelude.Int.{ℤ, pos, negsuc, ◌-ℤ◌}
use nanolink.Prelude.Result.{ok}
use nanolink.Base62.{encode, decode}
use nanolink.Base62.RoundTrip.{decode-encode, decode-eq-reading, reading, digits_of}
use nanolink.Base62.Size.{length-encode-le_iff}
use nanolink.Snowflake.{Node, epoch, new_node, compose, wait, generate, run}
use nanolink.Snowflake.Fields.{IsValid, InSpan, compose_read_back}
use nanolink.Snowflake.Run.{Rising, run-new_node-Rising}
use nanolink.Snowflake.Nodes.{compose_ne}

decode-encode_example : decode (encode 218340105584896) ≡ ok 218340105584896
decode-encode_example = decode-encode 218340105584896 (omega arith)

decode-eq-reading_example :
    decode (codes "no digit: -") ≡ reading (digits_of (codes "no digit: -")) 0
decode-eq-reading_example = decode-eq-reading (codes "no digit: -")

length-encode-le_iff_example :
    (length (encode 839299365868340224) ≤ 10) ↔ (839299365868340224 < 62 ^ 10)
length-encode-le_iff_example = length-encode-le_iff 839299365868340224 9

-- a node in the first second of 2024
abbrev early : ℤ → Node
early i = record { epoch = epoch; node = i; sequence = 4095; last_stamp = pos 1704067200999 }

early-InSpan : InSpan (pos 1704067200999)
early-InSpan = record { since = omega arith; until = omega arith }

early1-IsValid : IsValid (early (pos 1))
early1-IsValid = record {
  base = refl;
  lower = omega arith;
  upper = omega arith;
  fits = omega arith;
}

early2-IsValid : IsValid (early (pos 2))
early2-IsValid = record {
  base = refl;
  lower = omega arith;
  upper = omega arith;
  fits = omega arith;
}

compose_read_back_example :
    (compose (early (pos 1)) / 2 ^ 22 ≡ 999)
    × (compose (early (pos 1)) / 2 ^ 12 % 2 ^ 10 ≡ 1)
    × (compose (early (pos 1)) % 2 ^ 12 ≡ 4095)
    × (compose (early (pos 1)) < 2 ^ 64)
compose_read_back_example = compose_read_back (early (pos 1)) early1-IsValid early-InSpan

differ : pos 1 ≢ pos 2
differ e = absurd (cc)

compose_ne_example : compose (early (pos 1)) ≢ compose (early (pos 2))
compose_ne_example =
    compose_ne (early (pos 1)) (early (pos 2)) early1-IsValid early2-IsValid early-InSpan
      early-InSpan differ

-- a clock that stands still for three readings at a time
abbrev slow : ℕ → ℤ
slow i = pos (1704067200999 + i / 3)

abbrev rolled : Node
rolled = record { epoch = epoch; node = pos 1; sequence = 0; last_stamp = pos 1704067201000 }

generate-early : generate 9 slow 0 (early (pos 1)) ≡ some (compose rolled, rolled, 4)
unfolding generate wait
generate-early = refl

-- the node of the service, and its state after three calls
abbrev first_node : Node
first_node = record { epoch = epoch; node = pos 1; sequence = 0; last_stamp = negsuc 0 }

abbrev last_node : Node
last_node = record { epoch = epoch; node = pos 1; sequence = 2; last_stamp = pos 1704067200999 }

abbrev three_ids : List ℕ
three_ids = 4190113792 ∷ 4190113793 ∷ 4190113794 ∷ []

new_first : new_node (pos 1) ≡ ok first_node
unfolding new_node
new_first = refl

run_three : run 9 slow 0 3 first_node ≡ some (three_ids, last_node)
unfolding run generate compose ◌-ℤ◌
run_three = refl

run-new_node-Rising_example : Rising 0 three_ids
run-new_node-Rising_example =
    run-new_node-Rising 9 slow 0 3 (pos 1) new_first (omega arith) (omega arith) run_three
