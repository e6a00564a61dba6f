-- ===== src/RateLimit/Script.antt =====
-- `tokenBucketScript`, as a function of what the hash at the key holds, and `EvaluateTokenBucket`.
use nanolink.Prelude.{
  ℕ, ◌≡◌, refl, Bool, true, Option, none, some, List, [], ◌∷◌, Str, codes, if◌then◌else◌,
}
use nanolink.Prelude.Int.{ℤ, pos, eqb_ℤ}
use nanolink.Prelude.Float.{Floats}
use nanolink.Prelude.Result.{Result, ok, err}

-- What an element of the reply can be on the Go side.
pub data Item : Type 0 where
  int64 : ℤ → Item
  text : Str → Item

-- the result of Eval
pub data Reply : Type 0 where
  array : List Item → Reply
  scalar : Item → Reply

abbrev pub unexpected_format : Str
unexpected_format = codes "unexpected script response format"

module _ (fl : Floats) where
  open fl use {F, of_nat, le, add, sub, mul, div, min, max, ceil, floor, is_seconds}

  -- the fields "tokens" and "last_updated" of the hash
  pub record Hash : Type 0 where
    pub tokens : Option F
    pub last_updated : Option F

  -- What a run leaves in Redis and returns: the fields that HMSET writes, the seconds that EXPIRE
  -- sets (`none` where the script does not call it), and the two numbers of the reply.
  pub record Outcome : Type 0 where
    pub tokens : F
    pub last_updated : F
    pub expire : Option F
    pub allowed : ℕ
    pub remaining : ℤ

  -- the tokens at hand after `if not tokens … else … end`
  unfoldable pub available : F → F → F → F → F → F
  available capacity refill_rate now tokens last_updated =
      min capacity (add tokens (mul (max (of_nat 0) (sub now last_updated)) refill_rate))

  -- `if tokens >= requested … else … end`
  unfoldable pub settle : F → F → F → F → F → Outcome
  settle capacity refill_rate now requested tokens =
      let rest = sub tokens requested in
      if le requested tokens
      then record {
        tokens = rest;
        last_updated = now;
        expire = some (ceil (div capacity refill_rate));
        allowed = 1;
        remaining = floor rest;
      }
      else record {
        tokens = tokens;
        last_updated = now;
        expire = none;
        allowed = 0;
        remaining = floor tokens;
      }

  -- the run up to EXPIRE; `none` is a script error: arithmetic on a field that is not there
  unfoldable pub attempt : Hash → F → F → F → F → Option Outcome
  unfolding available settle
  attempt h capacity refill_rate now requested = elim h.tokens [
    | none ↦ some (settle capacity refill_rate now requested capacity)
    | some tokens ↦ elim h.last_updated [
      | none ↦ none
      | some last ↦ some (
          settle capacity refill_rate now requested
            (available capacity refill_rate now tokens last))
    ]
  ]

  -- EXPIRE is not called, or takes its argument
  abbrev pub expires : Option F → Bool
  expires none = true
  expires (some e) = is_seconds e

  -- what the run returns: an error of EXPIRE ends the script
  abbrev pub checked : Option Outcome → Option Outcome
  checked none = none
  checked (some o) = if expires o.expire then some o else none

  unfoldable pub script : Hash → F → F → F → F → Option Outcome
  unfolding attempt
  script h capacity refill_rate now requested =
      checked (attempt h capacity refill_rate now requested)

-- the type assertion `x.(int64)`, which panics on any other type
unfoldable pub assert_int64 : Item → Option ℤ
assert_int64 (int64 n) = some n
assert_int64 (text s) = none

unfoldable pub decode_pair : Option ℤ → Option ℤ → Option (Result (Bool × ℤ))
decode_pair (some a) (some r) = some (ok (eqb_ℤ a (pos 1), r))
decode_pair _ _ = none

-- what `EvaluateTokenBucket` makes of the reply of Eval; `none` is a panic
unfoldable pub decode_reply : Result Reply → Option (Result (Bool × ℤ))
unfolding assert_int64 decode_pair
decode_reply (err e) = some (err e)
decode_reply (ok (scalar x)) = some (err unexpected_format)
decode_reply (ok (array [])) = some (err unexpected_format)
decode_reply (ok (array (x ∷ []))) = some (err unexpected_format)
decode_reply (ok (array (x ∷ y ∷ rest))) = decode_pair (assert_int64 x) (assert_int64 y)

module _ (fl : Floats) where
  -- the reply to `return {allowed, remaining}`
  unfoldable pub reply_of : Option (Outcome fl) → Result Reply
  reply_of none = err (codes "ERR Error running script")
  reply_of (some o) = ok (array (int64 (pos o.allowed) ∷ int64 o.remaining ∷ []))

  -- The reply of every run is decoded with no panic, to the two numbers that the script returned.
  pub decode_reply-reply_of :
      (o : Outcome fl)
      → decode_reply (reply_of (some o)) ≡ some (ok (eqb_ℤ (pos o.allowed) (pos 1), o.remaining))
  unfolding decode_reply reply_of
  decode_reply-reply_of o = refl
