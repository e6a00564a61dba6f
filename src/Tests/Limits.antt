-- ===== src/Tests/Limits.antt =====
-- The token buckets.
use mathlib.Core.Option
use nanolink.Prelude.{
  ℕ, ◌+◌, ◌-◌, ◌*◌, ◌≤◌, ◌≡◌, refl, none, some, arith, List, [], ◌∷◌, Str, codes, leb, get_or,
  if◌then◌else◌,
}
use nanolink.Prelude.Int.{pos, ◌-ℤ◌}
use nanolink.Prelude.Float.{NonNeg}
use nanolink.Prelude.Map.{find}
use nanolink.TokenBucket.{TokenBucket, new_token_bucket, refilled, IsValid, refill, allow-IsValid}
use nanolink.TokenBucket
use nanolink.RateLimit.Script.{Outcome, attempt, script, settle, available}
use nanolink.RateLimit.Exact.{at_hand, whole, missing, verdict, granted, script-exact, granted-le}
use nanolink.RateLimit.Expiry.{evaluate, expiring, lasting, unset}
use nanolink.RateLimit.Expiry.Unseen.{expiring-eq-lasting}
use nanolink.RateLimit.Service.{RateLimiterService}
use nanolink.RateLimit.Isolation.{Call, calls_of, answers_to, alone, answers_to-alone}
use nanolink.Tests.Numbers.{wholes, wholes_ordered, rounded, rounded_exact, rounded_whole}

-- three of five tokens, two more each second
abbrev bucket : TokenBucket wholes
bucket = record { capacity = 5; refill_rate = 2; tokens = 3; last_updated = pos 0 }

bucket-IsValid : IsValid wholes bucket
bucket-IsValid = record { nonneg = refl; bounded = refl; cap_nonneg = refl }

no_debt : NonNeg wholes (refill wholes bucket (pos 500000000))
unfolding ◌-ℤ◌
no_debt = refl

allow-IsValid_example :
    IsValid wholes (TokenBucket.allow wholes bucket (pos 500000000) 1).0
    × ((TokenBucket.allow wholes bucket (pos 500000000) 1).0.tokens
        ≡ (TokenBucket.allow wholes bucket (pos 500000000) 1).2)
    × ((TokenBucket.allow wholes bucket (pos 500000000) 1).0.last_updated ≡ pos 500000000)
    × ((TokenBucket.allow wholes bucket (pos 500000000) 1).1
        ≡ leb 1 (refilled wholes bucket (pos 500000000)))
    × ((TokenBucket.allow wholes bucket (pos 500000000) 1).0.tokens ≡ (
        if (TokenBucket.allow wholes bucket (pos 500000000) 1).1
        then refilled wholes bucket (pos 500000000) - 1
        else refilled wholes bucket (pos 500000000)))
allow-IsValid_example =
    allow-IsValid wholes wholes_ordered bucket (pos 500000000) 1 bucket-IsValid no_debt

script-exact_example :
    (script rounded (whole rounded 3 100) 10 2 103 4
      ≡ some (verdict rounded 10 2 103 4 (at_hand 10 2 103 3 100)))
    × (script rounded (missing rounded) 10 2 103 4 ≡ some (verdict rounded 10 2 103 4 10))
script-exact_example =
    script-exact rounded rounded_exact rounded_whole 10 2 103 4 3 100 (omega arith) (omega arith)
      (omega arith) (omega arith) (omega arith) (omega arith) (omega arith)

abbrev requests : List (ℕ × ℕ)
requests = (100, 2) ∷ (101, 9) ∷ (103, 4) ∷ []

granted-le_example :
    (sum : ℕ) × (granted rounded 10 2 requests (whole rounded 3 100) ≡ some sum)
    × (sum ≤ 3 + (103 - 100) * 2)
granted-le_example =
    granted-le rounded rounded_exact rounded_whole 10 2 requests 3 100 103 (omega arith)
      (omega arith) (omega arith) (omega arith) (omega arith) (omega arith)
      (
        omega arith,
        omega arith,
        (omega arith, omega arith, (omega arith, omega arith, omega arith)),
      )

-- ten tokens, two each second: the key lives five seconds after each grant
abbrev spread : List (ℕ × ℕ)
spread = (100, 8) ∷ (103, 9) ∷ (104, 4) ∷ (109, 7) ∷ (110, 20) ∷ []

expiring-eq-lasting_example :
    expiring rounded 10 2 spread (unset rounded) ≡ lasting rounded 10 2 spread (missing rounded)
expiring-eq-lasting_example =
    expiring-eq-lasting rounded rounded_exact rounded_whole 10 2 spread 100 110 (omega arith)
      (omega arith) (omega arith) (omega arith) (omega arith) (omega arith)

-- the fourth call finds the key dropped, and a full bucket
spread_left :
    Option.map
      (λ (o : Outcome rounded). o.remaining)
      (get_or (expiring rounded 10 2 spread (unset rounded)) 3 none)
    ≡ some (pos 3)
unfolding expiring evaluate attempt settle available
spread_left = refl

abbrev service : RateLimiterService wholes
service = record { local_limits = (codes "10.0.0.1", bucket) ∷ []; capacity = 10; refill_rate = 2 }

abbrev outcome : Outcome wholes
outcome = record { tokens = 5; last_updated = 103; expire = some 5; allowed = 1; remaining = pos 5 }

script_run : script wholes (whole wholes 3 100) 10 2 103 4 ≡ some outcome
unfolding script attempt settle available
script_run = refl

-- two clients, of whom one has a bucket in memory
abbrev mixed : List (Str × Call)
mixed =
    (codes "10.0.0.1", (1, pos 0, pos 500000000))
    ∷ (codes "10.0.0.2", (4, pos 600000000, pos 600000000))
    ∷ (codes "10.0.0.1", (9, pos 0, pos 700000000))
    ∷ []

answers_to-alone_example :
    answers_to wholes (codes "10.0.0.2") none mixed service
    ≡ some (
        alone wholes 10 2
          (calls_of (codes "10.0.0.2") mixed)
          (find (codes "10.0.0.2") service.local_limits))
answers_to-alone_example =
    answers_to-alone wholes (codes "10.0.0.2") none mixed service (λ k tokens. tt)
