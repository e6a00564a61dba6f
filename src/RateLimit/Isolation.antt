-- ===== src/RateLimit/Isolation.antt =====
-- The buckets in memory of internal/service/rate_limiter_service.go, with the calls of many clients.
use nanolink.Prelude.{
  ℕ, ◌≡◌, refl, ap, ◌∙◌, inl, inr, Bool, Bool-cases, Option-cases, Option, none, some, List, [],
  ◌∷◌, Str, str_eq, str_eq_sound, if◌then◌else◌,
}
use nanolink.Prelude.Int.{ℤ}
use nanolink.Prelude.Map.{find, find-put}
use nanolink.Prelude.Float.{Floats}
use nanolink.Prelude.Result.{Result, ok}
use nanolink.TokenBucket.{TokenBucket, new_token_bucket}
use nanolink.TokenBucket
use nanolink.RateLimit.Service.{
  RateLimiterService, Eval, Unavailable, bucket_of, allow, bucket_allow, local_after,
  allow-local_after,
}

-- A call: the tokens, and the two readings of the clock.
abbrev pub Call : Type 0
Call = ℕ × ℤ × ℤ

abbrev pub calls_of : Str → List (Str × Call) → List Call
calls_of key [] = []
calls_of key ((k, c) ∷ calls) =
    let rest = calls_of key calls in if str_eq k key then c ∷ rest else rest

module _ (fl : Floats) where
  open fl use {F, of_nat, to_int}

  -- the calls, one after the other, and the answers to one client
  unfoldable pub answers_to :
      Str
      → Option (Eval fl)
      → List (Str × Call)
      → RateLimiterService fl
      → Option (List (Result (Bool × ℤ)))
  answers_to key eval [] s = some []
  answers_to key eval ((k, (tokens, made, now)) ∷ calls) s =
      elim (allow fl s eval k tokens made now) [
        | none ↦ none
        | some (s', r) ↦ elim (answers_to key eval calls s') [
          | none ↦ none
          | some rs ↦ some (if str_eq k key then r ∷ rs else rs)
        ]
      ]

  abbrev pub full_or : F → F → ℤ → Option (TokenBucket fl) → TokenBucket fl
  full_or capacity refill_rate made none = record {
    capacity = capacity;
    refill_rate = refill_rate;
    tokens = capacity;
    last_updated = made;
  }
  full_or capacity refill_rate made (some tb) = tb

  -- What a client is answered that has a bucket to itself, full when it is first used.
  unfoldable pub alone : F → F → List Call → Option (TokenBucket fl) → List (Result (Bool × ℤ))
  alone capacity refill_rate [] bucket = []
  alone capacity refill_rate ((tokens, made, now) ∷ calls) bucket =
      let r = TokenBucket.allow fl (full_or capacity refill_rate made bucket) now (of_nat tokens) in
      ok (r.1, to_int r.2) ∷ alone capacity refill_rate calls (some r.0)

  bucket_of-full_or :
      (s : RateLimiterService fl) (key : Str) (made : ℤ)
      → bucket_of fl s key made ≡ full_or s.capacity s.refill_rate made (find key s.local_limits)
  unfolding bucket_of new_token_bucket
  bucket_of-full_or s key made = elim (Option-cases (find key s.local_limits)) [
    | inl new ↦ rw (new, bucket_of) refl
    | inr (tb, old) ↦ rw (old, bucket_of) refl
  ]

  -- When Redis answers none of the calls, the clients are kept apart: whatever calls other clients
  -- make in between, every call returns, and a client is answered as by a token bucket of its own,
  -- which goes on from the one it has in memory, or is full at its first call.
  pub answers_to-alone :
      (key : Str) (eval : Option (Eval fl)) (calls : List (Str × Call)) (s : RateLimiterService fl)
      → ((k : Str) (tokens : ℕ) → Unavailable fl s eval k tokens)
      → answers_to key eval calls s
        ≡ some (alone s.capacity s.refill_rate (calls_of key calls) (find key s.local_limits))
  unfolding answers_to alone
  answers_to-alone key eval [] s h = refl
  answers_to-alone key eval ((k, (tokens, made, now)) ∷ calls) s h =
      let s' = local_after fl s k tokens made now in
      let b = (bucket_allow fl s k tokens made now).0 in
      let rest =
        answers_to-alone key eval calls s' (unavailable eval h)
        ∙ ap (λ o. some (alone s.capacity s.refill_rate (calls_of key calls) o))
            (find-put k key b s.local_limits) in
      rw (allow-local_after fl s eval k tokens made now (h k tokens), rest, answers_to)
        (elim (Bool-cases (str_eq k key)) [
          | inr other ↦ rw other refl
          | inl same ↦ rw same (
              ap
                (λ t. some (
                  ok (t.1, to_int t.2)
                  ∷ alone s.capacity s.refill_rate (calls_of key calls) (some t.0)))
                (ap (λ t. TokenBucket.allow fl t now (of_nat tokens))
                  (bucket_of-full_or s k made
                    ∙ ap (λ j. full_or s.capacity s.refill_rate made (find j s.local_limits))
                        (str_eq_sound k key same))))
        ])
    where
      unavailable :
          (e : Option (Eval fl))
          → ((j : Str) (n : ℕ) → Unavailable fl s e j n)
          → (j : Str) (n : ℕ) → Unavailable fl (local_after fl s k tokens made now) e j n
      unavailable none h j n = tt
      unavailable (some e) h j n = h j n
