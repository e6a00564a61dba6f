-- ===== src/RateLimit/Service.antt =====
-- internal/service/rate_limiter_service.go. `eval` is the Redis client's Eval of the script, with the
-- key, the capacity, the rate and the number of tokens; `none` is a nil client. The bucket that the
-- map points to is changed in place, so the changed bucket is put back.
use nanolink.Prelude.{ℕ, ◌≡◌, refl, ap, ◌∙◌, Bool, Option, none, some, List, [], ◌++◌, Str, codes}
use nanolink.Prelude.Int.{ℤ, pos, eqb_ℤ}
use nanolink.Prelude.Float.{Floats}
use nanolink.Prelude.Map.{find, put}
use nanolink.Prelude.Result.{Result, ok, err}
use nanolink.TokenBucket.{TokenBucket, new_token_bucket}
use nanolink.TokenBucket
use nanolink.RateLimit.Script.{
  Reply, Hash, Outcome, script, reply_of, decode_reply, decode_reply-reply_of,
}

module _ (fl : Floats) where
  open fl use {F, of_nat, to_int}

  pub record RateLimiterService : Type 0 where
    pub local_limits : List (Str × TokenBucket fl)
    pub capacity : F
    pub refill_rate : F

  unfoldable pub new_rate_limiter_service : F → F → RateLimiterService
  new_rate_limiter_service capacity refill_rate = record {
    local_limits = [];
    capacity = capacity;
    refill_rate = refill_rate;
  }

  abbrev pub Eval : Type 0
  Eval = Str → F → F → ℕ → Result Reply

  unfoldable pub redis_key : Str → Str
  redis_key client_key = codes "rate_limit:" ++ client_key

  -- the bucket of a client, made on its first request
  unfoldable pub bucket_of : RateLimiterService → Str → ℤ → TokenBucket fl
  bucket_of s key made = elim (find key s.local_limits) [
    | none ↦ new_token_bucket fl s.capacity s.refill_rate made
    | some tb ↦ tb
  ]

  -- the in-memory fallback; `made` and `now` are its two readings of the clock
  unfoldable pub allow_local :
      RateLimiterService → Str → ℕ → ℤ → ℤ → RateLimiterService × Result (Bool × ℤ)
  unfolding bucket_of
  allow_local s key tokens made now =
      let r = TokenBucket.allow fl (bucket_of s key made) now (of_nat tokens) in
      (record s { local_limits = put key r.0 s.local_limits }, ok (r.1, to_int r.2))

  -- `if err == nil { return allowed, remaining, nil }`, and what comes after; `none` is a panic
  unfoldable pub or_local :
      Option (Result (Bool × ℤ))
      → RateLimiterService × Result (Bool × ℤ)
      → RateLimiterService
      → Option (RateLimiterService × Result (Bool × ℤ))
  or_local none fallback s = none
  or_local (some (ok answer)) fallback s = some (s, ok answer)
  or_local (some (err e)) fallback s = some fallback

  unfoldable pub allow :
      RateLimiterService
      → Option Eval
      → Str
      → ℕ
      → ℤ
      → ℤ
      → Option (RateLimiterService × Result (Bool × ℤ))
  unfolding or_local
  allow s none key tokens made now = some (allow_local s key tokens made now)
  allow s (some eval) key tokens made now =
      or_local (decode_reply (eval (redis_key key) s.capacity s.refill_rate tokens))
        (allow_local s key tokens made now) s

  -- the client's bucket after a call, and its answer
  abbrev pub bucket_allow : RateLimiterService → Str → ℕ → ℤ → ℤ → TokenBucket fl × Bool × F
  bucket_allow s key tokens made now =
      TokenBucket.allow fl (bucket_of s key made) now (of_nat tokens)

  abbrev pub local_after : RateLimiterService → Str → ℕ → ℤ → ℤ → RateLimiterService
  local_after s key tokens made now = record s {
    local_limits = put key (bucket_allow s key tokens made now).0 s.local_limits;
  }

  -- there is no Redis client, or its answer is an error
  abbrev pub Unavailable : RateLimiterService → Option Eval → Str → ℕ → Type 0
  Unavailable s none key tokens = Unit {0}
  Unavailable s (some eval) key tokens =
      (e : Str) × (decode_reply (eval (redis_key key) s.capacity s.refill_rate tokens)
        ≡ some (err e))

  or_local_ok :
      (o : Option (Result (Bool × ℤ))) (s f : RateLimiterService) (a : Bool × ℤ)
      {s' : RateLimiterService} {r : Result (Bool × ℤ)}
      → or_local o (f, ok a) s ≡ some (s', r)
      → (b : Bool × ℤ) × (r ≡ ok b)
  unfolding or_local
  or_local_ok none s f a e = absurd (cc)
  or_local_ok (some (ok b)) s f a e = (b, cc)
  or_local_ok (some (err x)) s f a e = (a, cc)

  -- `Allow` never returns an error: a failing Redis is answered from memory.
  pub allow-ok :
      (s : RateLimiterService) (eval : Option Eval) (key : Str) (tokens : ℕ) (made now : ℤ)
      {s' : RateLimiterService} {r : Result (Bool × ℤ)}
      → allow s eval key tokens made now ≡ some (s', r)
      → (answer : Bool × ℤ) × (r ≡ ok answer)
  unfolding allow allow_local
  allow-ok s none key tokens made now e =
      let r = TokenBucket.allow fl (bucket_of s key made) now (of_nat tokens) in
      ((r.1, to_int r.2), cc)
  allow-ok s (some eval) key tokens made now e =
      let r = TokenBucket.allow fl (bucket_of s key made) now (of_nat tokens) in
      or_local_ok (decode_reply (eval (redis_key key) s.capacity s.refill_rate tokens)) s
        (record s { local_limits = put key r.0 s.local_limits }) (r.1, to_int r.2) e

  -- With no Redis client, or when Redis or its reply is in error, a call uses the client's bucket.
  pub allow-local_after :
      (s : RateLimiterService) (eval : Option Eval) (key : Str) (tokens : ℕ) (made now : ℤ)
      → Unavailable s eval key tokens
      → allow s eval key tokens made now
        ≡ some (
          local_after s key tokens made now,
          ok (
            (bucket_allow s key tokens made now).1,
            to_int (bucket_allow s key tokens made now).2,
          ),
        )
  unfolding allow allow_local
  allow-local_after s none key tokens made now h = refl
  allow-local_after s (some eval) key tokens made now (e, h) = rw (h, or_local)

  -- a good reply is the answer, and the map in memory is not touched
  allow-redis :
      (s : RateLimiterService) (eval : Eval) (key : Str) (tokens : ℕ) (made now : ℤ)
      (answer : Bool × ℤ)
      → decode_reply (eval (redis_key key) s.capacity s.refill_rate tokens) ≡ some (ok answer)
      → allow s (some eval) key tokens made now ≡ some (s, ok answer)
  unfolding allow
  allow-redis s eval key tokens made now answer h = rw (h, or_local)

  -- When the script runs without an error on what the hash of the client holds, `Allow` returns its
  -- two numbers, granted if the first is 1, and the map in memory is not touched.
  pub allow-script :
      (s : RateLimiterService) (h : Hash fl) (at : F) (key : Str) (tokens : ℕ) (made now : ℤ)
      (o : Outcome fl)
      → script fl h s.capacity s.refill_rate at (of_nat tokens) ≡ some o
      → allow s (some (λ k c r n. reply_of fl (script fl h c r at (of_nat n)))) key tokens made now
        ≡ some (s, ok (eqb_ℤ (pos o.allowed) (pos 1), o.remaining))
  allow-script s h at key tokens made now o ran =
      allow-redis s (λ k c r n. reply_of fl (script fl h c r at (of_nat n))) key tokens made now
        (eqb_ℤ (pos o.allowed) (pos 1), o.remaining)
        (ap (λ x. decode_reply (reply_of fl x)) ran ∙ decode_reply-reply_of fl o)
