-- ===== src/Api/RateLimiter.antt =====
-- internal/api/middleware/rate_limiter.go. Gin is not modelled: the client's address and the header
-- X-API-Key are arguments, and what the middleware does with the request is its answer.
use nanolink.Prelude.{
  ℕ, arith, ◌≡◌, ◌≢◌, refl, sym, ap, ◌∙◌, inl, inr, ◌⊎◌, Bool, true, false, Option, none, some, [],
  ◌∷◌, ◌++◌, Str, codes, str_eq, str_eq_sound, Bool-cases, if◌then◌else◌,
}
use nanolink.Prelude.Int.{ℤ}
use nanolink.Prelude.Float.{Floats}
use nanolink.Prelude.Result.{Result, ok, err}
use nanolink.RateLimit.Service.{RateLimiterService, Eval, allow, allow-ok}

-- The request goes on to the handler, or is answered with status 429; the number is the header
-- X-RateLimit-Remaining.
pub data Answer : Type 0 where
  next : Option ℤ → Answer
  too_many_requests : ℤ → Answer

unfoldable pub client_key : Str → Str → Str
client_key client_ip api_key =
    if str_eq api_key [] then codes "ip:" ++ client_ip else codes "key:" ++ api_key

abbrev initial : Str → ℕ
initial [] = 0
initial (c ∷ str) = c

apart : {a b : Str} → codes "ip:" ++ a ≡ codes "key:" ++ b → ⊥
apart e = let d : 105 ≡ 107 = ap initial e in omega (arith, d)

-- Clients never share a bucket: requests with the same key have the same API key, and the same address
-- too if that is missing.
pub client_key-separate :
    (ip ip' api api' : Str)
    → client_key ip api ≡ client_key ip' api'
    → (api ≡ api') × ((ip ≡ ip') ⊎ (str_eq api [] ≡ false))
unfolding client_key
client_key-separate ip ip' api api' e = elim (Bool-cases (str_eq api [])) [
  | inl p ↦ elim (Bool-cases (str_eq api' [])) [
    | inl q ↦
        let k : codes "ip:" ++ ip ≡ codes "ip:" ++ ip' = rw p at (rw q at e) in
        let same : ip ≡ ip' = cc in (str_eq_sound api [] p ∙ sym (str_eq_sound api' [] q), inl same)
    | inr q ↦
        let k : codes "ip:" ++ ip ≡ codes "key:" ++ api' = rw p at (rw q at e) in absurd (apart k)
  ]
  | inr p ↦ elim (Bool-cases (str_eq api' [])) [
    | inl q ↦
        let k : codes "key:" ++ api ≡ codes "ip:" ++ ip' = rw p at (rw q at e) in
        absurd (apart (sym k))
    | inr q ↦
        let k : codes "key:" ++ api ≡ codes "key:" ++ api' = rw p at (rw q at e) in
        let same : api ≡ api' = cc in (same, inr p)
  ]
]

module _ (fl : Floats) where
  -- what follows the call of `Allow`
  unfoldable pub answer_to : Result (Bool × ℤ) → Answer
  answer_to (err e) = next none
  answer_to (ok (true, remaining)) = next (some remaining)
  answer_to (ok (false, remaining)) = too_many_requests remaining

  abbrev pub answered :
      Option (RateLimiterService fl × Result (Bool × ℤ)) → Option (RateLimiterService fl × Answer)
  answered none = none
  answered (some (s, r)) = some (s, answer_to r)

  unfoldable pub rate_limiter :
      RateLimiterService fl
      → Option (Eval fl)
      → Str
      → Str
      → ℤ
      → ℤ
      → Option (RateLimiterService fl × Answer)
  rate_limiter s eval client_ip api_key made now =
      answered (allow fl s eval (client_key client_ip api_key) 1 made now)

  not_open :
      (run : Option (RateLimiterService fl × Result (Bool × ℤ))) (s' : RateLimiterService fl)
      (a : Answer)
      → ((t : RateLimiterService fl) (r : Result (Bool × ℤ))
          → run ≡ some (t, r)
          → (b : Bool × ℤ) × (r ≡ ok b))
      → answered run ≡ some (s', a)
      → a ≢ next none
  unfolding answer_to
  not_open none s' a h e n = absurd (cc)
  not_open (some (t, err x)) s' a h e n = let (b, p) = h t (err x) refl in absurd (cc)
  not_open (some (t, ok (true, k))) s' a h e n = absurd (cc)
  not_open (some (t, ok (false, k))) s' a h e n = absurd (cc)

  -- The middleware never lets a request through for an error of the rate limiter: whatever Redis
  -- answers, if the middleware returns and lets the request go on, the request carries the number
  -- of tokens that are left.
  pub rate_limiter-closed :
      (s : RateLimiterService fl) (eval : Option (Eval fl)) (client_ip api_key : Str) (made now : ℤ)
      (s' : RateLimiterService fl) (a : Answer)
      → rate_limiter s eval client_ip api_key made now ≡ some (s', a)
      → a ≢ next none
  unfolding rate_limiter
  rate_limiter-closed s eval ip api made now s' a e =
      not_open (allow fl s eval (client_key ip api) 1 made now) s' a
        (λ t r h. allow-ok fl s eval (client_key ip api) 1 made now h) e
