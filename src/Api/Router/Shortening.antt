-- ===== src/Api/Router/Shortening.antt =====
-- Making a link: the route POST /api/v1/urls of internal/api/router.go, with its rate limiter, its
-- optional authentication and its handler.
use mathlib.Core.Path.{subst, subst₂}
use nanolink.Prelude.{
  ℕ, ◌≤◌, ◌≡◌, ◌⊎◌, refl, sym, ap, ◌∙◌, inl, inr, Option, none, some, [], ◌∷◌, Str, codes, length,
  str_eq, str_eq_sound, Bool-cases, Option-cases,
}
use nanolink.Prelude.Int.{ℤ}
use nanolink.Prelude.Float.{Floats}
use nanolink.Prelude.Result.{Result, ok, err}
use nanolink.Models.{ShortenRequest, ShortenResponse}
use nanolink.Bloom.Words.{IsValid}
use nanolink.Storage.Postgres.{PostgresLaws}
use nanolink.Storage.Redis.{RedisLaws}
use nanolink.UrlService.World.{World, ◌>>=◌}
use nanolink.UrlService.Shorten.{shorten_url}
use nanolink.UrlService.Cache.{IsCoherent}
use nanolink.UrlService.Persist.{Live}
use nanolink.UrlService.Created.{shorten_url-Live}
use nanolink.UrlService.Total.{Moves}
use nanolink.RateLimit.Service.{RateLimiterService, Eval}
use nanolink.Api.RateLimiter.{Answer, next, too_many_requests, rate_limiter}
use nanolink.Api.Messages.{Request, Response, failed, created, status, Context}
use nanolink.Api.Auth.{optional_auth, if_known, lookup_user, anonymous, signed_in}
use nanolink.Api.Handlers.{Site, User, Server, shorten, shorten_bound, created_or_error, call}
use nanolink.Api.Router.Admission.{shorten_route, admitted-returns}
use nanolink.Api.Router.{Front, limited, handled, serve, handle}

module _ (site : Site) (fl : Floats) (eval : Option (Eval fl)) (pgl : PostgresLaws site.env.pg)
    (rdl : RedisLaws site.env.rd) where
  open site use {env, users, sha256_hex}

  -- Whom OptionalAuth takes a key for: the user that the table has for its hash, or nobody where there
  -- is no key or the query fails.
  abbrev pub Requester : Str → Option (User site) → Type 0
  Requester api_key none =
      (api_key ≡ [])
      ⊎ ((e : Str) × (lookup_user {U = User site} users sha256_hex api_key ≡ some (err e)))
  Requester api_key (some user) =
      (tier : Str) × (lookup_user {U = User site} users sha256_hex api_key ≡ some (ok (user, tier)))

  -- What becomes of a request that the rate limiter has let through.
  pub data Handling (req : Request) (s s' : Server site) (r : Response (User site)) : Type 0 where
    malformed : (e : Str) → req.body ≡ err e → s' ≡ s → r ≡ failed 400 e → Handling req s s' r
    refused :
        (body : ShortenRequest) (user : Option (User site)) (e : Str)
        → req.body ≡ ok body
        → Requester req.api_key user
        → shorten_url env body user s.world ≡ some (s'.world, err e)
        → r ≡ failed 400 e
        → Handling req s s' r
    made :
        (body : ShortenRequest) (user : Option (User site)) (resp : ShortenResponse)
        → req.body ≡ ok body
        → Requester req.api_key user
        → shorten_url env body user s.world ≡ some (s'.world, ok resp)
        → r ≡ created resp
        → length resp.short_code ≤ 10
        → Live env.pg pgl s'.world.db resp.short_code body.long_url
        → Handling req s s' r

  -- What a request for a link comes to.
  pub data Shortening (req : Request) (f f' : Front site fl) (r : Response (User site))
      : Type 0 where
    throttled :
        (remaining : ℤ)
        → rate_limiter fl f.limiter eval req.client_ip req.api_key req.made req.now
          ≡ some (f'.limiter, too_many_requests remaining)
        → f'.server ≡ f.server
        → status r ≡ 429
        → Shortening req f f' r
    let_through :
        (remaining : Option ℤ)
        → rate_limiter fl f.limiter eval req.client_ip req.api_key req.made req.now
          ≡ some (f'.limiter, next remaining)
        → Handling req f.server f'.server r
        → Shortening req f f' r

  if_known-Requester :
      (api_key : Str) (o : Option (Result (User site × Str))) (c : Context (User site))
      → lookup_user {U = User site} users sha256_hex api_key ≡ o
      → if_known users sha256_hex o ≡ some c
      → Requester api_key c.auth_user_id
  if_known-Requester api_key none c l e = absurd (cc)
  if_known-Requester api_key (some (err x)) c l e =
      let p : anonymous users sha256_hex ≡ c = cc in
      subst (λ (x : Context (User site)). Requester api_key x.auth_user_id) p (inr (x, l))
  if_known-Requester api_key (some (ok (user, tier))) c l e =
      let p : signed_in users sha256_hex (user, tier) ≡ c = cc in
      subst (λ (x : Context (User site)). Requester api_key x.auth_user_id) p (tier, l)

  optional_auth-Requester :
      (api_key : Str) (c : Context (User site))
      → optional_auth {U = User site} users sha256_hex api_key ≡ some c
      → Requester api_key c.auth_user_id
  unfolding optional_auth
  optional_auth-Requester api_key c e = elim (Bool-cases (str_eq api_key [])) [
    | inl empty ↦
        let h : some (anonymous {U = User site} users sha256_hex) ≡ some c =
          rw (empty, optional_auth) at e in
        let p : anonymous users sha256_hex ≡ c = cc in
        subst (λ (x : Context (User site)). Requester api_key x.auth_user_id) p
          (inl (str_eq_sound api_key [] empty))
    | inr given ↦
        if_known-Requester api_key (lookup_user users sha256_hex api_key) c refl
          (rw (given, optional_auth) at e)
  ]

  answer-Handling :
      (req : Request) (s : Server site) (body : ShortenRequest) (user : Option (User site))
      (w : World env) (r : Result ShortenResponse)
      → IsCoherent env pgl rdl s.world
      → IsValid s.world.filter
      → req.body ≡ ok body
      → Requester req.api_key user
      → shorten_url env body user s.world ≡ some (w, r)
      → Handling req s (record s { world = w }) (created_or_error site r)
  answer-Handling req s body user w (err e) c v b q ran = refused body user e b q ran refl
  answer-Handling req s body user w (ok resp) c v b q ran =
      let live = shorten_url-Live env pgl rdl body user s.world w resp c v ran in
      made body user resp b q ran refl live.1 live.2

  bound-Handling :
      (req : Request) (c : Context (User site)) (s s' : Server site) (r : Response (User site))
      (b : Result ShortenRequest)
      → IsCoherent env pgl rdl s.world
      → IsValid s.world.filter
      → req.body ≡ b
      → Requester req.api_key c.auth_user_id
      → shorten_bound site c b s ≡ some (s', r)
      → Handling req s s' r
  unfolding call
  bound-Handling req c s s' r (err e) co v at q h =
      let p : s ≡ s' = cc in let t : failed 400 e ≡ r = cc in malformed e at (sym p) (sym t)
  bound-Handling req c s s' r (ok body) co v at q h =
      elim (Option-cases (shorten_url env body c.auth_user_id s.world)) [
        | inl stuck ↦ absurd (cc (rw (stuck, ◌>>=◌, call) at h))
        | inr ((w, x), ran) ↦
            let out : some (record s { world = w }, created_or_error site x) ≡ some (s', r) =
              rw (ran, ◌>>=◌, call) at h in
            let p : record s { world = w } ≡ s' = cc in
            let t : created_or_error site x ≡ r = cc in
            subst₂ (λ (y : Server site) z. Handling req s y z) p t
              (answer-Handling req s body c.auth_user_id w x co v at q ran)
      ]

  handled-Handling :
      (req : Request) (c : Context (User site)) (f f' : Front site fl) (r : Response (User site))
      (x : Option (Server site × Response (User site)))
      → shorten site req c f.server ≡ x
      → IsCoherent env pgl rdl f.server.world
      → IsValid f.server.world.filter
      → Requester req.api_key c.auth_user_id
      → handled site fl eval f x ≡ some (f', r)
      → (f'.limiter ≡ f.limiter) × Handling req f.server f'.server r
  unfolding shorten
  handled-Handling req c f f' r none ran co v q h = absurd (cc)
  handled-Handling req c f f' r (some (s, t)) ran co v q h =
      let p : record f { server = s } ≡ f' = cc in
      let e : t ≡ r = cc in
      subst₂ (λ (y : Front site fl) z. (y.limiter ≡ f.limiter) × Handling req f.server y.server z) p
        e (refl, bound-Handling req c f.server s t req.body co v refl q ran)

  pub admitted-Shortening :
      (req : Request) (f f' : Front site fl) (r : Response (User site))
      (x : Option (RateLimiterService fl × Answer))
      → rate_limiter fl f.limiter eval req.client_ip req.api_key req.made req.now ≡ x
      → IsCoherent env pgl rdl f.server.world
      → IsValid f.server.world.filter
      → limited site fl eval f x req ≡ some (f', r)
      → Shortening req f f' r
  admitted-Shortening req f f' r none asked co v h = absurd (cc)
  admitted-Shortening req f f' r (some (l, too_many_requests k)) asked co v h =
      let p : record f { limiter = l } ≡ f' = cc in
      let t : failed 429 (codes "rate limit exceeded") ≡ r = cc in
      subst₂ (λ (y : Front site fl) z. Shortening req f y z) p t (throttled k asked refl refl)
  admitted-Shortening req f f' r (some (l, next k)) asked co v h =
      elim (Option-cases (optional_auth {U = User site} users sha256_hex req.api_key)) [
        | inl stuck ↦ absurd (cc (rw stuck at h))
        | inr (c, known) ↦
            let f1 : Front site fl = record f { limiter = l } in
            let (same, out) =
              handled-Handling req c f1 f' r (shorten site req c f1.server) refl co v
                (optional_auth-Requester req.api_key c known) (rw known at h) in
            let_through k (asked ∙ ap (λ m. some (m, next k)) (sym same)) out
      ]

  -- POST /api/v1/urls, from a coherent state with a valid filter, where the rate limiter answers, the
  -- table of users can be asked, and the clock moves on within the fuel of Generate, returns. Either the
  -- rate limiter turns the request away, the answer has status 429 and the services are as they were; or
  -- it lets the request through. Then a body that cannot be read is answered with status 400 and changes
  -- nothing; otherwise ShortenURL is called for the body and for the user whom the table has for the
  -- request's key, or for nobody where there is no key or the query fails. Its error is answered with
  -- status 400; its link with status 201, and the table has an active row with the body's URL under the
  -- link's code of at most ten characters.
  pub handle-Shortening :
      (query : Str → Result (User site × Str)) (req : Request) (f : Front site fl)
      (l : RateLimiterService fl) (a : Answer) (j : ℕ)
      → rate_limiter fl f.limiter eval req.client_ip req.api_key req.made req.now ≡ some (l, a)
      → users ≡ some query
      → IsCoherent env pgl rdl f.server.world
      → IsValid f.server.world.filter
      → Moves env f.server.world j
      → (f' : Front site fl) × (r : Response (User site)) × (handle site fl eval
            (codes "POST")
            (codes "api" ∷ codes "v1" ∷ codes "urls" ∷ [])
            req
            f
          ≡ some (f', r))
        × Shortening (record req { code = [] }) f f' r
  unfolding handle serve
  handle-Shortening query req f l a j asked has co v m =
      let req' : Request = record req { code = [] } in
      let f1 : Front site fl = record f { limiter = l } in
      let (f', r, ran) = admitted-returns site fl eval pgl rdl query req' f1 a j has co v m in
      (
        f',
        r,
        rw (shorten_route, asked) ran,
        admitted-Shortening req' f f' r (some (l, a)) asked co v ran,
      )
