-- ===== src/Api/Router/Admission.antt =====
-- The route POST /api/v1/urls of internal/api/router.go returns.
use nanolink.Prelude.{ℕ, ◌≡◌, refl, inl, inr, Option, some, [], ◌∷◌, Str, codes, str_eq, Bool-cases}
use nanolink.Prelude.Float.{Floats}
use nanolink.Prelude.Result.{Result, ok, err, Result-cases}
use nanolink.Models.{ShortenRequest}
use nanolink.Bloom.Words.{IsValid}
use nanolink.Storage.Postgres.{PostgresLaws}
use nanolink.Storage.Redis.{RedisLaws}
use nanolink.UrlService.World.{>>=-ok}
use nanolink.UrlService.Shorten.{shorten_url}
use nanolink.UrlService.Cache.{IsCoherent}
use nanolink.UrlService.Total.{Moves, shorten_url-total}
use nanolink.RateLimit.Service.{Eval}
use nanolink.Api.RateLimiter.{Answer, next, too_many_requests}
use nanolink.Api.Messages.{Request, Response, failed, Context}
use nanolink.Api.Auth.{optional_auth, lookup_user, anonymous, signed_in}
use nanolink.Api.Handlers.{
  Site, User, Server, shorten, shorten_bound, created_or_error, call, call_lem,
}
use nanolink.Api.Router.{Endpoint, find_route, find_in, fit, Front, admitted}

pub shorten_route :
    find_route (codes "POST") (codes "api" ∷ codes "v1" ∷ codes "urls" ∷ [])
    ≡ some (Endpoint.shorten_url, [])
unfolding find_route find_in fit
shorten_route = refl

module _ (site : Site) (fl : Floats) (eval : Option (Eval fl)) (pgl : PostgresLaws site.env.pg)
    (rdl : RedisLaws site.env.rd) where
  open site use {env, users, sha256_hex}

  bound-returns :
      (c : Context (User site)) (s : Server site) (b : Result ShortenRequest) (j : ℕ)
      → IsCoherent env pgl rdl s.world
      → IsValid s.world.filter
      → Moves env s.world j
      → (s' : Server site) × (r : Response (User site)) × (shorten_bound site c b s ≡ some (s', r))
  bound-returns c s (err e) j co v m = (s, failed 400 e, refl)
  bound-returns c s (ok body) j co v m =
      let (w, x, ran) = shorten_url-total env pgl rdl body c.auth_user_id s.world j co v m in
      (
        record s { world = w },
        created_or_error site x,
        >>=-ok (call site (shorten_url env body c.auth_user_id)) _ s
            (call_lem site (shorten_url env body c.auth_user_id) s w x ran),
      )

  optional_auth-returns :
      (query : Str → Result (User site × Str)) (api_key : Str)
      → users ≡ some query
      → (c : Context (User site)) × (optional_auth users sha256_hex api_key ≡ some c)
  unfolding optional_auth lookup_user
  optional_auth-returns query api_key has = elim (Bool-cases (str_eq api_key [])) [
    | inl empty ↦ (anonymous users sha256_hex, rw empty refl)
    | inr given ↦ elim (Result-cases (query (sha256_hex api_key))) [
      | inl (row, known) ↦ (signed_in users sha256_hex row, rw (given, has, known) refl)
      | inr (e, unknown) ↦ (anonymous users sha256_hex, rw (given, has, unknown) refl)
    ]
  ]

  pub admitted-returns :
      (query : Str → Result (User site × Str)) (req : Request) (f : Front site fl) (a : Answer)
      (j : ℕ)
      → users ≡ some query
      → IsCoherent env pgl rdl f.server.world
      → IsValid f.server.world.filter
      → Moves env f.server.world j
      → (f' : Front site fl) × (r : Response (User site)) × (admitted site fl eval f a req
          ≡ some (f', r))
  unfolding shorten
  admitted-returns query req f (too_many_requests k) j has co v m =
      (f, failed 429 (codes "rate limit exceeded"), refl)
  admitted-returns query req f (next k) j has co v m =
      let (c, known) = optional_auth-returns query req.api_key has in
      let (s', r, ran) = bound-returns c f.server req.body j co v m in
      (record f { server = s' }, r, rw (known, ran) refl)
