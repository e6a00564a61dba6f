-- ===== src/Process/Permanent.antt =====
-- A short URL over the life of the program of cmd/server/main.go.
use nanolink.Prelude.{
  ℕ, arith, ◌≡◌, ◌≢◌, refl, sym, ap, ◌∙◌, ◌⊎◌, inl, inr, ◌&&◌, true, false, Option, some, [], ◌∷◌,
  Str, codes,
}
use nanolink.Prelude.Int.{ℤ, ◌<ℤ◌}
use nanolink.Prelude.Float.{Floats}
use nanolink.Prelude.Result.{ok, err}
use nanolink.Models.{ShortenRequest, ShortenResponse}
use nanolink.Bloom.Words.{IsValid}
use nanolink.Storage.Postgres.{Row, PostgresLaws}
use nanolink.Storage.Redis.{RedisLaws, exists_in_bloom}
use nanolink.Storage.Stream.{Streams, Json}
use nanolink.UrlService.World.{absent}
use nanolink.UrlService.Shorten.{shorten_url}
use nanolink.UrlService.Resolve.{expired, resolve_url}
use nanolink.UrlService.Cache.{IsCoherent}
use nanolink.UrlService.Complete.{Serves}
use nanolink.UrlService.Created.{shorten_url-After}
use nanolink.UrlService.History.{Calls-Lasts, shorten_url-stays}
use nanolink.RateLimit.Service.{Eval}
use nanolink.Api.RateLimiter.{rate_limiter}
use nanolink.Worker.{AnalyticsWorker}
use nanolink.Api.Messages.{Request, Response, failed, created, redirect, status}
use nanolink.Api.Handlers.{Site, User, Server}
use nanolink.Api.Router.{Front, serve, handle}
use nanolink.Api.Router.Admission.{shorten_route}
use nanolink.Api.Router.Shortening.{
  Shortening, throttled, let_through, malformed, refused, made, admitted-Shortening,
}
use nanolink.Api.Router.Redirection.{Redirection, followed, missed, handle-Redirection}
use nanolink.Process.{Process, Events}
use nanolink.Process.Sound.{Events-Calls}

module _ (site : Site) (fl : Floats) (eval : Option (Eval fl)) (pgl : PostgresLaws site.env.pg)
    (rdl : RedisLaws site.env.rd) where
  open site use {env}

  -- The call of ShortenURL behind an answer with a link.
  pub record Shortened (req : Request) (f f' : Front site fl) (resp : ShortenResponse)
      : Type 0 where
    pub body : ShortenRequest
    pub user : Option (User site)
    pub asked : req.body ≡ ok body
    pub ran : shorten_url env body user f.server.world ≡ some (f'.server.world, ok resp)

  Shortening-Shortened :
      (req : Request) (f f' : Front site fl) (resp : ShortenResponse) {r : Response (User site)}
      → Shortening site fl eval pgl rdl req f f' r
      → r ≡ created resp
      → Shortened req f f' resp
  Shortening-Shortened req f f' resp (throttled k asked same code) e =
      let bad : ◌≡◌ {A = ℕ} 201 429 = ap status (sym e) ∙ code in absurd (omega arith)
  Shortening-Shortened req f f' resp (let_through k asked (malformed x at same r)) e = absurd (cc)
  Shortening-Shortened req f f' resp (let_through k asked (refused b u x at q ran r)) e =
      absurd (cc)
  Shortening-Shortened req f f' resp (let_through k asked (made b u resp' at q ran r len l)) e =
      let same : resp' ≡ resp = cc in
      record {
        body = b;
        user = u;
        asked = at;
        ran = ran ∙ ap (λ x. some (f'.server.world, ok x)) same;
      }

  pub created-Shortened :
      (req : Request) (f f' : Front site fl) (resp : ShortenResponse)
      → IsCoherent env pgl rdl f.server.world
      → IsValid f.server.world.filter
      → handle site fl eval (codes "POST") (codes "api" ∷ codes "v1" ∷ codes "urls" ∷ []) req f
        ≡ some (f', created resp)
      → Shortened (record req { code = [] }) f f' resp
  unfolding handle serve
  created-Shortened req f f' resp c v e =
      let req' : Request = record req { code = [] } in
      Shortening-Shortened req' f f' resp
        (admitted-Shortening site fl eval pgl rdl req' f f' (created resp)
          (rate_limiter fl f.limiter eval req.client_ip req.api_key req.made req.now) refl c v
          (rw shorten_route at e))
        refl

module _ (site : Site) (fl : Floats) (st : Streams) (js : Json) (worker : AnalyticsWorker)
    (pgl : PostgresLaws site.env.pg) (rdl : RedisLaws site.env.rd) where
  open site use {env}

  -- What a request for the short URL of `long_url` is answered.
  abbrev pub Answer : Str → Response (User site) → Type 0
  Answer long_url r =
      (r ≡ redirect long_url) ⊎ (r ≡ failed 404 (codes "short code not found or expired"))

  -- A redirect, or an answer that the link has expired.
  abbrev pub Found : Option ℤ → Str → Response (User site) → Type 0
  Found expires long_url r =
      (r ≡ redirect long_url)
      ⊎ ((x : ℤ) × (i : ℕ) × (expires ≡ some x) × (x <ℤ env.clock i) × (status r ≡ 404))

  Redirection-Found :
      (get : Request) (s s' : Server site) (r : Response (User site)) (expires : Option ℤ)
      (long_url : Str)
      → Redirection site pgl rdl get s s' r
      → Serves env pgl rdl expires long_url (resolve_url env get.code s.world)
      → Found expires long_url r
  Redirection-Found get s s' r expires u (followed v t w ran e b l) (inl (w', served)) =
      let both : some (w, ok v) ≡ some (w', ok u) = sym ran ∙ served in
      let same : v ≡ u = cc in inl (e ∙ ap redirect same)
  Redirection-Found get s s' r expires u (followed v t w ran e b l) (inr (w', x, i, a, z, old)) =
      let both : some (w, ok v) ≡ some (w', err expired) = sym ran ∙ old in absurd (cc)
  Redirection-Found get s s' r expires u (missed x w ran e l) (inl (w', served)) =
      let both : some (w, err x) ≡ some (w', ok u) = sym ran ∙ served in absurd (cc)
  Redirection-Found get s s' r expires u (missed y w ran e l) (inr (w', x, i, a, z, old)) =
      inr (x, i, a, z, ap status e)

  -- Once POST /api/v1/urls has answered with a link, from a coherent state with a valid filter, then
  -- whatever requests, goroutines and ticks of the worker follow: a GET request for the short URL is
  -- answered with a redirect to the URL of the posted body, as long as the row of the code is active,
  -- the shared filter does not deny the code, and the database answers the query; or its status is 404,
  -- and then the expiry of the row is before a reading of the clock. The code is not one of the routes
  -- `health` and `metrics`, nor empty.
  pub created-Found :
      (eval eval' : Option (Eval fl)) (post get : Request) (p q : Process site fl st js worker)
      (f : Front site fl) (resp : ShortenResponse) (row : Row) (found : Option Row)
      → IsCoherent env pgl rdl p.front.server.world
      → IsValid p.front.server.world.filter
      → handle site fl eval
          (codes "POST")
          (codes "api" ∷ codes "v1" ∷ codes "urls" ∷ [])
          post
          p.front
        ≡ some (f, created resp)
      → Events site fl st js worker (record p { front = f; answers = created resp ∷ p.answers }) q
      → resp.short_code ≢ []
      → resp.short_code ≢ codes "health"
      → resp.short_code ≢ codes "metrics"
      → pgl.rows q.front.server.world.db resp.short_code ≡ some row
      → row.is_active ≡ true
      → (env.has_redis
          && absent env (exists_in_bloom env.rd q.front.server.world.kv resp.short_code))
        ≡ false
      → env.pg.select_active q.front.server.world.db resp.short_code ≡ ok found
      → (body : ShortenRequest) × (f' : Front site fl) × (r : Response (User site)) × (post.body
          ≡ ok body)
        × (handle site fl eval' (codes "GET") (resp.short_code ∷ []) get q.front ≡ some (f', r))
        × Found row.expires_at body.long_url r
  created-Found eval eval' post get p q f resp row found c v posted events full other other' at
        active shared reach =
      let s = created-Shortened site fl eval pgl rdl post p.front f resp c v posted in
      let after = shorten_url-After env pgl rdl s.body s.user p.front.server.world c v s.ran in
      let calls = Events-Calls site fl st js worker events in
      let l = Calls-Lasts env pgl rdl after.coherent after.valid calls in
      let served =
        shorten_url-stays env pgl rdl s.body s.user p.front.server.world f.server.world
          q.front.server.world resp row found c v s.ran calls at active shared reach in
      let (f', r, ran, db, limiter, out) =
        handle-Redirection site fl eval' pgl rdl resp.short_code get q.front full other other'
          l.coherent l.valid in
      (
        s.body,
        f',
        r,
        s.asked,
        ran,
        Redirection-Found (record get { code = resp.short_code }) q.front.server f'.server r
            row.expires_at s.body.long_url out served,
      )
