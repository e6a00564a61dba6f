-- ===== src/Api/Router/Redirection.antt =====
-- Following a short link: Redirect of internal/api/handlers/url_handler.go behind its two routes.
use nanolink.Prelude.{
  suc, ◌≡◌, ◌≢◌, refl, ap, ◌∙◌, inl, inr, Option, some, List, [], ◌∷◌, ◌++◌, Str, codes, Bool-cases,
  if◌then◌else◌,
}
use mathlib.Core.List.{append_assoc, append-nil}
use nanolink.Prelude.Int.{ℤ}
use nanolink.Prelude.Float.{Floats}
use nanolink.Prelude.Result.{ok, err, Result-cases}
use nanolink.Analytics.{click_event}
use nanolink.Bloom.Words.{IsValid}
use nanolink.Storage.Postgres.{PostgresLaws}
use nanolink.Storage.Redis.{RedisLaws}
use nanolink.UrlService.World.{World, now, >>=-ok}
use nanolink.UrlService.Resolve.{resolve_url}
use nanolink.UrlService.Cache.{Backed, IsCoherent}
use nanolink.UrlService.Lookup.{resolve_url-total, resolve_url-Backed}
use nanolink.RateLimit.Service.{Eval}
use nanolink.Api.Messages.{Request, Response, failed, redirect, Task, count_click, publish_click}
use nanolink.Api.Handlers.{
  Site, User, Server, follow, redirect_to, call, call_lem, go, count, record_telemetry,
}
use nanolink.Api.Router.{Front, serve, handle}
use nanolink.Api.Router.Paths.{str_ne, find_route-redirect_iff}

module _ (site : Site) where
  open site use {env, sha256_hex}

  -- the goroutines of a redirect: the counter of the code and, with a Redis client, the click
  abbrev pub tasks_of : Request → ℤ → List Task
  tasks_of req t =
      let event = click_event sha256_hex t req.code req.client_ip req.user_agent req.referer in
      count_click req.code ∷ (if env.has_redis then publish_click event ∷ [] else [])

  pub redirect_to_run :
      (req : Request) (s : Server site) (v : Str)
      → redirect_to site req (ok v) s
        ≡ some (
          record {
            world = record s.world { ticks = suc s.world.ticks };
            launched = s.launched ++ tasks_of req (env.clock s.world.ticks);
          },
          redirect v,
        )
  unfolding redirect_to count record_telemetry go call now
  redirect_to_run req s v = elim (Bool-cases env.has_redis) [
    | inl there ↦ simp (there, append_assoc)
    | inr missing ↦ simp (missing, append-nil, append_assoc)
  ]

  pub redirect_to-missed :
      (req : Request) (s : Server site) (e : Str)
      → redirect_to site req (err e) s
        ≡ some (s, failed 404 (codes "short code not found or expired"))
  unfolding redirect_to
  redirect_to-missed req s e = refl

  -- What becomes of a request for a code.
  pub data Redirection (pgl : PostgresLaws env.pg) (rdl : RedisLaws env.rd) (req : Request)
      (s s' : Server site) (r : Response (User site)) : Type 0 where
    followed :
        (v : Str) (t : ℤ) (w : World env)
        → resolve_url env req.code s.world ≡ some (w, ok v)
        → r ≡ redirect v
        → Backed env pgl rdl s.world.db req.code v
        → s'.launched ≡ s.launched ++ tasks_of req t
        → Redirection pgl rdl req s s' r
    missed :
        (e : Str) (w : World env)
        → resolve_url env req.code s.world ≡ some (w, err e)
        → r ≡ failed 404 (codes "short code not found or expired")
        → s'.launched ≡ s.launched
        → Redirection pgl rdl req s s' r

  module _ (pgl : PostgresLaws env.pg) (rdl : RedisLaws env.rd) where
    follow-Redirection :
        (req : Request) (s : Server site)
        → req.code ≢ []
        → IsCoherent env pgl rdl s.world
        → IsValid s.world.filter
        → (s' : Server site) × (r : Response (User site)) × (follow site req s ≡ some (s', r))
          × (s'.world.db ≡ s.world.db)
          × Redirection pgl rdl req s s' r
    unfolding follow
    follow-Redirection req s full c valid =
        let (w', r, ran, db, filter, coherent) =
          resolve_url-total env pgl rdl req.code s.world c valid in
        let went =
          >>=-ok (call site (resolve_url env req.code)) (redirect_to site req) s
            (call_lem site (resolve_url env req.code) s w' r ran) in
        let s1 : Server site = record s { world = w' } in
        elim (Result-cases r) [
          | inr (e, bad) ↦ (
            s1,
            failed 404 (codes "short code not found or expired"),
            rw (str_ne req.code [] full)
                (went ∙ ap (λ x. redirect_to site req x s1) bad ∙ redirect_to-missed req s1 e),
            db,
            missed e w' (rw bad at ran) refl refl,
          )
          | inl (v, good) ↦ (
            record {
              world = record w' { ticks = suc w'.ticks };
              launched = s.launched ++ tasks_of req (env.clock w'.ticks);
            },
            redirect v,
            rw (str_ne req.code [] full)
                (went ∙ ap (λ x. redirect_to site req x s1) good ∙ redirect_to_run req s1 v),
            db,
            followed v (env.clock w'.ticks) w' (rw good at ran) refl
                (resolve_url-Backed env pgl rdl req.code s.world w' v c valid (rw good at ran))
                refl,
          )
        ]

module _ (site : Site) (fl : Floats) (eval : Option (Eval fl)) (pgl : PostgresLaws site.env.pg)
    (rdl : RedisLaws site.env.rd) where
  open site use {env}

  -- A GET request for a short URL, the path of one segment `code` that is not empty, `health` or
  -- `metrics`, from a coherent state with a valid filter, always ends. If ResolveURL gives a URL, the
  -- answer is a redirect to it, the table has a row for the code with that URL, and exactly the
  -- goroutines of one click are started, that of the counter and, with a Redis client, that of the
  -- stream; if it gives an error, the answer has status 404 and none is started. The table is as it was,
  -- and so is the rate limiter.
  pub handle-Redirection :
      (code : Str) (req : Request) (f : Front site fl)
      → code ≢ []
      → code ≢ codes "health"
      → code ≢ codes "metrics"
      → IsCoherent env pgl rdl f.server.world
      → IsValid f.server.world.filter
      → (f' : Front site fl) × (r : Response (User site)) × (handle site fl eval
            (codes "GET")
            (code ∷ [])
            req
            f
          ≡ some (f', r))
        × (f'.server.world.db ≡ f.server.world.db)
        × (f'.limiter ≡ f.limiter)
        × Redirection site pgl rdl (record req { code = code }) f.server f'.server r
  unfolding handle serve
  handle-Redirection code req f full other other' c valid =
      let (s', r, ran, db, out) =
        follow-Redirection site pgl rdl (record req { code = code }) f.server full c valid in
      (
        record f { server = s' },
        r,
        rw ((find_route-redirect_iff code full).1 (other, other'), ran) refl,
        db,
        refl,
        out,
      )
