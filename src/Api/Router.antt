-- ===== src/Api/Router.antt =====
-- internal/api/router.go, and the labels of internal/api/middleware/metrics.go. Gin matches a path
-- segment by segment, a fixed segment before a parameter; a parameter is not empty.
pub mod Paths
pub mod Deletion
pub mod Redirection
pub mod Listing
pub mod Admission
pub mod Shortening
pub mod Handled
pub mod Launches
use nanolink.Prelude.{
  ℕ, Bool, true, false, Option, none, some, List, [], ◌∷◌, Str, codes, str_eq, ◌&&◌, if◌then◌else◌,
}
use nanolink.Prelude.Int.{ℤ}
use nanolink.Prelude.Float.{Floats}
use nanolink.Prelude.Result.{Result, ok, err}
use nanolink.UrlService.World.{◌>>=◌}
use nanolink.RateLimit.Service.{RateLimiterService, Eval}
use nanolink.Api.RateLimiter.{Answer, next, too_many_requests, rate_limiter}
use nanolink.Api.Messages.{
  Request, Response, failed, page, without_slash, unrouted, status, Context,
}
use nanolink.Api.Auth.{Guarded, pass, halt, optional_auth, require_auth}
use nanolink.Api.Handlers.{
  Site, User, Server, H, shorten, follow, delete_link, list_urls, generate_qr_code, show_stats,
  health_check,
}

pub data Segment : Type 0 where
  fixed : Str → Segment
  param : Segment

-- The handlers, each with the middleware of its route.
pub data Endpoint : Type 0 where
  index : Endpoint
  health : Endpoint
  metrics : Endpoint
  redirect : Endpoint
  shorten_url : Endpoint
  list : Endpoint
  delete_url : Endpoint
  get_stats : Endpoint
  qr_code : Endpoint
  -- no handler: Gin's redirect for a slash at the end
  slash : ℕ → Endpoint

pub record Route : Type 0 where
  pub method : Str
  pub pattern : List Segment
  pub endpoint : Endpoint

abbrev route : Str → List Segment → Endpoint → Route
route method pattern endpoint = record { method = method; pattern = pattern; endpoint = endpoint }

abbrev v1 : List Segment → List Segment
v1 pattern = fixed (codes "api") ∷ fixed (codes "v1") ∷ fixed (codes "urls") ∷ pattern

-- The routes without a parameter stand first, so that they are tried first.
abbrev pub routes : List Route
routes =
    route (codes "GET") [] Endpoint.index
    ∷ route (codes "HEAD") [] Endpoint.index
    ∷ route (codes "GET") (fixed (codes "health") ∷ []) Endpoint.health
    ∷ route (codes "GET") (fixed (codes "metrics") ∷ []) Endpoint.metrics
    ∷ route (codes "POST") (v1 []) Endpoint.shorten_url
    ∷ route (codes "GET") (v1 []) Endpoint.list
    ∷ route (codes "GET") (param ∷ []) Endpoint.redirect
    ∷ route (codes "GET") (v1 (param ∷ [])) Endpoint.redirect
    ∷ route (codes "DELETE") (v1 (param ∷ [])) Endpoint.delete_url
    ∷ route (codes "GET") (v1 (param ∷ fixed (codes "stats") ∷ [])) Endpoint.get_stats
    ∷ route (codes "GET") (v1 (param ∷ fixed (codes "qr") ∷ [])) Endpoint.qr_code
    ∷ []

-- the parameter `code` of a path that the pattern fits, from the one found so far
unfoldable pub fit : List Segment → List Str → Str → Option Str
fit [] [] code = some code
fit [] (x ∷ path) code = none
fit (fixed s ∷ pattern) [] code = none
fit (fixed s ∷ pattern) (x ∷ path) code =
    let rest = fit pattern path code in if str_eq x s then rest else none
fit (param ∷ pattern) [] code = none
fit (param ∷ pattern) (x ∷ path) code =
    let rest = fit pattern path x in if str_eq x [] then none else rest

abbrev pub is_nil : {A : Type 0} → List A → Bool
is_nil [] = true
is_nil (x ∷ l) = false

abbrev pub or_else : {A : Type 0} → Option A → Option A → Option A
or_else none other = other
or_else (some a) other = some a

abbrev with_endpoint : Endpoint → Option Str → Option (Endpoint × Str)
with_endpoint e none = none
with_endpoint e (some code) = some (e, code)

unfoldable pub find_in : List Route → Str → List Str → Option (Endpoint × Str)
unfolding fit
find_in [] method path = none
find_in (r ∷ rest) method path =
    or_else
      (if str_eq method r.method then with_endpoint r.endpoint (fit r.pattern path []) else none)
      (find_in rest method path)

-- the endpoint for a method and the segments of a path, and its parameter
unfoldable pub find_route : Str → List Str → Option (Endpoint × Str)
unfolding find_in
find_route method path = find_in routes method path

-- the path without the slash at its end, if it has one: the last segment is empty
unfoldable pub drop_slash : List Str → Option (List Str)
drop_slash [] = none
drop_slash (x ∷ []) = none
drop_slash (x ∷ y ∷ path) =
    let rest = drop_slash (y ∷ path) in
    if str_eq y [] && is_nil path
    then some (x ∷ [])
    else elim rest [ none ↦ none | some init ↦ some (x ∷ init) ]

abbrev pub slash_status : Str → ℕ
slash_status method = if str_eq method (codes "GET") then 301 else 307

-- Gin's RedirectTrailingSlash, which is on: the path fits a route but for the slash at its end. It comes
-- before any middleware.
unfoldable pub slash_route : Str → List Str → Option (Endpoint × Str)
slash_route method path = elim (drop_slash path) [
  | none ↦ none
  | some init ↦ elim (find_route method init) [
    | none ↦ none
    | some found ↦ some (Endpoint.slash (slash_status method), [])
  ]
]

abbrev pub endpoint_for : Str → List Str → Option (Endpoint × Str)
endpoint_for method path = or_else (find_route method path) (slash_route method path)

module _ (site : Site) (fl : Floats) where
  -- the services, and the state of the rate limiter
  pub record Front : Type 0 where
    pub server : Server site
    pub limiter : RateLimiterService fl

module _ (site : Site) (fl : Floats) (eval : Option (Eval fl)) where
  open site use {env, users, sha256_hex}

  abbrev pub Served : Type 0
  Served = Option (Front site fl × Response (User site))

  -- a handler with no state of the rate limiter
  abbrev pub handled : Front site fl → Option (Server site × Response (User site)) → Served
  handled f none = none
  handled f (some (s, r)) = some (record f { server = s }, r)

  -- RequireAuth in front of a handler
  abbrev pub guarded :
      Front site fl
      → Option (Guarded (User site))
      → (Context (User site) → H site (Response (User site)))
      → Served
  guarded f none handler = none
  guarded f (some (halt r)) handler = some (f, r)
  guarded f (some (pass c)) handler = handled f (handler c f.server)

  abbrev pub with_context : Front site fl → Option (Context (User site)) → Request → Served
  with_context f none req = none
  with_context f (some c) req = handled f (shorten site req c f.server)

  abbrev pub admitted : Front site fl → Answer → Request → Served
  admitted f (too_many_requests remaining) req = some (f, failed 429 (codes "rate limit exceeded"))
  admitted f (next remaining) req = with_context f (optional_auth users sha256_hex req.api_key) req

  abbrev pub limited : Front site fl → Option (RateLimiterService fl × Answer) → Request → Served
  limited f none req = none
  limited f (some (l, a)) req = admitted (record f { limiter = l }) a req

  unfoldable pub serve : Endpoint → Request → Front site fl → Served
  serve Endpoint.index req f = some (f, page (site.index_page req).0 (site.index_page req).1)
  serve Endpoint.health req f = handled f (health_check site f.server)
  serve Endpoint.metrics req f = some (f, page site.metrics_page.0 site.metrics_page.1)
  serve Endpoint.redirect req f = handled f (follow site req f.server)
  serve Endpoint.shorten_url req f =
      limited f (rate_limiter fl f.limiter eval req.client_ip req.api_key req.made req.now) req
  serve Endpoint.list req f =
      guarded f (require_auth users sha256_hex req.api_key) (list_urls site req)
  serve Endpoint.delete_url req f =
      guarded f (require_auth users sha256_hex req.api_key) (delete_link site req)
  serve Endpoint.get_stats req f = handled f (show_stats site req f.server)
  serve (Endpoint.slash n) req f = some (f, without_slash n)
  serve Endpoint.qr_code req f = handled f (generate_qr_code site req f.server)

  abbrev pub dispatch : Option (Endpoint × Str) → Request → Front site fl → Served
  dispatch none req f = some (f, unrouted)
  dispatch (some (e, code)) req f = serve e (record req { code = code }) f

  -- the whole way of a request; `none` is a panic, from which Gin recovers with status 500
  unfoldable pub handle : Str → List Str → Request → Front site fl → Served
  handle method path req f = dispatch (endpoint_for method path) req f

  -- the labels of the counter and of the histogram: the status stands for its decimal text
  unfoldable pub labels : Str → Str → Response (User site) → Str × Str × ℕ
  labels method full_path r =
      (method, if str_eq full_path [] then codes "unknown" else full_path, status r)
