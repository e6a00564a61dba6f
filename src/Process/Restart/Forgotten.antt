-- ===== src/Process/Restart/Forgotten.antt =====
-- What a restart of the program of cmd/server/main.go does to the short URLs there are.
use nanolink.Prelude.{◌+◌, ◌<◌, ◌^◌, ◌≡◌, ◌≢◌, sym, ap, ◌∙◌, Option, some, [], ◌∷◌, Str, codes}
use nanolink.Prelude.Float.{Floats}
use nanolink.Prelude.Result.{Result, ok, err}
use nanolink.Config.{Config}
use nanolink.Startup.{services}
use nanolink.Snowflake.{Node}
use nanolink.Bloom.New.{size, new_bloom_filter-IsValid, new_bloom_filter-contains}
use nanolink.Storage.Postgres.{PostgresLaws}
use nanolink.Storage.Redis.{RedisLaws}
use nanolink.Storage.Stream.{Streams, Json}
use nanolink.UrlService.Resolve.{not_found, resolve_url}
use nanolink.UrlService.Lookup.{resolve_url-unseen}
use nanolink.UrlService.Cache.{IsCoherent}
use nanolink.RateLimit.Service.{Eval}
use nanolink.Worker.{AnalyticsWorker}
use nanolink.Api.Messages.{Request, Response, failed}
use nanolink.Api.Handlers.{Site, User, Server}
use nanolink.Api.Router.{Front, handle}
use nanolink.Api.Router.Redirection.{Redirection, followed, missed, handle-Redirection}
use nanolink.Process.{Process}
use nanolink.Process.Restart.{relaunched}

module _ (site : Site) (fl : Floats) (st : Streams) (js : Json) (worker : AnalyticsWorker)
    (pgl : PostgresLaws site.env.pg) (rdl : RedisLaws site.env.rd) {Pg Ch : Type 0}
    (open_pg : Str → Result Pg) (open_ch : Str → Result Ch) (ping : Ch → Result (Unit {0}))
    (cfg : Config fl.F) where
  open site use {env}

  abbrev P : Type 0
  P = Process site fl st js worker

  abbrev again_from : Node → P → P
  again_from node p = relaunched site fl st js worker (services fl open_pg open_ch ping cfg) node p

  Redirection-missed :
      (get : Request) (s s' : Server site) (r : Response (User site))
      → Redirection site pgl rdl get s s' r
      → resolve_url env get.code s.world ≡ some (s.world, err not_found)
      → r ≡ failed 404 (codes "short code not found or expired")
  Redirection-missed get s s' r (missed x w ran e l) unseen = e
  Redirection-missed get s s' r (followed v t w ran e b l) unseen =
      let both : some (w, ok v) ≡ some (s.world, err not_found) = sym ran ∙ unseen in absurd (cc)

  -- After a restart, from any coherent state, every GET request for a short URL is answered with
  -- status 404, whichever rows the table has and whichever URLs the cache: the new local filter
  -- contains no code. The code is not one of the routes `health` and `metrics`, nor empty, and the size
  -- of the configured filter is at least one bit and can be rounded up to a whole word.
  pub relaunched-failed :
      (eval : Option (Eval fl)) (code : Str) (get : Request) (node : Node) (p : P)
      → 0 < size fl cfg.bloom_capacity cfg.bloom_fp_rate
      → size fl cfg.bloom_capacity cfg.bloom_fp_rate + 63 < 2 ^ 64
      → IsCoherent env pgl rdl p.front.server.world
      → code ≢ []
      → code ≢ codes "health"
      → code ≢ codes "metrics"
      → (f' : Front site fl) × (handle site fl eval
            (codes "GET")
            (code ∷ [])
            get
            (again_from node p).front
          ≡ some (f', failed 404 (codes "short code not found or expired")))
  unfolding services
  relaunched-failed eval code get node p lo hi c full other other' =
      let q = again_from node p in
      let v = (new_bloom_filter-IsValid fl cfg.bloom_capacity cfg.bloom_fp_rate lo hi).0 in
      let none_in = new_bloom_filter-contains fl cfg.bloom_capacity cfg.bloom_fp_rate lo hi code in
      let (f', r, ran, db, limiter, out) =
        handle-Redirection site fl eval pgl rdl code get q.front full other other' c v in
      let e =
        Redirection-missed (record get { code = code }) q.front.server f'.server r out
          (resolve_url-unseen env pgl rdl code q.front.server.world none_in) in
      (f', ran ∙ ap (λ x. some (f', x)) e)
