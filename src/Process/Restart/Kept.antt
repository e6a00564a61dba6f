-- ===== src/Process/Restart/Kept.antt =====
-- A short URL over restarts of the program of cmd/server/main.go.
use mathlib.Core.Path.{subst}
use nanolink.Prelude.{
  ◌+◌, ◌<◌, ◌^◌, ◌≡◌, ◌≢◌, sym, ap, ◌∙◌, inl, inr, Option, some, [], ◌∷◌, Str, codes,
}
use nanolink.Prelude.Float.{Floats}
use nanolink.Prelude.Result.{Result, ok}
use nanolink.Config.{Config}
use nanolink.Startup.{services}
use nanolink.Snowflake.{Node}
use nanolink.Models.{ShortenRequest, ShortenResponse}
use nanolink.Bloom.Words.{IsValid}
use nanolink.Bloom.New.{size, new_bloom_filter-IsValid}
use nanolink.Storage.Postgres.{PostgresLaws}
use nanolink.Storage.Redis.{RedisLaws}
use nanolink.Storage.Stream.{Streams, Json}
use nanolink.UrlService.World.{World}
use nanolink.UrlService.Cache.{Backed, IsCoherent}
use nanolink.UrlService.Created.{shorten_url-After, shorten_url-Live}
use nanolink.UrlService.Agreement.{Backed-Keeps}
use nanolink.UrlService.History.{Calls-Lasts}
use nanolink.RateLimit.Service.{Eval}
use nanolink.Worker.{AnalyticsWorker}
use nanolink.Api.Messages.{Request, Response, created, redirect}
use nanolink.Api.Handlers.{Site, User, Server}
use nanolink.Api.Router.{Front, handle}
use nanolink.Api.Router.Redirection.{Redirection, followed, missed, handle-Redirection}
use nanolink.Process.{Process, Events}
use nanolink.Process.Sound.{Events-Calls}
use nanolink.Process.Permanent.{Answer, created-Shortened}
use nanolink.Process.Restart.{relaunched, Lives, first, again}

module _ (site : Site) (fl : Floats) (st : Streams) (js : Json) (worker : AnalyticsWorker)
    (pgl : PostgresLaws site.env.pg) (rdl : RedisLaws site.env.rd) {Pg Ch : Type 0}
    (open_pg : Str → Result Pg) (open_ch : Str → Result Ch) (ping : Ch → Result (Unit {0}))
    (cfg : Config fl.F) where
  open site use {env}

  abbrev P : Type 0
  P = Process site fl st js worker

  abbrev again_from : Node → P → P
  again_from node p = relaunched site fl st js worker (services fl open_pg open_ch ping cfg) node p

  -- the coherent cache, the valid filter and the row behind a short URL
  pub record Kept (code long_url : Str) (w : World env) : Type 0 where
    pub coherent : IsCoherent env pgl rdl w
    pub valid : IsValid w.filter
    pub backed : Backed env pgl rdl w.db code long_url

  Events-Kept :
      (code long_url : Str) {p q : P}
      → Events site fl st js worker p q
      → Kept code long_url p.front.server.world
      → Kept code long_url q.front.server.world
  Events-Kept code long_url {p = p} {q = q} events k =
      let calls = Events-Calls site fl st js worker events in
      let l = Calls-Lasts env pgl rdl k.coherent k.valid calls in
      record {
        coherent = l.coherent;
        valid = l.valid;
        backed =
            Backed-Keeps env pgl rdl p.front.server.world.db q.front.server.world.db code long_url
              l.rows k.backed;
      }

  relaunched-Kept :
      0 < size fl cfg.bloom_capacity cfg.bloom_fp_rate
      → size fl cfg.bloom_capacity cfg.bloom_fp_rate + 63 < 2 ^ 64
      → (code long_url : Str) (node : Node) (p : P) → Kept code long_url p.front.server.world
      → Kept code long_url (again_from node p).front.server.world
  unfolding services
  relaunched-Kept lo hi code long_url node p k = record {
    coherent = k.coherent;
    valid = (new_bloom_filter-IsValid fl cfg.bloom_capacity cfg.bloom_fp_rate lo hi).0;
    backed = k.backed;
  }

  pub Lives-Kept :
      0 < size fl cfg.bloom_capacity cfg.bloom_fp_rate
      → size fl cfg.bloom_capacity cfg.bloom_fp_rate + 63 < 2 ^ 64
      → (code long_url : Str) {p q : P} → Lives site fl st js worker open_pg open_ch ping cfg p q
      → Kept code long_url p.front.server.world
      → Kept code long_url q.front.server.world
  Lives-Kept lo hi code long_url (first events) k = Events-Kept code long_url events k
  Lives-Kept lo hi code long_url (again {q = q} node lives at events) k =
      Events-Kept code long_url events
        (relaunched-Kept lo hi code long_url node q (Lives-Kept lo hi code long_url lives k))

  Redirection-Answer :
      (get : Request) (s s' : Server site) (r : Response (User site)) (long_url : Str)
      → Redirection site pgl rdl get s s' r
      → Backed env pgl rdl s.world.db get.code long_url
      → Answer site fl st js worker pgl rdl long_url r
  Redirection-Answer get s s' r long_url (missed x w ran e l) b = inr e
  Redirection-Answer get s s' r long_url (followed v t w ran e (row, at, long) l)
        (row', at', same) =
      let both : some row ≡ some row' = sym at ∙ at' in
      let one : row ≡ row' = cc in
      let url : v ≡ long_url = sym long ∙ ap (λ x. x.long_url) one ∙ same in
      inl (e ∙ ap redirect url)

  -- Once POST /api/v1/urls has answered with a link, from a coherent state with a valid filter, then
  -- whatever requests, goroutines, ticks of the worker and restarts of the program follow, deletions
  -- included: a GET request for the short URL that is answered redirects to the URL of the posted
  -- body, or has status 404. The code is not one of the routes `health` and `metrics`, nor empty, and
  -- the size of the configured filter is at least one bit and can be rounded up to a whole word.
  pub created-Lives :
      (eval eval' : Option (Eval fl)) (post get : Request) (p q : P) (f f' : Front site fl)
      (resp : ShortenResponse) (r : Response (User site))
      → 0 < size fl cfg.bloom_capacity cfg.bloom_fp_rate
      → size fl cfg.bloom_capacity cfg.bloom_fp_rate + 63 < 2 ^ 64
      → IsCoherent env pgl rdl p.front.server.world
      → IsValid p.front.server.world.filter
      → handle site fl eval
          (codes "POST")
          (codes "api" ∷ codes "v1" ∷ codes "urls" ∷ [])
          post
          p.front
        ≡ some (f, created resp)
      → Lives site fl st js worker open_pg open_ch ping cfg
          (record p { front = f; answers = created resp ∷ p.answers })
          q
      → resp.short_code ≢ []
      → resp.short_code ≢ codes "health"
      → resp.short_code ≢ codes "metrics"
      → handle site fl eval' (codes "GET") (resp.short_code ∷ []) get q.front ≡ some (f', r)
      → (body : ShortenRequest) × (post.body ≡ ok body)
        × Answer site fl st js worker pgl rdl body.long_url r
  created-Lives eval eval' post get p q f f' resp r lo hi c v posted lives full other other' got =
      let s = created-Shortened site fl eval pgl rdl post p.front f resp c v posted in
      let w = p.front.server.world in
      let after = shorten_url-After env pgl rdl s.body s.user w c v s.ran in
      let live = shorten_url-Live env pgl rdl s.body s.user w f.server.world resp c v s.ran in
      let k = Lives-Kept lo hi resp.short_code s.body.long_url lives (record {
        coherent = after.coherent;
        valid = after.valid;
        backed = (live.2.row, live.2.found, live.2.url);
      }) in
      let (f2, r2, ran, db, limiter, out) =
        handle-Redirection site fl eval' pgl rdl resp.short_code get q.front full other other'
          k.coherent k.valid in
      let both : some (f2, r2) ≡ some (f', r) = sym ran ∙ got in
      let same : r2 ≡ r = cc in
      (
        s.body,
        s.asked,
        subst (Answer site fl st js worker pgl rdl s.body.long_url) same (
            Redirection-Answer (record get { code = resp.short_code }) q.front.server f2.server r2
              s.body.long_url out k.backed),
      )
