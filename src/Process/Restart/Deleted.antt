-- ===== src/Process/Restart/Deleted.antt =====
-- A deleted link over the life of the program of cmd/server/main.go.
use mathlib.Core.Path.{subst₂}
use nanolink.Prelude.{
  ◌+◌, ◌<◌, ◌^◌, ◌≡◌, ◌≢◌, sym, ap, ◌∙◌, inl, inr, Option, some, [], ◌∷◌, Str, codes,
}
use nanolink.Prelude.Float.{Floats}
use nanolink.Prelude.Result.{Result, ok}
use nanolink.Config.{Config}
use nanolink.Startup.{services}
use nanolink.Snowflake.{Node}
use nanolink.Bloom.Words.{IsValid}
use nanolink.Bloom.New.{size}
use nanolink.Storage.Postgres.{PostgresLaws}
use nanolink.Storage.Redis.{RedisLaws}
use nanolink.Storage.Stream.{Streams, Json}
use nanolink.UrlService.Cache.{IsCoherent}
use nanolink.UrlService.History.{Calls-Lasts}
use nanolink.RateLimit.Service.{Eval}
use nanolink.Worker.{AnalyticsWorker}
use nanolink.Api.Messages.{Request, Response}
use nanolink.Api.Handlers.{Site, User, Server}
use nanolink.Api.Router.{Front, handle}
use nanolink.Api.Router.Redirection.{Redirection, followed, missed, handle-Redirection}
use nanolink.Process.{Process}
use nanolink.Process.Sound.{Events-Calls}
use nanolink.Storage.Postgres.{IsDeleted}
use nanolink.Storage.Redis.{url_key}
use nanolink.Api.Messages.{deactivated, status, failed}
use nanolink.Api.Router.Deletion.{Deletion, rejected, accepted, link_path, handle-Deletion}
use nanolink.UrlService.Gone.{IsGone, Calls-IsGone}
use nanolink.UrlService.Gone.Methods.{delete-IsGone, resolve_url-IsGone}
use nanolink.Process.Sound.{handle-Calls}
use nanolink.Process.Restart.Kept.{Lives-Kept}
use nanolink.Prelude.{true, ℕ, arith, refl, inl, inr}
use nanolink.Process.Restart.{relaunched, Lives, first, again}

module _ (site : Site) (fl : Floats) (st : Streams) (js : Json) (worker : AnalyticsWorker)
    (pgl : PostgresLaws site.env.pg) (rdl : RedisLaws site.env.rd) {Pg Ch : Type 0}
    (open_pg : Str → Result Pg) (open_ch : Str → Result Ch) (ping : Ch → Result (Unit {0}))
    (cfg : Config fl.F) where
  open site use {env}

  abbrev P : Type 0
  P = Process site fl st js worker

  abbrev again_from : Node → P → P
  again_from node p = relaunched site fl st js worker (services fl open_pg open_ch ping cfg) node p

  Lives-IsGone :
      (code : Str) {p q : P}
      → Lives site fl st js worker open_pg open_ch ping cfg p q
      → IsGone env pgl rdl code p.front.server.world.db p.front.server.world.kv
      → IsGone env pgl rdl code q.front.server.world.db q.front.server.world.kv
  Lives-IsGone code (first events) g =
      Calls-IsGone env pgl rdl code (Events-Calls site fl st js worker events) g
  Lives-IsGone code {q = r} (again {q = q} node lives at events) g =
      Calls-IsGone env pgl rdl code {w = (again_from node q).front.server.world}
        (Events-Calls site fl st js worker events) (Lives-IsGone code lives g)

  Deletion-IsGone :
      (eval : Option (Eval fl)) (query : Str → Result (User site × Str)) (api_key code : Str)
      (f f' : Front site fl) (r : Response (User site)) (u : Unit {0})
      → Deletion site fl eval pgl rdl query api_key code f f' r
      → r ≡ deactivated code
      → env.has_redis ≡ true
      → (env.rd.del f.server.world.kv (url_key code)).1 ≡ ok u
      → IsDeleted (pgl.rows f'.server.world.db code)
      → IsGone env pgl rdl code f'.server.world.db f'.server.world.kv
  Deletion-IsGone eval query api_key code f f' r u (rejected why same denied) done redis sent d =
      let bad : ◌≡◌ {A = ℕ} 200 401 = ap status (sym done) ∙ denied in absurd (omega arith)
  Deletion-IsGone eval query api_key code f f' r u (accepted user t k known (inr (e, failing))) done
        redis sent d =
      absurd (cc)
  Deletion-IsGone eval query api_key code f f' r u
        (accepted user t k known (inl (same, ran, table))) done redis sent d =
      delete-IsGone env pgl rdl code (some user) f.server.world f'.server.world tt u ran redis sent
        d

  Redirection-IsGone :
      (get : Request) (s s' : Server site) (r : Response (User site))
      → Redirection site pgl rdl get s s' r
      → IsGone env pgl rdl get.code s.world.db s.world.kv
      → r ≡ failed 404 (codes "short code not found or expired")
  Redirection-IsGone get s s' r (missed x w ran e l) g = e
  Redirection-IsGone get s s' r (followed v t w ran e b l) g =
      absurd (resolve_url-IsGone env pgl rdl get.code s.world w v g ran)

  -- A deleted link never comes back. Once DELETE /api/v1/urls/:code has answered with a success,
  -- from a state in which every cached URL is that of the row of its code, deleted or not, and the
  -- local filter is valid, and the row of the code is marked as deleted, and the DEL of the cached
  -- URL has not failed, then whatever requests, goroutines, ticks of the worker and restarts of the
  -- program follow, one at a time, every GET request for the short URL is answered, with status 404.
  -- The code is not one of the routes `health` and `metrics`, nor empty, there is a Redis client,
  -- the table of users can be asked, and the size of the configured filter is at least one bit and
  -- can be rounded up to a whole word.
  pub deleted-NeverServed :
      (eval eval' : Option (Eval fl)) (query : Str → Result (User site × Str)) (code : Str)
      (del get : Request) (p q : P) (f : Front site fl) (u : Unit {0})
      → 0 < size fl cfg.bloom_capacity cfg.bloom_fp_rate
      → size fl cfg.bloom_capacity cfg.bloom_fp_rate + 63 < 2 ^ 64
      → IsCoherent env pgl rdl p.front.server.world
      → IsValid p.front.server.world.filter
      → code ≢ []
      → code ≢ codes "health"
      → code ≢ codes "metrics"
      → site.users ≡ some query
      → env.has_redis ≡ true
      → handle site fl eval (codes "DELETE") (link_path code) del p.front
        ≡ some (f, deactivated code)
      → IsDeleted (pgl.rows f.server.world.db code)
      → (env.rd.del p.front.server.world.kv (url_key code)).1 ≡ ok u
      → Lives site fl st js worker open_pg open_ch ping cfg
          (record p { front = f; answers = deactivated code ∷ p.answers })
          q
      → (f' : Front site fl) × (handle site fl eval' (codes "GET") (code ∷ []) get q.front
          ≡ some (f', failed 404 (codes "short code not found or expired")))
  deleted-NeverServed eval eval' query code del get p q f u lo hi c v full other other' known redis
        answered d sent lives =
      let (f1, r1, ran1, out1) =
        handle-Deletion site fl eval pgl rdl query code del p.front full known in
      let both : some (f1, r1) ≡ some (f, deactivated code) = sym ran1 ∙ answered in
      let same : f1 ≡ f = cc in
      let done : r1 ≡ deactivated code = cc in
      let gone =
        Deletion-IsGone eval query del.api_key code p.front f (deactivated code) u
          (subst₂ (λ x y. Deletion site fl eval pgl rdl query del.api_key code p.front x y) same
            done out1)
          refl redis sent d in
      let l = Calls-Lasts env pgl rdl c v (
        handle-Calls site fl eval (codes "DELETE") (link_path code) del p.front f (deactivated code)
          answered) in
      let k =
        Lives-Kept site fl st js worker pgl rdl open_pg open_ch ping cfg lo hi code d.0.long_url
          lives (record { coherent = l.coherent; valid = l.valid; backed = (d.0, d.1, refl) }) in
      let (f', r, ran, db, limiter, out) =
        handle-Redirection site fl eval' pgl rdl code get q.front full other other' k.coherent
          k.valid in
      let missed_it =
        Redirection-IsGone (record get { code = code }) q.front.server f'.server r out
          (Lives-IsGone code lives gone) in
      (f', ran ∙ ap (λ x. some (f', x)) missed_it)
