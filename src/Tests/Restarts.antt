-- ===== src/Tests/Restarts.antt =====
-- The program ends after a link has been posted, and is started again.
use nanolink.Prelude.{ℕ, ◌+◌, ◌<◌, ◌^◌, ◌≡◌, refl, some, [], ◌∷◌, Str, codes, arith}
use nanolink.Prelude.Result.{Result, ok}
use nanolink.Config.{Config}
use nanolink.Startup.{services, new_url_service}
use nanolink.Prelude.Int.{pos, negsuc}
use nanolink.Snowflake.{Node, new_node, epoch}
use nanolink.Models.{ShortenRequest}
use nanolink.Bloom.{bits_for, rate_or_default, expected_or_default}
use nanolink.Bloom.New.{size}
use nanolink.UrlService.Cache.{IsCoherent}
use nanolink.Api.Messages.{failed}
use nanolink.Api.Router.{handle}
use nanolink.Process.{Events}
use nanolink.Process
use nanolink.Process.Sound.{Events-IsSound}
use nanolink.Process.Permanent.{Answer}
use nanolink.Process.Restart.{relaunched, first, again}
use nanolink.Process.Restart.Kept.{created-Lives}
use nanolink.Tests.Streams.{stream, stream_laws, clicks_laws}
use nanolink.Process.Restart.Forgotten.{relaunched-failed}
use nanolink.Tests.Numbers.{wholes}
use nanolink.Tests.Servers.{table_laws, cache_laws, start-IsCoherent, start-IsValid}
use nanolink.Tests.Clicks.{codec, worker}
use nanolink.Tests.Web.{web, no_redis, request}
use nanolink.Tests.Life.{
  P, F, new, posting, posted, answer, posted_run, ticked, from_link, from_new, new-IsSound,
  followed,
}

abbrev pub cfg : Config ℕ
cfg = record {
  port = codes "8080";
  postgres_dsn = codes "postgres://";
  redis_addr = codes "localhost:6379";
  redis_password = [];
  click_house_dsn = [];
  base_url = codes "https://nano.link/";
  bloom_capacity = 100;
  bloom_fp_rate = 4;
  rate_limit_capacity = 100;
  rate_limit_refill = 10;
}

abbrev pub open_any : Str → Result ℕ
open_any dsn = ok 0

abbrev pub ping_any : ℕ → Result (Unit {0})
ping_any db = ok tt

pub size_lo : 0 < size wholes 100 4
unfolding bits_for rate_or_default expected_or_default
size_lo = omega arith

pub size_hi : size wholes 100 4 + 63 < 2 ^ 64
unfolding bits_for rate_or_default expected_or_default
size_hi = omega arith

abbrev pub node_one : Node
node_one = record { epoch = epoch; node = pos 1; sequence = 0; last_stamp = negsuc 0 }

pub node_lem : (services wholes open_any open_any ping_any cfg).node ≡ some node_one
unfolding services new_url_service new_node
node_lem = refl

abbrev back : P
back =
    relaunched web wholes stream codec worker (services wholes open_any open_any ping_any cfg)
      node_one ticked

ticked-IsCoherent : IsCoherent web.env table_laws cache_laws ticked.front.server.world
ticked-IsCoherent =
    (Events-IsSound web wholes stream codec worker table_laws cache_laws stream_laws clicks_laws []
      from_new new-IsSound).coherent

relaunched-failed_example :
    (f : F) × (handle web wholes no_redis (codes "GET") (codes "book" ∷ []) request back.front
      ≡ some (f, failed 404 (codes "short code not found or expired")))
relaunched-failed_example =
    relaunched-failed web wholes stream codec worker table_laws cache_laws open_any open_any
      ping_any cfg no_redis (codes "book") request node_one ticked size_lo size_hi ticked-IsCoherent
      (λ e. cc) (λ e. cc) (λ e. cc)

abbrev got_404 :
    (f : F) × (handle web wholes no_redis (codes "GET") (codes "book" ∷ []) request back.front
      ≡ some (f, failed 404 (codes "short code not found or expired")))
got_404 =
    relaunched-failed web wholes stream codec worker table_laws cache_laws open_any open_any
      ping_any cfg no_redis (codes "book") request node_one ticked size_lo size_hi ticked-IsCoherent
      (λ e. cc) (λ e. cc) (λ e. cc)

created-Lives_example :
    (body : ShortenRequest) × (posting.body ≡ ok body)
    × Answer web wholes stream codec worker table_laws cache_laws body.long_url
        (failed 404 (codes "short code not found or expired"))
created-Lives_example =
    created-Lives web wholes stream codec worker table_laws cache_laws open_any open_any ping_any
      cfg no_redis no_redis posting request new back posted got_404.0 answer
      (failed 404 (codes "short code not found or expired")) size_lo size_hi start-IsCoherent
      start-IsValid posted_run (again node_one (first from_link) node_lem Process.start) (λ e. cc)
      (λ e. cc) (λ e. cc) got_404.1

-- after a redirect, a tick of the worker and a restart
abbrev gone : P
gone =
    relaunched web wholes stream codec worker (services wholes open_any open_any ping_any cfg)
      node_one followed
