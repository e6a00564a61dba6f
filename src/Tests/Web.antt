-- ===== src/Tests/Web.antt =====
-- Requests that go through the router.
use nanolink.Prelude.{
  ℕ, ◌≡◌, ◌≢◌, ◌↔◌, refl, arith, Option, true, none, some, [], ◌∷◌, Str, codes, str_eq,
  if◌then◌else◌,
}
use nanolink.Prelude.Int.{pos}
use nanolink.Prelude.Result.{Result, ok, err}
use nanolink.Bloom.Words.{IsValid}
use nanolink.UrlService.Cache.{IsCoherent}
use nanolink.RateLimit.Service.{Eval}
use nanolink.Api.Messages.{Request, Response}
use nanolink.Api.Handlers.{Site}
use nanolink.Api.Router.{Endpoint, find_route, Front, handle}
use nanolink.Api.Router.Paths.{find_route-redirect_iff}
use nanolink.Api.Router.Deletion.{Deletion, link_path, handle-Deletion}
use nanolink.Api.Router.Listing.{Listing, handle-Listing}
use nanolink.Api.Router.Redirection.{Redirection, handle-Redirection}
use nanolink.Prelude.Int.{◌-ℤ◌}
use nanolink.Prelude.Map.{find, put}
use nanolink.TokenBucket
use nanolink.TokenBucket.{new_token_bucket, refilled}
use nanolink.RateLimit.Service.{RateLimiterService, allow, allow_local, bucket_of}
use nanolink.Api.RateLimiter.{rate_limiter, client_key, answer_to, next}
use nanolink.UrlService.Total.{Moves}
use nanolink.UrlService.Alias.{alias_ok, all_chars}
use nanolink.Api.Router.Shortening.{Shortening, handle-Shortening}
use nanolink.Tests.Numbers.{wholes}
use nanolink.Tests.Servers.{table_laws, cache_laws, site, linked}
use nanolink.Tests.Streams.{clicks}

-- one user, number 7, with the tier "pro"
abbrev pub known : Str → Result (ℕ × Str)
known hash = if str_eq hash (codes "secret") then ok (7, codes "pro") else err (codes "no rows")

abbrev pub web : Site
web = record {
  env = site;
  users = some known;
  sha256_hex = λ text. text;
  qr_encode = λ text. ok text;
  ch = clicks;
  click_house = none;
  show_duration = λ d. [];
  show_rfc3339 = λ t. [];
  start_time = pos 0;
  metrics_page = (200, []);
  index_page = λ req. (200, []);
}

pub linked-IsCoherent : IsCoherent site table_laws cache_laws linked
linked-IsCoherent code v x e = absurd (cc)

pub linked-IsValid : IsValid linked.filter
linked-IsValid = record { positive = omega arith; room = omega arith }

abbrev pub no_redis : Option (Eval wholes)
no_redis = none

abbrev pub front : Front web wholes
front = record {
  server = record { world = linked; launched = [] };
  limiter = record { local_limits = []; capacity = 10; refill_rate = 1 };
}

abbrev pub request : Request
request = record {
  api_key = codes "secret";
  client_ip = codes "192.0.2.1";
  user_agent = codes "curl";
  referer = [];
  code = [];
  limit = codes "250";
  offset = codes "40";
  body = err [];
  made = pos 0;
  now = pos 0;
}

pub docs_full : codes "docs" ≢ []
docs_full e = cc

find_route-redirect_iff_example :
    (find_route (codes "GET") (codes "docs" ∷ []) ≡ some (Endpoint.redirect, codes "docs"))
    ↔ ((codes "docs" ≢ codes "health") × (codes "docs" ≢ codes "metrics"))
find_route-redirect_iff_example = find_route-redirect_iff (codes "docs") docs_full

handle-Deletion_example :
    (f' : Front web wholes) × (r : Response ℕ) × (handle web wholes no_redis
        (codes "DELETE")
        (link_path (codes "docs"))
        request
        front
      ≡ some (f', r))
    × Deletion web wholes no_redis table_laws cache_laws known
        (codes "secret")
        (codes "docs")
        front
        f'
        r
handle-Deletion_example =
    handle-Deletion web wholes no_redis table_laws cache_laws known (codes "docs") request front
      docs_full refl

handle-Listing_example :
    (r : Response ℕ) × (handle web wholes no_redis
        (codes "GET")
        (codes "api" ∷ codes "v1" ∷ codes "urls" ∷ [])
        request
        front
      ≡ some (front, r))
    × Listing web wholes no_redis known request front.server r
handle-Listing_example = handle-Listing web wholes no_redis known request front refl

handle-Redirection_example :
    (f' : Front web wholes) × (r : Response ℕ) × (handle web wholes no_redis
        (codes "GET")
        (codes "docs" ∷ [])
        request
        front
      ≡ some (f', r))
    × (f'.server.world.db ≡ linked.db)
    × (f'.limiter ≡ front.limiter)
    × Redirection web table_laws cache_laws
        (record request { code = codes "docs" })
        front.server
        f'.server
        r
handle-Redirection_example =
    handle-Redirection web wholes no_redis table_laws cache_laws (codes "docs") request front
      docs_full (λ e. cc) (λ e. cc) linked-IsCoherent linked-IsValid

abbrev asking : Request
asking = record request {
  body = ok (record {
    long_url = codes "https://example.org/b";
    custom_alias = codes "book";
    ttl_seconds = none;
  });
}

abbrev pub limits : RateLimiterService wholes
limits = record { local_limits = []; capacity = 1; refill_rate = 0 }

abbrev spent : RateLimiterService wholes
spent = record limits {
  local_limits =
      (
        codes "key:secret",
        record { capacity = 1; refill_rate = 0; tokens = 0; last_updated = pos 0 },
      )
      ∷ [];
}

abbrev entrance : Front web wholes
entrance = record front { limiter = limits }

asked :
    rate_limiter wholes limits no_redis (codes "192.0.2.1") (codes "secret") (pos 0) (pos 0)
    ≡ some (spent, next (some (pos 0)))
unfolding rate_limiter client_key answer_to allow allow_local bucket_of new_token_bucket refilled
    TokenBucket.allow find put ◌-ℤ◌
asked = refl

linked-Moves : Moves site linked 0
linked-Moves = record { enough = omega arith; later = omega arith }

handle-Shortening_example :
    (f' : Front web wholes) × (r : Response ℕ) × (handle web wholes no_redis
        (codes "POST")
        (codes "api" ∷ codes "v1" ∷ codes "urls" ∷ [])
        asking
        entrance
      ≡ some (f', r))
    × Shortening web wholes no_redis table_laws cache_laws
        (record asking { code = [] })
        entrance
        f'
        r
handle-Shortening_example =
    handle-Shortening web wholes no_redis table_laws cache_laws known asking entrance spent
      (next (some (pos 0))) 0 asked refl linked-IsCoherent linked-IsValid linked-Moves

health_alias : alias_ok (codes "health") ≡ true
unfolding alias_ok all_chars
health_alias = refl
