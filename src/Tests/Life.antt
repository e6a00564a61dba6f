-- ===== src/Tests/Life.antt =====
-- The program at work: a link is posted and followed, and the worker stores the click.
use nanolink.Prelude.{
  ℕ, ◌≡◌, refl, Option, true, false, none, some, List, [], ◌∷◌, Str, codes, ◌&&◌,
}
use nanolink.Prelude.Int.{pos, ◌-ℤ◌}
use nanolink.Prelude.Map.{find, put}
use nanolink.Prelude.Result.{ok}
use nanolink.Models.{ShortenRequest, ShortenResponse}
use nanolink.Bloom
use nanolink.TokenBucket
use nanolink.TokenBucket.{new_token_bucket, refilled}
use nanolink.Storage.Postgres.{create_url, get_by_short_code, active_only}
use nanolink.Storage.Redis.{set_url, url_key, add_to_bloom, exists_in_bloom}
use nanolink.Storage.Stream.Batch.{events_in}
use nanolink.UrlService.World.{now, on_redis, add_local, bloom_add, absent}
use nanolink.UrlService.Alias.{alias_ok, all_chars}
use nanolink.UrlService.Shorten.{
  custom_code, pick_code, expiry, create, retry, persist, cache_ttl, cache_url, publish, shorten_as,
  shorten_url,
}
use nanolink.RateLimit.Service.{allow, allow_local, bucket_of}
use nanolink.Api.RateLimiter.{rate_limiter, client_key, answer_to}
use nanolink.Api.Auth.{optional_auth, lookup_user}
use nanolink.Api.Messages.{Request, Response, created}
use nanolink.Api.Handlers.{call, shorten}
use nanolink.Api.Router.{Front, find_route, find_in, fit, serve, handle}
use nanolink.Worker.{process_batch}
use nanolink.Storage.Postgres.{Row}
use mathlib.Core.List.{Sublistᴰ}
use nanolink.Process.{Process, served, flushed, Events, later}
use nanolink.Process
use nanolink.Process.Sound.{IsSound}
use nanolink.Process.Permanent.{Found, created-Found}
use nanolink.Tests.Numbers.{wholes}
use nanolink.Tests.Servers.{
  cache, table_laws, cache_laws, site, start, start-IsCoherent, start-IsValid, docs,
}
use nanolink.Tests.Streams.{stream, stream_laws, clicks, clicks_laws}
use nanolink.Tests.Clicks.{codec, worker}
use nanolink.Tests.Web.{web, no_redis, request, limits}

abbrev pub P : Type 0
P = Process web wholes stream codec worker

abbrev pub F : Type 0
F = Front web wholes

abbrev pub new : P
new = record {
  front = record { server = record { world = start; launched = [] }; limiter = limits };
  stores = record {
    log = record { old = []; new = []; group = true; acked = [] };
    click_house = some [];
  };
  answers = [];
}

abbrev pub posting : Request
posting = record request {
  body = ok (record {
    long_url = codes "https://example.org/b";
    custom_alias = codes "book";
    ttl_seconds = none;
  });
}

abbrev front_or : Option (F × Response ℕ) → F
front_or none = new.front
front_or (some (f, r)) = f

abbrev pub v1_urls : List Str
v1_urls = codes "api" ∷ codes "v1" ∷ codes "urls" ∷ []

abbrev pub posted : F
posted = front_or (handle web wholes no_redis (codes "POST") v1_urls posting new.front)

abbrev pub answer : ShortenResponse
answer = record {
  short_code = codes "book";
  short_url = codes "https://nano.link/book";
  long_url = codes "https://example.org/b";
  created_at = pos 1704067200000000000;
  expires_at = none;
}

pub posted_run :
    handle web wholes no_redis (codes "POST") v1_urls posting new.front
    ≡ some (posted, created answer)
unfolding handle serve find_route find_in fit rate_limiter client_key answer_to allow allow_local
    bucket_of new_token_bucket refilled TokenBucket.allow find put ◌-ℤ◌ optional_auth lookup_user
    shorten call shorten_url pick_code custom_code shorten_as expiry now persist create retry
    publish bloom_add add_local on_redis cache_url cache_ttl alias_ok all_chars get_by_short_code
    create_url add_to_bloom set_url url_key Bloom.add Bloom.add_from Bloom.hash Bloom.set_bit
    Bloom.counted Bloom.fnv64a Bloom.mixed
posted_run = refl

abbrev with_link : P
with_link = record new { front = posted; answers = created answer ∷ [] }

abbrev pub ticked : P
ticked = record with_link { stores = process_batch stream codec clicks worker with_link.stores }

pub from_link : Events web wholes stream codec worker with_link ticked
from_link = later Process.start (flushed refl)

pub from_new : Events web wholes stream codec worker new ticked
from_new =
    later
      (later Process.start
        (served no_redis (codes "POST") v1_urls posting posted (created answer) posted_run refl))
      (flushed refl)

pub new-IsSound :
    IsSound web wholes stream codec worker table_laws cache_laws stream_laws clicks_laws [] new
unfolding events_in
new-IsSound = record {
  coherent = start-IsCoherent;
  valid = start-IsValid;
  faithful = record { added = []; table = refl; from_stream = Sublistᴰ.slnil };
}

abbrev row_or : Option Row → Row
row_or none = docs
row_or (some row) = row

abbrev book : Row
book = row_or (posted.server.world.db (codes "book"))

pub book_row : (posted.server.world.db (codes "book") ≡ some book) × (book.is_active ≡ true)
unfolding handle serve find_route find_in fit rate_limiter client_key answer_to allow allow_local
    bucket_of new_token_bucket refilled TokenBucket.allow find put ◌-ℤ◌ optional_auth lookup_user
    shorten call shorten_url pick_code custom_code shorten_as expiry now persist create retry
    publish bloom_add add_local on_redis cache_url cache_ttl alias_ok all_chars get_by_short_code
    create_url add_to_bloom set_url url_key Bloom.add Bloom.add_from Bloom.hash Bloom.set_bit
    Bloom.counted Bloom.fnv64a Bloom.mixed
book_row = (refl, refl)

pub book_shared :
    (true && absent site (exists_in_bloom cache ticked.front.server.world.kv (codes "book")))
    ≡ false
unfolding exists_in_bloom
book_shared = refl

created-Found_example :
    (body : ShortenRequest) × (f : F) × (r : Response ℕ) × (posting.body ≡ ok body)
    × (handle web wholes no_redis (codes "GET") (codes "book" ∷ []) request ticked.front
        ≡ some (f, r))
    × Found web wholes stream codec worker table_laws cache_laws book.expires_at body.long_url r
created-Found_example =
    created-Found web wholes stream codec worker table_laws cache_laws no_redis no_redis posting
      request new ticked posted answer book
      (active_only (ticked.front.server.world.db (codes "book"))) start-IsCoherent start-IsValid
      posted_run from_link (λ e. cc) (λ e. cc) (λ e. cc) book_row.0 book_row.1 book_shared refl

abbrev pub got_book :
    (body : ShortenRequest) × (f : F) × (r : Response ℕ) × (posting.body ≡ ok body)
    × (handle web wholes no_redis (codes "GET") (codes "book" ∷ []) request ticked.front
        ≡ some (f, r))
    × Found web wholes stream codec worker table_laws cache_laws book.expires_at body.long_url r
got_book =
    created-Found web wholes stream codec worker table_laws cache_laws no_redis no_redis posting
      request new ticked posted answer book
      (active_only (ticked.front.server.world.db (codes "book"))) start-IsCoherent start-IsValid
      posted_run from_link (λ e. cc) (λ e. cc) (λ e. cc) book_row.0 book_row.1 book_shared refl

-- the program after the redirect, and a tick of the worker
abbrev pub followed : P
followed = record ticked { front = got_book.1; answers = got_book.2 ∷ ticked.answers }

pub to_followed : Events web wholes stream codec worker new followed
to_followed = later from_new (
    served no_redis (codes "GET") (codes "book" ∷ []) request got_book.1 got_book.2 got_book.4 refl)
