-- ===== src/Tests/Links.antt =====
-- Links that are made, resolved and deleted.
use nanolink.Prelude.{
  arith, [], ◌&&◌, ◌≤◌, ◌≡◌, refl, true, false, Option, none, some, Str, codes, length,
}
use nanolink.Prelude.Int.{pos, ◌+ℤ◌}
use nanolink.Prelude.Result.{Result, ok}
use nanolink.Models.{ShortenRequest, ShortenResponse}
use nanolink.Bloom
use nanolink.Bloom.Words.{IsValid}
use nanolink.UrlService.World.{World, now, bloom_add, add_local, on_redis, absent, might_contain}
use nanolink.UrlService.Alias.{alias_ok, all_chars}
use nanolink.Storage.Postgres.{active_only, get_by_short_code, create_url, delete_url}
use nanolink.Storage.Redis.{
  add_to_bloom, set_url, get_url, url_key, exists_in_bloom, invalidate_url,
}
use nanolink.UrlService.Shorten.{
  shorten_url, pick_code, custom_code, shorten_as, expiry, persist, create, retry, publish,
  cache_url, cache_ttl,
}
use nanolink.UrlService.Resolve.{cached, serve_uncached, lookup, resolve_url, after_delete, delete}
use nanolink.UrlService.Persist.{Live}
use nanolink.UrlService.Cache.{Backed, IsCoherent}
use nanolink.UrlService.Created.{shorten_url-IsCoherent, shorten_url-Live}
use nanolink.UrlService.Lookup.{resolve_url-total, resolve_url-Backed}
use nanolink.UrlService.Complete.{Serves, resolve_url-Serves}
use nanolink.UrlService.Total.{Moves, shorten_url-total}
use nanolink.UrlService.Delete.{delete-IsCoherent}
use nanolink.Tests.Servers.{
  cache, table, table_laws, cache_laws, site, start, start-IsCoherent, start-IsValid,
}

abbrev request : ShortenRequest
request = record {
  long_url = codes "https://example.org/a/long/path";
  custom_alias = codes "docs";
  ttl_seconds = none;
}

abbrev world_or : {R : Type 0} → Option (World site × R) → World site
world_or none = start
world_or (some (w, r)) = w

-- the state after the link has been made
abbrev made : World site
made = world_or (shorten_url site request none start)

abbrev answer : ShortenResponse
answer = record {
  short_code = codes "docs";
  short_url = codes "https://nano.link/docs";
  long_url = codes "https://example.org/a/long/path";
  created_at = pos 1704067200000000000;
  expires_at = none;
}

made_run : shorten_url site request none start ≡ some (made, ok answer)
unfolding shorten_url pick_code custom_code shorten_as expiry now persist create retry publish
    bloom_add add_local on_redis cache_url cache_ttl alias_ok all_chars get_by_short_code create_url
    add_to_bloom set_url url_key Bloom.add Bloom.add_from Bloom.hash Bloom.set_bit Bloom.counted
    Bloom.fnv64a Bloom.mixed
made_run = refl

shorten_url-Live_example :
    (answer.long_url ≡ request.long_url)
    × (length answer.short_code ≤ 10)
    × Live table table_laws made.db (codes "docs") request.long_url
    × (Bloom.contains made.filter (codes "docs") ≡ some true)
shorten_url-Live_example =
    shorten_url-Live site table_laws cache_laws request none start made answer start-IsCoherent
      start-IsValid made_run

made-IsCoherent : IsCoherent site table_laws cache_laws made × IsValid made.filter
made-IsCoherent =
    shorten_url-IsCoherent site table_laws cache_laws request none start made (ok answer)
      start-IsCoherent start-IsValid made_run

resolve_url-total_example :
    (w : World site) × (r : Result Str) × (resolve_url site (codes "docs") made ≡ some (w, r))
    × (w.db ≡ made.db)
    × (w.filter ≡ made.filter)
    × IsCoherent site table_laws cache_laws w
resolve_url-total_example =
    resolve_url-total site table_laws cache_laws (codes "docs") made made-IsCoherent.0
      made-IsCoherent.1

abbrev resolved : World site
resolved = world_or (resolve_url site (codes "docs") made)

resolved_run :
    resolve_url site (codes "docs") made
    ≡ some (resolved, ok (codes "https://example.org/a/long/path"))
unfolding shorten_url pick_code custom_code shorten_as expiry now persist create retry publish
    bloom_add add_local on_redis cache_url cache_ttl alias_ok all_chars get_by_short_code create_url
    add_to_bloom set_url url_key Bloom.add Bloom.add_from Bloom.hash Bloom.set_bit Bloom.counted
    Bloom.fnv64a Bloom.mixed resolve_url might_contain Bloom.contains Bloom.contains_from
    exists_in_bloom lookup cached get_url serve_uncached ◌+ℤ◌
resolved_run = refl

resolve_url-Backed_example :
    Backed site table_laws cache_laws made.db
      (codes "docs")
      (codes "https://example.org/a/long/path")
resolve_url-Backed_example =
    resolve_url-Backed site table_laws cache_laws (codes "docs") made resolved
      (codes "https://example.org/a/long/path") made-IsCoherent.0 made-IsCoherent.1 resolved_run

-- the table and the cache after the link has been made, behind a service that has just started
abbrev restarted : World site
restarted = record made { filter = start.filter }

restarted_filter : Bloom.contains restarted.filter (codes "docs") ≡ some false
unfolding Bloom.contains Bloom.contains_from Bloom.hash Bloom.mixed Bloom.fnv64a
restarted_filter = refl

abbrev emptied : World site
emptied = world_or (delete site (codes "docs") none made)

emptied_run : delete site (codes "docs") none made ≡ some (emptied, ok tt)
unfolding shorten_url pick_code custom_code shorten_as expiry now persist create retry publish
    bloom_add add_local on_redis cache_url cache_ttl alias_ok all_chars get_by_short_code create_url
    add_to_bloom set_url url_key Bloom.add Bloom.add_from Bloom.hash Bloom.set_bit Bloom.counted
    Bloom.fnv64a Bloom.mixed delete after_delete delete_url invalidate_url
emptied_run = refl

emptied-IsCoherent : IsCoherent site table_laws cache_laws emptied
emptied-IsCoherent =
    delete-IsCoherent site table_laws cache_laws (codes "docs") none made emptied tt
      made-IsCoherent.0 emptied_run

made_row : Live table table_laws made.db (codes "docs") request.long_url
made_row =
    (shorten_url-Live site table_laws cache_laws request none start made answer start-IsCoherent
      start-IsValid made_run).2

made_known : might_contain site made (codes "docs") ≡ some true
unfolding shorten_url pick_code custom_code shorten_as expiry now persist create retry publish
    bloom_add add_local on_redis cache_url cache_ttl alias_ok all_chars get_by_short_code create_url
    add_to_bloom set_url url_key Bloom.add Bloom.add_from Bloom.hash Bloom.set_bit Bloom.counted
    Bloom.fnv64a Bloom.mixed resolve_url might_contain Bloom.contains Bloom.contains_from
    exists_in_bloom lookup cached get_url serve_uncached ◌+ℤ◌
made_known = refl

resolve_url-Serves_example :
    Serves site table_laws cache_laws made_row.row.expires_at request.long_url
      (resolve_url site (codes "docs") made)
resolve_url-Serves_example =
    resolve_url-Serves site table_laws cache_laws (codes "docs") request.long_url made
      (active_only (made.db (codes "docs"))) made-IsCoherent.0 made_row made_known refl

made_shared : (true && absent site (exists_in_bloom cache made.kv (codes "docs"))) ≡ false
unfolding exists_in_bloom
made_shared = refl

start-Total : Moves site start 0
start-Total = record { enough = omega arith; later = omega arith }

shorten_url-total_example :
    (w : World site) × (r : Result ShortenResponse) × (shorten_url site
        (record request { custom_alias = [] })
        none
        start
      ≡ some (w, r))
shorten_url-total_example =
    shorten_url-total site table_laws cache_laws (record request { custom_alias = [] }) none start 0
      start-IsCoherent start-IsValid start-Total
