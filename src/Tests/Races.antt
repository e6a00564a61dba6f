-- ===== src/Tests/Races.antt =====
-- Commands of two requests in turn.
use nanolink.Prelude.{◌≡◌, refl, Option, none, some, [], ◌∷◌, Str, codes}
use nanolink.Prelude.Int.{pos, ◌+ℤ◌}
use nanolink.Prelude.Result.{Result, ok}
use nanolink.Storage.Postgres.{get_by_short_code, delete_url, url_of}
use nanolink.Storage.Redis.{get_url, set_url, url_key, invalidate_url}
use nanolink.UrlService.World.{World, on_redis}
use nanolink.UrlService.Resolve.{delete, after_delete}
use nanolink.UrlService.Cache.{Backed}
use nanolink.UrlService.Interleaved.{Shared, found, filled, deleted, Reach, here, next}
use nanolink.UrlService.Agreement.{Agrees, get_url-Backed}
use nanolink.UrlService.Simulation.{share}
use nanolink.UrlService.Methods.{Call, Call-Reach}
use nanolink.Tests.Servers.{table, cache, table_laws, cache_laws, site, linked, docs}

abbrev first : Shared site
first = share site linked []

abbrev long : Str
long = codes "https://example.org/a"

-- one request has found the link, which another then deletes
abbrev found_then_deleted : Shared site
found_then_deleted = record {
  db = (delete_url table linked.db (codes "docs") (some 7)).0;
  kv = linked.kv;
  fills = (codes "docs", long) ∷ [];
}

abbrev stale : Shared site
stale = record {
  db = found_then_deleted.db;
  kv = (set_url cache linked.kv (pos 1) (codes "docs") long (pos 10)).0;
  fills = [];
}

first-Agrees : Agrees site table_laws cache_laws first
first-Agrees = record { cached = λ code v x e. absurd (cc); waiting = tt }

first-Reach : Reach site first stale
unfolding get_by_short_code
first-Reach =
    next
      (next (next here (found (codes "docs") (url_of table docs) refl))
        (deleted (codes "docs") (some 7)))
      (filled [] [] (codes "docs") long (pos 1) (pos 10) refl)

-- the deleted link is in the cache
stale_hit : get_url cache stale.kv (pos 2) (codes "docs") ≡ ok long
unfolding get_url set_url url_key ◌+ℤ◌
stale_hit = refl

get_url-Backed_example : Backed site table_laws cache_laws stale.db (codes "docs") long
get_url-Backed_example =
    get_url-Backed site table_laws cache_laws first stale (codes "docs") long (pos 2) first-Agrees
      first-Reach stale_hit

abbrev world_or : Option (World site × Result (Unit {0})) → World site
world_or none = linked
world_or (some (w, r)) = w

abbrev after : World site
after = world_or (delete site (codes "docs") (some 7) linked)

after_run : delete site (codes "docs") (some 7) linked ≡ some (after, ok tt)
unfolding delete delete_url after_delete on_redis invalidate_url
after_run = refl

Call-Reach_example : Reach site (share site linked []) (share site after [])
Call-Reach_example =
    Call-Reach site linked after [] (Call.deleted (codes "docs") (some 7) (ok tt) after_run)
