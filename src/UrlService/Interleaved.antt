-- ===== src/UrlService/Interleaved.antt =====
-- Any number of requests at the same time: the commands that the methods of
-- internal/service/url_service.go send to the table and to the cache, in any order. Between the command
-- that gives a request its URL and its SetURL, other requests run; the URL waits in `fills`.
use nanolink.Prelude.{◌≡◌, true, Option, some, List, ◌∷◌, ◌++◌, Str}
use nanolink.Prelude.Int.{ℤ}
use nanolink.Prelude.Result.{ok, err}
use nanolink.Models.{Url}
use nanolink.Storage.Postgres.{create_url, get_by_short_code, delete_url, increment_click_count}
use nanolink.Storage.Redis.{set_url, invalidate_url, add_to_bloom}
use nanolink.UrlService.World.{Env}

module _ (env : Env) where
  open env use {pg, rd}

  -- The table, the cache, and the codes and URLs that requests are about to put into the cache.
  pub record Shared : Type 0 where
    pub db : pg.Db
    pub kv : rd.Kv
    pub fills : List (Str × Str)

  -- One command of some request.
  pub data Step (s : Shared) : Shared → Type 0 where
    -- CreateURL, of a link that is not deleted, with success
    inserted :
        (url saved : Url pg.Uuid)
        → (create_url pg s.db url).1 ≡ ok saved
        → url.is_active ≡ true
        → Step s (record s {
          db = (create_url pg s.db url).0;
          fills = (url.short_code, url.long_url) ∷ s.fills;
        })
    -- CreateURL with an error, after which another code is tried or the request ends
    insert_failed :
        (url : Url pg.Uuid) (e : Str)
        → (create_url pg s.db url).1 ≡ err e
        → url.is_active ≡ true
        → Step s (record s { db = (create_url pg s.db url).0 })
    -- GetByShortCode of ResolveURL, that finds a link
    found :
        (code : Str) (url : Url pg.Uuid)
        → get_by_short_code pg s.db code ≡ ok (some url)
        → Step s (record s { fills = (code, url.long_url) ∷ s.fills })
    -- SetURL, at any later time; the result is dropped
    filled :
        (before after : List (Str × Str)) (code long_url : Str) (now ttl : ℤ)
        → s.fills ≡ before ++ (code, long_url) ∷ after
        → Step s
            (record s { kv = (set_url rd s.kv now code long_url ttl).0; fills = before ++ after })
    -- a request that ends with no SetURL, as for an expired link
    ended :
        (before after : List (Str × Str)) (code long_url : Str)
        → s.fills ≡ before ++ (code, long_url) ∷ after
        → Step s (record s { fills = before ++ after })
    -- DeleteURL's UPDATE, and its InvalidateURL
    deleted :
        (code : Str) (user : Option pg.Uuid)
        → Step s (record s { db = (delete_url pg s.db code user).0 })
    invalidated : (code : Str) → Step s (record s { kv = (invalidate_url rd s.kv code).0 })
    -- the goroutine of RecordClick
    counted : (code : Str) → Step s (record s { db = (increment_click_count pg s.db code).0 })
    -- BloomService.Add
    added : (code : Str) → Step s (record s { kv = (add_to_bloom rd s.kv code).0 })

  pub data Reach (s : Shared) : Shared → Type 0 where
    here : Reach s s
    next : {t u : Shared} → Reach s t → Step t u → Reach s u
