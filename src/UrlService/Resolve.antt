-- ===== src/UrlService/Resolve.antt =====
-- `ResolveURL`, `DeleteURL`, `RecordClick` and `ListUserURLs`.
use nanolink.Prelude.{
  Bool, true, false, not, Option, none, some, List, [], Str, codes, str_eq, if◌then◌else◌,
}
use nanolink.Prelude.Int.{ℤ, ltb_ℤ}
use nanolink.Prelude.Result.{Result, ok, err}
use nanolink.Models.{Url}
use nanolink.Storage.Postgres.{
  get_by_short_code, delete_url, increment_click_count, list_urls_by_user,
}
use nanolink.Storage.Redis.{get_url, invalidate_url}
use nanolink.UrlService.World.{Env, World, M, now, on_redis, might_contain, ◌>>=◌, ◌>>◌, pure}
use nanolink.UrlService.Shorten.{cache_url}

abbrev pub not_found : Str
not_found = codes "url not found"

abbrev pub expired : Str
expired = codes "url expired"

module _ (env : Env) where
  open env use {pg, rd, clock, has_redis}

  -- `err == nil && longURL != ""`
  abbrev pub hit : Result Str → Option Str
  hit (err e) = none
  hit (ok v) = if str_eq v [] then none else some v

  -- the cache lookup of step 2
  unfoldable pub cached : Str → M env (Option Str)
  cached code w =
      if has_redis
      then (do t ← now env; λ v. some (v, hit (get_url rd v.kv t code))) w
      else some (w, none)

  -- `urlObj.ExpiresAt != nil && time.Now().UTC().After(*urlObj.ExpiresAt)`; the clock is read only
  -- where there is an expiry
  unfoldable pub is_expired : Option ℤ → M env Bool
  is_expired none = pure false
  is_expired (some expires) = do t ← now env; pure (ltb_ℤ expires t)

  unfoldable pub serve_live : Str → Url pg.Uuid → Bool → M env (Result Str)
  serve_live code url true = pure (err expired)
  serve_live code url false = do
    cache_url env code url.long_url url.expires_at
    pure (ok url.long_url)

  -- what follows the database query of step 3
  unfoldable pub serve_row : Str → Result (Option (Url pg.Uuid)) → M env (Result Str)
  serve_row code (err e) = pure (err e)
  serve_row code (ok none) = pure (err not_found)
  serve_row code (ok (some url)) =
      if not url.is_active
      then pure (err not_found)
      else do old ← is_expired url.expires_at; serve_live code url old

  unfoldable pub serve_uncached : Str → Option Str → M env (Result Str)
  serve_uncached code (some long_url) w = some (w, ok long_url)
  serve_uncached code none w = serve_row code (get_by_short_code pg w.db code) w

  unfoldable pub lookup : Str → M env (Result Str)
  lookup code = do found ← cached code; serve_uncached code found

  unfoldable pub resolve_url : Str → M env (Result Str)
  resolve_url code w = elim (might_contain env w code) [
    | none ↦ none
    | some false ↦ some (w, err not_found)
    | some true ↦ lookup code w
  ]

  unfoldable pub after_delete : Str → Result (Unit {0}) → M env (Result (Unit {0}))
  after_delete code (err e) = pure (err e)
  after_delete code (ok u) = do on_redis env (λ kv. invalidate_url rd kv code); pure (ok tt)

  unfoldable pub delete : Str → Option pg.Uuid → M env (Result (Unit {0}))
  delete code user w =
      let r = delete_url pg w.db code user in after_delete code r.1 (record w { db = r.0 })

  -- the work of the goroutine that `RecordClick` starts; its error is dropped
  unfoldable pub record_click : Str → M env (Unit {0})
  record_click code w = some (record w { db = (increment_click_count pg w.db code).0 }, tt)

  unfoldable pub list_user_urls : World env → pg.Uuid → ℤ → ℤ → Result (List (Url pg.Uuid))
  list_user_urls w user limit offset = list_urls_by_user pg w.db user limit offset
