-- ===== src/UrlService/Shorten.antt =====
-- `ShortenURL`.
use nanolink.Prelude.{
  Bool, true, false, ◌&&◌, Option, none, some, [], ◌++◌, Str, codes, str_eq, take, if◌then◌else◌,
}
use nanolink.Prelude.Int.{ℤ, pos, ltb_ℤ, ◌+ℤ◌, ◌-ℤ◌, scale, wrap64}
use nanolink.Prelude.Result.{Result, ok, err}
use nanolink.Base62.{encode}
use nanolink.Snowflake.{generate}
use nanolink.Models.{Url, ShortenRequest, ShortenResponse}
use nanolink.Storage.Postgres.{create_url, get_by_short_code}
use nanolink.Storage.Redis.{set_url}
use nanolink.UrlService.World.{Env, unix_milli, M, now, on_redis, bloom_add, ◌>>=◌, ◌>>◌, pure}
use nanolink.UrlService.Alias.{alias_ok, pad_code}

abbrev pub invalid_alias : Str
invalid_alias = codes "custom alias must be 3-30 alphanumeric characters, hyphens or underscores"

abbrev pub alias_taken : Str
alias_taken = codes "custom alias already taken"

-- 24 * time.Hour
abbrev pub day : ℤ
day = pos 86400000000000

-- `expiresAt`: the product of the seconds and time.Second is an int64
unfoldable pub ttl_duration : ℤ → ℤ
ttl_duration seconds = wrap64 (scale 1000000000 seconds)

module _ (env : Env) where
  open env use {pg, rd, clock, fuel, md5_hex, show_time, base_url}

  -- the answer to the uniqueness check
  abbrev pub free_or_taken : Str → Result (Option (Url pg.Uuid)) → Result (Str × Bool)
  free_or_taken alias (err e) = err e
  free_or_taken alias (ok (some url)) = err alias_taken
  free_or_taken alias (ok none) = ok (alias, true)

  unfoldable pub custom_code : Str → M env (Result (Str × Bool))
  custom_code alias w =
      if alias_ok alias
      then some (w, free_or_taken alias (get_by_short_code pg w.db alias))
      else some (w, err invalid_alias)

  unfoldable pub generated_code : M env (Result (Str × Bool))
  generated_code w = elim (generate fuel (λ i. unix_milli (clock i)) w.ticks w.node) [
    | none ↦ none
    | some (id, n, at) ↦ some (record w { node = n; ticks = at }, ok (pad_code (encode id), false))
  ]

  -- the code, and whether it is custom
  unfoldable pub pick_code : ShortenRequest → M env (Result (Str × Bool))
  unfolding custom_code generated_code
  pick_code req =
      if str_eq req.custom_alias [] then generated_code else custom_code req.custom_alias

  unfoldable pub expiry : Option ℤ → M env (Option ℤ)
  expiry none = pure none
  expiry (some seconds) =
      if ltb_ℤ (pos 0) seconds
      then (do t ← now env; pure (some (t +ℤ ttl_duration seconds)))
      else pure none

  -- one call of `CreateURL`
  unfoldable pub create : Url pg.Uuid → M env (Result (Url pg.Uuid))
  create url w = let r = create_url pg w.db url in some (record w { db = r.0 }, r.1)

  -- the code of the fallback, the first seven hexadecimal digits of an MD5 sum
  unfoldable pub fallback_code : Str → ℤ → Str
  fallback_code long_url t = take 7 (md5_hex (long_url ++ show_time t))

  abbrev pub second_answer : Str → Result (Url pg.Uuid) → Result Str
  second_answer code (ok url) = ok code
  second_answer code (err e) = err (codes "failed to persist short url: " ++ e)

  -- what follows the first `CreateURL`
  unfoldable pub retry : Url pg.Uuid → Result (Url pg.Uuid) → M env (Result Str)
  retry url (ok saved) = pure (ok url.short_code)
  retry url (err e) =
      if url.custom_alias then pure (err (codes "failed to create custom alias: " ++ e)) else do
        t ← now env
        let code = fallback_code url.long_url t
        again ← create (record url { short_code = code })
        pure (second_answer code again)

  -- the code under which the link is stored, or the error
  unfoldable pub persist : Url pg.Uuid → M env (Result Str)
  persist url = do first ← create url; retry url first

  -- the time to live of a cache entry
  unfoldable pub cache_ttl : Option ℤ → M env ℤ
  cache_ttl none = pure day
  cache_ttl (some expires) = do
    t ← now env
    let dur = expires -ℤ t
    pure (if ltb_ℤ (pos 0) dur && ltb_ℤ dur day then dur else day)

  -- `s.redisClient.SetURL(ctx, shortCode, longURL, ttl)` and the lines before it; the last reading is
  -- the time at which the server runs the command
  unfoldable pub cache_url : Str → Str → Option ℤ → M env (Unit {0})
  cache_url code long_url expires =
      if env.has_redis
      then (do
        ttl ← cache_ttl expires
        t ← now env
        on_redis env (λ kv. set_url rd kv t code long_url ttl))
      else pure tt

  abbrev pub response : Str → Str → ℤ → Option ℤ → ShortenResponse
  response code long_url created expires = record {
    short_code = code;
    short_url = base_url ++ codes "/" ++ code;
    long_url = long_url;
    created_at = created;
    expires_at = expires;
  }

  unfoldable pub publish : Str → ℤ → Option ℤ → Result Str → M env (Result ShortenResponse)
  publish long_url created expires (err e) = pure (err e)
  publish long_url created expires (ok code) = do
    bloom_add env code
    cache_url code long_url expires
    pure (ok (response code long_url created expires))

  unfoldable pub shorten_as :
      ShortenRequest → Option pg.Uuid → Result (Str × Bool) → M env (Result ShortenResponse)
  shorten_as req user (err e) = pure (err e)
  shorten_as req user (ok (code, custom)) = do
    expires ← expiry req.ttl_seconds
    created ← now env
    saved ← persist (record {
      id = 0;
      short_code = code;
      long_url = req.long_url;
      custom_alias = custom;
      user_id = user;
      created_at = created;
      expires_at = expires;
      click_count = pos 0;
      is_active = true;
    })
    publish req.long_url created expires saved

  unfoldable pub shorten_url : ShortenRequest → Option pg.Uuid → M env (Result ShortenResponse)
  shorten_url req user = do picked ← pick_code req; shorten_as req user picked
