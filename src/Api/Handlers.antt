-- ===== src/Api/Handlers.antt =====
-- internal/api/handlers, and the methods RecordClick and GetStats of
-- internal/service/analytics_service.go that they call.
use nanolink.Prelude.{
  ℕ, ◌≡◌, ◌&&◌, Option, none, some, List, [], ◌∷◌, ◌++◌, Str, codes, str_eq, if◌then◌else◌,
}
use nanolink.Prelude.Int.{ℤ, pos, ltb_ℤ, leb_ℤ, ◌-ℤ◌}
use nanolink.Prelude.Decimal.{atoi}
use nanolink.Prelude.Result.{Result, ok, err}
use nanolink.Models.{Url, ShortenRequest, ShortenResponse, UrlStatsResponse}
use nanolink.Storage.ClickHouse.{ClickHouse, get_stats_by_short_code}
use nanolink.Analytics.{click_event}
use nanolink.UrlService.World.{Env, World, M, now, ◌>>=◌, ◌>>◌, pure}
use nanolink.UrlService.Shorten.{shorten_url}
use nanolink.UrlService.Resolve.{resolve_url, delete, list_user_urls}
use nanolink.Api.Messages.{
  Request, Response, failed, created, redirect, deactivated, listed, image, stats, healthy, Context,
  Task, count_click, publish_click,
}

-- The services behind the handlers and what they call outside: the table of users, SHA-256 in
-- hexadecimal, the QR encoder, the ClickHouse client, which may be nil or have a nil `db`, the text of
-- a duration, and the time at which the server started.
pub record Site : Type 1 where
  pub env : Env
  pub users : Option (Str → Result (env.pg.Uuid × Str))
  pub sha256_hex : Str → Str
  pub qr_encode : Str → Result Str
  pub ch : ClickHouse
  pub click_house : Option (Option ch.Db)
  pub show_duration : ℤ → Str
  -- a time in the format RFC 3339
  pub show_rfc3339 : ℤ → Str
  pub start_time : ℤ
  -- the answer of the Prometheus handler, and that of StaticFile to a request
  pub metrics_page : ℕ × Str
  pub index_page : Request → ℕ × Str

module _ (site : Site) where
  open site use {
    env, sha256_hex, qr_encode, ch, click_house, show_duration, show_rfc3339, start_time,
  }

  abbrev pub User : Type 0
  User = env.pg.Uuid

  -- the state of the URL service, and the goroutines started, oldest first
  pub record Server : Type 0 where
    pub world : World env
    pub launched : List Task

  abbrev pub H : Type 0 → Type 0
  H A = Server → Option (Server × A)

  -- a call of the URL service
  unfoldable pub call : {A : Type 0} → M env A → H A
  call m s = elim (m s.world) [ none ↦ none | some (w, a) ↦ some (record s { world = w }, a) ]

  -- `go func() { … }()`
  unfoldable pub go : Task → H (Unit {0})
  go task s = some (record s { launched = s.launched ++ task ∷ [] }, tt)

  -- URLService.RecordClick
  unfoldable pub count : Str → H (Unit {0})
  unfolding go
  count code = go (count_click code)

  -- AnalyticsService.RecordClick
  unfoldable pub record_telemetry : Str → Str → Str → Str → H (Unit {0})
  unfolding go
  record_telemetry code ip user_agent referrer = do
    t ← call (now env)
    let event = click_event sha256_hex t code ip user_agent referrer
    if env.has_redis then go (publish_click event) else pure tt

  -- AnalyticsService.GetStats
  unfoldable pub get_stats : Str → Result UrlStatsResponse
  get_stats short_code = elim click_house [
    | none ↦ ok (record {
      short_code = short_code;
      long_url = [];
      total_clicks = pos 0;
      created_at = none;
      clicks_by_country = none;
      clicks_by_device = none;
      clicks_by_referrer = none;
      hourly_clicks = none;
    })
    | some db ↦ get_stats_by_short_code ch db short_code
  ]

  abbrev pub created_or_error : Result ShortenResponse → Response User
  created_or_error (err e) = failed 400 e
  created_or_error (ok resp) = created resp

  abbrev pub shorten_bound : Context User → Result ShortenRequest → H (Response User)
  shorten_bound c (err e) = pure (failed 400 e)
  shorten_bound c (ok req) = do
    r ← call (shorten_url env req c.auth_user_id)
    pure (created_or_error r)

  -- URLHandler.ShortenURL
  unfoldable pub shorten : Request → Context User → H (Response User)
  unfolding call
  shorten req c = shorten_bound c req.body

  -- what follows the call of ResolveURL
  unfoldable pub redirect_to : Request → Result Str → H (Response User)
  unfolding count record_telemetry
  redirect_to req (err e) = pure (failed 404 (codes "short code not found or expired"))
  redirect_to req (ok long_url) = do
    count req.code
    record_telemetry req.code req.client_ip req.user_agent req.referer
    pure (redirect long_url)

  -- URLHandler.Redirect
  unfoldable pub follow : Request → H (Response User)
  unfolding redirect_to
  follow req =
      if str_eq req.code []
      then pure (failed 400 (codes "invalid short code"))
      else do r ← call (resolve_url env req.code); redirect_to req r

  abbrev pub deleted_or_error : Str → Result (Unit {0}) → Response User
  deleted_or_error code (err e) = failed 500 e
  deleted_or_error code (ok u) = deactivated code

  -- URLHandler.DeleteURL
  unfoldable pub delete_link : Request → Context User → H (Response User)
  unfolding call
  delete_link req c =
      if str_eq req.code []
      then pure (failed 400 (codes "invalid short code"))
      else do r ← call (delete env req.code c.auth_user_id); pure (deleted_or_error req.code r)

  -- `if val, err := strconv.Atoi(l); err == nil && val > 0 && val <= 100 { limit = val }`
  abbrev pub limit_of : Option ℤ → ℤ
  limit_of none = pos 20
  limit_of (some val) = if ltb_ℤ (pos 0) val && leb_ℤ val (pos 100) then val else pos 20

  abbrev pub offset_of : Option ℤ → ℤ
  offset_of none = pos 0
  offset_of (some val) = if leb_ℤ (pos 0) val then val else pos 0

  unfoldable pub page_limit : Str → ℤ
  page_limit l = if str_eq l [] then pos 20 else limit_of (atoi l)

  unfoldable pub page_offset : Str → ℤ
  page_offset o = if str_eq o [] then pos 0 else offset_of (atoi o)

  abbrev pub listed_or_error : ℤ → ℤ → Result (List (Url User)) → Response User
  listed_or_error limit offset (err e) = failed 500 e
  listed_or_error limit offset (ok urls) = listed urls limit offset

  abbrev pub list_for : Request → Option User → H (Response User)
  list_for req none s = some (s, failed 401 (codes "unauthorized"))
  list_for req (some user) s =
      let limit = page_limit req.limit in
      let offset = page_offset req.offset in
      some (s, listed_or_error limit offset (list_user_urls env s.world user limit offset))

  -- URLHandler.ListURLs
  unfoldable pub list_urls : Request → Context User → H (Response User)
  unfolding page_limit page_offset
  list_urls req c = list_for req c.auth_user_id

  abbrev pub encoded : Result Str → Response User
  encoded (err e) = failed 500 (codes "failed to generate qr code")
  encoded (ok png) = image png

  abbrev pub qr_of : Result Str → Response User
  qr_of (err e) = failed 404 (codes "short code not found")
  qr_of (ok long_url) = encoded (qr_encode long_url)

  -- URLHandler.GenerateQRCode
  unfoldable pub generate_qr_code : Request → H (Response User)
  unfolding call
  generate_qr_code req = do r ← call (resolve_url env req.code); pure (qr_of r)

  abbrev pub stats_or_error : Result UrlStatsResponse → Response User
  stats_or_error (err e) = failed 500 e
  stats_or_error (ok r) = stats r

  -- AnalyticsHandler.GetStats
  unfoldable pub show_stats : Request → H (Response User)
  unfolding get_stats
  show_stats req =
      if str_eq req.code []
      then pure (failed 400 (codes "invalid short code"))
      else pure (stats_or_error (get_stats req.code))

  -- HealthHandler.HealthCheck, whose other fields are constants
  unfoldable pub health_check : H (Response User)
  unfolding call
  health_check = do
    t ← call (now env)
    t' ← call (now env)
    pure (healthy (show_duration (t -ℤ start_time)) (show_rfc3339 t'))

  pub call_lem :
      {A : Type 0} (m : M env A) (s : Server) (w : World env) (a : A)
      → m s.world ≡ some (w, a)
      → call m s ≡ some (record s { world = w }, a)
  unfolding call
  call_lem m s w a e = rw (e, call)
