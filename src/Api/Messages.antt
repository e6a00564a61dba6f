-- ===== src/Api/Messages.antt =====
-- What the handlers of internal/api read of a request and make of a response. Gin is not modelled: a
-- request is the values that the handlers ask Gin for, and a response its status and content.
use nanolink.Prelude.{ℕ, Option, List, Str}
use nanolink.Prelude.Int.{ℤ}
use nanolink.Prelude.Result.{Result}
use nanolink.Models.{Url, ShortenRequest, ShortenResponse, ClickEvent, UrlStatsResponse}

-- The headers, the parameters `code`, `limit` and `offset`, and the body as ShouldBindJSON reads it; a
-- header or parameter that is missing is empty. `made` and `now` are the times at which the rate
-- limiter may make and ask its bucket.
pub record Request : Type 0 where
  pub api_key : Str
  pub client_ip : Str
  pub user_agent : Str
  pub referer : Str
  pub code : Str
  pub limit : Str
  pub offset : Str
  pub body : Result ShortenRequest
  pub made : ℤ
  pub now : ℤ

-- `U` is the type of user identifiers.
pub data Response (U : Type 0) : Type 0 where
  -- c.JSON(status, gin.H{"error": …})
  failed : ℕ → Str → Response U
  created : ShortenResponse → Response U
  redirect : Str → Response U
  deactivated : Str → Response U
  listed : List (Url U) → ℤ → ℤ → Response U
  image : Str → Response U
  stats : UrlStatsResponse → Response U
  healthy : Str → Str → Response U
  -- a file or a page of another handler, with its status
  page : ℕ → Str → Response U
  -- Gin's redirect of a path that ends in a slash, to the path without it
  without_slash : ℕ → Response U
  -- Gin's answer where no route fits
  unrouted : Response U

abbrev pub status : {U : Type 0} → Response U → ℕ
status (failed n e) = n
status (created resp) = 201
status (redirect url) = 302
status (deactivated code) = 200
status (listed urls limit offset) = 200
status (image png) = 200
status (stats r) = 200
status (healthy uptime time) = 200
status (page n text) = n
status (without_slash n) = n
status unrouted = 404

-- What the middleware puts into the context of a request.
pub record Context (U : Type 0) : Type 0 where
  pub auth_user_id : Option U
  pub auth_user_tier : Option Str

-- A goroutine that a handler starts: an UPDATE of the click counter, or a click for the stream.
pub data Task : Type 0 where
  count_click : Str → Task
  publish_click : ClickEvent → Task
