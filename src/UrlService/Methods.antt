-- ===== src/UrlService/Methods.antt =====
-- The methods of internal/service/url_service.go against the commands of Interleaved.
use nanolink.Prelude.{ℕ, ◌≡◌, Option, some, List, Str}
use nanolink.Prelude.Result.{Result}
use nanolink.Models.{ShortenRequest, ShortenResponse}
use nanolink.UrlService.World.{Env, World}
use nanolink.UrlService.Shorten.{shorten_url}
use nanolink.UrlService.Resolve.{resolve_url, delete, record_click}
use nanolink.UrlService.Interleaved.{Reach, here}
use nanolink.UrlService.Simulation.{share}
use nanolink.UrlService.Simulation.Shortening.{shorten_url-Goes}
use nanolink.UrlService.Simulation.Resolving.{resolve_url-Goes, delete-Goes, record_click-Goes}

module _ (env : Env) where
  -- A call of a method that returns, or a goroutine of RecordClick.
  pub data Call (w : World env) : World env → Type 0 where
    shortened :
        {w' : World env} (req : ShortenRequest) (user : Option env.pg.Uuid)
        (r : Result ShortenResponse)
        → shorten_url env req user w ≡ some (w', r)
        → Call w w'
    resolved :
        {w' : World env} (code : Str) (r : Result Str)
        → resolve_url env code w ≡ some (w', r)
        → Call w w'
    deleted :
        {w' : World env} (code : Str) (user : Option env.pg.Uuid) (r : Result (Unit {0}))
        → delete env code user w ≡ some (w', r)
        → Call w w'
    clicked :
        {w' : World env} (code : Str) (u : Unit {0})
        → record_click env code w ≡ some (w', u)
        → Call w w'
    -- the clock is read
    waited : {w' : World env} (n : ℕ) → w' ≡ record w { ticks = n } → Call w w'

  -- A call of ShortenURL, ResolveURL or DeleteURL that returns, and a goroutine of RecordClick, changes
  -- the table and the cache by a run of the commands that requests interleave, and leaves those URLs
  -- on their way to the cache that there were before it.
  pub Call-Reach :
      (w w' : World env) (fills : List (Str × Str))
      → Call w w'
      → Reach env (share env w fills) (share env w' fills)
  Call-Reach w w' fills (shortened req user r e) = shorten_url-Goes env fills req user w w' r e
  Call-Reach w w' fills (resolved code r e) = resolve_url-Goes env fills code w w' r e
  Call-Reach w w' fills (deleted code user r e) = delete-Goes env fills code user w w' r e
  Call-Reach w w' fills (clicked code u e) = record_click-Goes env fills code w w' u e
  Call-Reach w w' fills (waited n e) = rw e here
