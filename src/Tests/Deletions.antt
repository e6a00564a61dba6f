-- ===== src/Tests/Deletions.antt =====
-- A link is deleted by its owner, and the program is started again.
use nanolink.Prelude.{ℕ, ◌≡◌, refl, Option, none, some, List, [], ◌∷◌, Str, codes}
use nanolink.Storage.Postgres.{IsDeleted, delete_url}
use nanolink.Storage.Redis.{invalidate_url}
use nanolink.UrlService.World.{on_redis}
use nanolink.UrlService.Resolve.{delete, after_delete}
use nanolink.Api.Auth.{require_auth, lookup_user}
use nanolink.Api.Messages.{Response, failed, deactivated}
use nanolink.Api.Handlers.{delete_link, call}
use nanolink.Api.Router.{find_route, find_in, fit, serve, handle}
use nanolink.Api.Router.Deletion.{link_path}
use nanolink.Process
use nanolink.Process.Restart.{Lives, first, again, relaunched}
use nanolink.Process.Restart.Deleted.{deleted-NeverServed}
use nanolink.Startup.{services}
use nanolink.Tests.Numbers.{wholes}
use nanolink.Tests.Servers.{table_laws, cache_laws}
use nanolink.Tests.Streams.{stream}
use nanolink.Tests.Clicks.{codec, worker}
use nanolink.Tests.Web.{web, known, no_redis, front, request, linked-IsCoherent, linked-IsValid}
use nanolink.Tests.Life.{P, F, new}
use nanolink.Tests.Restarts.{cfg, open_any, ping_any, size_lo, size_hi, node_one, node_lem}

abbrev before : P
before = record new { front = front }

abbrev front_or : Option (F × Response ℕ) → F
front_or none = front
front_or (some (f, r)) = f

abbrev docs_path : List Str
docs_path = link_path (codes "docs")

abbrev after : F
after = front_or (handle web wholes no_redis (codes "DELETE") docs_path request front)

deleted_run :
    handle web wholes no_redis (codes "DELETE") docs_path request front
    ≡ some (after, deactivated (codes "docs"))
unfolding handle find_route find_in fit serve require_auth lookup_user delete_link call delete
    delete_url after_delete on_redis invalidate_url
deleted_run = refl

marked : IsDeleted (after.server.world.db (codes "docs"))
unfolding handle find_route find_in fit serve require_auth lookup_user delete_link call delete
    delete_url after_delete on_redis invalidate_url
marked = (_, refl, refl)

abbrev then_on : P
then_on = record before { front = after; answers = deactivated (codes "docs") ∷ [] }

abbrev restarted : P
restarted =
    relaunched web wholes stream codec worker (services wholes open_any open_any ping_any cfg)
      node_one then_on

lives : Lives web wholes stream codec worker open_any open_any ping_any cfg then_on restarted
lives = again node_one (first Process.start) node_lem Process.start

deleted-NeverServed_example :
    (f : F) × (handle web wholes no_redis (codes "GET") (codes "docs" ∷ []) request restarted.front
      ≡ some (f, failed 404 (codes "short code not found or expired")))
deleted-NeverServed_example =
    deleted-NeverServed web wholes stream codec worker table_laws cache_laws open_any open_any
      ping_any cfg no_redis no_redis known (codes "docs") request request before restarted after tt
      size_lo size_hi linked-IsCoherent linked-IsValid (λ e. cc) (λ e. cc) (λ e. cc) refl refl
      deleted_run marked refl lives
