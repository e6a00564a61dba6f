-- ===== src/Process.antt =====
-- The running program of cmd/server/main.go: the requests that it answers, the goroutines that they
-- start, and the worker, one after the other in any order. A request that panics is no event. The rows
-- that a request for statistics reads are not those of the worker's table.
pub mod Sound
pub mod Permanent
pub mod Clicks
pub mod Sent
pub mod Restart
use nanolink.Prelude.{◌≡◌, Option, some, List, [], ◌∷◌, ◌++◌, Str}
use nanolink.Prelude.Float.{Floats}
use nanolink.Models.{ClickEvent}
use nanolink.Storage.Stream.{Streams, Json, publish_click_event}
use nanolink.UrlService.World.{World}
use nanolink.UrlService.Resolve.{record_click}
use nanolink.RateLimit.Service.{Eval}
use nanolink.Worker.{AnalyticsWorker, Stores, process_batch}
use nanolink.Api.Messages.{Request, Response, Task, count_click, publish_click}
use nanolink.Api.Handlers.{Site, User, Server}
use nanolink.Api.Router.{Front, handle}

module _ (site : Site) (fl : Floats) (st : Streams) (js : Json) (worker : AnalyticsWorker) where
  open site use {env, ch}

  -- The services, the stream and ClickHouse, and the answers given, newest first. The goroutines that
  -- have not run are those of `front.server.launched`.
  pub record Process : Type 0 where
    pub front : Front site fl
    pub stores : Stores st js ch
    pub answers : List (Response (User site))

  abbrev pub with_server : Process → Server site → Process
  with_server p s = record p { front = record p.front { server = s } }

  -- The script's answers can differ from one request to the next: each has its own `eval`.
  pub data Event (p q : Process) : Type 0 where
    served :
        (eval : Option (Eval fl)) (method : Str) (path : List Str) (req : Request)
        (f : Front site fl) (r : Response (User site))
        → handle site fl eval method path req p.front ≡ some (f, r)
        → q ≡ record p { front = f; answers = r ∷ p.answers }
        → Event p q
    -- a goroutine of URLService.RecordClick
    counted :
        (before after : List Task) (code : Str) (w : World env) (u : Unit {0})
        → p.front.server.launched ≡ before ++ count_click code ∷ after
        → record_click env code p.front.server.world ≡ some (w, u)
        → q ≡ with_server p (record { world = w; launched = before ++ after })
        → Event p q
    -- a goroutine of AnalyticsService.RecordClick
    published :
        (before after : List Task) (event : ClickEvent)
        → p.front.server.launched ≡ before ++ publish_click event ∷ after
        → q ≡ record (with_server p (record p.front.server { launched = before ++ after })) {
          stores = record p.stores { log = (publish_click_event st js p.stores.log event).0 };
        }
        → Event p q
    -- a tick of the worker
    flushed : q ≡ record p { stores = process_batch st js ch worker p.stores } → Event p q

  pub data Events (p : Process) : Process → Type 0 where
    start : Events p p
    later : {q r : Process} → Events p q → Event q r → Events p r
