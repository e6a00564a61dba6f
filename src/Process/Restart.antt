-- ===== src/Process/Restart.antt =====
-- The program of cmd/server/main.go over several runs: it ends between two events, and main makes the
-- services again, from the same configuration. What PostgreSQL, Redis and ClickHouse hold stays; the
-- local filter, the node, the buckets in memory and the goroutines that have not run are lost.
pub mod Clicks
pub mod Deleted
pub mod Forgotten
pub mod Kept
use nanolink.Prelude.{◌≡◌, Option, some, [], Str}
use nanolink.Prelude.Float.{Floats}
use nanolink.Prelude.Result.{Result}
use nanolink.Config.{Config}
use nanolink.Startup.{Services, services}
use nanolink.Snowflake.{Node}
use nanolink.Storage.Stream.{Streams, Json}
use nanolink.RateLimit.Service.{Eval}
use nanolink.Worker.{AnalyticsWorker}
use nanolink.Api.Handlers.{Site}
use nanolink.Process.{Process, Events}

module _ (site : Site) (fl : Floats) (st : Streams) (js : Json) (worker : AnalyticsWorker) where
  -- the process with new services
  abbrev pub relaunched :
      {Pg Ch : Type 0}
      → Services fl Pg Ch
      → Node
      → Process site fl st js worker
      → Process site fl st js worker
  relaunched s node p = record p {
    front = record {
      server = record {
        world = record p.front.server.world { filter = s.local_filter; node = node };
        launched = [];
      };
      limiter = s.rate_limiter;
    };
  }

  module _ {Pg Ch : Type 0} (open_pg : Str → Result Pg) (open_ch : Str → Result Ch)
      (ping : Ch → Result (Unit {0})) (cfg : Config fl.F) where
    pub data Lives (p : Process site fl st js worker) : Process site fl st js worker → Type 0 where
      first : {q : Process site fl st js worker} → Events site fl st js worker p q → Lives p q
      again :
          {q r : Process site fl st js worker} (node : Node)
          → Lives p q
          → (services fl open_pg open_ch ping cfg).node ≡ some node
          → Events site fl st js worker (relaunched (services fl open_pg open_ch ping cfg) node q) r
          → Lives p r
