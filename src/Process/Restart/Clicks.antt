-- ===== src/Process/Restart/Clicks.antt =====
-- Every row of a click comes from a redirect, over restarts of the program of cmd/server/main.go.
use nanolink.Prelude.{List, ◌++◌, Str}
use nanolink.Prelude.Float.{Floats}
use nanolink.Prelude.Result.{Result}
use nanolink.Config.{Config}
use nanolink.Storage.Stream.{Streams, StreamLaws, Json}
use nanolink.Storage.ClickHouse.{ClickHouseLaws}
use nanolink.Worker.{AnalyticsWorker}
use nanolink.Api.Handlers.{Site}
use nanolink.Process.{Process}
use nanolink.Process.Clicks.{started}
use nanolink.Models.{ClickEvent}
use nanolink.Process.Restart.{Lives, first, again}

module _ (site : Site) (fl : Floats) (st : Streams) (js : Json) (worker : AnalyticsWorker)
    (stl : StreamLaws st) (chl : ClickHouseLaws site.ch) {Pg Ch : Type 0}
    (open_pg : Str → Result Pg) (open_ch : Str → Result Ch) (ping : Ch → Result (Unit {0}))
    (cfg : Config fl.F) where
  open site use {ch}
  open stl use {entries}

  abbrev P : Type 0
  P = Process site fl st js worker

  -- the clicks whose goroutines these runs start
  abbrev pub all_started :
      {p q : P} → Lives site fl st js worker open_pg open_ch ping cfg p q → List ClickEvent
  all_started (first events) = started site fl st js worker stl chl events
  all_started (again node lives at events) =
      all_started lives ++ started site fl st js worker stl chl events
