-- ===== src/Process/Sound.antt =====
-- What every event of the running program of cmd/server/main.go keeps.
use mathlib.Core.Path.{subst}
use nanolink.Prelude.{◌≡◌, sym, Option, some, List, Str}
use nanolink.Prelude.Float.{Floats}
use nanolink.Bloom.Words.{IsValid}
use nanolink.Storage.Postgres.{PostgresLaws}
use nanolink.Storage.Redis.{RedisLaws}
use nanolink.Storage.Stream.{Streams, StreamLaws, Json, publish_click_event}
use nanolink.Storage.ClickHouse.{ClickHouseLaws, ClickRow}
use nanolink.UrlService.Cache.{IsCoherent}
use nanolink.UrlService.Methods.{clicked}
use nanolink.UrlService.History.{Calls, done, then_call, Calls-trans, Calls-Lasts}
use nanolink.RateLimit.Service.{Eval}
use nanolink.Worker.{AnalyticsWorker}
use nanolink.Worker.Ingest.{IsFaithful, process_batch-IsFaithful, publish-IsFaithful}
use nanolink.Api.Messages.{Request, Response}
use nanolink.Api.Handlers.{Site, User, Server}
use nanolink.Api.Handling.{follow-Holds}
use nanolink.Api.Router.{Front, endpoint_for, handle}
use nanolink.Api.Router.Handled.{dispatch-Holds}
use nanolink.Process.{Process, Event, served, counted, published, flushed, Events, start, later}

module _ (site : Site) (fl : Floats) (eval : Option (Eval fl)) where
  open site use {env}

  abbrev Called : Server site → Server site → Type 0
  Called s s' = Calls env s.world s'.world

  -- A request that is answered makes calls of the methods, one after the other.
  pub handle-Calls :
      (method : Str) (path : List Str) (req : Request) (f f' : Front site fl)
      (r : Response (User site))
      → handle site fl eval method path req f ≡ some (f', r)
      → Calls env f.server.world f'.server.world
  unfolding handle
  handle-Calls method path req f f' r e =
      dispatch-Holds site fl eval Called (λ s. done) (λ s t u a b. Calls-trans env a b)
        (λ s w c. then_call done c) (endpoint_for method path) req f f' r
        (λ code q.
          follow-Holds site Called (λ s. done) (λ s t u a b. Calls-trans env a b)
            (λ s w c. then_call done c) (λ s task. done) (record req { code = code }))
        e

module _ (site : Site) (fl : Floats) (st : Streams) (js : Json) (worker : AnalyticsWorker) where
  open site use {env, ch}

  abbrev P : Type 0
  P = Process site fl st js worker

  Event-Calls :
      {p q : P}
      → Event site fl st js worker p q
      → Calls env p.front.server.world q.front.server.world
  Event-Calls {p = p} (served eval method path req f r e q) =
      subst (λ (x : P). Calls env p.front.server.world x.front.server.world) (sym q)
        (handle-Calls site fl eval method path req p.front f r e)
  Event-Calls {p = p} (counted before after code w u at ran q) =
      subst (λ (x : P). Calls env p.front.server.world x.front.server.world) (sym q)
        (then_call done (clicked code u ran))
  Event-Calls {p = p} (published before after event at q) =
      subst (λ (x : P). Calls env p.front.server.world x.front.server.world) (sym q) done
  Event-Calls {p = p} (flushed q) =
      subst (λ (x : P). Calls env p.front.server.world x.front.server.world) (sym q) done

  pub Events-Calls :
      {p q : P}
      → Events site fl st js worker p q
      → Calls env p.front.server.world q.front.server.world
  Events-Calls start = done
  Events-Calls (later r e) = Calls-trans env (Events-Calls r) (Event-Calls e)

  module _ (stl : StreamLaws st) (chl : ClickHouseLaws ch) where
    Event-IsFaithful :
        (base : List ClickRow) {p q : P}
        → Event site fl st js worker p q
        → IsFaithful st js ch stl chl base p.stores
        → IsFaithful st js ch stl chl base q.stores
    unfolding publish_click_event
    Event-IsFaithful base (served eval method path req f r e q) s =
        subst (λ (x : P). IsFaithful st js ch stl chl base x.stores) (sym q) s
    Event-IsFaithful base (counted before after code w u at ran q) s =
        subst (λ (x : P). IsFaithful st js ch stl chl base x.stores) (sym q) s
    Event-IsFaithful base {p = p} (published before after event at q) s =
        subst (λ (x : P). IsFaithful st js ch stl chl base x.stores) (sym q)
          (publish-IsFaithful st js ch stl chl base p.stores (js.marshal event) s)
    Event-IsFaithful base {p = p} (flushed q) s =
        subst (λ (x : P). IsFaithful st js ch stl chl base x.stores) (sym q)
          (process_batch-IsFaithful st js ch stl chl base worker p.stores s)

    pub Events-IsFaithful :
        (base : List ClickRow) {p q : P}
        → Events site fl st js worker p q
        → IsFaithful st js ch stl chl base p.stores
        → IsFaithful st js ch stl chl base q.stores
    Events-IsFaithful base start s = s
    Events-IsFaithful base (later r e) s = Event-IsFaithful base e (Events-IsFaithful base r s)

  module _ (pgl : PostgresLaws env.pg) (rdl : RedisLaws env.rd) (stl : StreamLaws st)
      (chl : ClickHouseLaws ch) where
    -- Every cached URL is that of its row, deleted or not, the filter is valid, and ClickHouse has, behind the rows of
    -- `base`, only rows of clicks delivered by the stream, each at most once and in their order.
    pub record IsSound (base : List ClickRow) (p : P) : Type 0 where
      pub coherent : IsCoherent env pgl rdl p.front.server.world
      pub valid : IsValid p.front.server.world.filter
      pub faithful : IsFaithful st js ch stl chl base p.stores

    -- Whatever requests are answered and whatever goroutines and ticks of the worker come between them,
    -- the program keeps its invariants: every cached URL is that of its row, deleted or not, the filter is valid, and
    -- ClickHouse has only rows of clicks that the stream has delivered, each at most once.
    pub Events-IsSound :
        (base : List ClickRow) {p q : P}
        → Events site fl st js worker p q
        → IsSound base p
        → IsSound base q
    Events-IsSound base r s =
        let l = Calls-Lasts env pgl rdl s.coherent s.valid (Events-Calls r) in
        record {
          coherent = l.coherent;
          valid = l.valid;
          faithful = Events-IsFaithful stl chl base r s.faithful;
        }
