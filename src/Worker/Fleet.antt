-- ===== src/Worker/Fleet.antt =====
-- Several workers of internal/worker/analytics_worker.go in one consumer group: their commands in any
-- order. A batch is read, then inserted in one transaction, then acknowledged; other workers run in
-- between, and a worker may end at any time.
pub mod Once
pub mod Runs
use nanolink.Prelude.{◌≡◌, Option, List, ◌∷◌, ◌++◌, Str}
use nanolink.Prelude.Int.{ℤ}
use nanolink.Prelude.Result.{Result, ok, err}
use nanolink.Models.{ClickEvent}
use nanolink.Storage.Stream.{
  Streams, Json, publish_click_event, read_click_events_batch, ack_click_events,
}
use nanolink.Storage.ClickHouse.{ClickHouse, insert_click_batch}
use nanolink.Worker.{Stores}

-- a batch to be acknowledged, if its insertion has succeeded
abbrev pub after_insert : List Str → Result (Unit {0}) → List (List Str) → List (List Str)
after_insert ids (ok u) l = ids ∷ l
after_insert ids (err e) l = l

module _ (st : Streams) (js : Json) (ch : ClickHouse) where
  -- The stream and the table, the batches that workers have read, and the identifiers of those that
  -- they have inserted and not yet acknowledged.
  pub record Fleet : Type 0 where
    pub stores : Stores st js ch
    pub held : List (List ClickEvent × List Str)
    pub unacknowledged : List (List Str)

  pub data Move (s u : Fleet) : Type 0 where
    reads :
        (consumer : Str) (count : ℤ) (events : List ClickEvent) (ids : List Str)
        → (read_click_events_batch st js s.stores.log consumer count).1 ≡ ok (events, ids)
        → u ≡ record s {
          stores = record s.stores {
            log = (read_click_events_batch st js s.stores.log consumer count).0;
          };
          held = (events, ids) ∷ s.held;
        }
        → Move s u
    read_fails :
        (consumer : Str) (count : ℤ) (e : Str)
        → (read_click_events_batch st js s.stores.log consumer count).1 ≡ err e
        → u ≡ record s {
          stores = record s.stores {
            log = (read_click_events_batch st js s.stores.log consumer count).0;
          };
        }
        → Move s u
    inserts :
        (before after : List (List ClickEvent × List Str)) (events : List ClickEvent)
        (ids : List Str)
        → s.held ≡ before ++ (events, ids) ∷ after
        → u ≡ record {
          stores = record s.stores {
            click_house = (insert_click_batch ch s.stores.click_house events).0;
          };
          held = before ++ after;
          unacknowledged =
              after_insert ids
                (insert_click_batch ch s.stores.click_house events).1
                s.unacknowledged;
        }
        → Move s u
    acknowledges :
        (before after : List (List Str)) (ids : List Str)
        → s.unacknowledged ≡ before ++ ids ∷ after
        → u ≡ record s {
          stores = record s.stores { log = (ack_click_events st js s.stores.log ids).0 };
          unacknowledged = before ++ after;
        }
        → Move s u
    -- a batch without events, or the end of a worker that has read one
    drops :
        (before after : List (List ClickEvent × List Str)) (events : List ClickEvent)
        (ids : List Str)
        → s.held ≡ before ++ (events, ids) ∷ after
        → u ≡ record s { held = before ++ after }
        → Move s u
    publishes :
        (event : ClickEvent)
        → u ≡ record s {
          stores = record s.stores { log = (publish_click_event st js s.stores.log event).0 };
        }
        → Move s u

  pub data Moves (s : Fleet) : Fleet → Type 0 where
    here : Moves s s
    next : {t u : Fleet} → Moves s t → Move t u → Moves s u
