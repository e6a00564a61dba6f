-- ===== src/Worker.antt =====
-- internal/worker/analytics_worker.go. The worker's goroutine and the handlers that publish clicks run
-- at the same time; the model puts their steps in one sequence, whose steps are those of `Signal`.
pub mod Batch
pub mod Ingest
pub mod Ungrouped
pub mod Outcome
pub mod Fleet
use nanolink.Prelude.{Bool, true, false, not, ◌||◌, Option, none, some, List, [], ◌∷◌, Str}
use nanolink.Prelude.Int.{ℤ, pos}
use nanolink.Prelude.Result.{Result, ok, err}
use nanolink.Models.{ClickEvent}
use nanolink.Storage.Stream.{
  Streams, Json, publish_click_event, read_click_events_batch, ack_click_events,
}
use nanolink.Storage.ClickHouse.{ClickHouse, insert_click_batch}
use nanolink.Prelude.{if◌then◌else◌}

-- The two clients are held as whether they are not nil; a time is a number of nanoseconds.
pub record AnalyticsWorker : Type 0 where
  pub redis_client : Bool
  pub click_house_client : Bool
  pub consumer_id : Str
  pub batch_size : ℤ
  pub flush_interval : ℤ
  -- whether `stopChan` is closed
  pub stop_chan : Bool

unfoldable pub new_analytics_worker : Bool → Bool → Str → AnalyticsWorker
new_analytics_worker rdb ch consumer_id = record {
  redis_client = rdb;
  click_house_client = ch;
  consumer_id = consumer_id;
  batch_size = pos 1000;
  flush_interval = pos 1000000000;
  stop_chan = false;
}

-- Closing a closed channel panics.
unfoldable pub stop : AnalyticsWorker → Option AnalyticsWorker
stop w = if w.stop_chan then none else some (record w { stop_chan = true })

-- A step: another goroutine or process publishes a click, the ticker fires, the context is done, or
-- `stopChan` is closed.
pub data Signal : Type 0 where
  published : ClickEvent → Signal
  tick : Signal
  done : Signal
  stopped : Signal

module _ (st : Streams) (js : Json) (ch : ClickHouse) where
  -- the stream, and the `db` of the ClickHouse client
  pub record Stores : Type 0 where
    pub log : st.Log
    pub click_house : Option ch.Db

  -- `if err := …InsertClickBatch(ctx, events)`; an error of AckClickEvents is only logged
  abbrev pub acknowledged : Stores → List Str → Result (Unit {0}) → Stores
  acknowledged s ids (err e) = s
  acknowledged s ids (ok u) = record s { log = (ack_click_events st js s.log ids).0 }

  -- what follows the call of ReadClickEventsBatch
  unfoldable pub flush : Stores → Result (List ClickEvent × List Str) → Stores
  flush s (err e) = s
  flush s (ok ([], ids)) = s
  flush s (ok (ev ∷ events, ids)) =
      let r = insert_click_batch ch s.click_house (ev ∷ events) in
      acknowledged (record s { click_house = r.0 }) ids r.1

  unfoldable pub process_batch : AnalyticsWorker → Stores → Stores
  process_batch w s =
      if not w.redis_client || not w.click_house_client
      then s
      else let r = read_click_events_batch st js s.log w.consumer_id w.batch_size in
        flush (record s { log = r.0 }) r.1

  -- The loop of `Start`, up to the return.
  unfoldable pub start : AnalyticsWorker → Stores → List Signal → Stores
  start w s [] = s
  start w s (published ev ∷ signals) =
      start w (record s { log = (publish_click_event st js s.log ev).0 }) signals
  start w s (tick ∷ signals) = start w (process_batch w s) signals
  start w s (done ∷ signals) = s
  start w s (stopped ∷ signals) = s
