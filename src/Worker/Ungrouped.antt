-- ===== src/Worker/Ungrouped.antt =====
-- The worker of internal/worker/analytics_worker.go on a stream that has no consumer group.
use nanolink.Prelude.{◌≡◌, refl, ◌∙◌, false, not, ◌||◌, List, [], ◌∷◌, Str, Bool-cases, inl, inr}
use nanolink.Prelude.Result.{Result, ok, err, Result-cases}
use nanolink.Storage.Stream.{
  Streams, StreamLaws, Json, click_stream_key, click_consumer_group, publish_click_event,
  add_marshalled, read_click_events_batch, batch_of,
}
use nanolink.Storage.ClickHouse.{ClickHouse}
use nanolink.Worker.{
  AnalyticsWorker, Stores, flush, process_batch, start, Signal, published, tick, done, stopped,
}

module _ (st : Streams) (js : Json) (ch : ClickHouse) (stl : StreamLaws st) where
  open st use {Log, xread_group}
  open stl use {has_group}

  -- the stream has no group still, and ClickHouse is as it was
  record Idle (s s' : Stores st js ch) : Type 0 where
    group : has_group s'.log ≡ false
    table : s'.click_house ≡ s.click_house

  batch-Idle :
      (w : AnalyticsWorker) (s : Stores st js ch)
      → has_group s.log ≡ false
      → (let r = read_click_events_batch st js s.log w.consumer_id w.batch_size in
          Idle s (flush st js ch (record s { log = r.0 }) r.1))
  unfolding read_click_events_batch flush batch_of
  batch-Idle w s none' =
      let r = xread_group s.log click_stream_key click_consumer_group w.consumer_id w.batch_size in
      elim (Result-cases r.1) [
        | inr (e, failed) ↦ rw failed (record {
          group = (stl.xread_kept s.log w.consumer_id w.batch_size).1 ∙ none';
          table = refl;
        })
        | inl (found, got) ↦
            let has = (stl.xread_ok s.log w.consumer_id w.batch_size found got).0 in absurd (cc)
      ]

  process_batch-Idle :
      (w : AnalyticsWorker) (s : Stores st js ch)
      → has_group s.log ≡ false
      → Idle s (process_batch st js ch w s)
  unfolding process_batch
  process_batch-Idle w s none' =
      elim (Bool-cases (not w.redis_client || not w.click_house_client)) [
        | inl missing ↦ rw missing (record { group = none'; table = refl })
        | inr both ↦ rw both (batch-Idle w s none')
      ]

  publish_ungrouped :
      (log : Log) (r : Result Str)
      → has_group log ≡ false
      → has_group (add_marshalled st js log r).0 ≡ false
  publish_ungrouped log (err e) none' = none'
  publish_ungrouped log (ok text) none' = (stl.xadd_group log text).1 ∙ none'

  -- If the stream has no group `analytics_group` at the start, a run of the worker leaves ClickHouse as
  -- it was, whatever clicks are published.
  pub start_ungrouped :
      (w : AnalyticsWorker) (s : Stores st js ch) (signals : List Signal)
      → has_group s.log ≡ false
      → (start st js ch w s signals).click_house ≡ s.click_house
  unfolding start publish_click_event
  start_ungrouped w s [] none' = refl
  start_ungrouped w s (published ev ∷ signals) none' =
      start_ungrouped w (record s { log = (publish_click_event st js s.log ev).0 }) signals
        (publish_ungrouped s.log (js.marshal ev) none')
  start_ungrouped w s (tick ∷ signals) none' =
      let idle = process_batch-Idle w s none' in
      start_ungrouped w (process_batch st js ch w s) signals idle.group ∙ idle.table
  start_ungrouped w s (done ∷ signals) none' = refl
  start_ungrouped w s (stopped ∷ signals) none' = refl
