-- ===== src/Worker/Fleet/Runs.antt =====
-- A run of one worker among the commands of the others: Start and processBatch of
-- internal/worker/analytics_worker.go.
use nanolink.Prelude.{◌≡◌, refl, inl, inr, not, ◌||◌, Bool-cases, List, [], ◌∷◌, Str}
use nanolink.Prelude.Result.{Result, ok, err}
use nanolink.Models.{ClickEvent}
use nanolink.Storage.Stream.{Streams, Json, read_click_events_batch}
use nanolink.Storage.ClickHouse.{ClickHouse, insert_click_batch}
use nanolink.Worker.{
  AnalyticsWorker, acknowledged, flush, process_batch, start, Signal, published, tick, done,
  stopped,
}
use nanolink.Worker.Fleet.{
  Fleet, after_insert, reads, read_fails, inserts, acknowledges, drops, publishes, Moves, here,
  next,
}

module _ (st : Streams) (js : Json) (ch : ClickHouse) where
  follow : {s t u : Fleet st js ch} → Moves st js ch s t → Moves st js ch t u → Moves st js ch s u
  follow ms here = ms
  follow ms (next ns m) = next (follow ms ns) m

  acknowledged-Moves :
      (s t : Fleet st js ch) (ids : List Str) (r : Result (Unit {0}))
      → Moves st js ch s (record t { unacknowledged = after_insert ids r t.unacknowledged })
      → Moves st js ch s (record t { stores = acknowledged st js ch t.stores ids r })
  acknowledged-Moves s t ids (err e) ms = ms
  acknowledged-Moves s t ids (ok u) ms = next ms (acknowledges [] t.unacknowledged ids refl refl)

  flush-Moves :
      (w : AnalyticsWorker) (s : Fleet st js ch) (r : Result (List ClickEvent × List Str))
      → (read_click_events_batch st js s.stores.log w.consumer_id w.batch_size).1 ≡ r
      → Moves st js ch s (record s {
        stores =
            flush st js ch
              (record s.stores {
                log = (read_click_events_batch st js s.stores.log w.consumer_id w.batch_size).0;
              })
              r;
      })
  unfolding flush
  flush-Moves w s (err e) got = next here (read_fails w.consumer_id w.batch_size e got refl)
  flush-Moves w s (ok ([], ids)) got =
      next (next here (reads w.consumer_id w.batch_size [] ids got refl))
        (drops [] s.held [] ids refl refl)
  flush-Moves w s (ok (ev ∷ events, ids)) got =
      let log = (read_click_events_batch st js s.stores.log w.consumer_id w.batch_size).0 in
      let r = insert_click_batch ch s.stores.click_house (ev ∷ events) in
      acknowledged-Moves s (record s { stores = record { log = log; click_house = r.0 } }) ids r.1
        (next (next here (reads w.consumer_id w.batch_size (ev ∷ events) ids got refl))
          (inserts [] s.held (ev ∷ events) ids refl refl))

  process_batch-Moves :
      (w : AnalyticsWorker) (s : Fleet st js ch)
      → Moves st js ch s (record s { stores = process_batch st js ch w s.stores })
  unfolding process_batch
  process_batch-Moves w s = elim (Bool-cases (not w.redis_client || not w.click_house_client)) [
    | inl missing ↦ rw missing here
    | inr both ↦ rw both (
        flush-Moves w s (read_click_events_batch st js s.stores.log w.consumer_id w.batch_size).1
          refl)
  ]

  -- A run of one worker, with what is published between its batches, is a sequence of the commands
  -- that the workers of a group are interleaved from: such a sequence gives the stream and the table
  -- that `start` gives, whatever batches other workers hold, and leaves those as they are.
  pub start-Moves :
      (w : AnalyticsWorker) (s : Fleet st js ch) (signals : List Signal)
      → Moves st js ch s (record s { stores = start st js ch w s.stores signals })
  unfolding start
  start-Moves w s [] = here
  start-Moves w s (published ev ∷ signals) =
      follow (next here (publishes ev refl)) (start-Moves w _ signals)
  start-Moves w s (tick ∷ signals) =
      follow (process_batch-Moves w s)
        (start-Moves w (record s { stores = process_batch st js ch w s.stores }) signals)
  start-Moves w s (done ∷ signals) = here
  start-Moves w s (stopped ∷ signals) = here
