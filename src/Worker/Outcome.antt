-- ===== src/Worker/Outcome.antt =====
-- A batch of the worker whose read succeeds: processBatch of internal/worker/analytics_worker.go.
use nanolink.Prelude.{
  ℕ, ◌+◌, ◌≡◌, ◌≢◌, ◌⊎◌, inl, inr, refl, sym, ap, ◌∙◌, true, Option, none, some, List, [], ◌∷◌,
  ◌++◌, Str, map, take, drop,
}
use mathlib.Core.Path.{subst}
use mathlib.Core.List.{Sublistᴰ}
use nanolink.Prelude.Result.{Result, ok, err}
use nanolink.Models.{ClickEvent}
use nanolink.Storage.Stream.{
  Streams, StreamLaws, Json, Message, replied, click_stream_key, click_consumer_group,
  read_click_events_batch, ack_click_events,
}
use nanolink.Storage.Stream.Batch.{events_in, batch_of_lem, message_id}
use nanolink.Storage.ClickHouse.{
  ClickHouse, ClickHouseLaws, ClickRow, click_row, insert_click_batch,
}
use nanolink.Storage.ClickHouse.Insert.{Inserted, insert_click_batch-Kept}
use nanolink.Worker.{AnalyticsWorker, Stores, acknowledged, flush, process_batch}
use nanolink.Worker.Batch.{table_of}

module _ (st : Streams) (js : Json) (ch : ClickHouse) where
  open st use {Log, xread_group, xack}

  flush_lem :
      (s : Stores st js ch) (events : List ClickEvent) (ids : List Str)
      → events ≢ []
      → flush st js ch s (ok (events, ids))
        ≡ acknowledged st js ch
            (record s { click_house = (insert_click_batch ch s.click_house events).0 })
            ids
            (insert_click_batch ch s.click_house events).1
  unfolding flush
  flush_lem s [] ids some' = absurd (some' refl)
  flush_lem s (ev ∷ events) ids some' = refl

  -- the answer to the worker's XREADGROUP
  abbrev pub read_by :
      AnalyticsWorker → Stores st js ch → Log × Result (Option (List (List Message)))
  read_by w s = xread_group s.log click_stream_key click_consumer_group w.consumer_id w.batch_size

  pub process_batch_lem :
      (w : AnalyticsWorker) (s : Stores st js ch) (found : Option (List (List Message)))
      → w.redis_client ≡ true
      → w.click_house_client ≡ true
      → (read_by w s).1 ≡ ok found
      → events_in js (replied found) ≢ []
      → (let ins = insert_click_batch ch s.click_house (events_in js (replied found)) in
          process_batch st js ch w s
          ≡ acknowledged st js ch
              (record { log = (read_by w s).0; click_house = ins.0 })
              (map message_id (replied found))
              ins.1)
  unfolding process_batch read_click_events_batch
  process_batch_lem w s found rdb house got some' =
      rw (rdb, house, got, batch_of_lem js found)
        (flush_lem (record s { log = (read_by w s).0 }) (events_in js (replied found))
          (map message_id (replied found)) some')

  ack_click_events_lem :
      (log : Log) (ms : List Message)
      → events_in js ms ≢ []
      → ack_click_events st js log (map message_id ms)
        ≡ xack log click_stream_key click_consumer_group (map message_id ms)
  unfolding ack_click_events events_in
  ack_click_events_lem log [] some' = absurd (some' refl)
  ack_click_events_lem log (m ∷ ms) some' = refl

module _ (st : Streams) (js : Json) (ch : ClickHouse) (stl : StreamLaws st)
    (chl : ClickHouseLaws ch) where
  open st use {xack}
  open stl use {entries, delivered}
  open chl use {rows}

  -- all rows are stored and the messages acknowledged
  pub record Stored (db : ch.Db) (read : st.Log) (ms : List Message) (s' : Stores st js ch)
      : Type 0 where
    pub table :
        table_of st js ch stl chl s'.click_house ≡ rows db ++ map click_row (events_in js ms)
    pub log : s'.log ≡ (xack read click_stream_key click_consumer_group (map message_id ms)).0

  -- nothing is acknowledged; the table has some of the rows, none twice
  pub record Failed (db : ch.Db) (read : st.Log) (ms : List Message) (s' : Stores st js ch)
      : Type 0 where
    pub table :
        (part : List ClickRow) × Sublistᴰ part (map click_row (events_in js ms))
        × (table_of st js ch stl chl s'.click_house ≡ rows db ++ part)
    pub log : s'.log ≡ read

  outcome :
      (db : ch.Db) (read : st.Log) (ms : List Message) (r : Option ch.Db × Result (Unit {0}))
      → events_in js ms ≢ []
      → Inserted ch chl (rows db) (map click_row (events_in js ms)) r
      → (let s' =
            acknowledged st js ch
              (record { log = read; click_house = r.0 })
              (map message_id ms)
              r.1 in
          Stored db read ms s' ⊎ Failed db read ms s')
  outcome db read ms (none, r) some' h = absurd h
  outcome db read ms (some db', ok u) some' h =
      inl (record { table = h; log = ap (λ x. x.0) (ack_click_events_lem st js ch read ms some') })
  outcome db read ms (some db', err e) some' h = inr (record { table = h; log = refl })

  delivered_same :
      (db : ch.Db) (read : st.Log) (ms : List Message) (s' : Stores st js ch)
      → Stored db read ms s' ⊎ Failed db read ms s'
      → delivered s'.log ≡ delivered read
  delivered_same db read ms s' (inl done) =
      ap delivered done.log ∙ (stl.xack_kept read (map message_id ms)).2
  delivered_same db read ms s' (inr failed) = ap delivered failed.log

  -- If both clients are there and the read of the batch succeeds with at least one message that can
  -- be decoded, then either the table gets the rows of all of these messages, in order, and exactly
  -- the identifiers of all messages read, those not decoded too, are acknowledged; or none is
  -- acknowledged, and the table gets some of the rows, none twice. In both cases the messages are the next k
  -- entries of the stream, for some k, and k entries more count as delivered to the group.
  pub process_batch-outcome :
      (w : AnalyticsWorker) (s : Stores st js ch) (db : ch.Db)
      (found : Option (List (List Message)))
      → w.redis_client ≡ true
      → w.click_house_client ≡ true
      → s.click_house ≡ some db
      → (read_by st js ch w s).1 ≡ ok found
      → events_in js (replied found) ≢ []
      → (let s' = process_batch st js ch w s in
          (Stored db (read_by st js ch w s).0 (replied found) s'
            ⊎ Failed db (read_by st js ch w s).0 (replied found) s')
          × ((k : ℕ) × (replied found ≡ take k (drop (delivered s.log) (entries s.log)))
              × (delivered s'.log ≡ delivered s.log + k)))
  process_batch-outcome w s db found rdb house has got some' =
      let read = (read_by st js ch w s).0 in
      let ms = replied found in
      let (grouped, (k, next, bound, more)) =
        stl.xread_ok s.log w.consumer_id w.batch_size found got in
      let evs = events_in js ms in
      let inserted =
        subst
          (λ (o : Option ch.Db).
            Inserted ch chl (rows db) (map click_row evs) (insert_click_batch ch o evs))
          (sym has) (insert_click_batch-Kept ch chl db evs) in
      let out = outcome db read ms (insert_click_batch ch s.click_house evs) some' inserted in
      let e = process_batch_lem st js ch w s found rdb house got some' in
      let at =
        subst (λ (x : Stores st js ch). Stored db read ms x ⊎ Failed db read ms x) (sym e) out in
      (at, (k, next, delivered_same db read ms (process_batch st js ch w s) at ∙ more))
