-- ===== src/Worker/Batch.antt =====
-- What one batch of the worker does: processBatch of internal/worker/analytics_worker.go.
use mathlib.Core.List.{Sublistᴰ, append-nil}
use nanolink.Prelude.{
  nothing_listed, all_listed, sym, ◌≡◌, refl, Option, none, some, List, [], ◌∷◌, ◌++◌, Str, map,
}
use nanolink.Prelude.Result.{Result, ok, err}
use nanolink.Models.{ClickEvent}
use nanolink.Storage.Stream.{Streams, StreamLaws, Json, ack_click_events}
use nanolink.Storage.ClickHouse.{
  ClickHouse, ClickHouseLaws, ClickRow, click_row, insert_click_batch,
}
use nanolink.Storage.ClickHouse.Insert.{Inserted, insert_click_batch-Kept}
use nanolink.Worker.{Stores, acknowledged, flush}

module _ (st : Streams) (js : Json) (ch : ClickHouse) (stl : StreamLaws st)
    (chl : ClickHouseLaws ch) where
  open stl use {entries, delivered, has_group}
  open chl use {rows}

  -- the rows of the table; a client with a nil `db` has none
  abbrev pub table_of : Option ch.Db → List ClickRow
  table_of none = []
  table_of (some db) = rows db

  -- The stream commands other than reading leave this of a stream.
  pub record Same (log log' : st.Log) : Type 0 where
    pub entries_same : entries log' ≡ entries log
    pub delivered_same : delivered log' ≡ delivered log
    pub group_same : has_group log' ≡ has_group log

  pub ack_click_events-Same :
      (log : st.Log) (ids : List Str) → Same log (ack_click_events st js log ids).0
  unfolding ack_click_events
  ack_click_events-Same log [] = record {
    entries_same = refl;
    delivered_same = refl;
    group_same = refl;
  }
  ack_click_events-Same log (id ∷ ids) =
      let k = stl.xack_kept log (id ∷ ids) in
      record { entries_same = k.0; delivered_same = k.2; group_same = k.1 }

  Same-refl : (log : st.Log) → Same log log
  Same-refl log = record { entries_same = refl; delivered_same = refl; group_same = refl }

  -- What a flush of these events may leave: some of their rows behind those before.
  pub record Flushed (events : List ClickEvent) (s s' : Stores st js ch) : Type 0 where
    pub log_same : Same s.log s'.log
    pub table :
        (part : List ClickRow) × Sublistᴰ part (map click_row events)
        × (table_of s'.click_house ≡ table_of s.click_house ++ part)

  unchanged : (events : List ClickEvent) (s : Stores st js ch) → Flushed events s s
  unchanged events s = record {
    log_same = Same-refl s.log;
    table = ([], nothing_listed _, sym (append-nil _));
  }

  acknowledged-Flushed :
      (s s1 : Stores st js ch) (events : List ClickEvent) (ids : List Str) (r : Result (Unit {0}))
      → Flushed events s s1
      → s1.log ≡ s.log
      → Flushed events s (acknowledged st js ch s1 ids r)
  acknowledged-Flushed s s1 events ids (err e) f same = f
  acknowledged-Flushed s s1 events ids (ok u) f same = record {
    log_same = rw same (ack_click_events-Same s.log ids);
    table = f.table;
  }

  Inserted-part :
      (before added : List ClickRow) (r : Option ch.Db × Result (Unit {0}))
      → Inserted ch chl before added r
      → (part : List ClickRow) × Sublistᴰ part added × (table_of r.0 ≡ before ++ part)
  Inserted-part before added (none, r) h = absurd h
  Inserted-part before added (some db, ok u) h = (added, all_listed added, h)
  Inserted-part before added (some db, err e) h = h

  pub inserted :
      (db : Option ch.Db) (events : List ClickEvent)
      → (part : List ClickRow) × Sublistᴰ part (map click_row events)
        × (table_of (insert_click_batch ch db events).0 ≡ table_of db ++ part)
  unfolding insert_click_batch
  inserted none events = ([], nothing_listed (map click_row events), refl)
  inserted (some db) events =
      Inserted-part (rows db) (map click_row events) (insert_click_batch ch (some db) events)
        (insert_click_batch-Kept ch chl db events)

  pub flush-Flushed :
      (s : Stores st js ch) (events : List ClickEvent) (ids : List Str)
      → Flushed events s (flush st js ch s (ok (events, ids)))
  unfolding flush
  flush-Flushed s [] ids = unchanged [] s
  flush-Flushed s (ev ∷ events) ids =
      let r = insert_click_batch ch s.click_house (ev ∷ events) in
      acknowledged-Flushed s (record s { click_house = r.0 }) (ev ∷ events) ids r.1
        (record { log_same = Same-refl s.log; table = inserted s.click_house (ev ∷ events) }) refl
