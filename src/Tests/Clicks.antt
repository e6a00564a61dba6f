-- ===== src/Tests/Clicks.antt =====
-- Runs of the analytics worker.
use nanolink.Prelude.{
  ◌≡◌, ◌≢◌, refl, true, false, some, List, [], ◌∷◌, Str, codes, map, ◌⊎◌, ℕ, ◌+◌, take, length,
}
use nanolink.Prelude.Int.{pos}
use nanolink.Prelude.Result.{Result, ok, err}
use nanolink.Models.{ClickEvent}
use nanolink.Storage.Stream.{Json, Message, publish_click_event, read_click_events_batch, batch_of}
use nanolink.Storage.Stream.Batch.{events_in}
use nanolink.Storage.ClickHouse.{ClickRow, click_row, exec_all, insert_click_batch}
use nanolink.Storage.ClickHouse.Insert.{Inserted, insert_click_batch-Inserted}
use nanolink.Worker.{
  AnalyticsWorker, new_analytics_worker, Stores, Signal, published, tick, done, flush,
  process_batch, start,
}
use nanolink.Worker.Ingest.{IsFaithful, start-IsFaithful}
use nanolink.Worker.Ungrouped.{start_ungrouped}
use nanolink.Worker.Outcome.{Stored, Failed, read_by, process_batch-outcome}
use nanolink.Tests.Streams.{stream, stream_laws, clicks, clicks_laws, failing, failing_laws}
use mathlib.Core.List.{Sublistᴰ}

abbrev pub click_on : Str → ClickEvent
click_on short_code = record {
  id = 0;
  short_code = short_code;
  clicked_at = pos 5;
  ip_hash = codes "00ff";
  country_code = codes "US";
  user_agent = codes "curl";
  device_type = codes "desktop";
  browser = codes "other";
  os = codes "other";
  referrer = [];
}

abbrev read_code : Str → Result ClickEvent
read_code [] = err (codes "unexpected end of JSON input")
read_code (c ∷ str) = ok (click_on (c ∷ str))

-- a click as its code only
abbrev pub codec : Json
codec = record { marshal = λ ev. ok ev.short_code; unmarshal = read_code }

abbrev pub worker : AnalyticsWorker
worker = record {
  redis_client = true;
  click_house_client = true;
  consumer_id = codes "worker-node-1";
  batch_size = pos 1000;
  flush_interval = pos 1000000000;
  stop_chan = false;
}

worker_lem : new_analytics_worker true true (codes "worker-node-1") ≡ worker
unfolding new_analytics_worker
worker_lem = refl

abbrev waiting : List Message
waiting =
    record { id = codes "1-0"; payload = some (codes "abc") }
    ∷ record { id = codes "2-0"; payload = some [] }
    ∷ []

abbrev pub stores : Stores stream codec clicks
stores = record {
  log = record { old = []; new = waiting; group = true; acked = [] };
  click_house = some [];
}

abbrev without_group : Stores stream codec clicks
without_group = record {
  log = record { old = []; new = waiting; group = false; acked = [] };
  click_house = some [];
}

abbrev pub signals : List Signal
signals = published (click_on (codes "xyz")) ∷ tick ∷ done ∷ tick ∷ []

stored :
    (start stream codec clicks worker stores signals).click_house
    ≡ some (click_row (click_on (codes "abc")) ∷ click_row (click_on (codes "xyz")) ∷ [])
unfolding start publish_click_event process_batch flush read_click_events_batch insert_click_batch
    batch_of
stored = refl

abbrev coded : List ClickEvent
coded = click_on (codes "abc") ∷ click_on [] ∷ []

refused : (exec_all failing [] coded).1 ≡ err (codes "no code")
unfolding exec_all
refused = refl

insert_click_batch-Inserted_example :
    Inserted failing failing_laws []
      (map click_row coded)
      (insert_click_batch failing (some []) coded)
    × ((tx : List ClickRow) (u : Unit {0}) (e : Str)
        → (failing.begin_tx []).1 ≡ ok tx
        → (failing.prepare tx).1 ≡ ok u
        → (exec_all failing (failing.prepare tx).0 coded).1 ≡ err e
        → (db : List ClickRow) × (insert_click_batch failing (some []) coded ≡ (some db, err e))
          × (db ≡ []))
insert_click_batch-Inserted_example = insert_click_batch-Inserted failing failing_laws [] coded

fresh : IsFaithful stream codec clicks stream_laws clicks_laws [] stores
unfolding events_in
fresh = record { added = []; table = refl; from_stream = Sublistᴰ.slnil }

start-IsFaithful_example :
    IsFaithful stream codec clicks stream_laws clicks_laws []
      (start stream codec clicks worker stores signals)
start-IsFaithful_example =
    start-IsFaithful stream codec clicks stream_laws clicks_laws [] worker stores signals fresh

start_ungrouped_example :
    (start stream codec clicks worker without_group signals).click_house ≡ some []
start_ungrouped_example =
    start_ungrouped stream codec clicks stream_laws worker without_group signals refl

decodes : events_in codec waiting ≢ []
unfolding events_in
decodes e = cc

process_batch-outcome_example :
    (let s' = process_batch stream codec clicks worker stores in
      (Stored stream codec clicks stream_laws clicks_laws []
          (read_by stream codec clicks worker stores).0
          waiting
          s'
        ⊎ Failed stream codec clicks stream_laws clicks_laws []
            (read_by stream codec clicks worker stores).0
            waiting
            s')
      × ((k : ℕ) × (waiting ≡ take k waiting) × (length s'.log.old ≡ 0 + k)))
process_batch-outcome_example =
    process_batch-outcome stream codec clicks stream_laws clicks_laws worker stores []
      (some (waiting ∷ [])) refl refl refl refl decodes
