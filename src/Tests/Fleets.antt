-- ===== src/Tests/Fleets.antt =====
-- Two workers of one group whose commands are interleaved.
use nanolink.Prelude.{refl, true, some, List, [], ◌∷◌, Str, codes, arith}
use nanolink.Prelude.Int.{pos}
use nanolink.Storage.Stream.{Message, read_click_events_batch, batch_of}
use nanolink.Storage.Stream.Batch.{events_in}
use nanolink.Storage.ClickHouse.{insert_click_batch}
use nanolink.Worker.{start}
use nanolink.Worker.Fleet.{Fleet, reads, inserts, Moves, here, next}
use nanolink.Worker.Fleet.Once.{IsOnce, Moves-IsOnce}
use nanolink.Worker.Fleet.Runs.{start-Moves}
use nanolink.Tests.Streams.{stream, stream_laws, clicks, clicks_laws, Queue}
use nanolink.Tests.Clicks.{click_on, codec, worker, stores, signals}

abbrev abc : Message
abc = record { id = codes "1-0"; payload = some (codes "abc") }

abbrev xyz : Message
xyz = record { id = codes "2-0"; payload = some (codes "xyz") }

abbrev queue : List Message → List Message → List Str → Queue
queue old new acked = record { old = old; new = new; group = true; acked = acked }

abbrev first : Fleet stream codec clicks
first = record {
  stores = record { log = queue [] (abc ∷ xyz ∷ []) []; click_house = some [] };
  held = [];
  unacknowledged = [];
}

fresh : IsOnce stream codec clicks stream_laws clicks_laws [] first
unfolding events_in
fresh = record { added = []; table = refl; few = λ p. omega arith }

abbrev one_read : Fleet stream codec clicks
one_read = record first {
  stores = record { log = queue (abc ∷ []) (xyz ∷ []) []; click_house = some [] };
  held = (click_on (codes "abc") ∷ [], codes "1-0" ∷ []) ∷ [];
}

abbrev both_read : Fleet stream codec clicks
both_read = record first {
  stores = record { log = queue (abc ∷ xyz ∷ []) [] []; click_house = some [] };
  held =
      (click_on (codes "xyz") ∷ [], codes "2-0" ∷ [])
      ∷ (click_on (codes "abc") ∷ [], codes "1-0" ∷ [])
      ∷ [];
}

-- the second worker has read last and inserts first
abbrev last : Fleet stream codec clicks
last = record {
  stores = record {
    log = both_read.stores.log;
    click_house = (insert_click_batch clicks (some []) (click_on (codes "xyz") ∷ [])).0;
  };
  held = (click_on (codes "abc") ∷ [], codes "1-0" ∷ []) ∷ [];
  unacknowledged = (codes "2-0" ∷ []) ∷ [];
}

read_first : Moves stream codec clicks first one_read
unfolding read_click_events_batch batch_of
read_first =
    next here (reads (codes "a") (pos 1) (click_on (codes "abc") ∷ []) (codes "1-0" ∷ []) refl refl)

read_second : Moves stream codec clicks first both_read
unfolding read_click_events_batch batch_of
read_second =
    next read_first
      (reads (codes "b") (pos 1) (click_on (codes "xyz") ∷ []) (codes "2-0" ∷ []) refl refl)

interleaved : Moves stream codec clicks first last
unfolding insert_click_batch
interleaved = next read_second (
    inserts [] ((click_on (codes "abc") ∷ [], codes "1-0" ∷ []) ∷ []) (click_on (codes "xyz") ∷ [])
      (codes "2-0" ∷ []) refl refl)

Moves-IsOnce_example : IsOnce stream codec clicks stream_laws clicks_laws [] last
Moves-IsOnce_example = Moves-IsOnce stream codec clicks stream_laws clicks_laws [] interleaved fresh

abbrev beside : Fleet stream codec clicks
beside = record {
  stores = stores;
  held = (click_on (codes "old") ∷ [], codes "0-1" ∷ []) ∷ [];
  unacknowledged = [];
}

start-Moves_example :
    Moves stream codec clicks beside
      (record beside { stores = start stream codec clicks worker stores signals })
start-Moves_example = start-Moves stream codec clicks worker beside signals
