-- ===== src/Storage/Stream.antt =====
-- internal/storage/redis/stream.go. The stream commands of Redis are the parameter `st`, and
-- encoding/json on click events the parameter `js`; the laws are those of the documented commands on
-- the stream `stream:clicks` and the group `analytics_group`, which the program never trims.
pub mod Batch
use nanolink.Prelude.{
  ℕ, ◌+◌, ◌≤◌, ◌≡◌, refl, ◌⊎◌, Bool, true, Option, none, some, List, [], ◌∷◌, ◌++◌, Str, codes,
  length, take, drop,
}
use nanolink.Prelude.Int.{ℤ, pos_part}
use nanolink.Prelude.Result.{Result, ok, err}
use nanolink.Models.{ClickEvent}

-- An entry of the stream: its identifier, and the text of its field `payload`, if it has one.
pub record Message : Type 0 where
  pub id : Str
  pub payload : Option Str

abbrev pub click_stream_key : Str
click_stream_key = codes "stream:clicks"

abbrev pub click_consumer_group : Str
click_consumer_group = codes "analytics_group"

pub record Streams : Type 1 where
  pub Log : Type 0
  -- XADD stream * payload text
  pub xadd : Log → Str → Str → Log × Result (Unit {0})
  -- XREADGROUP GROUP group consumer COUNT count BLOCK 1000 STREAMS stream >
  -- the messages of each stream in the reply; `none` is redis.Nil
  pub xread_group : Log → Str → Str → Str → ℤ → Log × Result (Option (List (List Message)))
  -- XACK stream group id …
  pub xack : Log → Str → Str → List Str → Log × Result (Unit {0})

pub record Json : Type 0 where
  pub marshal : ClickEvent → Result Str
  pub unmarshal : Str → Result ClickEvent

-- the messages of a reply
abbrev pub concat : List (List Message) → List Message
concat [] = []
concat (ms ∷ streams) = ms ++ concat streams

abbrev pub replied : Option (List (List Message)) → List Message
replied none = []
replied (some streams) = concat streams

module _ (st : Streams) where
  open st use {Log, xadd, xread_group, xack}

  pub record StreamLaws : Type 0 where
    -- all that has been added, oldest first; how many of these have been delivered to the group
    pub entries : Log → List Message
    pub delivered : Log → ℕ
    pub has_group : Log → Bool
    pub delivered_le : (log : Log) → delivered log ≤ length (entries log)
    -- an addition that reports an error may still have been made
    pub xadd_entries :
        (log : Log) (text : Str)
        → (entries (xadd log click_stream_key text).0 ≡ entries log)
          ⊎ ((id : Str) × (entries (xadd log click_stream_key text).0
                ≡ entries log ++ (record { id = id; payload = some text }) ∷ []))
    pub xadd_group :
        (log : Log) (text : Str)
        → (delivered (xadd log click_stream_key text).0 ≡ delivered log)
          × (has_group (xadd log click_stream_key text).0 ≡ has_group log)
    -- `>` delivers the next entries, each to one consumer; without the group it is an error
    pub xread_ok :
        (log : Log) (consumer : Str) (count : ℤ) (found : Option (List (List Message)))
        → (xread_group log click_stream_key click_consumer_group consumer count).1 ≡ ok found
        → (has_group log ≡ true)
          × ((k : ℕ) × (replied found ≡ take k (drop (delivered log) (entries log)))
              × (k ≤ pos_part count)
              × (delivered (xread_group log click_stream_key click_consumer_group consumer count).0
                  ≡ delivered log + k))
    -- a reply that is lost on its way has delivered its entries all the same
    pub xread_kept :
        (log : Log) (consumer : Str) (count : ℤ)
        → (let log' = (xread_group log click_stream_key click_consumer_group consumer count).0 in
            (entries log' ≡ entries log)
            × (has_group log' ≡ has_group log)
            × (delivered log ≤ delivered log'))
    pub xack_kept :
        (log : Log) (ids : List Str)
        → (let log' = (xack log click_stream_key click_consumer_group ids).0 in
            (entries log' ≡ entries log)
            × (has_group log' ≡ has_group log)
            × (delivered log' ≡ delivered log))

module _ (js : Json) where
  -- `payload, ok := …; ok { … if err == nil { events = append(events, ev) } }`
  abbrev pub decoded : Result ClickEvent → List ClickEvent → List ClickEvent
  decoded (ok ev) events = events ++ ev ∷ []
  decoded (err e) events = events

  abbrev pub event_of : Option Str → List ClickEvent → List ClickEvent
  event_of none events = events
  event_of (some payload) events = decoded (js.unmarshal payload) events

  -- the inner loop, from the events and the identifiers collected so far
  unfoldable pub scan_messages :
      List Message → List ClickEvent → List Str → List ClickEvent × List Str
  scan_messages [] events ids = (events, ids)
  scan_messages (m ∷ ms) events ids =
      scan_messages ms (event_of m.payload events) (ids ++ m.id ∷ [])

  unfoldable pub scan_streams :
      List (List Message) → List ClickEvent → List Str → List ClickEvent × List Str
  unfolding scan_messages
  scan_streams [] events ids = (events, ids)
  scan_streams (ms ∷ streams) events ids =
      let r = scan_messages ms events ids in scan_streams streams r.0 r.1

  -- `redis.Nil` is an empty batch
  unfoldable pub batch_of :
      Result (Option (List (List Message))) → Result (List ClickEvent × List Str)
  unfolding scan_streams
  batch_of (err e) = err e
  batch_of (ok none) = ok ([], [])
  batch_of (ok (some streams)) = ok (scan_streams streams [] [])

module _ (st : Streams) (js : Json) where
  open st use {Log, xadd, xread_group, xack}

  abbrev pub add_marshalled : Log → Result Str → Log × Result (Unit {0})
  add_marshalled log (err e) = (log, err e)
  add_marshalled log (ok text) = xadd log click_stream_key text

  unfoldable pub publish_click_event : Log → ClickEvent → Log × Result (Unit {0})
  publish_click_event log event = add_marshalled log (js.marshal event)

  unfoldable pub read_click_events_batch : Log → Str → ℤ → Log × Result (List ClickEvent × List Str)
  read_click_events_batch log consumer count =
      let r = xread_group log click_stream_key click_consumer_group consumer count in
      (r.0, batch_of js r.1)

  unfoldable pub ack_click_events : Log → List Str → Log × Result (Unit {0})
  ack_click_events log [] = (log, ok tt)
  ack_click_events log (id ∷ ids) = xack log click_stream_key click_consumer_group (id ∷ ids)
