-- ===== src/Storage/Stream/Batch.antt =====
-- The loops of ReadClickEventsBatch in internal/storage/redis/stream.go.
use nanolink.Prelude.{
  ◌≤◌, ◌≡◌, arith, length, length-append, refl, sym, ap, ◌∙◌, Option, none, some, List, [], ◌∷◌,
  ◌++◌, Str, map,
}
use nanolink.Prelude.Result.{Result, ok, err}
use nanolink.Models.{ClickEvent}
use nanolink.Storage.Stream.{
  Message, Json, concat, replied, decoded, event_of, scan_messages, scan_streams, batch_of,
}
use mathlib.Core.List.{append_assoc, append-nil, map-append}

abbrev pub message_id : Message → Str
message_id m = m.id

module _ (js : Json) where
  -- the events that the messages hold, in order, without those that cannot be decoded
  unfoldable pub events_in : List Message → List ClickEvent
  events_in [] = []
  events_in (m ∷ ms) = event_of js m.payload [] ++ events_in ms

  -- a message holds at most one event
  pub length-events_in : (ms : List Message) → length (events_in ms) ≤ length ms
  unfolding events_in
  length-events_in [] = omega arith
  length-events_in (m ∷ ms) = omega (
    arith,
    length-append (event_of js m.payload []) (events_in ms),
    length-events_in ms,
    of_payload m.payload,
  )
    where
      of_result : (r : Result ClickEvent) → length (decoded js r []) ≤ 1
      of_result (ok ev) = omega arith
      of_result (err e) = omega arith

      of_payload : (payload : Option Str) → length (event_of js payload []) ≤ 1
      of_payload none = omega arith
      of_payload (some text) = of_result (js.unmarshal text)

  pub events_in-append :
      (xs ys : List Message) → events_in (xs ++ ys) ≡ events_in xs ++ events_in ys
  unfolding events_in
  events_in-append [] ys = refl
  events_in-append (m ∷ xs) ys =
      ap (λ t. event_of js m.payload [] ++ t) (events_in-append xs ys)
      ∙ sym (append_assoc (event_of js m.payload []) (events_in xs) (events_in ys))

  decoded_append :
      (r : Result ClickEvent) (events : List ClickEvent)
      → decoded js r events ≡ events ++ decoded js r []
  decoded_append (ok ev) events = refl
  decoded_append (err e) events = sym (append-nil events)

  event_of_append :
      (payload : Option Str) (events : List ClickEvent)
      → event_of js payload events ≡ events ++ event_of js payload []
  event_of_append none events = sym (append-nil events)
  event_of_append (some text) events = decoded_append (js.unmarshal text) events

  scan_messages_lem :
      (ms : List Message) (events : List ClickEvent) (ids : List Str)
      → scan_messages js ms events ids ≡ (events ++ events_in ms, ids ++ map message_id ms)
  unfolding scan_messages events_in
  scan_messages_lem [] events ids = rw (append-nil events, append-nil ids)
  scan_messages_lem (m ∷ ms) events ids =
      scan_messages_lem ms (event_of js m.payload events) (ids ++ m.id ∷ [])
      ∙ rw (
        event_of_append m.payload events,
        append_assoc events (event_of js m.payload []) (events_in ms),
        append_assoc ids (m.id ∷ []) (map message_id ms),
      )

  scan_streams_lem :
      (streams : List (List Message)) (events : List ClickEvent) (ids : List Str)
      → scan_streams js streams events ids
        ≡ (events ++ events_in (concat streams), ids ++ map message_id (concat streams))
  unfolding scan_streams events_in
  scan_streams_lem [] events ids = rw (append-nil events, append-nil ids)
  scan_streams_lem (ms ∷ streams) events ids = rw (scan_messages_lem ms events ids) (
      scan_streams_lem streams (events ++ events_in ms) (ids ++ map message_id ms)
      ∙ simp (events_in-append, map-append, append_assoc))

  -- The batch has all events of the reply that can be decoded, and the identifiers of all messages.
  pub batch_of_lem :
      (found : Option (List (List Message)))
      → batch_of js (ok found) ≡ ok (events_in (replied found), map message_id (replied found))
  unfolding batch_of events_in
  batch_of_lem none = refl
  batch_of_lem (some streams) = ap ok (scan_streams_lem streams [] [])
