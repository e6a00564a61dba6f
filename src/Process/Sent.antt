-- ===== src/Process/Sent.antt =====
-- The clicks that goroutines have yet to publish, and the rows that they come to through JSON.
use mathlib.Core.List.{append-nil}
use nanolink.Prelude.{
  count, drop, Bool, map, ℕ, ◌+◌, ◌≡◌, refl, ap, arith, List, [], ◌∷◌, ◌++◌, Str, length,
}
use nanolink.Prelude.Result.{Result, ok, err}
use nanolink.Models.{ClickEvent}
use nanolink.Storage.Stream.{Json}
use nanolink.Storage.ClickHouse.{ClickRow, click_row}
use nanolink.Api.Messages.{count_click, publish_click}
use nanolink.Api.Messages.{Task}
use nanolink.Api.Router.Launches.{clicks}
use nanolink.Storage.Stream.{decoded, event_of, Message}
use nanolink.Storage.Stream.Batch.{events_in}

-- the clicks of these goroutines
abbrev pub to_publish : List Task → List ClickEvent
to_publish [] = []
to_publish (count_click code ∷ l) = to_publish l
to_publish (publish_click event ∷ l) = event ∷ to_publish l

pub to_publish-append : (l k : List Task) → to_publish (l ++ k) ≡ to_publish l ++ to_publish k
to_publish-append [] k = refl
to_publish-append (count_click code ∷ l) k = to_publish-append l k
to_publish-append (publish_click event ∷ l) k = ap (λ t. event ∷ t) (to_publish-append l k)

pub length-to_publish : (l : List Task) → length (to_publish l) ≡ clicks l
length-to_publish [] = refl
length-to_publish (count_click code ∷ l) = length-to_publish l
length-to_publish (publish_click event ∷ l) = omega (arith, length-to_publish l)

pub drop-append : (l k : List Task) → drop (length l) (l ++ k) ≡ k
drop-append [] k = refl
drop-append (x ∷ l) k = drop-append l k

module _ (js : Json) where
  -- a click as JSON carries it, or nothing where it cannot
  abbrev pub sent : Result Str → List ClickEvent
  sent (err e) = []
  sent (ok text) = decoded js (js.unmarshal text) []

  pub one_entry : (m : Message) → events_in js (m ∷ []) ≡ event_of js m.payload []
  unfolding events_in
  one_entry m = append-nil (event_of js m.payload [])

  -- the rows of these clicks that pass a test
  abbrev pub sent_rows : (ClickRow → Bool) → List ClickEvent → ℕ
  sent_rows test [] = 0
  sent_rows test (event ∷ l) =
      count test (map click_row (sent (js.marshal event))) + sent_rows test l

  pub sent_rows-append :
      (test : ClickRow → Bool) (l k : List ClickEvent)
      → sent_rows test (l ++ k) ≡ sent_rows test l + sent_rows test k
  sent_rows-append test [] k = omega arith
  sent_rows-append test (x ∷ l) k = omega (arith, sent_rows-append test l k)

  pub launched_rows :
      (test : ClickRow → Bool) (before after : List Task) (task : Task)
      → sent_rows test (to_publish (before ++ task ∷ after))
        ≡ sent_rows test (to_publish (before ++ after)) + sent_rows test (to_publish (task ∷ []))
  launched_rows test [] after (count_click code) = omega arith
  launched_rows test [] after (publish_click event) = omega arith
  launched_rows test (count_click code ∷ before) after task =
      omega (arith, launched_rows test before after task)
  launched_rows test (publish_click event ∷ before) after task =
      omega (arith, launched_rows test before after task)
