-- ===== src/Process/Clicks.antt =====
-- The way of each click from the goroutine that a redirect starts to a row of ClickHouse, in the program
-- of cmd/server/main.go.
use mathlib.Core.Path.{subst}
use mathlib.Core.List.{append-nil, append_assoc}
use nanolink.Prelude.{
  count, count-append, count-sublist, drop, some, Bool, map, take-append-drop, not, ◌||◌, ℕ, ◌+◌,
  ◌≤◌, ◌≡◌, refl, sym, ap, ◌∙◌, inl, inr, arith, Option, List, [], ◌∷◌, ◌++◌, Str, length, take,
  Bool-cases, length-append,
}
use nanolink.Prelude.Float.{Floats}
use nanolink.Prelude.Result.{Result, ok, err}
use nanolink.Models.{ClickEvent}
use nanolink.Storage.Stream.{Streams, StreamLaws, Json, publish_click_event}
use nanolink.Storage.ClickHouse.{ClickHouseLaws, ClickRow, click_row}
use nanolink.RateLimit.Service.{Eval}
use nanolink.Worker.{AnalyticsWorker, Stores}
use nanolink.Api.Messages.{count_click, publish_click}
use nanolink.Api.Handlers.{Site}
use nanolink.Api.Router.{endpoint_for, handle}
use nanolink.Worker.Ingest.{IsFaithful, rows_in, rows_in-append}
use nanolink.Api.Router.Handled.{dispatch-Holds}
use nanolink.Api.Handling.{follow-Holds}
use nanolink.Api.Messages.{Request, Response, Task}
use nanolink.Api.Handlers.{Server, User}
use nanolink.Api.Router.{Front}
use nanolink.Process.{Process, Event, served, counted, published, flushed, Events, start, later}
use nanolink.Api.Router.Launches.{clicks, clicks-append, count_redirects, dispatch-clicks}
use nanolink.Storage.Stream.{Message, add_marshalled, read_click_events_batch}
use nanolink.Worker.{flush, process_batch}
use nanolink.Worker.Batch.{flush-Flushed}
use nanolink.Process.Sent.{
  to_publish, to_publish-append, length-to_publish, drop-append, sent, one_entry, sent_rows,
  sent_rows-append, launched_rows,
}

module _ (site : Site) (fl : Floats) (st : Streams) (js : Json) (worker : AnalyticsWorker)
    (stl : StreamLaws st) (chl : ClickHouseLaws site.ch) where
  open site use {env, ch}
  open stl use {entries, delivered}

  abbrev P : Type 0
  P = Process site fl st js worker

  flush-entries :
      (s : Stores st js ch) (r : Result (List ClickEvent × List Str))
      → entries (flush st js ch s r).log ≡ entries s.log
  unfolding flush
  flush-entries s (err e) = refl
  flush-entries s (ok ([], ids)) = refl
  flush-entries s (ok (ev ∷ events, ids)) =
      (flush-Flushed st js ch stl chl s (ev ∷ events) ids).log_same.entries_same

  process_batch-entries :
      (s : Stores st js ch) → entries (process_batch st js ch worker s).log ≡ entries s.log
  unfolding process_batch read_click_events_batch
  process_batch-entries s =
      elim (Bool-cases (not worker.redis_client || not worker.click_house_client)) [
        | inl missing ↦ rw missing refl
        | inr both ↦ rw both (
            flush-entries
              (record s {
                log = (read_click_events_batch st js s.log worker.consumer_id worker.batch_size).0;
              })
              (read_click_events_batch st js s.log worker.consumer_id worker.batch_size).1
            ∙ (stl.xread_kept s.log worker.consumer_id worker.batch_size).0)
      ]

  -- the rows of the entries of the stream that pass a test
  abbrev pub stream_rows : (ClickRow → Bool) → st.Log → ℕ
  stream_rows test log = count test (rows_in st js ch stl chl (entries log))

  publish-stream_rows :
      (test : ClickRow → Bool) (log : st.Log) (r : Result Str)
      → stream_rows test (add_marshalled st js log r).0
        ≤ stream_rows test log + count test (map click_row (sent js r))
  publish-stream_rows test log (err e) = omega arith
  publish-stream_rows test log (ok text) = elim (stl.xadd_entries log text) [
    | inl same ↦ rw same (omega arith)
    | inr (id, more) ↦
        let m : Message = record { id = id; payload = some text } in
        rw more (
          omega (
            arith,
            ap (count test) (rows_in-append st js ch stl chl (entries log) (m ∷ [])),
            count-append test (rows_in st js ch stl chl (entries log))
                (rows_in st js ch stl chl (m ∷ [])),
            ap (λ l. count test (map click_row l)) (one_entry js m),
          ))
  ]

  -- The rows on their way: those of the clicks that goroutines have yet to publish, and of the stream.
  abbrev pub pending : (ClickRow → Bool) → P → ℕ
  pending test p =
      stream_rows test p.stores.log + sent_rows js test (to_publish p.front.server.launched)

  -- The clicks whose goroutines an event starts.
  abbrev pub started_by : {p q : P} → Event site fl st js worker p q → List ClickEvent
  started_by {p = p} (served eval method path req f r e q) =
      to_publish (drop (length p.front.server.launched) f.server.launched)
  started_by (counted before after code w u at ran q) = []
  started_by (published before after event at q) = []
  started_by (flushed q) = []

  abbrev pub started : {p q : P} → Events site fl st js worker p q → List ClickEvent
  started start = []
  started (later r e) = started r ++ started_by e

  abbrev Launches : Server site → Server site → Type 0
  Launches s s' = (more : List Task) × (s'.launched ≡ s.launched ++ more)

  handle-Launches :
      (eval : Option (Eval fl)) (method : Str) (path : List Str) (req : Request)
      (f f' : Front site fl) (r : Response (User site))
      → handle site fl eval method path req f ≡ some (f', r)
      → Launches f.server f'.server
  unfolding handle
  handle-Launches eval method path req f f' r e =
      dispatch-Holds site fl eval Launches none_more (λ s t u a b. joined s t u a b)
        (λ s w c. none_more s) (endpoint_for method path) req f f' r
        (λ code q.
          follow-Holds site Launches none_more (λ s t u a b. joined s t u a b)
            (λ s w c. none_more s) (λ s task. (task ∷ [], refl)) (record req { code = code }))
        e
    where
      none_more : (s : Server site) → Launches s s
      none_more s = ([], sym (append-nil s.launched))

      joined : (s t u : Server site) → Launches s t → Launches t u → Launches s u
      joined s t u (a, p) (b, q) = (a ++ b, q ∙ ap (λ l. l ++ b) p ∙ append_assoc s.launched a b)

  -- The goroutines that a request starts, and at most one of a click, for a redirect.
  served-launched :
      (p f : Front site fl)
      → Launches p.server f.server
      → f.server.launched ≡ p.server.launched ++ drop (length p.server.launched) f.server.launched
  served-launched p f (more, at) =
      at
      ∙ ap (λ l. p.server.launched ++ l)
          (sym (ap (drop (length p.server.launched)) at ∙ drop-append p.server.launched more))

  Event-pending :
      (test : ClickRow → Bool) {p q : P} (e : Event site fl st js worker p q)
      → pending test q ≤ pending test p + sent_rows js test (started_by e)
  unfolding publish_click_event
  Event-pending test {p = p} (served eval method path req f r e q) =
      subst
        (λ (x : P).
          pending test x
          ≤ pending test p
            + sent_rows js test
                (to_publish (drop (length p.front.server.launched) f.server.launched)))
        (sym q)
        (omega (
          arith,
          ap (λ l. sent_rows js test (to_publish l))
              (served-launched p.front f (handle-Launches eval method path req p.front f r e)),
          ap (sent_rows js test) (
              to_publish-append p.front.server.launched
                (drop (length p.front.server.launched) f.server.launched)),
          sent_rows-append js test (to_publish p.front.server.launched)
              (to_publish (drop (length p.front.server.launched) f.server.launched)),
        ))
  Event-pending test {p = p} (counted before after code w u at ran q) =
      subst (λ (x : P). pending test x ≤ pending test p + 0) (sym q)
        (omega (
          arith,
          launched_rows js test before after (count_click code),
          ap (λ l. sent_rows js test (to_publish l)) at,
        ))
  Event-pending test {p = p} (published before after event at q) =
      subst (λ (x : P). pending test x ≤ pending test p + 0) (sym q)
        (omega (
          arith,
          launched_rows js test before after (publish_click event),
          ap (λ l. sent_rows js test (to_publish l)) at,
          publish-stream_rows test p.stores.log (js.marshal event),
        ))
  Event-pending test {p = p} (flushed q) =
      subst (λ (x : P). pending test x ≤ pending test p + 0) (sym q)
        (omega (
          arith,
          ap (λ l. count test (rows_in st js ch stl chl l)) (process_batch-entries p.stores),
        ))

  -- Each row that is on its way at the end was so at the start, or is of a click of the run.
  pub Events-pending :
      (test : ClickRow → Bool) {p q : P} (run : Events site fl st js worker p q)
      → pending test q ≤ pending test p + sent_rows js test (started run)
  Events-pending test start = omega arith
  Events-pending test (later r e) = omega (
    arith,
    Events-pending test r,
    Event-pending test e,
    sent_rows-append js test (started r) (started_by e),
  )

  Event-redirects :
      {p q : P} (e : Event site fl st js worker p q)
      → length (started_by e) + count_redirects p.answers ≤ count_redirects q.answers
  unfolding handle
  Event-redirects {p = p} (served eval method path req f r e q) =
      subst
        (λ (x : P).
          length (to_publish (drop (length p.front.server.launched) f.server.launched))
            + count_redirects p.answers
          ≤ count_redirects x.answers)
        (sym q)
        (omega (
          arith,
          dispatch-clicks site fl eval (endpoint_for method path) req p.front f r e,
          ap clicks
              (served-launched p.front f (handle-Launches eval method path req p.front f r e)),
          clicks-append p.front.server.launched
              (drop (length p.front.server.launched) f.server.launched),
          length-to_publish (drop (length p.front.server.launched) f.server.launched),
        ))
  Event-redirects {p = p} (counted before after code w u at ran q) =
      subst (λ (x : P). 0 + count_redirects p.answers ≤ count_redirects x.answers) (sym q)
        (omega arith)
  Event-redirects {p = p} (published before after event at q) =
      subst (λ (x : P). 0 + count_redirects p.answers ≤ count_redirects x.answers) (sym q)
        (omega arith)
  Event-redirects {p = p} (flushed q) =
      subst (λ (x : P). 0 + count_redirects p.answers ≤ count_redirects x.answers) (sym q)
        (omega arith)

  pub Events-redirects :
      {p q : P} (run : Events site fl st js worker p q)
      → length (started run) + count_redirects p.answers ≤ count_redirects q.answers
  Events-redirects start = omega arith
  Events-redirects (later r e) =
      omega (arith, Events-redirects r, Event-redirects e, length-append (started r) (started_by e))

  -- Behind the rows of `base` the table has no row more often than the entries of the stream.
  pub IsFaithful-stream_rows :
      (test : ClickRow → Bool) (base : List ClickRow) (s : Stores st js ch)
      (f : IsFaithful st js ch stl chl base s)
      → count test f.added ≤ stream_rows test s.log
  IsFaithful-stream_rows test base s f =
      let d = delivered s.log in
      omega (
        arith,
        count-sublist test f.from_stream,
        ap (λ l. count test (rows_in st js ch stl chl l)) (take-append-drop d (entries s.log)),
        ap (count test)
            (rows_in-append st js ch stl chl (take d (entries s.log)) (drop d (entries s.log))),
        count-append test (rows_in st js ch stl chl (take d (entries s.log)))
            (rows_in st js ch stl chl (drop d (entries s.log))),
      )
