-- ===== src/Worker/Ingest.antt =====
-- The whole way of a click from the stream to the table, over any run of the worker.
use nanolink.Prelude.{
  Sublistᴰ-join, nothing_listed, ℕ, ◌+◌, ◌-◌, ◌≤◌, ◌≡◌, refl, sym, ap, ◌∙◌, inl, inr, not, ◌||◌,
  List, [], ◌∷◌, ◌++◌, Str, map, Bool-cases, take, drop, take-add, take-append_le, arith,
}
use nanolink.Prelude.Result.{Result, ok, err, Result-cases}
use nanolink.Storage.Stream.{
  Streams, StreamLaws, Json, Message, click_stream_key, click_consumer_group, batch_of,
  publish_click_event, add_marshalled, read_click_events_batch,
}
use nanolink.Storage.Stream.Batch.{events_in, events_in-append, batch_of_lem, message_id}
use nanolink.Storage.ClickHouse.{ClickHouse, ClickHouseLaws, ClickRow, click_row}
use nanolink.Worker.{
  AnalyticsWorker, Stores, flush, process_batch, start, Signal, published, tick, done, stopped,
}
use nanolink.Worker.Batch.{table_of, flush-Flushed}
use mathlib.Core.Path.{subst, subst₂}
use mathlib.Core.List.{Sublistᴰ, append-nil, append_assoc, map-append}

module _ (st : Streams) (js : Json) (ch : ClickHouse) (stl : StreamLaws st)
    (chl : ClickHouseLaws ch) where
  open st use {Log, xread_group}
  open stl use {entries, delivered, has_group, delivered_le}

  -- the rows of the clicks in these messages
  abbrev pub rows_in : List Message → List ClickRow
  rows_in ms = map click_row (events_in js ms)

  pub rows_in-append : (xs ys : List Message) → rows_in (xs ++ ys) ≡ rows_in xs ++ rows_in ys
  rows_in-append xs ys =
      rw (events_in-append js xs ys) (map-append click_row (events_in js xs) (events_in js ys))

  -- Behind the rows of `base`, the table has rows of delivered clicks only, each at most once and in
  -- the order of the stream.
  pub record IsFaithful (base : List ClickRow) (s : Stores st js ch) : Type 0 where
    pub added : List ClickRow
    pub table : table_of st js ch stl chl s.click_house ≡ base ++ added
    pub from_stream :
        Sublistᴰ added (map click_row (events_in js (take (delivered s.log) (entries s.log))))

  take_more :
      (ms : List Message) (d k : ℕ) (added : List ClickRow)
      → Sublistᴰ added (rows_in (take d ms))
      → Sublistᴰ added (rows_in (take (d + k) ms))
  take_more ms d k added s =
      rw (take-add d k ms, rows_in-append (take d ms) (take k (drop d ms)))
        (subst (λ l. Sublistᴰ l (rows_in (take d ms) ++ rows_in (take k (drop d ms))))
          (append-nil added) (Sublistᴰ-join s (nothing_listed (rows_in (take k (drop d ms))))))

  take_all :
      (ms : List Message) (d k : ℕ) (added part : List ClickRow)
      → Sublistᴰ added (rows_in (take d ms))
      → Sublistᴰ part (rows_in (take k (drop d ms)))
      → Sublistᴰ (added ++ part) (rows_in (take (d + k) ms))
  take_all ms d k added part s t =
      rw (take-add d k ms, rows_in-append (take d ms) (take k (drop d ms))) (Sublistᴰ-join s t)

  later :
      (ms ms' : List Message) (d d' : ℕ) (added : List ClickRow)
      → ms' ≡ ms
      → d ≤ d'
      → Sublistᴰ added (rows_in (take d ms))
      → Sublistᴰ added (rows_in (take d' ms'))
  later ms ms' d d' added same more s =
      let e : d + (d' - d) ≡ d' = omega arith in
      subst₂ (λ n l. Sublistᴰ added (rows_in (take n l))) e (sym same)
        (take_more ms d (d' - d) added s)

  -- a flush of the k messages that the read has delivered
  flush-IsFaithful :
      (base : List ClickRow) (s : Stores st js ch) (log1 : Log) (k : ℕ) (ids : List Str)
      → IsFaithful base s
      → entries log1 ≡ entries s.log
      → delivered log1 ≡ delivered s.log + k
      → IsFaithful base (
          flush st js ch
            (record s { log = log1 })
            (ok (events_in js (take k (drop (delivered s.log) (entries s.log))), ids)))
  flush-IsFaithful base s log1 k ids f same more =
      let batch = take k (drop (delivered s.log) (entries s.log)) in
      let s1 : Stores st js ch = record s { log = log1 } in
      let out = flush-Flushed st js ch stl chl s1 (events_in js batch) ids in
      let s2 = flush st js ch s1 (ok (events_in js batch, ids)) in
      let e = out.log_same.entries_same ∙ same in
      let d = out.log_same.delivered_same ∙ more in
      let (part, some_of, table) = out.table in
      record {
        added = f.added ++ part;
        table = table ∙ ap (λ l. l ++ part) f.table ∙ append_assoc base f.added part;
        from_stream =
            subst₂ (λ n l. Sublistᴰ (f.added ++ part) (rows_in (take n l))) (sym d) (sym e)
              (take_all (entries s.log) (delivered s.log) k f.added part f.from_stream some_of);
      }

  flush_failed : (s : Stores st js ch) (e : Str) → flush st js ch s (batch_of js (err e)) ≡ s
  unfolding flush batch_of
  flush_failed s e = refl

  batch-IsFaithful :
      (base : List ClickRow) (w : AnalyticsWorker) (s : Stores st js ch)
      → IsFaithful base s
      → (let r = read_click_events_batch st js s.log w.consumer_id w.batch_size in
          IsFaithful base (flush st js ch (record s { log = r.0 }) r.1))
  unfolding read_click_events_batch
  batch-IsFaithful base w s f =
      let r = xread_group s.log click_stream_key click_consumer_group w.consumer_id w.batch_size in
      let kept = stl.xread_kept s.log w.consumer_id w.batch_size in
      elim (Result-cases r.1) [
        | inr (e, failed) ↦
            rw (failed, flush_failed (record s { log = r.0 }) e)
              (record {
                added = f.added;
                table = f.table;
                from_stream =
                    later (entries s.log) (entries r.0) (delivered s.log) (delivered r.0) f.added
                      (kept.0) (kept.2) f.from_stream;
              })
        | inl (found, got) ↦
            let (grouped, (k, ms, bound, more)) =
              stl.xread_ok s.log w.consumer_id w.batch_size found got in
            rw (got, batch_of_lem js found, ms)
              (flush-IsFaithful base s r.0 k
                (map message_id (take k (drop (delivered s.log) (entries s.log)))) f (kept.0) more)
      ]

  pub process_batch-IsFaithful :
      (base : List ClickRow) (w : AnalyticsWorker) (s : Stores st js ch)
      → IsFaithful base s
      → IsFaithful base (process_batch st js ch w s)
  unfolding process_batch
  process_batch-IsFaithful base w s f =
      elim (Bool-cases (not w.redis_client || not w.click_house_client)) [
        | inl missing ↦ rw missing f
        | inr both ↦ rw both (batch-IsFaithful base w s f)
      ]

  pub publish-IsFaithful :
      (base : List ClickRow) (s : Stores st js ch) (r : Result Str)
      → IsFaithful base s
      → IsFaithful base (record s { log = (add_marshalled st js s.log r).0 })
  publish-IsFaithful base s (err e) f = f
  publish-IsFaithful base s (ok text) f =
      let d : delivered (st.xadd s.log click_stream_key text).0 ≡ delivered s.log =
        (stl.xadd_group s.log text).0 in
      elim (stl.xadd_entries s.log text) [
        | inl same ↦ record {
          added = f.added;
          table = f.table;
          from_stream =
              subst₂ (λ n l. Sublistᴰ f.added (rows_in (take n l))) (sym d) (sym same)
                f.from_stream;
        }
        | inr (id, more) ↦ record {
          added = f.added;
          table = f.table;
          from_stream =
              subst₂ (λ n l. Sublistᴰ f.added (rows_in (take n l))) (sym d) (sym more)
                (rw (take-append_le (delivered s.log) (entries s.log) _ (delivered_le s.log))
                  f.from_stream);
        }
      ]

  -- A run of the worker keeps the invariant that the table has, behind the rows of `base`, only rows
  -- of clicks that the stream has delivered to the group, at most one for each and in the order of
  -- the stream, whatever is published between the batches, and whatever Redis and ClickHouse answer.
  pub start-IsFaithful :
      (base : List ClickRow) (w : AnalyticsWorker) (s : Stores st js ch) (signals : List Signal)
      → IsFaithful base s
      → IsFaithful base (start st js ch w s signals)
  unfolding start publish_click_event
  start-IsFaithful base w s [] f = f
  start-IsFaithful base w s (published ev ∷ signals) f =
      start-IsFaithful base w (record s { log = (publish_click_event st js s.log ev).0 }) signals
        (publish-IsFaithful base s (js.marshal ev) f)
  start-IsFaithful base w s (tick ∷ signals) f =
      start-IsFaithful base w (process_batch st js ch w s) signals
        (process_batch-IsFaithful base w s f)
  start-IsFaithful base w s (done ∷ signals) f = f
  start-IsFaithful base w s (stopped ∷ signals) f = f
