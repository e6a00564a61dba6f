-- ===== src/Worker/Fleet/Once.antt =====
-- Several workers store no click twice: internal/worker/analytics_worker.go.
use mathlib.Core.Path.{subst}
use mathlib.Core.List.{append_assoc}
use nanolink.Prelude.{
  count, count-append, count-sublist, ℕ, ◌+◌, ◌-◌, ◌≤◌, ◌≡◌, refl, sym, ap, ◌∙◌, inl, inr, Bool,
  arith, List, [], ◌∷◌, ◌++◌, Str, map, take, drop, take-add, take-append_le,
}
use nanolink.Prelude.Int.{ℤ}
use nanolink.Prelude.Result.{Result, ok, err, Result-cases}
use nanolink.Models.{ClickEvent}
use nanolink.Storage.Stream.{
  Streams, StreamLaws, Json, click_stream_key, click_consumer_group, batch_of, add_marshalled,
  publish_click_event, read_click_events_batch, ack_click_events,
}
use nanolink.Storage.Stream.Batch.{events_in, batch_of_lem}
use nanolink.Storage.ClickHouse.{
  ClickHouse, ClickHouseLaws, ClickRow, click_row, insert_click_batch,
}
use nanolink.Worker.Batch.{table_of, inserted, ack_click_events-Same}
use nanolink.Worker.Ingest.{rows_in, rows_in-append}
use nanolink.Worker.Fleet.{
  Fleet, Move, reads, read_fails, inserts, acknowledges, drops, publishes, Moves, here, next,
}

-- the rows of the batches in hand
abbrev in_hand : (ClickRow → Bool) → List (List ClickEvent × List Str) → ℕ
in_hand p [] = 0
in_hand p ((events, ids) ∷ held) = in_hand p held + count p (map click_row events)

in_hand-split :
    (p : ClickRow → Bool) (before after : List (List ClickEvent × List Str))
    (events : List ClickEvent) (ids : List Str)
    → in_hand p (before ++ (events, ids) ∷ after)
      ≡ in_hand p (before ++ after) + count p (map click_row events)
in_hand-split p [] after events ids = refl
in_hand-split p ((x, y) ∷ before) after events ids =
    omega (arith, in_hand-split p before after events ids)

module _ (st : Streams) (js : Json) (ch : ClickHouse) (stl : StreamLaws st)
    (chl : ClickHouseLaws ch) where
  open st use {Log, xread_group}
  open stl use {entries, delivered, delivered_le}

  -- the delivered clicks whose rows pass a test
  abbrev pub delivered_rows : (ClickRow → Bool) → Log → ℕ
  delivered_rows p log = count p (rows_in st js ch stl chl (take (delivered log) (entries log)))

  -- Behind the rows of `base`, the table and the batches in hand have no row more often than the
  -- delivered clicks have it.
  pub record IsOnce (base : List ClickRow) (s : Fleet st js ch) : Type 0 where
    pub added : List ClickRow
    pub table : table_of st js ch stl chl s.stores.click_house ≡ base ++ added
    pub few :
        (p : ClickRow → Bool) → count p added + in_hand p s.held ≤ delivered_rows p s.stores.log

  delivered_rows-add :
      (p : ClickRow → Bool) (log log' : Log) (k : ℕ)
      → entries log' ≡ entries log
      → delivered log' ≡ delivered log + k
      → delivered_rows p log'
        ≡ delivered_rows p log
          + count p (rows_in st js ch stl chl (take k (drop (delivered log) (entries log))))
  delivered_rows-add p log log' k same more =
      rw (same, more)
        (ap (λ ms. count p (rows_in st js ch stl chl ms)) (take-add (delivered log) k (entries log))
          ∙ ap (count p) (rows_in-append st js ch stl chl _ _)
          ∙ count-append p _ _)

  delivered_rows-le :
      (p : ClickRow → Bool) (log log' : Log)
      → entries log' ≡ entries log
      → delivered log ≤ delivered log'
      → delivered_rows p log ≤ delivered_rows p log'
  delivered_rows-le p log log' same le =
      omega
        (arith, delivered_rows-add p log log' (delivered log' - delivered log) same (omega arith))

  publish_rows :
      (p : ClickRow → Bool) (log : Log) (r : Result Str)
      → delivered_rows p (add_marshalled st js log r).0 ≡ delivered_rows p log
  publish_rows p log (err e) = refl
  publish_rows p log (ok text) =
      let same = (stl.xadd_group log text).0 in
      elim (stl.xadd_entries log text) [
        | inl kept ↦ rw (same, kept) refl
        | inr (id, more) ↦
            rw (same, more, take-append_le (delivered log) (entries log) _ (delivered_le log)) refl
      ]

  read_rows :
      (p : ClickRow → Bool) (log : Log) (consumer : Str) (size : ℤ) (events : List ClickEvent)
      (ids : List Str)
      → (read_click_events_batch st js log consumer size).1 ≡ ok (events, ids)
      → delivered_rows p (read_click_events_batch st js log consumer size).0
        ≡ delivered_rows p log + count p (map click_row events)
  unfolding read_click_events_batch batch_of
  read_rows p log consumer size events ids got =
      let r = xread_group log click_stream_key click_consumer_group consumer size in
      elim (Result-cases r.1) [
        | inr (e, failed) ↦ absurd (cc (rw (failed, batch_of) at got))
        | inl (found, answered) ↦
            let (grouped, (k, ms, bound, more)) = stl.xread_ok log consumer size found answered in
            let same : events_in js (take k (drop (delivered log) (entries log))) ≡ events =
              cc (rw (answered, batch_of_lem js found, ms) at got) in
            rw (← same) (delivered_rows-add p log r.0 k (stl.xread_kept log consumer size).0 more)
      ]

  read_rows_le :
      (p : ClickRow → Bool) (log : Log) (consumer : Str) (size : ℤ)
      → delivered_rows p log ≤ delivered_rows p (read_click_events_batch st js log consumer size).0
  unfolding read_click_events_batch batch_of
  read_rows_le p log consumer size =
      let k = stl.xread_kept log consumer size in delivered_rows-le p log _ (k.0) (k.2)

  acknowledged_rows :
      (p : ClickRow → Bool) (log : Log) (ids : List Str)
      → delivered_rows p (ack_click_events st js log ids).0 ≡ delivered_rows p log
  acknowledged_rows p log ids =
      let same = ack_click_events-Same st js ch stl chl log ids in
      rw (same.entries_same, same.delivered_same) refl

  insert-IsOnce :
      (base : List ClickRow) (s : Fleet st js ch) (before after : List (List ClickEvent × List Str))
      (events : List ClickEvent) (ids : List Str) (u : Fleet st js ch)
      → IsOnce base s
      → s.held ≡ before ++ (events, ids) ∷ after
      → u.stores.click_house ≡ (insert_click_batch ch s.stores.click_house events).0
      → u.stores.log ≡ s.stores.log
      → u.held ≡ before ++ after
      → IsOnce base u
  insert-IsOnce base s before after events ids u o at table log held =
      let (part, some_of, all) = inserted st js ch stl chl s.stores.click_house events in
      record {
        added = o.added ++ part;
        table = rw table (all ∙ ap (λ l. l ++ part) o.table ∙ append_assoc base o.added part);
        few = λ p.
            rw (log, held)
              (omega (
                arith,
                count-append p o.added part,
                count-sublist p some_of,
                o.few p,
                ap (in_hand p) at,
                in_hand-split p before after events ids,
              ));
      }

  Move-IsOnce :
      (base : List ClickRow) {s u : Fleet st js ch}
      → Move st js ch s u
      → IsOnce base s
      → IsOnce base u
  unfolding publish_click_event
  Move-IsOnce base {s = s} (reads consumer size events ids got u) o =
      subst (IsOnce base) (sym u) (record {
        added = o.added;
        table = o.table;
        few = λ p. omega (arith, o.few p, read_rows p s.stores.log consumer size events ids got);
      })
  Move-IsOnce base {s = s} (read_fails consumer size e got u) o =
      subst (IsOnce base) (sym u) (record {
        added = o.added;
        table = o.table;
        few = λ p. omega (arith, o.few p, read_rows_le p s.stores.log consumer size);
      })
  Move-IsOnce base {s = s} (inserts before after events ids at u) o =
      subst (IsOnce base) (sym u)
        (insert-IsOnce base s before after events ids _ o at refl refl refl)
  Move-IsOnce base {s = s} (acknowledges before after ids at u) o =
      subst (IsOnce base) (sym u) (record {
        added = o.added;
        table = o.table;
        few = λ p. omega (arith, o.few p, acknowledged_rows p s.stores.log ids);
      })
  Move-IsOnce base {s = s} (drops before after events ids at u) o =
      subst (IsOnce base) (sym u) (record {
        added = o.added;
        table = o.table;
        few =
            λ p. omega (arith, o.few p, ap (in_hand p) at, in_hand-split p before after events ids);
      })
  Move-IsOnce base {s = s} (publishes event u) o = subst (IsOnce base) (sym u) (record {
    added = o.added;
    table = o.table;
    few = λ p. omega (arith, o.few p, publish_rows p s.stores.log (js.marshal event));
  })

  -- However the commands of any number of workers of the group are interleaved, and whichever of them
  -- fail or end in between, the clicks are stored at most once: behind the rows of `base`, the rows
  -- that pass a test and those that pass it in the batches still in hand are together at most as many
  -- as the clicks that pass it among those that the stream has delivered to the group.
  pub Moves-IsOnce :
      (base : List ClickRow) {s u : Fleet st js ch}
      → Moves st js ch s u
      → IsOnce base s
      → IsOnce base u
  Moves-IsOnce base here o = o
  Moves-IsOnce base (next ms m) o = Move-IsOnce base m (Moves-IsOnce base ms o)
