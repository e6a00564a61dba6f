-- ===== src/Storage/ClickHouse/Insert.antt =====
-- InsertClickBatch of internal/storage/clickhouse/clickhouse.go: what a batch leaves in the table.
use nanolink.Prelude.{
  ◌≡◌, refl, sym, ap, ◌∙◌, inl, inr, Str, nothing_listed, Option, none, some, List, [], ◌∷◌, ◌++◌,
  map,
}
use nanolink.Prelude.Result.{Result, ok, err, Result-cases}
use nanolink.Models.{ClickEvent}
use nanolink.Storage.ClickHouse.{
  ClickRow, ClickHouse, ClickHouseLaws, click_row, exec_all, finish, run_prepared, run_tx,
  insert_click_batch,
}
use mathlib.Core.List.{Sublistᴰ, append_assoc, append-nil}

module _ (ch : ClickHouse) (laws : ClickHouseLaws ch) where
  open ch use {Db, Tx, begin_tx, prepare, exec, commit, rollback}
  open laws use {
    rows, buffered, begin_kept, begin_empty, prepare_kept, exec_ok, commit_ok, commit_err,
    rollback_kept,
  }

  -- all of the rows or, after an error, some of them
  abbrev pub Kept : List ClickRow → List ClickRow → Db → Result (Unit {0}) → Type 0
  Kept before added db (ok u) = rows db ≡ before ++ added
  Kept before added db (err e) =
      (part : List ClickRow) × Sublistᴰ part added × (rows db ≡ before ++ part)

  unchanged :
      (before added : List ClickRow) (db : Db) (e : Str)
      → rows db ≡ before
      → Kept before added db (err e)
  unchanged before added db e same = ([], nothing_listed added, same ∙ sym (append-nil before))

  exec_all-buffered :
      (tx : Tx) (events : List ClickEvent) (u : Unit {0})
      → (exec_all ch tx events).1 ≡ ok u
      → buffered (exec_all ch tx events).0 ≡ buffered tx ++ map click_row events
  unfolding exec_all
  exec_all-buffered tx [] u e = sym (append-nil (buffered tx))
  exec_all-buffered tx (ev ∷ events) u e = elim (Result-cases (exec tx (click_row ev)).1) [
    | inr (x, failed) ↦ absurd (cc (rw (failed, exec_all) at e))
    | inl (v, done) ↦
        rw (done, exec_all)
          (exec_all-buffered (exec tx (click_row ev)).0 events u (rw (done, exec_all) at e)
            ∙ ap (λ bs. bs ++ map click_row events) (exec_ok tx (click_row ev) v done)
            ∙ append_assoc (buffered tx) (click_row ev ∷ []) (map click_row events))
  ]

  commit-Kept : (db : Db) (tx : Tx) → Kept (rows db) (buffered tx) (commit db tx).0 (commit db tx).1
  commit-Kept db tx = elim (Result-cases (commit db tx).1) [
    | inr (e, failed) ↦ rw failed (commit_err db tx e failed)
    | inl (u, done) ↦ rw done (commit_ok db tx u done)
  ]

  finish-Kept :
      (db : Db) (tx : Tx) (added : List ClickRow) (r : Result (Unit {0}))
      → ((u : Unit {0}) → r ≡ ok u → buffered tx ≡ added)
      → Kept (rows db) added (finish ch db (tx, r)).0 (finish ch db (tx, r)).1
  finish-Kept db tx added (err e) all =
      unchanged (rows db) added (rollback db tx) e (rollback_kept db tx)
  finish-Kept db tx added (ok u) all = rw (← all u refl) (commit-Kept db tx)

  prepared-Kept :
      (db : Db) (tx : Tx) (events : List ClickEvent) (r : Result (Unit {0}))
      → buffered tx ≡ []
      → Kept
          (rows db)
          (map click_row events)
          (run_prepared ch db events (tx, r)).0
          (run_prepared ch db events (tx, r)).1
  prepared-Kept db tx events (err e) empty =
      unchanged (rows db) (map click_row events) (rollback db tx) e (rollback_kept db tx)
  prepared-Kept db tx events (ok u) empty =
      finish-Kept db (exec_all ch tx events).0 (map click_row events) (exec_all ch tx events).1
        (λ v done. exec_all-buffered tx events v done ∙ ap (λ bs. bs ++ map click_row events) empty)

  tx-Kept :
      (before : List ClickRow) (db : Db) (events : List ClickEvent) (r : Result Tx)
      → rows db ≡ before
      → ((tx : Tx) → r ≡ ok tx → buffered tx ≡ [])
      → Kept before (map click_row events) (run_tx ch events (db, r)).0 (run_tx ch events (db, r)).1
  tx-Kept before db events (err e) kept fresh = unchanged before (map click_row events) db e kept
  tx-Kept before db events (ok tx) kept fresh =
      rw (← kept)
        (prepared-Kept db (prepare tx).0 events (prepare tx).1 (prepare_kept tx ∙ fresh tx refl))

  abbrev pub Inserted : List ClickRow → List ClickRow → Option Db × Result (Unit {0}) → Type 0
  Inserted before added (none, r) = ⊥
  Inserted before added (some db, r) = Kept before added db r

  pub insert_click_batch-Kept :
      (db : Db) (events : List ClickEvent)
      → Inserted (rows db) (map click_row events) (insert_click_batch ch (some db) events)
  unfolding insert_click_batch
  insert_click_batch-Kept db [] = sym (append-nil (rows db))
  insert_click_batch-Kept db (ev ∷ events) =
      tx-Kept (rows db) (begin_tx db).0 (ev ∷ events) (begin_tx db).1 (begin_kept db)
        (begin_empty db)

  finish-rollback :
      (db : Db) (r : Tx × Result (Unit {0})) (e : Str)
      → r.1 ≡ err e
      → finish ch db r ≡ (rollback db r.0, err e)
  finish-rollback db (tx, err x) e h = ap (λ y. (rollback db tx, y)) h
  finish-rollback db (tx, ok u) e h = absurd (cc)

  exec_all_nil : (tx : Tx) → exec_all ch tx [] ≡ (tx, ok tt)
  unfolding exec_all
  exec_all_nil tx = refl

  -- After InsertClickBatch without an error the table has exactly the rows of the events behind those
  -- it had, one for each event and in their order; after an error it has some of them there, none
  -- twice. If the transaction ends before its commit, since an event cannot be added, the table is as
  -- it was, and the error is returned.
  pub insert_click_batch-Inserted :
      (db : Db) (events : List ClickEvent)
      → Inserted (rows db) (map click_row events) (insert_click_batch ch (some db) events)
        × ((tx : Tx) (u : Unit {0}) (e : Str)
            → (begin_tx db).1 ≡ ok tx
            → (prepare tx).1 ≡ ok u
            → (exec_all ch (prepare tx).0 events).1 ≡ err e
            → (db' : Db) × (insert_click_batch ch (some db) events ≡ (some db', err e))
              × (rows db' ≡ rows db))
  unfolding insert_click_batch
  insert_click_batch-Inserted db [] = (
    insert_click_batch-Kept db [],
    λ tx u e b p x.
        let bad : ◌≡◌ {A = Result (Unit {0})} (ok tt) (err e) =
          sym (ap (λ r. r.1) (exec_all_nil (prepare tx).0)) ∙ x in
        absurd (cc),
  )
  insert_click_batch-Inserted db (ev ∷ events) = (
    insert_click_batch-Kept db (ev ∷ events),
    λ tx u e b p x. (
      rollback (begin_tx db).0 (exec_all ch (prepare tx).0 (ev ∷ events)).0,
      rw (b, p)
          (ap (λ (r : Db × Result (Unit {0})). (some r.0, r.1))
            (finish-rollback (begin_tx db).0 (exec_all ch (prepare tx).0 (ev ∷ events)) e x)),
      rollback_kept (begin_tx db).0 (exec_all ch (prepare tx).0 (ev ∷ events)).0 ∙ begin_kept db,
    ),
  )
