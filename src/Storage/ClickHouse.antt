-- ===== src/Storage/ClickHouse.antt =====
-- internal/storage/clickhouse/clickhouse.go. ClickHouse and its driver are the parameter `ch`, with one
-- operation for each call of database/sql and the laws of a transaction; `none` is a nil `db`.
pub mod Insert
use mathlib.Core.List.{Sublistᴰ}
use nanolink.Prelude.{ℕ, ◌≡◌, refl, ◌⊎◌, Option, none, some, List, [], ◌∷◌, ◌++◌, Str, codes}
use nanolink.Prelude.Int.{ℤ}
use nanolink.Prelude.Result.{Result, ok, err}
use nanolink.Models.{ClickEvent, UrlStatsResponse}

-- A row of nanolink_analytics.clicks.
pub record ClickRow : Type 0 where
  pub short_code : Str
  pub clicked_at : ℤ
  pub ip_hash : Str
  pub country_code : Str
  pub city : Str
  pub device_type : Str
  pub browser : Str
  pub os : Str
  pub referrer : Str

pub record ClickHouse : Type 1 where
  pub Db : Type 0
  pub Tx : Type 0
  pub begin_tx : Db → Db × Result Tx
  -- the transaction with its prepared INSERT
  pub prepare : Tx → Tx × Result (Unit {0})
  pub exec : Tx → ClickRow → Tx × Result (Unit {0})
  pub commit : Db → Tx → Db × Result (Unit {0})
  pub rollback : Db → Tx → Db
  -- SELECT count() … WHERE short_code = ?
  pub count : Db → Str → Result ℤ

module _ (ch : ClickHouse) where
  open ch use {Db, Tx, begin_tx, prepare, exec, commit, rollback}

  pub record ClickHouseLaws : Type 0 where
    pub rows : Db → List ClickRow
    pub buffered : Tx → List ClickRow
    pub begin_kept : (db : Db) → rows (begin_tx db).0 ≡ rows db
    pub begin_empty : (db : Db) (tx : Tx) → (begin_tx db).1 ≡ ok tx → buffered tx ≡ []
    pub prepare_kept : (tx : Tx) → buffered (prepare tx).0 ≡ buffered tx
    pub exec_ok :
        (tx : Tx) (row : ClickRow) (u : Unit {0})
        → (exec tx row).1 ≡ ok u
        → buffered (exec tx row).0 ≡ buffered tx ++ row ∷ []
    pub commit_ok :
        (db : Db) (tx : Tx) (u : Unit {0})
        → (commit db tx).1 ≡ ok u
        → rows (commit db tx).0 ≡ rows db ++ buffered tx
    -- A commit with an error may have stored any of the rows: the table is partitioned by month, an
    -- insertion is atomic for one partition only, and the answer to one that is made may be lost.
    pub commit_err :
        (db : Db) (tx : Tx) (e : Str)
        → (commit db tx).1 ≡ err e
        → (part : List ClickRow) × Sublistᴰ part (buffered tx)
          × (rows (commit db tx).0 ≡ rows db ++ part)
    pub rollback_kept : (db : Db) (tx : Tx) → rows (rollback db tx) ≡ rows db

-- the arguments of ExecContext
abbrev pub click_row : ClickEvent → ClickRow
click_row ev = record {
  short_code = ev.short_code;
  clicked_at = ev.clicked_at;
  ip_hash = ev.ip_hash;
  country_code = ev.country_code;
  city = codes "Unknown";
  device_type = ev.device_type;
  browser = ev.browser;
  os = ev.os;
  referrer = ev.referrer;
}

module _ (ch : ClickHouse) where
  open ch use {Db, Tx, begin_tx, prepare, exec, commit, rollback, count}

  -- the loop over the events; an error ends it
  unfoldable pub exec_all : Tx → List ClickEvent → Tx × Result (Unit {0})
  exec_all tx [] = (tx, ok tt)
  exec_all tx (ev ∷ events) =
      let r = exec tx (click_row ev) in
      elim r.1 [ err e ↦ (r.0, err e) | ok u ↦ exec_all r.0 events ]

  -- what follows the loop: Commit, or the deferred Rollback
  abbrev pub finish : Db → Tx × Result (Unit {0}) → Db × Result (Unit {0})
  finish db (tx, err e) = (rollback db tx, err e)
  finish db (tx, ok u) = commit db tx

  abbrev pub run_prepared : Db → List ClickEvent → Tx × Result (Unit {0}) → Db × Result (Unit {0})
  run_prepared db events (tx, err e) = (rollback db tx, err e)
  run_prepared db events (tx, ok u) = finish db (exec_all tx events)

  abbrev pub run_tx : List ClickEvent → Db × Result Tx → Db × Result (Unit {0})
  run_tx events (db, err e) = (db, err e)
  run_tx events (db, ok tx) = run_prepared db events (prepare tx)

  unfoldable pub insert_click_batch : Option Db → List ClickEvent → Option Db × Result (Unit {0})
  unfolding exec_all
  insert_click_batch none events = (none, ok tt)
  insert_click_batch (some db) [] = (some db, ok tt)
  insert_click_batch (some db) (ev ∷ events) =
      let r = run_tx (ev ∷ events) (begin_tx db) in (some r.0, r.1)

  -- the maps that the response holds, and no other field but the code
  abbrev pub stats_with : Str → List (Str × ℤ) → UrlStatsResponse
  stats_with short_code clicks_by_country = record {
    short_code = short_code;
    long_url = [];
    total_clicks = ℤ.pos 0;
    created_at = none;
    clicks_by_country = some clicks_by_country;
    clicks_by_device = some [];
    clicks_by_referrer = some [];
    hourly_clicks = some [];
  }

  abbrev pub counted_stats : Str → Result ℤ → Result UrlStatsResponse
  counted_stats short_code (err e) = err e
  counted_stats short_code (ok total) = ok (stats_with short_code ((codes "total", total) ∷ []))

  unfoldable pub get_stats_by_short_code : Option Db → Str → Result UrlStatsResponse
  get_stats_by_short_code none short_code = ok (stats_with short_code [])
  get_stats_by_short_code (some db) short_code = counted_stats short_code (count db short_code)
