-- ===== src/Storage/Postgres.antt =====
-- internal/storage/postgres/url_repo.go. PostgreSQL, its driver and google/uuid are the parameter
-- `pg`: one operation for each statement of the repository, and the laws that the SQL of the
-- statements and the schema (migrations/001_postgres_schema.sql) promise.
use nanolink.Prelude.{
  ℕ, ◌≤◌, ◌≡◌, ◌⊎◌, Bool, false, Option, none, some, List, [], ◌∷◌, Str, str_eq, length,
  if◌then◌else◌,
}
use nanolink.Prelude.Int.{ℤ}
use nanolink.Prelude.Result.{Result, ok, err}
use nanolink.Models.{Url}

-- The columns of a row of `urls`, as the driver scans them; a user is its text, or NULL.
pub record Row : Type 0 where
  pub id : ℕ
  pub short_code : Str
  pub long_url : Str
  pub custom_alias : Bool
  pub user_id : Option Str
  pub created_at : ℤ
  pub expires_at : Option ℤ
  pub click_count : ℤ
  pub is_active : Bool

pub record Postgres : Type 1 where
  pub Uuid : Type 0
  -- uuid.Parse, and the text of an identifier
  pub parse : Str → Option Uuid
  pub show : Uuid → Str
  -- the zero value of uuid.UUID
  pub nil_uuid : Uuid
  pub Db : Type 0
  -- INSERT INTO urls … RETURNING id; the row's own id is not sent
  pub insert : Db → Row → Db × Result ℕ
  -- SELECT … WHERE short_code = $1 AND is_active = TRUE; `none` is sql.ErrNoRows
  pub select_active : Db → Str → Result (Option Row)
  -- UPDATE urls SET click_count = click_count + 1 WHERE short_code = $1
  pub increment : Db → Str → Db × Result (Unit {0})
  -- UPDATE urls SET is_active = FALSE WHERE short_code = $1
  pub deactivate : Db → Str → Db × Result (Unit {0})
  -- … AND user_id = $2
  pub deactivate_owned : Db → Str → Str → Db × Result (Unit {0})
  -- SELECT … WHERE user_id = $1 AND is_active = TRUE ORDER BY created_at DESC LIMIT $2 OFFSET $3
  -- each row, or the error of its Scan
  pub select_by_user : Db → Str → ℤ → ℤ → Result (List (Result Row))

-- A row that an update has marked as deleted.
abbrev pub inactive : Row → Row
inactive r = record r { is_active = false }

-- There is a row, and it is marked as deleted.
abbrev pub IsDeleted : Option Row → Type 0
IsDeleted o = (row : Row) × (o ≡ some row) × (row.is_active ≡ false)

-- `user_id = $2`, which NULL never meets
abbrev pub owned_by : Option Str → Str → Bool
owned_by none u = false
owned_by (some v) u = str_eq v u

abbrev pub update_owned : Str → Option Row → Option Row
update_owned u none = none
update_owned u (some r) = if owned_by r.user_id u then some (inactive r) else some r

abbrev pub update_row : (Row → Row) → Option Row → Option Row
update_row f none = none
update_row f (some r) = some (f r)

abbrev pub active_only : Option Row → Option Row
active_only none = none
active_only (some r) = if r.is_active then some r else none

module _ (pg : Postgres) where
  open pg use {Db, insert, select_active, deactivate, deactivate_owned, increment}

  -- What the program relies on. `rows` is the table as the unique index on short_code shows it.
  pub record PostgresLaws : Type 0 where
    pub rows : Db → Str → Option Row
    -- the row of an insertion: the columns sent, the new id, timestamps as the column type keeps them
    pub stored : ℕ → Row → Row
    pub stored_kept :
        (id : ℕ) (r : Row)
        → ((stored id r).long_url ≡ r.long_url)
          × ((stored id r).is_active ≡ r.is_active)
          × ((stored id r).user_id ≡ r.user_id)
    -- VARCHAR(10), the unique index, and nothing but the new row changes
    pub insert_ok :
        (db db' : Db) (r : Row) (id : ℕ) (code : Str)
        → insert db r ≡ (db', ok id)
        → (length r.short_code ≤ 10)
          × (rows db r.short_code ≡ none)
          × (rows db' code
              ≡ (if str_eq r.short_code code then some (stored id r) else rows db code))
    -- an insertion with an error has changed nothing, or has been made and its answer is lost
    pub insert_err :
        (db db' : Db) (r : Row) (e : Str)
        → insert db r ≡ (db', err e)
        → ((code : Str) → rows db' code ≡ rows db code)
          ⊎ ((id : ℕ) × (length r.short_code ≤ 10)
              × (rows db r.short_code ≡ none)
              × ((code : Str)
                  → rows db' code
                    ≡ (if str_eq r.short_code code then some (stored id r) else rows db code)))
    pub select_ok :
        (db : Db) (code : Str) (found : Option Row)
        → select_active db code ≡ ok found
        → found ≡ active_only (rows db code)
    pub deactivate_ok :
        (db db' : Db) (code j : Str) (u : Unit {0})
        → deactivate db code ≡ (db', ok u)
        → rows db' j ≡ (if str_eq code j then update_row inactive (rows db j) else rows db j)
    pub deactivate_owned_ok :
        (db db' : Db) (code user j : Str) (u : Unit {0})
        → deactivate_owned db code user ≡ (db', ok u)
        → rows db' j ≡ (if str_eq code j then update_owned user (rows db j) else rows db j)
    -- an UPDATE, with an error or without, keeps every row and its URL
    pub deactivate_kept :
        (db : Db) (code j : Str) (row : Row)
        → rows db j ≡ some row
        → (row' : Row) × (rows (deactivate db code).0 j ≡ some row')
          × (row'.long_url ≡ row.long_url)
    pub deactivate_owned_kept :
        (db : Db) (code user j : Str) (row : Row)
        → rows db j ≡ some row
        → (row' : Row) × (rows (deactivate_owned db code user).0 j ≡ some row')
          × (row'.long_url ≡ row.long_url)
    pub increment_kept :
        (db : Db) (code j : Str) (row : Row)
        → rows db j ≡ some row
        → (row' : Row) × (rows (increment db code).0 j ≡ some row') × (row'.long_url ≡ row.long_url)
    -- and none makes a row active again
    pub deactivate_deleted :
        (db : Db) (code j : Str) → IsDeleted (rows db j) → IsDeleted (rows (deactivate db code).0 j)
    pub deactivate_owned_deleted :
        (db : Db) (code user j : Str)
        → IsDeleted (rows db j)
        → IsDeleted (rows (deactivate_owned db code user).0 j)
    pub increment_deleted :
        (db : Db) (code j : Str) → IsDeleted (rows db j) → IsDeleted (rows (increment db code).0 j)

module _ (pg : Postgres) where
  open pg use {
    Uuid, parse, show, nil_uuid, Db, insert, select_active, deactivate, deactivate_owned, increment,
    select_by_user,
  }

  abbrev pub show_user : Option Uuid → Option Str
  show_user none = none
  show_user (some u) = some (show u)

  -- the arguments $1 to $8 of `CreateURL`
  abbrev pub row_of : Url Uuid → Row
  row_of url = record {
    id = 0;
    short_code = url.short_code;
    long_url = url.long_url;
    custom_alias = url.custom_alias;
    user_id = show_user url.user_id;
    created_at = url.created_at;
    expires_at = url.expires_at;
    click_count = url.click_count;
    is_active = url.is_active;
  }

  -- the object with its new id, or the error
  abbrev pub with_id : Url Uuid → Result ℕ → Result (Url Uuid)
  with_id url (ok id) = ok (record url { id = id })
  with_id url (err e) = err e

  unfoldable pub create_url : Db → Url Uuid → Db × Result (Url Uuid)
  create_url db url = let r = insert db (row_of url) in (r.0, with_id url r.1)

  -- `if userID.Valid { … }`: a user that does not parse is left nil
  abbrev pub parse_user : Option Str → Option Uuid
  parse_user none = none
  parse_user (some s) = parse s

  abbrev pub url_of : Row → Url Uuid
  url_of r = record {
    id = r.id;
    short_code = r.short_code;
    long_url = r.long_url;
    custom_alias = r.custom_alias;
    user_id = parse_user r.user_id;
    created_at = r.created_at;
    expires_at = r.expires_at;
    click_count = r.click_count;
    is_active = r.is_active;
  }

  abbrev pub scanned : Result (Option Row) → Result (Option (Url Uuid))
  scanned (err e) = err e
  scanned (ok none) = ok none
  scanned (ok (some r)) = ok (some (url_of r))

  unfoldable pub get_by_short_code : Db → Str → Result (Option (Url Uuid))
  get_by_short_code db code = scanned (select_active db code)

  unfoldable pub increment_click_count : Db → Str → Db × Result (Unit {0})
  increment_click_count db code = increment db code

  unfoldable pub delete_url : Db → Str → Option Uuid → Db × Result (Unit {0})
  delete_url db code none = deactivate db code
  delete_url db code (some u) = deactivate_owned db code (show u)

  -- `u, _ := uuid.Parse(uid.String)`: a user that does not parse is the zero identifier here
  abbrev pub listed_user : Option Str → Option Uuid
  listed_user none = none
  listed_user (some s) = elim (parse s) [ none ↦ some nil_uuid | some u ↦ some u ]

  -- `for rows.Next() { … }`: the first row that cannot be scanned ends it with its error
  unfoldable pub scan_all : List (Result Row) → Result (List (Url Uuid))
  scan_all [] = ok []
  scan_all (err e ∷ rows) = err e
  scan_all (ok r ∷ rows) = elim (scan_all rows) [
    | err e ↦ err e
    | ok urls ↦ ok (record (url_of r) { user_id = listed_user r.user_id } ∷ urls)
  ]

  abbrev pub scanned_all : Result (List (Result Row)) → Result (List (Url Uuid))
  scanned_all (err e) = err e
  scanned_all (ok rows) = scan_all rows

  unfoldable pub list_urls_by_user : Db → Uuid → ℤ → ℤ → Result (List (Url Uuid))
  unfolding scan_all
  list_urls_by_user db user limit offset = scanned_all (select_by_user db (show user) limit offset)
