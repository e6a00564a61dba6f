-- ===== src/UrlService/Persist.antt =====
-- What `ShortenURL` leaves in the table.
use nanolink.Prelude.{
  ℕ, ◌≤◌, ◌≡◌, refl, sym, ap, ◌∙◌, inl, inr, true, Option, none, some, Str, length, str_eq,
  str_eq_sound, str_eq_refl, Bool-cases, if◌then◌else◌,
}
use nanolink.Prelude.Result.{Result, ok, err}
use nanolink.Models.{Url}
use nanolink.Storage.Postgres.{Postgres, Row, PostgresLaws, row_of, create_url, with_id}

module _ (pg : Postgres) (pgl : PostgresLaws pg) where
  open pgl use {rows, stored}

  -- A row for the code with this URL, not deleted.
  pub record Live (db : pg.Db) (code long_url : Str) : Type 0 where
    pub row : Row
    pub found : rows db code ≡ some row
    pub url : row.long_url ≡ long_url
    pub active : row.is_active ≡ true

  -- No row has been changed or removed.
  abbrev pub Extends : pg.Db → pg.Db → Type 0
  Extends db db' = (code : Str) (row : Row) → rows db code ≡ some row → rows db' code ≡ some row

  -- An insertion that succeeds adds the row, under a code of at most ten characters; and with an error
  -- or without, no existing row changes.
  pub record Inserts (db : pg.Db) (url : Url pg.Uuid) (r : pg.Db × Result (Url pg.Uuid))
      : Type 0 where
    pub extends : Extends db r.0
    pub free : (u : Url pg.Uuid) → r.1 ≡ ok u → rows db url.short_code ≡ none
    pub added :
        (u : Url pg.Uuid)
        → r.1 ≡ ok u
        → (length url.short_code ≤ 10) × Live r.0 url.short_code url.long_url

  insert-Extends :
      (db db' : pg.Db) (url : Row) (id : ℕ)
      → rows db url.short_code ≡ none
      → ((code : Str)
          → rows db' code
            ≡ (if str_eq url.short_code code then some (stored id url) else rows db code))
      → Extends db db'
  insert-Extends db db' url id free new = λ code row h.
      elim (Bool-cases (str_eq url.short_code code)) [
        | inr other ↦ new code ∙ rw other h
        | inl same ↦
            let k : url.short_code ≡ code = str_eq_sound url.short_code code same in
            absurd (taken (ap (λ c. rows db c) (sym k) ∙ free) h)
      ]
    where
      taken : {o : Option Row} {row : Row} → o ≡ none → o ≡ some row → ⊥
      taken p q = cc

  insert-Extends-err :
      (db db' : pg.Db) (url : Row) (x : Str) → pg.insert db url ≡ (db', err x) → Extends db db'
  insert-Extends-err db db' url x e = elim (pgl.insert_err db db' url x e) [
    | inl same ↦ λ code row h. same code ∙ h
    | inr (id, fits, free, new) ↦ insert-Extends db db' url id free new
  ]

  insert-Inserts :
      (db : pg.Db) (url : Url pg.Uuid) (r : pg.Db × Result ℕ)
      → pg.insert db (row_of pg url) ≡ r
      → url.is_active ≡ true
      → Inserts db url (r.0, with_id pg url r.1)
  insert-Inserts db url (db', err x) e act = record {
    extends = insert-Extends-err db db' (row_of pg url) x e;
    free = λ u h. absurd (cc);
    added = λ u h. absurd (cc);
  }
  insert-Inserts db url (db', ok id) e act = record {
    extends =
        insert-Extends db db' (row_of pg url) id
          (pgl.insert_ok db db' (row_of pg url) id url.short_code e).1
          (λ code. (pgl.insert_ok db db' (row_of pg url) id code e).2);
    free = λ u h. (pgl.insert_ok db db' (row_of pg url) id url.short_code e).1;
    added = λ u h.
        let (fits, free, new) = pgl.insert_ok db db' (row_of pg url) id url.short_code e in
        let (long, active, user) = pgl.stored_kept id (row_of pg url) in
        (
          fits,
          record {
            row = stored id (row_of pg url);
            found = new ∙ rw (str_eq_refl url.short_code) refl;
            url = long;
            active = active ∙ act;
          },
        );
  }

  pub create_url-Inserts :
      (db : pg.Db) (url : Url pg.Uuid)
      → url.is_active ≡ true
      → Inserts db url (create_url pg db url)
  unfolding create_url
  create_url-Inserts db url act = insert-Inserts db url (pg.insert db (row_of pg url)) refl act
