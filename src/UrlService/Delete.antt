-- ===== src/UrlService/Delete.antt =====
-- What `DeleteURL` leaves.
use mathlib.Core.Path.{subst₂}
use nanolink.Prelude.{
  ◌≡◌, refl, sym, ap, ◌∙◌, inl, inr, Option, none, some, Str, str_eq, Bool-cases, if◌then◌else◌,
}
use nanolink.Prelude.Int.{ℤ}
use nanolink.Prelude.Result.{Result, ok, err}
use nanolink.Storage.Postgres.{
  Row, PostgresLaws, inactive, owned_by, update_owned, update_row, delete_url,
}
use nanolink.Storage.Redis.{RedisLaws, url_key, invalidate_url}
use nanolink.UrlService.World.{Env, World, on_redis, >>=-ok, on_redis_client, on_redis_nil}
use nanolink.UrlService.Resolve.{after_delete, delete}
use nanolink.UrlService.Cache.{Backed, IsCoherent}

module _ (env : Env) (pgl : PostgresLaws env.pg) (rdl : RedisLaws env.rd) where
  open env use {pg, rd}
  open pgl use {rows}

  -- the row of the deleted code: an anonymous call marks it in any case, a user only a row of theirs
  abbrev pub deleted : Option pg.Uuid → Option Row → Option Row
  deleted none o = update_row inactive o
  deleted (some u) o = update_owned (pg.show u) o

  deleted_keeps :
      (user : Option pg.Uuid) (o : Option Row) (row : Row)
      → o ≡ some row
      → (row' : Row) × (deleted user o ≡ some row') × (row'.long_url ≡ row.long_url)
  deleted_keeps user none row e = absurd (cc)
  deleted_keeps none (some r) row e =
      (inactive r, refl, let p : r ≡ row = cc in ap (λ x. x.long_url) p)
  deleted_keeps (some u) (some r) row e =
      let p : r ≡ row = cc in
      elim (Bool-cases (owned_by r.user_id (pg.show u))) [
        | inl own ↦ (inactive r, rw own refl, ap (λ x. x.long_url) p)
        | inr other ↦ (r, rw other refl, ap (λ x. x.long_url) p)
      ]

  -- What a deletion with the result r leaves.
  pub record Deletes (w w' : World env) (code : Str) (user : Option pg.Uuid) (r : Result (Unit {0}))
      : Type 0 where
    pub filter : w'.filter ≡ w.filter
    pub entries :
        (j v : Str) (x : ℤ) → rdl.entry w'.kv j ≡ some (v, x) → rdl.entry w.kv j ≡ some (v, x)
    pub table :
        (u : Unit {0}) (j : Str)
        → r ≡ ok u
        → rows w'.db j ≡ (if str_eq code j then deleted user (rows w.db j) else rows w.db j)

  delete_url-table :
      (w : World env) (code : Str) (user : Option pg.Uuid) (u : Unit {0}) (j : Str)
      → (delete_url pg w.db code user).1 ≡ ok u
      → rows (delete_url pg w.db code user).0 j
        ≡ (if str_eq code j then deleted user (rows w.db j) else rows w.db j)
  unfolding delete_url
  delete_url-table w code none u j e =
      pgl.deactivate_ok w.db (pg.deactivate w.db code).0 code j u
        (ap (λ x. ((pg.deactivate w.db code).0, x)) e)
  delete_url-table w code (some owner) u j e =
      pgl.deactivate_owned_ok w.db (pg.deactivate_owned w.db code (pg.show owner)).0 code
        (pg.show owner) j u (ap (λ x. ((pg.deactivate_owned w.db code (pg.show owner)).0, x)) e)

  after_delete-Deletes :
      (code : Str) (user : Option pg.Uuid) (w w1 : World env) (r : Result (Unit {0}))
      → Deletes w w1 code user r
      → (w' : World env) × (r' : Result (Unit {0})) × (after_delete env code r w1 ≡ some (w', r'))
        × Deletes w w' code user r'
  unfolding after_delete invalidate_url
  after_delete-Deletes code user w w1 (err e) d = (w1, err e, refl, d)
  after_delete-Deletes code user w w1 (ok u) d = elim (Bool-cases env.has_redis) [
    | inl yes' ↦ (
      record w1 { kv = (rd.del w1.kv (url_key code)).0 },
      ok tt,
      >>=-ok (on_redis env (λ kv. invalidate_url rd kv code)) _ w1
          (on_redis_client env (λ kv. invalidate_url rd kv code) w1 yes'),
      record {
        filter = d.filter;
        table = d.table;
        entries = λ j v x h. d.entries j v x (rdl.del_sound w1.kv (url_key code) j v x h);
      },
    )
    | inr no' ↦ (
      w1,
      ok tt,
      >>=-ok (on_redis env (λ kv. invalidate_url rd kv code)) _ w1
          (on_redis_nil env (λ kv. invalidate_url rd kv code) w1 no'),
      record { filter = d.filter; table = d.table; entries = d.entries },
    )
  ]

  delete-Deletes :
      (code : Str) (user : Option pg.Uuid) (w : World env)
      → (w' : World env) × (r : Result (Unit {0})) × (delete env code user w ≡ some (w', r))
        × Deletes w w' code user r
  unfolding delete
  delete-Deletes code user w =
      after_delete-Deletes code user w (record w { db = (delete_url pg w.db code user).0 })
        (delete_url pg w.db code user).1
        (record {
          filter = refl;
          entries = λ j v x h. h;
          table = λ u j e. delete_url-table w code user u j e;
        })

  -- `DeleteURL` always returns, with an error or not, and leaves the filter as it was.
  pub delete-total :
      (code : Str) (user : Option pg.Uuid) (w : World env)
      → (w' : World env) × (r : Result (Unit {0})) × (delete env code user w ≡ some (w', r))
        × (w'.filter ≡ w.filter)
  delete-total code user w =
      let (w', r, ran, d) = delete-Deletes code user w in (w', r, ran, d.filter)

  returned :
      (code : Str) (user : Option pg.Uuid) (w w' : World env) (u : Unit {0})
      → delete env code user w ≡ some (w', ok u)
      → Deletes w w' code user (ok u)
  returned code user w w' u e =
      let (w1, r, ran, d) = delete-Deletes code user w in
      let both : some (w1, r) ≡ some (w', ok u) = sym ran ∙ e in
      let p : w1 ≡ w' = cc in let q : r ≡ ok u = cc in subst₂ (λ x y. Deletes w x code user y) p q d

  -- When `DeleteURL` returns no error, the row of the code is marked as deleted if the call has no
  -- user or the row is the user's, and is unchanged otherwise; no other row is changed.
  pub delete-deleted :
      (code : Str) (user : Option pg.Uuid) (w w' : World env) (u : Unit {0}) (j : Str)
      → delete env code user w ≡ some (w', ok u)
      → rows w'.db j ≡ (if str_eq code j then deleted user (rows w.db j) else rows w.db j)
  delete-deleted code user w w' u j e = (returned code user w w' u e).table u j refl

  -- When `DeleteURL` returns no error, from a state in which every cached URL is that of the row of
  -- its code, deleted or not, this is still so.
  pub delete-IsCoherent :
      (code : Str) (user : Option pg.Uuid) (w w' : World env) (u : Unit {0})
      → IsCoherent env pgl rdl w
      → delete env code user w ≡ some (w', ok u)
      → IsCoherent env pgl rdl w'
  delete-IsCoherent code user w w' u c e = λ j v x h.
      let d = returned code user w w' u e in
      let (row, found, long) = c j v x (d.entries (url_key j) v x h) in
      kept j row w' (d.table u j refl) found long
    where
      kept :
          (j : Str) (row : Row) (x : World env) {v : Str}
          → rows x.db j ≡ (if str_eq code j then deleted user (rows w.db j) else rows w.db j)
          → rows w.db j ≡ some row
          → row.long_url ≡ v
          → Backed env pgl rdl x.db j v
      kept j row x table found long = elim (Bool-cases (str_eq code j)) [
        | inl same ↦
            let (row', at, keeps) = deleted_keeps user (rows w.db j) row found in
            (row', (rw same at table) ∙ at, keeps ∙ long)
        | inr other ↦ (row, (rw other at table) ∙ found, long)
      ]
