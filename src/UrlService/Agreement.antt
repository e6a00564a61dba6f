-- ===== src/UrlService/Agreement.antt =====
-- Every cached URL is that of the row of its code, deleted or not, in every interleaving of requests.
use mathlib.Core.Path.{subst, subst₂}
use nanolink.Prelude.{
  ◌≡◌, refl, sym, ap, ◌∙◌, inl, inr, Bool, true, false, Option, none, some, List, [], ◌∷◌, ◌++◌,
  Str, if◌then◌else◌,
}
use nanolink.Prelude.Int.{ℤ}
use nanolink.Prelude.Result.{Result, ok, err}
use nanolink.Models.{Url}
use nanolink.Storage.Postgres.{
  Row, PostgresLaws, create_url, get_by_short_code, scanned, url_of, active_only, delete_url,
  increment_click_count,
}
use nanolink.Storage.Redis.{RedisLaws, url_key, set_url, get_url, invalidate_url, add_to_bloom}
use nanolink.UrlService.World.{Env}
use nanolink.UrlService.Cache.{Backed, url_key_inj}
use nanolink.UrlService.Persist.{create_url-Inserts}
use nanolink.UrlService.Interleaved.{
  Shared, Step, inserted, insert_failed, found, filled, ended, deleted, invalidated, counted, added,
  Reach, here, next,
}

module _ (env : Env) (pgl : PostgresLaws env.pg) (rdl : RedisLaws env.rd) where
  open env use {pg, rd}
  open pgl use {rows}

  abbrev pub AllBacked : pg.Db → List (Str × Str) → Type 0
  AllBacked db [] = Unit {0}
  AllBacked db ((code, long_url) ∷ fills) = Backed env pgl rdl db code long_url × AllBacked db fills

  -- Every cached URL, and every one on its way to the cache, is the URL of the row of its code.
  pub record Agrees (s : Shared env) : Type 0 where
    pub cached :
        (code v : Str) (expiry : ℤ)
        → rdl.entry s.kv (url_key code) ≡ some (v, expiry)
        → Backed env pgl rdl s.db code v
    pub waiting : AllBacked s.db s.fills

  -- No row and no URL of a row is lost.
  abbrev pub Keeps : pg.Db → pg.Db → Type 0
  Keeps db db' =
      (j : Str) (row : Row)
      → rows db j ≡ some row
      → (row' : Row) × (rows db' j ≡ some row') × (row'.long_url ≡ row.long_url)

  pub Backed-Keeps :
      (db db' : pg.Db) (code v : Str)
      → Keeps db db'
      → Backed env pgl rdl db code v
      → Backed env pgl rdl db' code v
  Backed-Keeps db db' code v k (row, there, long) =
      let (row', there', same) = k code row there in (row', there', same ∙ long)

  AllBacked-Keeps :
      (db db' : pg.Db) (fills : List (Str × Str))
      → Keeps db db'
      → AllBacked db fills
      → AllBacked db' fills
  AllBacked-Keeps db db' [] k b = tt
  AllBacked-Keeps db db' ((code, v) ∷ fills) k b =
      (Backed-Keeps db db' code v k b.0, AllBacked-Keeps db db' fills k b.1)

  Agrees-Keeps :
      (s : Shared env) (db' : pg.Db) → Keeps s.db db' → Agrees s → Agrees (record s { db = db' })
  Agrees-Keeps s db' k a = record {
    cached = λ code v x e. Backed-Keeps s.db db' code v k (a.cached code v x e);
    waiting = AllBacked-Keeps s.db db' s.fills k a.waiting;
  }

  -- one of the URLs on their way, and the others
  AllBacked-split :
      (db : pg.Db) (before after : List (Str × Str)) (code v : Str)
      → AllBacked db (before ++ (code, v) ∷ after)
      → Backed env pgl rdl db code v × AllBacked db (before ++ after)
  AllBacked-split db [] after code v b = b
  AllBacked-split db ((c, w) ∷ before) after code v b =
      let r = AllBacked-split db before after code v b.1 in (r.0, (b.0, r.1))

  delete_url-Keeps :
      (db : pg.Db) (code : Str) (user : Option pg.Uuid) → Keeps db (delete_url pg db code user).0
  unfolding delete_url
  delete_url-Keeps db code none = λ j row e. pgl.deactivate_kept db code j row e
  delete_url-Keeps db code (some u) =
      λ j row e. pgl.deactivate_owned_kept db code (pg.show u) j row e

  increment_click_count-Keeps :
      (db : pg.Db) (code : Str) → Keeps db (increment_click_count pg db code).0
  unfolding increment_click_count
  increment_click_count-Keeps db code = λ j row e. pgl.increment_kept db code j row e

  create_url-Keeps :
      (db : pg.Db) (url : Url pg.Uuid) → url.is_active ≡ true → Keeps db (create_url pg db url).0
  create_url-Keeps db url act =
      λ j row e. (row, (create_url-Inserts pg pgl db url act).extends j row e, refl)

  scanned_some :
      (db : pg.Db) (code : Str) (r : Result (Option Row)) (url : Url pg.Uuid)
      → pg.select_active db code ≡ r
      → scanned pg r ≡ ok (some url)
      → Backed env pgl rdl db code url.long_url
  scanned_some db code (err e) url at h = absurd (cc)
  scanned_some db code (ok none) url at h = absurd (cc)
  scanned_some db code (ok (some row)) url at h =
      let p : url_of pg row ≡ url = cc in
      (row, from (rows db code) (sym (pgl.select_ok db code (some row) at)), ap (λ u. u.long_url) p)
    where
      shown : (b : Bool) (r : Row) → (if b then some r else none) ≡ some row → some r ≡ some row
      shown true r e = e
      shown false r e = absurd (cc)

      from : (o : Option Row) → active_only o ≡ some row → o ≡ some row
      from none e = absurd (cc)
      from (some r) e = shown r.is_active r e

  get_by_short_code-Backed :
      (db : pg.Db) (code : Str) (url : Url pg.Uuid)
      → get_by_short_code pg db code ≡ ok (some url)
      → Backed env pgl rdl db code url.long_url
  unfolding get_by_short_code
  get_by_short_code-Backed db code url e =
      scanned_some db code (pg.select_active db code) url refl e

  filled-Agrees :
      (s : Shared env) (before after : List (Str × Str)) (code v : Str) (now ttl : ℤ)
      → s.fills ≡ before ++ (code, v) ∷ after
      → Agrees s
      → Agrees (record s { kv = (set_url rd s.kv now code v ttl).0; fills = before ++ after })
  unfolding set_url
  filled-Agrees s before after code v now ttl e a =
      let r = AllBacked-split s.db before after code v (subst (AllBacked s.db) e a.waiting) in
      record {
        cached = λ j w x h. elim (rdl.set_sound s.kv now (url_key code) v ttl (url_key j) w x h) [
          | inl old ↦ a.cached j w x old
          | inr (same, val, life) ↦
              subst₂ (λ c t. Backed env pgl rdl s.db c t) (url_key_inj code j same) (sym val) r.0
        ];
        waiting = r.1;
      }

  Step-Agrees : {s s' : Shared env} → Step env s s' → Agrees s → Agrees s'
  unfolding invalidate_url add_to_bloom
  Step-Agrees {s} (inserted url saved e act) a =
      let k = create_url-Keeps s.db url act in
      let live = ((create_url-Inserts pg pgl s.db url act).added saved e).1 in
      let b = Agrees-Keeps s (create_url pg s.db url).0 k a in
      record { cached = b.cached; waiting = ((live.row, live.found, live.url), b.waiting) }
  Step-Agrees {s} (insert_failed url e at act) a =
      Agrees-Keeps s (create_url pg s.db url).0 (create_url-Keeps s.db url act) a
  Step-Agrees {s} (found code url e) a = record {
    cached = a.cached;
    waiting = (get_by_short_code-Backed s.db code url e, a.waiting);
  }
  Step-Agrees {s} (filled before after code v now ttl e) a =
      filled-Agrees s before after code v now ttl e a
  Step-Agrees {s} (ended before after code v e) a = record {
    cached = a.cached;
    waiting = (AllBacked-split s.db before after code v (subst (AllBacked s.db) e a.waiting)).1;
  }
  Step-Agrees {s} (deleted code user) a =
      Agrees-Keeps s (delete_url pg s.db code user).0 (delete_url-Keeps s.db code user) a
  Step-Agrees {s} (invalidated code) a = record {
    cached = λ j v x h. a.cached j v x (rdl.del_sound s.kv (url_key code) (url_key j) v x h);
    waiting = a.waiting;
  }
  Step-Agrees {s} (counted code) a =
      Agrees-Keeps s (increment_click_count pg s.db code).0 (increment_click_count-Keeps s.db code)
        a
  Step-Agrees {s} (added code) a = record {
    cached = λ j v x h. a.cached j v x (rdl.bf_add_sound s.kv _ code (url_key j) v x h);
    waiting = a.waiting;
  }

  Step-Keeps : {s s' : Shared env} → Step env s s' → Keeps s.db s'.db
  Step-Keeps {s} (inserted url saved e act) = create_url-Keeps s.db url act
  Step-Keeps {s} (insert_failed url e at act) = create_url-Keeps s.db url act
  Step-Keeps {s} (found code url e) = λ j row at. (row, at, refl)
  Step-Keeps {s} (filled before after code v now ttl e) = λ j row at. (row, at, refl)
  Step-Keeps {s} (ended before after code v e) = λ j row at. (row, at, refl)
  Step-Keeps {s} (deleted code user) = delete_url-Keeps s.db code user
  Step-Keeps {s} (invalidated code) = λ j row at. (row, at, refl)
  Step-Keeps {s} (counted code) = increment_click_count-Keeps s.db code
  Step-Keeps {s} (added code) = λ j row at. (row, at, refl)

  -- No row is lost, and none changes its URL.
  pub Reach-Keeps : {s s' : Shared env} → Reach env s s' → Keeps s.db s'.db
  Reach-Keeps here = λ j row at. (row, at, refl)
  Reach-Keeps (next r st) = λ j row at.
      let (row1, at1, e1) = Reach-Keeps r j row at in
      let (row2, at2, e2) = Step-Keeps st j row1 at1 in (row2, at2, e2 ∙ e1)

  pub Reach-Agrees : {s s' : Shared env} → Reach env s s' → Agrees s → Agrees s'
  Reach-Agrees here a = a
  Reach-Agrees (next r st) a = Step-Agrees st (Reach-Agrees r a)

  -- However the commands of any number of requests are interleaved, from a state in which the cached
  -- URLs and those on their way to the cache are those of the rows of their codes: a URL that GetURL
  -- finds, at any time, is the URL of the row of its code, deleted or not.
  pub get_url-Backed :
      (s s' : Shared env) (code v : Str) (now : ℤ)
      → Agrees s
      → Reach env s s'
      → get_url rd s'.kv now code ≡ ok v
      → Backed env pgl rdl s'.db code v
  unfolding get_url
  get_url-Backed s s' code v now a r e =
      let (x, there, live) = rdl.get_ok s'.kv now (url_key code) v e in
      (Reach-Agrees r a).cached code v x there
