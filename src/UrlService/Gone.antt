-- ===== src/UrlService/Gone.antt =====
-- A link that DeleteURL has marked as deleted and that is no longer in the cache stays away: the methods
-- of internal/service/url_service.go, and the commands of concurrent requests.
pub mod Methods
use mathlib.Core.Path.{subst}
use nanolink.Prelude.{
  ◌≡◌, ◌≢◌, refl, sym, ap, ◌∙◌, inl, inr, Bool, true, false, Option, none, some, List, [], ◌∷◌,
  ◌++◌, Str, Option-cases,
}
use nanolink.Prelude.Int.{ℤ}
use nanolink.Prelude.Result.{Result, ok, err}
use nanolink.Models.{Url}
use nanolink.Storage.Postgres.{
  Row, PostgresLaws, IsDeleted, create_url, get_by_short_code, scanned, active_only, delete_url,
  increment_click_count,
}
use nanolink.Storage.Redis.{RedisLaws, url_key, set_url, invalidate_url, add_to_bloom}
use nanolink.UrlService.World.{
  Env, World, might_contain, pure, on_redis, on_redis_client, >>=-run, >>=-ok,
}
use nanolink.UrlService.Cache.{url_key_inj}
use nanolink.UrlService.Persist.{create_url-Inserts}
use nanolink.UrlService.Reads.{cached-total}
use nanolink.UrlService.Resolve.{
  delete, after_delete, resolve_url, lookup, cached, serve_uncached, serve_row,
}
use nanolink.UrlService.Methods.{Call-Reach}
use nanolink.UrlService.History.{Calls, done, then_call}
use nanolink.UrlService.Interleaved.{
  Shared, Step, inserted, insert_failed, found, filled, ended, deleted, invalidated, counted, added,
  Reach, here, next,
}

-- No URL of this code is on its way to the cache.
abbrev pub Unfilled : Str → List (Str × Str) → Type 0
Unfilled code [] = Unit {0}
Unfilled code ((c, v) ∷ fills) = (c ≢ code) × Unfilled code fills

Unfilled-split :
    (code : Str) (before after : List (Str × Str)) (c v : Str)
    → Unfilled code (before ++ (c, v) ∷ after)
    → (c ≢ code) × Unfilled code (before ++ after)
Unfilled-split code [] after c v u = u
Unfilled-split code ((d, w) ∷ before) after c v u =
    let r = Unfilled-split code before after c v u.1 in (r.0, (u.0, r.1))

module _ (env : Env) (pgl : PostgresLaws env.pg) (rdl : RedisLaws env.rd) where
  open env use {pg, rd}
  open pgl use {rows}

  -- The row of the code is marked as deleted, and the cache has no URL for it.
  pub record IsGone (code : Str) (db : pg.Db) (kv : rd.Kv) : Type 0 where
    pub row : IsDeleted (rows db code)
    pub uncached : (v : Str) (x : ℤ) → rdl.entry kv (url_key code) ≡ some (v, x) → ⊥

  create_url-IsDeleted :
      (db : pg.Db) (url : Url pg.Uuid) (code : Str)
      → url.is_active ≡ true
      → IsDeleted (rows db code)
      → IsDeleted (rows (create_url pg db url).0 code)
  create_url-IsDeleted db url code act (row, at, gone) =
      (row, (create_url-Inserts pg pgl db url act).extends code row at, gone)

  delete_url-IsDeleted :
      (db : pg.Db) (code j : Str) (user : Option pg.Uuid)
      → IsDeleted (rows db j)
      → IsDeleted (rows (delete_url pg db code user).0 j)
  unfolding delete_url
  delete_url-IsDeleted db code j none d = pgl.deactivate_deleted db code j d
  delete_url-IsDeleted db code j (some u) d = pgl.deactivate_owned_deleted db code (pg.show u) j d

  increment_click_count-IsDeleted :
      (db : pg.Db) (code j : Str)
      → IsDeleted (rows db j)
      → IsDeleted (rows (increment_click_count pg db code).0 j)
  unfolding increment_click_count
  increment_click_count-IsDeleted db code j d = pgl.increment_deleted db code j d

  -- GetByShortCode does not find a deleted row.
  pub get_by_short_code-deleted :
      (db : pg.Db) (code : Str) (url : Url pg.Uuid)
      → IsDeleted (rows db code)
      → get_by_short_code pg db code ≢ ok (some url)
  unfolding get_by_short_code
  get_by_short_code-deleted db code url (row, at, gone) e =
      selected (pg.select_active db code) refl e
    where
      selected :
          (r : Result (Option Row))
          → pg.select_active db code ≡ r
          → scanned pg r ≡ ok (some url)
          → ⊥
      selected (err x) s h = cc
      selected (ok none) s h = cc
      selected (ok (some y)) s h =
          let p : some y ≡ active_only (rows db code) = pgl.select_ok db code (some y) s in
          let q : active_only (rows db code) ≡ none = rw (at, gone) refl in
          let bad : ◌≡◌ {A = Option Row} (some y) none = p ∙ q in cc

  filled-uncached :
      (code : Str) (kv : rd.Kv) (now ttl : ℤ) (c v : Str)
      → c ≢ code
      → ((w : Str) (x : ℤ) → rdl.entry kv (url_key code) ≡ some (w, x) → ⊥)
      → (w : Str) (x : ℤ) → rdl.entry (set_url rd kv now c v ttl).0 (url_key code) ≡ some (w, x)
      → ⊥
  unfolding set_url
  filled-uncached code kv now ttl c v other free w x h =
      elim (rdl.set_sound kv now (url_key c) v ttl (url_key code) w x h) [
        | inl old ↦ free w x old
        | inr (same, val, life) ↦ other (url_key_inj c code same)
      ]

  taken : (o : Option Row) → o ≡ none → IsDeleted o → ⊥
  taken o free (row, at, gone) = cc

  abbrev Away : Str → Shared env → Type 0
  Away code s = IsGone code s.db s.kv × Unfilled code s.fills

  Step-Away : (code : Str) {s s' : Shared env} → Step env s s' → Away code s → Away code s'
  unfolding invalidate_url add_to_bloom
  Step-Away code {s} (inserted url saved e act) (g, u) = (
    record { row = create_url-IsDeleted s.db url code act g.row; uncached = g.uncached },
    (
      λ same.
          taken (rows s.db code)
            (ap (rows s.db) (sym same) ∙ (create_url-Inserts pg pgl s.db url act).free saved e)
            g.row,
      u,
    ),
  )
  Step-Away code {s} (insert_failed url e at act) (g, u) =
      (record { row = create_url-IsDeleted s.db url code act g.row; uncached = g.uncached }, u)
  Step-Away code {s} (found c url e) (g, u) = (
    g,
    (
      λ same.
          get_by_short_code-deleted s.db code url g.row
            (ap (λ x. get_by_short_code pg s.db x) (sym same) ∙ e),
      u,
    ),
  )
  Step-Away code {s} (filled before after c v now ttl e) (g, u) =
      let r = Unfilled-split code before after c v (subst (Unfilled code) e u) in
      (record { row = g.row; uncached = filled-uncached code s.kv now ttl c v r.0 g.uncached }, r.1)
  Step-Away code {s} (ended before after c v e) (g, u) =
      (g, (Unfilled-split code before after c v (subst (Unfilled code) e u)).1)
  Step-Away code {s} (deleted c user) (g, u) =
      (record { row = delete_url-IsDeleted s.db c code user g.row; uncached = g.uncached }, u)
  Step-Away code {s} (invalidated c) (g, u) = (
    record {
      row = g.row;
      uncached = λ v x h. g.uncached v x (rdl.del_sound s.kv (url_key c) (url_key code) v x h);
    },
    u,
  )
  Step-Away code {s} (counted c) (g, u) =
      (record { row = increment_click_count-IsDeleted s.db c code g.row; uncached = g.uncached }, u)
  Step-Away code {s} (added c) (g, u) = (
    record {
      row = g.row;
      uncached = λ v x h. g.uncached v x (rdl.bf_add_sound s.kv _ c (url_key code) v x h);
    },
    u,
  )

  Reach-Away : (code : Str) {s s' : Shared env} → Reach env s s' → Away code s → Away code s'
  Reach-Away code here a = a
  Reach-Away code (next r st) a = Step-Away code st (Reach-Away code r a)

  pub Calls-IsGone :
      (code : Str) {w w' : World env}
      → Calls env w w'
      → IsGone code w.db w.kv
      → IsGone code w'.db w'.kv
  Calls-IsGone code done g = g
  Calls-IsGone code {w} {w'} (then_call {u = u} r c) g =
      (Reach-Away code (Call-Reach env u w' [] c) (Calls-IsGone code r g, tt)).0
