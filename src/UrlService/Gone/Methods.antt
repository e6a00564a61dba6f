-- ===== src/UrlService/Gone/Methods.antt =====
-- ResolveURL of a link that is gone, and DeleteURL, which makes it so, in
-- internal/service/url_service.go.
use mathlib.Core.Path.{subst}
use nanolink.Prelude.{
  ◌≡◌, ◌≢◌, refl, sym, ap, ◌∙◌, inl, inr, Bool, true, false, Option, none, some, Str, Option-cases,
}
use nanolink.Prelude.Int.{ℤ}
use nanolink.Prelude.Result.{Result, ok, err}
use nanolink.Models.{Url}
use nanolink.Storage.Postgres.{PostgresLaws, IsDeleted, get_by_short_code, delete_url}
use nanolink.Storage.Redis.{RedisLaws, url_key, invalidate_url}
use nanolink.UrlService.World.{
  Env, World, might_contain, pure, on_redis, on_redis_client, >>=-run, >>=-ok,
}
use nanolink.UrlService.Reads.{cached-total}
use nanolink.UrlService.Resolve.{
  delete, after_delete, resolve_url, lookup, cached, serve_uncached, serve_row,
}
use nanolink.UrlService.Gone.{IsGone, get_by_short_code-deleted}

module _ (env : Env) (pgl : PostgresLaws env.pg) (rdl : RedisLaws env.rd) where
  open env use {pg, rd}
  open pgl use {rows}

  serve_row-deleted :
      (code : Str) (o : Result (Option (Url pg.Uuid))) (w w' : World env) (v : Str)
      → ((url : Url pg.Uuid) → o ≢ ok (some url))
      → serve_row env code o w ≡ some (w', ok v)
      → ⊥
  unfolding serve_row
  serve_row-deleted code (err e) w w' v n h = cc
  serve_row-deleted code (ok none) w w' v n h = cc
  serve_row-deleted code (ok (some url)) w w' v n h = n url refl

  serve_uncached-deleted :
      (code : Str) (o : Option Str) (w w' : World env) (v : Str)
      → ((u : Str) → o ≢ some u)
      → IsDeleted (rows w.db code)
      → serve_uncached env code o w ≡ some (w', ok v)
      → ⊥
  unfolding serve_uncached
  serve_uncached-deleted code (some u) w w' v n d h = n u refl
  serve_uncached-deleted code none w w' v n d h =
      serve_row-deleted code (get_by_short_code pg w.db code) w w' v
        (λ url. get_by_short_code-deleted env pgl rdl w.db code url d) h

  lookup-IsGone :
      (code : Str) (w w' : World env) (v : Str)
      → IsGone env pgl rdl code w.db w.kv
      → lookup env code w ≢ some (w', ok v)
  unfolding lookup
  lookup-IsGone code w w' v g e =
      let (w1, o, ran, idle, hit_of) = cached-total env pgl rdl code w in
      let (w2, o2, ran2, rest) = >>=-run (cached env code) (serve_uncached env code) w e in
      let both : some (w1, o) ≡ some (w2, o2) = sym ran ∙ ran2 in
      let same : w1 ≡ w2 = cc in
      let found_same : o ≡ o2 = cc in
      serve_uncached-deleted code o2 w2 w' v
        (λ u h. let (x, there) = hit_of u (found_same ∙ h) in g.uncached u x there)
        (subst (λ (x : World env). IsDeleted (rows x.db code)) same (rw idle.db g.row)) rest

  -- ResolveURL returns no URL for a link that is gone.
  pub resolve_url-IsGone :
      (code : Str) (w w' : World env) (v : Str)
      → IsGone env pgl rdl code w.db w.kv
      → resolve_url env code w ≢ some (w', ok v)
  unfolding resolve_url
  resolve_url-IsGone code w w' v g e = elim (Option-cases (might_contain env w code)) [
    | inl panic ↦ cc (rw (panic, resolve_url) at e)
    | inr (b, answered) ↦ by_answer b answered
  ]
    where
      by_answer : (b : Bool) → might_contain env w code ≡ some b → ⊥
      by_answer false unseen = cc (rw (unseen, resolve_url) at e)
      by_answer true seen = lookup-IsGone code w w' v g (rw (seen, resolve_url) at e)

  after_delete-kv :
      (code : Str) (r : Result (Unit {0})) (w w' : World env) (u : Unit {0})
      → env.has_redis ≡ true
      → after_delete env code r w ≡ some (w', ok u)
      → w'.kv ≡ (rd.del w.kv (url_key code)).0
  unfolding after_delete invalidate_url
  after_delete-kv code (err x) w w' u redis e = absurd (cc)
  after_delete-kv code (ok t) w w' u redis e =
      let ran =
        >>=-ok (on_redis env (λ kv. invalidate_url rd kv code)) (λ x. pure (ok tt)) w
          (on_redis_client env (λ kv. invalidate_url rd kv code) w redis) in
      let both : some (record w { kv = (rd.del w.kv (url_key code)).0 }, ok tt) ≡ some (w', ok u) =
        sym ran ∙ e in
      let same : record w { kv = (rd.del w.kv (url_key code)).0 } ≡ w' = cc in
      sym (ap (λ (x : World env). x.kv) same)

  -- A deletion with success whose DEL succeeds, too, leaves the link gone, if its row is marked.
  pub delete-IsGone :
      (code : Str) (user : Option pg.Uuid) (w w' : World env) (u t : Unit {0})
      → delete env code user w ≡ some (w', ok u)
      → env.has_redis ≡ true
      → (rd.del w.kv (url_key code)).1 ≡ ok t
      → IsDeleted (rows w'.db code)
      → IsGone env pgl rdl code w'.db w'.kv
  unfolding delete
  delete-IsGone code user w w' u t e redis sent d =
      let r = delete_url pg w.db code user in
      let kv : w'.kv ≡ (rd.del w.kv (url_key code)).0 =
        after_delete-kv code r.1 (record w { db = r.0 }) w' u redis e in
      record { row = d; uncached = λ v x h. removed v x (rw kv at h) }
    where
      removed :
          (v : Str) (x : ℤ)
          → rdl.entry (rd.del w.kv (url_key code)).0 (url_key code) ≡ some (v, x)
          → ⊥
      removed v x h = let none_left = rdl.del_ok w.kv (url_key code) t sent in cc
