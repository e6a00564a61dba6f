-- ===== src/UrlService/Simulation/Resolving.antt =====
-- ResolveURL, DeleteURL and RecordClick of internal/service/url_service.go as runs of the commands of
-- Interleaved.
use nanolink.Prelude.{
  ◌≡◌, refl, inl, inr, Bool, true, false, not, Option, none, some, List, ◌∷◌, Str, Bool-cases,
  Option-cases,
}
use nanolink.Prelude.Int.{ℤ}
use nanolink.Prelude.Result.{Result, ok, err}
use nanolink.Models.{Url}
use nanolink.Storage.Postgres.{get_by_short_code, delete_url, increment_click_count}
use nanolink.Storage.Redis.{invalidate_url}
use nanolink.UrlService.World.{Env, World, now, on_redis, might_contain}
use nanolink.UrlService.Shorten.{cache_url}
use nanolink.UrlService.Resolve.{
  cached, is_expired, serve_live, serve_row, serve_uncached, lookup, resolve_url, after_delete,
  delete, record_click,
}
use nanolink.UrlService.Interleaved.{found, deleted, invalidated, counted, Reach, here, next}
use nanolink.UrlService.Simulation.{
  share, Goes, Reach-trans, bind-Goes, result-Goes, pure-Goes, ended-Goes, now-Goes, on_redis-Goes,
  cache_url-Goes, if-Goes,
}

module _ (env : Env) where
  open env use {pg, rd}

  is_expired-Goes :
      (l : List (Str × Str)) (expires : Option ℤ) → Goes env l (is_expired env expires) (λ b. l)
  unfolding is_expired
  is_expired-Goes l none = pure-Goes env l false (λ b. l) refl
  is_expired-Goes l (some x) =
      bind-Goes env l (now env) (λ t. l) _ (λ b. l) (now-Goes env l)
        (λ t. pure-Goes env l _ (λ b. l) refl)

  cached-Goes : (l : List (Str × Str)) (code : Str) → Goes env l (cached env code) (λ o. l)
  unfolding cached
  cached-Goes l code w w' a e = elim (Bool-cases env.has_redis) [
    | inl there ↦
        bind-Goes env l (now env) (λ t. l) _ (λ o. l) (now-Goes env l)
          (λ t v v' o h. result-Goes env l v v v' _ o (λ b. l) here h) w w' a
          (rw (there, cached) at e)
    | inr missing ↦ result-Goes env l w w w' none a (λ b. l) here (rw (missing, cached) at e)
  ]

  serve_live-Goes :
      (l : List (Str × Str)) (code : Str) (url : Url pg.Uuid) (old : Bool)
      → Goes env ((code, url.long_url) ∷ l) (serve_live env code url old) (λ r. l)
  unfolding serve_live
  serve_live-Goes l code url true = ended-Goes env l code url.long_url _
  serve_live-Goes l code url false =
      bind-Goes env ((code, url.long_url) ∷ l) (cache_url env code url.long_url url.expires_at)
        (λ u. l) _ (λ r. l) (cache_url-Goes env l code url.long_url url.expires_at)
        (λ u. pure-Goes env l _ (λ r. l) refl)

  -- what follows a query that has found this link
  live-Goes :
      (l : List (Str × Str)) (code : Str) (url : Url pg.Uuid)
      → Goes env ((code, url.long_url) ∷ l) (serve_row env code (ok (some url))) (λ r. l)
  unfolding serve_row
  live-Goes l code url =
      if-Goes env (not url.is_active) ((code, url.long_url) ∷ l) _ _ (λ r. l)
        (ended-Goes env l code url.long_url _)
        (bind-Goes env ((code, url.long_url) ∷ l) (is_expired env url.expires_at)
          (λ b. (code, url.long_url) ∷ l) (serve_live env code url) (λ r. l)
          (is_expired-Goes ((code, url.long_url) ∷ l) url.expires_at)
          (λ old. serve_live-Goes l code url old))

  serve_row-Goes :
      (l : List (Str × Str)) (code : Str) (r : Result (Option (Url pg.Uuid))) (w w' : World env)
      (a : Result Str)
      → get_by_short_code pg w.db code ≡ r
      → serve_row env code r w ≡ some (w', a)
      → Reach env (share env w l) (share env w' l)
  unfolding serve_row
  serve_row-Goes l code (err x) w w' a g e = pure-Goes env l _ (λ r. l) refl w w' a e
  serve_row-Goes l code (ok none) w w' a g e = pure-Goes env l _ (λ r. l) refl w w' a e
  serve_row-Goes l code (ok (some url)) w w' a g e =
      Reach-trans env (next here (found code url g)) (live-Goes l code url w w' a e)

  serve_uncached-Goes :
      (l : List (Str × Str)) (code : Str) (o : Option Str)
      → Goes env l (serve_uncached env code o) (λ r. l)
  unfolding serve_uncached
  serve_uncached-Goes l code (some v) w w' a e = result-Goes env l w w w' (ok v) a (λ r. l) here e
  serve_uncached-Goes l code none w w' a e =
      serve_row-Goes l code (get_by_short_code pg w.db code) w w' a refl e

  lookup-Goes : (l : List (Str × Str)) (code : Str) → Goes env l (lookup env code) (λ r. l)
  unfolding lookup
  lookup-Goes l code =
      bind-Goes env l (cached env code) (λ o. l) (serve_uncached env code) (λ r. l)
        (cached-Goes l code) (λ o. serve_uncached-Goes l code o)

  pub resolve_url-Goes :
      (l : List (Str × Str)) (code : Str) → Goes env l (resolve_url env code) (λ r. l)
  unfolding resolve_url
  resolve_url-Goes l code w w' a e = elim (Option-cases (might_contain env w code)) [
    | inl stuck ↦ absurd (cc (rw (stuck, resolve_url) at e))
    | inr (false, ran) ↦ result-Goes env l w w w' _ a (λ r. l) here (rw (ran, resolve_url) at e)
    | inr (true, ran) ↦ lookup-Goes l code w w' a (rw (ran, resolve_url) at e)
  ]

  after_delete-Goes :
      (l : List (Str × Str)) (code : Str) (r : Result (Unit {0}))
      → Goes env l (after_delete env code r) (λ x. l)
  unfolding after_delete
  after_delete-Goes l code (err x) = pure-Goes env l _ (λ x. l) refl
  after_delete-Goes l code (ok u) =
      bind-Goes env l (on_redis env (λ kv. invalidate_url rd kv code)) (λ u. l) _ (λ x. l)
        (on_redis-Goes env l l (λ kv. invalidate_url rd kv code) (λ w. next here (invalidated code))
          (λ w. here))
        (λ u. pure-Goes env l _ (λ x. l) refl)

  pub delete-Goes :
      (l : List (Str × Str)) (code : Str) (user : Option pg.Uuid)
      → Goes env l (delete env code user) (λ r. l)
  unfolding delete
  delete-Goes l code user w w' a e =
      let r = delete_url pg w.db code user in
      Reach-trans env (next here (deleted code user))
        (after_delete-Goes l code r.1 (record w { db = r.0 }) w' a e)

  pub record_click-Goes :
      (l : List (Str × Str)) (code : Str) → Goes env l (record_click env code) (λ u. l)
  unfolding record_click
  record_click-Goes l code w w' a e =
      let db = (increment_click_count pg w.db code).0 in
      result-Goes env l w (record w { db = db }) w' tt a (λ u. l) (next here (counted code)) e
