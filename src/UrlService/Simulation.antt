-- ===== src/UrlService/Simulation.antt =====
-- The actions that the methods of internal/service/url_service.go share, as runs of the commands of
-- Interleaved.
pub mod Shortening
pub mod Resolving
use mathlib.Core.Path.{subst, subst₂}
use nanolink.Prelude.{
  ℕ, suc, ◌≡◌, refl, sym, ap, ◌∙◌, inl, inr, Bool, true, false, not, Option, none, some, List, [],
  ◌∷◌, Str, Bool-cases, Option-cases, if◌then◌else◌,
}
use nanolink.Prelude.Int.{ℤ}
use nanolink.Prelude.Result.{Result, ok, err, Result-cases}
use nanolink.Bloom
use nanolink.Models.{Url, ShortenRequest, ShortenResponse}
use nanolink.Storage.Postgres.{create_url, get_by_short_code, delete_url}
use nanolink.Storage.Redis.{set_url, invalidate_url, add_to_bloom}
use nanolink.UrlService.World.{
  Env, World, M, now, on_redis, add_local, bloom_add, might_contain, ◌>>=◌, ◌>>◌, pure, >>=-run,
}
use nanolink.UrlService.Shorten.{
  pick_code, expiry, create, fallback_code, second_answer, retry, persist, cache_ttl, cache_url,
  publish, shorten_as, shorten_url,
}
use nanolink.UrlService.Resolve.{
  cached, is_expired, serve_live, serve_row, serve_uncached, lookup, resolve_url, after_delete,
  delete, record_click,
}
use nanolink.UrlService.Stored.{Idle, pick_code-Idle}
use nanolink.UrlService.Interleaved.{
  Shared, Step, inserted, insert_failed, found, filled, ended, deleted, invalidated, counted, added,
  Reach, here, next,
}

module _ (env : Env) where
  open env use {pg, rd}

  abbrev pub share : World env → List (Str × Str) → Shared env
  share w fills = record { db = w.db; kv = w.kv; fills = fills }

  -- A run of the action is a run of commands, from these URLs on their way to the cache to those.
  abbrev pub Goes : {A : Type 0} → List (Str × Str) → M env A → (A → List (Str × Str)) → Type 0
  Goes {A} before m after =
      (w w' : World env) (a : A)
      → m w ≡ some (w', a)
      → Reach env (share w before) (share w' (after a))

  pub Reach-trans : {s t u : Shared env} → Reach env s t → Reach env t u → Reach env s u
  Reach-trans r here = r
  Reach-trans r (next q st) = next (Reach-trans r q) st

  pub bind-Goes :
      {A B : Type 0} (b : List (Str × Str)) (m : M env A) (mid : A → List (Str × Str))
      (f : A → M env B) (after : B → List (Str × Str))
      → Goes b m mid
      → ((a : A) → Goes (mid a) (f a) after)
      → Goes b (m >>= f) after
  bind-Goes b m mid f after g h w w' a e =
      let (w1, x, ran, rest) = >>=-run m f w e in Reach-trans (g w w1 x ran) (h x w1 w' a rest)

  pub same-Goes :
      (w w' : World env) (l : List (Str × Str))
      → w'.db ≡ w.db
      → w'.kv ≡ w.kv
      → Reach env (share w l) (share w' l)
  same-Goes w w' l d k =
      subst₂
        (λ (x : pg.Db) (y : rd.Kv). Reach env (share w l) (record { db = x; kv = y; fills = l }))
        (sym d) (sym k) here

  pub if-Goes :
      {A : Type 0} (b : Bool) (l : List (Str × Str)) (m n : M env A) (after : A → List (Str × Str))
      → Goes l m after
      → Goes l n after
      → Goes l (if b then m else n) after
  if-Goes true l m n after g h = g
  if-Goes false l m n after g h = h

  -- the run of an action whose result is known
  pub result-Goes :
      {A : Type 0} (l : List (Str × Str)) (w v w' : World env) (x a : A)
      (after : A → List (Str × Str))
      → Reach env (share w l) (share v (after x))
      → ◌≡◌ {A = Option (World env × A)} (some (v, x)) (some (w', a))
      → Reach env (share w l) (share w' (after a))
  result-Goes l w v w' x a after r e =
      let p : v ≡ w' = cc in
      let q : x ≡ a = cc in
      subst₂ (λ (u : World env) y. Reach env (share w l) (share u (after y))) p q r

  pub pure-Goes :
      {A : Type 0} (l : List (Str × Str)) (x : A) (after : A → List (Str × Str))
      → after x ≡ l
      → Goes l (pure x) after
  pure-Goes l x after e w w' a h =
      result-Goes l w w w' x a after (subst (λ m. Reach env (share w l) (share w m)) (sym e) here) h

  -- a request that ends with no SetURL
  pub ended-Goes :
      {A : Type 0} (l : List (Str × Str)) (code v : Str) (x : A)
      → Goes ((code, v) ∷ l) (pure x) (λ a. l)
  ended-Goes l code v x w w' a h =
      result-Goes ((code, v) ∷ l) w w w' x a (λ b. l) (next here (ended [] l code v refl)) h

  pub now-Goes : (l : List (Str × Str)) → Goes l (now env) (λ t. l)
  unfolding now
  now-Goes l w w' a e =
      result-Goes l w (record w { ticks = suc w.ticks }) w' (env.clock w.ticks) a (λ t. l) here e

  -- a command that is sent only if there is a client
  pub on_redis-Goes :
      (l l' : List (Str × Str)) (f : rd.Kv → rd.Kv × Result (Unit {0}))
      → ((w : World env) → Reach env (share w l) (share (record w { kv = (f w.kv).0 }) l'))
      → ((w : World env) → Reach env (share w l) (share w l'))
      → Goes l (on_redis env f) (λ u. l')
  unfolding on_redis
  on_redis-Goes l l' f sent skipped w w' a e = elim (Bool-cases env.has_redis) [
    | inl there ↦
        result-Goes l w (record w { kv = (f w.kv).0 }) w' tt a (λ u. l') (sent w)
          (rw (there, on_redis) at e)
    | inr missing ↦ result-Goes l w w w' tt a (λ u. l') (skipped w) (rw (missing, on_redis) at e)
  ]

  add_local-Goes : (l : List (Str × Str)) (code : Str) → Goes l (add_local env code) (λ u. l)
  unfolding add_local
  add_local-Goes l code w w' a e = elim (Option-cases (Bloom.add w.filter code)) [
    | inl stuck ↦ absurd (cc (rw (stuck, add_local) at e))
    | inr (bf, ran) ↦
        result-Goes l w (record w { filter = bf }) w' tt a (λ u. l) here (rw (ran, add_local) at e)
  ]

  pub bloom_add-Goes : (l : List (Str × Str)) (code : Str) → Goes l (bloom_add env code) (λ u. l)
  unfolding bloom_add
  bloom_add-Goes l code =
      bind-Goes l (add_local env code) (λ u. l) (λ u. on_redis env (λ kv. add_to_bloom rd kv code))
        (λ u. l) (add_local-Goes l code)
        (λ u.
          on_redis-Goes l l (λ kv. add_to_bloom rd kv code) (λ w. next here (added code))
            (λ w. here))

  cache_ttl-Goes :
      (l : List (Str × Str)) (expires : Option ℤ) → Goes l (cache_ttl env expires) (λ t. l)
  unfolding cache_ttl
  cache_ttl-Goes l none = pure-Goes l _ (λ t. l) refl
  cache_ttl-Goes l (some x) =
      bind-Goes l (now env) (λ t. l) _ (λ t. l) (now-Goes l) (λ t. pure-Goes l _ (λ u. l) refl)

  -- the URL on its way arrives in the cache, or is given up where there is none
  pub cache_url-Goes :
      (l : List (Str × Str)) (code v : Str) (expires : Option ℤ)
      → Goes ((code, v) ∷ l) (cache_url env code v expires) (λ u. l)
  unfolding cache_url
  cache_url-Goes l code v expires =
      if-Goes env.has_redis ((code, v) ∷ l) _ (pure tt) (λ u. l)
        (bind-Goes ((code, v) ∷ l) (cache_ttl env expires) (λ t. (code, v) ∷ l) _ (λ u. l)
          (cache_ttl-Goes ((code, v) ∷ l) expires)
          (λ ttl.
            bind-Goes ((code, v) ∷ l) (now env) (λ t. (code, v) ∷ l) _ (λ u. l)
              (now-Goes ((code, v) ∷ l))
              (λ t.
                on_redis-Goes ((code, v) ∷ l) l (λ kv. set_url rd kv t code v ttl)
                  (λ x. next here (filled [] l code v t ttl refl))
                  (λ x. next here (ended [] l code v refl)))))
        (ended-Goes l code v tt)
