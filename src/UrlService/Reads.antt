-- ===== src/UrlService/Reads.antt =====
-- What the cache lookup, the reading of the expiry and the query of `ResolveURL` give.
use nanolink.Prelude.{
  suc, ◌≡◌, refl, sym, ap, inl, inr, Bool, true, false, Option, none, some, [], Str, str_eq,
  Bool-cases, if◌then◌else◌,
}
use nanolink.Prelude.Int.{ℤ, ltb_ℤ}
use nanolink.Prelude.Result.{Result, ok, err}
use nanolink.Models.{Url}
use nanolink.Storage.Postgres.{Row, PostgresLaws, active_only, scanned, url_of, get_by_short_code}
use nanolink.Storage.Redis.{RedisLaws, url_key, get_url}
use nanolink.UrlService.World.{Env, World, now}
use nanolink.UrlService.Resolve.{hit, cached, is_expired}
use nanolink.UrlService.Cache.{Backed}
use nanolink.UrlService.Stored.{Idle}

module _ (env : Env) (pgl : PostgresLaws env.pg) (rdl : RedisLaws env.rd) where
  open env use {pg, rd, clock}

  -- the cache lookup: a hit is an entry of the cache
  pub cached-total :
      (code : Str) (w : World env)
      → (w' : World env) × (found : Option Str) × (cached env code w ≡ some (w', found))
        × Idle env w w'
        × ((v : Str) → found ≡ some v → (x : ℤ) × (rdl.entry w.kv (url_key code) ≡ some (v, x)))
  unfolding cached now get_url
  cached-total code w = elim (Bool-cases env.has_redis) [
    | inr no' ↦
        (w, none, simp no', record { db = refl; kv = refl; filter = refl }, λ v e. absurd (cc))
    | inl yes' ↦ (
      record w { ticks = suc w.ticks },
      hit env (rd.get w.kv (clock w.ticks) (url_key code)),
      simp yes',
      record { db = refl; kv = refl; filter = refl },
      λ v e. from (rd.get w.kv (clock w.ticks) (url_key code)) refl v e,
    )
  ]
    where
      from :
          (r : Result Str)
          → rd.get w.kv (clock w.ticks) (url_key code) ≡ r
          → (v : Str) → hit env r ≡ some v
          → (x : ℤ) × (rdl.entry w.kv (url_key code) ≡ some (v, x))
      from (err e) p v h = absurd (cc)
      from (ok t) p v h = elim (Bool-cases (str_eq t [])) [
        | inl empty ↦ absurd (cc (rw empty at h))
        | inr full ↦
            let q : t ≡ v = cc (rw full at h) in
            let (x, there, live) = rdl.get_ok w.kv (clock w.ticks) (url_key code) t p in
            (x, rw (← q) there)
      ]

  pub is_expired-total :
      (expires : Option ℤ) (w : World env)
      → (w' : World env) × (b : Bool) × (is_expired env expires w ≡ some (w', b)) × Idle env w w'
  unfolding is_expired now
  is_expired-total none w = (w, false, refl, record { db = refl; kv = refl; filter = refl })
  is_expired-total (some x) w = (
    record w { ticks = suc w.ticks },
    ltb_ℤ x (clock w.ticks),
    refl,
    record { db = refl; kv = refl; filter = refl },
  )

  pub select-Backed :
      (db : pg.Db) (code : Str) (url : Url pg.Uuid)
      → get_by_short_code pg db code ≡ ok (some url)
      → Backed env pgl rdl db code url.long_url
  unfolding get_by_short_code
  select-Backed db code url e = from (pg.select_active db code) refl e
    where
      active_if :
          (b : Bool) (x r : Row)
          → some r ≡ (if b then some x else none)
          → ◌≡◌ {A = Option Row} (some x) (some r)
      active_if true x r e = sym e
      active_if false x r e = absurd (cc)

      active_row : (o : Option Row) (r : Row) → some r ≡ active_only o → o ≡ some r
      active_row none r e = absurd (cc)
      active_row (some x) r e = active_if x.is_active x r e

      from :
          (r : Result (Option Row))
          → pg.select_active db code ≡ r
          → scanned pg r ≡ ok (some url)
          → Backed env pgl rdl db code url.long_url
      from (err x) p q = absurd (cc)
      from (ok none) p q = absurd (cc)
      from (ok (some row)) p q =
          let same : url_of pg row ≡ url = cc in
          (
            row,
            active_row (pgl.rows db code) row (pgl.select_ok db code (some row) p),
            ap (λ u. u.long_url) same,
          )
