-- ===== src/UrlService/Cache.antt =====
-- What the actions change: the table, the cache and the filter.
use nanolink.Prelude.{ℕ, suc, ◌≡◌, refl, ◌⊎◌, inl, inr, Option, none, some, Str, Bool-cases}
use nanolink.Prelude.Int.{ℤ}
use nanolink.Storage.Postgres.{Row, PostgresLaws}
use nanolink.Storage.Redis.{RedisLaws, url_key, set_url}
use nanolink.UrlService.World.{Env, World, now, on_redis, ◌>>=◌}
use nanolink.UrlService.Shorten.{cache_ttl, cache_url}

pub url_key_inj : (a b : Str) → url_key a ≡ url_key b → a ≡ b
unfolding url_key
url_key_inj a b e = cc

module _ (env : Env) (pgl : PostgresLaws env.pg) (rdl : RedisLaws env.rd) where
  open env use {pg, rd, clock, has_redis}
  open pgl use {rows}
  open rdl use {entry}

  -- The table holds a row for the code, deleted or not, with this URL.
  abbrev pub Backed : pg.Db → Str → Str → Type 0
  Backed db code long_url = (row : Row) × (rows db code ≡ some row) × (row.long_url ≡ long_url)

  -- Every cached URL is the URL of the row of its code, deleted or not.
  abbrev pub IsCoherent : World env → Type 0
  IsCoherent w =
      (code v : Str) (expiry : ℤ)
      → entry w.kv (url_key code) ≡ some (v, expiry)
      → Backed w.db code v

  -- A step that leaves the table and the filter, and adds to the cache at most one URL.
  pub record Caches (w w' : World env) (code long_url : Str) : Type 0 where
    pub db : w'.db ≡ w.db
    pub filter : w'.filter ≡ w.filter
    pub entries :
        (j v : Str) (expiry : ℤ)
        → entry w'.kv j ≡ some (v, expiry)
        → (entry w.kv j ≡ some (v, expiry)) ⊎ ((url_key code ≡ j) × (v ≡ long_url))

  cache_ttl-total :
      (expires : Option ℤ) (w : World env)
      → (n : ℕ) × (ttl : ℤ) × (cache_ttl env expires w ≡ some (record w { ticks = n }, ttl))
  unfolding cache_ttl now
  cache_ttl-total none w = (w.ticks, _, refl)
  cache_ttl-total (some expires) w = (suc w.ticks, _, refl)

  -- `cache_url` always ends, and touches nothing but the cache.
  pub cache_url-Caches :
      (code long_url : Str) (expires : Option ℤ) (w : World env)
      → (w' : World env) × (cache_url env code long_url expires w ≡ some (w', tt))
        × Caches w w' code long_url
  unfolding cache_url on_redis now set_url cache_ttl cache_ttl-total
  cache_url-Caches code long_url expires w = elim (Bool-cases has_redis) [
    | inr no' ↦ (w, rw no', record { db = refl; filter = refl; entries = λ j v x h. inl h })
    | inl yes' ↦
        let (n, ttl, ran) = cache_ttl-total expires w in
        (
          record w { kv = (rd.set w.kv (clock n) (url_key code) long_url ttl).0; ticks = suc n },
          rw (yes', ran, ◌>>=◌, yes'),
          record {
            db = refl;
            filter = refl;
            entries = λ j v x h.
                from j v x (rdl.set_sound w.kv (clock n) (url_key code) long_url ttl j v x h);
          },
        )
  ]
    where
      from :
          (j v : Str) (x : ℤ) {B : Type 0}
          → (entry w.kv j ≡ some (v, x)) ⊎ ((url_key code ≡ j) × (v ≡ long_url) × B)
          → (entry w.kv j ≡ some (v, x)) ⊎ ((url_key code ≡ j) × (v ≡ long_url))
      from j v x (inl h) = inl h
      from j v x (inr (a, b, c)) = inr (a, b)

  -- Caching the URL of a row keeps the cache coherent.
  pub Caches-IsCoherent :
      {w w' : World env} {code long_url : Str}
      → IsCoherent w
      → Backed w.db code long_url
      → Caches w w' code long_url
      → IsCoherent w'
  Caches-IsCoherent {w} {w'} {code} {long_url} coherent backed c =
      λ j v x h. rw c.db (either j v (c.entries (url_key j) v x h))
    where
      either :
          (j v : Str) {x : ℤ}
          → (entry w.kv (url_key j) ≡ some (v, x)) ⊎ ((url_key code ≡ url_key j) × (v ≡ long_url))
          → Backed w.db j v
      either j v {x = x} (inl h) = coherent j v x h
      either j v (inr (k, e)) = let same : code ≡ j = url_key_inj code j k in rw (← same, e) backed
