-- ===== src/UrlService/Lookup.antt =====
-- What `ResolveURL` returns, against the table.
use nanolink.Prelude.{
  ◌≡◌, refl, sym, ◌∙◌, inl, inr, Bool, true, false, not, ◌&&◌, Option, none, some, Str, Bool-cases,
}
use nanolink.Prelude.Result.{Result, ok, err}
use nanolink.Models.{Url}
use nanolink.Bloom
use nanolink.Bloom.Words.{IsValid}
use nanolink.Bloom.Add.{covered, ones}
use nanolink.Bloom.Members.{contains-covered}
use nanolink.Storage.Postgres.{PostgresLaws, get_by_short_code}
use nanolink.Storage.Redis.{RedisLaws, exists_in_bloom}
use nanolink.UrlService.World.{Env, World, might_contain, absent, >>=-ok}
use nanolink.UrlService.Shorten.{cache_url}
use nanolink.UrlService.Resolve.{
  not_found, expired, cached, is_expired, serve_live, serve_row, serve_uncached, lookup,
  resolve_url,
}
use nanolink.UrlService.Cache.{Backed, IsCoherent, cache_url-Caches, Caches-IsCoherent}
use nanolink.UrlService.Stored.{Idle}
use nanolink.UrlService.Reads.{cached-total, is_expired-total, select-Backed}

module _ (env : Env) (pgl : PostgresLaws env.pg) (rdl : RedisLaws env.rd) where
  open env use {pg, rd, clock}

  -- What a lookup leaves and returns: the table and the filter as they were, a coherent cache, and
  -- no URL but that of the code's row.
  pub record Served (w w' : World env) (code : Str) (r : Result Str) : Type 0 where
    pub db : w'.db ≡ w.db
    pub filter : w'.filter ≡ w.filter
    pub coherent : IsCoherent env pgl rdl w'
    pub right : (v : Str) → r ≡ ok v → Backed env pgl rdl w.db code v

  serve_live-Served :
      (code : Str) (url : Url pg.Uuid) (old : Bool) (w : World env)
      → IsCoherent env pgl rdl w
      → Backed env pgl rdl w.db code url.long_url
      → (w' : World env) × (r : Result Str) × (serve_live env code url old w ≡ some (w', r))
        × Served w w' code r
  unfolding serve_live
  serve_live-Served code url true w c b = (
    w,
    err expired,
    refl,
    record { db = refl; filter = refl; coherent = c; right = λ v e. absurd (cc) },
  )
  serve_live-Served code url false w c b =
      let (w', ran, k) = cache_url-Caches env pgl rdl code url.long_url url.expires_at w in
      (
        w',
        ok url.long_url,
        >>=-ok (cache_url env code url.long_url url.expires_at) _ w ran,
        record {
          db = k.db;
          filter = k.filter;
          coherent = Caches-IsCoherent env pgl rdl c b k;
          right = λ v e. let p : url.long_url ≡ v = cc in rw (← p) b;
        },
      )

  Idle-IsCoherent :
      {w w' : World env} → Idle env w w' → IsCoherent env pgl rdl w → IsCoherent env pgl rdl w'
  Idle-IsCoherent i c = λ j v x h. rw i.db (c j v x (rw i.kv at h))

  after_Idle :
      {w w1 w' : World env} {code : Str} {r : Result Str}
      → Idle env w w1
      → Served w1 w' code r
      → Served w w' code r
  after_Idle i k = record {
    db = k.db ∙ i.db;
    filter = k.filter ∙ i.filter;
    coherent = k.coherent;
    right = λ v e. rw (← i.db) (k.right v e);
  }

  serve_row-Served :
      (code : Str) (o : Result (Option (Url pg.Uuid))) (w : World env)
      → IsCoherent env pgl rdl w
      → ((url : Url pg.Uuid) → o ≡ ok (some url) → Backed env pgl rdl w.db code url.long_url)
      → (w' : World env) × (r : Result Str) × (serve_row env code o w ≡ some (w', r))
        × Served w w' code r
  unfolding serve_row
  serve_row-Served code (err e) w c b = (
    w,
    err e,
    refl,
    record { db = refl; filter = refl; coherent = c; right = λ v e. absurd (cc) },
  )
  serve_row-Served code (ok none) w c b = (
    w,
    err not_found,
    refl,
    record { db = refl; filter = refl; coherent = c; right = λ v e. absurd (cc) },
  )
  serve_row-Served code (ok (some url)) w c b = elim (Bool-cases (not url.is_active)) [
    | inl gone ↦ (
      w,
      err not_found,
      rw gone,
      record { db = refl; filter = refl; coherent = c; right = λ v e. absurd (cc) },
    )
    | inr live ↦
        let (w1, old, ran, i) = is_expired-total env pgl rdl url.expires_at w in
        let (w', r, ran', k) =
          serve_live-Served code url old w1 (Idle-IsCoherent i c) (rw i.db (b url refl)) in
        (w', r, rw live (>>=-ok (is_expired env url.expires_at) _ w ran ∙ ran'), after_Idle i k)
  ]

  lookup-Served :
      (code : Str) (w : World env)
      → IsCoherent env pgl rdl w
      → (w' : World env) × (r : Result Str) × (lookup env code w ≡ some (w', r))
        × Served w w' code r
  unfolding lookup serve_uncached
  lookup-Served code w c =
      let (w1, found, ran, i, entry) = cached-total env pgl rdl code w in
      let (w', r, ran', k) =
        uncached found w1 (Idle-IsCoherent i c)
          (λ v e. let (x, there) = entry v e in rw i.db (c code v x there)) in
      (w', r, >>=-ok (cached env code) _ w ran ∙ ran', after_Idle i k)
    where
      uncached :
          (found : Option Str) (w : World env)
          → IsCoherent env pgl rdl w
          → ((v : Str) → found ≡ some v → Backed env pgl rdl w.db code v)
          → (w' : World env) × (r : Result Str) × (serve_uncached env code found w ≡ some (w', r))
            × Served w w' code r
      uncached (some u) w c b = (
        w,
        ok u,
        refl,
        record {
          db = refl;
          filter = refl;
          coherent = c;
          right = λ v e. let p : u ≡ v = cc in rw (← p) (b u refl);
        },
      )
      uncached none w c b =
          serve_row-Served code (get_by_short_code pg w.db code) w c
            (λ url e. select-Backed env pgl rdl w.db code url e)

  might_contain-total :
      (code : Str) (w : World env)
      → IsValid w.filter
      → (b : Bool) × (might_contain env w code ≡ some b)
  unfolding might_contain
  might_contain-total code w v =
      by_answer (covered w.filter.k 0 code w.filter.m (ones w.filter))
        (contains-covered w.filter code v)
    where
      by_answer :
          (b : Bool)
          → Bloom.contains w.filter code ≡ some b
          → (b : Bool) × (might_contain env w code ≡ some b)
      by_answer false e = (false, rw (e, might_contain) refl)
      by_answer true e = (
        not (env.has_redis && absent env (exists_in_bloom rd w.kv code)),
        rw (e, might_contain) refl,
      )

  resolve_url-Served :
      (code : Str) (w : World env)
      → IsCoherent env pgl rdl w
      → IsValid w.filter
      → (w' : World env) × (r : Result Str) × (resolve_url env code w ≡ some (w', r))
        × Served w w' code r
  unfolding resolve_url
  resolve_url-Served code w c v = by_filter (might_contain-total code w v)
    where
      by_filter :
          (b : Bool) × (might_contain env w code ≡ some b)
          → (w' : World env) × (r : Result Str) × (resolve_url env code w ≡ some (w', r))
            × Served w w' code r
      by_filter (false, e) = (
        w,
        err not_found,
        rw (e, resolve_url) refl,
        record { db = refl; filter = refl; coherent = c; right = λ v e. absurd (cc) },
      )
      by_filter (true, e) =
          let (w', r, ran, k) = lookup-Served code w c in (w', r, rw (e, resolve_url) ran, k)

  -- From a coherent state with a valid filter, `ResolveURL` always returns, without a panic, and
  -- leaves the table and the filter as they were and the cache in agreement with the table.
  pub resolve_url-total :
      (code : Str) (w : World env)
      → IsCoherent env pgl rdl w
      → IsValid w.filter
      → (w' : World env) × (r : Result Str) × (resolve_url env code w ≡ some (w', r))
        × (w'.db ≡ w.db)
        × (w'.filter ≡ w.filter)
        × IsCoherent env pgl rdl w'
  resolve_url-total code w c v =
      let (w', r, ran, k) = resolve_url-Served code w c v in
      (w', r, ran, k.db, k.filter, k.coherent)

  -- When `ResolveURL` returns a URL, from a coherent state with a valid filter, by whichever path, the
  -- table has a row for the code with that URL.
  pub resolve_url-Backed :
      (code : Str) (w w' : World env) (v : Str)
      → IsCoherent env pgl rdl w
      → IsValid w.filter
      → resolve_url env code w ≡ some (w', ok v)
      → Backed env pgl rdl w.db code v
  resolve_url-Backed code w w' v c valid e =
      let (w1, r, ran, k) = resolve_url-Served code w c valid in
      let both : some (w1, r) ≡ some (w', ok v) = sym ran ∙ e in
      let q : r ≡ ok v = cc in k.right v q

  -- When the local filter does not contain a code, `ResolveURL` answers "url not found" and
  -- changes nothing, whatever the cache and the table hold.
  pub resolve_url-unseen :
      (code : Str) (w : World env)
      → Bloom.contains w.filter code ≡ some false
      → resolve_url env code w ≡ some (w, err not_found)
  unfolding might_contain resolve_url
  resolve_url-unseen code w e = rw (e, might_contain, resolve_url) refl
