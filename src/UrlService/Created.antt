-- ===== src/UrlService/Created.antt =====
-- `ShortenURL` as a whole: what holds when it returns.
use mathlib.Core.Path.{subst, subst₂}
use nanolink.Prelude.{
  suc, ◌≤◌, ◌≡◌, refl, sym, ◌∙◌, inl, inr, Bool, true, Option, some, Str, length, Bool-cases,
}
use nanolink.Prelude.Int.{ℤ, pos}
use nanolink.Prelude.Result.{Result, ok, err}
use nanolink.Models.{Url, ShortenRequest, ShortenResponse}
use nanolink.Bloom
use nanolink.Bloom.{BloomFilter}
use nanolink.Bloom.Words.{IsValid}
use nanolink.Bloom.Members.{Added, add-Added, Added-contains, Added-keeps}
use nanolink.Storage.Postgres.{PostgresLaws}
use nanolink.Storage.Redis.{RedisLaws, add_to_bloom, bloom_key, url_key}
use nanolink.UrlService.World.{
  Env, World, now, add_local, bloom_add, ◌>>=◌, >>=-ok, >>=-run, on_redis_client, on_redis_nil,
}
use nanolink.UrlService.Shorten.{
  persist, expiry, pick_code, cache_url, publish, shorten_as, shorten_url, response,
}
use nanolink.UrlService.Persist.{Live}
use nanolink.UrlService.Cache.{Backed, IsCoherent, cache_url-Caches, Caches-IsCoherent}
use nanolink.UrlService.Stored.{pick_code-Idle, expiry-total, persist-Persisted}

module _ (env : Env) (pgl : PostgresLaws env.pg) (rdl : RedisLaws env.rd) where
  open env use {pg, rd, clock}

  -- What holds after `ShortenURL` with the result r: every cached URL is that of the row of its code,
  -- deleted or not; the filter is valid and still contains what `bf` contained; and if the link was created, its row is there and active, under a code of at most ten
  -- characters, and the local filter contains the code.
  pub record After (bf : BloomFilter) (w : World env) (long_url : Str) (r : Result ShortenResponse)
      : Type 0 where
    pub coherent : IsCoherent env pgl rdl w
    pub valid : IsValid w.filter
    pub members :
        (x : Str) → Bloom.contains bf x ≡ some true → Bloom.contains w.filter x ≡ some true
    pub made :
        (resp : ShortenResponse)
        → r ≡ ok resp
        → (resp.long_url ≡ long_url)
          × (length resp.short_code ≤ 10)
          × Live pg pgl w.db resp.short_code long_url
          × (Bloom.contains w.filter resp.short_code ≡ some true)

  After-from :
      {a b : BloomFilter} {w : World env} {long_url : Str} {r : Result ShortenResponse}
      → a ≡ b
      → After a w long_url r
      → After b w long_url r
  After-from {w = w} {long_url = l} {r = r} e = subst (λ bf. After bf w l r) e

  record Blooms (w w' : World env) (code : Str) : Type 0 where
    db : w'.db ≡ w.db
    added : Added code w.filter w'.filter
    entries : (j v : Str) (x : ℤ) → rdl.entry w'.kv j ≡ some (v, x) → rdl.entry w.kv j ≡ some (v, x)

  bloom_add-Blooms :
      (code : Str) (w : World env)
      → IsValid w.filter
      → (w' : World env) × (bloom_add env code w ≡ some (w', tt)) × Blooms w w' code
  unfolding bloom_add add_local add_to_bloom
  bloom_add-Blooms code w v =
      let (bf, ran, a) = add-Added w.filter code v in
      elim (Bool-cases env.has_redis) [
        | inl yes' ↦ (
          record w { filter = bf; kv = (rd.bf_add w.kv bloom_key code).0 },
          rw (ran, ◌>>=◌, add_local)
              (on_redis_client env (λ kv. add_to_bloom rd kv code) (record w { filter = bf }) yes'),
          record {
            db = refl;
            added = a;
            entries = λ j t x h. rdl.bf_add_sound w.kv bloom_key code j t x h;
          },
        )
        | inr no' ↦ (
          record w { filter = bf },
          rw (ran, ◌>>=◌, add_local)
              (on_redis_nil env (λ kv. add_to_bloom rd kv code) (record w { filter = bf }) no'),
          record { db = refl; added = a; entries = λ j t x h. h },
        )
      ]

  publish-After :
      (long_url : Str) (created : ℤ) (expires : Option ℤ) (o : Result Str) (w : World env)
      → IsCoherent env pgl rdl w
      → IsValid w.filter
      → ((code : Str) → o ≡ ok code → (length code ≤ 10) × Live pg pgl w.db code long_url)
      → (w' : World env) × (r : Result ShortenResponse) × (publish env long_url created expires o w
          ≡ some (w', r))
        × After w.filter w' long_url r
  unfolding publish
  publish-After long_url created expires (err x) w coherent v stored = (
    w,
    err x,
    refl,
    record { coherent = coherent; valid = v; members = λ x h. h; made = λ resp e. absurd (cc) },
  )
  publish-After long_url created expires (ok code) w coherent v stored =
      let (w1, ran1, b) = bloom_add-Blooms code w v in
      let (w2, ran2, c) = cache_url-Caches env pgl rdl code long_url expires w1 in
      let (fits, live) = stored code refl in
      (
        w2,
        ok (response env code long_url created expires),
        >>=-ok (bloom_add env code) _ w ran1
            ∙ >>=-ok (cache_url env code long_url expires) _ w1 ran2,
        record {
          coherent = Caches-IsCoherent env pgl rdl (blooms-coherent b) (backed b live) c;
          valid = rw c.filter b.added.valid;
          members = λ x h. rw c.filter (Added-keeps w.filter w1.filter code x v b.added h);
          made = λ resp e.
              let p : response env code long_url created expires ≡ resp = cc in
              subst
                (λ x.
                  (x.long_url ≡ long_url)
                  × (length x.short_code ≤ 10)
                  × Live pg pgl w2.db x.short_code long_url
                  × (Bloom.contains w2.filter x.short_code ≡ some true))
                p
                (
                  refl,
                  fits,
                  rw (c.db, b.db) live,
                  rw c.filter (Added-contains w.filter w1.filter code b.added),
                );
        },
      )
    where
      blooms-coherent : {x : World env} → Blooms w x code → IsCoherent env pgl rdl x
      blooms-coherent b = λ j t y h. rw b.db (coherent j t y (b.entries (url_key j) t y h))

      backed :
          {x : World env}
          → Blooms w x code
          → Live pg pgl w.db code long_url
          → Backed env pgl rdl x.db code long_url
      backed b live = rw b.db (live.row, live.found, live.url)

  pub shorten_as-After :
      (req : ShortenRequest) (user : Option pg.Uuid) (picked : Result (Str × Bool)) (w : World env)
      → IsCoherent env pgl rdl w
      → IsValid w.filter
      → (w' : World env) × (r : Result ShortenResponse) × (shorten_as env req user picked w
          ≡ some (w', r))
        × After w.filter w' req.long_url r
  unfolding shorten_as now
  shorten_as-After req user (err x) w coherent v = (
    w,
    err x,
    refl,
    record { coherent = coherent; valid = v; members = λ x h. h; made = λ resp e. absurd (cc) },
  )
  shorten_as-After req user (ok (code, custom)) w coherent v =
      let (w1, expires, ran1, i) = expiry-total env req.ttl_seconds w in
      let w2 : World env = record w1 { ticks = suc w1.ticks } in
      let url : Url pg.Uuid = record {
        id = 0;
        short_code = code;
        long_url = req.long_url;
        custom_alias = custom;
        user_id = user;
        created_at = clock w1.ticks;
        expires_at = expires;
        click_count = pos 0;
        is_active = true;
      } in
      let (w3, o, ran3, p) = persist-Persisted env pgl url w2 refl in
      let (w4, r, ran4, a) =
        publish-After req.long_url (clock w1.ticks) expires o w3
          (λ c t x h.
            let (row, found, same) = coherent c t x (rw (p.kv, i.kv) at h) in
            (row, p.extends c row (rw i.db found), same))
          (rw (p.filter, i.filter) v) p.stored in
      (
        w4,
        r,
        >>=-ok (expiry env req.ttl_seconds) _ w ran1 ∙ >>=-ok (persist env url) _ w2 ran3 ∙ ran4,
        After-from (p.filter ∙ i.filter) a,
      )

  pub shorten_url-After :
      (req : ShortenRequest) (user : Option pg.Uuid) (w : World env) {w' : World env}
      {r : Result ShortenResponse}
      → IsCoherent env pgl rdl w
      → IsValid w.filter
      → shorten_url env req user w ≡ some (w', r)
      → After w.filter w' req.long_url r
  unfolding shorten_url
  shorten_url-After req user w {w' = x} {r = y} coherent v e =
      let (w1, picked, ran1, rest) = >>=-run (pick_code env req) (shorten_as env req user) w e in
      let i = pick_code-Idle env req w ran1 in
      let (w2, r, ran2, a) =
        shorten_as-After req user picked w1 (λ c t z h. rw i.db (coherent c t z (rw i.kv at h)))
          (rw i.filter v) in
      let both : some (w2, r) ≡ some (x, y) = sym ran2 ∙ rest in
      let p : w2 ≡ x = cc in
      let q : r ≡ y = cc in
      subst₂ (λ s t. After w.filter s req.long_url t) p q (After-from i.filter a)

  -- Whatever `ShortenURL` returns, a link or an error, it leaves the cache in agreement with the table
  -- and the filter valid, if they were so before.
  pub shorten_url-IsCoherent :
      (req : ShortenRequest) (user : Option pg.Uuid) (w w' : World env) (r : Result ShortenResponse)
      → IsCoherent env pgl rdl w
      → IsValid w.filter
      → shorten_url env req user w ≡ some (w', r)
      → IsCoherent env pgl rdl w' × IsValid w'.filter
  shorten_url-IsCoherent req user w w' r coherent v e =
      let a = shorten_url-After req user w coherent v e in (a.coherent, a.valid)

  -- When `ShortenURL` returns a link, from a coherent state with a valid filter, the long URL is the
  -- request's, the code has at most ten characters, its row is in the table, active and with that
  -- URL, and the local filter contains the code.
  pub shorten_url-Live :
      (req : ShortenRequest) (user : Option pg.Uuid) (w w' : World env) (resp : ShortenResponse)
      → IsCoherent env pgl rdl w
      → IsValid w.filter
      → shorten_url env req user w ≡ some (w', ok resp)
      → (resp.long_url ≡ req.long_url)
        × (length resp.short_code ≤ 10)
        × Live pg pgl w'.db resp.short_code req.long_url
        × (Bloom.contains w'.filter resp.short_code ≡ some true)
  shorten_url-Live req user w w' resp coherent v e =
      (shorten_url-After req user w coherent v e).made resp refl
