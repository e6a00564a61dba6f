-- ===== src/UrlService/Complete.antt =====
-- When `ResolveURL` finds a link.
use mathlib.Core.Path.{subst}
use nanolink.Prelude.{
  ℕ, suc, ◌≡◌, refl, sym, ap, ◌∙◌, ◌⊎◌, inl, inr, Bool, true, false, not, ◌&&◌, Option, none, some,
  arith, Str, Bool-cases, if◌then◌else◌,
}
use nanolink.Prelude.Int.{ℤ, ltb_ℤ, ◌<ℤ◌}
use nanolink.Prelude.Result.{Result, ok, err}
use nanolink.Models.{Url, ShortenRequest, ShortenResponse}
use nanolink.Bloom
use nanolink.Bloom.Words.{IsValid}
use nanolink.UrlService.Created.{shorten_url-IsCoherent, shorten_url-Live}
use nanolink.Storage.Postgres.{Row, PostgresLaws, active_only, scanned, url_of, get_by_short_code}
use nanolink.Storage.Redis.{RedisLaws, exists_in_bloom}
use nanolink.UrlService.World.{pure, ◌>>=◌, Env, World, absent, now, might_contain, >>=-ok}
use nanolink.UrlService.Resolve.{
  not_found, expired, cached, is_expired, serve_live, serve_row, serve_uncached, lookup,
  resolve_url,
}
use nanolink.UrlService.Shorten.{cache_url, shorten_url}
use nanolink.UrlService.Persist.{Live}
use nanolink.UrlService.Cache.{Backed, IsCoherent, cache_url-Caches}
use nanolink.UrlService.Reads.{cached-total}

module _ (env : Env) (pgl : PostgresLaws env.pg) (rdl : RedisLaws env.rd) where
  open env use {pg, rd, clock}

  -- The run ends with the URL; or the expiry lies before some reading of the clock, and it ends with
  -- that error.
  abbrev pub Serves : Option ℤ → Str → Option (World env × Result Str) → Type 0
  Serves expires long_url run =
      ((w' : World env) × (run ≡ some (w', ok long_url)))
      ⊎ ((w' : World env) × (x : ℤ) × (i : ℕ) × (expires ≡ some x)
          × (x <ℤ clock i)
          × (run ≡ some (w', err expired)))

  serve_live-ok :
      (code : Str) (url : Url pg.Uuid) (w : World env)
      → (w' : World env) × (serve_live env code url false w ≡ some (w', ok url.long_url))
  unfolding serve_live
  serve_live-ok code url w =
      let (w', ran, k) = cache_url-Caches env pgl rdl code url.long_url url.expires_at w in
      (w', >>=-ok (cache_url env code url.long_url url.expires_at) _ w ran)

  found_active :
      (db : pg.Db) (code long_url : Str) (found : Option Row)
      → (l : Live pg pgl db code long_url) → pg.select_active db code ≡ ok found
      → get_by_short_code pg db code ≡ ok (some (url_of pg l.row))
  unfolding get_by_short_code
  found_active db code long_url found l e =
      let p : found ≡ active_only (some l.row) =
        pgl.select_ok db code found e ∙ ap active_only l.found in
      ap (scanned pg) (e ∙ ap ok (p ∙ active l.row l.active))
    where
      shown :
          (r : Row) (b : Bool)
          → b ≡ true
          → ◌≡◌ {A = Option Row} (if b then some r else none) (some r)
      shown r b h = rw h refl

      active : (r : Row) → r.is_active ≡ true → active_only (some r) ≡ some r
      active r h = shown r r.is_active h

  is_expired-read :
      (expires : Option ℤ) (w : World env)
      → ((w' : World env) × (is_expired env expires w ≡ some (w', false)))
        ⊎ ((w' : World env) × (x : ℤ) × (i : ℕ) × (expires ≡ some x)
            × (x <ℤ clock i)
            × (is_expired env expires w ≡ some (w', true)))
  unfolding is_expired now
  is_expired-read none w = inl (w, refl)
  is_expired-read (some x) w = elim (Bool-cases (ltb_ℤ x (clock w.ticks))) [
    | inl past ↦ inr (
      record w { ticks = suc w.ticks },
      x,
      w.ticks,
      refl,
      ground arith,
      ap (λ b. some (record w { ticks = suc w.ticks }, b)) past,
    )
    | inr ahead ↦ inl (
      record w { ticks = suc w.ticks },
      ap (λ b. some (record w { ticks = suc w.ticks }, b)) ahead,
    )
  ]

  serve_row-Serves :
      (code : Str) (url : Url pg.Uuid) (w : World env)
      → url.is_active ≡ true
      → Serves url.expires_at url.long_url (serve_row env code (ok (some url)) w)
  unfolding serve_row serve_live
  serve_row-Serves code url w act = elim (is_expired-read url.expires_at w) [
    | inl (w1, ran) ↦
        let (w', served) = serve_live-ok code url w1 in
        inl (w', by_act url.is_active act ∙ >>=-ok (is_expired env url.expires_at) _ w ran ∙ served)
    | inr (w1, x, i, e, past, ran) ↦ inr (
      w1,
      x,
      i,
      e,
      past,
      by_act url.is_active act ∙ >>=-ok (is_expired env url.expires_at) _ w ran,
    )
  ]
    where
      by_act :
          (b : Bool)
          → b ≡ true
          → (if not b
                then pure (err not_found)
                else is_expired env url.expires_at >>= λ old. serve_live env code url old)
              w
            ≡ (is_expired env url.expires_at >>= λ old. serve_live env code url old) w
      by_act b h = rw h refl

  passed :
      (code : Str) (w : World env)
      → might_contain env w code ≡ some true
      → resolve_url env code w ≡ lookup env code w
  unfolding resolve_url
  passed code w h = rw (h, resolve_url) refl

  uncached-Serves :
      (code long_url : Str) (o : Option Str) (w : World env) (found : Option Row)
      → (l : Live pg pgl w.db code long_url) → pg.select_active w.db code ≡ ok found
      → ((v : Str) → o ≡ some v → Backed env pgl rdl w.db code v)
      → Serves l.row.expires_at long_url (serve_uncached env code o w)
  unfolding serve_uncached
  uncached-Serves code long_url (some v) w found l reach b =
      let (row, at, long) = b v refl in
      let both : some row ≡ some l.row = sym at ∙ l.found in
      let same : row ≡ l.row = cc in
      let url : v ≡ long_url = sym long ∙ ap (λ r. r.long_url) same ∙ l.url in inl (w, rw url refl)
  uncached-Serves code long_url none w found l reach b =
      subst (λ u. Serves l.row.expires_at u (serve_row env code (get_by_short_code pg w.db code) w))
        l.url
        (subst (λ r. Serves l.row.expires_at l.row.long_url (serve_row env code r w))
          (sym (found_active w.db code long_url found l reach))
          (serve_row-Serves code (url_of pg l.row) w l.active))

  -- A link that is in the table and active is found: from a coherent state, when the filters let the
  -- code through and the database answers the query, `ResolveURL` returns the long URL of the row,
  -- from the cache or from the table; or it returns "url expired", and then the expiry of the row is
  -- before a reading of the clock.
  pub resolve_url-Serves :
      (code long_url : Str) (w : World env) (found : Option Row)
      → IsCoherent env pgl rdl w
      → (l : Live pg pgl w.db code long_url) → might_contain env w code ≡ some true
      → pg.select_active w.db code ≡ ok found
      → Serves l.row.expires_at long_url (resolve_url env code w)
  unfolding lookup
  resolve_url-Serves code long_url w found c l pass reach =
      let (w1, o, ran, i, entry) = cached-total env pgl rdl code w in
      let run : resolve_url env code w ≡ serve_uncached env code o w1 =
        passed code w pass ∙ >>=-ok (cached env code) _ w ran in
      let kept : Live pg pgl w1.db code long_url = record {
        row = l.row;
        found = rw i.db l.found;
        url = l.url;
        active = l.active;
      } in
      subst (Serves l.row.expires_at long_url) (sym run) (
        uncached-Serves code long_url o w1 found kept (rw i.db reach)
          (λ v e. let (x, there) = entry v e in rw i.db (c code v x there)))

  pub both_filters :
      (code : Str) (w : World env)
      → Bloom.contains w.filter code ≡ some true
      → (env.has_redis && absent env (exists_in_bloom rd w.kv code)) ≡ false
      → might_contain env w code ≡ some true
  unfolding might_contain
  both_filters code w here shared = rw (here, might_contain) (ap (λ b. some (not b)) shared)

  -- A link that `ShortenURL` has returned, from a coherent state with a valid filter, resolves: when the
  -- shared filter does not deny the code and the database answers the query, `ResolveURL` returns the
  -- long URL of the request, or "url expired" once the expiry of the row has passed.
  pub shorten_url-Serves :
      (req : ShortenRequest) (user : Option pg.Uuid) (w w' : World env) (resp : ShortenResponse)
      (found : Option Row)
      → IsCoherent env pgl rdl w
      → IsValid w.filter
      → shorten_url env req user w ≡ some (w', ok resp)
      → (env.has_redis && absent env (exists_in_bloom rd w'.kv resp.short_code)) ≡ false
      → pg.select_active w'.db resp.short_code ≡ ok found
      → (row : Row) × (pgl.rows w'.db resp.short_code ≡ some row)
        × Serves row.expires_at req.long_url (resolve_url env resp.short_code w')
  shorten_url-Serves req user w w' resp found c v ran shared reach =
      let (long, fits, l, here) = shorten_url-Live env pgl rdl req user w w' resp c v ran in
      let coherent = (shorten_url-IsCoherent env pgl rdl req user w w' (ok resp) c v ran).0 in
      (
        l.row,
        l.found,
        resolve_url-Serves resp.short_code req.long_url w' found coherent l
            (both_filters resp.short_code w' here shared) reach,
      )
