-- ===== src/UrlService/History.antt =====
-- Any number of calls of the methods of internal/service/url_service.go, one after the other.
use mathlib.Core.Path.{subst}
use nanolink.Prelude.{◌≡◌, refl, sym, ap, ◌∙◌, ◌&&◌, true, false, Option, some, [], Str}
use nanolink.Prelude.Result.{ok}
use nanolink.Models.{ShortenRequest, ShortenResponse}
use nanolink.Bloom
use nanolink.Bloom.Words.{IsValid}
use nanolink.Storage.Postgres.{Row, PostgresLaws, increment_click_count}
use nanolink.Storage.Redis.{RedisLaws, exists_in_bloom}
use nanolink.UrlService.World.{Env, World, absent}
use nanolink.UrlService.Shorten.{shorten_url}
use nanolink.UrlService.Resolve.{resolve_url, record_click}
use nanolink.UrlService.Cache.{IsCoherent}
use nanolink.UrlService.Agreement.{Keeps, Reach-Keeps, Reach-Agrees}
use nanolink.UrlService.Created.{shorten_url-After, shorten_url-Live}
use nanolink.UrlService.Complete.{Serves, resolve_url-Serves, both_filters}
use nanolink.UrlService.Lookup.{resolve_url-total, resolve_url-Backed}
use nanolink.UrlService.Delete.{delete-total}
use nanolink.UrlService.Methods.{Call, shortened, resolved, deleted, clicked, waited, Call-Reach}

module _ (env : Env) where
  pub data Calls (w : World env) : World env → Type 0 where
    done : Calls w w
    then_call : {u v : World env} → Calls w u → Call env u v → Calls w v

  pub Calls-trans : {w u v : World env} → Calls w u → Calls u v → Calls w v
  Calls-trans r done = r
  Calls-trans r (then_call q c) = then_call (Calls-trans r q) c

module _ (env : Env) (pgl : PostgresLaws env.pg) (rdl : RedisLaws env.rd) where
  open env use {pg, rd}

  -- Every cached URL is that of its row, deleted or not, and the filter is valid; no row is lost, and none changes its URL;
  -- and the filter contains what it contained.
  pub record Lasts (w w' : World env) : Type 0 where
    pub coherent : IsCoherent env pgl rdl w'
    pub valid : IsValid w'.filter
    pub rows : Keeps env pgl rdl w.db w'.db
    pub members :
        (x : Str) → Bloom.contains w.filter x ≡ some true → Bloom.contains w'.filter x ≡ some true

  abbrev Members : World env → World env → Type 0
  Members w w' =
      IsValid w'.filter
      × ((x : Str) → Bloom.contains w.filter x ≡ some true → Bloom.contains w'.filter x ≡ some true)

  Members-same : (w w' : World env) → IsValid w.filter → w'.filter ≡ w.filter → Members w w'
  Members-same w w' v e = rw e (v, λ x h. h)

  Call-Members :
      (w w' : World env)
      → IsCoherent env pgl rdl w
      → IsValid w.filter
      → Call env w w'
      → Members w w'
  unfolding record_click
  Call-Members w w' c v (shortened req user r e) =
      let a = shorten_url-After env pgl rdl req user w c v e in (a.valid, a.members)
  Call-Members w w' c v (resolved code r e) =
      let (w1, r1, ran, db, filter, coherent) = resolve_url-total env pgl rdl code w c v in
      let both : some (w1, r1) ≡ some (w', r) = sym ran ∙ e in
      let same : w1 ≡ w' = cc in
      Members-same w w' v (subst (λ (x : World env). x.filter ≡ w.filter) same filter)
  Call-Members w w' c v (deleted code user r e) =
      let (w1, r1, ran, filter) = delete-total env pgl rdl code user w in
      let both : some (w1, r1) ≡ some (w', r) = sym ran ∙ e in
      let same : w1 ≡ w' = cc in
      Members-same w w' v (subst (λ (x : World env). x.filter ≡ w.filter) same filter)
  Call-Members w w' c v (clicked code u e) =
      let same : record w { db = (increment_click_count pg w.db code).0 } ≡ w' = cc in
      Members-same w w' v (sym (ap (λ (x : World env). x.filter) same))
  Call-Members w w' c v (waited n e) = Members-same w w' v (ap (λ (x : World env). x.filter) e)

  Call-Lasts :
      (w w' : World env) → IsCoherent env pgl rdl w → IsValid w.filter → Call env w w' → Lasts w w'
  Call-Lasts w w' c v call =
      let r = Call-Reach env w w' [] call in
      let m = Call-Members w w' c v call in
      record {
        coherent = (Reach-Agrees env pgl rdl r (record { cached = c; waiting = tt })).cached;
        valid = m.0;
        rows = Reach-Keeps env pgl rdl r;
        members = m.1;
      }

  pub Calls-Lasts :
      {w w' : World env} → IsCoherent env pgl rdl w → IsValid w.filter → Calls env w w' → Lasts w w'
  Calls-Lasts c v done = record {
    coherent = c;
    valid = v;
    rows = λ j row at. (row, at, refl);
    members = λ x h. h;
  }
  Calls-Lasts {w} {w'} c v (then_call {u = u} r call) =
      let a = Calls-Lasts c v r in
      let b = Call-Lasts u w' a.coherent a.valid call in
      record {
        coherent = b.coherent;
        valid = b.valid;
        rows = λ j row at.
            let (row1, at1, e1) = a.rows j row at in
            let (row2, at2, e2) = b.rows j row1 at1 in (row2, at2, e2 ∙ e1);
        members = λ x h. b.members x (a.members x h);
      }

  -- A link that ShortenURL has returned, from a coherent state with a valid filter, is never lost and
  -- never changes: after any calls of the methods that follow it, those of DeleteURL included, the
  -- table has a row for its code with the long URL of the request, the local filter contains the code,
  -- and ResolveURL returns no other URL for it.
  pub shorten_url-lasts :
      (req : ShortenRequest) (user : Option pg.Uuid) (w u v : World env) (resp : ShortenResponse)
      → IsCoherent env pgl rdl w
      → IsValid w.filter
      → shorten_url env req user w ≡ some (u, ok resp)
      → Calls env u v
      → ((row : Row) × (pgl.rows v.db resp.short_code ≡ some row) × (row.long_url ≡ req.long_url))
        × (Bloom.contains v.filter resp.short_code ≡ some true)
        × ((w' : World env) (found : Str)
            → resolve_url env resp.short_code v ≡ some (w', ok found)
            → found ≡ req.long_url)
  shorten_url-lasts req user w u v resp c valid ran calls =
      let made = shorten_url-Live env pgl rdl req user w u resp c valid ran in
      let after = shorten_url-After env pgl rdl req user w c valid ran in
      let l = Calls-Lasts after.coherent after.valid calls in
      let (row, at, same) = l.rows resp.short_code made.2.row made.2.found in
      (
        (row, at, same ∙ made.2.url),
        l.members resp.short_code made.3,
        λ w' found e.
            let (row', at', long) =
              resolve_url-Backed env pgl rdl resp.short_code v w' found l.coherent l.valid e in
            let both : some row' ≡ some row = sym at' ∙ at in
            let one : row' ≡ row = cc in
            sym long ∙ ap (λ (x : Row). x.long_url) one ∙ same ∙ made.2.url,
      )

  -- A link that ShortenURL has returned, from a coherent state with a valid filter, is served as long
  -- as it is not deleted: after any calls of the methods that follow it, if the row of its code is
  -- active, the shared filter does not deny the code and the database answers the query, ResolveURL
  -- returns the long URL of the request, or "url expired" once the expiry of the row has passed.
  pub shorten_url-stays :
      (req : ShortenRequest) (user : Option pg.Uuid) (w u v : World env) (resp : ShortenResponse)
      (row : Row) (found : Option Row)
      → IsCoherent env pgl rdl w
      → IsValid w.filter
      → shorten_url env req user w ≡ some (u, ok resp)
      → Calls env u v
      → pgl.rows v.db resp.short_code ≡ some row
      → row.is_active ≡ true
      → (env.has_redis && absent env (exists_in_bloom rd v.kv resp.short_code)) ≡ false
      → pg.select_active v.db resp.short_code ≡ ok found
      → Serves env pgl rdl row.expires_at req.long_url (resolve_url env resp.short_code v)
  shorten_url-stays req user w u v resp row found c valid ran calls at active shared reach =
      let after = shorten_url-After env pgl rdl req user w c valid ran in
      let l = Calls-Lasts after.coherent after.valid calls in
      let ((row', at', long), here, same) =
        shorten_url-lasts req user w u v resp c valid ran calls in
      let both : some row' ≡ some row = sym at' ∙ at in
      let one : row' ≡ row = cc in
      resolve_url-Serves env pgl rdl resp.short_code req.long_url v found l.coherent
        (record {
          row = row;
          found = at;
          url = sym (ap (λ (x : Row). x.long_url) one) ∙ long;
          active = active;
        })
        (both_filters env pgl rdl resp.short_code v here shared) reach
