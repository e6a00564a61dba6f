-- ===== src/UrlService/Simulation/Shortening.antt =====
-- ShortenURL of internal/service/url_service.go as a run of the commands of Interleaved.
use nanolink.Prelude.{◌≡◌, refl, Bool, true, Option, none, some, List, ◌∷◌, Str}
use nanolink.Prelude.Int.{ℤ, ltb_ℤ, pos}
use nanolink.Prelude.Result.{Result, ok, err}
use nanolink.Models.{Url, ShortenRequest}
use nanolink.Storage.Postgres.{create_url}
use nanolink.UrlService.World.{Env, World, now, bloom_add, pure}
use nanolink.UrlService.Shorten.{
  pick_code, expiry, create, fallback_code, second_answer, retry, persist, cache_url, publish,
  shorten_as, shorten_url,
}
use nanolink.UrlService.Stored.{pick_code-Idle}
use nanolink.UrlService.Interleaved.{inserted, insert_failed, Reach, here, next}
use nanolink.UrlService.Simulation.{
  share, Goes, bind-Goes, result-Goes, pure-Goes, now-Goes, bloom_add-Goes, cache_url-Goes, if-Goes,
  same-Goes,
}

module _ (env : Env) where
  open env use {pg, rd}

  -- the URLs on their way after CreateURL, and after all that stores a link
  abbrev inserted_fills : Url pg.Uuid → List (Str × Str) → Result (Url pg.Uuid) → List (Str × Str)
  inserted_fills url l (ok u) = (url.short_code, url.long_url) ∷ l
  inserted_fills url l (err e) = l

  abbrev stored_fills : Str → List (Str × Str) → Result Str → List (Str × Str)
  stored_fills long_url l (ok code) = (code, long_url) ∷ l
  stored_fills long_url l (err e) = l

  create_step :
      (l : List (Str × Str)) (url : Url pg.Uuid) (w : World env) (r : Result (Url pg.Uuid))
      → url.is_active ≡ true
      → (create_url pg w.db url).1 ≡ r
      → Reach env
          (share env w l)
          (share env (record w { db = (create_url pg w.db url).0 }) (inserted_fills url l r))
  create_step l url w (ok u) act e = next here (inserted url u e act)
  create_step l url w (err x) act e = next here (insert_failed url x e act)

  create-Goes :
      (l : List (Str × Str)) (url : Url pg.Uuid)
      → url.is_active ≡ true
      → Goes env l (create env url) (inserted_fills url l)
  unfolding create
  create-Goes l url act w w' a e =
      let r = create_url pg w.db url in
      result-Goes env l w (record w { db = r.0 }) w' r.1 a (inserted_fills url l)
        (create_step l url w r.1 act refl) e

  retry-Goes :
      (l : List (Str × Str)) (url : Url pg.Uuid) (first : Result (Url pg.Uuid))
      → url.is_active ≡ true
      → Goes env (inserted_fills url l first) (retry env url first) (stored_fills url.long_url l)
  unfolding retry
  retry-Goes l url (ok saved) act =
      pure-Goes env ((url.short_code, url.long_url) ∷ l) (ok url.short_code)
        (stored_fills url.long_url l) refl
  retry-Goes l url (err x) act =
      if-Goes env url.custom_alias l _ _ (stored_fills url.long_url l)
        (pure-Goes env l _ (stored_fills url.long_url l) refl)
        (bind-Goes env l (now env) (λ t. l) _ (stored_fills url.long_url l) (now-Goes env l)
          (λ t.
            let other : Url pg.Uuid = record url {
              short_code = fallback_code env url.long_url t;
            } in
            bind-Goes env l (create env other) (inserted_fills other l) _
              (stored_fills url.long_url l) (create-Goes l other act)
              (λ again. second-Goes l other again)))
    where
      second-Goes :
          (l : List (Str × Str)) (other : Url pg.Uuid) (again : Result (Url pg.Uuid))
          → Goes env
              (inserted_fills other l again)
              (pure (second_answer env other.short_code again))
              (stored_fills other.long_url l)
      second-Goes l other (ok u) =
          pure-Goes env ((other.short_code, other.long_url) ∷ l) (ok other.short_code)
            (stored_fills other.long_url l) refl
      second-Goes l other (err z) = pure-Goes env l _ (stored_fills other.long_url l) refl

  persist-Goes :
      (l : List (Str × Str)) (url : Url pg.Uuid)
      → url.is_active ≡ true
      → Goes env l (persist env url) (stored_fills url.long_url l)
  unfolding persist
  persist-Goes l url act =
      bind-Goes env l (create env url) (inserted_fills url l) (retry env url)
        (stored_fills url.long_url l) (create-Goes l url act) (λ r. retry-Goes l url r act)

  publish-Goes :
      (l : List (Str × Str)) (long_url : Str) (created : ℤ) (expires : Option ℤ) (r : Result Str)
      → Goes env (stored_fills long_url l r) (publish env long_url created expires r) (λ a. l)
  unfolding publish
  publish-Goes l long_url created expires (err e) = pure-Goes env l _ (λ a. l) refl
  publish-Goes l long_url created expires (ok code) =
      bind-Goes env ((code, long_url) ∷ l) (bloom_add env code) (λ u. (code, long_url) ∷ l) _
        (λ a. l) (bloom_add-Goes env ((code, long_url) ∷ l) code)
        (λ u.
          bind-Goes env ((code, long_url) ∷ l) (cache_url env code long_url expires) (λ v. l) _
            (λ a. l) (cache_url-Goes env l code long_url expires)
            (λ v. pure-Goes env l _ (λ a. l) refl))

  expiry-Goes : (l : List (Str × Str)) (ttl : Option ℤ) → Goes env l (expiry env ttl) (λ x. l)
  unfolding expiry
  expiry-Goes l none = pure-Goes env l none (λ x. l) refl
  expiry-Goes l (some s) =
      if-Goes env (ltb_ℤ (pos 0) s) l _ _ (λ x. l)
        (bind-Goes env l (now env) (λ t. l) _ (λ x. l) (now-Goes env l)
          (λ t. pure-Goes env l _ (λ x. l) refl))
        (pure-Goes env l none (λ x. l) refl)

  shorten_as-Goes :
      (l : List (Str × Str)) (req : ShortenRequest) (user : Option pg.Uuid)
      (picked : Result (Str × Bool))
      → Goes env l (shorten_as env req user picked) (λ r. l)
  unfolding shorten_as
  shorten_as-Goes l req user (err e) = pure-Goes env l _ (λ r. l) refl
  shorten_as-Goes l req user (ok (code, custom)) =
      bind-Goes env l (expiry env req.ttl_seconds) (λ x. l) _ (λ r. l)
        (expiry-Goes l req.ttl_seconds)
        (λ expires.
          bind-Goes env l (now env) (λ t. l) _ (λ r. l) (now-Goes env l)
            (λ created.
              bind-Goes env l (persist env _) (stored_fills req.long_url l) _ (λ r. l)
                (persist-Goes l _ refl)
                (λ saved. publish-Goes l req.long_url created expires saved)))

  pub shorten_url-Goes :
      (l : List (Str × Str)) (req : ShortenRequest) (user : Option pg.Uuid)
      → Goes env l (shorten_url env req user) (λ r. l)
  unfolding shorten_url
  shorten_url-Goes l req user =
      bind-Goes env l (pick_code env req) (λ p. l) (shorten_as env req user) (λ r. l)
        (λ w w' a e. let i = pick_code-Idle env req w e in same-Goes env w w' l i.db i.kv)
        (λ picked. shorten_as-Goes l req user picked)
