-- ===== src/Api/Router/Deletion.antt =====
-- Who may delete a link: the route DELETE /api/v1/urls/:code of internal/api/router.go.
use nanolink.Prelude.{
  ◌≡◌, ◌≢◌, refl, ◌⊎◌, inl, inr, Option, some, List, [], ◌∷◌, Str, codes, str_eq, str_eq_sound,
  Bool-cases, if◌then◌else◌,
}
use nanolink.Prelude.Float.{Floats}
use nanolink.Prelude.Result.{Result, ok, err, Result-cases}
use nanolink.Storage.Postgres.{PostgresLaws}
use nanolink.Storage.Redis.{RedisLaws}
use nanolink.UrlService.World.{World, >>=-ok}
use nanolink.UrlService.Resolve.{delete}
use nanolink.UrlService.Delete.{deleted, delete-total, delete-deleted}
use nanolink.RateLimit.Service.{Eval}
use nanolink.Api.Messages.{Request, Response, failed, deactivated, status, Context}
use nanolink.Api.Auth.{require_auth, signed_in, lookup_user}
use nanolink.Api.Handlers.{Site, User, Server, delete_link, deleted_or_error, call, call_lem}
use nanolink.Api.Router.{Endpoint, find_route, find_in, fit, Front, guarded, serve, handle}
use nanolink.Api.Router.Paths.{str_ne}

abbrev pub link_path : Str → List Str
link_path code = codes "api" ∷ codes "v1" ∷ codes "urls" ∷ code ∷ []

delete_route :
    (code : Str)
    → code ≢ []
    → find_route (codes "DELETE") (link_path code) ≡ some (Endpoint.delete_url, code)
unfolding find_route find_in fit
delete_route code full = rw (str_ne code [] full) refl

module _ (site : Site) (fl : Floats) (eval : Option (Eval fl)) (pgl : PostgresLaws site.env.pg)
    (rdl : RedisLaws site.env.rd) where
  open site use {env, users, sha256_hex}
  open pgl use {rows}

  -- An answer to a user who is let in: a row of the user's is marked as deleted, or an error.
  abbrev pub DeletedBy :
      Option (User site) → Str → Server site → Server site → Response (User site) → Type 0
  DeletedBy user code s s' r =
      ((r ≡ deactivated code)
        × (delete env code user s.world ≡ some (s'.world, ok tt))
        × ((j : Str)
            → rows s'.world.db j ≡ (
                if str_eq code j
                then deleted env pgl rdl user (rows s.world.db j)
                else rows s.world.db j)))
      ⊎ ((e : Str) × (r ≡ failed 500 e))

  deletion_answer :
      (user : Option (User site)) (code : Str) (s : Server site) (w' : World env)
      (r : Result (Unit {0}))
      → delete env code user s.world ≡ some (w', r)
      → DeletedBy user code s (record s { world = w' }) (deleted_or_error site code r)
  deletion_answer user code s w' (err e) ran = inr (e, refl)
  deletion_answer user code s w' (ok u) ran =
      inl (refl, ran, λ j. delete-deleted env pgl rdl code user s.world w' u j ran)

  delete_link-DeletedBy :
      (req : Request) (c : Context (User site)) (s : Server site)
      → req.code ≢ []
      → (s' : Server site) × (r : Response (User site)) × (delete_link site req c s ≡ some (s', r))
        × DeletedBy c.auth_user_id req.code s s' r
  unfolding delete_link
  delete_link-DeletedBy req c s full =
      let (w', r, ran, same) = delete-total env pgl rdl req.code c.auth_user_id s.world in
      (
        record s { world = w' },
        deleted_or_error site req.code r,
        rw (str_ne req.code [] full) (
            >>=-ok (call site (delete env req.code c.auth_user_id)) _ s
              (call_lem site (delete env req.code c.auth_user_id) s w' r ran)),
        deletion_answer c.auth_user_id req.code s w' r ran,
      )

  -- What a request to delete comes to: it is turned away and changes nothing, or its key is that of a
  -- user.
  pub data Deletion (query : Str → Result (User site × Str)) (api_key code : Str)
      (f f' : Front site fl) (r : Response (User site)) : Type 0 where
    rejected :
        (api_key ≡ []) ⊎ ((e : Str) × (query (sha256_hex api_key) ≡ err e))
        → f' ≡ f
        → status r ≡ 401
        → Deletion query api_key code f f' r
    accepted :
        (user : User site) (tier : Str)
        → api_key ≢ []
        → query (sha256_hex api_key) ≡ ok (user, tier)
        → DeletedBy (some user) code f.server f'.server r
        → Deletion query api_key code f f' r

  guarded-Deletion :
      (query : Str → Result (User site × Str)) (req : Request) (f : Front site fl)
      → req.code ≢ []
      → users ≡ some query
      → (f' : Front site fl) × (r : Response (User site)) × (guarded site fl eval f
            (require_auth users sha256_hex req.api_key)
            (delete_link site req)
          ≡ some (f', r))
        × Deletion query req.api_key req.code f f' r
  unfolding require_auth lookup_user
  guarded-Deletion query req f full has = elim (Bool-cases (str_eq req.api_key [])) [
    | inl empty ↦ (
      f,
      failed 401 (codes "missing X-API-Key header"),
      rw empty refl,
      rejected (inl (str_eq_sound req.api_key [] empty)) refl refl,
    )
    | inr given ↦ elim (Result-cases (query (sha256_hex req.api_key))) [
      | inr (e, unknown) ↦ (
        f,
        failed 401 (codes "invalid API key"),
        rw (given, has, unknown) refl,
        rejected (inr (e, unknown)) refl refl,
      )
      | inl ((user, tier), known) ↦
          let c = signed_in {U = User site} users sha256_hex (user, tier) in
          let (s', r, ran, out) = delete_link-DeletedBy req c f.server full in
          (
            record f { server = s' },
            r,
            rw (given, has, known, ran) refl,
            accepted user tier (λ e. cc (rw e at given)) known out,
          )
    ]
  ]

  -- DELETE /api/v1/urls/:code, for a code that is not empty and where the table of users can be asked:
  -- without a key, or with one that is not in the table, the answer has status 401 and nothing
  -- changes; otherwise the key is that of a user, and the answer is a success, after which the row of
  -- the code is marked as deleted if it is that user's and every other row is as it was, or an error
  -- with status 500.
  pub handle-Deletion :
      (query : Str → Result (User site × Str)) (code : Str) (req : Request) (f : Front site fl)
      → code ≢ []
      → users ≡ some query
      → (f' : Front site fl) × (r : Response (User site)) × (handle site fl eval
            (codes "DELETE")
            (link_path code)
            req
            f
          ≡ some (f', r))
        × Deletion query req.api_key code f f' r
  unfolding handle serve
  handle-Deletion query code req f full has =
      let (f', r, ran, out) = guarded-Deletion query (record req { code = code }) f full has in
      (f', r, rw (delete_route code full) ran, out)
