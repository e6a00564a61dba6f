-- ===== src/Api/Handling.antt =====
-- The handlers of internal/api/handlers as calls of the methods of internal/service/url_service.go.
use mathlib.Core.Path.{subst}
use nanolink.Prelude.{
  suc, ◌≡◌, sym, ◌++◌, Bool, true, false, Option, none, some, [], ◌∷◌, Str, str_eq, if◌then◌else◌,
  inl, inr, Option-cases,
}
use nanolink.Prelude.Result.{Result, ok, err}
use nanolink.Models.{ShortenRequest}
use nanolink.UrlService.World.{World, M, now, ◌>>=◌, >>=-run, pure}
use nanolink.UrlService.Shorten.{shorten_url}
use nanolink.UrlService.Resolve.{resolve_url, delete}
use nanolink.UrlService.Methods.{Call, shortened, resolved, deleted, waited}
use nanolink.Api.Messages.{Request, redirect, Task, Context}
use nanolink.Api.Handlers.{
  Site, User, Server, H, call, go, count, record_telemetry, shorten, shorten_bound, follow,
  redirect_to, delete_link, list_for, list_urls, generate_qr_code, show_stats, health_check,
}

-- A relation between the states before and after a handler, which calls of the methods keep.
module _ (site : Site) (R : Server site → Server site → Type 0) (same : (s : Server site) → R s s)
    (joined : (s t u : Server site) → R s t → R t u → R s u)
    (worked : (s : Server site) (w : World site.env)
      → Call site.env s.world w
      → R s (record s { world = w })) where
  open site use {env}

  abbrev pub Holds : {A : Type 0} → H site A → Type 0
  Holds {A = A} m = (s s' : Server site) (a : A) → m s ≡ some (s', a) → R s s'

  bind-Holds :
      {A B : Type 0} (m : H site A) (f : A → H site B)
      → Holds m
      → ((a : A) → Holds (f a))
      → Holds (m >>= f)
  bind-Holds m f p q = λ s s' b e.
      let (s1, a, ran, rest) = >>=-run m f s e in joined s s1 s' (p s s1 a ran) (q a s1 s' b rest)

  same-Holds : {A : Type 0} (a : A) → Holds (pure a)
  same-Holds a = λ s s' b e. let p : s ≡ s' = cc in subst (R s) p (same s)

  pub call-Holds :
      {A : Type 0} (m : M env A)
      → ((w w' : World env) (a : A) → m w ≡ some (w', a) → Call env w w')
      → Holds (call site m)
  unfolding call
  call-Holds m p = λ s s' a e. elim (Option-cases (m s.world)) [
    | inl stuck ↦ absurd (cc (rw (stuck, call) at e))
    | inr ((w, b), ran) ↦
        let out : some (record s { world = w }, b) ≡ some (s', a) = rw (ran, call) at e in
        let p1 : record s { world = w } ≡ s' = cc in subst (R s) p1 (worked s w (p s.world w b ran))
  ]

  now-Holds : Holds (call site (now env))
  unfolding now
  now-Holds = call-Holds (now env) (λ w w' a e.
      let p : record w { ticks = suc w.ticks } ≡ w' = cc in waited (suc w.ticks) (sym p))

  if-Holds :
      {A : Type 0} (b : Bool) (m k : H site A) → Holds m → Holds k → Holds (if b then m else k)
  if-Holds true m k p q = p
  if-Holds false m k p q = q

  pub shorten-Holds : (req : Request) (c : Context (User site)) → Holds (shorten site req c)
  unfolding shorten
  shorten-Holds req c = bound c req.body
    where
      bound : (c : Context (User site)) (b : Result ShortenRequest) → Holds (shorten_bound site c b)
      bound c (err e) = same-Holds _
      bound c (ok body) =
          bind-Holds _ _
            (call-Holds (shorten_url env body c.auth_user_id)
              (λ w w' r e. shortened body c.auth_user_id r e))
            (λ r. same-Holds _)

  resolve-Holds : (code : Str) → Holds (call site (resolve_url env code))
  resolve-Holds code = call-Holds (resolve_url env code) (λ w w' r e. resolved code r e)

  pub delete_link-Holds : (req : Request) (c : Context (User site)) → Holds (delete_link site req c)
  unfolding delete_link
  delete_link-Holds req c = if-Holds (str_eq req.code []) _ _ (same-Holds _) (
      bind-Holds _ _
        (call-Holds (delete env req.code c.auth_user_id)
          (λ w w' r e. deleted req.code c.auth_user_id r e))
        (λ r. same-Holds _))

  pub list_urls-Holds : (req : Request) (c : Context (User site)) → Holds (list_urls site req c)
  unfolding list_urls
  list_urls-Holds req c = listed c.auth_user_id
    where
      listed : (user : Option (User site)) → Holds (list_for site req user)
      listed none = same-Holds _
      listed (some user) = λ s s' a e. let p : s ≡ s' = cc in subst (R s) p (same s)

  pub generate_qr_code-Holds : (req : Request) → Holds (generate_qr_code site req)
  unfolding generate_qr_code
  generate_qr_code-Holds req = bind-Holds _ _ (resolve-Holds req.code) (λ r. same-Holds _)

  pub show_stats-Holds : (req : Request) → Holds (show_stats site req)
  unfolding show_stats
  show_stats-Holds req = if-Holds (str_eq req.code []) _ _ (same-Holds _) (same-Holds _)

  pub health_check-Holds : Holds (health_check site)
  unfolding health_check
  health_check-Holds = bind-Holds _ _ now-Holds (λ t. bind-Holds _ _ now-Holds (λ t'. same-Holds _))

  -- The same for the redirect, if the start of a goroutine keeps the relation.
  module _
      (launched : (s : Server site) (task : Task)
        → R s (record s { launched = s.launched ++ task ∷ [] })) where
    go-Holds : (task : Task) → Holds (go site task)
    unfolding go
    go-Holds task = λ s s' u e.
        let p : record s { launched = s.launched ++ task ∷ [] } ≡ s' = cc in
        subst (R s) p (launched s task)

    telemetry-Holds :
        (code ip user_agent referrer : Str)
        → Holds (record_telemetry site code ip user_agent referrer)
    unfolding record_telemetry
    telemetry-Holds code ip user_agent referrer =
        bind-Holds _ _ now-Holds (λ t. if-Holds env.has_redis _ _ (go-Holds _) (same-Holds tt))

    redirect_to-Holds : (req : Request) (r : Result Str) → Holds (redirect_to site req r)
    unfolding redirect_to count
    redirect_to-Holds req (err e) = same-Holds _
    redirect_to-Holds req (ok long_url) = bind-Holds _ _ (go-Holds _) (λ u.
        bind-Holds _ _ (telemetry-Holds req.code req.client_ip req.user_agent req.referer)
          (λ u'. same-Holds (redirect long_url)))

    pub follow-Holds : (req : Request) → Holds (follow site req)
    unfolding follow
    follow-Holds req =
        if-Holds (str_eq req.code []) _ _ (same-Holds _)
          (bind-Holds _ _ (resolve-Holds req.code) (redirect_to-Holds req))
