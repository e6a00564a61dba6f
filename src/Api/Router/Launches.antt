-- ===== src/Api/Router/Launches.antt =====
-- The goroutines that a request of internal/api/router.go starts.
use mathlib.Core.Path.{subst, subst₂}
use nanolink.Prelude.{
  ℕ, suc, ◌+◌, ◌≤◌, ◌≡◌, ◌≢◌, codes, refl, sym, ◌∙◌, inl, inr, arith, Bool, true, false, Option,
  none, some, List, [], ◌∷◌, ◌++◌, Str, if◌then◌else◌, Bool-cases, str_eq,
}
use nanolink.Prelude.Int.{ℤ}
use nanolink.Prelude.Float.{Floats}
use nanolink.Prelude.Result.{Result, ok, err}
use nanolink.Models.{ClickEvent}
use nanolink.UrlService.World.{>>=-run}
use nanolink.UrlService.Methods.{resolved}
use nanolink.UrlService.Resolve.{resolve_url}
use nanolink.RateLimit.Service.{Eval}
use nanolink.Api.Messages.{Request, Response, failed, redirect, Task, count_click, publish_click}
use nanolink.Api.Handlers.{Site, User, Server, call, follow, redirect_to}
use nanolink.Api.Handling.{call-Holds}
use nanolink.Api.Router.{Endpoint, Front, handled, serve, dispatch}
use nanolink.Api.Router.Handled.{dispatch-Holds}
use nanolink.Api.Router.Redirection.{tasks_of, redirect_to_run, redirect_to-missed}

-- the goroutines that have a click to publish
abbrev pub clicks : List Task → ℕ
clicks [] = 0
clicks (count_click code ∷ l) = clicks l
clicks (publish_click event ∷ l) = clicks l + 1

pub clicks-append : (l k : List Task) → clicks (l ++ k) ≡ clicks l + clicks k
clicks-append [] k = omega arith
clicks-append (count_click code ∷ l) k = clicks-append l k
clicks-append (publish_click event ∷ l) k = omega (arith, clicks-append l k)

-- 1 for a redirect
abbrev pub redirects : {U : Type 0} → Response U → ℕ
redirects (redirect url) = 1
redirects _ = 0

abbrev pub count_redirects : {U : Type 0} → List (Response U) → ℕ
count_redirects [] = 0
count_redirects (r ∷ l) = count_redirects l + redirects r

pub parts :
    {A B : Type 0} {a c : A} {b d : B}
    → ◌≡◌ {A = Option (A × B)} (some (a, b)) (some (c, d))
    → (a ≡ c) × (b ≡ d)
parts e = (cc, cc)

module _ (site : Site) where
  open site use {env}

  abbrev Quiet : Server site → Server site → Type 0
  Quiet s s' = s'.launched ≡ s.launched

  tasks_of-clicks : (req : Request) (t : ℤ) → clicks (tasks_of site req t) ≤ 1
  tasks_of-clicks req t = by_client env.has_redis _
    where
      by_client :
          (b : Bool) (event : ClickEvent) → clicks (if b then publish_click event ∷ [] else []) ≤ 1
      by_client true event = omega arith
      by_client false event = omega arith

  redirect_to-clicks :
      (req : Request) (s s' : Server site) (x : Result Str) (r : Response (User site))
      → redirect_to site req x s ≡ some (s', r)
      → clicks s'.launched ≤ clicks s.launched + redirects r
  redirect_to-clicks req s s' (err x) r h =
      let both : some (s, failed 404 (codes "short code not found or expired")) ≡ some (s', r) =
        sym (redirect_to-missed site req s x) ∙ h in
      let (p, e) = parts both in
      subst (λ (x : Server site). clicks x.launched ≤ clicks s.launched + redirects r) p
        (omega arith)
  redirect_to-clicks req s s' (ok v) r h =
      let t = env.clock s.world.ticks in
      let s1 : Server site = record {
        world = record s.world { ticks = suc s.world.ticks };
        launched = s.launched ++ tasks_of site req t;
      } in
      let both : some (s1, redirect v) ≡ some (s', r) = sym (redirect_to_run site req s v) ∙ h in
      let (p, e) = parts both in
      subst₂ (λ (x : Server site) y. clicks x.launched ≤ clicks s.launched + redirects y) p e
        (omega (arith, clicks-append s.launched (tasks_of site req t), tasks_of-clicks req t))

  follow-clicks :
      (req : Request) (s s' : Server site) (r : Response (User site))
      → follow site req s ≡ some (s', r)
      → clicks s'.launched ≤ clicks s.launched + redirects r
  unfolding follow
  follow-clicks req s s' r h = elim (Bool-cases (str_eq req.code [])) [
    | inl empty ↦
        let both : some (s, failed 400 (codes "invalid short code")) ≡ some (s', r) =
          rw empty at h in
        let (p, e) = parts both in
        subst (λ (x : Server site). clicks x.launched ≤ clicks s.launched + redirects r) p
          (omega arith)
    | inr full ↦
        let (s1, x, ran, rest) =
          >>=-run (call site (resolve_url env req.code)) (redirect_to site req) s (rw full at h) in
        let kept : s1.launched ≡ s.launched =
          call-Holds site Quiet (λ t. refl) (λ a b c p q. q ∙ p) (λ t w c. refl)
            (resolve_url env req.code) (λ w w' y e. resolved req.code y e) s s1 x ran in
        rw kept at (redirect_to-clicks req s1 s' x r rest)
  ]

  other-clicks :
      (fl : Floats) (eval : Option (Eval fl)) (found : Option (Endpoint × Str)) (req : Request)
      (f f' : Front site fl) (r : Response (User site))
      → ((code : Str) → found ≢ some (Endpoint.redirect, code))
      → dispatch site fl eval found req f ≡ some (f', r)
      → clicks f'.server.launched ≤ clicks f.server.launched + redirects r
  other-clicks fl eval found req f f' r other h =
      let kept : f'.server.launched ≡ f.server.launched =
        dispatch-Holds site fl eval Quiet (λ t. refl) (λ a b c p q. q ∙ p) (λ t w c. refl) found req
          f f' r (λ code e. absurd (other code e)) h in
      rw kept (omega arith)

  -- A request starts at most one goroutine that has a click to publish, and none unless it is answered
  -- with a redirect.
  pub dispatch-clicks :
      (fl : Floats) (eval : Option (Eval fl)) (found : Option (Endpoint × Str)) (req : Request)
      (f f' : Front site fl) (r : Response (User site))
      → dispatch site fl eval found req f ≡ some (f', r)
      → clicks f'.server.launched ≤ clicks f.server.launched + redirects r
  unfolding serve
  dispatch-clicks fl eval (some (Endpoint.redirect, code)) req f f' r h =
      reached (follow site (record req { code = code }) f.server) refl h
    where
      reached :
          (o : Option (Server site × Response (User site)))
          → follow site (record req { code = code }) f.server ≡ o
          → handled site fl eval f o ≡ some (f', r)
          → clicks f'.server.launched ≤ clicks f.server.launched + redirects r
      reached none ran e = absurd (cc)
      reached (some (s, t)) ran e =
          let p : record f { server = s } ≡ f' = cc in
          let q : t ≡ r = cc in
          subst₂
            (λ (x : Front site fl) y.
              clicks x.server.launched ≤ clicks f.server.launched + redirects y)
            p q (follow-clicks (record req { code = code }) f.server s t ran)
  dispatch-clicks fl eval none req f f' r h = other-clicks fl eval none req f f' r (λ c q. cc) h
  dispatch-clicks fl eval (some (Endpoint.index, code)) req f f' r h =
      other-clicks fl eval (some (Endpoint.index, code)) req f f' r (λ c q. cc) h
  dispatch-clicks fl eval (some (Endpoint.health, code)) req f f' r h =
      other-clicks fl eval (some (Endpoint.health, code)) req f f' r (λ c q. cc) h
  dispatch-clicks fl eval (some (Endpoint.slash n, code)) req f f' r h =
      other-clicks fl eval (some (Endpoint.slash n, code)) req f f' r (λ c q. cc) h
  dispatch-clicks fl eval (some (Endpoint.metrics, code)) req f f' r h =
      other-clicks fl eval (some (Endpoint.metrics, code)) req f f' r (λ c q. cc) h
  dispatch-clicks fl eval (some (Endpoint.shorten_url, code)) req f f' r h =
      other-clicks fl eval (some (Endpoint.shorten_url, code)) req f f' r (λ c q. cc) h
  dispatch-clicks fl eval (some (Endpoint.list, code)) req f f' r h =
      other-clicks fl eval (some (Endpoint.list, code)) req f f' r (λ c q. cc) h
  dispatch-clicks fl eval (some (Endpoint.delete_url, code)) req f f' r h =
      other-clicks fl eval (some (Endpoint.delete_url, code)) req f f' r (λ c q. cc) h
  dispatch-clicks fl eval (some (Endpoint.get_stats, code)) req f f' r h =
      other-clicks fl eval (some (Endpoint.get_stats, code)) req f f' r (λ c q. cc) h
  dispatch-clicks fl eval (some (Endpoint.qr_code, code)) req f f' r h =
      other-clicks fl eval (some (Endpoint.qr_code, code)) req f f' r (λ c q. cc) h
