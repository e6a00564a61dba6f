-- ===== src/Api/Router/Handled.antt =====
-- A request on its whole way through internal/api/router.go, as calls of the methods of the services.
use mathlib.Core.Path.{subst}
use nanolink.Prelude.{◌≡◌, refl, ap, Option, none, some, Str}
use nanolink.Prelude.Float.{Floats}
use nanolink.UrlService.World.{World}
use nanolink.UrlService.Methods.{Call}
use nanolink.RateLimit.Service.{RateLimiterService, Eval}
use nanolink.Api.Messages.{Request, Response, Context}
use nanolink.Api.RateLimiter.{Answer, next, too_many_requests}
use nanolink.Api.Auth.{Guarded, pass, halt}
use nanolink.Api.Handlers.{Site, User, Server, H, follow}
use nanolink.Api.Handling.{
  Holds, shorten-Holds, delete_link-Holds, list_urls-Holds, generate_qr_code-Holds,
  show_stats-Holds, health_check-Holds,
}
use nanolink.Api.Router.{
  Endpoint, Front, Served, handled, guarded, with_context, limited, serve, dispatch,
}

module _ (site : Site) (fl : Floats) (eval : Option (Eval fl))
    (R : Server site → Server site → Type 0) (same : (s : Server site) → R s s)
    (joined : (s t u : Server site) → R s t → R t u → R s u)
    (worked : (s : Server site) (w : World site.env)
      → Call site.env s.world w
      → R s (record s { world = w })) where
  open site use {users, sha256_hex}

  unchanged :
      (f f' : Front site fl) (r r' : Response (User site))
      → ◌≡◌ {A = Served site fl eval} (some (f, r)) (some (f', r'))
      → R f.server f'.server
  unchanged f f' r r' e =
      let p : f ≡ f' = cc in subst (λ (x : Front site fl). R f.server x.server) p (same f.server)

  handled-Holds :
      (f f' : Front site fl) (r : Response (User site)) (m : H site (Response (User site)))
      (o : Option (Server site × Response (User site)))
      → Holds site R same joined worked m
      → m f.server ≡ o
      → handled site fl eval f o ≡ some (f', r)
      → R f.server f'.server
  handled-Holds f f' r m none h ran e = absurd (cc)
  handled-Holds f f' r m (some (s, t)) h ran e =
      let p : record f { server = s } ≡ f' = cc in
      subst (λ (x : Front site fl). R f.server x.server) p (h f.server s t ran)

  guarded-Holds :
      (f f' : Front site fl) (r : Response (User site)) (g : Option (Guarded (User site)))
      (handler : Context (User site) → H site (Response (User site)))
      → ((c : Context (User site)) → Holds site R same joined worked (handler c))
      → guarded site fl eval f g handler ≡ some (f', r)
      → R f.server f'.server
  guarded-Holds f f' r none handler h e = absurd (cc)
  guarded-Holds f f' r (some (halt t)) handler h e = unchanged f f' t r e
  guarded-Holds f f' r (some (pass c)) handler h e =
      handled-Holds f f' r (handler c) (handler c f.server) (h c) refl e

  with_context-Holds :
      (f f' : Front site fl) (r : Response (User site)) (o : Option (Context (User site)))
      (req : Request)
      → with_context site fl eval f o req ≡ some (f', r)
      → R f.server f'.server
  with_context-Holds f f' r none req e = absurd (cc)
  with_context-Holds f f' r (some c) req e =
      handled-Holds f f' r _ _ (shorten-Holds site R same joined worked req c) refl e

  limited-Holds :
      (f f' : Front site fl) (r : Response (User site))
      (o : Option (RateLimiterService fl × Answer)) (req : Request)
      → limited site fl eval f o req ≡ some (f', r)
      → R f.server f'.server
  limited-Holds f f' r none req e = absurd (cc)
  limited-Holds f f' r (some (l, too_many_requests k)) req e =
      unchanged (record f { limiter = l }) f' _ r e
  limited-Holds f f' r (some (l, next k)) req e =
      with_context-Holds (record f { limiter = l }) f' r _ req e

  serve-Holds :
      (e : Endpoint) (req : Request) (f f' : Front site fl) (r : Response (User site))
      → (e ≡ Endpoint.redirect → Holds site R same joined worked (follow site req))
      → serve site fl eval e req f ≡ some (f', r)
      → R f.server f'.server
  unfolding serve
  serve-Holds Endpoint.index req f f' r h e = unchanged f f' _ r e
  serve-Holds Endpoint.health req f f' r h e =
      handled-Holds f f' r _ _ (health_check-Holds site R same joined worked) refl e
  serve-Holds (Endpoint.slash n) req f f' r h e = unchanged f f' _ r e
  serve-Holds Endpoint.metrics req f f' r h e = unchanged f f' _ r e
  serve-Holds Endpoint.redirect req f f' r h e = handled-Holds f f' r _ _ (h refl) refl e
  serve-Holds Endpoint.shorten_url req f f' r h e = limited-Holds f f' r _ req e
  serve-Holds Endpoint.list req f f' r h e =
      guarded-Holds f f' r _ _ (list_urls-Holds site R same joined worked req) e
  serve-Holds Endpoint.delete_url req f f' r h e =
      guarded-Holds f f' r _ _ (delete_link-Holds site R same joined worked req) e
  serve-Holds Endpoint.get_stats req f f' r h e =
      handled-Holds f f' r _ _ (show_stats-Holds site R same joined worked req) refl e
  serve-Holds Endpoint.qr_code req f f' r h e =
      handled-Holds f f' r _ _ (generate_qr_code-Holds site R same joined worked req) refl e

  -- A request that is answered keeps the relation, if it does where it reaches the redirect.
  pub dispatch-Holds :
      (found : Option (Endpoint × Str)) (req : Request) (f f' : Front site fl)
      (r : Response (User site))
      → ((code : Str)
          → found ≡ some (Endpoint.redirect, code)
          → Holds site R same joined worked (follow site (record req { code = code })))
      → dispatch site fl eval found req f ≡ some (f', r)
      → R f.server f'.server
  dispatch-Holds none req f f' r h e = unchanged f f' _ r e
  dispatch-Holds (some (x, code)) req f f' r h e =
      serve-Holds x (record req { code = code }) f f' r (λ q. h code (ap (λ y. some (y, code)) q)) e
