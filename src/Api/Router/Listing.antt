-- ===== src/Api/Router/Listing.antt =====
-- The list of a user's links: the route GET /api/v1/urls of internal/api/router.go.
use nanolink.Prelude.{
  ◌≡◌, refl, sym, ◌⊎◌, inl, inr, true, ◌&&◌, Option, none, some, List, [], ◌∷◌, Str, codes, arith,
  str_eq, str_eq_sound, Bool-cases,
}
use mathlib.Core.Path.{subst}
use nanolink.Prelude.Decimal.{atoi}
use nanolink.Prelude.Int.{ℤ, pos, ltb_ℤ, leb_ℤ, ◌≤ℤ◌, ◌<ℤ◌}
use nanolink.Prelude.Float.{Floats}
use nanolink.Prelude.Result.{Result, ok, err, Result-cases}
use nanolink.Models.{Url}
use nanolink.UrlService.Resolve.{list_user_urls}
use nanolink.RateLimit.Service.{Eval}
use nanolink.Api.Messages.{Request, Response, failed, listed, status}
use nanolink.Api.Auth.{require_auth, lookup_user}
use nanolink.Api.Handlers.{
  Site, User, Server, page_limit, page_offset, limit_of, offset_of, list_urls, listed_or_error,
}
use nanolink.Api.Router.{Endpoint, find_route, find_in, fit, Front, serve, handle}

-- What is read of a text, and its bounds.
module _ (site : Site) where
  -- the text is no number, or a number for which this holds
  abbrev pub NoneOr : (ℤ → Type 0) → Option ℤ → Type 0
  NoneOr Outside none = Unit {0}
  NoneOr Outside (some n) = Outside n

  -- the number of the text or, if that is none or outside, the default
  pub data Default (Outside : ℤ → Type 0) (text : Str) (default n : ℤ) : Type 0 where
    given : atoi text ≡ some n → Default Outside text default n
    missing : n ≡ default → NoneOr Outside (atoi text) → Default Outside text default n

  abbrev pub NoLimit : ℤ → Type 0
  NoLimit n = (n ≤ℤ pos 0) ⊎ (pos 101 ≤ℤ n)

  abbrev pub NoOffset : ℤ → Type 0
  NoOffset n = n <ℤ pos 0

  empty_missing :
      (Outside : ℤ → Type 0) (l : Str) (default : ℤ)
      → str_eq l [] ≡ true
      → Default Outside l default default
  unfolding atoi
  empty_missing Outside l default empty =
      missing refl (subst (λ t. NoneOr Outside (atoi t)) (sym (str_eq_sound l [] empty)) tt)

  limit_of_bounds : (o : Option ℤ) → (pos 1 ≤ℤ limit_of site o) × (limit_of site o ≤ℤ pos 100)
  limit_of_bounds none = omega arith
  limit_of_bounds (some val) = ground arith

  page_limit_bounds : (l : Str) → (pos 1 ≤ℤ page_limit site l) × (page_limit site l ≤ℤ pos 100)
  unfolding page_limit
  page_limit_bounds l = elim (Bool-cases (str_eq l [])) [
    | inl empty ↦ rw empty (omega arith)
    | inr full ↦ rw full (limit_of_bounds (atoi l))
  ]

  limit_of-Default :
      (l : Str) (o : Option ℤ) → atoi l ≡ o → Default NoLimit l (pos 20) (limit_of site o)
  limit_of-Default l none e = missing refl (subst (NoneOr NoLimit) (sym e) tt)
  limit_of-Default l (some val) e = elim (Bool-cases (ltb_ℤ (pos 0) val && leb_ℤ val (pos 100))) [
    | inl fits ↦ rw fits (given e)
    | inr large ↦
        let out : NoLimit val = ground arith in
        rw large (missing refl (subst (NoneOr NoLimit) (sym e) out))
  ]

  page_limit-Default : (l : Str) → Default NoLimit l (pos 20) (page_limit site l)
  unfolding page_limit
  page_limit-Default l = elim (Bool-cases (str_eq l [])) [
    | inl empty ↦ rw empty (empty_missing NoLimit l (pos 20) empty)
    | inr full ↦ rw full (limit_of-Default l (atoi l) refl)
  ]

  offset_of_bounds : (o : Option ℤ) → pos 0 ≤ℤ offset_of site o
  offset_of_bounds none = omega arith
  offset_of_bounds (some val) = ground arith

  page_offset_bounds : (o : Str) → pos 0 ≤ℤ page_offset site o
  unfolding page_offset
  page_offset_bounds o = elim (Bool-cases (str_eq o [])) [
    | inl empty ↦ rw empty (omega arith)
    | inr full ↦ rw full (offset_of_bounds (atoi o))
  ]

  offset_of-Default :
      (t : Str) (o : Option ℤ) → atoi t ≡ o → Default NoOffset t (pos 0) (offset_of site o)
  offset_of-Default t none e = missing refl (subst (NoneOr NoOffset) (sym e) tt)
  offset_of-Default t (some val) e = elim (Bool-cases (leb_ℤ (pos 0) val)) [
    | inl fits ↦ rw fits (given e)
    | inr less ↦
        let out : NoOffset val = ground arith in
        rw less (missing refl (subst (NoneOr NoOffset) (sym e) out))
  ]

  page_offset-Default : (o : Str) → Default NoOffset o (pos 0) (page_offset site o)
  unfolding page_offset
  page_offset-Default o = elim (Bool-cases (str_eq o [])) [
    | inl empty ↦ rw empty (empty_missing NoOffset o (pos 0) empty)
    | inr full ↦ rw full (offset_of-Default o (atoi o) refl)
  ]

list_route :
    find_route (codes "GET") (codes "api" ∷ codes "v1" ∷ codes "urls" ∷ [])
    ≡ some (Endpoint.list, [])
unfolding find_route find_in fit
list_route = refl

module _ (site : Site) (fl : Floats) (eval : Option (Eval fl)) where
  open site use {env, users, sha256_hex}

  -- A page of the links of this user.
  pub record Page (user : User site) (req : Request) (s : Server site) (r : Response (User site))
      : Type 0 where
    pub limit : ℤ
    pub offset : ℤ
    pub limit_from : Default site (NoLimit site) req.limit (pos 20) limit
    pub offset_from : Default site (NoOffset site) req.offset (pos 0) offset
    pub limit_bounds : (pos 1 ≤ℤ limit) × (limit ≤ℤ pos 100)
    pub offset_bounds : pos 0 ≤ℤ offset
    pub answer :
        ((urls : List (Url (User site))) × (list_user_urls env s.world user limit offset ≡ ok urls)
          × (r ≡ listed urls limit offset))
        ⊎ ((e : Str) × (list_user_urls env s.world user limit offset ≡ err e) × (r ≡ failed 500 e))

  list_answer :
      (limit offset : ℤ) (x : Result (List (Url (User site))))
      → ((urls : List (Url (User site))) × (x ≡ ok urls)
          × (listed_or_error site limit offset x ≡ listed urls limit offset))
        ⊎ ((e : Str) × (x ≡ err e) × (listed_or_error site limit offset x ≡ failed 500 e))
  list_answer limit offset (ok urls) = inl (urls, refl, refl)
  list_answer limit offset (err e) = inr (e, refl, refl)

  -- What a request for the list comes to.
  pub data Listing (query : Str → Result (User site × Str)) (req : Request) (s : Server site)
      (r : Response (User site)) : Type 0 where
    rejected :
        (req.api_key ≡ []) ⊎ ((e : Str) × (query (sha256_hex req.api_key) ≡ err e))
        → status r ≡ 401
        → Listing query req s r
    accepted :
        (user : User site) (tier : Str)
        → query (sha256_hex req.api_key) ≡ ok (user, tier)
        → Page user req s r
        → Listing query req s r

  -- GET /api/v1/urls, where the table of users can be asked: without a key, or with one that is not in
  -- the table, the answer has status 401; otherwise it is the repository's list for the user of the
  -- key, or its error with status 500. The list is asked for with a limit from 1 to 100 and an offset
  -- of at least 0: each is the number that the request gives or, if the text is no number or the number
  -- is outside that range, the default, 20 and 0. Nothing is changed.
  pub handle-Listing :
      (query : Str → Result (User site × Str)) (req : Request) (f : Front site fl)
      → users ≡ some query
      → (r : Response (User site)) × (handle site fl eval
            (codes "GET")
            (codes "api" ∷ codes "v1" ∷ codes "urls" ∷ [])
            req
            f
          ≡ some (f, r))
        × Listing query req f.server r
  unfolding handle serve require_auth lookup_user list_urls
  handle-Listing query req f has = elim (Bool-cases (str_eq req.api_key [])) [
    | inl empty ↦ (
      failed 401 (codes "missing X-API-Key header"),
      rw (list_route, empty) refl,
      rejected (inl (str_eq_sound req.api_key [] empty)) refl,
    )
    | inr full ↦ elim (Result-cases (query (sha256_hex req.api_key))) [
      | inr (e, unknown) ↦ (
        failed 401 (codes "invalid API key"),
        rw (list_route, full, has, unknown) refl,
        rejected (inr (e, unknown)) refl,
      )
      | inl ((user, tier), known) ↦
          let limit = page_limit site req.limit in
          let offset = page_offset site req.offset in
          let urls = list_user_urls env f.server.world user limit offset in
          (
            listed_or_error site limit offset urls,
            rw (list_route, full, has, known) refl,
            accepted user tier known (record {
              limit = limit;
              offset = offset;
              limit_from = page_limit-Default site req.limit;
              offset_from = page_offset-Default site req.offset;
              limit_bounds = page_limit_bounds site req.limit;
              offset_bounds = page_offset_bounds site req.offset;
              answer = list_answer limit offset urls;
            }),
          )
    ]
  ]
