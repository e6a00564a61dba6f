-- ===== src/Api/Router/Paths.antt =====
-- Which paths reach which endpoint: internal/api/router.go.
use nanolink.Prelude.{
  ◌≡◌, ◌≢◌, ◌↔◌, refl, inl, inr, false, none, some, [], ◌∷◌, Str, codes, arith, str_eq,
  str_eq_sound, Bool-cases, if◌then◌else◌,
}
use nanolink.Api.Router.{Endpoint, find_route, find_in, fit}

pub str_ne : (a b : Str) → a ≢ b → str_eq a b ≡ false
str_ne a b h = elim (Bool-cases (str_eq a b)) [
  | inl same ↦ absurd (h (str_eq_sound a b same))
  | inr other ↦ other
]

one_segment :
    (code : Str)
    → find_route (codes "GET") (code ∷ []) ≡ (
        if str_eq code (codes "health")
        then some (Endpoint.health, [])
        else if str_eq code (codes "metrics")
        then some (Endpoint.metrics, [])
        else if str_eq code []
        then none
        else some (Endpoint.redirect, code))
unfolding find_route find_in fit
one_segment code = ground arith

-- A GET request for one segment, which is how a short URL is written, reaches the redirect with the
-- segment as its code exactly if it is neither `health` nor `metrics`, where it is not empty.
pub find_route-redirect_iff :
    (code : Str)
    → code ≢ []
    → (find_route (codes "GET") (code ∷ []) ≡ some (Endpoint.redirect, code))
      ↔ ((code ≢ codes "health") × (code ≢ codes "metrics"))
find_route-redirect_iff code full = (
  λ e. (
    λ h. absurd (cc (rw (h) at (rw (one_segment code) at e))),
    λ h. absurd (cc (rw (h) at (rw (one_segment code) at e))),
  ),
  λ h.
      rw
        (
          one_segment code,
          str_ne code (codes "health") h.0,
          str_ne code (codes "metrics") h.1,
          str_ne code [] full,
        )
        refl,
)
