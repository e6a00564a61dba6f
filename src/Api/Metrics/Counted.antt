-- ===== src/Api/Metrics/Counted.antt =====
-- What the vectors of internal/api/middleware/metrics.go count, and with which labels.
use nanolink.Prelude.{
  count, ◌==◌, ◌+◌, ◌%◌, ◌^◌, ◌≡◌, ◌⊎◌, Bool, true, false, ◌&&◌, ◌||◌, Option, List, [], ◌∷◌, Str,
  codes, str_eq, if◌then◌else◌,
}
use nanolink.Prelude.Float.{Floats}
use nanolink.RateLimit.Service.{Eval}
use nanolink.Api.Messages.{Response, status}
use nanolink.Api.Handlers.{Site, User}
use nanolink.Api.Router.{Route, routes, endpoint_for}
use nanolink.Api.Metrics.{
  Labels, is_slash, Vectors, VectorLaws, pattern_text, full_path_in, Metered,
}

-- the text of a pattern of these routes
abbrev pub listed : Str → List Route → Bool
listed text [] = false
listed text (r ∷ rest) = str_eq text (pattern_text r.pattern) || listed text rest

-- The path as it is to be shown: the pattern of the first route that fits, or `unknown`.
abbrev pub shown : Str → List Str → Str
shown method path =
    let text = full_path_in routes method path in if str_eq text [] then codes "unknown" else text

abbrev pub Known : Str → Type 0
Known text = (text ≡ codes "unknown") ⊎ (listed text routes ≡ true)

module _ {U : Type 0} where
  -- An answer is to be counted at `k`: it has this method, path and status, and is no redirect for a
  -- slash at the end.
  abbrev pub belongs : Labels → Str × List Str × Response U → Bool
  belongs (m, text, code) (method, path, r) =
      if is_slash (endpoint_for method path)
      then false
      else str_eq method m && str_eq (shown method path) text && status r == code

  abbrev pub AllKnown : List (Str × List Str × Response U) → Type 0
  AllKnown [] = Unit {0}
  AllKnown ((method, path, r) ∷ answers) = Known (shown method path) × AllKnown answers

module _ (site : Site) (fl : Floats) (eval : Option (Eval fl)) (vec : Vectors fl.F)
    (laws : VectorLaws vec) where
  open laws use {value, samples, value_lt, samples_lt, inc_value, observe_samples}

  abbrev Answers : Type 0
  Answers = List (Str × List Str × Response (User site))

  -- The counter and the number of samples of each labels have grown by the answers that belong there.
  pub record Tallied (answers : Answers) (m m' : Metered site fl eval vec) : Type 0 where
    pub counted :
        (k : Labels)
        → value m'.http_requests_total k
          ≡ (value m.http_requests_total k + count (belongs k) answers) % 2 ^ 64
    pub sampled :
        (k : Labels)
        → samples m'.http_request_duration k
          ≡ (samples m.http_request_duration k + count (belongs k) answers) % 2 ^ 64
    pub known : AllKnown answers
