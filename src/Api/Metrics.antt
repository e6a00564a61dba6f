-- ===== src/Api/Metrics.antt =====
-- internal/api/middleware/metrics.go: the counter and the histogram of the requests. The two vectors of
-- Prometheus are the parameter `vec`; a counter and the number of samples of a histogram are uint64.
pub mod Counted
use nanolink.Prelude.{
  ℕ, ◌+◌, ◌<◌, ◌%◌, ◌^◌, ◌≡◌, Bool, true, false, ◌&&◌, ◌==◌, Option, none, some, List, [], ◌∷◌,
  ◌++◌, Str, codes, str_eq, if◌then◌else◌,
}
use nanolink.Prelude.Float.{Floats}
use nanolink.RateLimit.Service.{Eval}
use nanolink.Api.Messages.{Request, Response}
use nanolink.Api.Handlers.{Site, User}
use nanolink.Api.Router.{
  Segment, fixed, param, Route, routes, fit, Front, Endpoint, endpoint_for, handle, labels,
}

-- method, path and status
abbrev pub Labels : Type 0
Labels = Str × Str × ℕ

abbrev pub same_labels : Labels → Labels → Bool
same_labels (method, path, code) (method', path', code') =
    str_eq method method' && str_eq path path' && code == code'

pub record Vectors (F : Type 0) : Type 1 where
  pub Counters : Type 0
  pub Histograms : Type 0
  -- `WithLabelValues(…).Inc()` and `WithLabelValues(…).Observe(…)`
  pub inc : Counters → Labels → Counters
  pub observe : Histograms → Labels → F → Histograms

module _ {F : Type 0} (vec : Vectors F) where
  pub record VectorLaws : Type 0 where
    pub value : vec.Counters → Labels → ℕ
    pub samples : vec.Histograms → Labels → ℕ
    pub value_lt : (c : vec.Counters) (k : Labels) → value c k < 2 ^ 64
    pub samples_lt : (h : vec.Histograms) (k : Labels) → samples h k < 2 ^ 64
    pub inc_value :
        (c : vec.Counters) (l k : Labels)
        → value (vec.inc c l) k ≡ (value c k + (if same_labels l k then 1 else 0)) % 2 ^ 64
    pub observe_samples :
        (h : vec.Histograms) (l k : Labels) (x : F)
        → samples (vec.observe h l x) k
          ≡ (samples h k + (if same_labels l k then 1 else 0)) % 2 ^ 64

-- the text of a pattern, as it is registered; every parameter is called `code`
abbrev pub segments_text : List Segment → Str
segments_text [] = []
segments_text (fixed s ∷ pattern) = codes "/" ++ s ++ segments_text pattern
segments_text (param ∷ pattern) = codes "/:code" ++ segments_text pattern

abbrev pub pattern_text : List Segment → Str
pattern_text [] = codes "/"
pattern_text (s ∷ pattern) = segments_text (s ∷ pattern)

abbrev pub fits : Option Str → Bool
fits none = false
fits (some code) = true

-- `c.FullPath()`: the pattern of the route that is found, or nothing
unfoldable pub full_path_in : List Route → Str → List Str → Str
full_path_in [] method path = []
full_path_in (r ∷ rest) method path =
    let other = full_path_in rest method path in
    if str_eq method r.method && fits (fit r.pattern path []) then pattern_text r.pattern else other

abbrev pub is_slash : Option (Endpoint × Str) → Bool
is_slash (some (Endpoint.slash n, code)) = true
is_slash _ = false

module _ (site : Site) (fl : Floats) (eval : Option (Eval fl)) (vec : Vectors fl.F) where
  -- the services, HttpRequestsTotal and HttpRequestDuration
  pub record Metered : Type 0 where
    pub front : Front site fl
    pub http_requests_total : vec.Counters
    pub http_request_duration : vec.Histograms

  -- what follows `c.Next()`; a panic passes over it
  abbrev pub observed :
      Str
      → Str
      → fl.F
      → Metered
      → Option (Front site fl × Response (User site))
      → Option (Metered × Response (User site))
  observed method full_path duration m none = none
  observed method full_path duration m (some (f, r)) =
      let l = labels site fl eval method full_path r in
      some (
        record {
          front = f;
          http_requests_total = vec.inc m.http_requests_total l;
          http_request_duration = vec.observe m.http_request_duration l duration;
        },
        r,
      )

  -- a request that Gin redirects before the middleware
  abbrev pub bypassed :
      Metered
      → Option (Front site fl × Response (User site))
      → Option (Metered × Response (User site))
  bypassed m none = none
  bypassed m (some (f, r)) = some (record m { front = f }, r)

  -- a request that takes `duration` seconds
  unfoldable pub metrics_middleware :
      Str → List Str → Request → fl.F → Metered → Option (Metered × Response (User site))
  metrics_middleware method path req duration m =
      if is_slash (endpoint_for method path)
      then bypassed m (handle site fl eval method path req m.front)
      else observed method (full_path_in routes method path) duration m
          (handle site fl eval method path req m.front)

  -- Requests one after the other, each with its method, path and duration, and what each is answered.
  unfoldable pub serve_all :
      List (Str × List Str × Request × fl.F)
      → Metered
      → Option (Metered × List (Str × List Str × Response (User site)))
  serve_all [] m = some (m, [])
  serve_all ((method, path, req, duration) ∷ requests) m =
      elim (metrics_middleware method path req duration m) [
        | none ↦ none
        | some (m1, r) ↦ elim (serve_all requests m1) [
          | none ↦ none
          | some (m2, answers) ↦ some (m2, (method, path, r) ∷ answers)
        ]
      ]
