-- ===== src/Tests/Meters.antt =====
-- Two requests, and what the vectors of Prometheus count of them.
use nanolink.Prelude.{
  ℕ, ◌+◌, ◌%◌, ◌^◌, Option, none, some, List, [], ◌∷◌, Str, codes, if◌then◌else◌, arith,
}
use nanolink.Api.Messages.{Request, Response}
use nanolink.Api.Handlers.{User}
use nanolink.Api.Metrics.{Labels, same_labels, Vectors, VectorLaws, Metered, serve_all}
use nanolink.Tests.Numbers.{wholes}
use nanolink.Tests.Life.{new}
use nanolink.Tests.Web.{web, no_redis, request}

abbrev vectors : Vectors ℕ
vectors = record {
  Counters = Labels → ℕ;
  Histograms = Labels → ℕ;
  inc = λ c l k. c k + (if same_labels l k then 1 else 0);
  observe = λ h l x k. h k + (if same_labels l k then 1 else 0);
}

abbrev vector_laws : VectorLaws vectors
vector_laws = record {
  value = λ c k. c k % 2 ^ 64;
  samples = λ h k. h k % 2 ^ 64;
  value_lt = λ c k. omega arith;
  samples_lt = λ h k. omega arith;
  inc_value = λ c l k. omega arith;
  observe_samples = λ h l k x. omega arith;
}

abbrev unused : Metered web wholes no_redis vectors
unused = record { front = new.front; http_requests_total = λ k. 0; http_request_duration = λ k. 0 }

abbrev requests : List (Str × List Str × Request × ℕ)
requests =
    (codes "GET", codes "health" ∷ [], request, 1)
    ∷ (codes "PUT", codes "any" ∷ codes "path" ∷ [], request, 2)
    ∷ []

abbrev Answers : Type 0
Answers = List (Str × List Str × Response (User web))

abbrev or_unused :
    Option (Metered web wholes no_redis vectors × Answers)
    → Metered web wholes no_redis vectors × Answers
or_unused none = (unused, [])
or_unused (some got) = got

abbrev used : Metered web wholes no_redis vectors
used = (or_unused (serve_all web wholes no_redis vectors requests unused)).0

abbrev seen : Answers
seen = (or_unused (serve_all web wholes no_redis vectors requests unused)).1
