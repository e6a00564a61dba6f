-- ===== src/Tests/Requests.antt =====
-- User agents and requests.
use nanolink.Prelude.{◌≡◌, refl, inl, inr, none, some, [], ◌∷◌, ◌++◌, codes}
use nanolink.Prelude.Int.{pos, ◌-ℤ◌}
use nanolink.Analytics.{to_lower, click_event}
use nanolink.Analytics.Agents.{click_event-mobile}
use nanolink.RateLimit.Service.{RateLimiterService, allow, allow_local, bucket_of}
use nanolink.TokenBucket.{new_token_bucket, refilled}
use nanolink.TokenBucket
use nanolink.Prelude.Map.{find, put}
use nanolink.Api.RateLimiter.{next, client_key, rate_limiter, answer_to}
use nanolink.Tests.Numbers.{wholes}

android_lower : to_lower (codes "Android") ≡ codes "android"
unfolding to_lower
android_lower = refl

linux_lower : to_lower (codes "Linux") ≡ codes "linux"
unfolding to_lower
linux_lower = refl

android_is_mobile :
    (click_event
      (λ ip. ip)
      (pos 0)
      (codes "docs")
      (codes "10.0.0.1")
      (codes "Mozilla/5.0 (Linux; " ++ (codes "Android" ++ codes " 14)"))
      []).device_type
    ≡ codes "mobile"
android_is_mobile =
    click_event-mobile (λ ip. ip) (pos 0) (codes "docs") (codes "10.0.0.1")
      (codes "Mozilla/5.0 (Linux; ") (codes "Android") (codes " 14)") [] (inr (inl android_lower))

same_key :
    client_key (codes "10.0.0.1") (codes "secret") ≡ client_key (codes "10.0.0.2") (codes "secret")
unfolding client_key
same_key = refl

abbrev limits : RateLimiterService wholes
limits = record { local_limits = []; capacity = 1; refill_rate = 0 }

abbrev full : TokenBucket.TokenBucket wholes
full = record { capacity = 1; refill_rate = 0; tokens = 0; last_updated = pos 0 }

abbrev limits_after : RateLimiterService wholes
limits_after = record {
  local_limits = (codes "ip:10.0.0.1", full) ∷ [];
  capacity = 1;
  refill_rate = 0;
}

let_through :
    rate_limiter wholes limits none (codes "10.0.0.1") [] (pos 0) (pos 0)
    ≡ some (limits_after, next (some (pos 0)))
unfolding rate_limiter client_key answer_to allow allow_local bucket_of new_token_bucket refilled
    TokenBucket.allow find put ◌-ℤ◌
let_through = refl
