-- ===== src/Models.antt =====
-- internal/models/models.go: the data that the service and the storage exchange. A time is a number of
-- nanoseconds since 1970, and a pointer that may be nil an option.
use nanolink.Prelude.{ℕ, Bool, Option, List, Str}
use nanolink.Prelude.Int.{ℤ}

-- `U` is the type of user identifiers, google/uuid's.
pub record Url (U : Type 0) : Type 0 where
  pub id : ℕ
  pub short_code : Str
  pub long_url : Str
  pub custom_alias : Bool
  pub user_id : Option U
  pub created_at : ℤ
  pub expires_at : Option ℤ
  pub click_count : ℤ
  pub is_active : Bool

pub record ShortenRequest : Type 0 where
  pub long_url : Str
  pub custom_alias : Str
  pub ttl_seconds : Option ℤ

pub record ShortenResponse : Type 0 where
  pub short_code : Str
  pub short_url : Str
  pub long_url : Str
  pub created_at : ℤ
  pub expires_at : Option ℤ

pub record ClickEvent : Type 0 where
  pub id : ℕ
  pub short_code : Str
  pub clicked_at : ℤ
  pub ip_hash : Str
  pub country_code : Str
  pub user_agent : Str
  pub device_type : Str
  pub browser : Str
  pub os : Str
  pub referrer : Str

pub record HourlyClickStat : Type 0 where
  pub hour : Str
  pub count : ℤ

-- A nil map or slice is `none`, and so is the zero time.
pub record UrlStatsResponse : Type 0 where
  pub short_code : Str
  pub long_url : Str
  pub total_clicks : ℤ
  pub created_at : Option ℤ
  pub clicks_by_country : Option (List (Str × ℤ))
  pub clicks_by_device : Option (List (Str × ℤ))
  pub clicks_by_referrer : Option (List (Str × ℤ))
  pub hourly_clicks : Option (List HourlyClickStat)
