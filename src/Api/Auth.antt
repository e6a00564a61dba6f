-- ===== src/Api/Auth.antt =====
-- internal/api/middleware/auth.go. The query of the table `users` is the parameter `users`, from the
-- hash of a key; `none` is a nil `*postgres.DB`, whose use panics.
use nanolink.Prelude.{Option, none, some, [], Str, codes, str_eq, if◌then◌else◌}
use nanolink.Prelude.Result.{Result, ok, err}
use nanolink.Api.Messages.{Response, failed, Context}

-- The request goes on with a context, or is answered.
pub data Guarded (U : Type 0) : Type 0 where
  pass : Context U → Guarded U
  halt : Response U → Guarded U

module _ {U : Type 0} (users : Option (Str → Result (U × Str))) (sha256_hex : Str → Str) where
  abbrev pub anonymous : Context U
  anonymous = record { auth_user_id = none; auth_user_tier = none }

  abbrev pub signed_in : U × Str → Context U
  signed_in (user, tier) = record { auth_user_id = some user; auth_user_tier = some tier }

  abbrev pub query_row : Option (Str → Result (U × Str)) → Str → Option (Result (U × Str))
  query_row none hash = none
  query_row (some query) hash = some (query hash)

  unfoldable pub lookup_user : Str → Option (Result (U × Str))
  lookup_user api_key = query_row users (sha256_hex api_key)

  abbrev pub if_known : Option (Result (U × Str)) → Option (Context U)
  if_known none = none
  if_known (some (err e)) = some anonymous
  if_known (some (ok row)) = some (signed_in row)

  unfoldable pub optional_auth : Str → Option (Context U)
  optional_auth api_key =
      if str_eq api_key [] then some anonymous else if_known (lookup_user api_key)

  abbrev pub required : Option (Result (U × Str)) → Option (Guarded U)
  required none = none
  required (some (err e)) = some (halt (failed 401 (codes "invalid API key")))
  required (some (ok row)) = some (pass (signed_in row))

  unfoldable pub require_auth : Str → Option (Guarded U)
  require_auth api_key =
      if str_eq api_key []
      then some (halt (failed 401 (codes "missing X-API-Key header")))
      else required (lookup_user api_key)
