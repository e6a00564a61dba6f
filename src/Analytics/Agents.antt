-- ===== src/Analytics/Agents.antt =====
-- What the classification of a user agent depends on.
use nanolink.Prelude.{
  ℕ, ◌≡◌, ◌≢◌, refl, ap, inl, inr, ◌⊎◌, Bool, true, false, ◌||◌, arith, [], ◌∷◌, ◌++◌, Str, codes,
  if◌then◌else◌,
}
use nanolink.Prelude.Int.{ℤ}
use nanolink.Analytics.{
  to_lower, lower, starts_with, includes, device_type, operating_system, click_event,
}

starts_with-append : (sub after : Str) → starts_with (sub ++ after) sub ≡ true
unfolding starts_with
starts_with-append [] after = refl
starts_with-append (c ∷ sub) after = ground (arith, starts_with-append sub after)

includes-head : (str sub : Str) → starts_with str sub ≡ true → includes str sub ≡ true
unfolding includes
includes-head [] sub h = h
includes-head (c ∷ str) sub h = rw h refl

-- A text includes each of its parts.
includes-append : (before sub after : Str) → includes (before ++ (sub ++ after)) sub ≡ true
unfolding includes
includes-append [] sub after = includes-head (sub ++ after) sub (starts_with-append sub after)
includes-append (c ∷ before) sub after = ground (arith, includes-append before sub after)

to_lower-append : (xs ys : Str) → to_lower (xs ++ ys) ≡ to_lower xs ++ to_lower ys
unfolding to_lower
to_lower-append [] ys = refl
to_lower-append (c ∷ xs) ys = ap (◌∷◌ (lower c)) (to_lower-append xs ys)

includes-to_lower :
    (before token after word : Str)
    → to_lower token ≡ word
    → includes (to_lower (before ++ (token ++ after))) word ≡ true
includes-to_lower before token after word h =
    rw (to_lower-append before (token ++ after), to_lower-append token after, h)
      (includes-append (to_lower before) word (to_lower after))

-- A user agent in which "mobile", "android" or "iphone" stands anywhere, in any letter case, is
-- recorded as a mobile device, whatever the rest of it says.
pub click_event-mobile :
    (sha256_hex : Str → Str) (now : ℤ) (short_code ip before token after referrer : Str)
    → (to_lower token ≡ codes "mobile")
      ⊎ (to_lower token ≡ codes "android")
      ⊎ (to_lower token ≡ codes "iphone")
    → (click_event sha256_hex now short_code ip (before ++ (token ++ after)) referrer).device_type
      ≡ codes "mobile"
unfolding click_event device_type
click_event-mobile sha now code ip before token after ref (inl h) =
    ground (arith, includes-to_lower before token after (codes "mobile") h)
click_event-mobile sha now code ip before token after ref (inr (inl h)) =
    ground (arith, includes-to_lower before token after (codes "android") h)
click_event-mobile sha now code ip before token after ref (inr (inr h)) =
    ground (arith, includes-to_lower before token after (codes "iphone") h)

abbrev initial : Str → ℕ
initial [] = 0
initial (c ∷ str) = c

-- the branches of the operating system, once "linux" is there
not_android :
    (windows mac android ios : Bool)
    → (if windows
        then codes "windows"
        else if mac
        then codes "macos"
        else if true
        then codes "linux"
        else if android
        then codes "android"
        else if ios
        then codes "ios"
        else codes "other")
      ≢ codes "android"
not_android true mac android ios e = let d : 119 ≡ 97 = ap initial e in omega (arith, d)
not_android false true android ios e = let d : 109 ≡ 97 = ap initial e in omega (arith, d)
not_android false false android ios e = let d : 108 ≡ 97 = ap initial e in omega (arith, d)

-- A user agent in which "linux" stands anywhere, in any letter case, is never recorded as Android,
-- whatever the rest of it says.
pub click_event-ne_android :
    (sha256_hex : Str → Str) (now : ℤ) (short_code ip before token after referrer : Str)
    → to_lower token ≡ codes "linux"
    → (click_event sha256_hex now short_code ip (before ++ (token ++ after)) referrer).os
      ≢ codes "android"
unfolding click_event operating_system
click_event-ne_android sha now code ip before token after ref h e =
    not_android (includes (agent) (codes "windows"))
      (includes agent (codes "macintosh") || includes agent (codes "mac os"))
      (includes agent (codes "android")) (includes agent (codes "ios"))
      (rw (includes-to_lower before token after (codes "linux") h) at e)
  where
    agent : Str
    agent = to_lower (before ++ (token ++ after))
