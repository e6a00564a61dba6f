-- ===== src/Storage/Redis.antt =====
-- The cache and the shared filter of internal/storage/redis/redis.go and bloom.go. The Redis server
-- and go-redis are the parameter `rd`; a command that reads or sets an expiry takes the time.
use nanolink.Prelude.{◌≡◌, ◌⊎◌, Bool, true, Option, none, some, Str, ◌++◌, codes}
use nanolink.Prelude.Int.{ℤ, pos, ◌+ℤ◌, ◌≤ℤ◌, ◌<ℤ◌}
use nanolink.Prelude.Result.{Result, ok, err}

pub record Redis : Type 1 where
  pub Kv : Type 0
  -- SET key value with an expiry in nanoseconds, GET, DEL; a missing key is an error (redis.Nil)
  pub set : Kv → ℤ → Str → Str → ℤ → Kv × Result (Unit {0})
  pub get : Kv → ℤ → Str → Result Str
  pub del : Kv → Str → Kv × Result (Unit {0})
  -- BF.ADD and BF.EXISTS of the RedisBloom module
  pub bf_add : Kv → Str → Str → Kv × Result (Unit {0})
  pub bf_exists : Kv → Str → Str → Result Bool

-- go-redis rounds an expiry below a millisecond up to one.
abbrev pub grace : ℤ
grace = pos 1000000

module _ (rd : Redis) where
  open rd use {Kv, set, get, del, bf_add}

  -- What the program relies on: what GET returns was SET, and has not expired. A key may disappear at
  -- any command (eviction), and a command that fails may or may not have had its effect.
  pub record RedisLaws : Type 0 where
    -- the value at a key and the time at which it expires
    pub entry : Kv → Str → Option (Str × ℤ)
    pub get_ok :
        (kv : Kv) (now : ℤ) (key v : Str)
        → get kv now key ≡ ok v
        → (expiry : ℤ) × (entry kv key ≡ some (v, expiry)) × (now <ℤ expiry)
    pub set_sound :
        (kv : Kv) (now : ℤ) (key v : Str) (ttl : ℤ) (j w : Str) (expiry : ℤ)
        → entry (set kv now key v ttl).0 j ≡ some (w, expiry)
        → (entry kv j ≡ some (w, expiry)) ⊎ ((key ≡ j) × (w ≡ v) × (expiry ≤ℤ now +ℤ ttl +ℤ grace))
    pub del_sound :
        (kv : Kv) (key j w : Str) (expiry : ℤ)
        → entry (del kv key).0 j ≡ some (w, expiry)
        → entry kv j ≡ some (w, expiry)
    pub del_ok :
        (kv : Kv) (key : Str) (u : Unit {0})
        → (del kv key).1 ≡ ok u
        → entry (del kv key).0 key ≡ none
    pub bf_add_sound :
        (kv : Kv) (key element j w : Str) (expiry : ℤ)
        → entry (bf_add kv key element).0 j ≡ some (w, expiry)
        → entry kv j ≡ some (w, expiry)

-- `fmt.Sprintf("url:%s", shortCode)`
unfoldable pub url_key : Str → Str
url_key code = codes "url:" ++ code

abbrev pub bloom_key : Str
bloom_key = codes "bloom:urls"

module _ (rd : Redis) where
  open rd use {Kv, set, get, del, bf_add, bf_exists}

  unfoldable pub set_url : Kv → ℤ → Str → Str → ℤ → Kv × Result (Unit {0})
  set_url kv now code long_url ttl = set kv now (url_key code) long_url ttl

  unfoldable pub get_url : Kv → ℤ → Str → Result Str
  get_url kv now code = get kv now (url_key code)

  unfoldable pub invalidate_url : Kv → Str → Kv × Result (Unit {0})
  invalidate_url kv code = del kv (url_key code)

  unfoldable pub add_to_bloom : Kv → Str → Kv × Result (Unit {0})
  add_to_bloom kv code = bf_add kv bloom_key code

  -- an error counts as present, and is not passed on
  abbrev pub or_present : Result Bool → Result Bool
  or_present (ok b) = ok b
  or_present (err e) = ok true

  unfoldable pub exists_in_bloom : Kv → Str → Result Bool
  exists_in_bloom kv code = or_present (bf_exists kv bloom_key code)
