-- ===== src/UrlService/World.antt =====
-- The state behind `URLService` and `BloomService`, and actions on it. An action returns the new
-- state and its result, or `none` where the program panics or the fuel of the identifier loop runs
-- out.
use nanolink.Prelude.{
  ℕ, suc, ◌/◌, ◌≡◌, Bool, true, false, ◌&&◌, not, Option, none, some, Str, if◌then◌else◌, inl, inr,
  Option-cases,
}
use nanolink.Prelude.Int.{ℤ, pos, negsuc}
use nanolink.Prelude.Result.{Result, ok, err}
use nanolink.Bloom.{BloomFilter}
use nanolink.Bloom
use nanolink.Snowflake.{Node}
use nanolink.Storage.Postgres.{Postgres}
use nanolink.Storage.Redis.{Redis, add_to_bloom, exists_in_bloom}

-- What is outside the service: the two servers, the wall clock (reading i, in nanoseconds), the MD5
-- sum in hexadecimal, the text of a time, whether the Redis client is not nil, and the base URL.
pub record Env : Type 1 where
  pub pg : Postgres
  pub rd : Redis
  pub clock : ℕ → ℤ
  pub fuel : ℕ
  pub md5_hex : Str → Str
  pub show_time : ℤ → Str
  pub has_redis : Bool
  pub base_url : Str

-- time.Time.UnixMilli: whole milliseconds, rounded down
abbrev pub unix_milli : ℤ → ℤ
unix_milli (pos n) = pos (n / 1000000)
unix_milli (negsuc n) = negsuc (n / 1000000)

module _ (env : Env) where
  open env use {pg, rd, clock, has_redis}

  -- `ticks` is the position of the next reading of the clock.
  pub record World : Type 0 where
    pub db : pg.Db
    pub kv : rd.Kv
    pub filter : BloomFilter
    pub node : Node
    pub ticks : ℕ

  abbrev pub M : Type 0 → Type 0
  M A = World → Option (World × A)

  unfoldable pub now : M ℤ
  now w = some (record w { ticks = suc w.ticks }, clock w.ticks)

  -- an action on Redis, whose error is dropped
  unfoldable pub on_redis : (rd.Kv → rd.Kv × Result (Unit {0})) → M (Unit {0})
  on_redis f w = if has_redis then some (record w { kv = (f w.kv).0 }, tt) else some (w, tt)

  -- `s.localFilter.Add(shortCode)`
  unfoldable pub add_local : Str → M (Unit {0})
  add_local code w = elim (Bloom.add w.filter code) [
    | none ↦ none
    | some bf ↦ some (record w { filter = bf }, tt)
  ]

  -- `exists, err := …; if err == nil && !exists { return false }`
  abbrev pub absent : Result Bool → Bool
  absent (ok b) = not b
  absent (err e) = false

  -- `BloomService.MightContain`
  unfoldable pub might_contain : World → Str → Option Bool
  might_contain w code = elim (Bloom.contains w.filter code) [
    | none ↦ none
    | some false ↦ some false
    | some true ↦ some (not (has_redis && absent (exists_in_bloom rd w.kv code)))
  ]

infixl 5 ◌>>=◌ ◌>>◌
abbrev pub ◌>>=◌ :
    {W A B : Type 0} → (W → Option (W × A)) → (A → W → Option (W × B)) → W → Option (W × B)
◌>>=◌ m f w = elim (m w) [ none ↦ none | some (w', a) ↦ f a w' ]

abbrev pub ◌>>◌ :
    {W B : Type 0} → (W → Option (W × Unit {0})) → (W → Option (W × B)) → W → Option (W × B)
m >> k = m >>= λ _. k

abbrev pub pure : {W A : Type 0} → A → W → Option (W × A)
pure a w = some (w, a)

module _ (env : Env) where
  -- `BloomService.Add`
  unfoldable pub bloom_add : Str → M env (Unit {0})
  bloom_add code = do add_local env code; on_redis env (λ kv. add_to_bloom env.rd kv code)

pub >>=-ok :
    {W A B : Type 0} (m : W → Option (W × A)) (f : A → W → Option (W × B)) (w : W) {w' : W} {a : A}
    → m w ≡ some (w', a)
    → (m >>= f) w ≡ f a w'
>>=-ok m f w e = rw (e, ◌>>=◌)

-- A run of two actions, one after the other.
pub >>=-run :
    {W A B : Type 0} (m : W → Option (W × A)) (f : A → W → Option (W × B)) (w : W) {r : W × B}
    → (m >>= f) w ≡ some r
    → (w' : W) × (a : A) × (m w ≡ some (w', a)) × (f a w' ≡ some r)
>>=-run m f w e = elim (Option-cases (m w)) [
  | inl stuck ↦ absurd (cc (rw (stuck, ◌>>=◌) at e))
  | inr ((w', a), ran) ↦ (w', a, ran, rw (ran, ◌>>=◌) at e)
]

module _ (env : Env) (f : env.rd.Kv → env.rd.Kv × Result (Unit {0})) (w : World env) where
  pub on_redis_client :
      env.has_redis ≡ true → on_redis env f w ≡ some (record w { kv = (f w.kv).0 }, tt)
  unfolding on_redis
  on_redis_client h = simp h

  pub on_redis_nil : env.has_redis ≡ false → on_redis env f w ≡ some (w, tt)
  unfolding on_redis
  on_redis_nil h = simp h
