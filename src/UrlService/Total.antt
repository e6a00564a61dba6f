-- ===== src/UrlService/Total.antt =====
-- When `ShortenURL` returns.
use nanolink.Prelude.{
  ℕ, suc, ◌+◌, ◌<◌, ◌≡◌, refl, ◌∙◌, inl, inr, Bool, false, Option, some, [], Str, str_eq,
  Bool-cases,
}
use nanolink.Prelude.Int.{◌<ℤ◌}
use nanolink.Prelude.Result.{Result, ok, err}
use nanolink.Models.{ShortenRequest, ShortenResponse}
use nanolink.Bloom.Words.{IsValid}
use nanolink.Snowflake.Nodes.{generate-total}
use nanolink.Storage.Postgres.{PostgresLaws, get_by_short_code}
use nanolink.Storage.Redis.{RedisLaws}
use nanolink.UrlService.World.{Env, World, unix_milli, >>=-ok}
use nanolink.UrlService.Alias.{alias_ok, pad_code}
use nanolink.Base62.{encode}
use nanolink.UrlService.Shorten.{
  free_or_taken, invalid_alias, pick_code, custom_code, generated_code, shorten_as, shorten_url,
}
use nanolink.UrlService.Cache.{IsCoherent}
use nanolink.UrlService.Stored.{pick_code-Idle}
use nanolink.UrlService.Created.{shorten_as-After}

module _ (env : Env) where
  open env use {pg, clock, fuel}

  -- Reading j after the first one shows a later millisecond than the last identifier, and the fuel
  -- reaches it.
  pub record Moves (w : World env) (j : ℕ) : Type 0 where
    pub enough : suc j < fuel
    pub later : w.node.last_stamp <ℤ unix_milli (clock (suc w.ticks + j))

  custom_code-total :
      (alias : Str) (w : World env)
      → (w' : World env) × (r : Result (Str × Bool)) × (custom_code env alias w ≡ some (w', r))
  unfolding custom_code
  custom_code-total alias w = elim (Bool-cases (alias_ok alias)) [
    | inl good ↦ (w, free_or_taken env alias (get_by_short_code pg w.db alias), rw good refl)
    | inr bad ↦ (w, err invalid_alias, rw bad refl)
  ]

  generated_code-total :
      (w : World env) (j : ℕ)
      → Moves w j
      → (w' : World env) × (r : Result (Str × Bool)) × (generated_code env w ≡ some (w', r))
  unfolding generated_code
  generated_code-total w j m =
      let ((id, n, at), ran) =
        generate-total fuel (λ i. unix_milli (clock i)) w.ticks w.node j m.enough m.later in
      (
        record w { node = n; ticks = at },
        ok (pad_code (encode id), false),
        rw (ran, generated_code) refl,
      )

  pick_code-total :
      (req : ShortenRequest) (w : World env) (j : ℕ)
      → Moves w j
      → (w' : World env) × (r : Result (Str × Bool)) × (pick_code env req w ≡ some (w', r))
  unfolding pick_code
  pick_code-total req w j m = elim (Bool-cases (str_eq req.custom_alias [])) [
    | inl empty ↦ let (w', r, ran) = generated_code-total w j m in (w', r, rw empty ran)
    | inr given ↦ let (w', r, ran) = custom_code-total req.custom_alias w in (w', r, rw given ran)
  ]

  -- `ShortenURL` returns, a link or an error and without a panic, from a coherent state with a valid
  -- filter, as soon as some reading of the clock shows a millisecond after that of the last
  -- identifier and the fuel reaches it, whatever the database and Redis answer.
  pub shorten_url-total :
      (pgl : PostgresLaws pg) (rdl : RedisLaws env.rd) (req : ShortenRequest)
      (user : Option pg.Uuid) (w : World env) (j : ℕ)
      → IsCoherent env pgl rdl w
      → IsValid w.filter
      → Moves w j
      → (w' : World env) × (r : Result ShortenResponse) × (shorten_url env req user w
          ≡ some (w', r))
  unfolding shorten_url
  shorten_url-total pgl rdl req user w j c v m =
      let (w1, picked, ran) = pick_code-total req w j m in
      let i = pick_code-Idle env req w ran in
      let (w2, r, rest, a) =
        shorten_as-After env pgl rdl req user picked w1
          (λ k t z h. rw i.db (c k t z (rw i.kv at h))) (rw i.filter v) in
      (w2, r, >>=-ok (pick_code env req) (shorten_as env req user) w ran ∙ rest)
