-- ===== src/UrlService/Stored.antt =====
-- What the steps of `ShortenURL` up to the insertion leave.
use nanolink.Prelude.{
  suc, ◌≤◌, ◌≡◌, refl, sym, ap, inl, inr, Bool, true, Option, none, some, [], ◌++◌, Str, codes,
  length, str_eq, Bool-cases, Option-cases,
}
use mathlib.Core.Path.{subst}
use nanolink.Prelude.Int.{ℤ, pos, ltb_ℤ, ◌+ℤ◌}
use nanolink.UrlService.Alias.{alias_ok}
use nanolink.Prelude.Result.{Result, ok, err}
use nanolink.Models.{Url, ShortenRequest}
use nanolink.Snowflake.{generate}
use nanolink.Storage.Postgres.{PostgresLaws, create_url}
use nanolink.UrlService.World.{Env, World, now, unix_milli}
use nanolink.UrlService.Shorten.{
  create, retry, persist, fallback_code, expiry, pick_code, custom_code, generated_code,
  second_answer, ttl_duration,
}
use nanolink.UrlService.Persist.{Live, Extends, create_url-Inserts}

module _ (env : Env) where
  open env use {pg, clock}

  -- A step that changes neither the table nor the cache nor the filter.
  pub record Idle (w w' : World env) : Type 0 where
    pub db : w'.db ≡ w.db
    pub kv : w'.kv ≡ w.kv
    pub filter : w'.filter ≡ w.filter

  Idle-eq : {w w' : World env} → w ≡ w' → Idle w w'
  Idle-eq p = record {
    db = ap (λ x. x.db) (sym p);
    kv = ap (λ x. x.kv) (sym p);
    filter = ap (λ x. x.filter) (sym p);
  }

  custom_code-Idle :
      (alias : Str) (w : World env) {w' : World env} {r : Result (Str × Bool)}
      → custom_code env alias w ≡ some (w', r)
      → Idle w w'
  unfolding custom_code
  custom_code-Idle alias w {w' = x} e = elim (Bool-cases (alias_ok alias)) [
    | inl good ↦ let p : w ≡ x = cc (rw (good, custom_code) at e) in Idle-eq p
    | inr bad ↦ let p : w ≡ x = cc (rw (bad, custom_code) at e) in Idle-eq p
  ]

  generated_code-Idle :
      (w : World env) {w' : World env} {r : Result (Str × Bool)}
      → generated_code env w ≡ some (w', r)
      → Idle w w'
  unfolding generated_code
  generated_code-Idle w {w' = x} e =
      elim (Option-cases (generate env.fuel (λ i. unix_milli (clock i)) w.ticks w.node)) [
        | inl stuck ↦ absurd (cc (rw (stuck, generated_code) at e))
        | inr ((id, n, at), ran) ↦
            let w1 : World env = record w { node = n; ticks = at } in
            let p : w1 ≡ x = cc (rw (ran, generated_code) at e) in
            subst (λ y. Idle w y) p (record { db = refl; kv = refl; filter = refl })
      ]

  pub pick_code-Idle :
      (req : ShortenRequest) (w : World env) {w' : World env} {r : Result (Str × Bool)}
      → pick_code env req w ≡ some (w', r)
      → Idle w w'
  unfolding pick_code
  pick_code-Idle req w e = elim (Bool-cases (str_eq req.custom_alias [])) [
    | inl empty ↦ generated_code-Idle w (rw (empty, pick_code) at e)
    | inr given ↦ custom_code-Idle req.custom_alias w (rw (given, pick_code) at e)
  ]

  pub expiry-total :
      (ttl : Option ℤ) (w : World env)
      → (w' : World env) × (x : Option ℤ) × (expiry env ttl w ≡ some (w', x)) × Idle w w'
  unfolding expiry now
  expiry-total none w = (w, none, refl, record { db = refl; kv = refl; filter = refl })
  expiry-total (some s) w = elim (Bool-cases (ltb_ℤ (pos 0) s)) [
    | inl ahead ↦ (
      record w { ticks = suc w.ticks },
      some (clock w.ticks +ℤ ttl_duration s),
      rw ahead,
      record { db = refl; kv = refl; filter = refl },
    )
    | inr none' ↦ (w, none, rw none', record { db = refl; kv = refl; filter = refl })
  ]

  module _ (pgl : PostgresLaws pg) where
    pub record Persisted (w w' : World env) (url : Url pg.Uuid) (r : Result Str) : Type 0 where
      pub kv : w'.kv ≡ w.kv
      pub filter : w'.filter ≡ w.filter
      pub extends : Extends pg pgl w.db w'.db
      pub stored :
          (code : Str) → r ≡ ok code → (length code ≤ 10) × Live pg pgl w'.db code url.long_url

    second :
        (code long_url : Str) {db : pg.Db} (o : Result (Url pg.Uuid))
        → ((u : Url pg.Uuid) → o ≡ ok u → (length code ≤ 10) × Live pg pgl db code long_url)
        → (c : Str) → second_answer env code o ≡ ok c
        → (length c ≤ 10) × Live pg pgl db c long_url
    second code long_url {db} (ok u) done c e =
        let k : code ≡ c = cc in
        subst (λ x. (length x ≤ 10) × Live pg pgl db x long_url) k (done u refl)
    second code long_url (err x) done c e = absurd (cc)

    retry-Persisted :
        (url : Url pg.Uuid) (w : World env) (o : Result (Url pg.Uuid))
        → url.is_active ≡ true
        → ((u : Url pg.Uuid)
            → o ≡ ok u
            → (length url.short_code ≤ 10) × Live pg pgl w.db url.short_code url.long_url)
        → (w' : World env) × (r : Result Str) × (retry env url o w ≡ some (w', r))
          × Persisted w w' url r
    unfolding retry create now
    retry-Persisted url w (ok u) act done = (
      w,
      ok url.short_code,
      refl,
      record {
        kv = refl;
        filter = refl;
        extends = λ c row h. h;
        stored = λ c e.
            let k : url.short_code ≡ c = cc in
            subst (λ x. (length x ≤ 10) × Live pg pgl w.db x url.long_url) k (done u refl);
      },
    )
    retry-Persisted url w (err x) act done = elim (Bool-cases url.custom_alias) [
      | inl custom ↦ (
        w,
        err (codes "failed to create custom alias: " ++ x),
        rw custom,
        record { kv = refl; filter = refl; extends = λ c row h. h; stored = λ c e. absurd (cc) },
      )
      | inr generated ↦
          let code : Str = fallback_code env url.long_url (clock w.ticks) in
          let url' : Url pg.Uuid = record url { short_code = code } in
          let ins = create_url-Inserts pg pgl w.db url' act in
          (
            record w { db = (create_url pg w.db url').0; ticks = suc w.ticks },
            second_answer env code (create_url pg w.db url').1,
            rw generated,
            record {
              kv = refl;
              filter = refl;
              extends = ins.extends;
              stored = λ c e. second code url'.long_url (create_url pg w.db url').1 ins.added c e;
            },
          )
    ]

    pub persist-Persisted :
        (url : Url pg.Uuid) (w : World env)
        → url.is_active ≡ true
        → (w' : World env) × (r : Result Str) × (persist env url w ≡ some (w', r))
          × Persisted w w' url r
    unfolding persist create
    persist-Persisted url w act =
        let ins = create_url-Inserts pg pgl w.db url act in
        let w1 : World env = record w { db = (create_url pg w.db url).0 } in
        let (w', r, ran, p) = retry-Persisted url w1 (create_url pg w.db url).1 act ins.added in
        (
          w',
          r,
          ran,
          record {
            kv = p.kv;
            filter = p.filter;
            extends = λ c row h. p.extends c row (ins.extends c row h);
            stored = p.stored;
          },
        )
