-- ===== src/RateLimit/Exact.antt =====
-- The script over whole numbers: exact arithmetic, and how much it can grant.
use nanolink.Prelude.{
  ℕ, ◌+◌, ◌-◌, ◌*◌, ◌/◌, ◌^◌, ◌≤◌, ◌<◌, ◌≡◌, refl, Bool, true, false, Option, none, some, arith,
  List, [], ◌∷◌, inl, inr, leb, ◌==◌, if◌then◌else◌, Bool-cases, ◌∙◌, ap,
}
use nanolink.Prelude.Int.{pos}
use nanolink.Prelude.Float.{Floats, Exact, Whole}
use native.Mathlib.Nat.{div-add-mod', mod-lt, div-lt_iff_lt-mul, le-mul_of_pos_right}
use nanolink.RateLimit.Script.{Hash, Outcome, available, settle, attempt, expires, checked, script}

-- What the bucket holds when a request is looked at.
abbrev pub at_hand : ℕ → ℕ → ℕ → ℕ → ℕ → ℕ
at_hand c r now t last = let sum : ℕ = t + (now - last) * r in if leb c sum then c else sum

-- What a request leaves in the bucket.
abbrev pub left : ℕ → ℕ → ℕ
left requested have = if leb requested have then have - requested else have

-- The seconds after which a bucket is full again: c / r, rounded up.
abbrev pub lifetime : ℕ → ℕ → ℕ
lifetime c r = (c + (r - 1)) / r

-- In that time the bucket is filled whole.
pub lifetime_fills : (c r : ℕ) → 0 < r → c ≤ lifetime c r * r
lifetime_fills c r h = omega (arith, div-add-mod' (c + (r - 1)) r, mod-lt (c + (r - 1)) h)

lifetime-le : (c r : ℕ) → 0 < r → lifetime c r ≤ c
lifetime-le c r h =
    let e : c + (r - 1) < (c + 1) * r = omega (arith, le-mul_of_pos_right c h) in
    omega (arith, (div-lt_iff_lt-mul h).1 e)

-- The times of the calls do not go back, from `last` up to `end`.
abbrev pub Timed : ℕ → ℕ → List (ℕ × ℕ) → Type 0
Timed last end [] = last ≤ end
Timed last end ((now, requested) ∷ calls) =
    (last ≤ now) × (requested ≤ 2 ^ 53) × Timed now end calls

pub Timed-le : (last end : ℕ) (calls : List (ℕ × ℕ)) → Timed last end calls → last ≤ end
Timed-le last end [] h = h
Timed-le last end ((now, requested) ∷ calls) h = omega (arith, Timed-le now end calls h.2)

pub time_split : (a b c r : ℕ) → a ≤ b → b ≤ c → (c - a) * r ≡ (b - a) * r + (c - b) * r
time_split a b c r p q = let e : c - a ≡ (b - a) + (c - b) = omega arith in rw e (omega arith)

-- What a call grants and leaves is what the bucket held and the refill, and never above the capacity.
pub left-le : (c r now t last requested : ℕ) → t ≤ c → left requested (at_hand c r now t last) ≤ c
left-le c r now t last requested h = ground arith

paid-le :
    (c r now t last requested : ℕ)
    → (if leb requested (at_hand c r now t last) then requested else 0)
        + left requested (at_hand c r now t last)
      ≤ t + (now - last) * r
paid-le c r now t last requested = ground arith

paid_flag : (b : Bool) (n : ℕ) → (if (if b then 1 else 0) == 1 then n else 0) ≡ (if b then n else 0)
paid_flag true n = refl
paid_flag false n = refl

module _ (fl : Floats) where
  open fl use {F, of_nat}

  abbrev pub whole : ℕ → ℕ → Hash fl
  whole t last = record { tokens = some (of_nat t); last_updated = some (of_nat last) }

  abbrev pub missing : Hash fl
  missing = record { tokens = none; last_updated = none }

  -- the outcome for a request when the bucket holds `have`
  abbrev pub verdict : ℕ → ℕ → ℕ → ℕ → ℕ → Outcome fl
  verdict c r now requested have = record {
    tokens = of_nat (left requested have);
    last_updated = of_nat now;
    expire = if leb requested have then some (of_nat (lifetime c r)) else none;
    allowed = if leb requested have then 1 else 0;
    remaining = pos (left requested have);
  }

  -- the sum of what the calls are granted, one after the other, each a time and a number of tokens
  unfoldable pub granted : ℕ → ℕ → List (ℕ × ℕ) → Hash fl → Option ℕ
  granted c r [] h = some 0
  granted c r ((now, requested) ∷ calls) h =
      elim (script fl h (of_nat c) (of_nat r) (of_nat now) (of_nat requested)) [
        | none ↦ none
        | some o ↦
            elim (granted c r calls
              (record { tokens = some o.tokens; last_updated = some o.last_updated })) [
                | none ↦ none
                | some sum ↦ some ((if o.allowed == 1 then requested else 0) + sum)
              ]
      ]

  module _ (exact : Exact fl) (wholly : Whole fl) where
    settle-exact :
        (c r now requested have : ℕ)
        → 0 < r
        → c ≤ 2 ^ 52
        → r ≤ 2 ^ 53
        → requested ≤ 2 ^ 53
        → have ≤ 2 ^ 53
        → settle fl (of_nat c) (of_nat r) (of_nat now) (of_nat requested) (of_nat have)
          ≡ verdict c r now requested have
    unfolding settle
    settle-exact c r now requested have pr hc hf hr hh = elim (Bool-cases (leb requested have)) [
      | inl yes' ↦ rw (
        exact.le_exact requested have hr hh,
        yes',
        exact.sub_exact have requested (ground arith) hh,
        exact.floor_exact (have - requested) (omega arith),
        wholly.ceil_exact c r pr hc hf,
      )
      | inr no' ↦ rw (exact.le_exact requested have hr hh, no', exact.floor_exact have hh)
    ]

    -- EXPIRE takes the lifetime of a bucket.
    expires-lifetime :
        (b : Bool) (c r : ℕ)
        → 0 < r
        → c ≤ 2 ^ 52
        → expires fl (if b then some (of_nat (lifetime c r)) else none) ≡ true
    expires-lifetime true c r pr hc =
        wholly.seconds_exact (lifetime c r) (omega (arith, lifetime-le c r pr))
    expires-lifetime false c r pr hc = refl

    pub checked-verdict :
        (c r now requested have : ℕ)
        → 0 < r
        → c ≤ 2 ^ 52
        → checked fl (some (verdict c r now requested have)) ≡ some (verdict c r now requested have)
    checked-verdict c r now requested have pr hc =
        ap (λ b. if b then some (verdict c r now requested have) else none)
          (expires-lifetime (leb requested have) c r pr hc)

    available-exact :
        (c r now t last : ℕ)
        → c ≤ 2 ^ 53
        → now ≤ 2 ^ 53
        → last ≤ 2 ^ 53
        → r ≤ 2 ^ 53
        → t + (now - last) * r ≤ 2 ^ 53
        → available fl (of_nat c) (of_nat r) (of_nat now) (of_nat t) (of_nat last)
          ≡ of_nat (at_hand c r now t last)
    unfolding available
    available-exact c r now t last hc hn hl hf hs =
        let h : (now - last) * r ≤ 2 ^ 53 = omega arith in
        rw (
          exact.max-sub_exact now last hn hl,
          available,
          exact.mul_exact (now - last) r (omega arith) hf h,
          exact.add_exact t ((now - last) * r) hs,
          exact.min_exact c (t + (now - last) * r) hc hs,
        )

    -- the run up to EXPIRE, on a bucket and on a missing key
    pub attempt-exact :
        (c r now requested t last : ℕ)
        → 0 < r
        → c ≤ 2 ^ 52
        → now ≤ 2 ^ 53
        → last ≤ 2 ^ 53
        → requested ≤ 2 ^ 53
        → r ≤ 2 ^ 53
        → t + (now - last) * r ≤ 2 ^ 53
        → (attempt fl (whole t last) (of_nat c) (of_nat r) (of_nat now) (of_nat requested)
            ≡ some (verdict c r now requested (at_hand c r now t last)))
          × (attempt fl missing (of_nat c) (of_nat r) (of_nat now) (of_nat requested)
              ≡ some (verdict c r now requested c))
    unfolding attempt
    attempt-exact c r now requested t last pr hc hn hl hr hf hs =
        let have : at_hand c r now t last ≤ 2 ^ 53 = ground arith in
        (
          rw (
            available-exact c r now t last (omega arith) hn hl hf hs,
            settle-exact c r now requested (at_hand c r now t last) pr hc hf hr have,
          ),
          rw (settle-exact c r now requested c pr hc hf hr (omega arith)),
        )

    -- On whole numbers, where the rate is not 0, the capacity is at most 2 ^ 52, and the rate, the
    -- times, the request and the tokens plus the refill are at most 2 ^ 53, the script is exact: a
    -- missing key counts as a full bucket, any other is refilled by the rate times the seconds since
    -- its last update (none if the clock went back) up to the capacity; and the request is granted
    -- exactly if the bucket holds it.
    pub script-exact :
        (c r now requested t last : ℕ)
        → 0 < r
        → c ≤ 2 ^ 52
        → now ≤ 2 ^ 53
        → last ≤ 2 ^ 53
        → requested ≤ 2 ^ 53
        → r ≤ 2 ^ 53
        → t + (now - last) * r ≤ 2 ^ 53
        → (script fl (whole t last) (of_nat c) (of_nat r) (of_nat now) (of_nat requested)
            ≡ some (verdict c r now requested (at_hand c r now t last)))
          × (script fl missing (of_nat c) (of_nat r) (of_nat now) (of_nat requested)
              ≡ some (verdict c r now requested c))
    unfolding script
    script-exact c r now requested t last pr hc hn hl hr hf hs =
        let ran = attempt-exact c r now requested t last pr hc hn hl hr hf hs in
        (
          ap (checked fl) ran.0 ∙ checked-verdict c r now requested (at_hand c r now t last) pr hc,
          ap (checked fl) ran.1 ∙ checked-verdict c r now requested c pr hc,
        )

    -- Over calls of at most 2 ^ 53 tokens each, in the order of time, on a hash with at most the
    -- capacity, no run of the script fails, and the tokens granted are at most what the bucket
    -- held plus the refill of the time that passed. The conditions: the rate is not 0, the
    -- capacity is at most 2 ^ 52, the end, the rate, and the capacity plus the whole refill are at
    -- most 2 ^ 53, and nothing else changes the hash between the calls.
    pub granted-le :
        (c r : ℕ) (calls : List (ℕ × ℕ)) (t last end : ℕ)
        → 0 < r
        → c ≤ 2 ^ 52
        → t ≤ c
        → end ≤ 2 ^ 53
        → r ≤ 2 ^ 53
        → c + (end - last) * r ≤ 2 ^ 53
        → Timed last end calls
        → (sum : ℕ) × (granted c r calls (whole t last) ≡ some sum) × (sum ≤ t + (end - last) * r)
    unfolding granted
    granted-le c r [] t last end pr hc ht he hf hb timed = (0, refl, omega arith)
    granted-le c r ((now, requested) ∷ calls) t last end pr hc ht he hf hb timed =
        let up : now ≤ end = Timed-le now end calls timed.2 in
        let split : (end - last) * r ≡ (now - last) * r + (end - now) * r =
          time_split last now end r timed.0 up in
        let have : ℕ = at_hand c r now t last in
        let (sum, ran, le) =
          granted-le c r calls (left requested have) now end pr hc
            (left-le c r now t last requested ht) he hf (omega arith) timed.2 in
        let step =
          (script-exact c r now requested t last pr hc (omega arith) (omega arith) timed.1 hf
            (omega arith)).0 in
        (
          (if leb requested have then requested else 0) + sum,
          rw (step, granted, ran, paid_flag (leb requested have) requested),
          omega (arith, paid-le c r now t last requested),
        )
