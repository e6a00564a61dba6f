-- ===== src/TokenBucket.antt =====
-- internal/pkg/tokenbucket/tokenbucket.go. A time is in nanoseconds; the lock makes `Allow` atomic,
-- and `now` is what its call of time.Now shows.
use nanolink.Prelude.{ℕ, ◌≡◌, refl, Bool, true, false, inl, inr, Bool-cases, if◌then◌else◌}
use nanolink.Prelude.Int.{ℤ, ◌-ℤ◌}
use nanolink.Prelude.Float.{Floats, NonNeg, Ordered}

module _ (fl : Floats) where
  open fl use {F, of_nat, seconds, le, add, sub, mul, min}

  pub record TokenBucket : Type 0 where
    pub capacity : F
    pub refill_rate : F
    pub tokens : F
    pub last_updated : ℤ

  unfoldable pub new_token_bucket : F → F → ℤ → TokenBucket
  new_token_bucket capacity refill_rate now = record {
    capacity = capacity;
    refill_rate = refill_rate;
    tokens = capacity;
    last_updated = now;
  }

  -- `math.Min(tb.capacity, tb.tokens+elapsed*tb.refillRate)`
  unfoldable pub refilled : TokenBucket → ℤ → F
  refilled tb now =
      min tb.capacity (add tb.tokens (mul (seconds (now -ℤ tb.last_updated)) tb.refill_rate))

  unfoldable pub allow : TokenBucket → ℤ → F → TokenBucket × Bool × F
  allow tb now tokens =
      let available = refilled tb now in
      let rest = sub available tokens in
      if le tokens available
      then (record tb { tokens = rest; last_updated = now }, true, rest)
      else (record tb { tokens = available; last_updated = now }, false, available)

  -- Never in debt and never above the capacity.
  pub record IsValid (tb : TokenBucket) : Type 0 where
    pub nonneg : NonNeg fl tb.tokens
    pub bounded : le tb.tokens tb.capacity ≡ true
    pub cap_nonneg : NonNeg fl tb.capacity

  -- `a` is the refill of a call: the time that has passed, times the rate.
  abbrev pub refill : TokenBucket → ℤ → F
  refill tb now = mul (seconds (now -ℤ tb.last_updated)) tb.refill_rate

  module _ (laws : Ordered fl) where
    pub new_token_bucket-IsValid :
        (capacity rate : F) (now : ℤ)
        → NonNeg fl capacity
        → IsValid (new_token_bucket capacity rate now)
    unfolding new_token_bucket
    new_token_bucket-IsValid capacity rate now h = record {
      nonneg = h;
      bounded = laws.le_refl_nonneg capacity h;
      cap_nonneg = h;
    }

    refilled_valid :
        (tb : TokenBucket) (now : ℤ)
        → IsValid tb
        → NonNeg fl (refill tb now)
        → NonNeg fl (refilled tb now) × (le (refilled tb now) tb.capacity ≡ true)
    unfolding refilled
    refilled_valid tb now v h =
        let sum : NonNeg fl (add tb.tokens (refill tb now)) =
          laws.add_nonneg tb.tokens (refill tb now) v.nonneg h in
        (
          laws.min_nonneg tb.capacity (add tb.tokens (refill tb now)) v.cap_nonneg sum,
          laws.min-le_left tb.capacity (add tb.tokens (refill tb now)) v.cap_nonneg sum,
        )

    -- With floats whose order is kept by rounding, a call for a whole number of tokens on a valid
    -- bucket, with a refill that is not negative, keeps the bucket between empty and full and sets
    -- its time; it reports what is left; and it grants the request exactly when the refilled
    -- bucket holds it, taking the tokens only then.
    pub allow-IsValid :
        (tb : TokenBucket) (now : ℤ) (n : ℕ)
        → IsValid tb
        → NonNeg fl (refill tb now)
        → IsValid (allow tb now (of_nat n)).0
          × ((allow tb now (of_nat n)).0.tokens ≡ (allow tb now (of_nat n)).2)
          × ((allow tb now (of_nat n)).0.last_updated ≡ now)
          × ((allow tb now (of_nat n)).1 ≡ le (of_nat n) (refilled tb now))
          × ((allow tb now (of_nat n)).0.tokens ≡ (
              if (allow tb now (of_nat n)).1
              then sub (refilled tb now) (of_nat n)
              else refilled tb now))
    unfolding allow
    allow-IsValid tb now n v h = elim (Bool-cases (le (of_nat n) (refilled tb now))) [
      | inl granted ↦ rw granted (
        record {
          nonneg = laws.sub_nonneg (refilled tb now) n granted;
          bounded =
              laws.le_trans (sub (refilled tb now) (of_nat n)) (refilled tb now) tb.capacity
                (laws.sub-le (refilled tb now) n granted) (refilled_valid tb now v h).1;
          cap_nonneg = v.cap_nonneg;
        },
        refl,
        refl,
        refl,
        refl,
      )
      | inr denied ↦ rw denied (
        record {
          nonneg = (refilled_valid tb now v h).0;
          bounded = (refilled_valid tb now v h).1;
          cap_nonneg = v.cap_nonneg;
        },
        refl,
        refl,
        refl,
        refl,
      )
    ]
