-- ===== src/RateLimit/Expiry/Unseen.antt =====
-- That the expiry of the key in internal/storage/redis/redis.go changes no answer.
use mathlib.Core.Option
use nanolink.Prelude.{
  ℕ, ◌+◌, ◌-◌, ◌*◌, ◌^◌, ◌≤◌, ◌<◌, ◌≡◌, refl, ap, Bool, true, false, Option, none, some, arith,
  List, [], ◌∷◌, inl, inr, leb, if◌then◌else◌, Bool-cases,
}
use nanolink.Prelude.Float.{Floats, Exact, Whole}
use nanolink.RateLimit.Script.{Hash, attempt}
use nanolink.RateLimit.Exact.{
  at_hand, left, Timed, Timed-le, time_split, left-le, lifetime, whole, missing, verdict,
  attempt-exact, checked-verdict,
}
use nanolink.RateLimit.Expiry.{Key, unset, present, renewed, evaluate, expiring, lasting}
use nanolink.RateLimit.Expiry.Deadline.{
  Refilled, over, next_deadline, next_deadline_gone, full_at_hand, fresh-Refilled, stopped-le,
  next-Refilled,
}

module _ (fl : Floats) (exact : Exact fl) (wholly : Whole fl) where
  open fl use {F, of_nat, le}

  abbrev stored : ℕ → ℕ → Option ℕ → Key fl
  stored t last d = record { hash = whole fl t last; deadline = Option.map of_nat d }

  renewed-exact :
      (b : Bool) (old : Option ℕ) (now l : ℕ)
      → now + l ≤ 2 ^ 53
      → renewed fl (Option.map of_nat old) (of_nat now) (if b then some (of_nat l) else none)
        ≡ Option.map of_nat (next_deadline b false (now + l) old)
  renewed-exact true old now l h =
      rw (wholly.seconds_exact l (omega arith), exact.add_exact now l h)
  renewed-exact false old now l h = refl

  -- a run on what is at the key, for a bucket that holds `have`
  run-exact :
      (c r now requested have : ℕ) (key : Key fl) (h : Hash fl) (old : Option ℕ)
      → 0 < r
      → c ≤ 2 ^ 52
      → now + lifetime c r ≤ 2 ^ 53
      → present fl (of_nat now) key ≡ record { hash = h; deadline = Option.map of_nat old }
      → attempt fl h (of_nat c) (of_nat r) (of_nat now) (of_nat requested)
        ≡ some (verdict fl c r now requested have)
      → evaluate fl (of_nat c) (of_nat r) (of_nat now) (of_nat requested) key ≡ (
        stored
            (left requested have)
            now
            (next_deadline (leb requested have) false (now + lifetime c r) old),
        some (verdict fl c r now requested have),
      )
  unfolding evaluate
  run-exact c r now requested have key h old pr hc hl there ran = rw (
    there,
    ran,
    checked-verdict fl exact wholly c r now requested have pr hc,
    renewed-exact (leb requested have) old now (lifetime c r) hl,
  )

  -- Dropped or not, a run at the key is a run on the bucket that was there.
  evaluate-exact :
      (c r now requested t last : ℕ) (d : Option ℕ)
      → 0 < r
      → c ≤ 2 ^ 52
      → r ≤ 2 ^ 53
      → requested ≤ 2 ^ 53
      → last ≤ 2 ^ 53
      → now + lifetime c r ≤ 2 ^ 53
      → t + (now - last) * r ≤ 2 ^ 53
      → Refilled c r t last d
      → evaluate fl (of_nat c) (of_nat r) (of_nat now) (of_nat requested) (stored t last d) ≡ (
        stored (left requested (at_hand c r now t last)) now (
            next_deadline
              (leb requested (at_hand c r now t last))
              (over now d)
              (now + lifetime c r)
              d),
        some (verdict fl c r now requested (at_hand c r now t last)),
      )
  evaluate-exact c r now requested t last none pr hc hf hr hp hl hs h =
      run-exact c r now requested (at_hand c r now t last) (stored t last none) (whole fl t last)
        none pr hc hl refl
        (attempt-exact fl exact wholly c r now requested t last pr hc (omega arith) hp hr hf hs).0
  evaluate-exact c r now requested t last (some e) pr hc hf hr hp hl hs h =
      let ran =
        attempt-exact fl exact wholly c r now requested t last pr hc (omega arith) hp hr hf hs in
      let test : le (of_nat e) (of_nat now) ≡ leb e now = exact.le_exact e now h.1 (omega arith) in
      elim (Bool-cases (leb e now)) [
        | inl gone ↦
            rw (gone, full_at_hand c r now t last e h.0 gone, next_deadline_gone)
              (run-exact c r now requested c (stored t last (some e)) (missing fl) none pr hc hl
                (rw (test, gone) refl) ran.1)
        | inr there ↦ rw there (
            run-exact c r now requested (at_hand c r now t last) (stored t last (some e))
              (whole fl t last) (some e) pr hc hl (rw (test, there) refl) ran.0)
      ]

  -- Over calls in the order of time, on a key that holds `t` tokens, the answers are those of a key
  -- that is never dropped.
  stored-lasting :
      (c r : ℕ) (calls : List (ℕ × ℕ)) (t last end : ℕ) (d : Option ℕ)
      → 0 < r
      → c ≤ 2 ^ 52
      → t ≤ c
      → r ≤ 2 ^ 53
      → end + lifetime c r ≤ 2 ^ 53
      → c + (end - last) * r ≤ 2 ^ 53
      → Timed last end calls
      → Refilled c r t last d
      → expiring fl (of_nat c) (of_nat r) calls (stored t last d)
        ≡ lasting fl (of_nat c) (of_nat r) calls (whole fl t last)
  unfolding expiring lasting
  stored-lasting c r [] t last end d pr hc ht hf he hb timed h = refl
  stored-lasting c r ((now, requested) ∷ calls) t last end d pr hc ht hf he hb timed h =
      let up : now ≤ end = Timed-le now end calls timed.2 in
      let split : (end - last) * r ≡ (now - last) * r + (end - now) * r =
        time_split last now end r timed.0 up in
      let have : ℕ = at_hand c r now t last in
      rw
        (
          evaluate-exact c r now requested t last d pr hc hf timed.1 (omega arith) (omega arith)
              (omega arith) h,
          (attempt-exact fl exact wholly c r now requested t last pr hc (omega arith) (omega arith)
              timed.1 hf (omega arith)).0,
          checked-verdict fl exact wholly c r now requested have pr hc,
        )
        (ap (λ l. some (verdict fl c r now requested have) ∷ l)
          (stored-lasting c r calls (left requested have) now end
            (next_deadline (leb requested have) (over now d) (now + lifetime c r) d) pr hc
            (left-le c r now t last requested ht) hf he (omega arith) timed.2
            (next-Refilled c r now requested t last d pr (omega arith) timed.0 h)))

  -- Calls on a key that does not exist at first, in the order of time from `start` to `end`, are
  -- checked as if EXPIRE never dropped the key: each is granted or denied, with the same tokens left,
  -- since the bucket would be full by the time that the key is dropped. The conditions: the rate is
  -- not 0, the capacity is at most 2 ^ 52, and the rate, the requests, the end with the lifetime of the
  -- key, and the capacity plus the whole refill are at most 2 ^ 53.
  pub expiring-eq-lasting :
      (c r : ℕ) (calls : List (ℕ × ℕ)) (start end : ℕ)
      → 0 < r
      → c ≤ 2 ^ 52
      → r ≤ 2 ^ 53
      → end + lifetime c r ≤ 2 ^ 53
      → c + (end - start) * r ≤ 2 ^ 53
      → Timed start end calls
      → expiring fl (of_nat c) (of_nat r) calls (unset fl)
        ≡ lasting fl (of_nat c) (of_nat r) calls (missing fl)
  unfolding expiring lasting
  expiring-eq-lasting c r [] start end pr hc hf he hb timed = refl
  expiring-eq-lasting c r ((now, requested) ∷ calls) start end pr hc hf he hb timed =
      let up : now ≤ end = Timed-le now end calls timed.2 in
      let split : (end - start) * r ≡ (now - start) * r + (end - now) * r =
        time_split start now end r timed.0 up in
      let ran =
        (attempt-exact fl exact wholly c r now requested c now pr hc (omega arith) (omega arith)
          timed.1 hf (stopped-le c r now (omega arith))).1 in
      rw
        (
          run-exact c r now requested c (unset fl) (missing fl) none pr hc (omega arith) refl ran,
          ran,
          checked-verdict fl exact wholly c r now requested c pr hc,
        )
        (ap (λ l. some (verdict fl c r now requested c) ∷ l)
          (stored-lasting c r calls (left requested c) now end
            (next_deadline (leb requested c) false (now + lifetime c r) none) pr hc (ground arith)
            hf he (omega arith) timed.2
            (fresh-Refilled (leb requested c) c r now (left requested c) pr (omega arith))))
