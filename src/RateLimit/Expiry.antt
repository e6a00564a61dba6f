-- ===== src/RateLimit/Expiry.antt =====
-- The key of a bucket in Redis, which EXPIRE lets go: internal/storage/redis/redis.go, over the calls of
-- one client.
pub mod Deadline
pub mod Unseen
use mathlib.Core.Option
use native.Mathlib.Nat.{mul-le-mul_right, zero-mul}
use nanolink.Prelude.{
  ℕ, ◌+◌, ◌-◌, ◌*◌, ◌^◌, ◌≤◌, ◌<◌, ◌≡◌, refl, ap, ◌∙◌, Bool, true, false, Option, none, some, arith,
  List, [], ◌∷◌, inl, inr, leb, if◌then◌else◌, Bool-cases,
}
use nanolink.Prelude.Float.{Floats, Exact, Whole}
use nanolink.RateLimit.Script.{Hash, Outcome, attempt, checked}
use nanolink.RateLimit.Exact.{
  at_hand, left, Timed, Timed-le, time_split, left-le, lifetime, lifetime_fills, whole, missing,
  verdict, attempt-exact, checked-verdict,
}

module _ (fl : Floats) where
  open fl use {F, of_nat, le, add, is_seconds}

  -- what Redis has at the key, and from when on it drops the key, if EXPIRE has been called
  pub record Key : Type 0 where
    pub hash : Hash fl
    pub deadline : Option F

  -- a key that has never been written, or has been dropped
  abbrev pub unset : Key
  unset = record { hash = record { tokens = none; last_updated = none }; deadline = none }

  abbrev pub dropped : F → Option F → Bool
  dropped now none = false
  dropped now (some d) = le d now

  abbrev pub present : F → Key → Key
  present now k = if dropped now k.deadline then unset else k

  -- HMSET leaves a deadline as it is; EXPIRE sets it, unless it is given no integer
  abbrev pub renewed : Option F → F → Option F → Option F
  renewed old now none = old
  renewed old now (some e) = if is_seconds e then some (add now e) else old

  abbrev pub written : Hash fl → Option (Outcome fl) → Hash fl
  written h none = h
  written h (some o) = record { tokens = some o.tokens; last_updated = some o.last_updated }

  abbrev pub deadline_after : Option F → F → Option (Outcome fl) → Option F
  deadline_after old now none = old
  deadline_after old now (some o) = renewed old now o.expire

  -- A run of the script at the key, and what it returns.
  unfoldable pub evaluate : F → F → F → F → Key → Key × Option (Outcome fl)
  evaluate capacity refill_rate now requested key =
      let k = present now key in
      let o = attempt fl k.hash capacity refill_rate now requested in
      (record { hash = written k.hash o; deadline = deadline_after k.deadline now o }, checked fl o)

  -- The answers to calls, each a time and a number of tokens, one after the other.
  unfoldable pub expiring : F → F → List (ℕ × ℕ) → Key → List (Option (Outcome fl))
  expiring c r [] k = []
  expiring c r ((now, requested) ∷ calls) k =
      let e = evaluate c r (of_nat now) (of_nat requested) k in e.1 ∷ expiring c r calls e.0

  -- The same on a hash that is never dropped.
  unfoldable pub lasting : F → F → List (ℕ × ℕ) → Hash fl → List (Option (Outcome fl))
  lasting c r [] h = []
  lasting c r ((now, requested) ∷ calls) h =
      let o = attempt fl h c r (of_nat now) (of_nat requested) in
      checked fl o ∷ lasting c r calls (written h o)
