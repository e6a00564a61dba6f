-- ===== src/RateLimit/Expiry/Deadline.antt =====
-- The time at which a bucket's key is dropped, in internal/storage/redis/redis.go.
use native.Mathlib.Nat.{mul-le-mul_right, zero-mul}
use nanolink.Prelude.{
  ℕ, ◌+◌, ◌-◌, ◌*◌, ◌^◌, ◌≤◌, ◌<◌, ◌≡◌, refl, Bool, true, false, Option, none, some, arith, inl,
  inr, leb, Bool-cases,
}
use nanolink.RateLimit.Exact.{at_hand, left, time_split, lifetime, lifetime_fills}

-- When the key is dropped the bucket would be full.
abbrev pub Refilled : ℕ → ℕ → ℕ → ℕ → Option ℕ → Type 0
Refilled c r t last none = Unit {0}
Refilled c r t last (some e) = (c ≤ t + (e - last) * r) × (e ≤ 2 ^ 53)

abbrev pub over : ℕ → Option ℕ → Bool
over now none = false
over now (some e) = leb e now

-- the deadline after a call
abbrev pub next_deadline : Bool → Bool → ℕ → Option ℕ → Option ℕ
next_deadline true gone later d = some later
next_deadline false true later d = none
next_deadline false false later d = d

pub next_deadline_gone :
    (b : Bool) (later : ℕ) (d : Option ℕ)
    → next_deadline b true later d ≡ next_deadline b false later none
next_deadline_gone true later d = refl
next_deadline_gone false later d = refl

pub full_at_hand :
    (c r now t last e : ℕ) → c ≤ t + (e - last) * r → leb e now ≡ true → at_hand c r now t last ≡ c
full_at_hand c r now t last e h gone =
    let le : e - last ≤ now - last = ground arith in
    let more : (e - last) * r ≤ (now - last) * r = mul-le-mul_right r le in
    let full : leb c (t + (now - last) * r) ≡ true = ground arith in rw full refl

-- The deadline that a granted call sets.
granted-Refilled :
    (c r now rest : ℕ)
    → 0 < r
    → now + lifetime c r ≤ 2 ^ 53
    → Refilled c r rest now (some (now + lifetime c r))
granted-Refilled c r now rest pr hl =
    let e : now + lifetime c r - now ≡ lifetime c r = omega arith in
    (rw e (omega (arith, lifetime_fills c r pr)), hl)

-- The deadline of a key that is new.
pub fresh-Refilled :
    (b : Bool) (c r now rest : ℕ)
    → 0 < r
    → now + lifetime c r ≤ 2 ^ 53
    → Refilled c r rest now (next_deadline b false (now + lifetime c r) none)
fresh-Refilled true c r now rest pr hl = granted-Refilled c r now rest pr hl
fresh-Refilled false c r now rest pr hl = tt

pub stopped-le : (c r now : ℕ) → c ≤ 2 ^ 53 → c + (now - now) * r ≤ 2 ^ 53
stopped-le c r now h = let z : now - now ≡ 0 = omega arith in rw (z, zero-mul) (omega arith)

-- What a call refills counts towards the deadline that was there.
denied-Refilled :
    (c r now t last e : ℕ)
    → last ≤ now
    → leb e now ≡ false
    → c ≤ t + (e - last) * r
    → c ≤ at_hand c r now t last + (e - now) * r
denied-Refilled c r now t last e le there h =
    let split : (e - last) * r ≡ (now - last) * r + (e - now) * r =
      time_split last now e r le (ground arith) in
    ground arith

-- A call keeps the key's deadline late enough.
pub next-Refilled :
    (c r now requested t last : ℕ) (d : Option ℕ)
    → 0 < r
    → now + lifetime c r ≤ 2 ^ 53
    → last ≤ now
    → Refilled c r t last d
    → Refilled c r
        (left requested (at_hand c r now t last))
        now
        (next_deadline (leb requested (at_hand c r now t last)) (over now d) (now + lifetime c r) d)
next-Refilled c r now requested t last d pr hl le h =
    elim (Bool-cases (leb requested (at_hand c r now t last))) [
      | inl granted ↦
          rw granted (granted-Refilled c r now (at_hand c r now t last - requested) pr hl)
      | inr denied ↦ rw denied (kept d h)
    ]
  where
    kept :
        (d : Option ℕ)
        → Refilled c r t last d
        → Refilled c r
            (at_hand c r now t last)
            now
            (next_deadline false (over now d) (now + lifetime c r) d)
    kept none h = tt
    kept (some e) h = elim (Bool-cases (leb e now)) [
      | inl gone ↦ rw gone tt
      | inr there ↦ rw there (denied-Refilled c r now t last e le there h.0, h.1)
    ]
