-- ===== src/Prelude/Bits.antt =====
-- `|` and `&` on words, bit by bit, at every width.
mod Step
use Step.{bit_or_step, bit_and_step}
use Prim.Native.Nat.{
  ℕ, zero, suc, ◌+◌, ◌-◌, ◌*◌, ◌/◌, ◌%◌, ◌^◌, ◌<◌, ◌≤◌, min, max, bit_and, bit_or,
}
use mathlib.Core.Path.{◌≡◌, refl, ap}
use mathlib.Core.Logic.{◌≢◌}
use native.Mathlib.Omega.{arith}
use native.Mathlib.Nat.{pow-suc, div-div-eq-div-mul, zero-div}

-- The bit number k of a word.
abbrev pub bit : ℕ → ℕ → ℕ
bit a k = a / 2 ^ k % 2

-- A number with no digits on the other side.
with_zero : (bound a : ℕ) → a ≤ bound → (bit_or a 0 ≡ a) × (bit_and a 0 ≡ 0)
with_zero bound zero h = (refl, refl)
with_zero zero (suc a) h = absurd (omega arith)
with_zero (suc bound) (suc a) h =
    let (join, meet) = with_zero bound (suc a / 2) (omega arith) in
    (omega (arith, join, bit_or_step (suc a) 0), omega (arith, meet, bit_and_step (suc a) 0))

bit_and-zero : (a : ℕ) → bit_and a 0 ≡ 0
bit_and-zero a = (with_zero a a (omega arith)).1

mul-two_pow-suc : (q k : ℕ) → q * 2 ^ suc k ≡ 2 * (q * 2 ^ k)
mul-two_pow-suc q k = omega (arith, ap (λ (t : ℕ). q * t) (pow-suc 2 k))

pub two_pow-suc : (k : ℕ) → 2 ^ suc k ≡ 2 * 2 ^ k
two_pow-suc k = omega (arith, pow-suc 2 k)

pub pow_pos : (k : ℕ) → 0 < 2 ^ k
pow_pos zero = omega arith
pow_pos (suc k) = omega (arith, two_pow-suc k, pow_pos k)

-- A number in two fields, the lower one of k bits: what joins them, and what masks the lower one.
two_fields :
    (high low k : ℕ)
    → low < 2 ^ k
    → (bit_or (high * 2 ^ k) low ≡ high * 2 ^ k + low)
      × (bit_and (high * 2 ^ k + low) (2 ^ k - 1) ≡ low)
two_fields high low zero h = (
  ground (arith, (with_zero high high (omega arith)).0),
  ground (arith, bit_and-zero (high * 2 ^ 0 + low)),
)
two_fields high low (suc k) h =
    let double : 2 ^ suc k ≡ 2 * 2 ^ k = two_pow-suc k in
    let shifted : high * 2 ^ suc k ≡ 2 * (high * 2 ^ k) = mul-two_pow-suc high k in
    let (join, meet) = two_fields high (low / 2) k (omega arith) in
    let whole : ℕ = high * 2 ^ suc k + low in
    (
      ground (arith, join, shifted, bit_or_step (high * 2 ^ suc k) low),
      ground (arith, meet, shifted, double, pow_pos k, bit_and_step whole (2 ^ suc k - 1)),
    )

-- `(q << k) | r` is a sum when r fits k bits.
pub bit_or_fields : (k q r : ℕ) → r < 2 ^ k → bit_or (q * 2 ^ k) r ≡ q * 2 ^ k + r
bit_or_fields k q r h = (two_fields q r k h).0

-- A mask of k low bits is the remainder by 2 ^ k.
pub bit_and_mask : (k a : ℕ) → bit_and a (2 ^ k - 1) ≡ a % 2 ^ k
bit_and_mask k a =
    let positive : 0 < 2 ^ k = pow_pos k in
    let whole : a / 2 ^ k * 2 ^ k + a % 2 ^ k ≡ a = ground arith in
    rw whole at ((two_fields (a / 2 ^ k) (a % 2 ^ k) k (ground arith)).1)

pub zero-bit : (k : ℕ) → bit 0 k ≡ 0
zero-bit k = rw zero-div

div-two_pow-suc : (a k : ℕ) → a / 2 ^ suc k ≡ a / 2 / 2 ^ k
div-two_pow-suc a k = rw (div-div-eq-div-mul, two_pow-suc)

-- Each bit of `a | b` is the larger of the two.
pub bit-bit_or : (k a b : ℕ) → bit (bit_or a b) k ≡ max (bit a k) (bit b k)
bit-bit_or zero a b = omega (arith, bit_or_step a b)
bit-bit_or (suc k) a b =
    let half : bit_or a b / 2 ≡ bit_or (a / 2) (b / 2) = omega (arith, bit_or_step a b) in
    rw (div-two_pow-suc (bit_or a b) k, div-two_pow-suc a k, div-two_pow-suc b k, half)
      (bit-bit_or k (a / 2) (b / 2))

-- `a & (1 << k)` keeps the bit k alone.
pub bit_and-two_pow : (k a : ℕ) → bit_and a (2 ^ k) ≡ bit a k * 2 ^ k
bit_and-two_pow zero a = omega (arith, bit_and_step a 1, bit_and-zero (a / 2))
bit_and-two_pow (suc k) a =
    let half : 2 ^ suc k / 2 ≡ 2 ^ k = omega (arith, two_pow-suc k) in
    let step : bit_and a (2 ^ suc k)
        ≡ bit_and (a / 2) (2 ^ suc k / 2) * 2 + min (a % 2) (2 ^ suc k % 2) =
      bit_and_step a (2 ^ suc k) in
    let ih : bit_and (a / 2) (2 ^ suc k / 2) ≡ bit (a / 2) k * 2 ^ k =
      rw half (bit_and-two_pow k (a / 2)) in
    rw div-two_pow-suc
      (omega (arith, step, ih, two_pow-suc k, mul-two_pow-suc (a / 2 / 2 ^ k % 2) k))

-- The bits of `1 << j`.
pub bit-two_pow_self : (j : ℕ) → bit (2 ^ j) j ≡ 1
bit-two_pow_self zero = refl
bit-two_pow_self (suc j) =
    let half : 2 ^ suc j / 2 ≡ 2 ^ j = omega (arith, two_pow-suc j) in
    rw (div-two_pow-suc (2 ^ suc j) j, half) (bit-two_pow_self j)

pub bit-two_pow_ne : (j k : ℕ) → j ≢ k → bit (2 ^ j) k ≡ 0
bit-two_pow_ne zero zero h = absurd (h refl)
bit-two_pow_ne zero (suc k) h = rw div-two_pow-suc (zero-bit k)
bit-two_pow_ne (suc j) zero h = omega (arith, two_pow-suc j)
bit-two_pow_ne (suc j) (suc k) h =
    let half : 2 ^ suc j / 2 ≡ 2 ^ j = omega (arith, two_pow-suc j) in
    rw (div-two_pow-suc (2 ^ suc j) k, half) (bit-two_pow_ne j k (λ e. h (ap suc e)))
