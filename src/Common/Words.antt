-- ===== src/Common/Words.antt =====
-- Machine words: 64-bit arithmetic with its wrap-around, `__builtin_ctzll`, and why a mask of low
-- bits and a shift are the remainder and the quotient by a power of two.
use Prim.Native.Nat.{
  ℕ, zero, suc, ◌+◌, ◌-◌, ◌*◌, ◌/◌, ◌%◌, ◌^◌, ◌≤◌, ◌<◌, min, max, bit_and, bit_or, digits,
  bit_and-bitwise, bit_or-bitwise,
}
use mathlib.Core.Path.{◌≡◌, refl, sym, ap, ◌∙◌}
use native.Mathlib.Nat.{
  pow-suc, one-le-pow, mul-add-mod_self_left, mod-eq_of_lt, mod-lt, div-add-mod, div-div-eq-div-mul,
}
use native.Mathlib.Omega.{arith}
use tailslayer_win.Common.Booleans.{◌==◌, if◌then◌else◌}

-- `size_t` and `uint64_t` arithmetic.
abbrev pub word : ℕ
word = 2 ^ 64

-- `UINT64_MAX` and `UINT32_MAX`.
abbrev pub max64 : ℕ
max64 = 2 ^ 64 - 1

abbrev pub max32 : ℕ
max32 = 2 ^ 32 - 1

abbrev pub add64 : ℕ → ℕ → ℕ
add64 a b = (a + b) % word

abbrev pub mul64 : ℕ → ℕ → ℕ
mul64 a b = (a * b) % word

abbrev pub sub64 : ℕ → ℕ → ℕ
sub64 a b = (a + word - b) % word

-- Trailing zeros of a word, at most `bits` of them.
unfoldable pub ctz : ℕ → ℕ → ℕ
ctz zero x = 0
ctz (suc bits) x = if x % 2 == 1 then 0 else suc (ctz bits (x / 2))

pub pow_two_pos : (k : ℕ) → 0 < 2 ^ k
pow_two_pos k = one-le-pow k 2 (omega arith)

pub pow_two_suc : (k : ℕ) → 2 ^ suc k ≡ 2 * 2 ^ k
pow_two_suc k = omega (arith, pow-suc 2 k)

pub ctz-pow : (bits k : ℕ) → k < bits → ctz bits (2 ^ k) ≡ k
unfolding ctz
ctz-pow zero k h = elim h [ ]
ctz-pow (suc bits) zero h = refl
ctz-pow (suc bits) (suc k) h = ground (arith, pow_two_suc k, halved, ctz-pow bits k (omega arith))
  where
    halved : 2 ^ suc k / 2 ≡ 2 ^ k
    halved = omega (arith, pow_two_suc k)

-- The fuel of the library's digit recursion does not matter once it is large enough.
module _ (past : ℕ → ℕ) (digit : ℕ → ℕ → ℕ) where
  digits_enough : (f g a b : ℕ) → a ≤ f → a ≤ g → digits past digit f a b ≡ digits past digit g a b
  digits_enough zero zero a b p q = refl
  digits_enough zero (suc g) zero b p q = refl
  digits_enough zero (suc g) (suc a) b p q = absurd (omega arith)
  digits_enough (suc f) zero zero b p q = refl
  digits_enough (suc f) zero (suc a) b p q = absurd (omega arith)
  digits_enough (suc f) (suc g) zero b p q = refl
  digits_enough (suc f) (suc g) (suc a) b p q =
      ap (λ high. high * 2 + digit (suc a % 2) (b % 2))
        (digits_enough f g (suc a / 2) (b / 2) (omega arith) (omega arith))

bit_and_of_zero : (b : ℕ) → bit_and 0 b ≡ 0
bit_and_of_zero b = bit_and-bitwise 0 b

pub bit_and_halves : (a b : ℕ) → bit_and a b ≡ bit_and (a / 2) (b / 2) * 2 + min (a % 2) (b % 2)
bit_and_halves zero b = omega (arith, bit_and_of_zero b, bit_and_of_zero (b / 2))
bit_and_halves (suc a) b = omega (
  arith,
  bit_and-bitwise (suc a) b,
  bit_and-bitwise (suc a / 2) (b / 2),
  digits_enough (λ _. zero) min a (suc a / 2) (suc a / 2) (b / 2) (omega arith) (omega arith),
)

bit_and_zero_below : (n a : ℕ) → a ≤ n → bit_and a 0 ≡ 0
bit_and_zero_below n zero h = refl
bit_and_zero_below zero (suc a) h = absurd (omega arith)
bit_and_zero_below (suc n) (suc a) h =
    omega (arith, bit_and_halves (suc a) 0, bit_and_zero_below n (suc a / 2) (omega arith))

pub bit_and-zero : (a : ℕ) → bit_and a 0 ≡ 0
bit_and-zero a = bit_and_zero_below a a (omega arith)

pub bit_and-one : (a : ℕ) → bit_and a 1 ≡ a % 2
bit_and-one a = omega (arith, bit_and_halves a 1, bit_and-zero (a / 2))

mod_double : (a t : ℕ) → 0 < t → a % (2 * t) ≡ 2 * (a / 2 % t) + a % 2
mod_double a t h = rw (ap (λ k. k % (2 * t)) split, mul-add-mod_self_left, mod-eq_of_lt small)
  where
    low : ℕ
    low = 2 * (a / 2 % t) + a % 2

    split : a ≡ 2 * t * (a / 2 / t) + low
    split = omega (arith, ap (λ k. 2 * k) (div-add-mod (a / 2) t))

    small : low < 2 * t
    small = omega (arith, mod-lt (a / 2) h)

-- `x & (2^k - 1)` is the remainder by `2^k`.
pub bit_and-mask : (k a : ℕ) → bit_and a (2 ^ k - 1) ≡ a % 2 ^ k
bit_and-mask zero a = omega (arith, bit_and-zero a)
bit_and-mask (suc k) a =
    rw
      (
        bit_and_halves a (2 ^ suc k - 1),
        halved,
        pow_two_suc k,
        mod_double a (2 ^ k) (pow_two_pos k),
      )
      (omega (arith, bit_and-mask k (a / 2), pow_two_pos k))
  where
    halved : (2 ^ suc k - 1) / 2 ≡ 2 ^ k - 1
    halved = omega (arith, pow_two_suc k, pow_two_pos k)

-- `x & ~(2^k - 1)` drops the remainder by `2^k`, in words of any width.
pub bit_and-high : (k w a : ℕ) → k ≤ w → a < 2 ^ w → bit_and a (2 ^ w - 2 ^ k) ≡ a / 2 ^ k * 2 ^ k
bit_and-high zero w a le h =
    let one : a / 1 * 1 ≡ a = omega arith in bit_and-mask w a ∙ mod-eq_of_lt h ∙ sym one
bit_and-high (suc k) zero a le h = absurd (omega arith)
bit_and-high (suc k) (suc w) a le h =
    let low : min (a % 2) ((2 ^ suc w - 2 ^ suc k) % 2) ≡ 0 =
      omega (arith, pow_two_suc w, pow_two_suc k) in
    let rest = bit_and-high k w (a / 2) (omega arith) (omega (arith, pow_two_suc w)) in
    let quotient : a / 2 ^ suc k ≡ a / 2 / 2 ^ k =
      ap (λ d. a / d) (pow_two_suc k) ∙ sym (div-div-eq-div-mul a 2 (2 ^ k)) in
    bit_and_halves a (2 ^ suc w - 2 ^ suc k)
    ∙ rw (halved, rest, quotient, low) (omega (arith, ap (λ d. a / 2 / 2 ^ k * d) (pow_two_suc k)))
  where
    halved : (2 ^ suc w - 2 ^ suc k) / 2 ≡ 2 ^ w - 2 ^ k
    halved = omega (arith, pow_two_suc w, pow_two_suc k)

bit_or_halves :
    (a b : ℕ) → bit_or (suc a) b ≡ bit_or (suc a / 2) (b / 2) * 2 + max (suc a % 2) (b % 2)
bit_or_halves a b = omega (
  arith,
  bit_or-bitwise (suc a) b,
  bit_or-bitwise (suc a / 2) (b / 2),
  digits_enough (λ c. c) max a (suc a / 2) (suc a / 2) (b / 2) (omega arith) (omega arith),
)

-- `x | (y << k)` is a sum where `x` fits below the shift.
pub bit_or-shifted : (k a b : ℕ) → a < 2 ^ k → bit_or a (b * 2 ^ k) ≡ a + b * 2 ^ k
bit_or-shifted k zero b h = bit_or-bitwise 0 (b * 2 ^ k) ∙ omega arith
bit_or-shifted zero (suc a) b h = absurd (omega arith)
bit_or-shifted (suc k) (suc a) b h =
    let shift : b * 2 ^ suc k ≡ 2 * (b * 2 ^ k) = omega (arith, ap (λ d. b * d) (pow_two_suc k)) in
    let half : b * 2 ^ suc k / 2 ≡ b * 2 ^ k = omega arith in
    let rest = bit_or-shifted k (suc a / 2) b (omega (arith, pow_two_suc k)) in
    bit_or_halves a (b * 2 ^ suc k) ∙ rw (half, rest) (omega arith)
