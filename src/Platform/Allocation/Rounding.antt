-- ===== src/Platform/Allocation/Rounding.antt =====
-- `(size + page - 1) & ~(page - 1)` in utilities.hpp is the least number of whole pages.
use native.Mathlib.Nat.{div-add-mod, mod-lt, pow-le-pow_right}
use tailslayer_win.Common.{
  ℕ, ◌+◌, ◌-◌, ◌*◌, ◌/◌, ◌%◌, ◌^◌, ◌≤◌, ◌<◌, ◌≡◌, arith, add64, max64, bit_and-high, pow_two_pos,
}
use tailslayer_win.Platform.Allocation.{round_up}

module _ (k size : ℕ) (narrow : k ≤ 30) (small : size < 2 ^ 58) where
  page_small : 2 ^ k ≤ 2 ^ 30
  page_small = pow-le-pow_right (omega arith) narrow

  pub round_up-pow : round_up (2 ^ k) size ≡ (size + (2 ^ k - 1)) / 2 ^ k * 2 ^ k
  unfolding round_up
  round_up-pow =
      let plain : add64 size (2 ^ k - 1) ≡ size + (2 ^ k - 1) = omega (arith, page_small) in
      let mask : max64 - (2 ^ k - 1) ≡ 2 ^ 64 - 2 ^ k = omega (arith, page_small, pow_two_pos k) in
      rw (plain, mask)
        (bit_and-high k 64 (size + (2 ^ k - 1)) (omega arith) (omega (arith, page_small)))

  pub round_up_bounds : (size ≤ round_up (2 ^ k) size) × (round_up (2 ^ k) size < size + 2 ^ k)
  round_up_bounds = (
    omega (arith, round_up-pow, split, rest, pow_two_pos k),
    omega (arith, round_up-pow, split, pow_two_pos k),
  )
    where
      split :
          (size + (2 ^ k - 1)) / 2 ^ k * 2 ^ k + (size + (2 ^ k - 1)) % 2 ^ k ≡ size + (2 ^ k - 1)
      split = omega (arith, div-add-mod (size + (2 ^ k - 1)) (2 ^ k))

      rest : (size + (2 ^ k - 1)) % 2 ^ k < 2 ^ k
      rest = mod-lt (size + (2 ^ k - 1)) (pow_two_pos k)
