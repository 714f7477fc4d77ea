-- ===== src/Platform/Channel.antt =====
-- `compute_channel` of utilities.hpp: one bit of a physical address.
use tailslayer_win.Common.{ℕ, ◌/◌, ◌%◌, ◌^◌, ◌≡◌, bit_and, bit_and-one}

unfoldable pub compute_channel : ℕ → ℕ → ℕ
compute_channel phys_addr channel_bit = bit_and (phys_addr / 2 ^ channel_bit) 1

pub compute_channel_lem :
    (phys_addr channel_bit : ℕ)
    → compute_channel phys_addr channel_bit ≡ phys_addr / 2 ^ channel_bit % 2
unfolding compute_channel
compute_channel_lem phys_addr channel_bit = bit_and-one (phys_addr / 2 ^ channel_bit)
