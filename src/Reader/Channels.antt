-- ===== src/Reader/Channels.antt =====
-- Which memory channel each replica's slot lies on, for hedged_reader.hpp on a physically
-- contiguous page, by the address bit that `compute_channel` of utilities.hpp reads.
use native.Mathlib.Nat.{mod-lt}
use tailslayer_win.Common.{
  ℕ, ◌+◌, ◌-◌, ◌*◌, ◌/◌, ◌%◌, ◌^◌, ◌≤◌, ◌<◌, ◌≡◌, sym, ap, ◌∙◌, arith, pow_two_pos,
}
use tailslayer_win.Platform.Channel.{compute_channel, compute_channel_lem}
use tailslayer_win.Reader.{Reader, hugepage_size, get_next_logical_index_address}
use tailslayer_win.Reader.Layout.{IsLaid, address_lem, address-in_page}
use tailslayer_win.Reader.Layout.Grid.{chunk_of, residue_of}

-- The page lies in one physical block that begins `t` strides of all channels into memory.
pub record IsContiguous (phys : ℕ → ℕ) (base t stride : ℕ) : Type 0 where
  pub mapped : (a : ℕ) → base ≤ a → a < base + hugepage_size → phys a ≡ t * stride + (a - base)

module _ {ℓ} {A : Type ℓ} {size_of n k base t : ℕ} {phys : ℕ → ℕ} {r : Reader A}
    (laid : IsLaid size_of n k base r)
    (contiguous : IsContiguous phys base t (r.num_channels * r.channel_offset)) where
  open r use {num_channels, channel_offset, capacity}

  module _ {i logical : ℕ} (inside : logical < capacity) (replica : i < n) where
    -- The physical address of the slot of replica `i`.
    abbrev pub physical : ℕ
    physical = phys (get_next_logical_index_address size_of r i logical)

    physical_lem :
        physical
        ≡ ((t + logical / 2 ^ k) * num_channels + i) * (size_of * 2 ^ k)
          + size_of * (logical % 2 ^ k)
    physical_lem = omega (
      arith,
      contiguous.mapped (get_next_logical_index_address size_of r i logical)
          (address-in_page laid inside replica).0
          (omega (arith, (address-in_page laid inside replica).1, laid.sized)),
      address_lem laid inside replica,
      ap (λ c. t * (num_channels * c)) laid.offset,
    )

    in_chunks : physical / channel_offset ≡ (t + logical / 2 ^ k) * num_channels + i
    in_chunks =
        ap (λ c. physical / c) laid.offset
        ∙ ap (λ a. a / (size_of * 2 ^ k)) physical_lem
        ∙ chunk_of size_of (2 ^ k) ((t + logical / 2 ^ k) * num_channels + i) (logical % 2 ^ k)
            laid.sized (mod-lt logical (pow_two_pos k))

    -- On a physically contiguous page aligned to the strides, counted in units of the channel
    -- offset, every slot of replica `i` falls on residue `i` modulo the number of channels.
    pub physical-channel : physical / channel_offset % num_channels ≡ i
    physical-channel =
        ap (λ c. c % num_channels) in_chunks
        ∙ residue_of num_channels (t + logical / 2 ^ k) i (omega (arith, laid.few))

    module _ (bit half : ℕ) (offset_bit : channel_offset ≡ 2 ^ bit)
        (even : num_channels ≡ 2 * half) where
      -- On such a page, when the channel offset is the channel bit and the number of channels is
      -- even, `compute_channel` gives the parity of the replica for each of its slots. So with two
      -- channels the two replicas of an element are always on different channels, and with four the
      -- function cannot tell replica 0 from replica 2.
      pub compute_channel-replica : compute_channel physical bit ≡ i % 2
      compute_channel-replica =
          compute_channel_lem physical bit
          ∙ ap (λ c. physical / c % 2) (sym offset_bit)
          ∙ ap (λ c. c % 2) in_chunks
          ∙ parity
        where
          parity : ((t + logical / 2 ^ k) * num_channels + i) % 2 ≡ i % 2
          parity = omega (arith, ap (λ c. (t + logical / 2 ^ k) * c) even)
