-- ===== src/Reader/Layout.antt =====
-- The address arithmetic of hedged_reader.hpp: what the constructor precomputes, and where
-- `get_next_logical_index_address` puts each slot.
pub mod Grid
pub mod Configure
use native.Mathlib.Nat.{
  mul-div_cancel_left, mul-div_cancel, mod-eq_of_lt, mod-lt, mul-le-mul_right, div-add-mod,
}
use native.Mathlib.Decide.{ℕ_discrete}
use tailslayer_win.Common.{
  ℕ, zero, suc, ◌+◌, ◌-◌, ◌*◌, ◌/◌, ◌%◌, ◌^◌, ◌≤◌, ◌<◌, ◌≡◌, ◌≢◌, ◌⊎◌, inl, inr, refl, ap, sym, ◌∙◌,
  bit_and, some, arith, get_or, tabulate, get_or-tabulate, mul64, add64, word, ctz, ctz-pow,
  bit_and-mask, pow_two_pos, Outcome, ok,
}
use tailslayer_win.Reader.{
  Reader, hugepage_size, configure, attach_page, element_offset, get_next_logical_index_address,
}
use Grid.{slot_end, slots_apart, digits_unique, quotient_lt, strides_fit}

-- A reader whose chunks hold `2 ^ k` elements, on a page at `base`.
pub record IsLaid {ℓ} {A : Type ℓ} (size_of n k base : ℕ) (r : Reader A) : Type 0 where
  pub shift : r.chunk_shift ≡ k
  pub mask : r.chunk_mask ≡ 2 ^ k - 1
  pub offset : r.channel_offset ≡ size_of * 2 ^ k
  pub stride : r.stride_in_elements ≡ r.num_channels * 2 ^ k
  pub capacity : r.capacity ≡ hugepage_size / (r.num_channels * (size_of * 2 ^ k)) * 2 ^ k
  pub page : r.replica_page ≡ some base
  pub replicas : r.replicas ≡ tabulate n 0 (λ i. base + i * r.channel_offset)
  pub few : n ≤ r.num_channels
  pub sized : 0 < size_of

-- No 64-bit operation of the index computation wraps.
offset_small :
    (size num p l m : ℕ)
    → 0 < size
    → 0 < num
    → 0 < p
    → m ≡ hugepage_size / (num * (size * p))
    → l < m * p
    → l / p * (num * p) + l % p < hugepage_size
offset_small size num p l m hs hn hp e h = omega (
  arith,
  strides_fit hugepage_size num (size * p) m (l / p) 0 e (quotient_lt l m p hp h) hn,
  mul-le-mul_right ((l / p * num + 1) * p) hs,
  mod-lt l hp,
)

module _ {ℓ} {A : Type ℓ} {size_of n k base : ℕ} {r : Reader A}
    (laid : IsLaid size_of n k base r) where
  open r use {num_channels, capacity}

  -- The chunk that holds replica `i` of an element, counted over the page.
  abbrev pub chunk : ℕ → ℕ → ℕ
  chunk i logical = logical / 2 ^ k * num_channels + i

  strides : ℕ
  strides = hugepage_size / (num_channels * (size_of * 2 ^ k))

  module _ {i logical : ℕ} (inside : logical < capacity) (replica : i < n) where
    below_page : logical / 2 ^ k * (num_channels * 2 ^ k) + logical % 2 ^ k < hugepage_size
    unfolding strides
    below_page =
        offset_small size_of num_channels (2 ^ k) logical strides laid.sized
          (omega (arith, laid.few)) (pow_two_pos k) refl (omega (arith, laid.capacity))

    pub element_offset_lem :
        element_offset r logical ≡ logical / 2 ^ k * (num_channels * 2 ^ k) + logical % 2 ^ k
    unfolding element_offset
    element_offset_lem =
        simp (laid.shift, laid.mask, laid.stride, bit_and-mask) (omega (arith, below_page))

    -- Replica `i` of an element lies in chunk `chunk i`, at the element's place in its chunk.
    pub address_lem :
        get_next_logical_index_address size_of r i logical
        ≡ base + (chunk i logical * (size_of * 2 ^ k) + size_of * (logical % 2 ^ k))
    unfolding get_next_logical_index_address
    address_lem =
        simp (laid.replicas, element_offset_lem, laid.offset)
          (omega (arith, get_or-tabulate n 0 i (λ j. base + j * (size_of * 2 ^ k)) 0 replica))

    -- Every slot of an index below the capacity lies on the page.
    pub address-in_page :
        (base ≤ get_next_logical_index_address size_of r i logical)
        × (get_next_logical_index_address size_of r i logical + size_of ≤ base + hugepage_size)
    unfolding strides
    address-in_page = omega (
      arith,
      address_lem,
      slot_end size_of (2 ^ k) (chunk i logical) (logical % 2 ^ k) (mod-lt logical (pow_two_pos k)),
      strides_fit hugepage_size num_channels (size_of * 2 ^ k) strides (logical / 2 ^ k) i refl
          (quotient_lt logical strides (2 ^ k) (pow_two_pos k) (omega (arith, laid.capacity)))
          (omega (arith, laid.few)),
    )

module _ {ℓ} {A : Type ℓ} {size_of n k base : ℕ} {r : Reader A}
    (laid : IsLaid size_of n k base r) where
  open r use {num_channels, capacity}

  -- Different replicas, or different indices, have slots that do not overlap.
  pub addresses_apart :
      {i j logical logical' : ℕ}
      → logical < capacity
      → logical' < capacity
      → i < n
      → j < n
      → (i ≢ j) ⊎ (logical ≢ logical')
      → (get_next_logical_index_address size_of r i logical + size_of
          ≤ get_next_logical_index_address size_of r j logical')
        ⊎ (get_next_logical_index_address size_of r j logical' + size_of
            ≤ get_next_logical_index_address size_of r i logical)
  addresses_apart {i} {j} {logical} {logical'} h h' hi hj ne = omega (
    arith,
    address_lem laid h hi,
    address_lem laid h' hj,
    slots_apart size_of p (chunk laid i logical) (chunk laid j logical') (logical % p)
        (logical' % p) (mod-lt logical (pow_two_pos k)) (mod-lt logical' (pow_two_pos k)) differ,
  )
    where
      p : ℕ
      p = 2 ^ k

      differ : (chunk laid i logical ≢ chunk laid j logical') ⊎ (logical % p ≢ logical' % p)
      differ = elim (ℕ_discrete (chunk laid i logical) (chunk laid j logical')) [
        | no chunks ↦ inl chunks
        | yes same ↦
            let parts =
              digits_unique num_channels (logical / p) (logical' / p) i j (omega (arith, laid.few))
                (omega (arith, laid.few)) same in
            inr (λ e.
              omega (arith, ap (λ c. p * c) parts.0, div-add-mod logical p, div-add-mod logical' p))
      ]
