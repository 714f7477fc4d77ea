-- ===== src/Reader/Layout/Configure.antt =====
-- The constructor of hedged_reader.hpp establishes the layout that the other modules rely on.
use native.Mathlib.Nat.{
  mul-div_cancel_left, mul-mod_right, mod-eq_of_lt, mul-le-mul_right, mul-le-mul_left,
  div-mul-le_self,
}
use tailslayer_win.Common.{
  ℕ, ◌-◌, ◌*◌, ◌/◌, ◌^◌, ◌≤◌, ◌<◌, ◌≡◌, refl, ap, ◌∙◌, none, arith, tabulate, word, ctz-pow,
  pow_two_pos, ok, lt→ltb, le→leb,
}
use tailslayer_win.Reader.{Reader, hugepage_size, setup_replica_cores, configure, attach_page}
use tailslayer_win.Reader.Layout.{IsLaid}

module _ {ℓ} {A : Type ℓ} (size_of n k num bit : ℕ) (memory : ℕ → A) (sized : 0 < size_of)
    (shift : k < 64) (few : n ≤ num) (some_channel : 0 < num)
    (stride_fits : num * (size_of * 2 ^ k) < word) where
  offset : ℕ
  offset = size_of * 2 ^ k

  configured : Reader A
  unfolding offset
  configured = record {
    channel_bit = bit;
    channel_offset = offset;
    num_channels = num;
    replica_page = none;
    logical_index = 0;
    capacity = hugepage_size / (num * offset) * 2 ^ k;
    chunk_shift = k;
    chunk_mask = 2 ^ k - 1;
    stride_in_elements = num * 2 ^ k;
    replicas = tabulate n 0 (λ _. 0);
    cores = setup_replica_cores n num;
    memory = memory;
  }

  stride_pos : 0 < num * (size_of * 2 ^ k)
  stride_pos = omega (
    arith,
    mul-le-mul_right (size_of * 2 ^ k) some_channel,
    mul-le-mul_right (2 ^ k) sized,
    pow_two_pos k,
  )

  capacity_small : hugepage_size / (num * (size_of * 2 ^ k)) * 2 ^ k < word
  capacity_small = omega (
    arith,
    div-mul-le_self hugepage_size (num * (size_of * 2 ^ k)),
    mul-le-mul_left (hugepage_size / (num * (size_of * 2 ^ k))) chunk_le_stride,
  )
    where
      chunk_le_stride : 2 ^ k ≤ num * (size_of * 2 ^ k)
      chunk_le_stride =
          omega
            (arith, mul-le-mul_right (size_of * 2 ^ k) some_channel, mul-le-mul_right (2 ^ k) sized)

  stride_quotient : num * (size_of * 2 ^ k) / size_of ≡ num * 2 ^ k
  stride_quotient = ap (λ t. t / size_of) (omega arith) ∙ mul-div_cancel_left (num * 2 ^ k) sized

  configure_lem : configure size_of n (size_of * 2 ^ k) bit num memory ≡ ok configured
  unfolding configure configured
  configure_lem = simp (
    mul-mod_right,
    mul-div_cancel_left (2 ^ k) sized,
    mod-eq_of_lt stride_fits,
    mod-eq_of_lt capacity_small,
    ctz-pow 64 k shift,
    le→leb n num few,
    lt→ltb 0 (num * (size_of * 2 ^ k)) stride_pos,
    stride_quotient,
  )

  -- With a power of two of elements to a chunk, no more replicas than channels and strides of
  -- 64 bits, the constructor passes its asserts, and once a page is attached the layout holds.
  pub configure-IsLaid :
      (base : ℕ) (fill : A)
      → (r : Reader A) × (configure size_of n (size_of * 2 ^ k) bit num memory ≡ ok r)
        × IsLaid size_of n k base (attach_page n fill base r)
  unfolding configured attach_page
  configure-IsLaid base fill = (
    configured,
    configure_lem,
    record {
      shift = refl;
      mask = refl;
      offset = refl;
      stride = refl;
      capacity = refl;
      page = refl;
      replicas = refl;
      few = few;
      sized = sized;
    },
  )
