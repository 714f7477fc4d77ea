-- ===== src/Reader.antt =====
-- tailslayer/include/tailslayer/hedged_reader.hpp: `HedgedReader<T, …, N>`. `sizeof(T)` and `N` are
-- arguments. The T objects of the page are a function of their byte address.
pub mod Layout
pub mod Contents
pub mod Vector
pub mod Channels
pub mod Cores
pub mod Memory
pub mod Workers
mod Tests
use tailslayer_win.Common.{
  ℕ, zero, suc, ◌+◌, ◌-◌, ◌*◌, ◌/◌, ◌%◌, ◌^◌, bit_and, Bool, true, false, ◌&&◌, if◌then◌else◌, ltb,
  leb, ◌==◌, Option, none, some, List, get_or, get_elem?, set, tabulate, add64, mul64, ctz, Outcome,
  ok, assert, requires, access, ◌>>=◌, ◌>>◌,
}

abbrev pub default_channel_offset : ℕ
default_channel_offset = 256

abbrev pub default_channel_bit : ℕ
default_channel_bit = 8

abbrev pub default_num_channels : ℕ
default_num_channels = 2

abbrev pub default_num_replicas : ℕ
default_num_replicas = 2

abbrev pub hugepage_size : ℕ
hugepage_size = 2 ^ 30

abbrev pub core_meas_a : ℕ
core_meas_a = 1

abbrev pub core_meas_b : ℕ
core_meas_b = 2

-- `int channel_offset` stands here as the `size_t` that every use of it converts it to.
pub record Reader {ℓ} (A : Type ℓ) : Type ℓ where
  pub channel_bit : ℕ
  pub channel_offset : ℕ
  pub num_channels : ℕ
  pub replica_page : Option ℕ
  pub logical_index : ℕ
  pub capacity : ℕ
  pub chunk_shift : ℕ
  pub chunk_mask : ℕ
  pub stride_in_elements : ℕ
  pub replicas : List ℕ
  pub cores : List ℕ
  pub memory : ℕ → A

-- `setup_replica_cores`, with its loop from 2.
core_loop : ℕ → ℕ → List ℕ → List ℕ
core_loop zero i cores = cores
core_loop (suc left) i cores = core_loop left (suc i) (set cores i (core_meas_b + i - 1))

pub setup_replica_cores : ℕ → ℕ → List ℕ
unfolding core_loop
setup_replica_cores n num_channels =
    let first = set (tabulate n 0 (λ _. 0)) 0 core_meas_a in
    let second = if ltb 1 num_channels && ltb 1 n then set first 1 core_meas_b else first in
    core_loop (n - 2) 2 second

-- The part of the constructor before `setup_memory`. The T objects have no value yet: `memory`.
module _ {ℓ} {A : Type ℓ} (size_of n : ℕ) where
  pub configure : ℕ → ℕ → ℕ → (ℕ → A) → Outcome (Reader A)
  unfolding ctz setup_replica_cores
  configure channel_offset channel_bit num_channels memory = do
    assert (channel_offset % size_of == 0)
    assert (leb n num_channels)
    let elements_per_chunk = channel_offset / size_of
    let stride_bytes = mul64 num_channels channel_offset
    requires (ltb 0 stride_bytes)
    let max_strides = hugepage_size / stride_bytes
    ok (record {
      channel_bit = channel_bit;
      channel_offset = channel_offset;
      num_channels = num_channels;
      replica_page = none;
      logical_index = 0;
      capacity = mul64 max_strides elements_per_chunk;
      chunk_shift = ctz 64 elements_per_chunk;
      chunk_mask = elements_per_chunk - 1;
      stride_in_elements = mul64 num_channels channel_offset / size_of;
      replicas = tabulate n 0 (λ _. 0);
      cores = setup_replica_cores n num_channels;
      memory = memory;
    })

-- `setup_memory` once the region is found: `memset` leaves every T object at `fill`, and replica
-- `i` begins `i` offsets into the page.
module _ {ℓ} {A : Type ℓ} (n : ℕ) (fill : A) where
  unfoldable pub attach_page : ℕ → Reader A → Reader A
  attach_page base r = record r {
    replica_page = some base;
    memory = λ _. fill;
    replicas = tabulate n 0 (λ i. base + i * r.channel_offset);
  }

module _ {ℓ} {A : Type ℓ} where
  pub size : Reader A → ℕ
  size r = r.logical_index

  -- `logical_index >> m_chunk_shift` and `logical_index & m_chunk_mask`, put together.
  pub element_offset : Reader A → ℕ → ℕ
  element_offset r logical_index =
      let chunk_idx = logical_index / 2 ^ r.chunk_shift in
      let offset_in_chunk = bit_and logical_index r.chunk_mask in
      add64 (mul64 chunk_idx r.stride_in_elements) offset_in_chunk

  -- Pointer arithmetic on `T*` goes in steps of `sizeof(T)`.
  pub get_next_logical_index_address : ℕ → Reader A → ℕ → ℕ → ℕ
  unfolding element_offset
  get_next_logical_index_address size_of r replica_idx logical_index =
      get_or r.replicas replica_idx 0 + size_of * element_offset r logical_index

  -- A store of one T object.
  pub store : (ℕ → A) → ℕ → A → ℕ → A
  store memory address val at = if at == address then val else memory at

  -- The loop of `insert` over the replicas, from replica `i` on.
  pub store_replicas : ℕ → ℕ → ℕ → A → Reader A → (ℕ → A) → ℕ → A
  unfolding store get_next_logical_index_address
  store_replicas size_of zero i val r memory = memory
  store_replicas size_of (suc left) i val r memory =
      let target_addr = get_next_logical_index_address size_of r i r.logical_index in
      store_replicas size_of left (suc i) val r (store memory target_addr val)

  -- `locked` is `g_enabledLockMemoryPrivileges`.
  pub insert : ℕ → ℕ → Bool → A → Reader A → Outcome (Reader A)
  unfolding store_replicas
  insert size_of n locked val r = do
    assert locked
    assert (elim r.replica_page [ none ↦ false | some _ ↦ true ])
    assert (ltb (add64 r.logical_index 1) r.capacity)
    ok (record r {
      memory = store_replicas size_of n 0 val r r.memory;
      logical_index = add64 r.logical_index 1;
    })

  -- What `worker_func` hands to `final_work` when `wait_work` returns `read_index`.
  pub worker_read : ℕ → Reader A → ℕ → ℕ → A
  unfolding get_next_logical_index_address
  worker_read size_of r worker_idx read_index =
      r.memory (get_next_logical_index_address size_of r worker_idx read_index)

  -- `insert` of each value in turn.
  pub insert_all : ℕ → ℕ → Bool → List A → Reader A → Outcome (Reader A)
  unfolding insert
  insert_all size_of n locked List.[] r = ok r
  insert_all size_of n locked (List.◌∷◌ v vs) r = do
    r' ← insert size_of n locked v r
    insert_all size_of n locked vs r'
