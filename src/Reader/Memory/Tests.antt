-- ===== src/Reader/Memory/Tests.antt =====
-- A machine with pages of 1 GiB, on which the first attempt succeeds, and one that has no memory.
use tailslayer_win.Common.{
  ℕ, ◌+◌, ◌*◌, ◌^◌, ◌<◌, ◌≡◌, ◌⊎◌, refl, arith, true, false, if◌then◌else◌, ltb, none, some, [],
  ◌∷◌,
}
use tailslayer_win.Platform.Region.{usable, find_largest, extend, larger}
use tailslayer_win.Platform.Allocation.{
  Os, TokenAnswers, no_request, end_multiplier, round_up, attempt, attempts,
  allocate_large_page_min, free_large_page, set_lock_memory_privilege,
}
use tailslayer_win.Platform.Allocation.Attempts.{IsOs}
use tailslayer_win.Reader.{hugepage_size, attach_page}
use tailslayer_win.Reader.Memory.{State, check_region, use_block, setup_memory, close_reader}
use tailslayer_win.Reader.Memory.Outcomes.{
  setup_memory-live, setup_memory-contiguous, close_reader-live,
}

abbrev machine : Os
machine = record {
  large_page = 2 ^ 30;
  available = λ _. 2 ^ 34;
  virtual_alloc = λ _ size. if ltb size (2 ^ 50) then some (2 ^ 40) else none;
  translate = λ _ v. if ltb v (2 ^ 41) then some (v + 2 ^ 31) else none;
  virtual_free = true;
}

abbrev bare : Os
bare = record machine { virtual_alloc = λ _ _. none; translate = λ _ _. none }

-- One on which no two pages lie next to each other, and `VirtualFree` fails: the block of
-- 2 GiB has one page that is large enough, and is refused as a whole.
abbrev scattered : Os
scattered = record machine {
  translate = λ _ v. if ltb v (2 ^ 41) then some (v * 2) else none;
  available = λ _. 2 ^ 35;
  virtual_free = false;
}

abbrev willing : TokenAnswers
willing = record { opened = true; looked_up = true; adjusted = true; not_all_assigned = false }

abbrev empty : State ℕ
empty = record {
  succeeded = false;
  reader = record {
    channel_bit = 8;
    channel_offset = 256;
    num_channels = 2;
    replica_page = none;
    logical_index = 0;
    capacity = 2 ^ 27;
    chunk_shift = 6;
    chunk_mask = 63;
    stride_in_elements = 128;
    replicas = 0 ∷ 0 ∷ [];
    cores = 1 ∷ 2 ∷ [];
    memory = λ _. 0;
  };
  alloc = no_request;
  enabled = false;
  live = 4096 ∷ [];
}

machine-IsOs : IsOs 30 machine
machine-IsOs = record {
  page_sized = refl;
  narrow = omega arith;
  placed = λ mul size v e. ground arith;
  below = λ mul v q e. ground arith;
}

succeeds : (setup_memory machine willing 2 66 empty).succeeded ≡ true
unfolding setup_memory use_block check_region attach_page find_largest extend larger round_up
    attempt attempts allocate_large_page_min set_lock_memory_privilege
succeeds = refl

fails : (setup_memory bare willing 2 66 empty).succeeded ≡ false
unfolding setup_memory use_block check_region attach_page find_largest extend larger round_up
    attempt attempts allocate_large_page_min set_lock_memory_privilege
fails = refl

leaves_block : (setup_memory scattered willing 2 66 empty).live ≡ 2 ^ 40 ∷ 4096 ∷ []
unfolding setup_memory use_block check_region attach_page find_largest extend larger round_up
    attempt attempts allocate_large_page_min set_lock_memory_privilege free_large_page
leaves_block = refl

refuses : (setup_memory scattered willing 2 66 empty).succeeded ≡ false
unfolding setup_memory use_block check_region attach_page find_largest extend larger round_up
    attempt attempts allocate_large_page_min set_lock_memory_privilege
refuses = refl

setup_memory-live_example :
    let r = setup_memory scattered willing 2 66 empty in
    (scattered.virtual_free ≡ true → r.live ≡ 4096 ∷ [])
    × (scattered.virtual_free ≡ false
        → (r.live ≡ 4096 ∷ []) ⊎ ((v : ℕ) × (r.alloc.virtaddr ≡ some v) × (r.live ≡ v ∷ 4096 ∷ [])))
setup_memory-live_example = setup_memory-live scattered willing 2 66 empty refuses

setup_memory-contiguous_example :
    (base p : ℕ) × ((setup_memory machine willing 2 66 empty).reader.replica_page ≡ some base)
    × ((setup_memory machine willing 2 66 empty).live ≡ base ∷ 4096 ∷ [])
    × ((j : ℕ)
        → j * 2 ^ 30 < hugepage_size
        → usable (machine.translate end_multiplier (base + j * 2 ^ 30)) ≡ some (p + j * 2 ^ 30))
setup_memory-contiguous_example =
    setup_memory-contiguous 30 machine willing 2 66 empty machine-IsOs succeeds

close_reader-live_example :
    let r = setup_memory machine willing 2 66 empty in
    let closed = close_reader bare willing r in
    (bare.virtual_free ≡ true → closed.live ≡ 4096 ∷ [])
    × (bare.virtual_free ≡ false → closed.live ≡ r.live)
    × (closed.reader.replica_page ≡ none)
close_reader-live_example = close_reader-live machine bare willing willing 2 66 empty succeeds
