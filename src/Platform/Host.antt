-- ===== src/Platform/Host.antt =====
-- The small functions of tailslayer/include/tailslayer/utilities.hpp around the operating system: the
-- core of a thread and the clock on Windows, the physical address of a virtual one, and the two
-- halves of the time stamp counter. What the operating system or the processor says is an argument.
pub mod Clock
mod Tests
use Prim.Native.Nat.{bit_or}
use tailslayer_win.Common.{
  ℕ, ◌+◌, ◌-◌, ◌*◌, ◌/◌, ◌%◌, ◌^◌, Bool, true, false, not, if◌then◌else◌, ltb, ◌==◌, Option, none,
  some, bit_and, max64, Outcome, ok, requires, ◌>>=◌, ◌>>◌,
}

-- `affinityMask` of `SetCurrentThreadProcessorID`: `1 << core_id` is a shift of an `int`, which is
-- undefined from 32 on and negative at 31; the `DWORD_PTR` repeats the sign.
unfoldable pub affinity_mask : ℕ → Outcome ℕ
affinity_mask core_id = do
  requires (ltb core_id 32)
  ok (if core_id == 31 then 2 ^ 64 - 2 ^ 31 else 2 ^ core_id)

-- `SetCurrentThreadProcessorID`, with the answer of `SetThreadAffinityMask`: the new affinity of the
-- thread, or `none` where it keeps the one it had.
unfoldable pub set_current_thread_processor_id : Bool → ℕ → Outcome (Option ℕ)
unfolding affinity_mask
set_current_thread_processor_id accepted core_id = do
  mask ← affinity_mask core_id
  ok (if accepted then some mask else none)

pub record TimeSpec : Type 0 where
  pub tv_sec : ℕ
  pub tv_nsec : ℕ

abbrev pub ns_per_sec : ℕ
ns_per_sec = 1000 * 1000 * 1000

-- `clock_gettime_monotonic` on Windows, from the frequency and the ticks of the performance counter; a
-- `long` is its 32 bits. The product must fit a signed 64-bit number.
unfoldable pub clock_gettime_monotonic : ℕ → ℕ → Outcome (Option TimeSpec)
clock_gettime_monotonic ticks_per_sec ticks = if ticks_per_sec == 0 then ok none else (do
  requires (ltb (ticks % ticks_per_sec * ns_per_sec) (2 ^ 63))
  ok (
      some (record {
        tv_sec = ticks / ticks_per_sec % 2 ^ 32;
        tv_nsec = ticks % ticks_per_sec * ns_per_sec / ticks_per_sec % 2 ^ 32;
      })))

-- `VirtToPhys` on Windows, from the answer of `VMMDLL_MemVirt2Phys`.
unfoldable pub virt_to_phys : (ℕ → Option ℕ) → ℕ → ℕ
virt_to_phys translate vaddr = elim (translate vaddr) [ none ↦ max64 | some physical ↦ physical ]

-- `VirtToPhys` on Linux, from the entries of the page map by their offset, if it can be opened.
abbrev pub from_entry : Option ℕ → ℕ → ℕ
from_entry none vaddr = max64
from_entry (some entry) vaddr =
    if bit_and entry (2 ^ 63) == 0
    then max64
    else (let pfn = bit_and entry (2 ^ 55 - 1) in
        bit_or (pfn * 4096 % 2 ^ 64) (bit_and vaddr 0xFFF))

unfoldable pub virt_to_phys_linux : Bool → (ℕ → Option ℕ) → ℕ → ℕ
virt_to_phys_linux opened pagemap vaddr =
    if not opened then max64 else from_entry (pagemap (vaddr / 4096 * 8)) vaddr

-- `rdtsc_lfence` and `rdtscp_lfence`, from the registers.
unfoldable pub join_halves : ℕ → ℕ → ℕ
join_halves hi lo = bit_or (hi * 2 ^ 32 % 2 ^ 64) lo

-- `CheckCPUSupportForHugePages`, from EDX.
unfoldable pub check_cpu_support : ℕ → Bool
check_cpu_support edx = not (bit_and edx (2 ^ 26) == 0)
