-- ===== src/Processors.antt =====
-- tailslayer/include/tailslayer/proc.hpp and tailslayer/source/proc.cpp: the logical processors of
-- the machine. `m_reserved` is never read and is left out; on Windows an affinity mask is a group
-- and a bit mask.
pub mod Identity
pub mod Affinity
pub mod Windows
pub mod Linux
pub mod Sysfs
mod Tests
use Prim.Native.Nat.{bit_or}
use tailslayer_win.Common.{
  ℕ, ◌-◌, ◌*◌, ◌%◌, ◌^◌, ◌<◌, Bool, true, false, if◌then◌else◌, List, [], ◌∷◌, max32,
}

-- `GROUP_AFFINITY`.
pub record AffinityMask : Type 0 where
  pub group : ℕ
  pub mask : ℕ

pub record LogicalProcessor : Type 0 where
  pub global_id : ℕ
  pub core_id : ℕ
  pub pkg_id : ℕ
  pub usable : ℕ
  pub affinity_mask : AffinityMask

-- The widths of the fields.
pub record IsSized (lp : LogicalProcessor) : Type 0 where
  pub core_fits : lp.core_id < 2 ^ 32
  pub pkg_fits : lp.pkg_id < 2 ^ 16

unfoldable pub unique_core_id : LogicalProcessor → ℕ
unique_core_id lp =
    let out = lp.core_id in let out2 = lp.pkg_id * 2 ^ 32 % 2 ^ 64 in bit_or out out2

-- The value that stands for no processor.
unfoldable pub no_processor : LogicalProcessor
no_processor = record {
  global_id = max32;
  core_id = max32;
  pkg_id = 2 ^ 16 - 1;
  usable = 0;
  affinity_mask = record { group = 0; mask = 0 };
}

pub record Configuration : Type 0 where
  pub proc : List LogicalProcessor
  pub thread_count : ℕ
  pub physical_core_count : ℕ
  pub core_package_count : ℕ

abbrev pub is_empty {ℓ} : {A : Type ℓ} → List A → Bool
is_empty [] = true
is_empty (x ∷ xs) = false

unfoldable pub destroy : Configuration → Configuration
destroy c = record c { proc = [] }

unfoldable pub physical_core_count : Configuration → ℕ
physical_core_count c = if is_empty c.proc then max32 else c.physical_core_count

unfoldable pub logical_core_count : Configuration → ℕ
logical_core_count c = if is_empty c.proc then max32 else c.thread_count

pub package_count : Configuration → ℕ
package_count c = if is_empty c.proc then max32 else c.core_package_count
